-- ===== src/PagedLodContainer/Move.antt =====
-- `_move`: an element leaves the list that it is in and goes to the end of another.
mod Unlink
mod Append
mod Whole
pub use Whole.*
pub use Unlink.{bounds, cell}
