-- ===== src/PagedLodContainer/Resize.antt =====
-- `resize`: the new elements go behind the available ones.
mod Loop
mod Range
mod Whole
mod Doubling
pub use Whole.*
pub use Doubling.*
pub use Loop.{range}
