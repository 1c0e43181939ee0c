-- ===== src/PagedLodContainer/Chain.antt =====
-- The chains of elements that the lists of the container are.
mod Occ
mod Relink
mod Attach
unfoldable pub use Occ.*
unfoldable pub use Relink.*
unfoldable pub use Attach.*
