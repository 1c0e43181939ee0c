-- ===== src/MemorySlots/Release.antt =====
-- MemorySlots::release.
mod Merge
mod Unjoined
mod Whole
pub use Unjoined.{release_unjoined}
pub use Whole.*
