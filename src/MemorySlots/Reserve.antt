-- ===== src/MemorySlots/Reserve.antt =====
-- MemorySlots::reserve.
mod Align
mod Take
mod Find
mod Whole
pub use Whole.*
pub use Find.{Fits}
pub use Take.{Moves}
pub use Align.{aligned_start_bounds}
