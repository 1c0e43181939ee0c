-- ===== src/MemorySlots/Reserve/Whole.antt =====
-- MemorySlots::reserve as a whole.
use vsg.Base.{
  ℕ, ◌+◌, ◌%◌, ◌^◌, ◌<◌, ◌≡◌, inl, inr, Bool, true, false, none, some, arith, Option-cases,
  Bool-cases,
}
use vsg.Base.Entries.{find, from}
use vsg.MemorySlots.{MemorySlots, full, find_slot, take_slot, aligned_start, reserve}
use vsg.MemorySlots.Tiling.{Valid, find_of_available, free_slot_bounds}
use vsg.MemorySlots.Reserve.Align.{aligned_start_bounds, fits_bound}
use vsg.MemorySlots.Reserve.Take.{Moves, take_slot-Moves}
use vsg.MemorySlots.Reserve.Find.{Fits, find_slot-has, has_entry-from, reserve_none}

-- What a call of `reserve` does.
pub data Reserves (m : MemorySlots) (size alignment : ℕ) : (Bool × ℕ) × MemorySlots → Type 0 where
  refused :
      ((slot_size start : ℕ)
        → find start m.offset_sizes ≡ some slot_size
        → ¬ Fits size alignment slot_size start)
      → Reserves m size alignment ((false, 0), m)
  granted :
      {offset : ℕ} {m' : MemorySlots}
      → offset % alignment ≡ 0
      → Moves m offset size m'
      → Reserves m size alignment ((true, offset), m')

module _ (m : MemorySlots) (v : Valid m) (size alignment : ℕ) (some_size : 0 < size)
    (pos : 0 < alignment) (word : m.total_memory_size + alignment + size < 2 ^ 64) where
  found-Reserves :
      (slot_size start : ℕ)
      → find_slot size alignment (from size m.available_memory) ≡ some (slot_size, start)
      → Reserves m size alignment
          ((true, aligned_start start alignment), take_slot size alignment slot_size start m)
  found-Reserves slot_size start e =
      let here = find_slot-has size alignment (from size m.available_memory) e in
      let slot =
        find_of_available m v.mirrors start slot_size
          (has_entry-from slot_size start size m.available_memory here.0) in
      let within = (free_slot_bounds m v start slot_size slot).1 in
      let b = aligned_start_bounds start alignment pos (omega (arith, within)) in
      let high = fits_bound size alignment slot_size start pos (omega (arith, within)) here.1 in
      granted b.2
        (take_slot-Moves m v size alignment slot_size start some_size slot b.0 high (omega arith))

  search-Reserves : full m ≡ false → Reserves m size alignment (reserve m size alignment)
  unfolding reserve
  search-Reserves some_slot =
      elim (Option-cases (find_slot size alignment (from size m.available_memory))) [
        | inl e ↦ rw (some_slot, e) (refused (reserve_none m v size alignment pos word e))
        | inr ((slot_size, start), e) ↦ rw (some_slot, e) (found-Reserves slot_size start e)
      ]

  full-none : full m ≡ true → find_slot size alignment (from size m.available_memory) ≡ none
  unfolding full find_slot from
  full-none e = ground arith

  -- `reserve` of a positive size moves an aligned range from the free slots to the reserved ranges
  -- and returns its offset, or it changes nothing and no free slot has room for such a range. The
  -- sums of the memory's size, the alignment and the size must not reach 2^64.
  pub reserve-Reserves : Reserves m size alignment (reserve m size alignment)
  unfolding reserve
  reserve-Reserves = elim (Bool-cases (full m)) [
    | inl e ↦ rw e (refused (reserve_none m v size alignment pos word (full-none e)))
    | inr e ↦ search-Reserves e
  ]
