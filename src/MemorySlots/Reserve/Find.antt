-- ===== src/MemorySlots/Reserve/Find.antt =====
-- The search of MemorySlots::reserve: the slot that it stops at is a free slot with room, and where
-- it finds none no free slot has room.
use vsg.Base.{
  ℕ, ◌+◌, ◌^◌, ◌≤◌, ◌<◌, ◌≡◌, inl, inr, ◌⊎◌, true, false, none, some, [], ◌∷◌, arith, le→leb,
  Bool-cases,
}
use vsg.Base.Word.{add64_exact, sub64_exact}
use vsg.Base.Entries.{Entries, find, has_entry, from}
use vsg.MemorySlots.{MemorySlots, fits, find_slot, aligned_start}
use vsg.MemorySlots.Tiling.{Valid, available_of_find, free_slot_bounds}
use vsg.MemorySlots.Reserve.Align.{aligned_start_bounds}

pub has_entry-from :
    (k v size : ℕ) (l : Entries) → has_entry k v (from size l) ≡ true → has_entry k v l ≡ true
unfolding has_entry from
has_entry-from k v size [] h = h
has_entry-from k v size ((j, w) ∷ l) h = ground (arith, has_entry-from k v size l)

-- What lower_bound skips is too small.
has_entry-split :
    (k v size : ℕ) (l : Entries)
    → has_entry k v l ≡ true
    → (k < size) ⊎ (has_entry k v (from size l) ≡ true)
unfolding has_entry from
has_entry-split k v size [] h = cc
has_entry-split k v size ((j, w) ∷ l) h = ground (arith, has_entry-split k v size l)

pub find_slot-has :
    (size alignment : ℕ) (l : Entries) {k v : ℕ}
    → find_slot size alignment l ≡ some (k, v)
    → (has_entry k v l ≡ true) × (fits size alignment k v ≡ true)
unfolding find_slot has_entry
find_slot-has size alignment [] h = cc
find_slot-has size alignment ((j, w) ∷ l) {k} {v} h = elim (Bool-cases (fits size alignment j w)) [
  | inl t ↦ ground (arith, t)
  | inr t ↦ ground (arith, t, find_slot-has size alignment l {k = k} {v = v})
]

find_slot-none :
    (size alignment : ℕ) (l : Entries) (k v : ℕ)
    → find_slot size alignment l ≡ none
    → has_entry k v l ≡ true
    → fits size alignment k v ≡ false
unfolding find_slot has_entry
find_slot-none size alignment [] k v h e = cc
find_slot-none size alignment ((j, w) ∷ l) k v h e = elim (Bool-cases (fits size alignment j w)) [
  | inl t ↦ ground (arith, t)
  | inr t ↦ ground (arith, t, find_slot-none size alignment l k v)
]

-- The aligned range ends within the slot.
abbrev pub Fits : ℕ → ℕ → ℕ → ℕ → Type 0
Fits size alignment slot_size start = aligned_start start alignment + size ≤ start + slot_size

fits_of_Fits :
    (size alignment slot_size start : ℕ)
    → 0 < alignment
    → start + alignment + size < 2 ^ 64
    → Fits size alignment slot_size start
    → fits size alignment slot_size start ≡ true
unfolding fits
fits_of_Fits size alignment slot_size start pos h f =
    let b = aligned_start_bounds start alignment pos (omega arith) in
    let a = aligned_start start alignment in
    rw
      (
        add64_exact a size (omega (arith, b.1)),
        sub64_exact (a + size) start (omega (arith, b.0)) (omega (arith, b.1)),
      )
      (le→leb _ _ (omega arith))

module _ (m : MemorySlots) (v : Valid m) (size alignment : ℕ) (pos : 0 < alignment)
    (word : m.total_memory_size + alignment + size < 2 ^ 64) where
  -- A search that fails has met every free slot with room, and there is none.
  pub reserve_none :
      find_slot size alignment (from size m.available_memory) ≡ none
      → (slot_size start : ℕ) → find start m.offset_sizes ≡ some slot_size
      → ¬ Fits size alignment slot_size start
  reserve_none none_found slot_size start e f =
      let bounds = free_slot_bounds m v start slot_size e in
      let fit = fits_of_Fits size alignment slot_size start pos (omega (arith, bounds.1)) f in
      let a = aligned_start_bounds start alignment pos (omega (arith, bounds.1)) in
      elim (has_entry-split slot_size start size m.available_memory
        (available_of_find m v.mirrors start slot_size e)) [
          | inl small ↦ omega (arith, a.0)
          | inr here ↦
              ground (arith, fit, find_slot-none size alignment _ slot_size start none_found here)
        ]
