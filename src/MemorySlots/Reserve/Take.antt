-- ===== src/MemorySlots/Reserve/Take.antt =====
-- The body of the loop of MemorySlots::reserve: what is left of the slot before and behind the
-- reserved range goes back to the free slots.
use vsg.Base.{
  ℕ, ◌+◌, ◌-◌, ◌^◌, ◌≤◌, ◌<◌, ◌≡◌, refl, inl, inr, ◌∙◌, none, some, arith, ltb, lt→ltb, Bool-cases,
  if◌then◌else◌,
}
use vsg.Base.Word.{add64_exact, sub64_exact}
use vsg.Base.Entries.{find, weigh, assign, weigh-assign}
use vsg.MemorySlots.{
  MemorySlots, add_available, remove_slot, keep_front, keep_back, take_slot, aligned_start,
}
use vsg.MemorySlots.Tiling.{
  inside, is_empty, size_of, free_slot_bounds, free, reserved, Mirrors, Valid, find-eq-none,
  free-remove_slot, remove_slot-Mirrors, free-add_available, add_available-Mirrors,
}

-- `m'` is `m` with the range as one more free slot, or `m` itself where the range is empty.
pub record AddsFree (m : MemorySlots) (offset size : ℕ) (m' : MemorySlots) : Type 0 where
  pub mirrors : Mirrors m'
  pub adds : (f : ℕ → ℕ → ℕ) → free m' f ≡ (if ltb 0 size then f offset size else 0) + free m f
  pub keeps : m'.reserved_offset_sizes ≡ m.reserved_offset_sizes
  pub total : m'.total_memory_size ≡ m.total_memory_size

module _ (m : MemorySlots) (v : Mirrors m) where
  pub add_available-AddsFree :
      (offset size : ℕ)
      → 0 < size
      → ((a : ℕ) → inside a offset size + free m (inside a) ≤ 1)
      → AddsFree m offset size (add_available offset size m)
  unfolding add_available
  add_available-AddsFree offset size pos new = record {
    mirrors = add_available-Mirrors m v offset size pos new;
    adds = λ f. rw (lt→ltb 0 size pos) (free-add_available m v offset size pos new f);
    keeps = refl;
    total = refl;
  }

  nothing : (offset : ℕ) → AddsFree m offset 0 m
  nothing offset = record { mirrors = v; adds = λ f. omega arith; keeps = refl; total = refl }

  pub keep_front-AddsFree :
      (start aligned : ℕ)
      → start ≤ aligned
      → aligned < 2 ^ 64
      → ((a : ℕ) → inside a start (aligned - start) + free m (inside a) ≤ 1)
      → AddsFree m start (aligned - start) (keep_front start aligned m)
  unfolding keep_front
  keep_front-AddsFree start aligned le lt new = elim (Bool-cases (ltb start aligned)) [
    | inl t ↦
        rw (t, sub64_exact aligned start le lt)
          (add_available-AddsFree start (aligned - start) (ground arith) new)
    | inr t ↦ let e : aligned - start ≡ 0 = ground arith in rw (t, e) (nothing start)
  ]

  pub keep_back-AddsFree :
      (aligned_end slot_end : ℕ)
      → aligned_end ≤ slot_end
      → slot_end < 2 ^ 64
      → ((a : ℕ) → inside a aligned_end (slot_end - aligned_end) + free m (inside a) ≤ 1)
      → AddsFree m aligned_end (slot_end - aligned_end) (keep_back aligned_end slot_end m)
  unfolding keep_back
  keep_back-AddsFree aligned_end slot_end le lt new = elim (Bool-cases (ltb aligned_end slot_end)) [
    | inl t ↦
        rw (t, sub64_exact slot_end aligned_end le lt)
          (add_available-AddsFree aligned_end (slot_end - aligned_end) (ground arith) new)
    | inr t ↦ let e : slot_end - aligned_end ≡ 0 = ground arith in rw (t, e) (nothing aligned_end)
  ]

-- The range goes from the free slots to the reserved ones, and nothing else changes.
pub record Moves (m : MemorySlots) (offset size : ℕ) (m' : MemorySlots) : Type 0 where
  pub valid : Valid m'
  pub was_free : (a : ℕ) → free m (inside a) ≡ inside a offset size + free m' (inside a)
  pub now_reserved : (f : ℕ → ℕ → ℕ) → reserved m' f ≡ f offset size + reserved m f
  pub total : m'.total_memory_size ≡ m.total_memory_size

module _ (m : MemorySlots) (v : Valid m) (size alignment slot_size start : ℕ) (pos : 0 < size)
    (slot : find start m.offset_sizes ≡ some slot_size)
    (low : start ≤ aligned_start start alignment)
    (high : aligned_start start alignment + size ≤ start + slot_size)
    (word : m.total_memory_size < 2 ^ 64) where
  abbrev aligned : ℕ
  aligned = aligned_start start alignment

  abbrev removed : MemorySlots
  removed = remove_slot slot_size start m

  abbrev fronted : MemorySlots
  fronted = keep_front start aligned removed

  abbrev backed : MemorySlots
  backed = keep_back (aligned + size) (start + slot_size) fronted

  free-removed : (f : ℕ → ℕ → ℕ) → free m f ≡ f start slot_size + free removed f
  free-removed f = free-remove_slot m v.mirrors start slot_size slot f

  within : start + slot_size ≤ m.total_memory_size
  within = (free_slot_bounds m v start slot_size slot).1

  front : AddsFree removed start (aligned - start) fronted
  front =
      keep_front-AddsFree removed (remove_slot-Mirrors m v.mirrors start slot_size slot) start
        aligned low (omega (arith, within))
        (λ a. ground (arith, v.mirrors.apart a, free-removed (inside a)))

  free-fronted :
      (a : ℕ) → free fronted (inside a) ≡ inside a start (aligned - start) + free removed (inside a)
  free-fronted a = ground (arith, front.adds (inside a))

  back : AddsFree fronted (aligned + size) (start + slot_size - (aligned + size)) backed
  back =
      keep_back-AddsFree fronted front.mirrors (aligned + size) (start + slot_size) high
        (omega (arith, within))
        (λ a. ground (arith, v.mirrors.apart a, free-removed (inside a), free-fronted a))

  free-backed :
      (a : ℕ)
      → free backed (inside a)
        ≡ inside a (aligned + size) (start + slot_size - (aligned + size)) + free fronted (inside a)
  free-backed a = ground (arith, back.adds (inside a))

  -- The slot is the part in front, the reserved range and the part behind.
  was_free : (a : ℕ) → free m (inside a) ≡ inside a aligned size + free backed (inside a)
  was_free a = ground (arith, free-removed (inside a), free-fronted a, free-backed a)

  freed_sizes : free m size_of ≡ size + free backed size_of
  freed_sizes = ground (arith, free-removed size_of, front.adds size_of, back.adds size_of)

  kept : backed.reserved_offset_sizes ≡ m.reserved_offset_sizes
  unfolding remove_slot
  kept = back.keeps ∙ front.keeps

  kept_total : backed.total_memory_size ≡ m.total_memory_size
  unfolding remove_slot
  kept_total = back.total ∙ front.total

  unused : find aligned m.reserved_offset_sizes ≡ none
  unused =
      find-eq-none aligned m.reserved_offset_sizes v.reserved_sized
        (ground (arith, v.tiles aligned, was_free aligned))

  now_reserved :
      (f : ℕ → ℕ → ℕ)
      → weigh f (assign aligned size m.reserved_offset_sizes) ≡ f aligned size + reserved m f
  now_reserved f = weigh-assign f aligned size m.reserved_offset_sizes unused

  -- `take_slot` without the wrap-around.
  abbrev taken : MemorySlots
  taken = record backed { reserved_offset_sizes = assign aligned size m.reserved_offset_sizes }

  taken-Moves : Moves m aligned size taken
  taken-Moves = record {
    valid = record {
      mirrors = record {
        mirror = back.mirrors.mirror;
        sized = back.mirrors.sized;
        apart = back.mirrors.apart;
      };
      tiles = λ a. rw kept_total (omega (arith, v.tiles a, was_free a, now_reserved (inside a)));
      reserved_sized = ground (arith, v.reserved_sized, now_reserved is_empty);
      totals = rw kept_total (omega (arith, v.totals, freed_sizes, now_reserved size_of));
    };
    was_free = was_free;
    now_reserved = now_reserved;
    total = kept_total;
  }

  take_slot-taken : take_slot size alignment slot_size start m ≡ taken
  unfolding take_slot
  take_slot-taken =
      rw
        (
          add64_exact aligned size (omega (arith, within)),
          add64_exact start slot_size (omega (arith, within)),
          sub64_exact (aligned + size) aligned (omega arith) (omega (arith, within)),
        )
        (let e : aligned + size - aligned ≡ size = omega arith in rw (e, kept))

  pub take_slot-Moves : Moves m aligned size (take_slot size alignment slot_size start m)
  take_slot-Moves = rw take_slot-taken taken-Moves
