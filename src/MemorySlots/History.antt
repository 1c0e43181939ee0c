-- ===== src/MemorySlots/History.antt =====
-- Any sequence of calls on a new MemorySlots.
use vsg.Base.{
  ℕ, ◌+◌, ◌^◌, ◌<◌, ◌≡◌, refl, ◌∙◌, inl, inr, true, Bool, List, [], ◌∷◌, arith, Option-cases,
}
use vsg.Base.Word.{add64_exact}
use vsg.Base.Entries.{Entries, find, weigh, insert, insert_multi}
use vsg.MemorySlots.{
  MemorySlots, init, sum_keys, sum_values, total_available_size, total_reserved_size, check,
  reserve, release,
}
use vsg.MemorySlots.Tiling.{inside, size_of, free, reserved, Valid}
use vsg.MemorySlots.Reserve.{Reserves, refused, granted, reserve-Reserves}
use vsg.MemorySlots.Release.{release-Returns, release_unknown}

pub data Call : Type 0 where
  reserves : (size alignment : ℕ) → Call
  releases : (offset size : ℕ) → Call

unfoldable pub step : MemorySlots → Call → MemorySlots
step m (reserves size alignment) = (reserve m size alignment).1
step m (releases offset size) = release m offset size

unfoldable pub run : MemorySlots → List Call → MemorySlots
run m [] = m
run m (c ∷ cs) = run (step m c) cs

-- A request is for a positive size and alignment that do not overflow behind the memory.
abbrev pub IsSane : ℕ → Call → Type 0
IsSane total (reserves size alignment) =
    (0 < size) × (0 < alignment) × (total + alignment + size < 2 ^ 64)
IsSane total (releases offset size) = Unit

abbrev pub AllSane : ℕ → List Call → Type 0
AllSane total [] = Unit
AllSane total (c ∷ cs) = IsSane total c × AllSane total cs

pub init-Valid : (total : ℕ) → 0 < total → Valid (init total)
unfolding init insert insert_multi weigh
init-Valid total pos = record {
  mirrors = record { mirror = λ f. refl; sized = ground arith; apart = λ a. ground arith };
  tiles = λ a. ground arith;
  reserved_sized = refl;
  totals = omega arith;
}

init_total : {total : ℕ} → (init total).total_memory_size ≡ total
unfolding init
init_total = refl

sum_values_exact :
    (acc : ℕ) (l : Entries)
    → acc + weigh size_of l < 2 ^ 64
    → sum_values acc l ≡ acc + weigh size_of l
unfolding sum_values weigh
sum_values_exact acc [] h = omega arith
sum_values_exact acc ((k, v) ∷ l) h =
    rw (add64_exact acc v (omega arith)) (omega (arith, sum_values_exact (acc + v) l (omega arith)))

sum_keys_exact :
    (acc : ℕ) (l : Entries)
    → acc + weigh (λ k v. k) l < 2 ^ 64
    → sum_keys acc l ≡ acc + weigh (λ k v. k) l
unfolding sum_keys weigh
sum_keys_exact acc [] h = omega arith
sum_keys_exact acc ((k, v) ∷ l) h =
    rw (add64_exact acc k (omega arith)) (omega (arith, sum_keys_exact (acc + k) l (omega arith)))

-- A valid state and the memory's size, which no call changes.
pub record Sound (total : ℕ) (m : MemorySlots) : Type 0 where
  pub valid : Valid m
  pub total_size : m.total_memory_size ≡ total

module _ (total : ℕ) (word : total < 2 ^ 64) where
  Reserves-Sound :
      (m : MemorySlots) (size alignment : ℕ) {r : (Bool × ℕ) × MemorySlots}
      → Sound total m
      → Reserves m size alignment r
      → Sound total r.1
  Reserves-Sound m size alignment s (refused no_room) = s
  Reserves-Sound m size alignment s (granted aligned moves) = record {
    valid = moves.valid;
    total_size = moves.total ∙ s.total_size;
  }

  step-Sound :
      (m : MemorySlots) (c : Call) → IsSane total c → Sound total m → Sound total (step m c)
  unfolding step
  step-Sound m (reserves size alignment) h s =
      Reserves-Sound m size alignment s
        (reserve-Reserves m s.valid size alignment h.0 h.1 (rw s.total_size h.2))
  step-Sound m (releases offset size) h s =
      elim (Option-cases (find offset m.reserved_offset_sizes)) [
        | inl e ↦ rw (release_unknown m offset size e) s
        | inr (held, e) ↦
            let r = release-Returns m s.valid offset held e (rw s.total_size word) size in
            record { valid = r.valid; total_size = r.total ∙ s.total_size }
      ]

  run-Sound :
      (m : MemorySlots) (cs : List Call) → AllSane total cs → Sound total m → Sound total (run m cs)
  unfolding run
  run-Sound m [] h s = s
  run-Sound m (c ∷ cs) h s = run-Sound (step m c) cs h.1 (step-Sound m c h.0 s)

  check_of_Sound : (m : MemorySlots) → Sound total m → check m ≡ true
  unfolding check
  check_of_Sound m s =
      let a = sum_values_exact 0 m.offset_sizes (omega (arith, s.valid.totals, s.total_size)) in
      let b =
        sum_values_exact 0 m.reserved_offset_sizes (omega (arith, s.valid.totals, s.total_size)) in
      rw
        (
          a,
          b,
          add64_exact (0 + weigh size_of m.offset_sizes) (0 + weigh size_of m.reserved_offset_sizes)
              (omega (arith, s.valid.totals, s.total_size)),
        )
        (ground (arith, s.valid.totals))

  totals_of_Sound :
      (m : MemorySlots) → Sound total m → total_available_size m + total_reserved_size m ≡ total
  unfolding total_available_size total_reserved_size
  totals_of_Sound m s =
      let mirrored = s.valid.mirrors.mirror size_of in
      let a =
        sum_keys_exact 0 m.available_memory
          (omega (arith, mirrored, s.valid.totals, s.total_size)) in
      let b =
        sum_values_exact 0 m.reserved_offset_sizes (omega (arith, s.valid.totals, s.total_size)) in
      omega (arith, a, b, mirrored, s.valid.totals, s.total_size)

  pub run-Valid : 0 < total → (cs : List Call) → AllSane total cs → Valid (run (init total) cs)
  run-Valid pos cs sane =
      (run-Sound (init total) cs sane
        (record { valid = init-Valid total pos; total_size = init_total })).valid

  -- After any calls on a new MemorySlots, `check` holds, the available and the reserved sizes add
  -- up to the memory, and each address of the memory lies in exactly one free slot or reserved
  -- range. The calls ask for positive sizes and alignments that do not overflow 64 bits.
  pub run_tiles :
      0 < total
      → (cs : List Call) → AllSane total cs
      → let m = run (init total) cs in
        (check m ≡ true)
        × (total_available_size m + total_reserved_size m ≡ total)
        × ((a : ℕ) → a < total → free m (inside a) + reserved m (inside a) ≡ 1)
  run_tiles pos cs sane =
      let s =
        run-Sound (init total) cs sane
          (record { valid = init-Valid total pos; total_size = init_total }) in
      (
        check_of_Sound _ s,
        totals_of_Sound _ s,
        λ a h. ground (arith, s.valid.tiles a, s.total_size),
      )
