-- ===== src/MemorySlots/Reserve/Align.antt =====
-- The alignment arithmetic of MemorySlots::reserve, where it does not wrap around.
use vsg.Base.{ℕ, ◌+◌, ◌-◌, ◌*◌, ◌/◌, ◌%◌, ◌^◌, ◌≤◌, ◌<◌, ◌≡◌, true, arith, leb→le}
use vsg.Base.Word.{add64, sub64, add64_exact, sub64_exact, mul64_exact}
use native.Mathlib.Nat.{mul-mod_left, div-add-mod, div-add-mod', mod-lt}
use vsg.MemorySlots.{aligned_start, fits}

-- The next multiple of `alignment`, over unbounded numbers.
abbrev pub round_up : ℕ → ℕ → ℕ
round_up start alignment = (start + alignment - 1) / alignment * alignment

pub round_up_bounds :
    (start alignment : ℕ)
    → 0 < alignment
    → (start ≤ round_up start alignment) × (round_up start alignment < start + alignment)
round_up_bounds start alignment h =
    let n = start + alignment - 1 in
    (
      grind (arith, div-add-mod n alignment, mod-lt n h),
      grind (arith, div-add-mod n alignment, mod-lt n h),
    )

pub aligned_start_exact :
    (start alignment : ℕ)
    → 0 < alignment
    → start + alignment < 2 ^ 64
    → aligned_start start alignment ≡ round_up start alignment
unfolding aligned_start
aligned_start_exact start alignment pos h =
    rw (add64_exact start alignment h, sub64_exact (start + alignment) 1 (omega arith) h)
      (mul64_exact ((start + alignment - 1) / alignment) alignment
        (omega (arith, div-add-mod' (start + alignment - 1) alignment)))

pub aligned_start_bounds :
    (start alignment : ℕ)
    → 0 < alignment
    → start + alignment < 2 ^ 64
    → (start ≤ aligned_start start alignment)
      × (aligned_start start alignment < start + alignment)
      × (aligned_start start alignment % alignment ≡ 0)
aligned_start_bounds start alignment pos h = rw (aligned_start_exact start alignment pos h) (
    let b = round_up_bounds start alignment pos in
    (b.0, b.1, mul-mod_left ((start + alignment - 1) / alignment) alignment))

-- A slot that passes the test of the loop holds the whole aligned range.
pub fits_bound :
    (size alignment slot_size start : ℕ)
    → 0 < alignment
    → start + alignment + size < 2 ^ 64
    → fits size alignment slot_size start ≡ true
    → aligned_start start alignment + size ≤ start + slot_size
unfolding fits
fits_bound size alignment slot_size start pos h f =
    let b = aligned_start_bounds start alignment pos (omega arith) in
    let a = aligned_start start alignment in
    let total : add64 a size ≡ a + size = add64_exact a size (omega (arith, b.0, b.1)) in
    let diff : sub64 (add64 a size) start ≡ a + size - start =
      rw total (sub64_exact (a + size) start (omega (arith, b.0)) (omega (arith, b.1))) in
    omega (arith, b.0, diff, leb→le _ _ f)
