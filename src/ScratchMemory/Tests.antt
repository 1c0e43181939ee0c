-- ===== src/ScratchMemory/Tests.antt =====
-- The theorems at blocks of 64 bytes.
use vsg.Base.Word.{add64, sub64, mul64}
use vsg.Base.{ℕ, ◌+◌, ◌*◌, ◌≤◌, ◌^◌, ◌%◌, ◌≡◌, refl, some, [], ◌∷◌, arith}
use vsg.ScratchMemory.{Block, align, fits, take, scratch_memory, allocate, allocate_array, release}
use vsg.ScratchMemory.Allocation.{Valid, Returns, allocate_array-Returns, allocate-release}

abbrev new_buffer : ℕ → ℕ
new_buffer size = 8192

new_aligned : (n : ℕ) → new_buffer n % 8 ≡ 0
new_aligned n = refl

new_low : (n : ℕ) → n ≤ 2 ^ 62 → new_buffer n + n + 8 ≤ 2 ^ 63
new_low n h = omega arith

-- 10 bytes have been handed out, and 16 are behind them.
abbrev block : Block
block = record { buffer = 4096; ptr = 4112; size = 64 }

block-Valid : Valid (block ∷ [])
block-Valid = (
  record {
    started = omega arith;
    aligned = refl;
    buffer_aligned = refl;
    ended = omega arith;
    small = omega arith;
    low = omega arith;
  },
  _,
)

-- 50 bytes do not fit any more.
grown :
    allocate new_buffer 50 64 (block ∷ [])
    ≡ some (8192, block ∷ record { buffer = 8192; ptr = 8248; size = 64 } ∷ [])
unfolding allocate scratch_memory fits take align add64 sub64
grown = refl

-- 2^60 items of 16 bytes: their size is 0 modulo 2^64, and the block seems to have room for them.
wrapped : allocate_array new_buffer 16 (2 ^ 60) 64 (block ∷ []) ≡ some (4112, block ∷ [])
unfolding allocate_array allocate scratch_memory fits take align mul64 add64 sub64
wrapped = refl

allocate_array-Returns_example :
    Returns new_buffer (10 * 5) (block ∷ []) (allocate_array new_buffer 10 5 64 (block ∷ []))
allocate_array-Returns_example =
    allocate_array-Returns new_buffer new_aligned new_low 10 5 64 (block ∷ []) block-Valid
      (omega arith) (omega arith)

allocate-release_example :
    (allocate new_buffer 50 64 (release (block ∷ []))
      ≡ some (4096, take 50 (record block { ptr = 4096 }) ∷ release []))
    × Valid (release (block ∷ []))
allocate-release_example =
    allocate-release new_buffer new_aligned new_low 50 64 block [] block-Valid (omega arith)
