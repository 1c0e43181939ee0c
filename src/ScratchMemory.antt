-- ===== src/ScratchMemory.antt =====
-- ScratchMemory of include/vsg/core/ScratchMemory.h: blocks that are handed out from the front, each
-- with the next one to go on with. A block and all behind it are a list. The address of a new buffer
-- of some size is a parameter. size_t and addresses are numbers modulo 2^64.
pub mod Allocation
mod Tests
use vsg.Base.Word.{add64, sub64, mul64}
use vsg.Base.{
  ℕ, ◌+◌, ◌-◌, ◌*◌, ◌/◌, Bool, Option, none, some, List, [], ◌∷◌, leb, ltb, if◌then◌else◌,
}

pub record Block : Type 0 where
  pub buffer : ℕ
  pub ptr : ℕ
  pub size : ℕ

-- sizeof(p) is 8.
unfoldable pub align : ℕ → ℕ
align p = sub64 (add64 p 8) 1 / 8 * 8

unfoldable pub fits : ℕ → Block → Bool
fits bytes b = leb (add64 b.ptr bytes) (add64 b.buffer b.size)

unfoldable pub take : ℕ → Block → Block
take bytes b = record b { ptr = align (add64 b.ptr bytes) }

abbrev pub with_block : Block → Option (ℕ × List Block) → Option (ℕ × List Block)
with_block b none = none
with_block b (some (p, bs)) = some (p, b ∷ bs)

module _ (new_buffer : ℕ → ℕ) where
  unfoldable pub scratch_memory : ℕ → Block
  scratch_memory buffer_size = record {
    buffer = new_buffer buffer_size;
    ptr = new_buffer buffer_size;
    size = buffer_size;
  }

  -- The address of `bytes` bytes, and the blocks; none would be a call that goes on for ever.
  -- `size` is that of the block before.
  unfoldable pub allocate : ℕ → ℕ → List Block → Option (ℕ × List Block)
  allocate bytes size [] =
      let b = scratch_memory (if ltb size bytes then bytes else size) in
      if fits bytes b then some (b.ptr, take bytes b ∷ []) else none
  allocate bytes size (b ∷ bs) =
      let others = with_block b (allocate bytes b.size bs) in
      if fits bytes b then some (b.ptr, take bytes b ∷ bs) else others

  -- allocate<T>(num), where `type_size` is sizeof(T).
  unfoldable pub allocate_array : ℕ → ℕ → ℕ → List Block → Option (ℕ × List Block)
  allocate_array type_size num size bs = allocate (mul64 type_size num) size bs

unfoldable pub release : List Block → List Block
release [] = []
release (b ∷ bs) = record b { ptr = b.buffer } ∷ release bs
