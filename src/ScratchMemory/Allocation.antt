-- ===== src/ScratchMemory/Allocation.antt =====
-- What is allocated lies in one block, behind all that the block has handed out before.
use vsg.Base.Word.{add64, add64_exact, sub64_exact, mul64_exact}
use vsg.Base.{
  ℕ, ◌+◌, ◌%◌, ◌≤◌, ◌≡◌, refl, ap, inl, inr, true, leb→le, le→leb, ◌<◌, ◌*◌, ◌/◌, ◌^◌, Option, some,
  List, [], ◌∷◌, ltb, if◌then◌else◌, arith, Bool-cases,
}
use vsg.ScratchMemory.{
  Block, align, fits, take, with_block, scratch_memory, allocate, allocate_array, release,
}

-- The next free address of a block is in it or at the next multiple of 8 behind it, and aligned; blocks
-- are no larger than 2^62 bytes and end in the lower half of the addresses.
pub record ValidBlock (b : Block) : Type 0 where
  pub started : b.buffer ≤ b.ptr
  pub aligned : b.ptr % 8 ≡ 0
  pub buffer_aligned : b.buffer % 8 ≡ 0
  pub ended : b.ptr ≤ b.buffer + b.size + 7
  pub small : b.size ≤ 2 ^ 62
  pub low : b.buffer + b.size + 8 ≤ 2 ^ 63

abbrev pub Valid : List Block → Type 0
Valid [] = Unit
Valid (b ∷ bs) = ValidBlock b × Valid bs

-- The bytes from `p` are in `b`, in front of them is what it has handed out, and `b'` goes on behind.
pub record Takes (bytes p : ℕ) (b b' : Block) : Type 0 where
  pub behind_used : b.ptr ≤ p
  pub inside : b.buffer ≤ p
  pub within : p + bytes ≤ b.buffer + b.size
  pub used : p + bytes ≤ b'.ptr
  pub same_buffer : b'.buffer ≡ b.buffer
  pub same_size : b'.size ≡ b.size

-- Exactly one block, or a new one at the end, has handed out the bytes.
pub data Allocated (new_buffer : ℕ → ℕ) (bytes p : ℕ) : List Block → List Block → Type 0 where
  here :
      (b b' : Block) (bs : List Block)
      → Takes bytes p b b'
      → Allocated new_buffer bytes p (b ∷ bs) (b' ∷ bs)
  later :
      (b : Block) (bs bs' : List Block)
      → Allocated new_buffer bytes p bs bs'
      → Allocated new_buffer bytes p (b ∷ bs) (b ∷ bs')
  added :
      (size : ℕ) (b' : Block)
      → Takes bytes p (scratch_memory new_buffer size) b'
      → Allocated new_buffer bytes p [] (b' ∷ [])

pub record Returns (new_buffer : ℕ → ℕ) (bytes : ℕ) (bs : List Block) (r : Option (ℕ × List Block))
    : Type 0 where
  pub address : ℕ
  pub blocks : List Block
  pub returned : r ≡ some (address, blocks)
  pub allocated : Allocated new_buffer bytes address bs blocks
  pub aligned : address % 8 ≡ 0
  pub valid : Valid blocks

align_exact : (p : ℕ) → p < 2 ^ 63 → align p ≡ (p + 7) / 8 * 8
unfolding align
align_exact p h =
    rw (add64_exact p 8 (omega arith), sub64_exact (p + 8) 1 (omega arith) (omega arith))
      (omega arith)

align_above : (p : ℕ) → p < 2 ^ 63 → p ≤ align p
align_above p h = omega (arith, align_exact p h)

align_below : (p : ℕ) → p < 2 ^ 63 → align p ≤ p + 7
align_below p h = omega (arith, align_exact p h)

align_multiple : (p : ℕ) → p < 2 ^ 63 → align p % 8 ≡ 0
align_multiple p h = omega (arith, align_exact p h)

module _ (bytes : ℕ) (b : Block) (v : ValidBlock b) (small : bytes ≤ 2 ^ 62) where
  end_exact : add64 b.ptr bytes ≡ b.ptr + bytes
  end_exact = add64_exact b.ptr bytes (let x = v.ended in let y = v.low in omega arith)

  limit_exact : add64 b.buffer b.size ≡ b.buffer + b.size
  limit_exact = add64_exact b.buffer b.size (let y = v.low in omega arith)

  fits_within : fits bytes b ≡ true → b.ptr + bytes ≤ b.buffer + b.size
  unfolding fits
  fits_within h = leb→le (b.ptr + bytes) (b.buffer + b.size) (rw (end_exact, limit_exact) at h)

  take-Takes : fits bytes b ≡ true → Takes bytes b.ptr b (take bytes b) × ValidBlock (take bytes b)
  unfolding take
  take-Takes h =
      let within = fits_within h in
      let lower : b.ptr + bytes < 2 ^ 63 = (let y = v.low in omega (arith, within)) in
      let start = v.started in
      let above = align_above (b.ptr + bytes) lower in
      let below = align_below (b.ptr + bytes) lower in
      rw end_exact (
        record {
          behind_used = omega arith;
          inside = v.started;
          within = within;
          used = above;
          same_buffer = refl;
          same_size = refl;
        },
        record {
          started = omega (arith, start, above);
          aligned = align_multiple (b.ptr + bytes) lower;
          buffer_aligned = v.buffer_aligned;
          ended = omega (arith, below, within);
          small = v.small;
          low = v.low;
        },
      )

fits_again :
    (bytes : ℕ) (b : Block)
    → ValidBlock b
    → bytes ≤ b.size
    → fits bytes (record b { ptr = b.buffer }) ≡ true
unfolding fits
fits_again bytes b v h =
    let y = v.low in
    rw (add64_exact b.buffer bytes (omega arith), add64_exact b.buffer b.size (omega arith))
      (le→leb (b.buffer + bytes) (b.buffer + b.size) (omega arith))

-- `new_aligned`: new uint8_t[n] returns an address that is aligned for any object; `new_low`: of as many
-- bytes in the lower half of the addresses.
module _ (new_buffer : ℕ → ℕ) (new_aligned : (n : ℕ) → new_buffer n % 8 ≡ 0)
    (new_low : (n : ℕ) → n ≤ 2 ^ 62 → new_buffer n + n + 8 ≤ 2 ^ 63) where
  new-ValidBlock : (size : ℕ) → size ≤ 2 ^ 62 → ValidBlock (scratch_memory new_buffer size)
  unfolding scratch_memory
  new-ValidBlock size h = record {
    started = omega arith;
    aligned = new_aligned size;
    buffer_aligned = new_aligned size;
    ended = omega arith;
    small = h;
    low = new_low size h;
  }

  new_fits :
      (bytes size : ℕ)
      → bytes ≤ 2 ^ 62
      → size ≤ 2 ^ 62
      → fits bytes (scratch_memory new_buffer (if ltb size bytes then bytes else size)) ≡ true
  unfolding scratch_memory
  new_fits bytes size h k =
      let n = if ltb size bytes then bytes else size in
      fits_again bytes (scratch_memory new_buffer n) (new-ValidBlock n (ground arith))
        (ground arith)

  with_block-Returns :
      (bytes : ℕ) (b : Block) (bs : List Block) (r : Option (ℕ × List Block))
      → ValidBlock b
      → Returns new_buffer bytes bs r
      → Returns new_buffer bytes (b ∷ bs) (with_block b r)
  with_block-Returns bytes b bs r v h = record {
    address = h.address;
    blocks = b ∷ h.blocks;
    returned = ap (with_block b) h.returned;
    allocated = later b bs h.blocks h.allocated;
    aligned = h.aligned;
    valid = (v, h.valid);
  }

  allocate-Returns :
      (bytes size : ℕ) (bs : List Block)
      → Valid bs
      → bytes ≤ 2 ^ 62
      → size ≤ 2 ^ 62
      → Returns new_buffer bytes bs (allocate new_buffer bytes size bs)
  unfolding allocate
  allocate-Returns bytes size [] v h k =
      let n = if ltb size bytes then bytes else size in
      let b = scratch_memory new_buffer n in
      let new = new-ValidBlock n (ground arith) in
      let t = take-Takes bytes b new h (new_fits bytes size h k) in
      rw (new_fits bytes size h k) (record {
        address = b.ptr;
        blocks = take bytes b ∷ [];
        returned = refl;
        allocated = added n (take bytes b) t.0;
        aligned = new.aligned;
        valid = (t.1, _);
      })
  allocate-Returns bytes size (b ∷ bs) v h k = elim (Bool-cases (fits bytes b)) [
    | inl e ↦
        let t = take-Takes bytes b v.0 h e in
        rw e (record {
          address = b.ptr;
          blocks = take bytes b ∷ bs;
          returned = refl;
          allocated = here b (take bytes b) bs t.0;
          aligned = v.0.aligned;
          valid = (t.1, v.1);
        })
    | inr e ↦
        rw e
          (with_block-Returns bytes b bs _ v.0 (allocate-Returns bytes b.size bs v.1 h v.0.small))
  ]

  -- Of blocks whose free addresses are aligned, allocate() of a number of items returns: an aligned
  -- address from which the bytes of all items lie in one block, or in a new one at the end, behind
  -- what that block has handed out before; its next free address is behind them, aligned again, and
  -- no other block changes. The bytes of the items and of each block are no more than 2^62, and the
  -- blocks lie in the lower half of the addresses, as new buffers do, which are aligned.
  pub allocate_array-Returns :
      (type_size num size : ℕ) (bs : List Block)
      → Valid bs
      → type_size * num ≤ 2 ^ 62
      → size ≤ 2 ^ 62
      → Returns new_buffer (type_size * num) bs (allocate_array new_buffer type_size num size bs)
  unfolding allocate_array
  allocate_array-Returns type_size num size bs v h k =
      rw (mul64_exact type_size num (omega (arith, h)))
        (allocate-Returns (type_size * num) size bs v h k)

  release-Valid : (bs : List Block) → Valid bs → Valid (release bs)
  unfolding release
  release-Valid [] v = _
  release-Valid (b ∷ bs) v = (
    record {
      started = omega arith;
      aligned = v.0.buffer_aligned;
      buffer_aligned = v.0.buffer_aligned;
      ended = omega arith;
      small = v.0.small;
      low = v.0.low;
    },
    release-Valid bs v.1,
  )

  -- After `release` of blocks whose free addresses are aligned, an allocation that is no larger than
  -- the first block is at its start again, and the blocks stay such that `allocate` returns. The bytes
  -- of each block are no more than 2^62, and the blocks lie in the lower half of the addresses, as new
  -- buffers do, which are aligned.
  pub allocate-release :
      (bytes size : ℕ) (b : Block) (bs : List Block)
      → Valid (b ∷ bs)
      → bytes ≤ b.size
      → (allocate new_buffer bytes size (release (b ∷ bs))
          ≡ some (b.buffer, take bytes (record b { ptr = b.buffer }) ∷ release bs))
        × Valid (release (b ∷ bs))
  unfolding allocate release
  allocate-release bytes size b bs v h =
      (rw (fits_again bytes b v.0 h) refl, release-Valid (b ∷ bs) v)
