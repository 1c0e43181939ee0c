-- ===== src/MemorySlots/Release/Merge.antt =====
-- The joins of MemorySlots::release. A state with a range that is in neither kind of slot goes
-- through them: a join takes a free slot out and adds it to the range.
use vsg.Base.{
  ℕ, ◌+◌, ◌-◌, ◌^◌, ◌≤◌, ◌<◌, ◌≡◌, inl, inr, true, none, some, Option, [], ◌∷◌, ◌++◌, arith, ltb,
  ◌==◌, if◌then◌else◌, Bool-cases, last?, head?, ==_iff,
}
use vsg.Base.Word.{add64, sub64, add64_exact, sub64-add64_exact}
use vsg.Base.Entries.{Entries, find, has_entry, up_to, above, up_to-append-above}
use vsg.MemorySlots.{
  MemorySlots, slot_before, slot_after, erase_slot, remove_slot, merge_before, merge_after,
}
use vsg.MemorySlots.Tiling.{
  inside, is_empty, is_entry, size_of, free, Mirrors, find-eq-some, is_entry_of_find,
  available_of_find, remove_slot-Mirrors, free-remove_slot,
}

-- The range is apart from the free slots of `m`, which with it hold what `whole` says.
pub record Loose (whole : (ℕ → ℕ → ℕ) → ℕ) (base : MemorySlots) (offset size : ℕ) (m : MemorySlots)
    : Type 0 where
  pub mirrors : Mirrors m
  pub some_size : 0 < size
  pub holds : (a : ℕ) → inside a offset size + free m (inside a) ≡ whole (inside a)
  pub sizes : size + free m size_of ≡ whole size_of
  pub keeps : m.reserved_offset_sizes ≡ base.reserved_offset_sizes
  pub total : m.total_memory_size ≡ base.total_memory_size

-- A state and the range that goes with it.
abbrev pub LooseResult : ((ℕ → ℕ → ℕ) → ℕ) → MemorySlots → ℕ × ℕ × MemorySlots → Type 0
LooseResult whole base (offset, size, m) = Loose whole base offset size m

last-has : (l r : Entries) {k v : ℕ} → last? l ≡ some (k, v) → has_entry k v (l ++ r) ≡ true
unfolding has_entry
last-has [] r h = cc
last-has ((j, w) ∷ []) r h = ground arith
last-has ((j, w) ∷ (x ∷ l)) r {k} {v} h = ground (arith, last-has (x ∷ l) r {k = k} {v = v} h)

head-has : (l r : Entries) {k v : ℕ} → head? r ≡ some (k, v) → has_entry k v (l ++ r) ≡ true
unfolding has_entry
head-has [] [] h = cc
head-has [] ((j, w) ∷ r) h = ground arith
head-has ((j, w) ∷ l) r {k} {v} h = ground (arith, head-has l r {k = k} {v = v} h)

pub slot_before-has :
    (offset : ℕ) (l : Entries) {k v : ℕ}
    → slot_before offset l ≡ some (k, v)
    → has_entry k v l ≡ true
unfolding slot_before
slot_before-has offset l {k} {v} h =
    let e : last? (up_to offset l) ≡ some (k, v) = ground arith in
    rw (up_to-append-above offset l) at (last-has (up_to offset l) (above offset l) e)

pub slot_after-has :
    (offset : ℕ) (l : Entries) {k v : ℕ}
    → slot_after offset l ≡ some (k, v)
    → has_entry k v l ≡ true
unfolding slot_after
slot_after-has offset l h =
    rw (up_to-append-above offset l) at (head-has (up_to offset l) (above offset l) h)

pub slot_after-gt :
    (offset : ℕ) (l : Entries) {k v : ℕ} → slot_after offset l ≡ some (k, v) → offset < k
unfolding slot_after above
slot_after-gt offset [] h = cc
slot_after-gt offset ((j, w) ∷ l) {k} {v} h = ground (arith, slot_after-gt offset l {k = k} {v = v})

module _ (whole : (ℕ → ℕ → ℕ) → ℕ) (base : MemorySlots)
    (once : (a : ℕ) → whole (inside a) ≤ (if ltb a base.total_memory_size then 1 else 0))
    (word : base.total_memory_size < 2 ^ 64) where
  module _ (offset size : ℕ) (m : MemorySlots) (l : Loose whole base offset size m)
      (slot slot_size : ℕ) (found : find slot m.offset_sizes ≡ some slot_size) where
    pub free-erase_slot :
        (f : ℕ → ℕ → ℕ) → free m f ≡ f slot slot_size + free (erase_slot slot slot_size m) f
    unfolding erase_slot
    free-erase_slot f =
        rw (available_of_find m l.mirrors slot slot_size found)
          (free-remove_slot m l.mirrors slot slot_size found f)

    pub erase_slot-Mirrors : Mirrors (erase_slot slot slot_size m)
    unfolding erase_slot
    erase_slot-Mirrors =
        rw (available_of_find m l.mirrors slot slot_size found)
          (remove_slot-Mirrors m l.mirrors slot slot_size found)

    slot_some : 0 < slot_size
    slot_some = ground (arith, l.mirrors.sized, free-erase_slot is_empty)

    slot_end : slot + slot_size ≤ base.total_memory_size
    slot_end =
        let a = slot + slot_size - 1 in
        ground (arith, slot_some, once a, l.holds a, free-erase_slot (inside a))

    range_end : offset + size ≤ base.total_memory_size
    range_end = let a = offset + size - 1 in ground (arith, l.some_size, once a, l.holds a)

    -- A slot that touches the range is taken out and added to it.
    join :
        (joined : ℕ)
        → ((a : ℕ)
            → inside a joined (slot_size + size) ≡ inside a slot slot_size + inside a offset size)
        → Loose whole base joined (slot_size + size) (erase_slot slot slot_size m)
    unfolding erase_slot remove_slot
    join joined touch = record {
      mirrors = erase_slot-Mirrors;
      some_size = omega (arith, slot_some);
      holds = λ a. omega (arith, touch a, l.holds a, free-erase_slot (inside a));
      sizes = omega (arith, l.sizes, free-erase_slot size_of);
      keeps = rw (available_of_find m l.mirrors slot slot_size found) (l.keeps);
      total = rw (available_of_find m l.mirrors slot slot_size found) (l.total);
    }

    -- Another slot stays.
    pub find-erase_slot :
        (other other_size : ℕ)
        → slot < other
        → find other m.offset_sizes ≡ some other_size
        → find other (erase_slot slot slot_size m).offset_sizes ≡ some other_size
    find-erase_slot other other_size lt e =
        find-eq-some other other_size _ erase_slot-Mirrors.sized (erase_slot-Mirrors.apart other) (
          ground (
            arith,
            free-erase_slot (is_entry other other_size),
            is_entry_of_find other other_size m.offset_sizes e,
          ))

    pub merge_before-Loose :
        LooseResult whole base (merge_before (some (slot, slot_size)) offset size m)
    unfolding merge_before
    merge_before-Loose =
        rw (add64_exact slot slot_size (omega (arith, slot_end)))
          (elim (Bool-cases (slot + slot_size == offset)) [
            | inr apart ↦ rw apart l
            | inl touch ↦
                let at : slot + slot_size ≡ offset = (==_iff _ _).0 touch in
                let e : sub64 (add64 offset size) slot ≡ slot_size + size = omega (
                  arith,
                  sub64-add64_exact offset size slot (omega (arith, range_end)) (omega arith),
                ) in
                rw (touch, e) (join slot (λ a. ground (arith)))
          ])

    -- The join with the slot before leaves the other slots.
    pub merge_before-find :
        (other other_size : ℕ)
        → slot < other
        → find other m.offset_sizes ≡ some other_size
        → find other (merge_before (some (slot, slot_size)) offset size m).2.offset_sizes
          ≡ some other_size
    unfolding merge_before
    merge_before-find other other_size lt e = elim (Bool-cases (add64 slot slot_size == offset)) [
      | inl touch ↦ rw touch (find-erase_slot other other_size lt e)
      | inr apart ↦ rw apart e
    ]

    pub merge_after-Loose :
        LooseResult whole base (merge_after (some (slot, slot_size)) offset size m)
    unfolding merge_after
    merge_after-Loose =
        rw (add64_exact offset size (omega (arith, range_end)))
          (elim (Bool-cases (offset + size == slot)) [
            | inr apart ↦ rw apart l
            | inl touch ↦
                let at : offset + size ≡ slot = (==_iff _ _).0 touch in
                let e : sub64 (add64 slot slot_size) offset ≡ slot_size + size = omega (
                  arith,
                  sub64-add64_exact slot slot_size offset (omega (arith, slot_end)) (omega arith),
                ) in
                rw (touch, e) (join offset (λ a. ground (arith)))
          ])

last-le : (offset : ℕ) (l : Entries) {k v : ℕ} → last? (up_to offset l) ≡ some (k, v) → k ≤ offset
unfolding up_to
last-le offset [] h = cc
last-le offset ((j, w) ∷ []) {k} {v} h = ground arith
last-le offset ((j, w) ∷ (i, u) ∷ l) {k} {v} h =
    ground (arith, last-le offset ((i, u) ∷ l) {k = k} {v = v})

pub slot_before-le :
    (offset : ℕ) (l : Entries) {k v : ℕ} → slot_before offset l ≡ some (k, v) → k ≤ offset
unfolding slot_before
slot_before-le offset l {k} {v} h = last-le offset l {k = k} {v = v} (ground arith)

-- The slot, if there is one, is a free slot.
abbrev pub IsSlot : MemorySlots → Option (ℕ × ℕ) → Type 0
IsSlot m none = Unit
IsSlot m (some (slot, size)) = find slot m.offset_sizes ≡ some size

-- Both joins one after the other.
abbrev pub merge : Option (ℕ × ℕ) → Option (ℕ × ℕ) → ℕ → ℕ → MemorySlots → ℕ × ℕ × MemorySlots
merge before after offset size m =
    let (offset', size', m') = merge_before before offset size m in
    merge_after after offset' size' m'
