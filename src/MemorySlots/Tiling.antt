-- ===== src/MemorySlots/Tiling.antt =====
-- The free slots of a MemorySlots: what the two containers of free slots hold together, and how
-- adding and removing a slot changes it.

use vsg.Base.{
  ℕ, ◌+◌, ◌-◌, ◌≤◌, ◌<◌, ◌≡◌, inl, inr, true, none, some, [], ◌∷◌, ◌&&◌, arith, ltb, leb, ◌==◌,
  if◌then◌else◌, Option-cases,
}
use vsg.Base.Entries.{
  Entries, find, has_entry, weigh, weigh-insert, weigh-erase, weigh-insert_multi, weigh-erase_entry,
}
use vsg.MemorySlots.{MemorySlots, add_available, remove_slot}

-- 1 where the address `a` lies in the range.
abbrev pub inside : ℕ → ℕ → ℕ → ℕ
inside a offset size = if leb offset a && ltb a (offset + size) then 1 else 0

abbrev pub is_empty : ℕ → ℕ → ℕ
is_empty offset size = if size == 0 then 1 else 0

abbrev pub is_entry : ℕ → ℕ → ℕ → ℕ → ℕ
is_entry k v j w = if j == k && w == v then 1 else 0

abbrev pub size_of : ℕ → ℕ → ℕ
size_of offset size = size

-- The weight of the free slots, read off the map from offsets.
abbrev pub free : MemorySlots → (ℕ → ℕ → ℕ) → ℕ
free m f = weigh f m.offset_sizes

abbrev pub reserved : MemorySlots → (ℕ → ℕ → ℕ) → ℕ
reserved m f = weigh f m.reserved_offset_sizes

pub find-eq-none :
    (k : ℕ) (l : Entries) → weigh is_empty l ≡ 0 → weigh (inside k) l ≡ 0 → find k l ≡ none
find-eq-none k l sized out = elim (Option-cases (find k l)) [
  | inl e ↦ e
  | inr (v, e) ↦ ground (arith, weigh-erase is_empty k v l e, weigh-erase (inside k) k v l e)
]

is_entry-inside :
    (k v : ℕ) (l : Entries)
    → weigh is_empty l ≡ 0
    → 0 < weigh (is_entry k v) l
    → 0 < weigh (inside k) l
unfolding weigh
is_entry-inside k v [] sized has = absurd (omega arith)
is_entry-inside k v ((j, w) ∷ l) sized has = ground (arith, is_entry-inside k v l)

pub find-eq-some :
    (k v : ℕ) (l : Entries)
    → weigh is_empty l ≡ 0
    → weigh (inside k) l ≤ 1
    → 0 < weigh (is_entry k v) l
    → find k l ≡ some v
unfolding weigh find
find-eq-some k v [] sized once has = absurd (omega arith)
find-eq-some k v ((j, w) ∷ l) sized once has =
    ground (arith, is_entry-inside k v l, find-eq-some k v l)

pub is_entry_of_has : (k v : ℕ) (l : Entries) → has_entry k v l ≡ true → 0 < weigh (is_entry k v) l
unfolding weigh has_entry
is_entry_of_has k v [] h = cc
is_entry_of_has k v ((j, w) ∷ l) h = ground (arith, is_entry_of_has k v l)

has_of_is_entry :
    (k v : ℕ) (l : Entries) → 0 < weigh (λ j w. is_entry v k w j) l → has_entry k v l ≡ true
unfolding weigh has_entry
has_of_is_entry k v [] h = absurd (omega arith)
has_of_is_entry k v ((j, w) ∷ l) h = ground (arith, has_of_is_entry k v l)

is_entry_swap :
    (k v : ℕ) (l : Entries) → has_entry k v l ≡ true → 0 < weigh (λ j w. is_entry v k w j) l
unfolding weigh has_entry
is_entry_swap k v [] h = cc
is_entry_swap k v ((j, w) ∷ l) h = ground (arith, is_entry_swap k v l)

pub is_entry_of_find : (k v : ℕ) (l : Entries) → find k l ≡ some v → 0 < weigh (is_entry k v) l
is_entry_of_find k v l h = ground (arith, weigh-erase (is_entry k v) k v l h)

-- The two containers hold the same slots, none is empty, and no two overlap.
pub record Mirrors (m : MemorySlots) : Type 0 where
  pub mirror : (f : ℕ → ℕ → ℕ) → weigh (λ size offset. f offset size) m.available_memory ≡ free m f
  pub sized : free m is_empty ≡ 0
  pub apart : (a : ℕ) → free m (inside a) ≤ 1

module _ (m : MemorySlots) (v : Mirrors m) (offset size : ℕ) where
  pub available_of_find :
      find offset m.offset_sizes ≡ some size → has_entry size offset m.available_memory ≡ true
  available_of_find e = has_of_is_entry size offset m.available_memory (
      omega (arith, v.mirror (is_entry offset size), is_entry_of_find offset size m.offset_sizes e))

  pub find_of_available :
      has_entry size offset m.available_memory ≡ true → find offset m.offset_sizes ≡ some size
  find_of_available h = find-eq-some offset size m.offset_sizes v.sized (v.apart offset) (
      omega
        (arith, v.mirror (is_entry offset size), is_entry_swap size offset m.available_memory h))

  pub free-remove_slot :
      find offset m.offset_sizes ≡ some size
      → (f : ℕ → ℕ → ℕ) → free m f ≡ f offset size + free (remove_slot size offset m) f
  unfolding remove_slot
  free-remove_slot e f = weigh-erase f offset size m.offset_sizes e

  pub remove_slot-Mirrors :
      find offset m.offset_sizes ≡ some size → Mirrors (remove_slot size offset m)
  unfolding remove_slot
  remove_slot-Mirrors e = record {
    mirror = λ f. omega (
      arith,
      v.mirror f,
      weigh-erase f offset size m.offset_sizes e,
      weigh-erase_entry (λ j w. f w j) size offset m.available_memory (available_of_find e),
    );
    sized = omega (arith, v.sized, weigh-erase is_empty offset size m.offset_sizes e);
    apart = λ a. omega (arith, v.apart a, weigh-erase (inside a) offset size m.offset_sizes e);
  }

  module _ (some_size : 0 < size)
      (new : (a : ℕ) → inside a offset size + free m (inside a) ≤ 1) where
    absent : find offset m.offset_sizes ≡ none
    absent = find-eq-none offset m.offset_sizes v.sized (ground (arith, new offset))

    pub free-add_available :
        (f : ℕ → ℕ → ℕ) → free (add_available offset size m) f ≡ f offset size + free m f
    unfolding add_available
    free-add_available f = weigh-insert f offset size m.offset_sizes absent

    pub add_available-Mirrors : Mirrors (add_available offset size m)
    unfolding add_available
    add_available-Mirrors = record {
      mirror = λ f. omega (
        arith,
        v.mirror f,
        weigh-insert f offset size m.offset_sizes absent,
        weigh-insert_multi (λ j w. f w j) size offset m.available_memory,
      );
      sized = ground (arith, v.sized, weigh-insert is_empty offset size m.offset_sizes absent);
      apart = λ a. omega (arith, new a, weigh-insert (inside a) offset size m.offset_sizes absent);
    }

-- The free slots and the reserved ranges tile the memory, and none of them is empty.
pub record Valid (m : MemorySlots) : Type 0 where
  pub mirrors : Mirrors m
  pub tiles :
      (a : ℕ)
      → free m (inside a) + reserved m (inside a) ≡ (if ltb a m.total_memory_size then 1 else 0)
  pub reserved_sized : reserved m is_empty ≡ 0
  pub totals : free m size_of + reserved m size_of ≡ m.total_memory_size

module _ (m : MemorySlots) (v : Valid m) (offset size : ℕ) where
  -- A free slot lies within the memory.
  pub free_slot_bounds :
      find offset m.offset_sizes ≡ some size → (0 < size) × (offset + size ≤ m.total_memory_size)
  free_slot_bounds e =
      let pos : 0 < size =
        ground (arith, v.mirrors.sized, weigh-erase is_empty offset size m.offset_sizes e) in
      (
        pos,
        ground (
          arith,
          v.tiles (offset + size - 1),
          weigh-erase (inside (offset + size - 1)) offset size m.offset_sizes e,
        ),
      )

  -- So does a reserved range.
  pub reserved_bounds :
      find offset m.reserved_offset_sizes ≡ some size
      → (0 < size) × (offset + size ≤ m.total_memory_size)
  reserved_bounds e =
      let pos : 0 < size =
        ground
          (arith, v.reserved_sized, weigh-erase is_empty offset size m.reserved_offset_sizes e) in
      (
        pos,
        ground (
          arith,
          v.tiles (offset + size - 1),
          weigh-erase (inside (offset + size - 1)) offset size m.reserved_offset_sizes e,
        ),
      )
