-- ===== src/MemorySlots.antt =====
-- MemorySlots of include/vsg/vk/DeviceMemory.h and src/vsg/vk/DeviceMemory.cpp: the sub-allocator of
-- device memory and buffers. Sizes and offsets are VkDeviceSize, 64 bits, with their wrap-around.
pub mod Tiling
pub mod Reserve
pub mod Release
pub mod History
mod Tests
use vsg.Base.{
  ℕ, ◌+◌, ◌*◌, ◌/◌, ◌<◌, ◌≡◌, Bool, true, false, Option, none, some, List, [], ◌∷◌, ◌++◌, ltb, leb,
  ◌==◌, if◌then◌else◌, head?, last?,
}
use vsg.Base.Word.{add64, sub64, mul64}
use vsg.Base.Entries.{
  Entries, find, insert, assign, erase, insert_multi, has_entry, erase_entry, below, from, up_to,
  above,
}

-- `available_memory` maps sizes to offsets, the other two map offsets to sizes.
pub record MemorySlots : Type 0 where
  pub available_memory : Entries
  pub offset_sizes : Entries
  pub reserved_offset_sizes : Entries
  pub total_memory_size : ℕ

unfoldable pub init : ℕ → MemorySlots
init available_memory_size = record {
  available_memory = insert_multi available_memory_size 0 [];
  offset_sizes = insert 0 available_memory_size [];
  reserved_offset_sizes = [];
  total_memory_size = available_memory_size;
}

unfoldable pub sum_keys : ℕ → Entries → ℕ
sum_keys total [] = total
sum_keys total ((k, v) ∷ l) = sum_keys (add64 total k) l

unfoldable pub sum_values : ℕ → Entries → ℕ
sum_values total [] = total
sum_values total ((k, v) ∷ l) = sum_values (add64 total v) l

unfoldable pub total_available_size : MemorySlots → ℕ
unfolding sum_keys
total_available_size m = sum_keys 0 m.available_memory

unfoldable pub total_reserved_size : MemorySlots → ℕ
unfolding sum_values
total_reserved_size m = sum_values 0 m.reserved_offset_sizes

-- Only the comparison that makes `check` throw; its other output is a warning.
unfoldable pub check : MemorySlots → Bool
unfolding sum_values
check m =
    add64 (sum_values 0 m.offset_sizes) (sum_values 0 m.reserved_offset_sizes)
    == m.total_memory_size

unfoldable pub full : MemorySlots → Bool
full m = elim m.available_memory [ [] ↦ true | _ ∷ _ ↦ false ]

unfoldable pub maximum_available_space : MemorySlots → ℕ
maximum_available_space m = elim (last? m.available_memory) [ none ↦ 0 | some (size, _) ↦ size ]

-- ((slotStart + alignment - 1) / alignment) * alignment.
unfoldable pub aligned_start : ℕ → ℕ → ℕ
aligned_start slot_start alignment =
    mul64 (sub64 (add64 slot_start alignment) 1 / alignment) alignment

-- alignedSize <= slotSize.
unfoldable pub fits : ℕ → ℕ → ℕ → ℕ → Bool
fits size alignment slot_size slot_start =
    leb (sub64 (add64 (aligned_start slot_start alignment) size) slot_start) slot_size

-- The while loop over the multimap: the slot that it stops at.
unfoldable pub find_slot : ℕ → ℕ → Entries → Option (ℕ × ℕ)
find_slot size alignment [] = none
find_slot size alignment ((slot_size, slot_start) ∷ slots) =
    if fits size alignment slot_size slot_start
    then some (slot_size, slot_start)
    else find_slot size alignment slots

unfoldable pub add_available : ℕ → ℕ → MemorySlots → MemorySlots
add_available offset size m = record m {
  available_memory = insert_multi size offset m.available_memory;
  offset_sizes = insert offset size m.offset_sizes;
}

unfoldable pub remove_slot : ℕ → ℕ → MemorySlots → MemorySlots
remove_slot slot_size slot_start m = record m {
  available_memory = erase_entry slot_size slot_start m.available_memory;
  offset_sizes = erase slot_start m.offset_sizes;
}

unfoldable pub keep_front : ℕ → ℕ → MemorySlots → MemorySlots
keep_front slot_start aligned m =
    if ltb slot_start aligned then add_available slot_start (sub64 aligned slot_start) m else m

unfoldable pub keep_back : ℕ → ℕ → MemorySlots → MemorySlots
keep_back aligned_end slot_end m =
    if ltb aligned_end slot_end then add_available aligned_end (sub64 slot_end aligned_end) m else m

-- The body of the loop for the slot that fits.
unfoldable pub take_slot : ℕ → ℕ → ℕ → ℕ → MemorySlots → MemorySlots
take_slot size alignment slot_size slot_start m =
    let aligned = aligned_start slot_start alignment in
    let aligned_end = add64 aligned size in
    let slot_end = add64 slot_start slot_size in
    let m' =
      keep_back aligned_end slot_end
        (keep_front slot_start aligned (remove_slot slot_size slot_start m)) in
    record m' {
      reserved_offset_sizes = assign aligned (sub64 aligned_end aligned) m'.reserved_offset_sizes;
    }

unfoldable pub reserve : MemorySlots → ℕ → ℕ → (Bool × ℕ) × MemorySlots
reserve m size alignment =
    if full m
    then ((false, 0), m)
    else elim (find_slot size alignment (from size m.available_memory)) [
      | none ↦ ((false, 0), m)
      | some (slot_size, slot_start) ↦ (
        (true, aligned_start slot_start alignment),
        take_slot size alignment slot_size slot_start m,
      )
    ]

-- `slotBefore`: rbegin().base() is end(), so there is no slot before if there is none after.
unfoldable pub slot_before : ℕ → Entries → Option (ℕ × ℕ)
slot_before offset l = elim (above offset l) [ [] ↦ none | _ ∷ _ ↦ last? (up_to offset l) ]

unfoldable pub slot_after : ℕ → Entries → Option (ℕ × ℕ)
slot_after offset l = head? (above offset l)

-- The lambda `eraseSlot`.
unfoldable pub erase_slot : ℕ → ℕ → MemorySlots → MemorySlots
erase_slot offset size m =
    if has_entry size offset m.available_memory then remove_slot size offset m else m

-- Joins the released range to the slot before, if they touch.
unfoldable pub merge_before : Option (ℕ × ℕ) → ℕ → ℕ → MemorySlots → ℕ × ℕ × MemorySlots
merge_before none offset size m = (offset, size, m)
merge_before (some (before, before_size)) offset size m =
    if add64 before before_size == offset
    then (before, sub64 (add64 offset size) before, erase_slot before before_size m)
    else (offset, size, m)

unfoldable pub merge_after : Option (ℕ × ℕ) → ℕ → ℕ → MemorySlots → ℕ × ℕ × MemorySlots
merge_after none offset size m = (offset, size, m)
merge_after (some (after, after_size)) offset size m =
    if add64 offset size == after
    then (offset, sub64 (add64 after after_size) offset, erase_slot after after_size m)
    else (offset, size, m)

-- The part of `release` behind the check for the first empty space.
unfoldable pub put_back : ℕ → ℕ → MemorySlots → MemorySlots
put_back offset size m =
    let before = slot_before offset m.offset_sizes in
    let after = slot_after offset m.offset_sizes in
    let (offset', size', m') = merge_before before offset size m in
    let (offset'', size'', m'') = merge_after after offset' size' m' in
    add_available offset'' size'' m''

-- The `size` of the caller is replaced by the reserved size.
unfoldable pub release : MemorySlots → ℕ → ℕ → MemorySlots
release m offset size = elim (find offset m.reserved_offset_sizes) [
  | none ↦ m
  | some reserved_size ↦
      let m' = record m { reserved_offset_sizes = erase offset m.reserved_offset_sizes } in
      elim m'.offset_sizes [
        | [] ↦ add_available offset reserved_size m'
        | _ ∷ _ ↦ put_back offset reserved_size m'
      ]
]
