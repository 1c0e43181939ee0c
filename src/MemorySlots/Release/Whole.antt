-- ===== src/MemorySlots/Release/Whole.antt =====
-- MemorySlots::release as a whole.
use vsg.Base.{
  ℕ, ◌+◌, ◌^◌, ◌≤◌, ◌<◌, ◌≡◌, refl, true, none, some, Option, [], ◌∷◌, arith, ltb, if◌then◌else◌,
}
use vsg.Base.Entries.{Entries, find, has_entry, erase, weigh-erase}
use vsg.MemorySlots.{
  MemorySlots, slot_before, slot_after, merge_before, merge_after, put_back, add_available, release,
}
use vsg.MemorySlots.Tiling.{
  inside, is_empty, size_of, free, reserved, Valid, find-eq-some, is_entry_of_has,
  free-add_available, add_available-Mirrors, reserved_bounds,
}
use vsg.MemorySlots.Release.Merge.{
  Loose, LooseResult, IsSlot, merge, merge_before-find, slot_before-le, slot_before-has,
  slot_after-has, slot_after-gt, merge_before-Loose, merge_after-Loose,
}

-- The range goes from the reserved ranges to the free slots, and nothing else changes.
pub record Returns (m : MemorySlots) (offset size : ℕ) (m' : MemorySlots) : Type 0 where
  pub valid : Valid m'
  pub now_free : (a : ℕ) → free m' (inside a) ≡ inside a offset size + free m (inside a)
  pub was_reserved : (f : ℕ → ℕ → ℕ) → reserved m f ≡ f offset size + reserved m' f
  pub total : m'.total_memory_size ≡ m.total_memory_size

module _ (m : MemorySlots) (v : Valid m) (offset size : ℕ)
    (held : find offset m.reserved_offset_sizes ≡ some size)
    (word : m.total_memory_size < 2 ^ 64) where
  -- The state after the reservation is dropped.
  abbrev dropped : MemorySlots
  dropped = record m { reserved_offset_sizes = erase offset m.reserved_offset_sizes }

  abbrev whole : (ℕ → ℕ → ℕ) → ℕ
  whole f = f offset size + free m f

  was_reserved : (f : ℕ → ℕ → ℕ) → reserved m f ≡ f offset size + reserved dropped f
  was_reserved f = weigh-erase f offset size m.reserved_offset_sizes held

  once : (a : ℕ) → whole (inside a) ≤ (if ltb a m.total_memory_size then 1 else 0)
  once a = omega (arith, v.tiles a, was_reserved (inside a))

  start : Loose whole dropped offset size dropped
  start = record {
    mirrors = record {
      mirror = v.mirrors.mirror;
      sized = v.mirrors.sized;
      apart = v.mirrors.apart;
    };
    some_size = (reserved_bounds m v offset size held).0;
    holds = λ a. refl;
    sizes = refl;
    keeps = refl;
    total = refl;
  }

  -- Where the range has been joined to what it touches, it becomes a free slot.
  module _ (o s : ℕ) (n : MemorySlots) (l : Loose whole dropped o s n) where
    new : (a : ℕ) → inside a o s + free n (inside a) ≤ 1
    new a = ground (arith, l.holds a, once a)

    now : (f : ℕ → ℕ → ℕ) → free (add_available o s n) f ≡ f o s + free n f
    now f = free-add_available n l.mirrors o s l.some_size new f

    add_available-Returns : Returns m offset size (add_available o s n)
    unfolding add_available
    add_available-Returns = record {
      valid = record {
        mirrors = add_available-Mirrors n l.mirrors o s l.some_size new;
        tiles = λ a.
            rw (l.keeps, l.total)
              (omega (arith, now (inside a), l.holds a, v.tiles a, was_reserved (inside a)));
        reserved_sized = rw l.keeps (omega (arith, v.reserved_sized, was_reserved is_empty));
        totals =
            rw (l.keeps, l.total)
              (omega (arith, now size_of, l.sizes, v.totals, was_reserved size_of));
      };
      now_free = λ a. omega (arith, now (inside a), l.holds a);
      was_reserved = λ f. rw l.keeps (was_reserved f);
      total = l.total;
    }

  after_before :
      (b : ℕ × ℕ) (after : Option (ℕ × ℕ))
      → IsSlot dropped (some b)
      → IsSlot dropped after
      → ((a : ℕ × ℕ) → after ≡ some a → b.0 < a.0)
      → LooseResult whole dropped (merge (some b) after offset size dropped)
  unfolding merge_after
  after_before (b, bw) none before_slot after_slot order =
      merge_before-Loose whole dropped once word offset size dropped start b bw before_slot
  after_before (b, bw) (some (a, aw)) before_slot after_slot order =
      merge_after-Loose whole dropped once word _ _ _
        (merge_before-Loose whole dropped once word offset size dropped start b bw before_slot) a aw
        (merge_before-find whole dropped once word offset size dropped start b bw before_slot a aw
          (order (a, aw) refl) after_slot)

  merge-Loose :
      (before after : Option (ℕ × ℕ))
      → IsSlot dropped before
      → IsSlot dropped after
      → ((b a : ℕ × ℕ) → before ≡ some b → after ≡ some a → b.0 < a.0)
      → LooseResult whole dropped (merge before after offset size dropped)
  unfolding merge_before merge_after
  merge-Loose none none before_slot after_slot order = start
  merge-Loose none (some (a, aw)) before_slot after_slot order =
      merge_after-Loose whole dropped once word offset size dropped start a aw after_slot
  merge-Loose (some b) after before_slot after_slot order =
      after_before b after before_slot after_slot (λ a. order b a refl)

  entry_slot : (k w : ℕ) → has_entry k w m.offset_sizes ≡ true → find k m.offset_sizes ≡ some w
  entry_slot k w h =
      find-eq-some k w m.offset_sizes v.mirrors.sized (v.mirrors.apart k)
        (is_entry_of_has k w m.offset_sizes h)

  option-IsSlot :
      (o : Option (ℕ × ℕ))
      → ((k w : ℕ) → o ≡ some (k, w) → has_entry k w m.offset_sizes ≡ true)
      → IsSlot dropped o
  option-IsSlot none h = tt
  option-IsSlot (some (k, w)) h = entry_slot k w (h k w refl)

  put_back-Returns : Returns m offset size (put_back offset size dropped)
  unfolding put_back
  put_back-Returns =
      let before = slot_before offset m.offset_sizes in
      let after = slot_after offset m.offset_sizes in
      add_available-Returns _ _ _ (
        merge-Loose before after
          (option-IsSlot before (λ k w e. slot_before-has offset m.offset_sizes e))
          (option-IsSlot after (λ k w e. slot_after-has offset m.offset_sizes e))
          (λ (b, bw) (a, aw) e e'. omega (
            arith,
            slot_before-le offset m.offset_sizes {k = b} {v = bw} e,
            slot_after-gt offset m.offset_sizes {k = a} {v = aw} e',
          )))

  -- `release` of an offset that is reserved makes its range free, whatever size the caller gives.
  pub release-Returns : (given : ℕ) → Returns m offset size (release m offset given)
  unfolding release
  release-Returns given =
      rw (held, release)
        (elim m.offset_sizes
          as (λ (l : Entries). Returns m offset size (elim l [
            | [] ↦ add_available offset size dropped
            | _ ∷ _ ↦ put_back offset size dropped
          ])) [ [] ↦ add_available-Returns offset size dropped start | _ ∷ _ ↦ put_back-Returns ])

-- An offset that is not reserved changes nothing.
pub release_unknown :
    (m : MemorySlots) (offset given : ℕ)
    → find offset m.reserved_offset_sizes ≡ none
    → release m offset given ≡ m
unfolding release
release_unknown m offset given e = rw (e, release)
