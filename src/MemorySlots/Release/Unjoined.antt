-- ===== src/MemorySlots/Release/Unjoined.antt =====
-- MemorySlots::release behind the last free slot: `slotBefore` is then `rbegin().base()`, which is
-- `end()`, so the join with the slot before is never made.
use vsg.Base.{ℕ, ◌+◌, ◌≡◌, refl, ◌∙◌, none, some, [], ◌∷◌, arith}
use vsg.Base.Entries.{Entries, find, erase, weigh-erase, above, find-insert_self, find-insert_ne}
use vsg.MemorySlots.{
  MemorySlots, slot_before, slot_after, merge_before, merge_after, put_back, add_available, release,
}
use vsg.MemorySlots.Tiling.{inside, is_empty, Valid, find-eq-none, reserved_bounds}

module _ (m : MemorySlots) (v : Valid m) (offset size before before_size : ℕ)
    (held : find offset m.reserved_offset_sizes ≡ some size)
    (slot : find before m.offset_sizes ≡ some before_size) (touch : before + before_size ≡ offset)
    (last : above offset m.offset_sizes ≡ []) where
  abbrev dropped : MemorySlots
  dropped = record m { reserved_offset_sizes = erase offset m.reserved_offset_sizes }

  no_before : slot_before offset m.offset_sizes ≡ none
  unfolding slot_before
  no_before = rw (last, slot_before)

  no_after : slot_after offset m.offset_sizes ≡ none
  unfolding slot_after
  no_after = rw (last, slot_after)

  put_back_last : put_back offset size dropped ≡ add_available offset size dropped
  unfolding put_back merge_before merge_after
  put_back_last = rw (no_before, no_after, merge_before, merge_after)

  -- On both branches the range becomes a slot of its own.
  release_last : (given : ℕ) → release m offset given ≡ add_available offset size dropped
  unfolding release
  release_last given =
      rw (held, release)
        (elim m.offset_sizes
          as (λ (l : Entries).
            elim l [ [] ↦ add_available offset size dropped | _ ∷ _ ↦ put_back offset size dropped ]
            ≡ add_available offset size dropped) [ [] ↦ refl | _ ∷ _ ↦ put_back_last ])

  absent : find offset m.offset_sizes ≡ none
  absent = find-eq-none offset m.offset_sizes v.mirrors.sized (
      ground (
        arith,
        v.tiles offset,
        weigh-erase (inside offset) offset size m.reserved_offset_sizes held,
        reserved_bounds m v offset size held,
      ))

  -- When the last free slot ends where a released range starts, the two stay separate slots.
  pub release_unjoined :
      (given : ℕ)
      → (find before (release m offset given).offset_sizes ≡ some before_size)
        × (find offset (release m offset given).offset_sizes ≡ some size)
  unfolding add_available
  release_unjoined given =
      let b = weigh-erase is_empty before before_size m.offset_sizes slot in
      rw (release_last given) (
        find-insert_ne offset size before m.offset_sizes (ground (arith, b, v.mirrors.sized))
            ∙ slot,
        find-insert_self offset size m.offset_sizes absent,
      )
