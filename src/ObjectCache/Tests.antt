-- ===== src/ObjectCache/Tests.antt =====
-- Tests and the theorems at a small cache.
use vsg.Base.{ℕ, ◌-◌, ◌≡◌, refl, Bool, false, some, [], ◌∷◌, ◌==◌, ltb, if◌then◌else◌}
use vsg.ObjectCache.{Key, equal, same_key, ObjectCache, find, assign, get, add, Counts, expire}
use vsg.ObjectCache.Refine.{Refines, operations-Refines}

abbrev box : Key
box = record { filename = 98 ∷ 111 ∷ 120 ∷ []; options = 0 }

abbrev box_with_options : Key
box_with_options = record { filename = 98 ∷ 111 ∷ 120 ∷ []; options = 64 }

abbrev empty : ObjectCache
empty = record { default_unused_duration = 5; entries = [] }

-- Two objects of one filename with different options.
abbrev cache : ObjectCache
cache = record {
  default_unused_duration = 5;
  entries =
      (box, record { object = 70; unused_duration_before_expiry = 5; last_used_timepoint = 1 })
      ∷ (
        box_with_options,
        record { object = 80; unused_duration_before_expiry = 5; last_used_timepoint = 9 },
      )
      ∷ [];
}

cache_built : add 9 80 box_with_options (add 1 70 box empty) ≡ cache
unfolding add assign same_key equal
cache_built = refl

found : (get 12 box cache).0 ≡ 70
unfolding get find same_key equal
found = refl

keys_differ : same_key box_with_options box ≡ false
unfolding same_key equal
keys_differ = refl

operations-Refines_example : Refines cache
operations-Refines_example = operations-Refines cache ((keys_differ, _), (_, _))

-- The release of a reference takes one from the count.
abbrev drop : ℕ → Counts → Counts
drop o c p = if o == p then c p - 1 else c p

abbrev late : ℕ → ℕ → ℕ → Bool
late now last duration = ltb duration (now - last)

abbrev once : Counts
once o = 1

-- At time 12 the first object is late.
expired :
    expire drop late 12 cache.entries once
    ≡ some (
      (
        box_with_options,
        record { object = 80; unused_duration_before_expiry = 5; last_used_timepoint = 9 },
      )
          ∷ [],
      drop 70 once,
    )
unfolding expire
expired = refl
