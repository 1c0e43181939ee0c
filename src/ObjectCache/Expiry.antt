-- ===== src/ObjectCache/Expiry.antt =====
-- removeExpiredUnusedObjects: what stays in the cache and what leaves it.
use vsg.Base.{
  ℕ, ◌≤◌, ◌<◌, ◌≡◌, Bool, true, false, Option, none, some, [], ◌∷◌, ◌==◌, ltb, if◌then◌else◌, arith,
}
use vsg.ObjectCache.{Key, ObjectTimepoint, Entries, find, Counts}

-- Whether an entry has no object.
abbrev pub has_null : Entries → Bool
has_null [] = false
has_null ((k, ot) ∷ l) = if ot.object == 0 then true else has_null l

-- An entry whose object has `c` references at its turn: with more than one it is given the new time; with
-- one it leaves when it is late, and is as it was when it is not.
pub data Turn (late : ℕ → ℕ → ℕ → Bool) (now c : ℕ) (ot : ObjectTimepoint)
    (x' : Option ObjectTimepoint) : Type 0 where
  refreshed : 1 < c → x' ≡ some (record ot { last_used_timepoint = now }) → Turn late now c ot x'
  expired :
      c ≤ 1
      → late now ot.last_used_timepoint ot.unused_duration_before_expiry ≡ true
      → x' ≡ none
      → Turn late now c ot x'
  unexpired :
      c ≤ 1
      → late now ot.last_used_timepoint ot.unused_duration_before_expiry ≡ false
      → x' ≡ some ot
      → Turn late now c ot x'

-- What becomes of an entry; the references to its object at its turn are no more than before the loop, and
-- no fewer than after it.
abbrev pub Fate :
    (ℕ → ℕ → ℕ → Bool)
    → ℕ
    → Counts
    → Counts
    → Option ObjectTimepoint
    → Option ObjectTimepoint
    → Type 0
Fate late now before after none none = Unit
Fate late now before after none (some ot') = ⊥
Fate late now before after (some ot) x' =
    (c : ℕ) × (after ot.object ≤ c) × (c ≤ before ot.object) × Turn late now c ot x'

-- The loop over `l` leaves the entries `l'` and the counts of references `counts'`.
pub record Expires (late : ℕ → ℕ → ℕ → Bool) (now : ℕ) (l l' : Entries) (counts counts' : Counts)
    : Type 0 where
  pub fate : (k : Key) → Fate late now counts counts' (find k l) (find k l')
  pub lower : (o : ℕ) → counts' o ≤ counts o

-- It returns unless an entry has no object.
pub data Loop (late : ℕ → ℕ → ℕ → Bool) (now : ℕ) (l : Entries) (counts : Counts)
    (r : Option (Entries × Counts)) : Type 0 where
  returns :
      (l' : Entries) (counts' : Counts)
      → has_null l ≡ false
      → r ≡ some (l', counts')
      → Expires late now l l' counts counts'
      → Loop late now l counts r
  fails : has_null l ≡ true → r ≡ none → Loop late now l counts r

above : (a b : ℕ) → ltb a b ≡ true → a < b
above a b h = ground arith
