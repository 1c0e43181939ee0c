-- ===== src/Base/Entries.antt =====
-- std::map and std::multimap with number keys and values, as sorted lists of entries, and a weight
-- of entries by which any additive property of such a list is stated.
use vsg.Base.Tests.{ltb, ◌==◌, if◌then◌else◌}
use Prim.Native.Nat.{ℕ, ◌+◌}
use mathlib.Core.Path.{◌≡◌, refl}
use mathlib.Core.Logic.{◌≢◌}
use mathlib.Core.Bool.{Bool, true, false, ◌&&◌, ◌||◌}
use mathlib.Core.Option.{Option, none, some}
use mathlib.Core.List.{List, [], ◌∷◌, ◌++◌}
use native.Mathlib.Omega.{arith}

abbrev pub Entries : Type 0
Entries = List (ℕ × ℕ)

-- map::find.
unfoldable pub find : ℕ → Entries → Option ℕ
find k [] = none
find k ((j, w) ∷ l) = if j == k then some w else find k l

-- map::insert, which keeps an entry that is there.
unfoldable pub insert : ℕ → ℕ → Entries → Entries
insert k v [] = (k, v) ∷ []
insert k v ((j, w) ∷ l) =
    if ltb k j then (k, v) ∷ (j, w) ∷ l else if j == k then (j, w) ∷ l else (j, w) ∷ insert k v l

-- map::operator[] with an assignment.
unfoldable pub assign : ℕ → ℕ → Entries → Entries
assign k v [] = (k, v) ∷ []
assign k v ((j, w) ∷ l) =
    if ltb k j then (k, v) ∷ (j, w) ∷ l else if j == k then (j, v) ∷ l else (j, w) ∷ assign k v l

-- map::erase of the entry that `find` gives.
unfoldable pub erase : ℕ → Entries → Entries
erase k [] = []
erase k ((j, w) ∷ l) = if j == k then l else (j, w) ∷ erase k l

-- multimap::insert, behind the entries with the same key.
unfoldable pub insert_multi : ℕ → ℕ → Entries → Entries
insert_multi k v [] = (k, v) ∷ []
insert_multi k v ((j, w) ∷ l) = if ltb k j then (k, v) ∷ (j, w) ∷ l else (j, w) ∷ insert_multi k v l

-- Whether a multimap has an entry with this key and this value.
unfoldable pub has_entry : ℕ → ℕ → Entries → Bool
has_entry k v [] = false
has_entry k v ((j, w) ∷ l) = (j == k && w == v) || has_entry k v l

-- multimap::erase of the first entry with this key and this value.
unfoldable pub erase_entry : ℕ → ℕ → Entries → Entries
erase_entry k v [] = []
erase_entry k v ((j, w) ∷ l) = if j == k && w == v then l else (j, w) ∷ erase_entry k v l

-- The entries before lower_bound(k), and those from it on.
unfoldable pub below : ℕ → Entries → Entries
below k [] = []
below k ((j, w) ∷ l) = if ltb j k then (j, w) ∷ below k l else []

unfoldable pub from : ℕ → Entries → Entries
from k [] = []
from k ((j, w) ∷ l) = if ltb j k then from k l else (j, w) ∷ l

-- The entries up to upper_bound(k), and those from it on.
unfoldable pub up_to : ℕ → Entries → Entries
up_to k [] = []
up_to k ((j, w) ∷ l) = if ltb k j then [] else (j, w) ∷ up_to k l

unfoldable pub above : ℕ → Entries → Entries
above k [] = []
above k ((j, w) ∷ l) = if ltb k j then (j, w) ∷ l else above k l

-- The sum of a weight over the entries.
unfoldable pub weigh : (ℕ → ℕ → ℕ) → Entries → ℕ
weigh f [] = 0
weigh f ((j, w) ∷ l) = f j w + weigh f l

module _ (f : ℕ → ℕ → ℕ) where
  pub weigh-insert :
      (k v : ℕ) (l : Entries) → find k l ≡ none → weigh f (insert k v l) ≡ f k v + weigh f l
  unfolding weigh insert find
  weigh-insert k v [] h = refl
  weigh-insert k v ((j, w) ∷ l) h = ground (arith, weigh-insert k v l)

  pub weigh-assign :
      (k v : ℕ) (l : Entries) → find k l ≡ none → weigh f (assign k v l) ≡ f k v + weigh f l
  unfolding weigh assign find
  weigh-assign k v [] h = refl
  weigh-assign k v ((j, w) ∷ l) h = ground (arith, weigh-assign k v l)

  pub weigh-erase :
      (k v : ℕ) (l : Entries) → find k l ≡ some v → weigh f l ≡ f k v + weigh f (erase k l)
  unfolding weigh erase find
  weigh-erase k v [] h = cc
  weigh-erase k v ((j, w) ∷ l) h = ground (arith, weigh-erase k v l)

  pub weigh-insert_multi :
      (k v : ℕ) (l : Entries) → weigh f (insert_multi k v l) ≡ f k v + weigh f l
  unfolding weigh insert_multi
  weigh-insert_multi k v [] = refl
  weigh-insert_multi k v ((j, w) ∷ l) = ground (arith, weigh-insert_multi k v l)

  pub weigh-erase_entry :
      (k v : ℕ) (l : Entries)
      → has_entry k v l ≡ true
      → weigh f l ≡ f k v + weigh f (erase_entry k v l)
  unfolding weigh erase_entry has_entry
  weigh-erase_entry k v [] h = cc
  weigh-erase_entry k v ((j, w) ∷ l) h = ground (arith, weigh-erase_entry k v l)

  pub weigh-append : (l m : Entries) → weigh f (l ++ m) ≡ weigh f l + weigh f m
  unfolding weigh
  weigh-append [] m = omega arith
  weigh-append ((j, w) ∷ l) m = omega (arith, weigh-append l m)

pub below-append-from : (k : ℕ) (l : Entries) → below k l ++ from k l ≡ l
unfolding below from
below-append-from k [] = refl
below-append-from k ((j, w) ∷ l) = ground (arith, below-append-from k l)

pub up_to-append-above : (k : ℕ) (l : Entries) → up_to k l ++ above k l ≡ l
unfolding up_to above
up_to-append-above k [] = refl
up_to-append-above k ((j, w) ∷ l) = ground (arith, up_to-append-above k l)

pub find-insert_self : (k v : ℕ) (l : Entries) → find k l ≡ none → find k (insert k v l) ≡ some v
unfolding find insert
find-insert_self k v [] h = ground arith
find-insert_self k v ((j, w) ∷ l) h = ground (arith, find-insert_self k v l)

pub find-insert_ne : (k v j : ℕ) (l : Entries) → k ≢ j → find j (insert k v l) ≡ find j l
unfolding find insert
find-insert_ne k v j [] h = ground arith
find-insert_ne k v j ((i, w) ∷ l) h = ground (arith, find-insert_ne k v j l)
