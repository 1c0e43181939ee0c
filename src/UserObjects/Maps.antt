-- ===== src/UserObjects/Maps.antt =====
-- The _objectMap of src/vsg/core/Auxiliary.cpp: its keys ascend, and what find() gives after a change.
use vsg.Base.{
  ℕ, ◌≡◌, refl, Bool, true, ◌&&◌, none, some, [], ◌∷◌, ◌<◌, ◌==◌, ltb, if◌then◌else◌, arith,
}
use vsg.Base.Entries.{Entries, find, assign, erase}

abbrev pub over : ℕ → Entries → Bool
over k [] = true
over k ((j, w) ∷ l) = ltb k j && over k l

unfoldable pub ascending : Entries → Bool
ascending [] = true
ascending ((j, w) ∷ l) = over j l && ascending l

over-assign : (i k v : ℕ) (l : Entries) → i < k → over i l ≡ true → over i (assign k v l) ≡ true
unfolding assign
over-assign i k v [] h e = ground (arith, h)
over-assign i k v ((j, w) ∷ l) h e = ground (arith, over-assign i k v l, h, e)

over-erase : (i k : ℕ) (l : Entries) → over i l ≡ true → over i (erase k l) ≡ true
unfolding erase
over-erase i k [] e = refl
over-erase i k ((j, w) ∷ l) e = ground (arith, over-erase i k l, e)

over_less : (i k : ℕ) (l : Entries) → i < k → over k l ≡ true → over i l ≡ true
over_less i k [] h e = refl
over_less i k ((j, w) ∷ l) h e = ground (arith, over_less i k l, h, e)

find-over : (k : ℕ) (l : Entries) → over k l ≡ true → find k l ≡ none
unfolding find
find-over k [] e = refl
find-over k ((j, w) ∷ l) e = ground (arith, find-over k l, e)

pub ascending-assign :
    (k v : ℕ) (l : Entries) → ascending l ≡ true → ascending (assign k v l) ≡ true
unfolding ascending assign
ascending-assign k v [] e = refl
ascending-assign k v ((j, w) ∷ l) e =
    ground (arith, ascending-assign k v l, over-assign j k v l, over_less k j l, e)

pub ascending-erase : (k : ℕ) (l : Entries) → ascending l ≡ true → ascending (erase k l) ≡ true
unfolding ascending erase
ascending-erase k [] e = refl
ascending-erase k ((j, w) ∷ l) e = ground (arith, ascending-erase k l, over-erase j k l, e)

pub find-assign :
    (k v j : ℕ) (l : Entries) → find j (assign k v l) ≡ (if k == j then some v else find j l)
unfolding find assign
find-assign k v j [] = refl
find-assign k v j ((i, w) ∷ l) = ground (arith, find-assign k v j l)

pub find-erase :
    (k j : ℕ) (l : Entries)
    → ascending l ≡ true
    → find j (erase k l) ≡ (if k == j then none else find j l)
unfolding find erase ascending
find-erase k j [] e = ground arith
find-erase k j ((i, w) ∷ l) e = ground (arith, find-erase k j l, find-over i l, e)
