-- ===== src/PagedLodContainer/Chain/Occ.antt =====
-- A chain: the elements of a list of indices, linked in that order in both directions; and how
-- often an index stands in a list.
use vsg.Base.{
  ℕ, ◌+◌, ◌≤◌, ◌<◌, ◌≡◌, ◌≢◌, refl, ap, some, List, [], ◌∷◌, ◌++◌, arith, ◌==◌, if◌then◌else◌,
  last_or,
}
use vsg.PagedLodContainer.{Element, ListName}

-- How often the index stands in the list.
unfoldable pub occ : ℕ → List ℕ → ℕ
occ i [] = 0
occ i (j ∷ l) = (if j == i then 1 else 0) + occ i l

-- The first index, 0 if there is none.
abbrev pub first : List ℕ → ℕ
first [] = 0
first (i ∷ l) = i

unfoldable pub erase : ℕ → List ℕ → List ℕ
erase i [] = []
erase i (j ∷ l) = if j == i then l else j ∷ erase i l

-- `previous` is what the first element of the chain has before it.
abbrev pub Chain : (ℕ → Element) → ListName → ℕ → List ℕ → Type 0
Chain e name previous [] = Unit
Chain e name previous (i ∷ l) =
    (0 < i)
    × ((e i).previous ≡ previous)
    × ((e i).next ≡ first l)
    × ((e i).list ≡ some name)
    × Chain e name i l

pub occ-append : (i : ℕ) (l r : List ℕ) → occ i (l ++ r) ≡ occ i l + occ i r
unfolding occ
occ-append i [] r = omega arith
occ-append i (j ∷ l) r = omega (arith, occ-append i l r)

pub occ_one : (i j : ℕ) → occ j (i ∷ []) ≡ (if i == j then 1 else 0)
unfolding occ
occ_one i j = omega arith

pub occ-erase :
    (i j : ℕ) (l : List ℕ) → 0 < occ i l → occ j l ≡ (if i == j then 1 else 0) + occ j (erase i l)
unfolding occ erase
occ-erase i j [] h = absurd (omega arith)
occ-erase i j (k ∷ l) h = ground (arith, occ-erase i j l)

pub last_or-append : (p i : ℕ) (l : List ℕ) → last_or p (l ++ i ∷ []) ≡ i
last_or-append p i [] = refl
last_or-append p i (j ∷ l) = last_or-append j i l

pub occ_self : (i : ℕ) (l : List ℕ) → 0 < occ i (i ∷ l)
unfolding occ
occ_self i l = ground arith

pub occ-le-cons : (i j : ℕ) (l : List ℕ) → occ i l ≤ occ i (j ∷ l)
unfolding occ
occ-le-cons i j l = omega arith

pub occ_single : (i : ℕ) (l : List ℕ) → occ i (i ∷ l) ≤ 1 → occ i l ≡ 0
unfolding occ
occ_single i l h = ground arith

pub ne_of_occ : (i j : ℕ) (l : List ℕ) → occ i l ≡ 0 → 0 < occ j l → i ≢ j
ne_of_occ i j l h k e = omega (arith, ap (λ n. occ n l) e)

pub occ-middle : (i : ℕ) (l r : List ℕ) → occ i r ≤ occ i (l ++ r)
occ-middle i l r = omega (arith, occ-append i l r)

-- Elements outside the chain do not matter.
pub Chain-frame :
    (e e' : ℕ → Element) (name : ListName) (previous : ℕ) (l : List ℕ)
    → ((j : ℕ) → 0 < occ j l → e' j ≡ e j)
    → Chain e name previous l
    → Chain e' name previous l
Chain-frame e e' name previous [] same c = tt
Chain-frame e e' name previous (j ∷ l) same c =
    let at : e' j ≡ e j = same j (occ_self j l) in
    (
      c.0,
      rw at c.1,
      rw at c.2,
      rw at c.3,
      Chain-frame e e' name j l (λ k h. same k (omega (arith, occ-le-cons k j l))) c.4,
    )

pub occ-first : (i : ℕ) (l : List ℕ) → 0 < occ (first (i ∷ l)) (i ∷ l)
unfolding occ
occ-first i l = ground arith

pub occ-last : (i : ℕ) (l : List ℕ) → 0 < occ (last_or i l) (i ∷ l)
unfolding occ
occ-last i [] = ground arith
occ-last i (j ∷ l) = omega (arith, occ-last j l)

-- The cell of one element of a chain.
pub Chain-cell :
    (e : ℕ → Element) (name : ListName) (previous : ℕ) (l : List ℕ) (i : ℕ) (r : List ℕ)
    → Chain e name previous (l ++ i ∷ r)
    → (0 < i)
      × ((e i).previous ≡ last_or previous l)
      × ((e i).next ≡ first r)
      × ((e i).list ≡ some name)
Chain-cell e name previous [] i r c = (c.0, c.1, c.2, c.3)
Chain-cell e name previous (j ∷ l) i r c = Chain-cell e name j l i r c.4
