-- ===== src/PagedLodContainer/Resize/Range.antt =====
-- The indices of new elements, in order.

use vsg.Base.{
  ℕ, zero, suc, ◌+◌, ◌<◌, ◌≡◌, refl, ap, List, [], ◌∷◌, ◌++◌, ◌&&◌, arith, ltb, ◌==◌, if◌then◌else◌,
  leb, last_or, length,
}
use vsg.PagedLodContainer.{Element, available}
use vsg.PagedLodContainer.Chain.{Chain, occ, first, occ-last}
use vsg.PagedLodContainer.Resize.Loop.{range}

pub length-range : (i n : ℕ) → length (range i n) ≡ n
length-range i zero = refl
length-range i (suc n) = ap suc (length-range (suc i) n)

pub occ-range : (j i n : ℕ) → occ j (range i n) ≡ (if leb i j && ltb j (i + n) then 1 else 0)
unfolding occ
occ-range j i zero = ground arith
occ-range j i (suc n) = ground (arith, occ-range j (suc i) n)

pub last_or-range : (x i n : ℕ) → last_or x (range i (suc n)) ≡ i + n
last_or-range x i zero = omega arith
last_or-range x i (suc n) = omega (arith, last_or-range i (suc i) n)

pub first_grown :
    (i n : ℕ) (e : ℕ → Element) (l : List ℕ)
    → Chain e available 0 l
    → (if first l == 0 then i else first l) ≡ first (l ++ range i (suc n))
first_grown i n e [] c = refl
first_grown i n e (j ∷ l) c = ground (arith, c.0)

pub last_occ : (m : List ℕ) → 0 < length m → 0 < occ (last_or 0 m) m
last_occ [] h = absurd (omega arith)
last_occ (a ∷ m) h = occ-last a m
