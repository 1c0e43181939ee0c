-- ===== src/PagedLodContainer/Linked.antt =====
-- The container as three sequences of indices, and what its elements and ends say of them.
use mathlib.Core.List.{append-nil}
use vsg.Base.{
  ℕ, ◌+◌, ◌≤◌, ◌<◌, ◌^◌, ◌≡◌, refl, ap, inl, inr, true, false, List, [], ◌∷◌, ◌++◌, ◌&&◌, not,
  arith, ltb, ◌==◌, if◌then◌else◌, last_or, length, Bool-cases, ==_iff,
}
use vsg.PagedLodContainer.{ListName, available, active, inactive, same, Container, IndexList}
use vsg.PagedLodContainer.Chain.{Chain, occ, first, erase}

abbrev pub Queues : Type 0
Queues = ListName → List ℕ

abbrev pub put : Queues → ListName → List ℕ → Queues
put q name l k = if same k name then l else q k

abbrev pub all_occ : Queues → ℕ → ℕ
all_occ q i = occ i (q available) + occ i (q active) + occ i (q inactive)

abbrev pub all_length : Queues → ℕ
all_length q = length (q available) + length (q active) + length (q inactive)

abbrev pub Ends : IndexList → List ℕ → Type 0
Ends l xs = (l.head ≡ first xs) × (l.tail ≡ last_or 0 xs) × (l.count ≡ length xs)

-- Each list of the container is the chain of its queue, and each element but the null element and
-- `out` stands in exactly one queue; `out` is 0 if there is no such element.
pub record Linked (c : Container) (q : Queues) (out : ℕ) : Type 0 where
  pub ends : (k : ListName) → Ends (c.lists k) (q k)
  pub chains : (k : ListName) → Chain c.elements k 0 (q k)
  pub once : (i : ℕ) → all_occ q i ≡ (if ltb 0 i && ltb i c.size && not (i == out) then 1 else 0)
  pub total : all_length q + (if ltb 0 out then 1 else 0) + 1 ≡ c.size
  pub word : c.size < 2 ^ 32

pub same_refl : (k : ListName) → same k k ≡ true
same_refl available = refl
same_refl active = refl
same_refl inactive = refl

pub same→eq : (k l : ListName) → same k l ≡ true → k ≡ l
same→eq available available h = refl
same→eq active active h = refl
same→eq inactive inactive h = refl
same→eq available active h = cc
same→eq available inactive h = cc
same→eq active available h = cc
same→eq active inactive h = cc
same→eq inactive available h = cc
same→eq inactive active h = cc

pub occ-le-all : (q : Queues) (k : ListName) (i : ℕ) → occ i (q k) ≤ all_occ q i
occ-le-all q available i = omega arith
occ-le-all q active i = omega arith
occ-le-all q inactive i = omega arith

pub occ-apart :
    (q : Queues) (k l : ListName) (i : ℕ)
    → same k l ≡ false
    → occ i (q k) + occ i (q l) ≤ all_occ q i
occ-apart q available available i h = cc
occ-apart q active active i h = cc
occ-apart q inactive inactive i h = cc
occ-apart q available active i h = omega arith
occ-apart q available inactive i h = omega arith
occ-apart q active available i h = omega arith
occ-apart q active inactive i h = omega arith
occ-apart q inactive available i h = omega arith
occ-apart q inactive active i h = omega arith

pub all_occ-put :
    (q : Queues) (k : ListName) (l : List ℕ) (i : ℕ)
    → all_occ (put q k l) i + occ i (q k) ≡ all_occ q i + occ i l
all_occ-put q available l i = omega arith
all_occ-put q active l i = omega arith
all_occ-put q inactive l i = omega arith

pub all_length-put :
    (q : Queues) (k : ListName) (l : List ℕ)
    → all_length (put q k l) + length (q k) ≡ all_length q + length l
all_length-put q available l = omega arith
all_length-put q active l = omega arith
all_length-put q inactive l = omega arith

pub length-le-all : (q : Queues) (k : ListName) → length (q k) ≤ all_length q
length-le-all q available = omega arith
length-le-all q active = omega arith
length-le-all q inactive = omega arith

-- Where an index stands in a list.
pub record Split (i : ℕ) (l : List ℕ) : Type 0 where
  pub front : List ℕ
  pub back : List ℕ
  pub whole : l ≡ front ++ i ∷ back
  pub rest : erase i l ≡ front ++ back
  pub new : occ i front ≡ 0

split-here : (i j : ℕ) (l : List ℕ) → (j == i) ≡ true → Split i (j ∷ l)
unfolding occ erase
split-here i j l t = record {
  front = [];
  back = l;
  whole = ap (λ k. k ∷ l) ((==_iff j i).0 t);
  rest = rw t;
  new = refl;
}

split-later : (i j : ℕ) (l : List ℕ) → (j == i) ≡ false → Split i l → Split i (j ∷ l)
unfolding occ erase
split-later i j l f s = record {
  front = j ∷ s.front;
  back = s.back;
  whole = ap (λ k. j ∷ k) s.whole;
  rest = rw f (ap (λ k. j ∷ k) s.rest);
  new = rw f (omega (arith, s.new));
}

pub split : (i : ℕ) (l : List ℕ) → 0 < occ i l → Split i l
unfolding occ
split i [] h = absurd (omega arith)
split i (j ∷ l) h = elim (Bool-cases (j == i)) [
  | inl t ↦ split-here i j l t
  | inr f ↦ split-later i j l f (split i l (ground arith))
]

pub last_or-middle : (x i : ℕ) (l r : List ℕ) → last_or x (l ++ i ∷ r) ≡ last_or i r
last_or-middle x i [] r = refl
last_or-middle x i (j ∷ l) r = last_or-middle j i l r

-- The head and the tail once `i` is taken out.
pub first_without :
    (i : ℕ) (l r : List ℕ)
    → occ i l ≡ 0
    → (if first (l ++ i ∷ r) == i then first r else first (l ++ i ∷ r)) ≡ first (l ++ r)
unfolding occ
first_without i [] r out = ground arith
first_without i (j ∷ l) r out = ground arith

last_out : (i j : ℕ) (l : List ℕ) → occ i (j ∷ l) ≡ 0 → (last_or j l == i) ≡ false
unfolding occ
last_out i j [] h = ground arith
last_out i j (k ∷ l) h = last_out i k l (omega arith)

pub last_without :
    (i : ℕ) (l r : List ℕ)
    → occ i r ≡ 0
    → (if last_or 0 (l ++ i ∷ r) == i then last_or 0 l else last_or 0 (l ++ i ∷ r))
      ≡ last_or 0 (l ++ r)
last_without i l [] out = rw (last_or-middle 0 i l [], append-nil l) (ground arith)
last_without i l (j ∷ r) out =
    rw (last_or-middle 0 i l (j ∷ r), last_or-middle 0 j l r, last_out i j r out)
