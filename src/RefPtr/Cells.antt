-- ===== src/RefPtr/Cells.antt =====
-- The heap of include/vsg/core/ref_ptr.h as places in a list, and the ref_ptrs in it by what they are for.
use vsg.Base.{
  ℕ, zero, suc, ◌≡◌, ◌≢◌, refl, ap, Option, none, some, List, [], ◌∷◌, ◌++◌, ◌==◌, if◌then◌else◌,
  ◌+◌, arith,
}
use vsg.RefPtr.{Pointer, Cell, Heap, get, set, live, at, total, nulls}

-- Whether a pointer is for the object at an address, how many of a list are, and of all members.
abbrev pub points : ℕ → Pointer → ℕ
points a none = 0
points a (some b) = if a == b then 1 else 0

abbrev pub occ : ℕ → List Pointer → ℕ
occ a [] = 0
occ a (p ∷ ps) = points a p + occ a ps

abbrev pub held : ℕ → Option Cell → ℕ
held a none = 0
held a (some c) = occ a c.members

abbrev pub refs : ℕ → Heap → ℕ
refs a heap = total (held a) heap

abbrev pub count_of : Option Cell → ℕ
count_of none = 0
count_of (some c) = c.count

module _ {ℓ} {A : Type ℓ} where
  pub get-set_same :
      (xs : List A) (i : ℕ) (x y : A) → get xs i ≡ some x → get (set i y xs) i ≡ some y
  get-set_same [] i x y h = cc h
  get-set_same (z ∷ xs) zero x y h = refl
  get-set_same (z ∷ xs) (suc i) x y h = get-set_same xs i x y h

  pub get-set_other : (xs : List A) (i j : ℕ) (y : A) → i ≢ j → get (set i y xs) j ≡ get xs j
  get-set_other [] i j y h = refl
  get-set_other (z ∷ xs) zero zero y h = absurd (h refl)
  get-set_other (z ∷ xs) zero (suc j) y h = refl
  get-set_other (z ∷ xs) (suc i) zero y h = refl
  get-set_other (z ∷ xs) (suc i) (suc j) y h = get-set_other xs i j y (λ e. h (ap suc e))

pub at-get : (heap : Heap) (a : ℕ) (c : Cell) → at heap a ≡ some c → get heap a ≡ some (some c)
unfolding at
at-get [] a c h = cc h
at-get (none ∷ heap) zero c h = cc h
at-get (some d ∷ heap) zero c h = cc h
at-get (o ∷ heap) (suc a) c h = at-get heap a c h

pub at-set_same :
    (heap : Heap) (a : ℕ) (c : Cell) (o : Option Cell)
    → at heap a ≡ some c
    → at (set a o heap) a ≡ o
unfolding at
at-set_same heap a c o h = ap live (get-set_same heap a (some c) o (at-get heap a c h))

pub at-set_other :
    (heap : Heap) (a b : ℕ) (o : Option Cell) → a ≢ b → at (set a o heap) b ≡ at heap b
unfolding at
at-set_other heap a b o h = ap live (get-set_other heap a b o h)

pub points_self : (a : ℕ) → points a (some a) ≡ 1
points_self a = ground arith

pub points_other : (a b : ℕ) → a ≢ b → points b (some a) ≡ 0
points_other a b h = ground arith

pub occ-append : (a : ℕ) (ps qs : List Pointer) → occ a (ps ++ qs) ≡ occ a ps + occ a qs
occ-append a [] qs = omega arith
occ-append a (p ∷ ps) qs = omega (arith, occ-append a ps qs)

pub occ-set :
    (a : ℕ) (ps : List Pointer) (i : ℕ) (p q : Pointer)
    → get ps i ≡ some q
    → occ a (set i p ps) + points a q ≡ occ a ps + points a p
occ-set a [] i p q h = cc h
occ-set a (r ∷ ps) zero p q h = let e : r ≡ q = cc h in rw e (omega arith)
occ-set a (r ∷ ps) (suc i) p q h = omega (arith, occ-set a ps i p q h)

pub occ-nulls : (a n : ℕ) → occ a (nulls n) ≡ 0
occ-nulls a zero = refl
occ-nulls a (suc n) = omega (arith, occ-nulls a n)

module _ (f : Option Cell → ℕ) where
  total-set-get :
      (heap : Heap) (i : ℕ) (o o' : Option Cell)
      → get heap i ≡ some o
      → total f (set i o' heap) + f o ≡ total f heap + f o'
  total-set-get [] i o o' h = cc h
  total-set-get (r ∷ heap) zero o o' h = let e : r ≡ o = cc h in rw e (omega arith)
  total-set-get (r ∷ heap) (suc i) o o' h = omega (arith, total-set-get heap i o o' h)

  pub total-set :
      (heap : Heap) (a : ℕ) (c : Cell) (o : Option Cell)
      → at heap a ≡ some c
      → total f (set a o heap) + f (some c) ≡ total f heap + f o
  total-set heap a c o h = total-set-get heap a (some c) o (at-get heap a c h)

  pub total-append : (heap heap' : Heap) → total f (heap ++ heap') ≡ total f heap + total f heap'
  total-append [] heap' = omega arith
  total-append (o ∷ heap) heap' = omega (arith, total-append heap heap')

module _ {ℓ} {A : Type ℓ} where
  -- Where `y` stands already it still does after it is put at another place.
  pub get-set_given :
      (xs : List A) (i j : ℕ) (x y : A)
      → get xs i ≡ some x
      → get xs j ≡ some y
      → get (set i y xs) j ≡ some y
  get-set_given [] i j x y h k = cc
  get-set_given (z ∷ xs) zero zero x y h k = refl
  get-set_given (z ∷ xs) zero (suc j) x y h k = k
  get-set_given (z ∷ xs) (suc i) zero x y h k = k
  get-set_given (z ∷ xs) (suc i) (suc j) x y h k = get-set_given xs i j x y h k
