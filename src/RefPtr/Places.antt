-- ===== src/RefPtr/Places.antt =====
-- Reading and writing a ref_ptr of include/vsg/core/ref_ptr.h at its place, and ref().
use vsg.Base.{
  ℕ, suc, ◌≡◌, refl, sym, ap, ◌∙◌, inl, inr, Bool, true, false, Option, none, some, ltb, ltb→lt,
  ◌+◌, ◌<◌, ◌^◌, arith,
}
use vsg.Base.Word.{add32, add32_exact}
use vsg.RefPtr.{
  Pointer, Cell, Heap, Store, Place, variable, member, set, at, load, save, ref, ref_cell,
  get_member, set_member,
}
use vsg.RefPtr.Cells.{
  points, occ, held, refs, count_of, at-set_same, at-set_other, points_self, points_other, occ-set,
  total-set, get-set_given,
}
use vsg.RefPtr.Unref.{everywhere, ℕ-cases}

-- The ref_ptrs of a store for the object at an address.
abbrev pub uses : ℕ → Store → ℕ
uses a s = occ a s.variables + refs a s.heap

abbrev pub count_in : Option Cell → Option ℕ
count_in none = none
count_in (some c) = some c.count

module _ (a i : ℕ) (p q : Pointer) (heap : Heap) where
  set_member-refs :
      (b : ℕ) (o : Option Cell)
      → at heap a ≡ o
      → get_member o i ≡ some q
      → refs b (set_member a i p heap o) + points b q ≡ refs b heap + points b p
  set_member-refs b none e h = cc h
  set_member-refs b (some c) e h = omega (
    arith,
    total-set (held b) heap a c (some (record c { members = set i p c.members })) e,
    occ-set b c.members i p q h,
  )

  set_member_count :
      (b : ℕ) (o : Option Cell)
      → at heap a ≡ o
      → count_in (at (set_member a i p heap o) b) ≡ count_in (at heap b)
  set_member_count b none e = refl
  set_member_count b (some c) e =
      everywhere a (λ d. count_in (at (set_member a i p heap (some c)) d) ≡ count_in (at heap d))
        (rw (at-set_same heap a c (some (record c { members = set i p c.members })) e, e) refl)
        (λ d n.
          ap count_in (at-set_other heap a d (some (record c { members = set i p c.members })) n))
        b

-- A write to a place that holds `q` makes one ref_ptr fewer for it, and one more for what is written.
pub uses-save :
    (l : Place) (p q : Pointer) (s : Store)
    → load l s ≡ some q
    → (a : ℕ) → uses a (save l p s) + points a q ≡ uses a s + points a p
unfolding load save
uses-save (variable i) p q s h a = omega (arith, occ-set a s.variables i p q h)
uses-save (member b i) p q s h a =
    omega (arith, set_member-refs b i p q s.heap a (at s.heap b) refl h)

pub count_in-save :
    (l : Place) (p : Pointer) (s : Store) (a : ℕ)
    → count_in (at ((save l p s).heap) a) ≡ count_in (at s.heap a)
unfolding save
count_in-save (variable i) p s a = refl
count_in-save (member b i) p s a = set_member_count b i p none s.heap a (at s.heap b) refl

count_of-count_in : (o o' : Option Cell) → count_in o ≡ count_in o' → count_of o ≡ count_of o'
count_of-count_in none none h = refl
count_of-count_in (some c) none h = cc h
count_of-count_in none (some c) h = cc h
count_of-count_in (some c) (some d) h = cc h

-- ref() is possible: the pointer is null, or the object exists and its count does not overflow.
abbrev pub room : Option Cell → Bool
room none = false
room (some c) = ltb (suc c.count) (2 ^ 32)

abbrev pub fits : Pointer → Heap → Bool
fits none heap = true
fits (some a) heap = room (at heap a)

room-count_in : (o o' : Option Cell) → count_in o ≡ count_in o' → room o ≡ room o'
room-count_in none none h = refl
room-count_in (some c) none h = cc h
room-count_in none (some c) h = cc h
room-count_in (some c) (some d) h = let e : c.count ≡ d.count = cc h in rw e refl

pub fits-save :
    (l : Place) (p r : Pointer) (s : Store)
    → fits r s.heap ≡ true
    → fits r ((save l p s).heap) ≡ true
fits-save l p none s h = refl
fits-save l p (some a) s h =
    room-count_in (at ((save l p s).heap) a) (at s.heap a) (count_in-save l p s a) ∙ h

pub count_of-save :
    (l : Place) (p : Pointer) (s : Store) (a : ℕ)
    → count_of (at ((save l p s).heap) a) ≡ count_of (at s.heap a)
count_of-save l p s a =
    count_of-count_in (at ((save l p s).heap) a) (at s.heap a) (count_in-save l p s a)

-- After ref() the count is one more, and no other; the members are as before.
abbrev pub Raised : Pointer → Heap → Heap → Type 0
Raised p heap after =
    (a : ℕ)
    → (count_of (at after a) ≡ count_of (at heap a) + points a p)
      × (refs a after ≡ refs a heap)
      × (count_of (at heap a) < 2 ^ 32 → count_of (at after a) < 2 ^ 32)

ref_cell-Raised :
    (a : ℕ) (heap : Heap) (o : Option Cell)
    → at heap a ≡ o
    → room o ≡ true
    → (after : Heap) × (ref_cell a heap o ≡ some after) × Raised (some a) heap after
ref_cell-Raised a heap none e h = cc h
ref_cell-Raised a heap (some c) e h =
    let small : suc c.count < 2 ^ 32 = ltb→lt (suc c.count) (2 ^ 32) h in
    let raised : Option Cell = some (record c { count = add32 c.count 1 }) in
    let one : add32 c.count 1 ≡ c.count + 1 = add32_exact c.count 1 (omega arith) in
    (
      set a raised heap,
      refl,
      everywhere a
          (λ b.
            (count_of (at (set a raised heap) b) ≡ count_of (at heap b) + points b (some a))
            × (refs b (set a raised heap) ≡ refs b heap)
            × (count_of (at heap b) < 2 ^ 32 → count_of (at (set a raised heap) b) < 2 ^ 32))
          (
            omega (
              arith,
              one,
              points_self a,
              ap count_of e,
              ap count_of (at-set_same heap a c raised e),
            ),
            omega (arith, total-set (held a) heap a c raised e),
            λ k. omega (arith, one, small, ap count_of (at-set_same heap a c raised e)),
          )
          (λ b n. (
            omega (arith, points_other a b n, ap count_of (at-set_other heap a b raised n)),
            omega (arith, total-set (held b) heap a c raised e),
            λ k. omega (arith, k, ap count_of (at-set_other heap a b raised n)),
          )),
    )

pub ref-Raised :
    (p : Pointer) (heap : Heap)
    → fits p heap ≡ true
    → (after : Heap) × (ref p heap ≡ some after) × Raised p heap after
unfolding ref
ref-Raised none heap h = (heap, refl, λ a. (omega arith, refl, λ k. k))
ref-Raised (some a) heap h = ref_cell-Raised a heap (at heap a) refl h

member-set_member :
    (a i b j : ℕ) (p q : Pointer) (heap : Heap) (o : Option Cell)
    → at heap a ≡ o
    → get_member o i ≡ some p
    → get_member (at heap b) j ≡ some q
    → get_member (at (set_member a i q heap o) b) j ≡ some q
member-set_member a i b j p q heap none e h k = cc h
member-set_member a i b j p q heap (some c) e h k = elim (ℕ-cases a b) [
  | inl same ↦
      rw (sym same, at-set_same heap a c (some (record c { members = set i q c.members })) e)
        (get-set_given c.members i j p q h (rw (sym same, e) at k))
  | inr other ↦ rw (at-set_other heap a b (some (record c { members = set i q c.members })) other) k
]

-- A pointer that is written elsewhere still stands where it stood.
pub load-save :
    (l l' : Place) (p q : Pointer) (s : Store)
    → load l s ≡ some p
    → load l' s ≡ some q
    → load l' (save l q s) ≡ some q
unfolding load save
load-save (variable i) (variable j) p q s h k = get-set_given s.variables i j p q h k
load-save (variable i) (member b j) p q s h k = k
load-save (member a i) (variable j) p q s h k = k
load-save (member a i) (member b j) p q s h k =
    member-set_member a i b j p q s.heap (at s.heap a) refl h k
