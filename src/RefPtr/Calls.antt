-- ===== src/RefPtr/Calls.antt =====
-- The operations of include/vsg/core/ref_ptr.h keep every count at the number of the ref_ptrs.
use vsg.Base.{
  ℕ, zero, suc, ◌≡◌, refl, ap, ◌∙◌, inl, inr, true, Option, none, some, List, [], ◌∷◌, ◌++◌, ◌+◌,
  ◌-◌, ◌≤◌, ◌<◌, ◌^◌, arith, Option-cases, Bool-cases,
}
use vsg.Base.Word.{sub32, sub32_exact}
use vsg.RefPtr.{
  Pointer, Cell, Heap, Store, Place, variable, member, set, at, load, save, ref_in, unref, unref_in,
  unref_nodelete, unref_nodelete_in, lowered, lower_cell, get_member, with_heap, create, nulls,
  construct, destroy, destroy_last, assign, same, release, swap, weight,
}
use vsg.RefPtr.Cells.{
  points, occ, held, refs, count_of, at-set_same, at-set_other, points_self, points_other,
  total-set, total-append, occ-nulls,
}
use vsg.RefPtr.Unref.{Counted, Remains, unref_all-Counted, everywhere}
use vsg.RefPtr.Places.{uses-save, count_of-save, fits, fits-save, ref-Raised, load-save}

-- Every count is the number of the ref_ptrs for the object, so a ref_ptr is for no object that is deleted.
abbrev pub Exact : Store → Type 0
Exact s = Counted (λ a. occ a s.variables) [] s.heap

-- unref() of an exact count with the ref_ptr gone: it ends, the counts are exact again, and what is
-- deleted has no ref_ptr left.
pub unref-Counted :
    (outside : ℕ → ℕ) (p : Pointer) (heap : Heap)
    → Counted outside (p ∷ []) heap
    → (after : Heap) × (unref p heap ≡ some after) × Counted outside [] after × Remains heap after
unfolding unref
unref-Counted outside p heap h =
    unref_all-Counted outside (suc (weight heap)) (p ∷ []) heap h (omega arith)

unref_in-Exact :
    (p : Pointer) (s : Store)
    → Counted (λ a. occ a s.variables) (p ∷ []) s.heap
    → (s' : Store) × (unref_in p s ≡ some s') × Exact s'
unfolding unref_in
unref_in-Exact p s h =
    let (after, e, k, _) = unref-Counted (λ a. occ a s.variables) p s.heap h in
    (record s { heap = after }, ap (with_heap s) e, k)

-- create().
count-append :
    (heap : Heap) (n a : ℕ)
    → count_of (at (heap ++ some (record { count = 0; members = nulls n }) ∷ []) a)
      ≡ count_of (at heap a)
unfolding at
count-append [] n zero = refl
count-append [] n (suc a) = refl
count-append (o ∷ heap) n zero = refl
count-append (o ∷ heap) n (suc a) = count-append heap n a

pub create-Exact : (n : ℕ) (s : Store) → Exact s → Exact (create n s)
unfolding create
create-Exact n s h a = (
  omega (
    arith,
    (h a).0,
    count-append s.heap n a,
    occ-nulls a n,
    total-append (held a) s.heap (some (record { count = 0; members = nulls n }) ∷ []),
  ),
  omega (arith, (h a).1, count-append s.heap n a),
)

pub construct-Exact :
    (p : Pointer) (s : Store)
    → Exact s
    → fits p s.heap ≡ true
    → (s' : Store) × (construct p s ≡ some s') × Exact s'
unfolding construct ref_in
construct-Exact p s h k =
    let (after, e, r) = ref-Raised p s.heap k in
    let s1 : Store = record s { variables = p ∷ s.variables } in
    (
      record s1 { heap = after },
      ap (with_heap s1) e,
      λ a. (omega (arith, (h a).0, (r a).0, (r a).1), (r a).2 ((h a).1)),
    )

pub destroy-Exact :
    (s : Store) (p : Pointer) (rest : List Pointer)
    → s.variables ≡ p ∷ rest
    → Exact s
    → (s' : Store) × (destroy s ≡ some s') × Exact s'
unfolding destroy
destroy-Exact s p rest e h =
    let (s', q, k) =
      unref_in-Exact p (record s { variables = rest })
        (λ a. (omega (arith, (h a).0, ap (occ a) e), (h a).1)) in
    (s', ap (destroy_last s) e ∙ q, k)

pub assign-Exact :
    (l : Place) (p old : Pointer) (s : Store)
    → Exact s
    → load l s ≡ some old
    → fits p s.heap ≡ true
    → (s' : Store) × (assign l p s ≡ some s') × Exact s'
unfolding assign ref_in
assign-Exact l p old s h e k = elim (Bool-cases (same p old)) [
  | inl q ↦ (s, rw (e, q) refl, h)
  | inr q ↦
      let s1 : Store = save l p s in
      let (after, e1, r) = ref-Raised p s1.heap (fits-save l p p s k) in
      let s2 : Store = record s1 { heap = after } in
      let (s', e2, x) = unref_in-Exact old s2 (λ a. (
        omega (arith, (h a).0, (r a).0, (r a).1, uses-save l p old s e a, count_of-save l p s a),
        (r a).2 (omega (arith, (h a).1, count_of-save l p s a)),
      )) in
      (s', rw (e, q, e1) e2, x)
]

pub swap-Exact :
    (l l' : Place) (p q : Pointer) (s : Store)
    → Exact s
    → load l s ≡ some p
    → load l' s ≡ some q
    → (s' : Store) × (swap l l' s ≡ some s') × Exact s'
unfolding swap
swap-Exact l l' p q s h e e' =
    let s1 : Store = save l q s in
    (
      save l' p s1,
      rw (e, e') refl,
      λ a. (
        omega (
          arith,
          (h a).0,
          uses-save l q p s e a,
          count_of-save l q s a,
          uses-save l' p q s1 (load-save l l' p q s e e') a,
          count_of-save l' p s1 a,
        ),
        omega (arith, (h a).1, count_of-save l q s a, count_of-save l' p s1 a),
      ),
    )

-- release(): the count without the ref_ptr, and the members as before.
abbrev Released : Pointer → Heap → Heap → Type 0
Released p heap after =
    (a : ℕ)
    → (count_of (at after a) + points a p ≡ count_of (at heap a))
      × (refs a after ≡ refs a heap)
      × ((i : ℕ) → get_member (at after a) i ≡ get_member (at heap a) i)

lower_cell-Released :
    (a : ℕ) (heap : Heap) (o : Option Cell)
    → at heap a ≡ o
    → 0 < count_of o
    → count_of o < 2 ^ 32
    → (after : Heap) × (lower_cell a heap o ≡ some after) × Released (some a) heap after
lower_cell-Released a heap none e h k = absurd (omega arith)
lower_cell-Released a heap (some c) e h k =
    let one : sub32 c.count 1 ≡ c.count - 1 = sub32_exact c.count 1 (omega arith) k in
    let there : at (set a (lowered c) heap) a ≡ lowered c = at-set_same heap a c (lowered c) e in
    (
      set a (lowered c) heap,
      refl,
      everywhere a
          (λ b.
            (count_of (at (set a (lowered c) heap) b) + points b (some a) ≡ count_of (at heap b))
            × (refs b (set a (lowered c) heap) ≡ refs b heap)
            × ((i : ℕ) → get_member (at (set a (lowered c) heap) b) i ≡ get_member (at heap b) i))
          (
            omega (arith, one, points_self a, ap count_of e, ap count_of there),
            omega (arith, total-set (held a) heap a c (lowered c) e),
            λ i. rw (there, e) refl,
          )
          (λ b n. (
            omega (arith, points_other a b n, ap count_of (at-set_other heap a b (lowered c) n)),
            omega (arith, total-set (held b) heap a c (lowered c) e),
            λ i. ap (λ o. get_member o i) (at-set_other heap a b (lowered c) n),
          )),
    )

unref_nodelete-Released :
    (p : Pointer) (heap : Heap)
    → ((a : ℕ) → points a p ≤ count_of (at heap a))
    → ((a : ℕ) → count_of (at heap a) < 2 ^ 32)
    → (after : Heap) × (unref_nodelete p heap ≡ some after) × Released p heap after
unfolding unref_nodelete
unref_nodelete-Released none heap h k = (heap, refl, λ a. (omega arith, refl, λ i. refl))
unref_nodelete-Released (some a) heap h k =
    lower_cell-Released a heap (at heap a) refl (omega (arith, h a, points_self a)) (k a)

load-Released :
    (l : Place) (p : Pointer) (s : Store) (after : Heap)
    → Released p s.heap after
    → load l (record s { heap = after }) ≡ load l s
unfolding load
load-Released (variable i) p s after r = refl
load-Released (member a i) p s after r = (r a).2 i

pub release-Exact :
    (l : Place) (p : Pointer) (s : Store)
    → Exact s
    → load l s ≡ some p
    → (s' : Store) × (release l s ≡ some s') × Exact s'
unfolding release unref_nodelete_in
release-Exact l p s h e =
    let (after, e1, r) =
      unref_nodelete-Released p s.heap (λ a. omega (arith, (h a).0, uses-save l none p s e a))
        (λ a. (h a).1) in
    let s1 : Store = record s { heap = after } in
    let e2 : load l s1 ≡ some p = load-Released l p s after r ∙ e in
    (
      save l none s1,
      rw (e, e1) refl,
      λ a. (
        omega (
          arith,
          (h a).0,
          (r a).0,
          (r a).1,
          uses-save l none p s1 e2 a,
          count_of-save l none s1 a,
        ),
        omega (arith, (h a).1, (r a).0, count_of-save l none s1 a),
      ),
    )

-- What a ref_ptr is for exists.
pub Exact-exists :
    (l : Place) (a : ℕ) (s : Store)
    → Exact s
    → load l s ≡ some (some a)
    → (c : Cell) × (at s.heap a ≡ some c) × (0 < c.count)
Exact-exists l a s h e = elim (Option-cases (at s.heap a)) [
  | inl n ↦
      absurd (omega (arith, (h a).0, ap count_of n, points_self a, uses-save l none (some a) s e a))
  | inr (c, n) ↦
      (c, n, omega (arith, (h a).0, ap count_of n, points_self a, uses-save l none (some a) s e a))
]
