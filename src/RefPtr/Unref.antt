-- ===== src/RefPtr/Unref.antt =====
-- unref() of include/vsg/core/Object.h with the deletes that follow from it: the counts stay exact, and
-- what is deleted has no ref_ptr left.
use mathlib.Core.Path.{subst}
use vsg.Base.{
  ℕ, zero, suc, ◌≡◌, ◌≢◌, ◌⊎◌, refl, sym, ap, ◌∙◌, inl, inr, Option, none, some, List, [], ◌∷◌,
  ◌++◌, length, leb, leb→le, ◌+◌, ◌≤◌, ◌<◌, ◌^◌, arith, Bool-cases, Option-cases, length-append,
}
use vsg.Base.Word.{sub32_exact}
use vsg.RefPtr.{
  Pointer, Cell, Heap, set, at, lowered, size, weight, unref_cell, unref_one, unref_all,
}
use vsg.RefPtr.Cells.{
  occ, held, refs, count_of, at-set_same, at-set_other, points_self, points_other, occ-append,
  total-set,
}

-- Every count is the number of the ref_ptrs for the object: those outside the heap, those that are
-- members, and those whose unref() is still to do. None is for an object that is deleted.
abbrev pub Counted : (ℕ → ℕ) → List Pointer → Heap → Type 0
Counted outside work heap =
    (a : ℕ)
    → (count_of (at heap a) ≡ outside a + refs a heap + occ a work)
      × (count_of (at heap a) < 2 ^ 32)

abbrev members_of : Option Cell → List Pointer
members_of none = []
members_of (some c) = c.members

-- What is on the heap afterwards was there before, with the same members; its count is 0 only when it
-- was 0 before.
abbrev pub Remains : Heap → Heap → Type 0
Remains before heap =
    (a : ℕ) (c : Cell)
    → at heap a ≡ some c
    → (d : Cell) × (at before a ≡ some d) × (c.members ≡ d.members) × (c.count ≡ 0 → d.count ≡ 0)

pub Remains_refl : (heap : Heap) → Remains heap heap
Remains_refl heap a c h = (c, h, refl, λ z. z)

pub Remains_trans :
    (before heap after : Heap) → Remains before heap → Remains heap after → Remains before after
Remains_trans before heap after h k a c e =
    let (d, e', m, z) = k a c e in
    let (d', e'', m', z') = h a d e' in (d', e'', m ∙ m', λ q. z' (z q))

pub ℕ-cases : (a b : ℕ) → (a ≡ b) ⊎ (a ≢ b)
ℕ-cases a b = ground arith

pub everywhere : (a : ℕ) (P : ℕ → Type 0) → P a → ((b : ℕ) → a ≢ b → P b) → (b : ℕ) → P b
everywhere a P here there b = elim (ℕ-cases a b) [ inl e ↦ subst P e here | inr n ↦ there b n ]

module _ (outside : ℕ → ℕ) (a : ℕ) (work : List Pointer) (heap : Heap)
    (counted : Counted outside (some a ∷ work) heap) where
  -- The object that a pending unref() is for exists.
  alive : (c : Cell) × (at heap a ≡ some c)
  alive = elim (Option-cases (at heap a)) [
    | inl n ↦ absurd (omega (arith, (counted a).0, points_self a, ap count_of n))
    | inr r ↦ r
  ]

  module _ (c : Cell) (found : at heap a ≡ some c) where
    count_now : c.count ≡ outside a + refs a heap + occ a work + 1
    count_now = omega (arith, (counted a).0, points_self a, ap count_of found)

    count_low : c.count < 2 ^ 32
    count_low = omega (arith, (counted a).1, ap count_of found)

    deleted : c.count ≤ 1 → Counted outside (c.members ++ work) (set a none heap)
    deleted h =
        everywhere a
          (λ b.
            (count_of (at (set a none heap) b)
              ≡ outside b + refs b (set a none heap) + occ b (c.members ++ work))
            × (count_of (at (set a none heap) b) < 2 ^ 32))
          (
            omega (
              arith,
              count_now,
              h,
              total-set (held a) heap a c none found,
              occ-append a c.members work,
              ap count_of (at-set_same heap a c none found),
            ),
            omega (arith, ap count_of (at-set_same heap a c none found)),
          )
          (λ b n. (
            omega (
              arith,
              (counted b).0,
              points_other a b n,
              total-set (held b) heap a c none found,
              occ-append b c.members work,
              ap count_of (at-set_other heap a b none n),
            ),
            omega (arith, (counted b).1, ap count_of (at-set_other heap a b none n)),
          ))

    kept : 1 < c.count → Counted outside work (set a (lowered c) heap)
    kept h =
        everywhere a
          (λ b.
            (count_of (at (set a (lowered c) heap) b)
              ≡ outside b + refs b (set a (lowered c) heap) + occ b work)
            × (count_of (at (set a (lowered c) heap) b) < 2 ^ 32))
          (
            omega (
              arith,
              count_now,
              h,
              total-set (held a) heap a c (lowered c) found,
              sub32_exact c.count 1 (omega arith) count_low,
              ap count_of (at-set_same heap a c (lowered c) found),
            ),
            omega (
              arith,
              ap count_of (at-set_same heap a c (lowered c) found),
              sub32_exact c.count 1 (omega arith) count_low,
              count_low,
            ),
          )
          (λ b n. (
            omega (
              arith,
              (counted b).0,
              points_other a b n,
              total-set (held b) heap a c (lowered c) found,
              ap count_of (at-set_other heap a b (lowered c) n),
            ),
            omega (arith, (counted b).1, ap count_of (at-set_other heap a b (lowered c) n)),
          ))

    Remains-deleted : Remains heap (set a none heap)
    Remains-deleted b d h = elim (ℕ-cases a b) [
      | inl e ↦ absurd (cc (rw (sym e) at h, at-set_same heap a c none found))
      | inr n ↦ (d, sym (at-set_other heap a b none n) ∙ h, refl, λ z. z)
    ]

    Remains-kept : 1 < c.count → Remains heap (set a (lowered c) heap)
    Remains-kept k b d h = elim (ℕ-cases a b) [
      | inl e ↦ lowered_one (sym (at-set_same heap a c (lowered c) found) ∙ (rw (sym e) at h)) e
      | inr n ↦ (d, sym (at-set_other heap a b (lowered c) n) ∙ h, refl, λ z. z)
    ]
      where
        lowered_one :
            lowered c ≡ some d
            → a ≡ b
            → (f : Cell) × (at heap b ≡ some f)
              × (d.members ≡ f.members)
              × (d.count ≡ 0 → f.count ≡ 0)
        lowered_one q e = (
          c,
          rw (sym e) found,
          ap members_of (sym q),
          λ z.
              absurd
                (omega (arith, k, z, ap count_of q, sub32_exact c.count 1 (omega arith) count_low)),
        )

    -- One unref() succeeds, and there are fewer of it and of the members after it.
    step :
        (rest : List Pointer × Heap) × (unref_cell a work heap (some c) ≡ some rest)
        × Counted outside (rest.0) (rest.1)
        × (length (rest.0) + weight (rest.1) ≤ length work + weight heap)
        × Remains heap (rest.1)
    step = elim (Bool-cases (leb c.count 1)) [
      | inl l ↦ (
        (c.members ++ work, set a none heap),
        rw l refl,
        deleted (leb→le c.count 1 l),
        omega (arith, length-append c.members work, total-set size heap a c none found),
        Remains-deleted,
      )
      | inr l ↦
          let big : 1 < c.count = ground (arith, l) in
          (
            (work, set a (lowered c) heap),
            rw l refl,
            kept big,
            omega (arith, total-set size heap a c (lowered c) found),
            Remains-kept big,
          )
    ]

skipped :
    (outside : ℕ → ℕ) (work : List Pointer) (heap : Heap)
    → Counted outside (none ∷ work) heap
    → Counted outside work heap
skipped outside work heap h a = (omega (arith, (h a).0), (h a).1)

-- With enough fuel all unref()s are done, and the counts are exact.
pub unref_all-Counted :
    (outside : ℕ → ℕ) (fuel : ℕ) (work : List Pointer) (heap : Heap)
    → Counted outside work heap
    → length work + weight heap ≤ fuel
    → (after : Heap) × (unref_all fuel work heap ≡ some after)
      × Counted outside [] after
      × Remains heap after
unfolding unref_all unref_one
unref_all-Counted outside zero [] heap h f = (heap, refl, h, Remains_refl heap)
unref_all-Counted outside (suc fuel) [] heap h f = (heap, refl, h, Remains_refl heap)
unref_all-Counted outside zero (p ∷ work) heap h f = absurd (omega arith)
unref_all-Counted outside (suc fuel) (none ∷ work) heap h f =
    unref_all-Counted outside fuel work heap (skipped outside work heap h) (omega arith)
unref_all-Counted outside (suc fuel) (some a ∷ work) heap h f =
    let (c, found) = alive outside a work heap h in
    let (rest, e, h', m, r) = step outside a work heap h c found in
    let (after, e', h'', r') =
      unref_all-Counted outside fuel (rest.0) (rest.1) h' (omega (arith, m)) in
    (after, rw (found, e) e', h'', Remains_trans heap (rest.1) after r r')
