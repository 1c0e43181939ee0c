-- ===== src/PagedLodContainer/Chain/Attach.antt =====
-- Linking an element behind the last element of a chain.
use vsg.Base.{
  ℕ, ◌≤◌, ◌<◌, ◌≡◌, ◌≢◌, ap, ◌∙◌, some, List, [], ◌∷◌, ◌++◌, arith, ltb, if◌then◌else◌, last_or,
}
use vsg.PagedLodContainer.{Element, ListName, update}
use vsg.PagedLodContainer.Chain.Occ.{
  occ, first, Chain, occ_self, occ-le-cons, occ_single, ne_of_occ,
}
use vsg.PagedLodContainer.Chain.Relink.{last-ne}

-- Element `i` becomes `v`, behind the element `t` if there is one.
abbrev pub attach : (ℕ → Element) → ℕ → ℕ → Element → ℕ → Element
attach e t i v = update (if ltb 0 t then update e t (record (e t) { next = i }) else e) i v

pub attach_self : (e : ℕ → Element) (t i : ℕ) (v : Element) → attach e t i v i ≡ v
attach_self e t i v = ground arith

pub attach_other :
    (e : ℕ → Element) (t i : ℕ) (v : Element) (j : ℕ)
    → i ≢ j
    → (0 < t → t ≢ j)
    → attach e t i v j ≡ e j
attach_other e t i v j h k = ground arith

attach_previous :
    (e : ℕ → Element) (t i : ℕ) (v : Element) (j : ℕ)
    → i ≢ j
    → (attach e t i v j).previous ≡ (e j).previous
attach_previous e t i v j h = ground arith

attach_list :
    (e : ℕ → Element) (t i : ℕ) (v : Element) (j : ℕ) → i ≢ j → (attach e t i v j).list ≡ (e j).list
attach_list e t i v j h = ground arith

attach_next :
    (e : ℕ → Element) (t i : ℕ) (v : Element) → 0 < t → i ≢ t → (attach e t i v t).next ≡ i
attach_next e t i v pos h = ground arith

attach_head :
    (e : ℕ → Element) (a : ℕ) (l : List ℕ) (i : ℕ) (v : Element)
    → 0 < a
    → i ≢ a
    → occ a l ≡ 0
    → (e a).next ≡ first l
    → (attach e (last_or a l) i v a).next ≡ first (l ++ i ∷ [])
attach_head e a [] i v pos h out c = attach_next e a i v pos h
attach_head e a (b ∷ l) i v pos h out c =
    ap (λ (x : Element). x.next) (attach_other e (last_or b l) i v a h (λ _. last-ne a b l out)) ∙ c

-- An element that is in no chain goes to the end of one.
pub Chain-attach :
    (e : ℕ → Element) (name : ListName) (previous : ℕ) (l : List ℕ) (i : ℕ) (v : Element)
    → 0 < i
    → occ i l ≡ 0
    → ((j : ℕ) → occ j l ≤ 1)
    → v.previous ≡ last_or previous l
    → v.next ≡ 0
    → v.list ≡ some name
    → Chain e name previous l
    → Chain (attach e (last_or previous l) i v) name previous (l ++ i ∷ [])
Chain-attach e name previous [] i v pos out once vp vn vl c =
    let at = attach_self e previous i v in
    (
      pos,
      ap (λ (x : Element). x.previous) at ∙ vp,
      ap (λ (x : Element). x.next) at ∙ vn,
      ap (λ (x : Element). x.list) at ∙ vl,
      tt,
    )
Chain-attach e name previous (a ∷ l) i v pos out once vp vn vl c =
    let a_out : occ a l ≡ 0 = occ_single a l (once a) in
    let i_out : occ i l ≡ 0 = omega (arith, out, occ-le-cons i a l) in
    let i-ne-a : i ≢ a = ne_of_occ i a (a ∷ l) out (occ_self a l) in
    (
      c.0,
      attach_previous e (last_or a l) i v a i-ne-a ∙ c.1,
      attach_head e a l i v c.0 i-ne-a a_out c.2,
      attach_list e (last_or a l) i v a i-ne-a ∙ c.3,
      Chain-attach e name a l i v pos i_out (λ j. omega (arith, once j, occ-le-cons j a l)) vp vn vl
          c.4,
    )
