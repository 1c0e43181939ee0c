-- ===== src/PagedLodContainer/Resize/Loop.antt =====
-- The loop of `resize`: the new elements form a chain; and how two chains are joined.
use vsg.Base.{
  ℕ, zero, suc, ◌≤◌, ◌<◌, ◌≡◌, ◌≢◌, refl, ap, ◌∙◌, List, [], ◌∷◌, ◌++◌, arith, last_or, length,
}
use vsg.PagedLodContainer.{Element, ListName, available, same, Container, set_element, resize_loop}
use vsg.PagedLodContainer.Chain.{Chain, occ, first, occ_self, occ-last, occ-le-cons, occ_single}

-- n indices from i on.
abbrev pub range : ℕ → ℕ → List ℕ
range i zero = []
range i (suc n) = i ∷ range (suc i) n

pub resize_loop-below :
    (rounds i previous : ℕ) (c : Container) (j : ℕ)
    → j < i
    → (resize_loop rounds i previous c).elements j ≡ c.elements j
unfolding resize_loop set_element
resize_loop-below zero i previous c j h = ground arith
resize_loop-below (suc n) i previous c j h =
    resize_loop-below n (suc i) i (set_element i previous (suc i) c) j (omega arith) ∙ ground arith

pub resize_loop-Chain :
    (rounds i previous : ℕ) (c : Container)
    → 0 < i
    → Chain (resize_loop rounds i previous c).elements available previous (range i (suc rounds))
unfolding resize_loop set_element
resize_loop-Chain zero i previous c pos = (pos, ground arith, ground arith, ground arith, tt)
resize_loop-Chain (suc n) i previous c pos =
    let at = resize_loop-below n (suc i) i (set_element i previous (suc i) c) i (omega arith) in
    (
      pos,
      ap (λ (e : Element). e.previous) at ∙ ground arith,
      ap (λ (e : Element). e.next) at ∙ ground arith,
      ap (λ (e : Element). e.list) at ∙ ground arith,
      resize_loop-Chain n (suc i) i (set_element i previous (suc i) c) (omega arith),
    )

pub resize_loop-rest :
    (rounds i previous : ℕ) (c : Container)
    → ((resize_loop rounds i previous c).size ≡ c.size)
      × ((resize_loop rounds i previous c).lists ≡ c.lists)
      × ((resize_loop rounds i previous c).index ≡ c.index)
unfolding resize_loop set_element
resize_loop-rest zero i previous c = (refl, refl, refl)
resize_loop-rest (suc n) i previous c =
    resize_loop-rest n (suc i) i (set_element i previous (suc i) c)

-- Two chains are joined where the last element of the first gets the first one of the second.
pub Chain-join :
    (e e' : ℕ → Element) (k : ListName) (p : ℕ) (l r : List ℕ)
    → ((j : ℕ) → occ j l ≤ 1)
    → ((j : ℕ) → 0 < occ j l → j ≢ last_or p l → e' j ≡ e j)
    → ((j : ℕ) → 0 < occ j l → (e' j).previous ≡ (e j).previous)
    → ((j : ℕ) → 0 < occ j l → (e' j).list ≡ (e j).list)
    → (0 < length l → (e' (last_or p l)).next ≡ first r)
    → Chain e k p l
    → Chain e' k (last_or p l) r
    → Chain e' k p (l ++ r)
Chain-join e e' k p [] r once same prev list next c d = d
Chain-join e e' k p (a ∷ []) r once same prev list next c d =
    (c.0, prev a (occ_self a []) ∙ c.1, next (omega arith), list a (occ_self a []) ∙ c.3, d)
Chain-join e e' k p (a ∷ b ∷ l) r once same prev list next c d =
    let a_out = occ_single a (b ∷ l) (once a) in
    let tail = λ (j : ℕ). occ-le-cons j a (b ∷ l) in
    (
      c.0,
      prev a (occ_self a (b ∷ l)) ∙ c.1,
      ap (λ (x : Element). x.next)
            (same a (occ_self a (b ∷ l))
              (λ e. omega (arith, a_out, ap (λ n. occ n (b ∷ l)) e, occ-last b l)))
          ∙ c.2,
      list a (occ_self a (b ∷ l)) ∙ c.3,
      Chain-join e e' k a (b ∷ l) r (λ j. omega (arith, once j, tail j))
          (λ j h. same j (omega (arith, tail j))) (λ j h. prev j (omega (arith, tail j)))
          (λ j h. list j (omega (arith, tail j))) (λ h. next (omega arith)) c.4 d,
    )
