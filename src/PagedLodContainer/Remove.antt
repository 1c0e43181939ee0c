-- ===== src/PagedLodContainer/Remove.antt =====
-- remove(): the element of a PagedLOD becomes available, and the two forget each other.
use vsg.Base.{
  ℕ, ◌<◌, ◌≡◌, refl, sym, ap, ◌∙◌, inl, inr, false, List, [], ◌∷◌, ltb, ◌==◌, arith, Bool-cases,
  ==_iff, ==_refl,
}
use vsg.PagedLodContainer.{
  ListName, available, same, Element, Container, update, append, unlink, move, move_linked, remove,
  set_next, set_previous, set_list,
}
use vsg.PagedLodContainer.Chain.{Chain, occ}
use vsg.PagedLodContainer.Linked.{Queues, Linked}
use vsg.PagedLodContainer.Move.{moved, move-moved, bounds, cell}

append-index :
    (i plod : ℕ) (target : ListName) (c : Container) → (append i plod target c).index ≡ c.index
unfolding append set_list set_next
append-index i plod target c = elim (Bool-cases (ltb 0 (c.lists target).tail)) [
  | inl e ↦ rw e refl
  | inr e ↦ rw e refl
]

unlink-index : (i : ℕ) (source : ListName) (c : Container) → (unlink i source c).index ≡ c.index
unfolding unlink set_list set_next set_previous
unlink-index i source c = elim (Bool-cases (ltb 0 (c.elements i).previous)) [
  | inl p ↦ elim (Bool-cases (ltb 0 (c.elements i).next)) [ inl n ↦ rw (p, n) | inr n ↦ rw (p, n) ]
  | inr p ↦ elim (Bool-cases (ltb 0 (c.elements i).next)) [ inl n ↦ rw (p, n) | inr n ↦ rw (p, n) ]
]

abbrev no_plod : ℕ → (ℕ → Element) → ℕ → Element
no_plod i e = update e i (record (e i) { plod = 0 })

module _ (e : ℕ → Element) (i : ℕ) where
  no_plod_links :
      (j : ℕ)
      → ((no_plod i e j).previous ≡ (e j).previous)
        × ((no_plod i e j).next ≡ (e j).next)
        × ((no_plod i e j).list ≡ (e j).list)
  no_plod_links j = elim (Bool-cases (j == i)) [
    | inl h ↦
        let same_index = (==_iff j i).0 h in
        rw h (
          ap (λ k. (e k).previous) (sym same_index),
          ap (λ k. (e k).next) (sym same_index),
          ap (λ k. (e k).list) (sym same_index),
        )
    | inr h ↦ rw h (refl, refl, refl)
  ]

  Chain-no_plod :
      (name : ListName) (p : ℕ) (l : List ℕ) → Chain e name p l → Chain (no_plod i e) name p l
  Chain-no_plod name p [] c = tt
  Chain-no_plod name p (j ∷ l) c =
      let h = no_plod_links j in (c.0, h.0 ∙ c.1, h.1 ∙ c.2, h.2 ∙ c.3, Chain-no_plod name j l c.4)

Linked-forgotten :
    (c : Container) (q : Queues) (i : ℕ) (f : ℕ → ℕ)
    → Linked c q 0
    → Linked (record c { elements = no_plod i c.elements; index = f }) q 0
Linked-forgotten c q i f l = record {
  ends = l.ends;
  chains = λ k. Chain-no_plod c.elements i k 0 (q k) (l.chains k);
  once = l.once;
  total = l.total;
  word = l.word;
}

-- What remove() leaves of a container with the queues `q`.
pub record Removes (c : Container) (q : Queues) (plod : ℕ) (source : ListName) (c' : Container)
    : Type 0 where
  pub linked : Linked c' (moved q (c.index plod) source available) 0
  pub no_index : c'.index plod ≡ 0
  pub other_index : (k : ℕ) → (k == plod) ≡ false → c'.index k ≡ c.index k
  pub element_free : (c'.elements (c.index plod)).plod ≡ 0

module _ (c : Container) (q : Queues) (l : Linked c q 0) (plod : ℕ) (source : ListName)
    (other : same source available ≡ false) (has : 0 < occ (c.index plod) (q source)) where
  move-index : (move plod available c).index ≡ c.index
  unfolding move move_linked
  move-index =
      let b = bounds c q l source (c.index plod) has in
      let named : (c.index plod == 0) ≡ false = ground arith in
      rw (named, (cell c q l source (c.index plod) has).3, move_linked, other)
        (append-index (c.index plod) _ available (unlink (c.index plod) source c)
          ∙ unlink-index (c.index plod) source c)

  -- In a linked container, when the element of the PagedLOD is in the active or the inactive list:
  -- `remove` moves it to the end of the available list, the container stays linked, the element has
  -- no PagedLOD and the PagedLOD no element, and the other PagedLODs keep theirs.
  pub remove-Removes : Removes c q plod source (remove plod c)
  unfolding remove
  remove-Removes =
      let b = bounds c q l source (c.index plod) has in
      let named : (c.index plod == 0) ≡ false = ground arith in
      rw (named, move-index)
        (record {
          linked =
              Linked-forgotten (move plod available c) _ (c.index plod) _
                (move-moved c q l plod available source other has);
          no_index = rw (==_refl plod) refl;
          other_index = λ k h. rw h refl;
          element_free = rw (==_refl (c.index plod)) refl;
        })
