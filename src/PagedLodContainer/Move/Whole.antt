-- ===== src/PagedLodContainer/Move/Whole.antt =====
-- `_move` as a whole, for a PagedLOD that has an element and for one that has none.
use vsg.Base.{
  ℕ, ◌≤◌, ◌<◌, ◌≡◌, refl, sym, ap, ◌∙◌, false, List, [], ◌∷◌, ◌++◌, arith, ◌==◌, last_or,
}
use vsg.PagedLodContainer.{
  ListName, available, same, Container, unlink, move_new, move_linked, move,
}
use vsg.PagedLodContainer.Chain.{occ, first, erase, occ_self, occ-last, occ_single, ne_of_occ}
use vsg.PagedLodContainer.Linked.{Queues, put, Linked, same_refl}
use vsg.PagedLodContainer.Move.Unlink.{
  distinct, unlink-Linked, unlink-size, bounds, cell, take_first-unlink,
}
use vsg.PagedLodContainer.Move.Append.{append-Linked}

-- The index leaves the queue `source` and goes to the end of the queue `target`.
abbrev pub moved : Queues → ℕ → ListName → ListName → Queues
moved q i source target =
    let left = put q source (erase i (q source)) in put left target (left target ++ i ∷ [])

module _ (c : Container) (q : Queues) (l : Linked c q 0) (plod : ℕ) (target : ListName) where
  -- In a linked container, when the element of the PagedLOD is in another list than the target: it
  -- leaves that list and goes to the end of the target list, and the container stays linked.
  pub move-moved :
      (source : ListName)
      → same source target ≡ false
      → 0 < occ (c.index plod) (q source)
      → Linked (move plod target c) (moved q (c.index plod) source target) 0
  unfolding move move_linked
  move-moved source other has =
      let i = c.index plod in
      let b = bounds c q l source i has in
      let named : (i == 0) ≡ false = ground arith in
      let listed = (cell c q l source i has).3 in
      rw (named, listed, move_linked, other)
        (append-Linked (unlink i source c) _ i _ target (unlink-Linked c q l source i has) b.0
          (rw (unlink-size i source c) b.1))

  -- In a linked container, when the element of the PagedLOD is in the target list: nothing changes.
  pub move_same : 0 < occ (c.index plod) (q target) → move plod target c ≡ c
  unfolding move move_linked
  move_same has =
      let i = c.index plod in
      let b = bounds c q l target i has in
      let named : (i == 0) ≡ false = ground arith in
      let listed = (cell c q l target i has).3 in rw (named, listed, move_linked, same_refl target)

last_in_rest : (i : ℕ) (rest : List ℕ) → occ i rest ≡ 0 → last_or i rest ≡ i → first rest ≡ 0
last_in_rest i [] out e = refl
last_in_rest i (j ∷ rest) out e =
    absurd (ne_of_occ i (last_or j rest) (j ∷ rest) out (occ-last j rest) (sym e))

Linked-index :
    (c : Container) (q : Queues) (out : ℕ) (f : ℕ → ℕ)
    → Linked c q out
    → Linked (record c { index = f }) q out
Linked-index c q out f l = record {
  ends = l.ends;
  chains = l.chains;
  once = l.once;
  total = l.total;
  word = l.word;
}

pub move_new-moved :
    (c : Container) (q : Queues) (plod i : ℕ) (rest : List ℕ) (target : ListName)
    → Linked c q 0
    → c.index plod ≡ 0
    → q available ≡ i ∷ rest
    → Linked (move plod target c) (moved q i available target) 0
      × ((move plod target c).index plod ≡ i)
unfolding move move_new
move_new-moved c q plod i rest target l none_yet ahead =
    let chain = rw ahead at (l.chains available) in
    let has : 0 < occ i (q available) = rw ahead (occ_self i rest) in
    let once : occ i (q available) ≤ 1 = distinct c q l available i in
    let head : (c.lists available).head ≡ i = (l.ends available).0 ∙ ap first ahead in
    let tail : (c.lists available).tail ≡ last_or i rest =
      (l.ends available).1 ∙ ap (last_or 0) ahead in
    let out : occ i rest ≡ 0 = occ_single i rest (rw ahead at once) in
    let b = bounds c q l available i has in
    let fresh : ((c.lists available).head == 0) ≡ false = ground (arith, head, b.0) in
    let first_one =
      take_first-unlink i c head chain.1 (λ e. chain.2 ∙ last_in_rest i rest out (sym tail ∙ e)) in
    rw (none_yet, fresh, head, first_one)
      (
        Linked-index _ _ 0 _ (
            append-Linked (unlink i available c) _ i plod target
              (unlink-Linked c q l available i has) b.0 (rw (unlink-size i available c) b.1)),
        ground arith,
      )
