-- ===== src/PagedLodContainer/Resize/Whole.antt =====
-- `resize` as a whole.

use vsg.Base.{
  ℕ, suc, ◌+◌, ◌-◌, ◌≤◌, ◌<◌, ◌^◌, ◌≡◌, ◌≢◌, refl, ap, ◌∙◌, false, inl, inr, List, [], ◌∷◌, ◌++◌,
  arith, ltb, ◌==◌, if◌then◌else◌, last_or, length, length-append, Bool-cases, lt→ltb,
}
use vsg.Base.Word.{add32, sub32, add32_exact, sub32_exact}
use vsg.PagedLodContainer.{
  Element, ListName, available, active, inactive, same, Container, set_next, set_list, resize_loop,
  resize_elements, resize_to,
}
use vsg.PagedLodContainer.Chain.{Chain, occ, Chain-frame, occ-append, occ-last}
use vsg.PagedLodContainer.Linked.{
  Queues, put, all_occ, Ends, Linked, occ-le-all, occ-apart, all_occ-put, all_length-put,
  length-le-all, last_or-middle,
}
use vsg.PagedLodContainer.Resize.Loop.{
  range, resize_loop-below, resize_loop-Chain, resize_loop-rest, Chain-join,
}
use vsg.PagedLodContainer.Resize.Range.{
  length-range, occ-range, last_or-range, first_grown, last_occ,
}

module _ (c : Container) (q : Queues) (l : Linked c q 0) (new_size : ℕ) (some_element : 0 < c.size)
    (larger : c.size ≤ new_size) (word : new_size + 1 < 2 ^ 32) where
  abbrev rounds : ℕ
  rounds = new_size - c.size

  abbrev new : List ℕ
  new = range c.size (suc rounds)

  abbrev grown : Queues
  grown = put q available (q available ++ new)

  -- The container before the loop and after it.
  abbrev sized : Container
  sized = resize_elements (new_size + 1) c

  abbrev ready : Container
  ready =
      if ltb 0 (c.lists available).tail
      then set_next (c.lists available).tail c.size sized
      else sized

  abbrev looped : Container
  looped = resize_loop rounds c.size (c.lists available).tail ready

  resize_to-looped :
      resize_to new_size c
      ≡ set_list available
          (record {
            head = if (c.lists available).head == 0 then c.size else (c.lists available).head;
            tail = new_size;
            count = length (q available ++ new);
          })
          looped
  unfolding resize_to
  resize_to-looped =
      let o : c.size - 1 + 1 ≡ c.size = omega arith in
      let a : add32 1 (c.size - 1) ≡ c.size =
        add32_exact 1 (c.size - 1) (omega (arith, l.word)) ∙ omega arith in
      let d : sub32 new_size (c.size - 1) ≡ suc rounds =
        sub32_exact new_size (c.size - 1) (omega arith) (omega arith) ∙ omega arith in
      let n : add32 (c.lists available).count (suc rounds) ≡ length (q available ++ new) =
        add32_exact _ (suc rounds)
          (omega (arith, (l.ends available).2, length-le-all q available, l.total))
        ∙ omega (
          arith,
          (l.ends available).2,
          length-append (q available) new,
          length-range c.size (suc rounds),
        ) in
      let t : c.size + (new_size - c.size) ≡ new_size = omega arith in
      rw (a, d, n, t, add32_exact new_size 1 word)

  in_range : (k : ListName) (j : ℕ) → 0 < occ j (q k) → (0 < j) × (j < c.size)
  in_range k j h = ground (arith, l.once j, occ-le-all q k j)

  once_all : (j : ℕ) → all_occ q j ≤ 1
  once_all j = ground (arith, l.once j)

  abbrev tail : ℕ
  tail = (c.lists available).tail

  ready_at : (j : ℕ) → j < c.size → j ≢ tail → ready.elements j ≡ c.elements j
  unfolding resize_elements set_next
  ready_at j h k = elim (Bool-cases (ltb 0 tail)) [
    | inl t ↦ rw t (ground arith)
    | inr t ↦ rw t (ground arith)
  ]

  ready_previous : (j : ℕ) → j < c.size → (ready.elements j).previous ≡ (c.elements j).previous
  unfolding resize_elements set_next
  ready_previous j h = elim (Bool-cases (ltb 0 tail)) [
    | inl t ↦ rw t (ground arith)
    | inr t ↦ rw t (ground arith)
  ]

  ready_list : (j : ℕ) → j < c.size → (ready.elements j).list ≡ (c.elements j).list
  unfolding resize_elements set_next
  ready_list j h = elim (Bool-cases (ltb 0 tail)) [
    | inl t ↦ rw t (ground arith)
    | inr t ↦ rw t (ground arith)
  ]

  ready_tail : 0 < tail → (ready.elements tail).next ≡ c.size
  unfolding resize_elements set_next
  ready_tail h = rw (lt→ltb 0 tail h) (ground arith)

  ready_lists : ready.lists ≡ c.lists
  unfolding resize_elements set_next
  ready_lists = elim (Bool-cases (ltb 0 tail)) [ inl t ↦ rw t | inr t ↦ rw t ]

  ready_size : ready.size ≡ new_size + 1
  unfolding resize_elements set_next
  ready_size = elim (Bool-cases (ltb 0 tail)) [ inl t ↦ rw t | inr t ↦ rw t ]

  grown_size : (resize_to new_size c).size ≡ new_size + 1
  unfolding set_list
  grown_size = rw resize_to-looped ((resize_loop-rest rounds c.size tail ready).0 ∙ ready_size)

  looped_below : (j : ℕ) → j < c.size → looped.elements j ≡ ready.elements j
  looped_below j h = resize_loop-below rounds c.size tail ready j h

  tail_eq : tail ≡ last_or 0 (q available)
  tail_eq = (l.ends available).1

  tail_here : 0 < tail → 0 < occ tail (q available)
  tail_here h = rw tail_eq (here (q available) (rw tail_eq at h))
    where
      here : (m : List ℕ) → 0 < last_or 0 m → 0 < occ (last_or 0 m) m
      here [] pos = absurd (omega arith)
      here (a ∷ m) pos = occ-last a m

  other-Chain : (k : ListName) → same k available ≡ false → Chain looped.elements k 0 (q k)
  other-Chain k other =
      Chain-frame c.elements looped.elements k 0 (q k)
        (λ j h.
          let b = in_range k j h in
          looped_below j b.1
          ∙ ready_at j b.1 (λ e. omega (
            arith,
            occ-apart q k available j other,
            once_all j,
            tail_here (omega (arith, b.0)),
            ap (λ n. occ n (q available)) e,
          )))
        (l.chains k)

  grown_chains : (k : ListName) → Chain looped.elements k 0 (grown k)
  grown_chains available =
      let next_tail : 0 < length (q available)
          → (looped.elements (last_or 0 (q available))).next ≡ c.size =
        λ h.
          let pos : 0 < tail = rw tail_eq (in_range available _ (last_occ (q available) h)).0 in
          let b = (in_range available tail (tail_here pos)).1 in
          rw (← tail_eq) (ap (λ (e : Element). e.next) (looped_below tail b) ∙ ready_tail pos) in
      Chain-join c.elements looped.elements available 0 (q available) new
        (λ j. omega (arith, once_all j, occ-le-all q available j))
        (λ j h k.
          looped_below j (in_range available j h).1
          ∙ ready_at j (in_range available j h).1 (λ e. k (e ∙ tail_eq)))
        (λ j h.
          ap (λ (e : Element). e.previous) (looped_below j (in_range available j h).1)
          ∙ ready_previous j (in_range available j h).1)
        (λ j h.
          ap (λ (e : Element). e.list) (looped_below j (in_range available j h).1)
          ∙ ready_list j (in_range available j h).1)
        next_tail (l.chains available)
        (rw (← tail_eq) (resize_loop-Chain rounds c.size tail ready some_element))
  grown_chains active = other-Chain active refl
  grown_chains inactive = other-Chain inactive refl

  grown-Ends : (k : ListName) → Ends ((resize_to new_size c).lists k) (grown k)
  unfolding set_list
  grown-Ends available =
      rw (resize_to-looped, (l.ends available).0)
        (
          first_grown c.size rounds c.elements (q available) (l.chains available),
          omega (
            arith,
            last_or-middle 0 c.size (q available) (range (suc c.size) rounds),
            last_or-range 0 c.size rounds,
          ),
          refl,
        )
  grown-Ends active =
      rw (resize_to-looped, (resize_loop-rest rounds c.size tail ready).1)
        (rw ready_lists (l.ends active))
  grown-Ends inactive =
      rw (resize_to-looped, (resize_loop-rest rounds c.size tail ready).1)
        (rw ready_lists (l.ends inactive))

  resize_chains : (k : ListName) → Chain (resize_to new_size c).elements k 0 (grown k)
  unfolding set_list
  resize_chains k = rw resize_to-looped (grown_chains k)

  -- A resize to a larger size puts the new elements, in order, behind the available ones.
  pub resize_to-Linked : Linked (resize_to new_size c) grown 0
  resize_to-Linked = record {
    ends = grown-Ends;
    chains = resize_chains;
    once = λ j. rw grown_size (
        ground (
          arith,
          l.once j,
          all_occ-put q available (q available ++ new) j,
          occ-append j (q available) new,
          occ-range j c.size (suc rounds),
        ));
    total = rw grown_size (
        ground (
          arith,
          l.total,
          all_length-put q available (q available ++ new),
          length-append (q available) new,
          length-range c.size (suc rounds),
        ));
    word = rw grown_size word;
  }
