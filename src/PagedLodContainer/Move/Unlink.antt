-- ===== src/PagedLodContainer/Move/Unlink.antt =====
-- The first half of a move: an element leaves its list.
use vsg.Base.{
  ℕ, ◌+◌, ◌≤◌, ◌<◌, ◌^◌, ◌≡◌, ◌≢◌, sym, ap, ◌∙◌, inl, inr, false, some, List, [], ◌∷◌, ◌++◌, arith,
  ltb, ◌==◌, if◌then◌else◌, last_or, length, length-append, ◌-◌, Bool-cases, ==_iff,
}
use vsg.Base.Word.{sub32, sub32_exact}
use vsg.PagedLodContainer.{
  ListName, available, same, Container, set_next, set_previous, set_list, unlink, take_first,
}
use vsg.PagedLodContainer.Chain.{
  Chain, occ, first, erase, relink, Chain-relink, Chain-frame, Chain-cell, relink_other, occ-append,
  occ-first, occ-last, occ_single, occ-middle, occ-le-cons, occ-erase,
}
use vsg.PagedLodContainer.Linked.{
  Queues, put, all_occ, Ends, Linked, Split, split, same→eq, occ-le-all, occ-apart, all_occ-put,
  all_length-put, length-le-all, first_without, last_without,
}

unlink-elements :
    (i : ℕ) (source : ListName) (c : Container)
    → (unlink i source c).elements ≡ relink c.elements (c.elements i).previous (c.elements i).next
unfolding unlink set_list set_next set_previous
unlink-elements i source c = elim (Bool-cases (ltb 0 (c.elements i).previous)) [
  | inl p ↦ elim (Bool-cases (ltb 0 (c.elements i).next)) [ inl n ↦ rw (p, n) | inr n ↦ rw (p, n) ]
  | inr p ↦ elim (Bool-cases (ltb 0 (c.elements i).next)) [ inl n ↦ rw (p, n) | inr n ↦ rw (p, n) ]
]

pub unlink-size : (i : ℕ) (source : ListName) (c : Container) → (unlink i source c).size ≡ c.size
unfolding unlink set_list set_next set_previous
unlink-size i source c = ground arith

unlink-lists :
    (i : ℕ) (source : ListName) (c : Container) (k : ListName)
    → (unlink i source c).lists k ≡ (
        if same k source
        then record {
          head = if (c.lists source).head == i then (c.elements i).next else (c.lists source).head;
          tail =
              if (c.lists source).tail == i then (c.elements i).previous else (c.lists source).tail;
          count = sub32 (c.lists source).count 1;
        }
        else c.lists k)
unfolding unlink set_list set_next set_previous
unlink-lists i source c k = elim (Bool-cases (ltb 0 (c.elements i).previous)) [
  | inl p ↦ elim (Bool-cases (ltb 0 (c.elements i).next)) [ inl n ↦ rw (p, n) | inr n ↦ rw (p, n) ]
  | inr p ↦ elim (Bool-cases (ltb 0 (c.elements i).next)) [ inl n ↦ rw (p, n) | inr n ↦ rw (p, n) ]
]

module _ (c : Container) (q : Queues) (l : Linked c q 0) where
  once_all : (j : ℕ) → all_occ q j ≤ 1
  once_all j = ground (arith, l.once j)

  pub distinct : (k : ListName) (j : ℕ) → occ j (q k) ≤ 1
  distinct k j = ground (arith, l.once j, occ-le-all q k j)

  module _ (source : ListName) (i : ℕ) (has : 0 < occ i (q source)) where
    abbrev s : Split i (q source)
    s = split i (q source) has

    pub bounds : (0 < i) × (i < c.size)
    bounds = ground (arith, l.once i, occ-le-all q source i)

    chain : Chain c.elements source 0 (s.front ++ i ∷ s.back)
    chain = rw s.whole at (l.chains source)

    pub cell :
        (0 < i)
        × ((c.elements i).previous ≡ last_or 0 s.front)
        × ((c.elements i).next ≡ first s.back)
        × ((c.elements i).list ≡ some source)
    cell = Chain-cell c.elements source 0 s.front i s.back chain

    once_source : (j : ℕ) → occ j (s.front ++ i ∷ s.back) ≤ 1
    once_source j = rw s.whole at (distinct source j)

    null_out : (k : ListName) → occ 0 (q k) ≡ 0
    null_out k = ground (arith, l.once 0, occ-le-all q k 0)

    back_out : occ i s.back ≡ 0
    back_out = occ_single i s.back (omega (arith, once_source i, occ-middle i s.front (i ∷ s.back)))

    -- The element's neighbours are in the same list.
    previous_here : 0 < last_or 0 s.front → 0 < occ (last_or 0 s.front) (q source)
    previous_here h = rw s.whole (here s.front h)
      where
        here : (f : List ℕ) → 0 < last_or 0 f → 0 < occ (last_or 0 f) (f ++ i ∷ s.back)
        here [] pos = absurd (omega arith)
        here (a ∷ f) pos =
            omega (arith, occ-append (last_or a f) (a ∷ f) (i ∷ s.back), occ-last a f)

    next_here : 0 < first s.back → 0 < occ (first s.back) (q source)
    next_here h = rw s.whole (here s.back h)
      where
        here : (b : List ℕ) → 0 < first b → 0 < occ (first b) (s.front ++ i ∷ b)
        here [] pos = absurd (omega arith)
        here (a ∷ b) pos =
            omega (arith, occ-append a s.front (i ∷ a ∷ b), occ-first a b, occ-le-cons a i (a ∷ b))

    elsewhere :
        (k : ListName) (j t : ℕ)
        → same k source ≡ false
        → 0 < occ t (q source)
        → 0 < occ j (q k)
        → t ≢ j
    elsewhere k j t other h h' e =
        omega (arith, occ-apart q k source j other, once_all j, ap (λ n. occ n (q source)) e)

    abbrev left : Queues
    left = put q source (erase i (q source))

    -- The length of the list, which counts fit in 32 bits.
    lengths :
        (1 ≤ length (s.front ++ i ∷ s.back))
        × (length (s.front ++ i ∷ s.back) < 2 ^ 32)
        × (length (s.front ++ i ∷ s.back) - 1 ≡ length (s.front ++ s.back))
    lengths = omega (
      arith,
      length-append s.front (i ∷ s.back),
      length-append s.front s.back,
      ap length s.whole,
      length-le-all q source,
      l.total,
      l.word,
    )

    left_length : length (erase i (q source)) + 1 ≡ length (q source)
    left_length = omega (arith, ap length s.whole, ap length s.rest, lengths)

    left-Ends : (k : ListName) → Ends ((unlink i source c).lists k) (left k)
    left-Ends k = elim (Bool-cases (same k source)) [
      | inr other ↦ rw (unlink-lists i source c k, other) (l.ends k)
      | inl here ↦
          let e = l.ends source in
          rw (unlink-lists i source c k, here, s.rest, e.0, e.1, e.2, cell.1, cell.2, s.whole)
            (
              first_without i s.front s.back s.new,
              last_without i s.front s.back back_out,
              sub32_exact _ 1 lengths.0 lengths.1 ∙ lengths.2,
            )
    ]

    left_chains : (k : ListName) → Chain (unlink i source c).elements k 0 (left k)
    left_chains k = elim (Bool-cases (same k source)) [
      | inr other ↦
          rw (unlink-elements i source c, other, cell.1, cell.2)
            (Chain-frame c.elements _ k 0 (q k)
              (λ j h.
                relink_other c.elements (last_or 0 s.front) (first s.back) j
                  (λ pos. elsewhere k j _ other (previous_here pos) h)
                  (λ pos. elsewhere k j _ other (next_here pos) h))
              (l.chains k))
      | inl here ↦
          rw (unlink-elements i source c, here, cell.1, cell.2, s.rest, same→eq k source here)
            (Chain-relink c.elements source 0 s.front i s.back once_source
              (λ h. absurd (omega arith)) chain)
    ]

    pub unlink-Linked : Linked (unlink i source c) left i
    unlink-Linked = record {
      ends = left-Ends;
      chains = left_chains;
      once = λ j. rw (unlink-size i source c) (
          ground (
            arith,
            l.once j,
            all_occ-put q source (erase i (q source)) j,
            occ-erase i j (q source) has,
          ));
      total = rw (unlink-size i source c) (
          ground
            (arith, bounds, l.total, all_length-put q source (erase i (q source)), left_length));
      word = rw (unlink-size i source c) l.word;
    }

-- Taking the first available element is the same as taking it out of its list.
pub take_first-unlink :
    (i : ℕ) (c : Container)
    → (c.lists available).head ≡ i
    → (c.elements i).previous ≡ 0
    → ((c.lists available).tail ≡ i → (c.elements i).next ≡ 0)
    → take_first i c ≡ unlink i available c
unfolding take_first unlink set_list set_previous
take_first-unlink i c head before last =
    rw (head, before)
      (elim (Bool-cases (i == (c.lists available).tail)) [
        | inl t ↦
            let e : (c.lists available).tail ≡ i = sym ((==_iff _ _).0 t) in
            rw (last e, e) (ground arith)
        | inr t ↦
            let t' : ((c.lists available).tail == i) ≡ false = ground arith in
            rw (t, t') (ground arith)
      ])
