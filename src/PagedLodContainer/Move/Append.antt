-- ===== src/PagedLodContainer/Move/Append.antt =====
-- The second half of a move: an element that is in no list goes to the end of one.
use vsg.Base.{
  ℕ, ◌+◌, ◌≤◌, ◌<◌, ◌^◌, ◌≡◌, ◌≢◌, refl, sym, ap, ◌∙◌, inl, inr, false, some, List, [], ◌∷◌, ◌++◌,
  arith, ltb, ◌==◌, if◌then◌else◌, last_or, length, length-append, Bool-cases,
}
use vsg.Base.Word.{add32, add32_exact}
use vsg.PagedLodContainer.{Element, ListName, same, Container, set_next, set_list, append}
use vsg.PagedLodContainer.Chain.{
  Chain, occ, first, attach, Chain-attach, Chain-frame, attach_other, last_or-append, occ-append,
  occ_one, occ-last,
}
use vsg.PagedLodContainer.Linked.{
  Queues, put, all_occ, Ends, Linked, same→eq, occ-le-all, occ-apart, all_occ-put, all_length-put,
  length-le-all,
}

abbrev new_cell : ℕ → ℕ → ListName → Element
new_cell previous plod target = record {
  previous = previous;
  next = 0;
  plod = plod;
  list = some target;
}

append-elements :
    (i plod : ℕ) (target : ListName) (c : Container)
    → (append i plod target c).elements
      ≡ attach c.elements (c.lists target).tail i (new_cell (c.lists target).tail plod target)
unfolding append set_list set_next
append-elements i plod target c = elim (Bool-cases (ltb 0 (c.lists target).tail)) [
  | inl t ↦ rw t
  | inr t ↦ rw t
]

pub append-size :
    (i plod : ℕ) (target : ListName) (c : Container) → (append i plod target c).size ≡ c.size
unfolding append set_list set_next
append-size i plod target c = ground arith

pub append-index :
    (i plod : ℕ) (target : ListName) (c : Container) → (append i plod target c).index ≡ c.index
unfolding append set_list set_next
append-index i plod target c = ground arith

append-lists :
    (i plod : ℕ) (target : ListName) (c : Container) (k : ListName)
    → (append i plod target c).lists k ≡ (
        if same k target
        then record {
          head = if (c.lists target).head == 0 then i else (c.lists target).head;
          tail = i;
          count = add32 (c.lists target).count 1;
        }
        else c.lists k)
unfolding append set_list set_next
append-lists i plod target c k = elim (Bool-cases (ltb 0 (c.lists target).tail)) [
  | inl t ↦ rw t
  | inr t ↦ rw t
]

first_with :
    (i : ℕ) (e : ℕ → Element) (k : ListName) (l : List ℕ)
    → Chain e k 0 l
    → (if first l == 0 then i else first l) ≡ first (l ++ i ∷ [])
first_with i e k [] c = refl
first_with i e k (j ∷ l) c = ground (arith, c.0)

module _ (c : Container) (q : Queues) (i plod : ℕ) (target : ListName) (l : Linked c q i)
    (pos : 0 < i) (within : i < c.size) where
  once_all : (j : ℕ) → all_occ q j ≤ 1
  once_all j = ground (arith, l.once j)

  nowhere : (k : ListName) → occ i (q k) ≡ 0
  nowhere k = ground (arith, l.once i, occ-le-all q k i)

  abbrev added : Queues
  added = put q target (q target ++ i ∷ [])

  count_fits : length (q target) + 1 < 2 ^ 32
  count_fits = ground (arith, length-le-all q target, l.total, l.word, pos)

  length_added : length (q target ++ i ∷ []) ≡ length (q target) + 1
  length_added = omega (arith, length-append (q target) (i ∷ []))

  added-Ends : (k : ListName) → Ends ((append i plod target c).lists k) (added k)
  added-Ends k = elim (Bool-cases (same k target)) [
    | inr other ↦ rw (append-lists i plod target c k, other) (l.ends k)
    | inl here ↦
        let e = l.ends target in
        rw (append-lists i plod target c k, here, e.0, e.2)
          (
            first_with i c.elements target (q target) (l.chains target),
            sym (last_or-append 0 i (q target)),
            add32_exact _ 1 count_fits ∙ sym length_added,
          )
  ]

  tail_here : 0 < last_or 0 (q target) → 0 < occ (last_or 0 (q target)) (q target)
  tail_here = here (q target)
    where
      here : (m : List ℕ) → 0 < last_or 0 m → 0 < occ (last_or 0 m) m
      here [] h = absurd (omega arith)
      here (a ∷ m) h = occ-last a m

  not_tail :
      (k : ListName) (j : ℕ)
      → same k target ≡ false
      → 0 < occ j (q k)
      → 0 < last_or 0 (q target)
      → last_or 0 (q target) ≢ j
  not_tail k j other h h' e =
      omega (
        arith,
        occ-apart q k target j other,
        once_all j,
        tail_here h',
        ap (λ n. occ n (q target)) e,
      )

  added_chains : (k : ListName) → Chain (append i plod target c).elements k 0 (added k)
  added_chains k = elim (Bool-cases (same k target)) [
    | inr other ↦
        rw (append-elements i plod target c, other, (l.ends target).1)
          (Chain-frame c.elements _ k 0 (q k)
            (λ j h.
              attach_other c.elements (last_or 0 (q target)) i _ j
                (λ e. omega (arith, nowhere k, ap (λ n. occ n (q k)) e)) (not_tail k j other h))
            (l.chains k))
    | inl here ↦
        rw (append-elements i plod target c, here, (l.ends target).1, same→eq k target here)
          (Chain-attach c.elements target 0 (q target) i
            (new_cell (last_or 0 (q target)) plod target) pos (nowhere target)
            (λ j. omega (arith, once_all j, occ-le-all q target j)) refl refl refl
            (l.chains target))
  ]

  pub append-Linked : Linked (append i plod target c) added 0
  append-Linked = record {
    ends = added-Ends;
    chains = added_chains;
    once = λ j. rw (append-size i plod target c) (
        ground (
          arith,
          pos,
          within,
          l.once j,
          all_occ-put q target (q target ++ i ∷ []) j,
          occ-append j (q target) (i ∷ []),
          occ_one i j,
        ));
    total =
        rw (append-size i plod target c) (
          ground (arith, pos, l.total, all_length-put q target (q target ++ i ∷ []), length_added));
    word = rw (append-size i plod target c) l.word;
  }
