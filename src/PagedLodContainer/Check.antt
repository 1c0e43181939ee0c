-- ===== src/PagedLodContainer/Check.antt =====
-- check() of PagedLODContainer, which walks along a list and compares its links, and what holds of a
-- container that passes it.
use mathlib.Core.Path.{subst}
use vsg.Base.{
  ℕ, zero, suc, ◌+◌, ◌<◌, ◌^◌, ◌≡◌, refl, sym, ap, ◌∙◌, ◌⊎◌, ◌↔◌, inl, inr, Bool, true, false,
  Option, none, some, List, [], ◌∷◌, ◌&&◌, ltb, ◌==◌, if◌then◌else◌, last_or, length, arith,
  ==_refl, ==_iff, lt→ltb, both, Bool-cases, Option-cases,
}
use vsg.Base.Word.{add32, add32_exact}
use vsg.PagedLodContainer.{ListName, available, active, inactive, IndexList, Element, Container}
use vsg.PagedLodContainer.Chain.{first}
use vsg.PagedLodContainer.Linked.{Ends}

-- The comparisons of one round, for element `i` of the list `l`.
unfoldable pub links_match : IndexList → ℕ → (ℕ → Element) → Bool
links_match l i elements =
    let element = elements i in
    (if element.previous == 0 then i == l.head else (elements element.previous).next == i)
    && (if element.next == 0 then i == l.tail else (elements element.next).previous == i)

-- The loop, on as many rounds as elements.size() - count: the count, or none when it returns false.
unfoldable pub check_loop : ℕ → ℕ → ℕ → IndexList → (ℕ → Element) → Option ℕ
check_loop zero i count l elements = some count
check_loop (suc rounds) i count l elements =
    let next = check_loop rounds (elements i).next (add32 count 1) l elements in
    let matching = if links_match l i elements then next else none in
    if ltb 0 i then matching else some count

abbrev pub is_count : Option ℕ → ℕ → Bool
is_count none n = false
is_count (some count) n = count == n

unfoldable pub check_list : IndexList → Container → Bool
check_list l c =
    if l.head == 0
    then l.tail == 0 && l.count == 0
    else if (c.elements l.head).previous == 0 && (c.elements l.tail).next == 0
    then is_count (check_loop c.size l.head 0 l c.elements) l.count
    else false

unfoldable pub check : Container → Bool
check c =
    check_list (c.lists available) c
    && (check_list (c.lists active) c && check_list (c.lists inactive) c)

-- The elements of `xs`, in this order, point to each other in both directions.
abbrev pub Links : (ℕ → Element) → ℕ → List ℕ → Type 0
Links e previous [] = Unit
Links e previous (i ∷ xs) =
    (0 < i) × ((e i).previous ≡ previous) × ((e i).next ≡ first xs) × Links e i xs

-- The list is a row of elements: its ends and its count are those of the row.
abbrev pub Row : Container → IndexList → Type 0
Row c l = (xs : List ℕ) × Ends l xs × Links c.elements 0 xs

-- What the element before `i` says: there is none, or its next is `i`.
abbrev Behind : (ℕ → Element) → IndexList → ℕ → ℕ → Type 0
Behind e l p i = ((p ≡ 0) × (i ≡ l.head)) ⊎ ((0 < p) × ((e p).next ≡ i))

positive : (p : ℕ) → 0 < p → (p == 0) ≡ false
positive p h = ground arith

previous_matches :
    (e : ℕ → Element) (l : IndexList) (p i : ℕ)
    → (e i).previous ≡ p
    → Behind e l p i
    → (if (e i).previous == 0 then i == l.head else (e (e i).previous).next == i) ≡ true
previous_matches e l p i h (inl (x, y)) = rw (h, x, ← y) (==_refl i)
previous_matches e l p i h (inr (x, y)) = rw (h, positive p x, y) (==_refl i)

next_matches :
    (e : ℕ → Element) (l : IndexList) (i : ℕ) (rest : List ℕ)
    → (e i).next ≡ first rest
    → l.tail ≡ last_or i rest
    → Links e i rest
    → (if (e i).next == 0 then i == l.tail else (e (e i).next).previous == i) ≡ true
next_matches e l i [] h t c = rw (h, t) (==_refl i)
next_matches e l i (j ∷ rest) h t c = rw (h, positive j c.0, c.1) (==_refl i)

walk :
    (e : ℕ → Element) (l : IndexList) (rest : List ℕ) (p rounds count : ℕ)
    → Links e p rest
    → Behind e l p (first rest)
    → l.tail ≡ last_or p rest
    → length rest < rounds
    → count + length rest < 2 ^ 32
    → check_loop rounds (first rest) count l e ≡ some (count + length rest)
unfolding check_loop links_match
walk e l [] p zero count c b t r w = absurd (omega arith)
walk e l (i ∷ rest) p zero count c b t r w = absurd (omega arith)
walk e l [] p (suc rounds) count c b t r w = ap some (omega arith)
walk e l (i ∷ rest) p (suc rounds) count c b t r w =
    rw
      (
        lt→ltb 0 i c.0,
        previous_matches e l p i c.1 b,
        next_matches e l i rest c.2 t c.3,
        c.2,
        add32_exact count 1 (omega arith),
      )
      (walk e l rest i rounds (count + 1) c.3 (inr (c.0, c.2)) t (omega arith) (omega arith)
        ∙ ap some (omega arith))

last_next :
    (e : ℕ → Element) (p i : ℕ) (rest : List ℕ)
    → Links e p (i ∷ rest)
    → (e (last_or i rest)).next ≡ 0
last_next e p i [] c = c.2
last_next e p i (j ∷ rest) c = last_next e i j rest c.3

count_matches : (n : ℕ) → (0 + n == n) ≡ true
count_matches n = ground arith

-- The list that the row `xs` has.
abbrev list_of : List ℕ → IndexList
list_of xs = record { head = first xs; tail = last_or 0 xs; count = length xs }

Ends-list_of :
    (head tail count : ℕ) (xs : List ℕ)
    → Ends (record { head = head; tail = tail; count = count }) xs
    → list_of xs ≡ record { head = head; tail = tail; count = count }
Ends-list_of head tail count xs h = rw (h.0, h.1, h.2) refl

list_of-check_list :
    (c : Container) (xs : List ℕ)
    → Links c.elements 0 xs
    → length xs < c.size
    → c.size < 2 ^ 32
    → check_list (list_of xs) c ≡ true
unfolding check_list
list_of-check_list c [] chain s w = refl
list_of-check_list c (i ∷ rest) chain s w =
    rw
      (
        positive i chain.0,
        chain.1,
        last_next c.elements 0 i rest chain,
        walk c.elements (list_of (i ∷ rest)) (i ∷ rest) 0 c.size 0 chain (inl (refl, refl)) refl s
            (omega arith),
      )
      (count_matches (length (i ∷ rest)))

Row-check_list :
    (c : Container) (l : IndexList)
    → c.size < 2 ^ 32
    → l.count < c.size
    → Row c l
    → check_list l c ≡ true
Row-check_list c l w s (xs, ends, chain) =
    subst (λ x. check_list x c ≡ true) (Ends-list_of l.head l.tail l.count xs ends)
      (list_of-check_list c xs chain (omega (arith, ends.2, s)) w)

-- What the loop knows of the next element: there is none, or it points back.
abbrev Reached : (ℕ → Element) → IndexList → ℕ → ℕ → Type 0
Reached e l p i = ((i ≡ 0) × (l.tail ≡ p)) ⊎ ((0 < i) × ((e i).previous ≡ p))

next-Reached :
    (e : ℕ → Element) (l : IndexList) (i : ℕ)
    → (if (e i).next == 0 then i == l.tail else (e (e i).next).previous == i) ≡ true
    → Reached e l i (e i).next
next-Reached e l i h = elim (Bool-cases ((e i).next == 0)) [
  | inl z ↦ inl ((==_iff (e i).next 0).0 z, sym ((==_iff i l.tail).0 (rw z at h)))
  | inr z ↦ inr (ground arith, (==_iff (e (e i).next).previous i).0 (rw z at h))
]

links_match-Reached :
    (e : ℕ → Element) (l : IndexList) (i : ℕ) → links_match l i e ≡ true → Reached e l i (e i).next
unfolding links_match
links_match-Reached e l i h =
    next-Reached e l i
      (both (if (e i).previous == 0 then i == l.head else (e (e i).previous).next == i)
        (if (e i).next == 0 then i == l.tail else (e (e i).next).previous == i) h).1

-- The rest of the row, when the loop ends with `n`.
abbrev Rest : (ℕ → Element) → IndexList → ℕ → ℕ → ℕ → ℕ → Type 0
Rest e l count n p i =
    (rest : List ℕ) × (first rest ≡ i)
    × Links e p rest
    × (l.tail ≡ last_or p rest)
    × (count + length rest ≡ n)

walk-Rest :
    (e : ℕ → Element) (l : IndexList) (rounds count n p i : ℕ)
    → Reached e l p i
    → count + rounds < 2 ^ 32
    → n < count + rounds
    → check_loop rounds i count l e ≡ some n
    → Rest e l count n p i
unfolding check_loop
walk-Rest e l zero count n p i r w b h = let z : count ≡ n = cc h in absurd (omega (arith, z, b))
walk-Rest e l (suc rounds) count n p zero (inl (z, t)) w b h =
    ([], refl, tt, t, (let z : count ≡ n = cc h in omega (arith, z)))
walk-Rest e l (suc rounds) count n p zero (inr (z, t)) w b h = absurd (omega (arith, z))
walk-Rest e l (suc rounds) count n p (suc i) (inl (z, t)) w b h = absurd (omega (arith, z))
walk-Rest e l (suc rounds) count n p (suc i) (inr (z, t)) w b h =
    elim (Bool-cases (links_match l (suc i) e)) [
      | inl m ↦
          let (rest, f, links, last, n_eq) =
            walk-Rest e l rounds (count + 1) n (suc i) (e (suc i)).next
              (links_match-Reached e l (suc i) m) (omega (arith, w)) (omega (arith, b))
              (rw (lt→ltb 0 (suc i) z, m, add32_exact count 1 (omega (arith, w))) at h) in
          (suc i ∷ rest, refl, (z, t, sym f, links), last, omega (arith, n_eq))
      | inr m ↦ cc (rw (lt→ltb 0 (suc i) z, m) at h)
    ]

check_list-Row :
    (c : Container) (l : IndexList)
    → c.size < 2 ^ 32
    → l.count < c.size
    → check_list l c ≡ true
    → Row c l
unfolding check_list
check_list-Row c l w s h = elim (Bool-cases (l.head == 0)) [
  | inl z ↦
      let (t, n) = both (l.tail == 0) (l.count == 0) (rw z at h) in
      ([], ((==_iff l.head 0).0 z, (==_iff l.tail 0).0 t, (==_iff l.count 0).0 n), tt)
  | inr z ↦ elim (Bool-cases ((c.elements l.head).previous == 0 && (c.elements l.tail).next == 0)) [
    | inl b ↦ counted z b (Option-cases (check_loop c.size l.head 0 l c.elements)) (rw (z, b) at h)
    | inr b ↦ cc (rw (z, b) at h)
  ]
]
  where
    counted :
        (l.head == 0) ≡ false
        → ((c.elements l.head).previous == 0 && (c.elements l.tail).next == 0) ≡ true
        → (check_loop c.size l.head 0 l c.elements ≡ none)
          ⊎ ((n : ℕ) × (check_loop c.size l.head 0 l c.elements ≡ some n))
        → is_count (check_loop c.size l.head 0 l c.elements) l.count ≡ true
        → Row c l
    counted z b (inl e) k = cc (rw e at k)
    counted z b (inr (n, e)) k =
        let same = (==_iff n l.count).0 (rw e at k) in
        let before = (==_iff (c.elements l.head).previous 0).0 (both _ _ b).0 in
        let (xs, f, links, t, n_eq) =
          walk-Rest c.elements l c.size 0 l.count 0 l.head (inr (ground arith, before))
            (omega (arith, w)) (omega (arith, s)) (e ∙ ap some same) in
        (xs, (sym f, t, omega (arith, n_eq)), links)

-- `check` returns true exactly when each of the three lists is a row of elements that point to each
-- other in both directions, the first and the last of which are its head and its tail, or 0 if
-- there is none, and whose number is its count. There are less than 2^32 elements, and each count
-- is below their number.
pub check_iff :
    (c : Container)
    → c.size < 2 ^ 32
    → ((k : ListName) → (c.lists k).count < c.size)
    → (check c ≡ true) ↔ ((k : ListName) → Row c (c.lists k))
unfolding check
check_iff c w s = (rows, λ r. rw (passes r available, passes r active, passes r inactive) refl)
  where
    passes : ((k : ListName) → Row c (c.lists k)) → (k : ListName) → check_list (c.lists k) c ≡ true
    passes r k = Row-check_list c (c.lists k) w (s k) (r k)

    rows : check c ≡ true → (k : ListName) → Row c (c.lists k)
    rows h available = check_list-Row c (c.lists available) w (s available) (both _ _ h).0
    rows h active = check_list-Row c (c.lists active) w (s active) (both _ _ (both _ _ h).1).0
    rows h inactive = check_list-Row c (c.lists inactive) w (s inactive) (both _ _ (both _ _ h).1).1
