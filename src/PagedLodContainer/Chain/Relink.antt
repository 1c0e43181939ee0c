-- ===== src/PagedLodContainer/Chain/Relink.antt =====
-- Linking two elements with each other past the element between them.
use vsg.Base.{
  ℕ, ◌≤◌, ◌<◌, ◌≡◌, ◌≢◌, sym, ap, ◌∙◌, List, [], ◌∷◌, ◌++◌, arith, ltb, if◌then◌else◌, last_or,
}
use vsg.PagedLodContainer.{Element, ListName, update}
use vsg.PagedLodContainer.Chain.Occ.{
  occ, first, Chain, occ-append, occ_self, occ-le-cons, occ_single, ne_of_occ, occ-middle,
  Chain-frame, occ-first, occ-last,
}

-- Joins the elements `p` and `n`, either of which may be missing.
abbrev pub relink : (ℕ → Element) → ℕ → ℕ → ℕ → Element
relink e p n =
    let e' = if ltb 0 p then update e p (record (e p) { next = n }) else e in
    if ltb 0 n then update e' n (record (e' n) { previous = p }) else e'

pub relink_other :
    (e : ℕ → Element) (p n j : ℕ) → (0 < p → p ≢ j) → (0 < n → n ≢ j) → relink e p n j ≡ e j
relink_other e p n j h k = ground arith

relink_previous : (e : ℕ → Element) (p n : ℕ) → 0 < n → (relink e p n n).previous ≡ p
relink_previous e p n h = ground arith

relink_next : (e : ℕ → Element) (p n : ℕ) → 0 < p → p ≢ n → (relink e p n p).next ≡ n
relink_next e p n h k = ground arith

relink_keeps_previous :
    (e : ℕ → Element) (p n j : ℕ) → (0 < n → n ≢ j) → (relink e p n j).previous ≡ (e j).previous
relink_keeps_previous e p n j h = ground arith

relink_keeps_next :
    (e : ℕ → Element) (p n j : ℕ) → (0 < p → p ≢ j) → (relink e p n j).next ≡ (e j).next
relink_keeps_next e p n j h = ground arith

pub relink_list : (e : ℕ → Element) (p n j : ℕ) → (relink e p n j).list ≡ (e j).list
relink_list e p n j = ground arith

pub last-ne : (a b : ℕ) (l : List ℕ) → occ a (b ∷ l) ≡ 0 → last_or b l ≢ a
last-ne a b l h e = omega (arith, ap (λ n. occ n (b ∷ l)) e, occ-last b l)

pub first-ne : (a : ℕ) (l : List ℕ) → occ a l ≡ 0 → 0 < first l → first l ≢ a
first-ne a [] h pos e = omega arith
first-ne a (b ∷ l) h pos e = omega (arith, ap (λ n. occ n (b ∷ l)) e, occ-first b l)

-- The next element of the first one, when element `i` is taken out.
relink_head :
    (e : ℕ → Element) (a : ℕ) (l : List ℕ) (i : ℕ) (r : List ℕ)
    → 0 < a
    → occ a (l ++ i ∷ r) ≡ 0
    → (e a).next ≡ first (l ++ i ∷ r)
    → (relink e (last_or a l) (first r) a).next ≡ first (l ++ r)
relink_head e a [] i r pos out c =
    relink_next e a (first r) pos
      λ q. first-ne a r (omega (arith, out, occ-le-cons a i r)) (omega arith) (sym q)
relink_head e a (b ∷ l) i r pos out c =
    relink_keeps_next e (last_or b l) (first r) a
      (λ h. last-ne a b l (omega (arith, occ-append a (b ∷ l) (i ∷ r))))
    ∙ c

-- Taking the element out of the middle of a chain leaves a chain.
pub Chain-relink :
    (e : ℕ → Element) (name : ListName) (previous : ℕ) (l : List ℕ) (i : ℕ) (r : List ℕ)
    → ((j : ℕ) → occ j (l ++ i ∷ r) ≤ 1)
    → (0 < previous → occ previous (l ++ i ∷ r) ≡ 0)
    → Chain e name previous (l ++ i ∷ r)
    → Chain (relink e (last_or previous l) (first r)) name previous (l ++ r)
Chain-relink e name previous [] i [] once out c = tt
Chain-relink e name previous [] i (b ∷ r) once out c =
    let out_b : 0 < previous → occ previous (b ∷ r) ≡ 0 =
      λ h. omega (arith, out h, occ-le-cons previous i (b ∷ r)) in
    let b_out : occ b r ≡ 0 = occ_single b r (omega (arith, once b, occ-le-cons b i (b ∷ r))) in
    (
      c.4.0,
      relink_previous e previous b c.4.0,
      relink_keeps_next e previous b b (λ h. ne_of_occ previous b (b ∷ r) (out_b h) (occ_self b r))
          ∙ c.4.2,
      relink_list e previous b b ∙ c.4.3,
      Chain-frame e (relink e previous b) name b r
          (λ j h.
            relink_other e previous b j
              (λ h'. ne_of_occ previous j r (omega (arith, out_b h', occ-le-cons previous b r)) h)
              (λ h'. ne_of_occ b j r b_out h))
          c.4.4,
    )
Chain-relink e name previous (a ∷ l) i r once out c =
    let a_out : occ a (l ++ i ∷ r) ≡ 0 = occ_single a (l ++ i ∷ r) (once a) in
    let a_r : occ a r ≡ 0 = omega (arith, a_out, occ-middle a l (i ∷ r), occ-le-cons a i r) in
    (
      c.0,
      relink_keeps_previous e (last_or a l) (first r) a (first-ne a r a_r) ∙ c.1,
      relink_head e a l i r c.0 a_out c.2,
      relink_list e (last_or a l) (first r) a ∙ c.3,
      Chain-relink e name a l i r (λ j. omega (arith, once j, occ-le-cons j a (l ++ i ∷ r)))
          (λ h. a_out) c.4,
    )
