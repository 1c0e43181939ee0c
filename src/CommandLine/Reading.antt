-- ===== src/CommandLine/Reading.antt =====
-- The parameters that read() of include/vsg/utils/CommandLine.h takes, against their specification on
-- the list of the arguments.
use vsg.Base.{
  ℕ, zero, suc, ◌<◌, ◌≤◌, ◌≡◌, refl, sym, ap, Option, none, some, List, [], ◌∷◌, ◌++◌, ◌==◌, length,
  leb, ltb, leb→le, if◌then◌else◌, arith, inl, inr, Bool-cases,
}
use vsg.RefPtr.{get}
use vsg.CommandLine.{
  CommandLine, Text, or_empty, argument, Parameter, text, elements, Value, a_text, parsed, joined,
  read_value, read_values, as_parsed, read_more,
}
use vsg.CommandLine.Removal.{take, drop, arguments}

-- The arguments from the place `i` on.
abbrev pub from : ℕ → CommandLine → List Text
from i c = drop i (arguments c)

from_arguments :
    (i n : ℕ) (l : List Text)
    → i < n
    → n ≤ length l
    → drop i (take n l) ≡ or_empty (get l i) ∷ drop (suc i) (take n l)
from_arguments i zero l h k = absurd (omega arith)
from_arguments i (suc n) [] h k = absurd (omega arith)
from_arguments zero (suc n) (x ∷ l) h k = refl
from_arguments (suc i) (suc n) (x ∷ l) h k = from_arguments i n l (omega arith) (omega arith)

from_beyond : (i n : ℕ) (l : List Text) → n ≤ i → drop i (take n l) ≡ []
from_beyond zero zero l h = refl
from_beyond zero (suc n) l h = absurd (omega arith)
from_beyond (suc i) zero l h = refl
from_beyond (suc i) (suc n) [] h = refl
from_beyond (suc i) (suc n) (x ∷ l) h = from_beyond i n l (omega arith)

-- The first `n` arguments, each behind a space.
abbrev pub join : ℕ → List Text → Text
join zero l = []
join (suc n) [] = []
join (suc n) (a ∷ l) = 32 ∷ a ++ join n l

module _ (c : CommandLine) (w : c.argc ≤ length c.argv) where
  pub from_step : (i : ℕ) → i < c.argc → from i c ≡ argument c i ∷ from (suc i) c
  unfolding argument
  from_step i h = from_arguments i c.argc c.argv h w

  pub from_end : (i : ℕ) → c.argc ≤ i → from i c ≡ []
  from_end i h = from_beyond i c.argc c.argv h

  -- The loop over the elements: the text, and the arguments that are left.
  joined_lem :
      (n i : ℕ)
      → i ≤ c.argc
      → ((joined n i c).0 ≡ join n (from i c))
        × (from ((joined n i c).1) c ≡ drop n (from i c))
        × ((joined n i c).1 ≤ c.argc)
        × (i ≤ (joined n i c).1)
  unfolding joined
  joined_lem zero i h = (refl, refl, h, omega arith)
  joined_lem (suc n) i h = elim (Bool-cases (ltb i c.argc)) [
    | inl q ↦
        let inside : i < c.argc = ground (arith, q) in
        let (t, r, b, l) = joined_lem n (suc i) inside in
        rw (q, from_step i inside) (ap (λ u. 32 ∷ argument c i ++ u) t, r, b, omega (arith, l))
    | inr q ↦ rw (q, from_end i (ground (arith, q))) (refl, refl, h, omega arith)
  ]

module _ (parse : ℕ → Text → Option ℕ) where
  abbrev pub with_rest : Option ℕ → List Text → Option (Value × List Text)
  with_rest none l = none
  with_rest (some v) l = some (parsed v, l)

  -- One parameter from the arguments: its value, and the arguments behind it.
  unfoldable pub one : Parameter → List Text → Option (Value × List Text)
  one p [] = none
  one text (a ∷ l) = some (a_text a, l)
  one (elements type n) (a ∷ l) =
      if n == 1
      then with_rest (parse type a) l
      else with_rest (parse type (join n (a ∷ l))) (drop n (a ∷ l))

  abbrev pub add : Value → Option (List Value × List Text) → Option (List Value × List Text)
  add v none = none
  add v (some (vs, l)) = some (v ∷ vs, l)

  abbrev pub then_more :
      Option (Value × List Text)
      → (List Text → Option (List Value × List Text))
      → Option (List Value × List Text)
  then_more none f = none
  then_more (some (v, l)) f = add v (f l)

  -- The parameters of an option.
  unfoldable pub many : List Parameter → List Text → Option (List Value × List Text)
  many [] l = some ([], l)
  many (p ∷ ps) l = then_more (one p l) (many ps)

  module _ (c : CommandLine) (w : c.argc ≤ length c.argv) where
    -- What is read from the place `i` on is as the specification says.
    abbrev pub Takes : {A : Type 0} → ℕ → Option A × ℕ → Option (A × List Text) → Type 0
    Takes i (v, j) none = v ≡ none
    Takes i (v, j) (some (v', l)) = (v ≡ some v') × (from j c ≡ l) × (j ≤ c.argc) × (i ≤ j)

    Takes-with_rest :
        (i j : ℕ) (v : Option ℕ) (l : List Text)
        → from j c ≡ l
        → j ≤ c.argc
        → i ≤ j
        → Takes i (as_parsed parse v, j) (with_rest v l)
    Takes-with_rest i j none l e b h = refl
    Takes-with_rest i j (some v) l e b h = (refl, e, b, h)

    several :
        (type n i : ℕ)
        → i ≤ c.argc
        → Takes i
            (as_parsed parse (parse type ((joined n i c).0)), (joined n i c).1)
            (with_rest (parse type (join n (from i c))) (drop n (from i c)))
    several type n i h =
        let (t, r, b, l) = joined_lem c w n i h in
        rw t (
          Takes-with_rest i ((joined n i c).1) (parse type (join n (from i c))) (drop n (from i c))
            r b l)

    read_value-Takes :
        (p : Parameter) (i : ℕ) → i ≤ c.argc → Takes i (read_value parse p i c) (one p (from i c))
    unfolding read_value one
    read_value-Takes text i h = elim (Bool-cases (leb c.argc i)) [
      | inl q ↦ rw (q, from_end c w i (leb→le c.argc i q)) refl
      | inr q ↦
          let inside : i < c.argc = ground (arith, q) in
          rw (q, from_step c w i inside) (refl, refl, inside, omega arith)
    ]
    read_value-Takes (elements type n) i h = elim (Bool-cases (leb c.argc i)) [
      | inl q ↦ rw (q, from_end c w i (leb→le c.argc i q)) refl
      | inr q ↦
          let inside : i < c.argc = ground (arith, q) in
          elim (Bool-cases (n == 1)) [
            | inl m ↦
                rw (q, from_step c w i inside, m)
                  (Takes-with_rest i (suc i) (parse type (argument c i)) (from (suc i) c) refl
                    inside (omega arith))
            | inr m ↦
                let both = several type n i h in
                rw (q, from_step c w i inside, m) (rw (from_step c w i inside) at both)
          ]
    ]

    pub read_values-Takes :
        (ps : List Parameter) (i : ℕ)
        → i ≤ c.argc
        → Takes i (read_values parse ps i c) (many ps (from i c))
    unfolding read_values many
    read_values-Takes [] i h = (refl, refl, h, omega arith)
    read_values-Takes (p ∷ ps) i h =
        with_more (read_value parse p i c) (one p (from i c)) (read_value-Takes p i h)
          (read_values-Takes ps)
      where
        combine :
            (v : Value) (j : ℕ) (r : Option (List Value) × ℕ) (o : Option (List Value × List Text))
            → i ≤ j
            → Takes j r o
            → Takes i (read_more parse (some v) r j) (add v o)
        combine v j (none, k) none b t = refl
        combine v j (some vs, k) none b t = cc t
        combine v j (none, k) (some (vs', l)) b t = cc (t.0)
        combine v j (some vs, k) (some (vs', l)) b (e, f, g, m) =
            (ap some (ap (λ u. v ∷ u) (cc e)), f, g, omega (arith, b, m))

        with_more :
            (r : Option Value × ℕ) (o : Option (Value × List Text))
            → Takes i r o
            → ((j : ℕ) → j ≤ c.argc → Takes j (read_values parse ps j c) (many ps (from j c)))
            → Takes i
                (read_more parse (r.0) (read_values parse ps (r.1) c) (r.1))
                (then_more o (many ps))
        with_more (v, j) none t ih = rw t refl
        with_more (v, j) (some (v', l)) (e, f, b, m) ih =
            rw (e, sym f) (combine v' j (read_values parse ps j c) (many ps (from j c)) m (ih j b))
