-- ===== src/CommandLine/Matching.antt =====
-- read() of an option by include/vsg/utils/CommandLine.h, against its specification on the list of the
-- arguments.
use vsg.Base.{
  ℕ, zero, suc, ◌+◌, ◌-◌, ◌<◌, ◌≤◌, ◌≡◌, refl, ap, ◌∙◌, Option, none, some, List, [], ◌∷◌, ◌++◌,
  length, if◌then◌else◌, arith, inl, inr, Bool-cases,
}
use vsg.CommandLine.{
  CommandLine, Text, argument, Parameter, Value, read_values, found_at, read_from, read, same_text,
  remove,
}
use vsg.CommandLine.Removal.{
  take, drop, arguments, arguments-remove, argc-remove, append_one, error_messages-remove,
}
use vsg.CommandLine.Reading.{from, from_step, from_end, many, Takes, read_values-Takes}

-- What read() comes to, for the arguments behind the program's name: the option does not occur, its
-- parameters cannot be read, or their values and the arguments without the option and them.
pub data Outcome : Type 0 where
  missing failed : Outcome
  taken : List Value → List Text → Outcome

abbrev pub keep : Text → Outcome → Outcome
keep a (taken vs l) = taken vs (a ∷ l)
keep a missing = missing
keep a failed = failed

abbrev pub outcome_of : Option (List Value × List Text) → Outcome
outcome_of none = failed
outcome_of (some (vs, l)) = taken vs l

unfoldable pub outcome : (ℕ → Text → Option ℕ) → Text → List Parameter → List Text → Outcome
outcome parse option ps [] = missing
outcome parse option ps (a ∷ l) =
    let further = keep a (outcome parse option ps l) in
    if same_text option a then outcome_of (many parse ps l) else further

take_step :
    (i : ℕ) (a : Text) (l r : List Text) → drop i l ≡ a ∷ r → take (suc i) l ≡ take i l ++ a ∷ []
take_step zero a [] r h = cc h
take_step zero a (x ∷ l) r h = let e : x ≡ a = cc h in rw e refl
take_step (suc i) a [] r h = cc h
take_step (suc i) a (x ∷ l) r h = ap (λ t. x ∷ t) (take_step i a l r h)

module _ (parse : ℕ → Text → Option ℕ) (option : Text) (ps : List Parameter) (c : CommandLine)
    (w : c.argc ≤ length c.argv) where
  -- A result that is as the specification says of the arguments from the place `i` on.
  abbrev pub Agrees : ℕ → Outcome → Option (List Value) × CommandLine → Type 0
  Agrees i missing r = r ≡ (none, c)
  Agrees i failed r = r ≡ (none, record c { error_messages = c.error_messages ++ option ∷ [] })
  Agrees i (taken vs l) r =
      (c' : CommandLine) × (r ≡ (some vs, c'))
      × (arguments c' ≡ take i (arguments c) ++ l)
      × (c'.argc ≤ length c'.argv)
      × (c'.error_messages ≡ c.error_messages)

  found_at-Agrees :
      (i : ℕ) (r : Option (List Value) × ℕ) (o : Option (List Value × List Text))
      → Takes parse c w (suc i) r o
      → Agrees i (outcome_of o) (found_at parse option i r c)
  found_at-Agrees i (none, j) none t = refl
  found_at-Agrees i (some vs, j) none t = cc t
  found_at-Agrees i (none, j) (some (vs', l)) t = cc (t.0)
  found_at-Agrees i (some vs, j) (some (vs', l)) (e, f, b, m) = (
    remove i (j - i) c,
    ap (λ u. (u, remove i (j - i) c)) e,
    arguments-remove i j c w (omega (arith, m)) b ∙ ap (λ u. take i (arguments c) ++ u) f,
    argc-remove i (j - i) c w,
    error_messages-remove i (j - i) c,
  )

  keep-Agrees :
      (i : ℕ) (a : Text) (rest : List Text) (o : Outcome) (r : Option (List Value) × CommandLine)
      → from i c ≡ a ∷ rest
      → Agrees (suc i) o r
      → Agrees i (keep a o) r
  keep-Agrees i a rest missing r h s = s
  keep-Agrees i a rest failed r h s = s
  keep-Agrees i a rest (taken vs l) r h (c', e, f, b, m) = (
    c',
    e,
    f
        ∙ ap (λ u. u ++ l) (take_step i a (arguments c) rest h)
        ∙ append_one (take i (arguments c)) l a,
    b,
    m,
  )

  read_from-Agrees :
      (n i : ℕ)
      → i + n ≡ c.argc
      → Agrees i (outcome parse option ps (from i c)) (read_from parse n i option ps c)
  unfolding outcome read_from
  read_from-Agrees zero i h = rw (from_end c w i (omega (arith, h))) refl
  read_from-Agrees (suc n) i h =
      let step = from_step c w i (omega (arith, h)) in
      elim (Bool-cases (same_text option (argument c i))) [
        | inl q ↦
            rw (step, q)
              (found_at-Agrees i (read_values parse ps (suc i) c) (many parse ps (from (suc i) c))
                (read_values-Takes parse c w ps (suc i) (omega (arith, h))))
        | inr q ↦
            rw (step, q)
              (keep-Agrees i (argument c i) (from (suc i) c)
                (outcome parse option ps (from (suc i) c)) (read_from parse n (suc i) option ps c)
                step (read_from-Agrees n (suc i) (omega (arith, h))))
      ]

  -- read() of an option does what the specification says of the arguments behind the program's name.
  pub read_lem :
      0 < c.argc
      → Agrees 1 (outcome parse option ps (drop 1 (arguments c))) (read parse option ps c)
  unfolding read
  read_lem h = read_from-Agrees (c.argc - 1) 1 (omega (arith, h))
