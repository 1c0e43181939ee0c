-- ===== src/AsciiStream/Quotes.antt =====
-- Which strings are read back as they were written: those whose backslashes, taken in pairs with
-- the character after them, come neither before a quote nor at the end.
use mathlib.Core.List.{append_assoc}
use vsg.Base.{
  ℕ, ◌≡◌, ◌≢◌, ◌↔◌, refl, sym, ap, ◌∙◌, inl, inr, Bool, true, false, not, List, [], ◌∷◌, ◌++◌, ◌==◌,
  arith, if◌then◌else◌, Bool-cases, ==_iff,
}
use vsg.AsciiStream.{quote, backslash, escape, put_string, quoted, skip_spaces, get_string}

unfoldable pub survives : List ℕ → Bool → Bool
survives [] escaped = not escaped
survives (c ∷ s) true = let rest = survives s false in if c == quote then false else rest
survives (c ∷ s) false =
    let behind = survives s true in
    let rest = survives s false in if c == backslash then behind else rest

-- What the loop makes of a string, behind a backslash too.
abbrev put_back : List ℕ → Bool → List ℕ
put_back s true = backslash ∷ s
put_back s false = s

escape_plain : (c : ℕ) (s : List ℕ) → (c == quote) ≡ false → escape (c ∷ s) ≡ c ∷ escape s
unfolding escape
escape_plain c s h = rw h refl

quoted_behind :
    (c : ℕ) (l : List ℕ)
    → (c == quote) ≡ false
    → quoted (c ∷ l) true ≡ (backslash ∷ c ∷ (quoted l false).0, (quoted l false).1)
unfolding quoted
quoted_behind c l e = rw e refl

quoted_plain :
    (c : ℕ) (l : List ℕ)
    → (c == quote) ≡ false
    → (c == backslash) ≡ false
    → quoted (c ∷ l) false ≡ (c ∷ (quoted l false).0, (quoted l false).1)
unfolding quoted
quoted_plain c l e b = rw (e, b) refl

module _ (c : ℕ) (s : List ℕ) where
  not_quote : (c == backslash) ≡ true → (c == quote) ≡ false
  not_quote h = rw ((==_iff c backslash).0 h) refl

  survives_behind : (c == quote) ≡ false → survives (c ∷ s) true ≡ survives s false
  unfolding survives
  survives_behind h = rw h refl

  survives-quote : (c == quote) ≡ true → survives (c ∷ s) true ≡ false
  unfolding survives
  survives-quote h = rw h refl

  survives-backslash : (c == backslash) ≡ true → survives (c ∷ s) false ≡ survives s true
  unfolding survives
  survives-backslash h = rw h refl

  survives_plain : (c == backslash) ≡ false → survives (c ∷ s) false ≡ survives s false
  unfolding survives
  survives_plain h = rw h refl

  -- One step of the loop, on what was written of a character.
  module _ (rest : List ℕ) where
    behind_step :
        (c == quote) ≡ false
        → quoted (escape (c ∷ s) ++ quote ∷ rest) true ≡ (
          backslash ∷ c ∷ (quoted (escape s ++ quote ∷ rest) false).0,
          (quoted (escape s ++ quote ∷ rest) false).1,
        )
    behind_step e =
        ap (λ x. quoted (x ++ quote ∷ rest) true) (escape_plain c s e)
        ∙ quoted_behind c (escape s ++ quote ∷ rest) e

    quote_behind_step :
        (c == quote) ≡ true
        → quoted (escape (c ∷ s) ++ quote ∷ rest) true
          ≡ (backslash ∷ backslash ∷ [], escape s ++ quote ∷ rest)
    unfolding quoted escape
    quote_behind_step e = rw e refl

    backslash_step :
        (c == backslash) ≡ true
        → quoted (escape (c ∷ s) ++ quote ∷ rest) false ≡ quoted (escape s ++ quote ∷ rest) true
    unfolding quoted escape
    backslash_step b = rw (not_quote b, b) refl

    quote_step :
        (c == quote) ≡ true
        → quoted (escape (c ∷ s) ++ quote ∷ rest) false ≡ (
          c ∷ (quoted (escape s ++ quote ∷ rest) false).0,
          (quoted (escape s ++ quote ∷ rest) false).1,
        )
    unfolding quoted escape
    quote_step e = rw (e, (==_iff c quote).0 e) refl

    plain_step :
        (c == quote) ≡ false
        → (c == backslash) ≡ false
        → quoted (escape (c ∷ s) ++ quote ∷ rest) false ≡ (
          c ∷ (quoted (escape s ++ quote ∷ rest) false).0,
          (quoted (escape s ++ quote ∷ rest) false).1,
        )
    plain_step e b =
        ap (λ x. quoted (x ++ quote ∷ rest) false) (escape_plain c s e)
        ∙ quoted_plain c (escape s ++ quote ∷ rest) e b

    -- A character that is no backslash.
    next_step :
        (c == backslash) ≡ false
        → quoted (escape (c ∷ s) ++ quote ∷ rest) false ≡ (
          c ∷ (quoted (escape s ++ quote ∷ rest) false).0,
          (quoted (escape s ++ quote ∷ rest) false).1,
        )
    next_step b = elim (Bool-cases (c == quote)) [ inl e ↦ quote_step e | inr e ↦ plain_step e b ]

quoted_end :
    (rest : List ℕ) (escaped : Bool)
    → survives [] escaped ≡ true
    → quoted (escape [] ++ quote ∷ rest) escaped ≡ (put_back [] escaped, rest)
unfolding survives quoted escape
quoted_end rest false h = refl
quoted_end rest true h = cc h

tails : {x y : ℕ} {s t : List ℕ} → x ∷ s ≡ y ∷ t → s ≡ t
tails e = cc e

heads : {x y : ℕ} {s t : List ℕ} → x ∷ s ≡ y ∷ t → x ≡ y
heads e = cc e

quote_not_backslash : quote ≢ backslash
quote_not_backslash e = omega arith

quoted_end_wrong :
    (rest : List ℕ) (escaped : Bool)
    → survives [] escaped ≡ false
    → (quoted (escape [] ++ quote ∷ rest) escaped).0 ≢ put_back [] escaped
unfolding survives quoted escape
quoted_end_wrong rest false h e = cc h
quoted_end_wrong rest true h e = quote_not_backslash (heads e)

quoted-escape :
    (s rest : List ℕ) (escaped : Bool)
    → survives s escaped ≡ true
    → quoted (escape s ++ quote ∷ rest) escaped ≡ (put_back s escaped, rest)
quoted-escape [] rest escaped h = quoted_end rest escaped h
quoted-escape (c ∷ s) rest true h = elim (Bool-cases (c == quote)) [
  | inl e ↦ cc (h, survives-quote c s e)
  | inr e ↦
      behind_step c s rest e
      ∙ ap (λ (x : List ℕ × List ℕ). (backslash ∷ c ∷ x.0, x.1))
          (quoted-escape s rest false (sym (survives_behind c s e) ∙ h))
]
quoted-escape (c ∷ s) rest false h = elim (Bool-cases (c == backslash)) [
  | inl b ↦
      backslash_step c s rest b
      ∙ (quoted-escape s rest true (sym (survives-backslash c s b) ∙ h)
          ∙ ap (λ x. (x ∷ s, rest)) (sym ((==_iff c backslash).0 b)))
  | inr b ↦
      next_step c s rest b
      ∙ ap (λ (x : List ℕ × List ℕ). (c ∷ x.0, x.1))
          (quoted-escape s rest false (sym (survives_plain c s b) ∙ h))
]

quoted-escape_wrong :
    (s rest : List ℕ) (escaped : Bool)
    → survives s escaped ≡ false
    → (quoted (escape s ++ quote ∷ rest) escaped).0 ≢ put_back s escaped
quoted-escape_wrong [] rest escaped h e = quoted_end_wrong rest escaped h e
quoted-escape_wrong (c ∷ s) rest true h e = elim (Bool-cases (c == quote)) [
  | inl q ↦ quote_not_backslash (
      sym (
        heads (tails (sym (ap (λ x. x.0) (quote_behind_step c s rest q)) ∙ e))
        ∙ (==_iff c quote).0 q))
  | inr q ↦
      quoted-escape_wrong s rest false (sym (survives_behind c s q) ∙ h)
        (tails (tails (sym (ap (λ x. x.0) (behind_step c s rest q)) ∙ e)))
]
quoted-escape_wrong (c ∷ s) rest false h e = elim (Bool-cases (c == backslash)) [
  | inl b ↦ quoted-escape_wrong s rest true (sym (survives-backslash c s b) ∙ h) (
      sym (ap (λ x. x.0) (backslash_step c s rest b))
      ∙ (e ∙ ap (λ x. x ∷ s) ((==_iff c backslash).0 b)))
  | inr b ↦
      quoted-escape_wrong s rest false (sym (survives_plain c s b) ∙ h)
        (tails (sym (ap (λ x. x.0) (next_step c s rest b)) ∙ e))
]

-- `_read` starts the loop behind the quote.
get_string-put_string :
    (s rest : List ℕ) → get_string (put_string s ++ rest) ≡ quoted (escape s ++ quote ∷ rest) false
unfolding get_string put_string skip_spaces
get_string-put_string s rest = ap (λ l. quoted l false) (append_assoc (escape s) (quote ∷ []) rest)

-- A string is read back as it was written, and what follows it is left, exactly when its
-- backslashes, taken in pairs with the character behind, have one behind them that is no quote.
pub get_string-put_string_iff :
    (s rest : List ℕ) → (survives s false ≡ true) ↔ (get_string (put_string s ++ rest) ≡ (s, rest))
get_string-put_string_iff s rest = (
  λ h. get_string-put_string s rest ∙ quoted-escape s rest false h,
  λ e. elim (Bool-cases (survives s false)) [
    | inl h ↦ h
    | inr h ↦ absurd (
        quoted-escape_wrong s rest false h (ap (λ x. x.0) (sym (get_string-put_string s rest) ∙ e)))
  ],
)
