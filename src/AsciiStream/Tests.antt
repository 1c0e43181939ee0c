-- ===== src/AsciiStream/Tests.antt =====
-- Tests and the theorems at strings with quotes and backslashes.
use vsg.Base.{ℕ, ◌≡◌, ◌↔◌, refl, true, false, List, [], ◌∷◌, ◌++◌}
use vsg.AsciiStream.{escape, put_string, quoted, skip_spaces, word, get_string}
use vsg.AsciiStream.Quotes.{survives, get_string-put_string_iff}

-- `a"\b`.
abbrev mixed : List ℕ
mixed = 97 ∷ 34 ∷ 92 ∷ 98 ∷ []

mixed-survives : survives mixed false ≡ true
unfolding survives
mixed-survives = refl

get_string-put_string_iff_example :
    (survives mixed false ≡ true) ↔ (get_string (put_string mixed ++ 10 ∷ []) ≡ (mixed, 10 ∷ []))
get_string-put_string_iff_example = get_string-put_string_iff mixed (10 ∷ [])

-- A path that ends in a backslash swallows the closing quote and what follows it.
swallowed : get_string (put_string (67 ∷ 92 ∷ []) ++ 10 ∷ 120 ∷ []) ≡ (67 ∷ 34 ∷ 10 ∷ 120 ∷ [], [])
unfolding get_string put_string escape quoted skip_spaces
swallowed = refl

-- A word without quotes loses its first character.
unquoted : get_string (97 ∷ 98 ∷ 99 ∷ 32 ∷ []) ≡ (98 ∷ 99 ∷ [], 32 ∷ [])
unfolding get_string skip_spaces word
unquoted = refl
