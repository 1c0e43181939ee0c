-- ===== src/AsciiStream.antt =====
-- The strings of src/vsg/io/AsciiInput.cpp and include/vsg/io/AsciiOutput.h, as character codes.
pub mod Quotes
pub mod Tests
use vsg.Base.{ℕ, Bool, true, false, List, [], ◌∷◌, ◌++◌, ◌==◌, ◌&&◌, ◌||◌, leb, if◌then◌else◌}

-- The characters '"' and '\'.
abbrev pub quote : ℕ
quote = 34

abbrev pub backslash : ℕ
backslash = 92

-- The characters of `_write` between the quotes.
unfoldable pub escape : List ℕ → List ℕ
escape [] = []
escape (c ∷ s) = if c == quote then backslash ∷ quote ∷ escape s else c ∷ escape s

unfoldable pub put_string : List ℕ → List ℕ
put_string s = quote ∷ (escape s ++ quote ∷ [])

-- The loop of `_read` from behind the first quote, and behind a backslash when `escaped`: the
-- string, and the rest of the stream. get(c) at the end of the stream leaves `c` as it was.
unfoldable pub quoted : List ℕ → Bool → List ℕ × List ℕ
quoted [] true = (backslash ∷ backslash ∷ [], [])
quoted [] false = ([], [])
quoted (c ∷ l) true =
    let (s, rest) = quoted l false in
    if c == quote then (quote ∷ s, rest) else (backslash ∷ c ∷ s, rest)
quoted (c ∷ l) false =
    let behind = quoted l true in
    let (s, rest) = quoted l false in
    if c == backslash then behind else if c == quote then ([], l) else (c ∷ s, rest)

-- The characters that operator>> skips.
abbrev pub is_space : ℕ → Bool
is_space c = c == 32 || (leb 9 c && leb c 13)

unfoldable pub skip_spaces : List ℕ → List ℕ
skip_spaces [] = []
skip_spaces (c ∷ l) = let rest = skip_spaces l in if is_space c then rest else c ∷ l

-- The characters of operator>> into a string.
unfoldable pub word : List ℕ → List ℕ × List ℕ
word [] = ([], [])
word (c ∷ l) = let (s, rest) = word l in if is_space c then ([], c ∷ l) else (c ∷ s, rest)

abbrev pub from_first : List ℕ → List ℕ × List ℕ
from_first [] = ([], [])
from_first (c ∷ l) = if c == quote then quoted l false else word (skip_spaces l)

-- `_read` into an empty string.
unfoldable pub get_string : List ℕ → List ℕ × List ℕ
get_string l = from_first (skip_spaces l)
