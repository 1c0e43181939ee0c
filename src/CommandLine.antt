-- ===== src/CommandLine.antt =====
-- include/vsg/utils/CommandLine.h: the arguments of the program, from which each read() of an option
-- takes the option and its parameters.
pub mod Removal
pub mod Reading
pub mod Matching
mod Tests
use vsg.Base.{
  ℕ, zero, suc, ◌+◌, ◌-◌, ◌≡◌, Bool, true, false, ◌&&◌, Option, none, some, List, [], ◌∷◌, ◌++◌,
  ◌==◌, leb, ltb, if◌then◌else◌,
}
use vsg.RefPtr.{get, set}

-- A string, by its characters.
abbrev pub Text : Type 0
Text = List ℕ

unfoldable pub same_text : Text → Text → Bool
same_text [] [] = true
same_text (c ∷ s) (d ∷ t) = c == d && same_text s t
same_text [] (d ∷ t) = false
same_text (c ∷ s) [] = false

-- *_argc, _argv and, for each of _errorMessages, the option that it is about.
pub record CommandLine : Type 0 where
  argc : ℕ
  argv : List Text
  error_messages : List Text

-- The type of a parameter: std::string, or a type that the stream reads from so many arguments.
pub data Parameter : Type 0 where
  text : Parameter
  elements : ℕ → ℕ → Parameter

pub data Value : Type 0 where
  a_text : Text → Value
  parsed : ℕ → Value

abbrev pub or_empty : Option Text → Text
or_empty none = []
or_empty (some t) = t

-- _argv[i].
unfoldable pub argument : CommandLine → ℕ → Text
argument c i = or_empty (get c.argv i)

-- The loop of remove(), which runs `n` times.
unfoldable pub shift : ℕ → ℕ → ℕ → List Text → List Text
shift zero i source argv = argv
shift (suc n) i source argv = shift n (suc i) (suc source) (set i (or_empty (get argv source)) argv)

unfoldable pub remove : ℕ → ℕ → CommandLine → CommandLine
remove i num c =
    let source = i + num in
    if leb c.argc i
    then c
    else if leb c.argc source
    then record c { argc = i }
    else record c { argv = shift (c.argc - source) i source c.argv; argc = c.argc - num }

-- The arguments joined for a type of several elements, `n` of them or what is left, and the index then.
unfoldable pub joined : ℕ → ℕ → CommandLine → Text × ℕ
joined zero i c = ([], i)
joined (suc n) i c =
    let (rest, j) = joined n (suc i) c in
    if ltb i c.argc then (32 ∷ argument c i ++ rest, j) else ([], i)

-- `_istr >> v` of the type's number and the text: none when it fails.
module _ (parse : ℕ → Text → Option ℕ) where
  abbrev pub as_parsed : Option ℕ → Option Value
  as_parsed none = none
  as_parsed (some v) = some (parsed v)

  -- read(int& i, T& v): the value, and `i` then.
  unfoldable pub read_value : Parameter → ℕ → CommandLine → Option Value × ℕ
  read_value text i c = if leb c.argc i then (none, i) else (some (a_text (argument c i)), suc i)
  read_value (elements type n) i c =
      let (str, j) = joined n i c in
      if leb c.argc i
      then (none, i)
      else if n == 1
      then (as_parsed (parse type (argument c i)), suc i)
      else (as_parsed (parse type str), j)

  -- (read(i, args) && ...).
  abbrev pub read_more : Option Value → Option (List Value) × ℕ → ℕ → Option (List Value) × ℕ
  read_more none rest i = (none, i)
  read_more (some v) (none, j) i = (none, j)
  read_more (some v) (some vs, j) i = (some (v ∷ vs), j)

  unfoldable pub read_values : List Parameter → ℕ → CommandLine → Option (List Value) × ℕ
  read_values [] i c = (some [], i)
  read_values (p ∷ ps) i c = let (v, j) = read_value p i c in read_more v (read_values ps j c) j

  -- What read() returns, and the command line: for an option that is found, at `start`.
  abbrev pub found_at :
      Text → ℕ → Option (List Value) × ℕ → CommandLine → Option (List Value) × CommandLine
  found_at option start (none, i) c =
      (none, record c { error_messages = c.error_messages ++ option ∷ [] })
  found_at option start (some vs, i) c = (some vs, remove start (i - start) c)

  -- The loop of read(), for the `n` arguments from `i` on.
  unfoldable pub read_from :
      ℕ → ℕ → Text → List Parameter → CommandLine → Option (List Value) × CommandLine
  read_from zero i option ps c = (none, c)
  read_from (suc n) i option ps c =
      let later = read_from n (suc i) option ps c in
      if same_text option (argument c i)
      then found_at option i (read_values ps (suc i) c) c
      else later

  -- read(match, args...).
  unfoldable pub read : Text → List Parameter → CommandLine → Option (List Value) × CommandLine
  read option ps c = read_from (c.argc - 1) 1 option ps c
