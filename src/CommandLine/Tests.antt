-- ===== src/CommandLine/Tests.antt =====
-- Command lines, and a use of the theorem on them.
use vsg.Base.{ℕ, ◌≡◌, refl, ◌&&◌, Option, none, some, [], ◌∷◌, ◌-◌, leb, if◌then◌else◌, arith}
use vsg.CommandLine.{
  CommandLine, Text, elements, parsed, argument, joined, read_value, read_values, read_from, read,
  remove, shift, same_text,
}
use vsg.CommandLine.Removal.{drop, arguments}
use vsg.CommandLine.Matching.{outcome, Agrees, read_lem}

-- A stream that reads a digit.
abbrev digit : ℕ → Text → Option ℕ
digit type (c ∷ []) = if leb 48 c && leb c 57 then some (c - 48) else none
digit type t = none

-- "v -n 5 x"
abbrev line : CommandLine
line = record {
  argc = 4;
  argv = (118 ∷ []) ∷ (45 ∷ 110 ∷ []) ∷ (53 ∷ []) ∷ (120 ∷ []) ∷ [];
  error_messages = [];
}

-- -n with a number is taken, and leaves "v x".
read_number : read digit (45 ∷ 110 ∷ []) (elements 0 1 ∷ []) line ≡ (
  some (parsed 5 ∷ []),
  record {
    argc = 2;
    argv = (118 ∷ []) ∷ (120 ∷ []) ∷ (53 ∷ []) ∷ (120 ∷ []) ∷ [];
    error_messages = [];
  },
)
unfolding read read_from read_values read_value argument joined remove shift same_text
read_number = refl

-- -n with two numbers is not, and all stays.
read_two_numbers :
    read digit (45 ∷ 110 ∷ []) (elements 0 1 ∷ elements 0 1 ∷ []) line
    ≡ (none, record line { error_messages = (45 ∷ 110 ∷ []) ∷ [] })
unfolding read read_from read_values read_value argument joined remove shift same_text
read_two_numbers = refl

read_lem_example :
    Agrees digit
      (45 ∷ 110 ∷ [])
      (elements 0 1 ∷ [])
      line
      (omega arith)
      1
      (outcome digit (45 ∷ 110 ∷ []) (elements 0 1 ∷ []) (drop 1 (arguments line)))
      (read digit (45 ∷ 110 ∷ []) (elements 0 1 ∷ []) line)
read_lem_example =
    read_lem digit (45 ∷ 110 ∷ []) (elements 0 1 ∷ []) line (omega arith) (omega arith)
