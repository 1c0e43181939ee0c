-- ===== src/BinaryStream/Values.antt =====
-- What is written is read back, whatever follows it: numbers and strings.
use vsg.Base.{
  ℕ, ◌+◌, ◌*◌, ◌/◌, ◌%◌, ◌^◌, ◌<◌, ◌≡◌, refl, ap, some, List, [], ◌∷◌, ◌++◌, length, arith, true,
  ==_refl,
}
use mathlib.Core.List.{append_assoc}
use native.Mathlib.Nat.{mod-eq_of_lt}
use vsg.BinaryStream.{
  Bytes, put_u32, get_u32, take, take_bytes, put_string, get_string, put_strings, get_strings,
  put_u32s, get_u32s, equal,
}

four_bytes :
    (n : ℕ)
    → n < 2 ^ 32
    → n % 256 + 256 * (n / 256 % 256) + 65536 * (n / 65536 % 256) + 16777216 * (n / 16777216 % 256)
      ≡ n
four_bytes n h = omega arith

pub get_u32-put_u32 : (n : ℕ) (l : Bytes) → n < 2 ^ 32 → get_u32 (put_u32 n ++ l) ≡ some (n, l)
unfolding get_u32 put_u32
get_u32-put_u32 n l h = ap (λ x. some (x, l)) (four_bytes n h)

take_bytes-append : (s l : Bytes) → take_bytes (length s) (s ++ l) ≡ some (s, l)
unfolding take_bytes
take_bytes-append [] l = refl
take_bytes-append (b ∷ s) l = rw (take_bytes-append s l) refl

take-length : (s : Bytes) → take (length s) s ≡ s
take-length [] = refl
take-length (b ∷ s) = ap (λ l. b ∷ l) (take-length s)

all_taken : (s : Bytes) → length s < 2 ^ 32 → take (length s % 2 ^ 32) s ≡ s
all_taken s h = rw (mod-eq_of_lt h) (take-length s)

-- A string of less than 2^32 characters is read back from what is written of it, whatever follows.
pub get_string-put_string :
    (s l : Bytes) → length s < 2 ^ 32 → get_string (put_string s ++ l) ≡ some (s, l)
unfolding get_string put_string
get_string-put_string s l h =
    rw (all_taken s h, append_assoc (put_u32 (length s)) s l, get_u32-put_u32 (length s) (s ++ l) h)
      (take_bytes-append s l)

equal_refl : (s : Bytes) → equal s s ≡ true
unfolding equal
equal_refl [] = refl
equal_refl (a ∷ s) = rw (==_refl a) (equal_refl s)

abbrev pub AllShort : List Bytes → Type 0
AllShort [] = Unit
AllShort (s ∷ ss) = (length s < 2 ^ 32) × AllShort ss

abbrev pub AllSmall : List ℕ → Type 0
AllSmall [] = Unit
AllSmall (n ∷ ns) = (n < 2 ^ 32) × AllSmall ns

-- An array of strings of less than 2^32 characters each is read back, whatever follows it.
pub get_strings-put_strings :
    (ss : List Bytes) (l : Bytes)
    → AllShort ss
    → get_strings (length ss) (put_strings ss ++ l) ≡ some (ss, l)
unfolding get_strings put_strings
get_strings-put_strings [] l h = refl
get_strings-put_strings (s ∷ ss) l h =
    rw
      (
        append_assoc (put_string s) (put_strings ss) l,
        get_string-put_string s (put_strings ss ++ l) h.0,
        get_strings-put_strings ss l h.1,
      )
      refl

-- An array of 32-bit numbers is read back, whatever follows it.
pub get_u32s-put_u32s :
    (ns : List ℕ) (l : Bytes) → AllSmall ns → get_u32s (length ns) (put_u32s ns ++ l) ≡ some (ns, l)
unfolding get_u32s put_u32s
get_u32s-put_u32s [] l h = refl
get_u32s-put_u32s (n ∷ ns) l h =
    rw
      (
        append_assoc (put_u32 n) (put_u32s ns) l,
        get_u32-put_u32 n (put_u32s ns ++ l) h.0,
        get_u32s-put_u32s ns l h.1,
      )
      refl
