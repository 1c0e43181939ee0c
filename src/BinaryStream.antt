-- ===== src/BinaryStream.antt =====
-- The bytes of src/vsg/io/BinaryInput.cpp and src/vsg/io/BinaryOutput.cpp with their headers: values
-- are copied to the stream as they are in memory, which is written out here for a machine whose
-- numbers have the low byte first. A stream that ends early has no result.
pub mod Values
pub mod Graph
pub mod Spec
pub mod Grows
pub mod Agree
pub mod Ready
pub mod Steps
pub mod Back
pub mod RoundTrip
pub mod Tests
use vsg.Base.{
  ℕ, zero, suc, ◌+◌, ◌*◌, ◌/◌, ◌%◌, ◌^◌, Bool, true, false, Option, none, some, List, [], ◌∷◌, ◌++◌,
  length, ◌==◌, ◌&&◌,
}

infixl 1 ◌>>=◌
abbrev pub ◌>>=◌ : {A B : Type 0} → Option A → (A → Option B) → Option B
none >>= f = none
(some x) >>= f = f x

abbrev pub Bytes : Type 0
Bytes = List ℕ

-- _write of a uint32_t.
unfoldable pub put_u32 : ℕ → Bytes
put_u32 n = (n % 256) ∷ (n / 256 % 256) ∷ (n / 65536 % 256) ∷ (n / 16777216 % 256) ∷ []

-- _read of a uint32_t.
unfoldable pub get_u32 : Bytes → Option (ℕ × Bytes)
get_u32 (a ∷ b ∷ c ∷ d ∷ l) = some (a + 256 * b + 65536 * c + 16777216 * d, l)
get_u32 _ = none

-- istream::read of as many bytes.
unfoldable pub take_bytes : ℕ → Bytes → Option (Bytes × Bytes)
take_bytes zero l = some ([], l)
take_bytes (suc n) [] = none
take_bytes (suc n) (b ∷ l) = do (s, rest) ← take_bytes n l; some (b ∷ s, rest)

abbrev pub take : ℕ → Bytes → Bytes
take zero l = []
take (suc n) [] = []
take (suc n) (b ∷ l) = b ∷ take n l

-- _write of a std::string: its size cast to a uint32_t, and as many of its characters.
unfoldable pub put_string : Bytes → Bytes
put_string s = put_u32 (length s) ++ take (length s % 2 ^ 32) s

-- _read of a std::string.
unfoldable pub get_string : Bytes → Option (Bytes × Bytes)
get_string l = do (size, rest) ← get_u32 l; take_bytes size rest

unfoldable pub put_strings : List Bytes → Bytes
put_strings [] = []
put_strings (s ∷ ss) = put_string s ++ put_strings ss

unfoldable pub get_strings : ℕ → Bytes → Option (List Bytes × Bytes)
get_strings zero l = some ([], l)
get_strings (suc n) l = do
  (s, rest) ← get_string l
  (ss, last) ← get_strings n rest
  some (s ∷ ss, last)

unfoldable pub put_u32s : List ℕ → Bytes
put_u32s [] = []
put_u32s (n ∷ ns) = put_u32 n ++ put_u32s ns

unfoldable pub get_u32s : ℕ → Bytes → Option (List ℕ × Bytes)
get_u32s zero l = some ([], l)
get_u32s (suc n) l = do (x, rest) ← get_u32 l; (xs, last) ← get_u32s n rest; some (x ∷ xs, last)

-- operator== of strings.
unfoldable pub equal : Bytes → Bytes → Bool
equal [] [] = true
equal (a ∷ s) (b ∷ t) = a == b && equal s t
equal _ _ = false
