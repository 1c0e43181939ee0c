-- ===== src/ObjectCache/Distinct.antt =====
-- No operation puts a key twice into the cache.

use vsg.Base.{ℕ, ◌≡◌, inl, inr, false, [], ◌∷◌, ◌==◌, Bool-cases}
use vsg.ObjectCache.{Key, same_key, ObjectTimepoint, Entries, assign, erase, without_object}
use vsg.ObjectCache.View.{NotIn, Distinct, same_key_sym}

assign-NotIn :
    (i k : Key) (ot : ObjectTimepoint) (l : Entries)
    → NotIn i l
    → same_key k i ≡ false
    → NotIn i (assign k ot l)
unfolding assign
assign-NotIn i k ot [] h e = (e, _)
assign-NotIn i k ot ((j, old) ∷ l) h e = elim (Bool-cases (same_key j k)) [
  | inl x ↦ rw x (h.0, h.1)
  | inr x ↦ rw x (h.0, assign-NotIn i k ot l h.1 e)
]

pub assign-Distinct :
    (k : Key) (ot : ObjectTimepoint) (l : Entries) → Distinct l → Distinct (assign k ot l)
unfolding assign
assign-Distinct k ot [] d = (_, _)
assign-Distinct k ot ((j, old) ∷ l) d = elim (Bool-cases (same_key j k)) [
  | inl x ↦ rw x (d.0, d.1)
  | inr x ↦ rw x (assign-NotIn j k ot l d.0 (same_key_sym j k x), assign-Distinct k ot l d.1)
]

erase-NotIn : (i k : Key) (l : Entries) → NotIn i l → NotIn i (erase k l)
unfolding erase
erase-NotIn i k [] h = _
erase-NotIn i k ((j, ot) ∷ l) h = elim (Bool-cases (same_key j k)) [
  | inl x ↦ rw x h.1
  | inr x ↦ rw x (h.0, erase-NotIn i k l h.1)
]

pub erase-Distinct : (k : Key) (l : Entries) → Distinct l → Distinct (erase k l)
unfolding erase
erase-Distinct k [] d = _
erase-Distinct k ((j, ot) ∷ l) d = elim (Bool-cases (same_key j k)) [
  | inl x ↦ rw x d.1
  | inr x ↦ rw x (erase-NotIn j k l d.0, erase-Distinct k l d.1)
]

without_object-NotIn : (i : Key) (o : ℕ) (l : Entries) → NotIn i l → NotIn i (without_object o l)
unfolding without_object
without_object-NotIn i o [] h = _
without_object-NotIn i o ((j, ot) ∷ l) h = elim (Bool-cases (ot.object == o)) [
  | inl x ↦ rw x (without_object-NotIn i o l h.1)
  | inr x ↦ rw x (h.0, without_object-NotIn i o l h.1)
]

pub without_object-Distinct : (o : ℕ) (l : Entries) → Distinct l → Distinct (without_object o l)
unfolding without_object
without_object-Distinct o [] d = _
without_object-Distinct o ((j, ot) ∷ l) d = elim (Bool-cases (ot.object == o)) [
  | inl x ↦ rw x (without_object-Distinct o l d.1)
  | inr x ↦ rw x (without_object-NotIn j o l d.0, without_object-Distinct o l d.1)
]
