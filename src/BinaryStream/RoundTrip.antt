-- ===== src/BinaryStream/RoundTrip.antt =====
-- What a new Output writes of a graph of objects, a new Input reads back: the same objects, with the
-- sharing between them.

use vsg.Base.{
  ℕ, ◌+◌, ◌^◌, ◌≤◌, ◌<◌, ◌≡◌, refl, sym, ap, ◌∙◌, Option, none, some, [], ◌∷◌, ◌++◌, ◌==◌, ==_iff,
  Bool-cases, inl, inr, arith,
}
use vsg.BinaryStream.{Bytes}
use vsg.BinaryStream.Graph.{Obj, null, lookup, Writer, write, read, Objects}
use vsg.BinaryStream.Spec.{size, image, Fits}
use vsg.BinaryStream.Agree.{Agree, Labels, Reads}
use vsg.BinaryStream.Ready.{Ready}
use vsg.BinaryStream.Back.{one_back}

-- A new Output and a new Input, which know that null has the id 0.
unfoldable pub new_writer : Writer
new_writer = record { object_id = 1; ids = (0, 0) ∷ [] }

unfoldable pub new_objects : Objects
new_objects = (0, null) ∷ []

abbrev or_zero : Option ℕ → ℕ
or_zero none = 0
or_zero (some id) = id

-- The id that a writer has given to an address.
unfoldable pub id_of : Writer → ℕ → ℕ
id_of w a = or_zero (lookup a w.ids)

id_of-Labels : (w : Writer) → Labels (id_of w) w
unfolding id_of
id_of-Labels w a id e = ap or_zero e

only_null : (a id : ℕ) → lookup a new_writer.ids ≡ some id → (0 ≡ a) × (0 ≡ id)
unfolding new_writer lookup
only_null a id e = elim (Bool-cases (0 == a)) [
  | inl h ↦ ((==_iff 0 a).0 h, cc (rw h at e))
  | inr h ↦ cc (rw h at e)
]

only_object : (id : ℕ) (o : Obj) → lookup id new_objects ≡ some o → 0 ≡ id
unfolding new_objects lookup
only_object id o e = elim (Bool-cases (0 == id)) [
  | inl h ↦ (==_iff 0 id).0 h
  | inr h ↦ cc (rw h at e)
]

null_known :
    (heap : ℕ → Obj) (f : ℕ → ℕ) → heap 0 ≡ null → lookup 0 new_objects ≡ some (image f (heap 0))
unfolding new_objects lookup image
null_known heap f h = rw h refl

new-Agree :
    (heap : ℕ → Obj) (f : ℕ → ℕ) → heap 0 ≡ null → Agree heap f (λ a. ⊥) new_writer new_objects
unfolding new_writer
new-Agree heap f h = record {
  known = λ a id e out. let (x, y) = only_null a id e in rw (sym x, sym y) (null_known heap f h);
  below = λ a id e. let y = (only_null a id e).1 in omega (arith, y);
  distinct = λ a b id e g. sym ((only_null a id e).0) ∙ (only_null b id g).0;
  fresh = λ id o e. let y = only_object id o e in omega (arith, y);
}

new-Ready :
    (heap : ℕ → Obj) (f : ℕ → ℕ) (o : Obj) (fuel : ℕ)
    → heap 0 ≡ null
    → 1 + size o < 2 ^ 32
    → size o ≤ fuel
    → Ready heap f (λ a. ⊥) new_writer new_objects (size o) fuel
unfolding new_writer
new-Ready heap f o fuel h k l = record {
  agree = new-Agree heap f h;
  outside = λ a p. absurd p;
  room = k;
  fueled = l;
}

-- A new Input reads back what a new Output has written of an object: the same objects, each at its
-- id for its address, so that an object which occurs at several places is one again; `rest` is left,
-- and afterwards the ids of the two agree and are distinct for distinct objects. Of the objects, no
-- two are at one address, and null alone is at 0; keys are distinct, sizes and the number of
-- occurrences are less than 2^32, and the children of groups are nodes; fuel for as many occurrences
-- is enough.
pub read-write :
    (heap : ℕ → Obj) (o : Obj) (fuel : ℕ) (rest : Bytes)
    → heap 0 ≡ null
    → Fits heap o
    → 1 + size o < 2 ^ 32
    → size o ≤ fuel
    → Reads heap
        (id_of (write o new_writer).1)
        (λ a. ⊥)
        (write o new_writer).1
        (read fuel ((write o new_writer).0 ++ rest) new_objects)
        (image (id_of (write o new_writer).1) o)
        rest
read-write heap o fuel rest n h k l =
    let f = id_of (write o new_writer).1 in
    one_back heap f o (λ a. ⊥) new_writer new_objects fuel rest h (new-Ready heap f o fuel n k l)
      (id_of-Labels (write o new_writer).1)
