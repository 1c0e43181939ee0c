-- ===== src/ObjectCache/View.antt =====
-- The cache as a map from keys to objects: each operation is one of such a map.
use mathlib.Core.Path.{subst}
use vsg.Base.{
  ℕ, ◌≡◌, refl, sym, ap, ◌∙◌, inl, inr, Bool, true, false, Option, none, some, List, [], ◌∷◌, ◌==◌,
  ◌&&◌, if◌then◌else◌, Bool-cases, ==_iff, ==_refl,
}
use vsg.ObjectCache.{
  Key, equal, same_key, ObjectTimepoint, Entries, ObjectCache, find, assign, erase, without_object,
}

abbrev pub object_of : Option ObjectTimepoint → Option ℕ
object_of none = none
object_of (some ot) = some ot.object

if_same : {A : Type 0} (b : Bool) (x : A) → x ≡ (if b then x else x)
if_same true x = refl
if_same false x = refl

-- The object under a key.
unfoldable pub view : ObjectCache → Key → Option ℕ
view c k = object_of (find k c.entries)

-- No key stands twice.
abbrev pub NotIn : Key → Entries → Type 0
NotIn k [] = Unit
NotIn k ((j, ot) ∷ l) = (same_key j k ≡ false) × NotIn k l

abbrev pub Distinct : Entries → Type 0
Distinct [] = Unit
Distinct ((k, ot) ∷ l) = NotIn k l × Distinct l

and_both : (a b : Bool) → a && b ≡ true → (a ≡ true) × (b ≡ true)
and_both true true h = (refl, refl)
and_both true false h = cc h
and_both false b h = cc h

equal_eq : (s t : List ℕ) → equal s t ≡ true → s ≡ t
unfolding equal
equal_eq [] [] h = refl
equal_eq (a ∷ s) (b ∷ t) h =
    let (x, y) = and_both (a == b) (equal s t) h in cc ((==_iff a b).0 x, equal_eq s t y)
equal_eq [] (b ∷ t) h = cc h
equal_eq (a ∷ s) [] h = cc h

equal_refl : (s : List ℕ) → equal s s ≡ true
unfolding equal
equal_refl [] = refl
equal_refl (a ∷ s) = rw (==_refl a) (equal_refl s)

pub key_eq : (j k : Key) → same_key j k ≡ true → j ≡ k
unfolding same_key
key_eq j k h =
    let (x, y) = and_both (equal j.filename k.filename) (j.options == k.options) h in
    cc (equal_eq j.filename k.filename x, (==_iff j.options k.options).0 y)

pub same_key_refl : (k : Key) → same_key k k ≡ true
unfolding same_key
same_key_refl k = rw (equal_refl k.filename, ==_refl k.options) refl

pub same_through : (i k j : Key) → same_key i k ≡ true → same_key i j ≡ same_key k j
same_through i k j h = ap (λ x. same_key x j) (key_eq i k h)

apart : (i k j : Key) → same_key i k ≡ false → same_key i j ≡ true → same_key k j ≡ false
apart i k j h e = elim (Bool-cases (same_key k j)) [
  | inr x ↦ x
  | inl x ↦
      cc (h, subst (λ y. same_key i y ≡ true) (key_eq i j e ∙ sym (key_eq k j x)) (same_key_refl i))
]

if_again :
    {A : Type 0} (b : Bool) (x y z : A)
    → (if b then x else y) ≡ (if b then x else (if b then z else y))
if_again true x y z = refl
if_again false x y z = refl

pub find-assign :
    (k j : Key) (ot : ObjectTimepoint) (l : Entries)
    → find j (assign k ot l) ≡ (if same_key k j then some ot else find j l)
unfolding find assign
find-assign k j ot [] = refl
find-assign k j ot ((i, old) ∷ l) = elim (Bool-cases (same_key i k)) [
  | inl e ↦ rw (e, same_through i k j e) (if_again (same_key k j) (some ot) (find j l) (some old))
  | inr e ↦ elim (Bool-cases (same_key i j)) [
    | inl h ↦ rw (e, h, apart i k j e h) refl
    | inr h ↦ rw (e, h) (find-assign k j ot l)
  ]
]

pub NotIn-find : (k : Key) (l : Entries) → NotIn k l → find k l ≡ none
unfolding find
NotIn-find k [] h = refl
NotIn-find k ((j, ot) ∷ l) h = rw h.0 (NotIn-find k l h.1)

pub find-erase :
    (k j : Key) (l : Entries)
    → Distinct l
    → find j (erase k l) ≡ (if same_key k j then none else find j l)
unfolding find erase
find-erase k j [] d = if_same (same_key k j) none
find-erase k j ((i, ot) ∷ l) d = elim (Bool-cases (same_key i k)) [
  | inl e ↦ elim (Bool-cases (same_key k j)) [
    | inl h ↦
        rw (e, h) (subst (λ x. find x l ≡ none) (key_eq i k e ∙ key_eq k j h) (NotIn-find i l d.0))
    | inr h ↦ rw (e, h, same_through i k j e, h) refl
  ]
  | inr e ↦ elim (Bool-cases (same_key i j)) [
    | inl h ↦ rw (e, h, apart i k j e h) refl
    | inr h ↦ rw (e, h) (find-erase k j l d.1)
  ]
]

-- An entry that does not have the object.
abbrev pub unless : ℕ → Option ObjectTimepoint → Option ObjectTimepoint
unless o none = none
unless o (some ot) = if ot.object == o then none else some ot

pub find-without_object :
    (o : ℕ) (j : Key) (l : Entries) → Distinct l → find j (without_object o l) ≡ unless o (find j l)
unfolding find without_object
find-without_object o j [] d = refl
find-without_object o j ((i, ot) ∷ l) d =
    let rest = find-without_object o j l d.1 in
    elim (Bool-cases (ot.object == o)) [
      | inl e ↦ elim (Bool-cases (same_key i j)) [
        | inl h ↦
            rw (e, h, e)
              (rest
                ∙ ap (unless o) (subst (λ x. find x l ≡ none) (key_eq i j h) (NotIn-find i l d.0)))
        | inr h ↦ rw (e, h) rest
      ]
      | inr e ↦ elim (Bool-cases (same_key i j)) [
        | inl h ↦ rw (e, h, e) refl
        | inr h ↦ rw (e, h) rest
      ]
    ]

pub same_key_sym : (j k : Key) → same_key j k ≡ false → same_key k j ≡ false
same_key_sym j k h = elim (Bool-cases (same_key k j)) [
  | inr x ↦ x
  | inl x ↦ cc (h, subst (λ y. same_key y k ≡ true) (key_eq k j x) (same_key_refl k))
]
