-- ===== src/BinaryStream/Agree.antt =====
-- What the ids of the writer and those of the reader have to do with each other while objects are
-- under way: `Pending` are the addresses of those that have an id and are not read yet.
use vsg.Base.{
  ℕ, ◌+◌, ◌^◌, ◌<◌, ◌≡◌, sym, ap, ◌∙◌, ◌⊎◌, inl, inr, false, some, List, ◌∷◌, ◌==◌, arith,
  Bool-cases, ==_iff,
}
use vsg.Base.Word.{add32_exact}
use vsg.BinaryStream.{Bytes}
use vsg.BinaryStream.Graph.{Obj, address, lookup, Writer, register, Objects, Result}
use vsg.BinaryStream.Spec.{image}
use vsg.BinaryStream.Grows.{lookup_same, lookup_there}

pub record Agree (heap : ℕ → Obj) (f : ℕ → ℕ) (Pending : ℕ → Type 0) (w : Writer) (ids : Objects)
    : Type 0 where
  pub known :
      (a id : ℕ)
      → lookup a w.ids ≡ some id
      → (Pending a → ⊥)
      → lookup id ids ≡ some (image f (heap a))
  pub below : (a id : ℕ) → lookup a w.ids ≡ some id → id < w.object_id
  pub distinct : (a b id : ℕ) → lookup a w.ids ≡ some id → lookup b w.ids ≡ some id → a ≡ b
  pub fresh : (id : ℕ) (o : Obj) → lookup id ids ≡ some o → id < w.object_id

-- The new addresses are the ids.
abbrev pub Labels : (ℕ → ℕ) → Writer → Type 0
Labels f w = (a id : ℕ) → lookup a w.ids ≡ some id → f a ≡ id

some_injective : {A : Type 0} {x y : A} → some x ≡ some y → x ≡ y
some_injective e = cc e

-- `x` is read, `rest` is left, and the ids agree.
pub record Reads (heap : ℕ → Obj) (f : ℕ → ℕ) (Pending : ℕ → Type 0) (w : Writer) {A : Type 0}
    (result : Result A) (x : A) (rest : Bytes) : Type 0 where
  pub ids : Objects
  pub returns : result ≡ some (x, rest, ids)
  pub agree : Agree heap f Pending w ids

abbrev pub Within : ℕ → (ℕ → Type 0) → ℕ → Type 0
Within a Pending b = (b ≡ a) ⊎ Pending b

pub lookup_cases :
    {A : Type 0} (a b : ℕ) (v x : A) (l : List (ℕ × A))
    → lookup b ((a, v) ∷ l) ≡ some x
    → ((b ≡ a) × (v ≡ x)) ⊎ (((a == b) ≡ false) × (lookup b l ≡ some x))
unfolding lookup
lookup_cases a b v x l e = elim (Bool-cases (a == b)) [
  | inl h ↦ inl (sym ((==_iff a b).0 h), some_injective (sym (lookup_same a b v l h) ∙ e))
  | inr h ↦ inr (h, sym (lookup_there a b v l h) ∙ e)
]

registered_distinct :
    (a : ℕ) (w : Writer)
    → ((b id : ℕ) → lookup b w.ids ≡ some id → id < w.object_id)
    → ((b c id : ℕ) → lookup b w.ids ≡ some id → lookup c w.ids ≡ some id → b ≡ c)
    → (b c id : ℕ) → lookup b ((a, w.object_id) ∷ w.ids) ≡ some id
    → lookup c ((a, w.object_id) ∷ w.ids) ≡ some id
    → b ≡ c
registered_distinct a w below distinct b c id e g = elim (lookup_cases a b w.object_id id w.ids e) [
  | inl (x, y) ↦ elim (lookup_cases a c w.object_id id w.ids g) [
    | inl (z, t) ↦ x ∙ sym z
    | inr (z, t) ↦ absurd (let k = below c id t in omega arith)
  ]
  | inr (x, y) ↦ elim (lookup_cases a c w.object_id id w.ids g) [
    | inl (z, t) ↦ absurd (let k = below b id y in omega arith)
    | inr (z, t) ↦ distinct b c id y t
  ]
]

module _ (heap : ℕ → Obj) (f : ℕ → ℕ) (Pending : ℕ → Type 0) where
  pub register-Agree :
      (a : ℕ) (w : Writer) (ids : Objects)
      → w.object_id + 1 < 2 ^ 32
      → Agree heap f Pending w ids
      → Agree heap f (Within a Pending) (register a w) ids
  unfolding register
  register-Agree a w ids h g =
      let next = add32_exact w.object_id 1 h in
      record {
        known = λ b id e out. elim (lookup_cases a b w.object_id id w.ids e) [
          | inl (x, y) ↦ absurd (out (inl x))
          | inr (x, y) ↦ g.known b id y (λ p. out (inr p))
        ];
        below = λ b id e. elim (lookup_cases a b w.object_id id w.ids e) [
          | inl (x, y) ↦ omega arith
          | inr (x, y) ↦ (let k = g.below b id y in omega arith)
        ];
        distinct = registered_distinct a w g.below g.distinct;
        fresh = λ id o e. (let k = g.fresh id o e in omega arith);
      }

  other_id :
      (o : Obj) (id : ℕ) (w : Writer)
      → ((a b j : ℕ) → lookup a w.ids ≡ some j → lookup b w.ids ≡ some j → a ≡ b)
      → lookup (address o) w.ids ≡ some id
      → (b j : ℕ) → lookup b w.ids ≡ some j
      → (address o == b) ≡ false
      → (id == j) ≡ false
  other_id o id w distinct here b j e x = elim (Bool-cases (id == j)) [
    | inl y ↦ cc (
      x,
      (==_iff (address o) b).1 (distinct (address o) b j (here ∙ ap some ((==_iff id j).0 y)) e),
    )
    | inr y ↦ y
  ]

  -- An object that has been read is under way no longer.
  pub finish-Agree :
      (o : Obj) (id : ℕ) (w : Writer) (ids : Objects)
      → heap (address o) ≡ o
      → lookup (address o) w.ids ≡ some id
      → Agree heap f (Within (address o) Pending) w ids
      → Agree heap f Pending w ((id, image f o) ∷ ids)
  finish-Agree o id w ids h here g = record {
    known = λ b j e out. elim (Bool-cases (address o == b)) [
      | inl x ↦
          let same = (==_iff (address o) b).0 x in
          let ids_same : id ≡ j = some_injective (sym here ∙ (ap (λ y. lookup y w.ids) same ∙ e)) in
          lookup_same id j (image f o) ids ((==_iff id j).1 ids_same)
          ∙ ap (λ y. some (image f y)) (sym h ∙ ap heap same)
      | inr x ↦
          lookup_there id j (image f o) ids (other_id o id w g.distinct here b j e x)
          ∙ g.known b j e
              (λ p. elim p [ inl y ↦ cc (x, (==_iff (address o) b).1 (sym y)) | inr y ↦ out y ])
    ];
    below = g.below;
    distinct = g.distinct;
    fresh = λ j p e. elim (lookup_cases id j (image f o) p ids e) [
      | inl (x, y) ↦ (let k = g.below (address o) id here in rw x k)
      | inr (x, y) ↦ g.fresh j p y
    ];
  }
