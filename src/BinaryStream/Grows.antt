-- ===== src/BinaryStream/Grows.antt =====
-- The ids of a writer: no entry changes, and how many are added.
use vsg.Base.{
  ℕ, suc, ◌+◌, ◌≤◌, ◌≡◌, refl, ap, ◌∙◌, true, false, Option, none, some, List, [], ◌∷◌, ◌++◌, ◌==◌,
  arith, inl, inr, Bool-cases, ==_iff, ==_refl,
}
use vsg.Base.Word.{add32}
use vsg.BinaryStream.{Bytes, put_u32, put_string}
use vsg.BinaryStream.Graph.{
  Obj, null, object, group, Users, no_users, user, Children, no_children, child, address,
  class_name, lookup, Writer, register, written, written_as, write, write_users, write_children,
}
use vsg.BinaryStream.Spec.{size, size_users, size_children}

-- An id is kept.
pub record Grows (w w' : Writer) (n : ℕ) : Type 0 where
  pub kept : (a id : ℕ) → lookup a w.ids ≡ some id → lookup a w'.ids ≡ some id
  pub bounded : w'.object_id ≤ w.object_id + n

pub Grows-trans :
    {w w' w'' : Writer} (m n : ℕ) → Grows w w' m → Grows w' w'' n → Grows w w'' (m + n)
Grows-trans m n g h = record {
  kept = λ a id e. h.kept a id (g.kept a id e);
  bounded = (let x = g.bounded in let y = h.bounded in omega arith);
}

pub Grows-none : (w : Writer) → Grows w w 0
Grows-none w = record { kept = λ a id e. e; bounded = omega arith }

-- Whether a lookup finds something.
pub data Finds {A : Type 0} (x : Option A) : Type 0 where
  absent : x ≡ none → Finds x
  present : (y : A) → x ≡ some y → Finds x

pub finds : {A : Type 0} (x : Option A) → Finds x
finds none = absent refl
finds (some y) = present y refl

pub lookup_here : {A : Type 0} (k : ℕ) (v : A) (l : List (ℕ × A)) → lookup k ((k, v) ∷ l) ≡ some v
unfolding lookup
lookup_here k v l = rw (==_refl k) refl

pub lookup_same :
    {A : Type 0} (j k : ℕ) (v : A) (l : List (ℕ × A))
    → (j == k) ≡ true
    → lookup k ((j, v) ∷ l) ≡ some v
unfolding lookup
lookup_same j k v l h = rw h refl

pub lookup_there :
    {A : Type 0} (j k : ℕ) (v : A) (l : List (ℕ × A))
    → (j == k) ≡ false
    → lookup k ((j, v) ∷ l) ≡ lookup k l
unfolding lookup
lookup_there j k v l h = rw h refl

pub register-kept :
    (a : ℕ) (w : Writer)
    → lookup a w.ids ≡ none
    → (b id : ℕ) → lookup b w.ids ≡ some id
    → lookup b (register a w).ids ≡ some id
unfolding register
register-kept a w h b id e = elim (Bool-cases (a == b)) [
  | inl f ↦ cc (h, e, ap (λ x. lookup x w.ids) ((==_iff a b).0 f))
  | inr f ↦ lookup_there a b w.object_id w.ids f ∙ e
]

pub written_known :
    (o : Obj) (w : Writer) (r : Bytes × Writer) (id : ℕ)
    → lookup (address o) w.ids ≡ some id
    → written o w r ≡ (put_u32 id, w)
unfolding written
written_known o w r id e = ap (λ x. written_as x o w r) e

pub written_new :
    (o : Obj) (w : Writer) (fields : Bytes) (w' : Writer)
    → lookup (address o) w.ids ≡ none
    → written o w (fields, w') ≡ (put_u32 w.object_id ++ (put_string (class_name o) ++ fields), w')
unfolding written
written_new o w fields w' e = ap (λ x. written_as x o w (fields, w')) e

next_bounded : (i j n : ℕ) → j ≤ add32 i 1 + n → j ≤ i + suc n
unfolding add32
next_bounded i j n h = omega arith

written-Grows :
    (o : Obj) (w : Writer) (fields : Bytes) (w' : Writer) (n : ℕ)
    → Grows (register (address o) w) w' n
    → Grows w (written o w (fields, w')).1 (suc n)
unfolding register
written-Grows o w fields w' n g = elim (finds (lookup (address o) w.ids)) [
  | absent e ↦ rw (written_new o w fields w' e) (record {
    kept = λ b id h. g.kept b id (register-kept (address o) w e b id h);
    bounded = next_bounded w.object_id w'.object_id n g.bounded;
  })
  | present id e ↦
      rw (written_known o w (fields, w') id e) (record { kept = λ b j h. h; bounded = omega arith })
]

mutual
  unfolding write size

  write_one : (o : Obj) (w : Writer) → Grows w (write o w).1 (size o)
  write_one null w = written-Grows null w [] (register 0 w) 0 (Grows-none (register 0 w))
  write_one (object a n us) w =
      written-Grows (object a n us) w _ (write_users us (register a w)).1 (size_users us)
        (write_entries us (register a w))
  write_one (group a us cs) w =
      let w' = (write_users us (register a w)).1 in
      written-Grows (group a us cs) w _ (write_children cs w').1 (size_users us + size_children cs)
        (Grows-trans (size_users us) (size_children cs) (write_entries us (register a w))
          (write_nodes cs w'))

  write_entries : (us : Users) (w : Writer) → Grows w (write_users us w).1 (size_users us)
  write_entries no_users w = Grows-none w
  write_entries (user k o us) w =
      Grows-trans (size o) (size_users us) (write_one o w) (write_entries us (write o w).1)

  write_nodes : (cs : Children) (w : Writer) → Grows w (write_children cs w).1 (size_children cs)
  write_nodes no_children w = Grows-none w
  write_nodes (child o cs) w =
      Grows-trans (size o) (size_children cs) (write_one o w) (write_nodes cs (write o w).1)

pub write-Grows : (o : Obj) (w : Writer) → Grows w (write o w).1 (size o)
write-Grows = write_one

pub write_users-Grows : (us : Users) (w : Writer) → Grows w (write_users us w).1 (size_users us)
write_users-Grows = write_entries

pub write_children-Grows :
    (cs : Children) (w : Writer) → Grows w (write_children cs w).1 (size_children cs)
write_children-Grows = write_nodes
