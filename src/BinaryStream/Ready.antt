-- ===== src/BinaryStream/Ready.antt =====
-- The state in which an object can be written and read back, and its id and class name.
use mathlib.Core.List.{append_assoc}
use vsg.Base.{
  ℕ, suc, ◌+◌, ◌^◌, ◌≤◌, ◌<◌, ◌≡◌, refl, ap, ◌∙◌, inl, inr, true, false, none, some, ◌∷◌, ◌++◌,
  length, arith,
}
use vsg.Base.Word.{add32}
use vsg.BinaryStream.{Bytes, put_u32, put_string}
use vsg.BinaryStream.Graph.{
  Obj, null, object, group, address, class_name, lookup, Writer, register, written, Objects, read,
  read_with, read_as, read_new,
}
use vsg.BinaryStream.Values.{get_u32-put_u32, get_string-put_string}
use vsg.BinaryStream.Spec.{size, image}
use vsg.BinaryStream.Grows.{Grows, finds, absent, present, lookup_here, written_known, written_new}
use vsg.BinaryStream.Agree.{Agree, Reads, Within, register-Agree, finish-Agree}

-- `n` objects are to come: those under way are larger, and there is room for their ids and fuel
-- for their depth.
pub record Ready (heap : ℕ → Obj) (f : ℕ → ℕ) (Pending : ℕ → Type 0) (w : Writer) (ids : Objects)
    (n fuel : ℕ) : Type 0 where
  pub agree : Agree heap f Pending w ids
  pub outside : (a : ℕ) → Pending a → n < size (heap a)
  pub room : w.object_id + n < 2 ^ 32
  pub fueled : n ≤ fuel

module _ (heap : ℕ → Obj) (f : ℕ → ℕ) (Pending : ℕ → Type 0) where
  registered_room : (i n : ℕ) → i + suc n < 2 ^ 32 → add32 i 1 + n < 2 ^ 32
  unfolding add32
  registered_room i n h = omega arith

  pub register-Ready :
      (o : Obj) (w : Writer) (ids : Objects) (n fuel : ℕ)
      → heap (address o) ≡ o
      → size o ≡ suc n
      → Ready heap f Pending w ids (suc n) (suc fuel)
      → Ready heap f (Within (address o) Pending) (register (address o) w) ids n fuel
  unfolding register
  register-Ready o w ids n fuel h s r = record {
    agree = register-Agree heap f Pending (address o) w ids (let x = r.room in omega arith) r.agree;
    outside = λ a p. elim p [
      | inl x ↦ rw (x, h, s) (omega arith)
      | inr x ↦ (let y = r.outside a x in omega arith)
    ];
    room = registered_room w.object_id n r.room;
    fueled = (let x = r.fueled in omega arith);
  }

  pub first-Ready :
      (w : Writer) (ids : Objects) (m n fuel : ℕ)
      → Ready heap f Pending w ids (m + n) fuel
      → Ready heap f Pending w ids m fuel
  first-Ready w ids m n fuel r = record {
    agree = r.agree;
    outside = λ a p. (let x = r.outside a p in omega arith);
    room = (let x = r.room in omega arith);
    fueled = (let x = r.fueled in omega arith);
  }

  pub next-Ready :
      (w w' : Writer) (ids ids' : Objects) (m n fuel : ℕ)
      → Ready heap f Pending w ids (m + n) fuel
      → Grows w w' m
      → Agree heap f Pending w' ids'
      → Ready heap f Pending w' ids' n fuel
  next-Ready w w' ids ids' m n fuel r g a = record {
    agree = a;
    outside = λ a p. (let x = r.outside a p in omega arith);
    room = (let x = r.room in let y = g.bounded in omega arith);
    fueled = (let x = r.fueled in omega arith);
  }

pub registered : (a : ℕ) (w : Writer) → lookup a (register a w).ids ≡ some w.object_id
unfolding register
registered a w = lookup_here a w.object_id w.ids

class_name_short : (o : Obj) → length (class_name o) < 2 ^ 32
class_name_short null = omega arith
class_name_short (object a true us) = omega arith
class_name_short (object a false us) = omega arith
class_name_short (group a us cs) = omega arith

read_known :
    (fuel id : ℕ) (p : Obj) (rest : Bytes) (ids : Objects)
    → id < 2 ^ 32
    → lookup id ids ≡ some p
    → read (suc fuel) (put_u32 id ++ rest) ids ≡ some (p, rest, ids)
unfolding read read_with
read_known fuel id p rest ids h e =
    rw (get_u32-put_u32 id rest h) (ap (λ x. read_as (read fuel) x id rest ids) e)

read_unknown :
    (fuel id : ℕ) (p : Obj) (name fields rest : Bytes) (ids ids' : Objects)
    → id < 2 ^ 32
    → length name < 2 ^ 32
    → lookup id ids ≡ none
    → read_new (read fuel) id name (fields ++ rest) ids ≡ some (p, rest, ids')
    → read (suc fuel) ((put_u32 id ++ (put_string name ++ fields)) ++ rest) ids
      ≡ some (p, rest, (id, p) ∷ ids')
unfolding read read_with
read_unknown fuel id p name fields rest ids ids' h k e r =
    rw
      (
        append_assoc (put_u32 id) (put_string name ++ fields) rest,
        append_assoc (put_string name) fields rest,
        get_u32-put_u32 id (put_string name ++ (fields ++ rest)) h,
      )
      (ap (λ x. read_as (read fuel) x id (put_string name ++ (fields ++ rest)) ids) e
        ∙ rw (get_string-put_string name (fields ++ rest) k, r) refl)

module _ (heap : ℕ → Obj) (f : ℕ → ℕ) (Pending : ℕ → Type 0) where
  not_pending :
      (o : Obj) (w : Writer) (ids : Objects) (fuel : ℕ)
      → heap (address o) ≡ o
      → Ready heap f Pending w ids (size o) (suc fuel)
      → Pending (address o)
      → ⊥
  not_pending o w ids fuel h r p =
      let x = r.outside (address o) p in let y = ap size h in omega arith

  id_unused :
      (w : Writer) (ids : Objects) → Agree heap f Pending w ids → lookup w.object_id ids ≡ none
  id_unused w ids g = elim (finds (lookup w.object_id ids)) [
    | absent e ↦ e
    | present o e ↦ absurd (let x = g.fresh w.object_id o e in omega arith)
  ]

  -- An object whose fields are read back is read back.
  pub written-Reads :
      (o : Obj) (w : Writer) (ids : Objects) (n fuel : ℕ) (fields rest : Bytes) (w' : Writer)
      → heap (address o) ≡ o
      → Ready heap f Pending w ids (size o) (suc fuel)
      → Grows (register (address o) w) w' n
      → (lookup (address o) w.ids ≡ none
          → Reads heap f
              (Within (address o) Pending)
              w'
              (read_new (read fuel) w.object_id (class_name o) (fields ++ rest) ids)
              (image f o)
              rest)
      → Reads heap f Pending
          (written o w (fields, w')).1
          (read (suc fuel) ((written o w (fields, w')).0 ++ rest) ids)
          (image f o)
          rest
  written-Reads o w ids n fuel fields rest w' h r g inner =
      elim (finds (lookup (address o) w.ids)) [
        | present id e ↦
            let id_small = r.agree.below (address o) id e in
            let found = r.agree.known (address o) id e (not_pending o w ids fuel h r) in
            rw (written_known o w (fields, w') id e) (record {
              ids = ids;
              returns =
                  read_known fuel id (image f o) rest ids (let x = r.room in omega arith)
                    (found ∙ ap (λ x. some (image f x)) h);
              agree = r.agree;
            })
        | absent e ↦
            let i = inner e in
            rw (written_new o w fields w' e) (record {
              ids = (w.object_id, image f o) ∷ i.ids;
              returns =
                  read_unknown fuel w.object_id (image f o) (class_name o) fields rest ids i.ids
                    (let x = r.room in omega arith) (class_name_short o) (id_unused w ids r.agree)
                    i.returns;
              agree =
                  finish-Agree heap f Pending o w.object_id w' i.ids h
                    (g.kept (address o) w.object_id (registered (address o) w)) i.agree;
            })
      ]
