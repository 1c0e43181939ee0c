-- ===== src/BinaryStream/Back.antt =====
-- By induction on a graph of objects: what is written of it is read back, in any state.
use mathlib.Core.Path.{subst}
use vsg.Base.{ℕ, zero, suc, ◌+◌, ◌≡◌, refl, sym, ap, ◌∙◌, none, some, [], ◌++◌, arith}
use vsg.BinaryStream.{Bytes, put_u32, equal}
use vsg.BinaryStream.Graph.{
  Obj, null, object, group, Users, no_users, user, Children, no_children, child, num_users,
  num_children, address, null_name, lookup, Writer, register, written, write, write_users,
  write_children, Objects, read, read_new, read_users, read_children,
}
use vsg.BinaryStream.Spec.{
  size, size_users, size_children, image, image_users, image_children, Fits, FitsUsers,
  FitsChildren, join, set_user-join, join_assoc, Disjoint, Disjoint-next, Disjoint-nothing,
  join_nothing, size_positive, as_node-image,
}
use vsg.BinaryStream.Grows.{
  Grows, Grows-trans, Grows-none, write-Grows, write_users-Grows, write_children-Grows, written_new,
}
use vsg.BinaryStream.Agree.{Labels, Reads, Within}
use vsg.BinaryStream.Steps.{
  read_users_step, read_children_step, read_object_step, read_plain_step, read_group_step,
}
use vsg.BinaryStream.Ready.{
  Ready, register-Ready, first-Ready, next-Ready, written-Reads, registered,
}

pub Labels-before : (f : ℕ → ℕ) (w w' : Writer) (n : ℕ) → Grows w w' n → Labels f w' → Labels f w
Labels-before f w w' n g l a id e = l a id (g.kept a id e)

-- The label of an object that is new to the writer is its id.
new_label :
    (f : ℕ → ℕ) (a : ℕ) (w w' : Writer) (n : ℕ)
    → Grows (register a w) w' n
    → Labels f w'
    → f a ≡ w.object_id
new_label f a w w' n g l = l a w.object_id (g.kept a w.object_id (registered a w))

written-Labels :
    (f : ℕ → ℕ) (o : Obj) (w : Writer) (fields : Bytes) (w' : Writer)
    → Labels f (written o w (fields, w')).1
    → lookup (address o) w.ids ≡ none
    → Labels f w'
written-Labels f o w fields w' l e =
    subst (λ x. Labels f x) (ap (λ r. r.1) (written_new o w fields w' e)) l

null_back :
    (fuel : ℕ) (w : Writer) (rest : Bytes) (ids : Objects)
    → read_new (read fuel) w.object_id null_name ([] ++ rest) ids ≡ some (null, rest, ids)
unfolding read_new equal
null_back fuel w rest ids = refl

users_end :
    (fuel : ℕ) (acc : Users) (rest : Bytes) (ids : Objects)
    → read_users (read fuel) 0 acc ([] ++ rest) ids ≡ some (join acc no_users, rest, ids)
unfolding read_users
users_end fuel acc rest ids = ap (λ us. some (us, rest, ids)) (sym (join_nothing acc))

children_end :
    (fuel : ℕ) (rest : Bytes) (ids : Objects)
    → read_children (read fuel) 0 ([] ++ rest) ids ≡ some (no_children, rest, ids)
unfolding read_children
children_end fuel rest ids = refl

no_fuel :
    {heap : ℕ → Obj} {f : ℕ → ℕ} (o : Obj) (Pending : ℕ → Type 0) (w : Writer) (ids : Objects)
    → Ready heap f Pending w ids (size o) 0
    → ⊥
no_fuel o Pending w ids r = (let x = r.fueled in let y = size_positive o in omega arith)

module _ (heap : ℕ → Obj) (f : ℕ → ℕ) where
  mutual
    unfolding write Fits size image

    pub one_back :
        (o : Obj) (Pending : ℕ → Type 0) (w : Writer) (ids : Objects) (fuel : ℕ) (rest : Bytes)
        → Fits heap o
        → Ready heap f Pending w ids (size o) fuel
        → Labels f (write o w).1
        → Reads heap f Pending
            (write o w).1
            (read fuel ((write o w).0 ++ rest) ids)
            (image f o)
            rest
    one_back o Pending w ids zero rest h r l = absurd (no_fuel o Pending w ids r)
    one_back null Pending w ids (suc fuel) rest h r l =
        let w' = register 0 w in
        let r' = register-Ready heap f Pending null w ids 0 fuel h refl r in
        written-Reads heap f Pending null w ids 0 fuel [] rest w' h r (Grows-none w')
          (λ e. record { ids = ids; returns = null_back fuel w rest ids; agree = r'.agree })
    one_back (object a n us) Pending w ids (suc fuel) rest h r l =
        let o = object a n us in
        let w1 = register a w in
        let (body, w') = write_users us w1 in
        let g = write_users-Grows us w1 in
        let r' = register-Ready heap f Pending o w ids (size_users us) fuel h.0 refl r in
        written-Reads heap f Pending o w ids (size_users us) fuel (put_u32 (num_users us) ++ body)
          rest w' h.0 r g
          (λ e.
            let l' = written-Labels f o w (put_u32 (num_users us) ++ body) w' l e in
            let u =
              users_back us (Within a Pending) w1 ids fuel no_users rest h.1.1 (Disjoint-nothing us)
                r' l' in
            record {
              ids = u.ids;
              returns =
                  read_plain_step (read fuel) a w.object_id n (image_users f us) us
                    (put_u32 (num_users us) ++ body) rest ids u.ids
                    (read_object_step (read fuel) (num_users us) (image_users f us) body rest ids
                      u.ids h.1.0 u.returns)
                  ∙ ap (λ x. some (object x n (image_users f us), rest, u.ids))
                      (sym (new_label f a w w' (size_users us) g l'));
              agree = u.agree;
            })
    one_back (group a us cs) Pending w ids (suc fuel) rest h r l =
        let o = group a us cs in
        let w1 = register a w in
        let (body, w2) = write_users us w1 in
        let (body', w') = write_children cs w2 in
        let count = put_u32 (num_children cs) ++ body' in
        let fields = put_u32 (num_users us) ++ body in
        let g_users = write_users-Grows us w1 in
        let g_children = write_children-Grows cs w2 in
        let g = Grows-trans (size_users us) (size_children cs) g_users g_children in
        let r' =
          register-Ready heap f Pending o w ids (size_users us + size_children cs) fuel h.0 refl
            r in
        written-Reads heap f Pending o w ids (size_users us + size_children cs) fuel
          (fields ++ count) rest w' h.0 r g
          (λ e.
            let l' = written-Labels f o w (fields ++ count) w' l e in
            let u =
              users_back us (Within a Pending) w1 ids fuel no_users (count ++ rest) h.1.0.1
                (Disjoint-nothing us)
                (first-Ready heap f (Within a Pending) w1 ids (size_users us) (size_children cs)
                  fuel r')
                (Labels-before f w2 w' (size_children cs) g_children l') in
            let c =
              children_back cs (Within a Pending) w2 u.ids fuel rest h.1.1.1
                (next-Ready heap f (Within a Pending) w1 w2 ids u.ids (size_users us)
                  (size_children cs) fuel r' g_users u.agree)
                l' in
            record {
              ids = c.ids;
              returns =
                  read_group_step (read fuel) w.object_id (num_children cs) (image_users f us)
                    (image_children f cs) fields body' rest ids u.ids c.ids h.1.1.0
                    (read_object_step (read fuel) (num_users us) (image_users f us) body
                      (count ++ rest) ids u.ids h.1.0.0 u.returns)
                    c.returns
                  ∙ ap (λ x. some (group x (image_users f us) (image_children f cs), rest, c.ids))
                      (sym (new_label f a w w' (size_users us + size_children cs) g l'));
              agree = c.agree;
            })

    users_back :
        (us : Users) (Pending : ℕ → Type 0) (w : Writer) (ids : Objects) (fuel : ℕ) (acc : Users)
        (rest : Bytes)
        → FitsUsers heap us
        → Disjoint acc us
        → Ready heap f Pending w ids (size_users us) fuel
        → Labels f (write_users us w).1
        → Reads heap f Pending
            (write_users us w).1
            (read_users (read fuel) (num_users us) acc ((write_users us w).0 ++ rest) ids)
            (join acc (image_users f us))
            rest
    users_back no_users Pending w ids fuel acc rest h x r l = record {
      ids = ids;
      returns = users_end fuel acc rest ids;
      agree = r.agree;
    }
    users_back (user k o us) Pending w ids fuel acc rest h x r l =
        let w' = (write o w).1 in
        let first =
          one_back o Pending w ids fuel ((write_users us w').0 ++ rest) h.1.0
            (first-Ready heap f Pending w ids (size o) (size_users us) fuel r)
            (Labels-before f w' (write_users us w').1 (size_users us) (write_users-Grows us w')
              l) in
        let acc' = join acc (user k (image f o) no_users) in
        let others =
          users_back us Pending w' first.ids fuel acc' rest h.1.1
            (Disjoint-next k (image f o) acc us x.1 h.0.1)
            (next-Ready heap f Pending w w' ids first.ids (size o) (size_users us) fuel r
              (write-Grows o w) first.agree)
            l in
        record {
          ids = others.ids;
          returns =
              read_users_step (read fuel) (num_users us) acc
                (join acc (user k (image f o) (image_users f us))) k (image f o) (write o w).0
                (write_users us w').0 rest ids first.ids others.ids h.0.0 first.returns
                (rw (set_user-join k (image f o) acc x.0) (
                  others.returns
                  ∙ ap (λ v. some (v, rest, others.ids))
                      (join_assoc acc (user k (image f o) no_users) (image_users f us))));
          agree = others.agree;
        }

    children_back :
        (cs : Children) (Pending : ℕ → Type 0) (w : Writer) (ids : Objects) (fuel : ℕ)
        (rest : Bytes)
        → FitsChildren heap cs
        → Ready heap f Pending w ids (size_children cs) fuel
        → Labels f (write_children cs w).1
        → Reads heap f Pending
            (write_children cs w).1
            (read_children (read fuel) (num_children cs) ((write_children cs w).0 ++ rest) ids)
            (image_children f cs)
            rest
    children_back no_children Pending w ids fuel rest h r l = record {
      ids = ids;
      returns = children_end fuel rest ids;
      agree = r.agree;
    }
    children_back (child o cs) Pending w ids fuel rest h r l =
        let w' = (write o w).1 in
        let first =
          one_back o Pending w ids fuel ((write_children cs w').0 ++ rest) h.1.0
            (first-Ready heap f Pending w ids (size o) (size_children cs) fuel r)
            (Labels-before f w' (write_children cs w').1 (size_children cs)
              (write_children-Grows cs w') l) in
        let others =
          children_back cs Pending w' first.ids fuel rest h.1.1
            (next-Ready heap f Pending w w' ids first.ids (size o) (size_children cs) fuel r
              (write-Grows o w) first.agree)
            l in
        record {
          ids = others.ids;
          returns =
              read_children_step (read fuel) (num_children cs) (image_children f cs) (image f o)
                (write o w).0 (write_children cs w').0 rest ids first.ids others.ids
                (as_node-image f o h.0) first.returns others.returns;
          agree = others.agree;
        }
