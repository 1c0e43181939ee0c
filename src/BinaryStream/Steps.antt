-- ===== src/BinaryStream/Steps.antt =====
-- The steps of the readers on what was written.
use mathlib.Core.List.{append_assoc}
use vsg.Base.{ℕ, suc, ◌^◌, ◌<◌, ◌≡◌, refl, Bool, true, false, some, ◌++◌, length}
use vsg.BinaryStream.{Bytes, put_u32, put_string, equal}
use vsg.BinaryStream.Graph.{
  Obj, object, group, Users, no_users, Children, child, as_node, set_user, class_name, group_name,
  Objects, Result, read_new, read_plain, read_grouped, read_object, read_group, read_users,
  read_children,
}
use vsg.BinaryStream.Values.{get_u32-put_u32, get_string-put_string}

-- The steps of the readers.
module _ (read_one : Bytes → Objects → Result Obj) where
  pub read_users_step :
      (n : ℕ) (acc us : Users) (k : Bytes) (o : Obj) (first others rest : Bytes)
      (ids ids' ids'' : Objects)
      → length k < 2 ^ 32
      → read_one (first ++ (others ++ rest)) ids ≡ some (o, others ++ rest, ids')
      → read_users read_one n (set_user k o acc) (others ++ rest) ids' ≡ some (us, rest, ids'')
      → read_users read_one (suc n) acc ((put_string k ++ (first ++ others)) ++ rest) ids
        ≡ some (us, rest, ids'')
  unfolding read_users
  read_users_step n acc us k o first others rest ids ids' ids'' h e g =
      rw
        (
          append_assoc (put_string k) (first ++ others) rest,
          append_assoc first others rest,
          get_string-put_string k (first ++ (others ++ rest)) h,
          e,
        )
        g

  pub read_children_step :
      (n : ℕ) (cs : Children) (o : Obj) (first others rest : Bytes) (ids ids' ids'' : Objects)
      → as_node o ≡ o
      → read_one (first ++ (others ++ rest)) ids ≡ some (o, others ++ rest, ids')
      → read_children read_one n (others ++ rest) ids' ≡ some (cs, rest, ids'')
      → read_children read_one (suc n) ((first ++ others) ++ rest) ids
        ≡ some (child o cs, rest, ids'')
  unfolding read_children
  read_children_step n cs o first others rest ids ids' ids'' h e g =
      rw (append_assoc first others rest, e, g, h) refl

  pub read_object_step :
      (n : ℕ) (us : Users) (body rest : Bytes) (ids ids' : Objects)
      → n < 2 ^ 32
      → read_users read_one n no_users (body ++ rest) ids ≡ some (us, rest, ids')
      → read_object read_one ((put_u32 n ++ body) ++ rest) ids ≡ some (us, rest, ids')
  unfolding read_object
  read_object_step n us body rest ids ids' h e =
      rw (append_assoc (put_u32 n) body rest, get_u32-put_u32 n (body ++ rest) h) e

  pub read_plain_step :
      (a id : ℕ) (is_node : Bool) (us us' : Users) (fields rest : Bytes) (ids ids' : Objects)
      → read_object read_one (fields ++ rest) ids ≡ some (us, rest, ids')
      → read_new read_one id (class_name (object a is_node us')) (fields ++ rest) ids
        ≡ some (object id is_node us, rest, ids')
  unfolding read_new read_plain equal
  read_plain_step a id true us us' fields rest ids ids' e = rw e refl
  read_plain_step a id false us us' fields rest ids ids' e = rw e refl

  pub read_group_step :
      (id n : ℕ) (us : Users) (cs : Children) (fields body rest : Bytes) (ids ids' ids'' : Objects)
      → n < 2 ^ 32
      → read_object read_one (fields ++ ((put_u32 n ++ body) ++ rest)) ids
        ≡ some (us, (put_u32 n ++ body) ++ rest, ids')
      → read_children read_one n (body ++ rest) ids' ≡ some (cs, rest, ids'')
      → read_new read_one id group_name ((fields ++ (put_u32 n ++ body)) ++ rest) ids
        ≡ some (group id us cs, rest, ids'')
  unfolding read_new read_grouped read_group equal
  read_group_step id n us cs fields body rest ids ids' ids'' h e g =
      rw
        (
          append_assoc fields (put_u32 n ++ body) rest,
          e,
          append_assoc (put_u32 n) body rest,
          get_u32-put_u32 n (body ++ rest) h,
          g,
        )
        refl
