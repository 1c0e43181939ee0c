-- ===== src/BinaryStream/Spec.antt =====
-- Graphs of objects: which ones can be written, and what is read back from them.

use vsg.Base.{ℕ, suc, ◌+◌, ◌^◌, ◌<◌, ◌≡◌, refl, true, false, length, arith}
use mathlib.Core.Path.{ap}
use vsg.BinaryStream.{Bytes, equal}
use vsg.BinaryStream.Graph.{
  Obj, null, object, group, Users, no_users, user, Children, no_children, child, num_users,
  num_children, as_node, set_user,
}

-- The number of occurrences of objects in one.
unfoldable mutual
  pub size : Obj → ℕ
  size null = 1
  size (object a n us) = suc (size_users us)
  size (group a us cs) = suc (size_users us + size_children cs)

  pub size_users : Users → ℕ
  size_users no_users = 0
  size_users (user k o us) = size o + size_users us

  pub size_children : Children → ℕ
  size_children no_children = 0
  size_children (child o cs) = size o + size_children cs

-- The same objects at other addresses.
unfoldable mutual
  pub image : (ℕ → ℕ) → Obj → Obj
  image f null = null
  image f (object a n us) = object (f a) n (image_users f us)
  image f (group a us cs) = group (f a) (image_users f us) (image_children f cs)

  pub image_users : (ℕ → ℕ) → Users → Users
  image_users f no_users = no_users
  image_users f (user k o us) = user k (image f o) (image_users f us)

  pub image_children : (ℕ → ℕ) → Children → Children
  image_children f no_children = no_children
  image_children f (child o cs) = child (image f o) (image_children f cs)

-- No key of the entries is `k`: of earlier entries, and of later ones.
abbrev pub Absent : Bytes → Users → Type 0
Absent k no_users = Unit
Absent k (user j o us) = (equal j k ≡ false) × Absent k us

abbrev pub NotLater : Bytes → Users → Type 0
NotLater k no_users = Unit
NotLater k (user j o us) = (equal k j ≡ false) × NotLater k us

-- What stands at an address is one object of the heap; keys are distinct, and sizes are less than
-- 2^32; the children of a group are nodes.
unfoldable mutual
  pub Fits : (ℕ → Obj) → Obj → Type 0
  Fits heap null = heap 0 ≡ null
  Fits heap (object a n us) =
      (heap a ≡ object a n us) × ((num_users us < 2 ^ 32) × FitsUsers heap us)
  Fits heap (group a us cs) =
      (heap a ≡ group a us cs)
      × (((num_users us < 2 ^ 32) × FitsUsers heap us)
          × ((num_children cs < 2 ^ 32) × FitsChildren heap cs))

  pub FitsUsers : (ℕ → Obj) → Users → Type 0
  FitsUsers heap no_users = Unit
  FitsUsers heap (user k o us) =
      ((length k < 2 ^ 32) × NotLater k us) × (Fits heap o × FitsUsers heap us)

  pub FitsChildren : (ℕ → Obj) → Children → Type 0
  FitsChildren heap no_children = Unit
  FitsChildren heap (child o cs) = (as_node o ≡ o) × (Fits heap o × FitsChildren heap cs)

pub size_positive : (o : Obj) → 0 < size o
unfolding size
size_positive null = omega arith
size_positive (object a n us) = omega arith
size_positive (group a us cs) = omega arith

pub as_node-image : (f : ℕ → ℕ) (o : Obj) → as_node o ≡ o → as_node (image f o) ≡ image f o
unfolding image
as_node-image f null h = refl
as_node-image f (object a true us) h = refl
as_node-image f (object a false us) h = cc h
as_node-image f (group a us cs) h = refl

-- Entries behind others.
abbrev pub join : Users → Users → Users
join no_users vs = vs
join (user k o us) vs = user k o (join us vs)

pub set_user-join :
    (k : Bytes) (o : Obj) (us : Users) → Absent k us → set_user k o us ≡ join us (user k o no_users)
unfolding set_user
set_user-join k o no_users h = refl
set_user-join k o (user j p us) h = rw (h.0, set_user-join k o us h.1) refl

pub join_assoc : (us vs ws : Users) → join (join us vs) ws ≡ join us (join vs ws)
join_assoc no_users vs ws = refl
join_assoc (user k o us) vs ws = rw (join_assoc us vs ws) refl

pub join_nothing : (us : Users) → join us no_users ≡ us
join_nothing no_users = refl
join_nothing (user k o us) = ap (user k o) (join_nothing us)

-- The keys of the later entries are not among the earlier ones.
abbrev pub Disjoint : Users → Users → Type 0
Disjoint acc no_users = Unit
Disjoint acc (user k o us) = Absent k acc × Disjoint acc us

Absent-join :
    (k j : Bytes) (o : Obj) (acc : Users)
    → Absent j acc
    → equal k j ≡ false
    → Absent j (join acc (user k o no_users))
Absent-join k j o no_users h e = (e, _)
Absent-join k j o (user i p acc) h e = (h.0, Absent-join k j o acc h.1 e)

pub Disjoint-next :
    (k : Bytes) (o : Obj) (acc us : Users)
    → Disjoint acc us
    → NotLater k us
    → Disjoint (join acc (user k o no_users)) us
Disjoint-next k o acc no_users h e = _
Disjoint-next k o acc (user j p us) h e =
    (Absent-join k j o acc h.0 e.0, Disjoint-next k o acc us h.1 e.1)

pub Disjoint-nothing : (us : Users) → Disjoint no_users us
Disjoint-nothing no_users = _
Disjoint-nothing (user k o us) = (_, Disjoint-nothing us)
