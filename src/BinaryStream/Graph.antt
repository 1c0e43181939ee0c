-- ===== src/BinaryStream/Graph.antt =====
-- Objects written and read: BinaryOutput::write and BinaryInput::read of an object, with the object
-- ids, Object::write and Object::read of src/vsg/core/Object.cpp and those of
-- src/vsg/nodes/Group.cpp.
use vsg.Base.{
  ℕ, zero, suc, Bool, true, false, Option, none, some, List, [], ◌∷◌, ◌++◌, ◌==◌, if◌then◌else◌,
}
use vsg.Base.Word.{add32}
use vsg.BinaryStream.{◌>>=◌, Bytes, put_u32, get_u32, put_string, get_string, equal}

-- An object at its address: a vsg::Object, or a vsg::Node when `is_node`, with the entries of its
-- own Auxiliary's ObjectMap in the order of iteration, or a vsg::Group with its children too.
mutual
  pub data Obj : Type 0 where
    null : Obj
    object : ℕ → Bool → Users → Obj
    group : ℕ → Users → Children → Obj

  pub data Users : Type 0 where
    no_users : Users
    user : Bytes → Obj → Users → Users

  pub data Children : Type 0 where
    no_children : Children
    child : Obj → Children → Children

-- The address of null is 0.
abbrev pub address : Obj → ℕ
address null = 0
address (object a n us) = a
address (group a us cs) = a

abbrev pub num_users : Users → ℕ
num_users no_users = 0
num_users (user k o us) = suc (num_users us)

abbrev pub num_children : Children → ℕ
num_children no_children = 0
num_children (child o cs) = suc (num_children cs)

-- std::unordered_map::find, for the maps of ids.
unfoldable pub lookup : {A : Type 0} → ℕ → List (ℕ × A) → Option A
lookup k [] = none
lookup k ((j, v) ∷ l) = if j == k then some v else lookup k l

-- "nullptr", "vsg::Object", "vsg::Node" and "vsg::Group".
abbrev pub null_name : Bytes
null_name = 110 ∷ 117 ∷ 108 ∷ 108 ∷ 112 ∷ 116 ∷ 114 ∷ []

abbrev pub object_name : Bytes
object_name = 118 ∷ 115 ∷ 103 ∷ 58 ∷ 58 ∷ 79 ∷ 98 ∷ 106 ∷ 101 ∷ 99 ∷ 116 ∷ []

abbrev pub node_name : Bytes
node_name = 118 ∷ 115 ∷ 103 ∷ 58 ∷ 58 ∷ 78 ∷ 111 ∷ 100 ∷ 101 ∷ []

abbrev pub group_name : Bytes
group_name = 118 ∷ 115 ∷ 103 ∷ 58 ∷ 58 ∷ 71 ∷ 114 ∷ 111 ∷ 117 ∷ 112 ∷ []

abbrev pub class_name : Obj → Bytes
class_name null = null_name
class_name (object a is_node us) = if is_node then node_name else object_name
class_name (group a us cs) = group_name

-- objectID and objectIDMap of the Output.
pub record Writer : Type 0 where
  pub object_id : ℕ
  pub ids : List (ℕ × ℕ)

unfoldable pub register : ℕ → Writer → Writer
register a w = record { object_id = add32 w.object_id 1; ids = (a, w.object_id) ∷ w.ids }

-- An object that has an id already is its id; another is its id, its class name and `fields`, what
-- its own write() writes.
abbrev pub written_as : Option ℕ → Obj → Writer → Bytes × Writer → Bytes × Writer
written_as (some id) o w r = (put_u32 id, w)
written_as none o w (fields, w') =
    (put_u32 w.object_id ++ (put_string (class_name o) ++ fields), w')

unfoldable pub written : Obj → Writer → Bytes × Writer → Bytes × Writer
written o w r = written_as (lookup (address o) w.ids) o w r

unfoldable mutual
  pub write : Obj → Writer → Bytes × Writer
  write null w = written null w ([], register 0 w)
  write (object a n us) w =
      let (body, w') = write_users us (register a w) in
      written (object a n us) w (put_u32 (num_users us) ++ body, w')
  write (group a us cs) w =
      let (body, w') = write_users us (register a w) in
      let (body', w'') = write_children cs w' in
      written (group a us cs) w
        ((put_u32 (num_users us) ++ body) ++ (put_u32 (num_children cs) ++ body'), w'')

  pub write_users : Users → Writer → Bytes × Writer
  write_users no_users w = ([], w)
  write_users (user k o us) w =
      let (first, w') = write o w in
      let (others, w'') = write_users us w' in (put_string k ++ (first ++ others), w'')

  pub write_children : Children → Writer → Bytes × Writer
  write_children no_children w = ([], w)
  write_children (child o cs) w =
      let (first, w') = write o w in
      let (others, w'') = write_children cs w' in (first ++ others, w'')

-- objectIDMap of the Input.
abbrev pub Objects : Type 0
Objects = List (ℕ × Obj)

-- What a reader returns: what it has read, the rest of the stream, and the objects by id.
abbrev pub Result : Type 0 → Type 0
Result A = Option (A × Bytes × Objects)

-- objectMap[key] = object.
unfoldable pub set_user : Bytes → Obj → Users → Users
set_user k o no_users = user k o no_users
set_user k o (user j p us) = if equal j k then user j o us else user j p (set_user k o us)

-- cast<Node>().
abbrev pub as_node : Obj → Obj
as_node null = null
as_node (object a n us) = if n then object a n us else null
as_node (group a us cs) = group a us cs

module _ (read_one : Bytes → Objects → Result Obj) where
  unfoldable pub read_users : ℕ → Users → Bytes → Objects → Result Users
  read_users zero us l ids = some (us, l, ids)
  read_users (suc n) us l ids = do
    (k, l1) ← get_string l
    (o, l2, ids') ← read_one l1 ids
    read_users n (set_user k o us) l2 ids'

  unfoldable pub read_children : ℕ → Bytes → Objects → Result Children
  read_children zero l ids = some (no_children, l, ids)
  read_children (suc n) l ids = do
    (o, l1, ids') ← read_one l ids
    (cs, l2, ids'') ← read_children n l1 ids'
    some (child (as_node o) cs, l2, ids'')

  -- Object::read and Group::read.
  unfoldable pub read_object : Bytes → Objects → Result Users
  read_object l ids = do (n, l1) ← get_u32 l; read_users n no_users l1 ids

  unfoldable pub read_group : Bytes → Objects → Result (Users × Children)
  read_group l ids = do
    (us, l1, ids') ← read_object l ids
    (n, l2) ← get_u32 l1
    (cs, l3, ids'') ← read_children n l2 ids'
    some ((us, cs), l3, ids'')

  unfoldable pub read_plain : ℕ → Bool → Bytes → Objects → Result Obj
  read_plain id is_node l ids = do
    (us, l', ids') ← read_object l ids
    some (object id is_node us, l', ids')

  unfoldable pub read_grouped : ℕ → Bytes → Objects → Result Obj
  read_grouped id l ids = do
    ((us, cs), l', ids') ← read_group l ids
    some (group id us cs, l', ids')

  -- ObjectFactory::create, and the read() of what it creates; any other name creates nothing. The
  -- new object stands at the address `id`.
  unfoldable pub read_new : ℕ → Bytes → Bytes → Objects → Result Obj
  read_new id name l ids =
      if equal name null_name
      then some (null, l, ids)
      else if equal name object_name
      then read_plain id false l ids
      else if equal name node_name
      then read_plain id true l ids
      else if equal name group_name
      then read_grouped id l ids
      else some (null, l, ids)

  -- An object that has been read is the one of that id; another follows.
  abbrev pub read_as : Option Obj → ℕ → Bytes → Objects → Result Obj
  read_as (some o) id l ids = some (o, l, ids)
  read_as none id l ids = do
    (name, l') ← get_string l
    (o, l'', ids') ← read_new id name l' ids
    some (o, l'', (id, o) ∷ ids')

  unfoldable pub read_with : Bytes → Objects → Result Obj
  read_with l ids = do (id, l') ← get_u32 l; read_as (lookup id ids) id l' ids

-- BinaryInput::read, on fuel for the depth of the objects.
unfoldable pub read : ℕ → Bytes → Objects → Result Obj
read zero l ids = none
read (suc fuel) l ids = read_with (read fuel) l ids
