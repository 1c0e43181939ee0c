-- ===== src/BinaryStream/Tests.antt =====
-- Tests and the theorems at a small graph.
use vsg.Base.{ℕ, ◌≡◌, refl, true, false, none, some, [], ◌∷◌, ◌++◌, ◌==◌, if◌then◌else◌, arith}
use vsg.Base.Word.{add32}
use vsg.BinaryStream.{
  Bytes, put_u32, get_u32, put_string, get_string, take_bytes, equal, put_strings, get_strings,
  put_u32s, get_u32s,
}
use vsg.BinaryStream.Graph.{
  Obj, null, object, group, no_users, user, no_children, child, register, written, lookup, write,
  read, read_with, read_new, read_plain, read_object, read_users, set_user,
}
use vsg.BinaryStream.Values.{get_strings-put_strings, get_u32s-put_u32s}
use vsg.BinaryStream.Spec.{Fits, image, size}
use vsg.BinaryStream.Agree.{Reads}
use vsg.BinaryStream.RoundTrip.{new_writer, new_objects, id_of, read-write}

-- A node that is twice a child of a group, with a null between, and has a user object.
abbrev key : Bytes
key = 107 ∷ []

abbrev note : Obj
note = object 700 false no_users

abbrev shared : Obj
shared = object 900 true (user key note no_users)

abbrev root : Obj
root = group 500 no_users (child shared (child null (child shared no_children)))

abbrev heap : ℕ → Obj
heap a = if a == 700 then note else if a == 900 then shared else if a == 500 then root else null

root-Fits : Fits heap root
unfolding Fits
root-Fits = (
  refl,
  (
    (omega arith, _),
    (omega arith, (refl, (shared-Fits, (refl, (refl, (refl, (shared-Fits, _))))))),
  ),
)
  where
    shared-Fits : Fits heap shared
    shared-Fits = (refl, (omega arith, ((omega arith, _), ((refl, (omega arith, _)), _))))

root_size : size root ≡ 6
unfolding size
root_size = refl

-- The node is written once: its second place holds its id, 2.
shared_written : (write shared (write shared new_writer).1).0 ≡ 1 ∷ 0 ∷ 0 ∷ 0 ∷ []
unfolding write written register lookup new_writer put_u32 put_string add32
shared_written = refl

-- Null is its id alone.
null_written : (write null new_writer).0 ≡ 0 ∷ 0 ∷ 0 ∷ 0 ∷ []
unfolding write written register lookup new_writer put_u32
null_written = refl

read-write_example :
    Reads heap
      (id_of (write root new_writer).1)
      (λ a. ⊥)
      (write root new_writer).1
      (read 10 ((write root new_writer).0 ++ 42 ∷ []) new_objects)
      (image (id_of (write root new_writer).1) root)
      (42 ∷ [])
read-write_example =
    read-write heap root 10 (42 ∷ []) refl root-Fits (rw root_size (omega arith))
      (rw root_size (omega arith))

get_strings-put_strings_example :
    get_strings 2 (put_strings (key ∷ [] ∷ []) ++ 7 ∷ []) ≡ some (key ∷ [] ∷ [], 7 ∷ [])
get_strings-put_strings_example =
    get_strings-put_strings (key ∷ [] ∷ []) (7 ∷ []) (omega arith, (omega arith, _))

get_u32s-put_u32s_example :
    get_u32s 2 (put_u32s (70000 ∷ 3 ∷ []) ++ 7 ∷ []) ≡ some (70000 ∷ 3 ∷ [], 7 ∷ [])
get_u32s-put_u32s_example =
    get_u32s-put_u32s (70000 ∷ 3 ∷ []) (7 ∷ []) (omega arith, (omega arith, _))

-- An object whose user object is itself: BinaryOutput writes the id 1 inside it, which the reader
-- does not know yet and takes for a new object.
abbrev cyclic : Bytes
cyclic =
    put_u32 1
    ++ (put_string (118 ∷ 115 ∷ 103 ∷ 58 ∷ 58 ∷ 79 ∷ 98 ∷ 106 ∷ 101 ∷ 99 ∷ 116 ∷ [])
        ++ (put_u32 1 ++ (put_string key ++ put_u32 1)))

cyclic_unread : read 10 cyclic new_objects ≡ none
unfolding read read_with read_new read_plain read_object read_users set_user lookup equal get_u32
    new_objects get_string take_bytes put_u32 put_string
cyclic_unread = refl
