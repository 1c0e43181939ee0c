-- ===== src/UserObjects.antt =====
-- The user objects of src/vsg/core/Object.cpp, which an object keeps in its Auxiliary of
-- src/vsg/core/Auxiliary.cpp. A key is a number by the order of the strings; a user object is an address,
-- and 0 is the null pointer.
pub mod Maps
pub mod Alone
pub mod Steps
mod Tests
use vsg.Base.{
  ℕ, ◌≡◌, Bool, true, false, Option, none, some, List, [], ◌∷◌, ◌++◌, length, ◌==◌, leb,
  if◌then◌else◌,
}
use vsg.Base.Word.{add32, sub32}
use vsg.Base.Entries.{Entries, find, assign, erase}
use vsg.RefPtr.{get, set, then_do}

pub record Auxiliary : Type 0 where
  -- _referenceCount, _connectedObject, _allocator and _objectMap.
  count : ℕ
  connected : Option ℕ
  allocator : Option ℕ
  objects : Entries

-- The auxiliaries by their addresses, none where one has been deleted, and the _auxiliary of each object.
pub record Store : Type 0 where
  auxiliaries : List (Option Auxiliary)
  auxiliary : ℕ → Option ℕ

abbrev pub present : Option (Option Auxiliary) → Option Auxiliary
present none = none
present (some x) = x

unfoldable pub at : Store → ℕ → Option Auxiliary
at s a = present (get s.auxiliaries a)

unfoldable pub point : ℕ → Option ℕ → (ℕ → Option ℕ) → ℕ → Option ℕ
point o a f o' = if o == o' then a else f o'

-- `_auxiliary = new Auxiliary(this, allocator)` of an object, and ref() of it.
unfoldable pub attach : ℕ → Option ℕ → Store → Store
attach o allocator s = record {
  auxiliaries =
      s.auxiliaries
      ++ some
          (record { count = add32 0 1; connected = some o; allocator = allocator; objects = [] })
        ∷ [];
  auxiliary = point o (some (length s.auxiliaries)) s.auxiliary;
}

-- Auxiliary::unref().
abbrev pub unref_at : ℕ → Store → Option Auxiliary → Option Store
unref_at a s none = none
unref_at a s (some x) =
    if leb x.count 1
    then some (record s { auxiliaries = set a none s.auxiliaries })
    else some (record s {
      auxiliaries = set a (some (record x { count = sub32 x.count 1 })) s.auxiliaries;
    })

unfoldable pub unref : ℕ → Store → Option Store
unref a s = unref_at a s (at s a)

-- `_connectedObject == this`.
unfoldable pub is_connected : ℕ → Option ℕ → Bool
is_connected o none = false
is_connected o (some o') = o == o'

-- getOrCreateUniqueAuxiliary(): the Auxiliary is then that of the object. None when an Auxiliary is
-- used that has been deleted.
abbrev pub replace_shared : ℕ → ℕ → Store → Option Auxiliary → Option Store
replace_shared o a s none = none
replace_shared o a s (some x) =
    if is_connected o x.connected then some s else unref a (attach o x.allocator s)

abbrev pub unique_for : ℕ → Store → Option ℕ → Option Store
unique_for o s none = some (attach o none s)
unique_for o s (some a) = replace_shared o a s (at s a)

unfoldable pub get_or_create_unique_auxiliary : ℕ → Store → Option Store
get_or_create_unique_auxiliary o s = unique_for o s (s.auxiliary o)

-- A change of the _objectMap of an object's Auxiliary.
abbrev pub change_at : (Entries → Entries) → ℕ → Store → Option Auxiliary → Option Store
change_at f a s none = none
change_at f a s (some x) =
    some
      (record s { auxiliaries = set a (some (record x { objects = f x.objects })) s.auxiliaries })

abbrev pub change_of : (Entries → Entries) → Store → Option ℕ → Option Store
change_of f s none = none
change_of f s (some a) = change_at f a s (at s a)

unfoldable pub change : (Entries → Entries) → ℕ → Store → Option Store
change f o s = change_of f s (s.auxiliary o)

unfoldable pub set_object : ℕ → ℕ → ℕ → Store → Option Store
set_object o key object s =
    then_do (get_or_create_unique_auxiliary o s) (change (assign key object) o)

-- Object::getObject() and Auxiliary::getObject().
abbrev pub or_null : Option ℕ → ℕ
or_null none = 0
or_null (some v) = v

abbrev pub objects_at : Option Auxiliary → Option Entries
objects_at none = none
objects_at (some x) = some x.objects

abbrev pub objects_of : Store → Option ℕ → Option Entries
objects_of s none = some []
objects_of s (some a) = objects_at (at s a)

unfoldable pub get_object : ℕ → ℕ → Store → Option ℕ
get_object o key s = then_do (objects_of s (s.auxiliary o)) (λ l. some (or_null (find key l)))

abbrev pub remove_of : ℕ → Store → Option ℕ → Option Store
remove_of key s none = some s
remove_of key s (some a) = change_at (erase key) a s (at s a)

unfoldable pub remove_object : ℕ → ℕ → Store → Option Store
remove_object o key s = remove_of key s (s.auxiliary o)

-- The copy of the user objects in Object(const Object&) and in operator=: none are copied when the
-- Auxiliary of `rhs` is not its own.
abbrev pub copy_own : ℕ → ℕ → Store → Option Auxiliary → Option Store
copy_own o rhs s none = none
copy_own o rhs s (some x) =
    if is_connected rhs x.connected
    then then_do (get_or_create_unique_auxiliary o s) (change (λ l. x.objects) o)
    else some s

abbrev pub copy_of : ℕ → ℕ → Store → Option ℕ → Option Store
copy_of o rhs s none = some s
copy_of o rhs s (some a) = copy_own o rhs s (at s a)

unfoldable pub assign_object : ℕ → ℕ → Store → Option Store
assign_object o rhs s = if rhs == o then some s else copy_of o rhs s (s.auxiliary rhs)

unfoldable pub copy_object : ℕ → ℕ → Store → Option Store
copy_object o rhs s =
    let made : Store = record s { auxiliary = point o none s.auxiliary } in
    copy_of o rhs made (made.auxiliary rhs)

-- Object(Allocator*): the Auxiliary that all objects of the allocator share, without ref().
unfoldable pub share : ℕ → ℕ → Store → Store
share o a s = record s { auxiliary = point o (some a) s.auxiliary }

-- ~Object().
abbrev pub destroy_of : ℕ → Store → Option ℕ → Option Store
destroy_of o s none = some s
destroy_of o s (some a) = unref a (record s { auxiliary = point o none s.auxiliary })

unfoldable pub destroy : ℕ → Store → Option Store
destroy o s = destroy_of o s (s.auxiliary o)
