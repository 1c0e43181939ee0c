-- ===== src/RefPtr.antt =====
-- include/vsg/core/ref_ptr.h over the counts of include/vsg/core/Object.h: the objects on the heap, each
-- with the ref_ptrs that are its members, and the ref_ptr variables of the program. The objects have
-- no Auxiliary, so _attemptDelete() deletes them.
pub mod Cells
pub mod Unref
pub mod Places
pub mod Calls
pub mod History
mod Tests
use vsg.Base.{
  ℕ, zero, suc, ◌≡◌, Bool, true, false, Option, none, some, List, [], ◌∷◌, ◌++◌, length, ◌==◌, leb,
  ◌+◌, if◌then◌else◌,
}
use vsg.Base.Word.{add32, sub32}

-- `_ptr`: null, or the address of an object.
abbrev pub Pointer : Type 0
Pointer = Option ℕ

-- An object: its _referenceCount, and the pointers of its members.
pub record Cell : Type 0 where
  count : ℕ
  members : List Pointer

-- The heap: an object is at the address that is its place, and none is where it was when it is deleted.
abbrev pub Heap : Type 0
Heap = List (Option Cell)

pub record Store : Type 0 where
  variables : List Pointer
  heap : Heap

-- Where a ref_ptr is.
pub data Place : Type 0 where
  variable : ℕ → Place
  member : ℕ → ℕ → Place

module _ {ℓ} {A : Type ℓ} where
  abbrev pub get : List A → ℕ → Option A
  get [] n = none
  get (x ∷ xs) zero = some x
  get (x ∷ xs) (suc n) = get xs n

  abbrev pub set : ℕ → A → List A → List A
  set n y [] = []
  set zero y (x ∷ xs) = y ∷ xs
  set (suc n) y (x ∷ xs) = x ∷ set n y xs

abbrev pub live : Option (Option Cell) → Option Cell
live (some o) = o
live none = none

unfoldable pub at : Heap → ℕ → Option Cell
at heap a = live (get heap a)

abbrev pub then_do : {A B : Type 0} → Option A → (A → Option B) → Option B
then_do none f = none
then_do (some x) f = f x

-- ref() of the object that a pointer is for, when it is for one; none where it is deleted.
abbrev pub ref_cell : ℕ → Heap → Option Cell → Option Heap
ref_cell a heap none = none
ref_cell a heap (some c) = some (set a (some (record c { count = add32 c.count 1 })) heap)

unfoldable pub ref : Pointer → Heap → Option Heap
ref none heap = some heap
ref (some a) heap = ref_cell a heap (at heap a)

-- The object after fetch_sub(1).
abbrev pub lowered : Cell → Option Cell
lowered c = some (record c { count = sub32 c.count 1 })

-- One unref() of those to do: the count is lowered, and the object deleted when it was 1 or less, which
-- leaves an unref() for each of its members.
abbrev pub unref_cell : ℕ → List Pointer → Heap → Option Cell → Option (List Pointer × Heap)
unref_cell a work heap none = none
unref_cell a work heap (some c) =
    if leb c.count 1
    then some (c.members ++ work, set a none heap)
    else some (work, set a (lowered c) heap)

unfoldable pub unref_one : Pointer → List Pointer → Heap → Option (List Pointer × Heap)
unref_one none work heap = some (work, heap)
unref_one (some a) work heap = unref_cell a work heap (at heap a)

-- The unref()s to do, one after the other, on fuel.
unfoldable pub unref_all : ℕ → List Pointer → Heap → Option Heap
unref_all fuel [] heap = some heap
unref_all zero (p ∷ work) heap = none
unref_all (suc fuel) (p ∷ work) heap =
    then_do (unref_one p work heap) (λ rest. unref_all fuel (rest.0) (rest.1))

-- The number of the members of all objects.
abbrev pub size : Option Cell → ℕ
size none = 0
size (some c) = length c.members

abbrev pub total : (Option Cell → ℕ) → Heap → ℕ
total f [] = 0
total f (o ∷ heap) = f o + total f heap

abbrev pub weight : Heap → ℕ
weight heap = total size heap

-- unref() of the object that a pointer is for: with as much fuel as there are members, and one.
unfoldable pub unref : Pointer → Heap → Option Heap
unref p heap = unref_all (suc (weight heap)) (p ∷ []) heap

-- unref_nodelete().
abbrev pub lower_cell : ℕ → Heap → Option Cell → Option Heap
lower_cell a heap none = none
lower_cell a heap (some c) = some (set a (lowered c) heap)

unfoldable pub unref_nodelete : Pointer → Heap → Option Heap
unref_nodelete none heap = some heap
unref_nodelete (some a) heap = lower_cell a heap (at heap a)

abbrev pub get_member : Option Cell → ℕ → Option Pointer
get_member none i = none
get_member (some c) i = get c.members i

abbrev pub set_member : ℕ → ℕ → Pointer → Heap → Option Cell → Heap
set_member a i p heap none = heap
set_member a i p heap (some c) = set a (some (record c { members = set i p c.members })) heap

-- `_ptr` of the ref_ptr at a place, none when there is no ref_ptr.
unfoldable pub load : Place → Store → Option Pointer
load (variable i) s = get s.variables i
load (member a i) s = get_member (at s.heap a) i

unfoldable pub save : Place → Pointer → Store → Store
save (variable i) p s = record s { variables = set i p s.variables }
save (member a i) p s = record s { heap = set_member a i p s.heap (at s.heap a) }

abbrev pub with_heap : Store → Option Heap → Option Store
with_heap s none = none
with_heap s (some heap) = some (record s { heap = heap })

unfoldable pub ref_in : Pointer → Store → Option Store
ref_in p s = with_heap s (ref p s.heap)

unfoldable pub unref_in : Pointer → Store → Option Store
unref_in p s = with_heap s (unref p s.heap)

unfoldable pub unref_nodelete_in : Pointer → Store → Option Store
unref_nodelete_in p s = with_heap s (unref_nodelete p s.heap)

abbrev pub same : Pointer → Pointer → Bool
same none none = true
same (some a) (some b) = a == b
same _ _ = false

-- The null pointers that the members of a new object are.
abbrev pub nulls : ℕ → List Pointer
nulls zero = []
nulls (suc n) = none ∷ nulls n

-- `new T`, where T has so many members.
unfoldable pub create : ℕ → Store → Store
create n s = record s { heap = s.heap ++ some (record { count = 0; members = nulls n }) ∷ [] }

-- ref_ptr(T* ptr), ref_ptr(const ref_ptr&): a new variable.
unfoldable pub construct : Pointer → Store → Option Store
construct p s = ref_in p (record s { variables = p ∷ s.variables })

-- ~ref_ptr() of the variable that was made last.
abbrev pub destroy_last : Store → List Pointer → Option Store
destroy_last s [] = none
destroy_last s (p ∷ rest) = unref_in p (record s { variables = rest })

unfoldable pub destroy : Store → Option Store
destroy s = destroy_last s s.variables

-- operator=(T* ptr) and operator=(const ref_ptr& rhs).
abbrev pub assign_over : Place → Pointer → Store → Option Pointer → Option Store
assign_over l p s none = none
assign_over l p s (some old) =
    if same p old then some s else then_do (ref_in p (save l p s)) (unref_in old)

unfoldable pub assign : Place → Pointer → Store → Option Store
assign l p s = assign_over l p s (load l s)

-- release(), without what it returns.
abbrev pub release_old : Place → Store → Option Pointer → Option Store
release_old l s none = none
release_old l s (some old) = then_do (unref_nodelete_in old s) (λ s'. some (save l none s'))

unfoldable pub release : Place → Store → Option Store
release l s = release_old l s (load l s)

-- swap().
abbrev pub swap_both : Place → Place → Store → Option Pointer → Option Pointer → Option Store
swap_both l l' s (some p) (some q) = some (save l' p (save l q s))
swap_both l l' s _ _ = none

unfoldable pub swap : Place → Place → Store → Option Store
swap l l' s = swap_both l l' s (load l s) (load l' s)
