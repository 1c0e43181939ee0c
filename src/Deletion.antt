-- ===== src/Deletion.antt =====
-- The life of one object that threads share: its count in include/vsg/core/Object.h, the decision on its
-- deletion in src/vsg/core/Object.cpp and src/vsg/core/Auxiliary.cpp, and the observers of
-- include/vsg/core/observer_ptr.h. A step is what one thread does under the mutex of the Auxiliary, or
-- with one access to the count.
pub mod Safety
mod Tests
use vsg.Base.{
  ℕ, zero, suc, ◌+◌, ◌-◌, ◌^◌, ◌<◌, ◌≡◌, Bool, true, false, ◌&&◌, Option, none, some, leb, ltb,
  if◌then◌else◌,
}
use vsg.Base.Word.{add32, sub32}

pub record Object : Type 0 where
  -- _referenceCount.
  count : ℕ
  -- _auxiliary, with whether its _connectedObject is set.
  auxiliary : Option Bool
  -- The ref_ptrs for the object, of all threads.
  holders : ℕ
  -- The threads that are on the way into _attemptDelete().
  deciding : ℕ
  -- The pointers that release() has given out, each without its reference.
  released : ℕ
  -- How often the object has been deleted.
  deletions : ℕ

-- ref().
unfoldable pub ref : Object → Object
ref o = record o { count = add32 o.count 1 }

-- unref(), up to the call of _attemptDelete().
unfoldable pub unref : Object → Object
unref o = record o {
  count = sub32 o.count 1;
  deciding = if leb o.count 1 then suc o.deciding else o.deciding;
}

-- unref_nodelete().
unfoldable pub unref_nodelete : Object → Object
unref_nodelete o = record o { count = sub32 o.count 1 }

-- signalConnectedObjectToBeDeleted(): whether the object is to be deleted, and the Auxiliary then.
unfoldable pub signal : Bool → ℕ → Bool × Bool
signal connected count = if connected && ltb 0 count then (false, connected) else (true, false)

unfoldable pub delete : Object → Object
delete o = record o { deletions = suc o.deletions }

-- _attemptDelete().
abbrev pub attempt_with : Object → Option Bool → Object
attempt_with o none = delete o
attempt_with o (some connected) =
    let (deleting, connected') = signal connected o.count in
    let o' : Object = record o { auxiliary = some connected' } in if deleting then delete o' else o'

unfoldable pub attempt_delete : Object → Object
attempt_delete o = attempt_with o o.auxiliary

-- getOrCreateUniqueAuxiliary(), for the Auxiliary that the object has alone.
abbrev pub with_auxiliary : Option Bool → Option Bool
with_auxiliary none = some true
with_auxiliary (some connected) = some connected

unfoldable pub observe : Object → Object
observe o = record o { auxiliary = with_auxiliary o.auxiliary }

-- The ref_ptr that an observer_ptr is converted to: null when the object is not connected any more.
abbrev pub lock_with : Object → Option Bool → Object
lock_with o (some true) = record (ref o) { holders = suc o.holders }
lock_with o _ = o

unfoldable pub lock : Object → Object
lock o = lock_with o o.auxiliary

-- What a thread does next. A ref_ptr is copied, or made from a pointer, and an observer_ptr is made while
-- there is a ref_ptr; what is done with the pointers of release() after the last has gone is left out.
pub data Step (o : Object) : Object → Type 0 where
  copies : 0 < o.holders → Step o (record (ref o) { holders = suc o.holders })
  drops : 0 < o.holders → Step o (record (unref o) { holders = o.holders - 1 })
  releases :
      0 < o.holders
      → Step o (record (unref_nodelete o) { holders = o.holders - 1; released = suc o.released })
  decides : 0 < o.deciding → Step o (attempt_delete (record o { deciding = o.deciding - 1 }))
  observes : 0 < o.holders → Step o (observe o)
  locks : Step o (lock o)

-- The object when its first ref_ptr has been made, and what the threads lead it to; there are less than
-- 2^32 - 1 ref_ptrs at a time.
abbrev pub created : Object
created = record {
  count = 1;
  auxiliary = none;
  holders = 1;
  deciding = 0;
  released = 0;
  deletions = 0;
}

pub data Reachable : Object → Type 0 where
  begins : Reachable created
  goes_on : (o o' : Object) → Reachable o → suc o.holders < 2 ^ 32 → Step o o' → Reachable o'
