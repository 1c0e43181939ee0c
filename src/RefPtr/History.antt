-- ===== src/RefPtr/History.antt =====
-- Programs over include/vsg/core/ref_ptr.h, as sequences of its operations.
use vsg.Base.{
  both, ℕ, ◌≡◌, refl, ◌<◌, Bool, true, false, ◌&&◌, Option, none, some, List, [], ◌∷◌, arith,
}
use vsg.RefPtr.{
  Pointer, Cell, Store, Place, at, load, create, construct, destroy, assign, release, swap, then_do,
}
use vsg.RefPtr.Places.{fits}
use vsg.RefPtr.Calls.{
  Exact, create-Exact, construct-Exact, destroy-Exact, assign-Exact, swap-Exact, release-Exact,
  Exact-exists,
}

pub data Call : Type 0 where
  create_call : ℕ → Call
  construct_call : Pointer → Call
  destroy_call : Call
  assign_call : Place → Pointer → Call
  swap_call : Place → Place → Call
  release_call : Place → Call

unfoldable pub perform : Call → Store → Option Store
perform (create_call n) s = some (create n s)
perform (construct_call p) s = construct p s
perform destroy_call s = destroy s
perform (assign_call l p) s = assign l p s
perform (swap_call l l') s = swap l l' s
perform (release_call l) s = release l s

abbrev given : {A : Type 0} → Option A → Bool
given none = false
given (some x) = true

abbrev filled : List Pointer → Bool
filled [] = false
filled (p ∷ ps) = true

-- What a call supposes: the ref_ptrs that it names are there, the object that it gets a pointer for
-- exists, and that object has less than 2^32 - 1 ref_ptrs.
unfoldable pub proper : Call → Store → Bool
proper (create_call n) s = true
proper (construct_call p) s = fits p s.heap
proper destroy_call s = filled s.variables
proper (assign_call l p) s = given (load l s) && fits p s.heap
proper (swap_call l l') s = given (load l s) && given (load l' s)
proper (release_call l) s = given (load l s)

-- The calls one after the other; none when a call uses an object that is deleted.
unfoldable pub run : List Call → Store → Option Store
run [] s = some s
run (c ∷ cs) s = then_do (perform c s) (run cs)

abbrev after_call : Option Store → (Store → Bool) → Bool
after_call none f = true
after_call (some s) f = f s

-- Each call is proper where it is made.
unfoldable pub run_proper : List Call → Store → Bool
run_proper [] s = true
run_proper (c ∷ cs) s = proper c s && after_call (perform c s) (run_proper cs)

-- The program before its first call.
abbrev pub start : Store
start = record { variables = []; heap = [] }

given-some : {A : Type 0} (o : Option A) → given o ≡ true → (x : A) × (o ≡ some x)
given-some none h = cc h
given-some (some x) h = (x, refl)

filled-some :
    (ps : List Pointer) → filled ps ≡ true → (p : Pointer) × (rest : List Pointer) × (ps ≡ p ∷ rest)
filled-some [] h = cc h
filled-some (p ∷ rest) h = (p, rest, refl)

perform-Exact :
    (c : Call) (s : Store)
    → Exact s
    → proper c s ≡ true
    → (s' : Store) × (perform c s ≡ some s') × Exact s'
unfolding perform proper
perform-Exact (create_call n) s h k = (create n s, refl, create-Exact n s h)
perform-Exact (construct_call p) s h k = construct-Exact p s h k
perform-Exact destroy_call s h k =
    let (p, rest, e) = filled-some s.variables k in destroy-Exact s p rest e h
perform-Exact (assign_call l p) s h k =
    let (k1, k2) = both (given (load l s)) (fits p s.heap) k in
    let (old, e) = given-some (load l s) k1 in assign-Exact l p old s h e k2
perform-Exact (swap_call l l') s h k =
    let (k1, k2) = both (given (load l s)) (given (load l' s)) k in
    let (p, e) = given-some (load l s) k1 in
    let (q, e') = given-some (load l' s) k2 in swap-Exact l l' p q s h e e'
perform-Exact (release_call l) s h k =
    let (p, e) = given-some (load l s) k in release-Exact l p s h e

run-Exact :
    (cs : List Call) (s : Store)
    → Exact s
    → run_proper cs s ≡ true
    → (s' : Store) × (run cs s ≡ some s') × Exact s'
unfolding run run_proper
run-Exact [] s h k = (s, refl, h)
run-Exact (c ∷ cs) s h k =
    let (k1, k2) = both (proper c s) (after_call (perform c s) (run_proper cs)) k in
    let (s1, e, h1) = perform-Exact c s h k1 in
    let (s', e', h') = run-Exact cs s1 h1 (rw e at k2) in (s', rw e e', h')

start-Exact : Exact start
unfolding at
start-Exact a = (refl, omega arith)

-- Whatever calls a program makes, each proper where it is made, no call uses an object that is deleted;
-- at the end the count of every object is the number of the ref_ptrs for it, and each ref_ptr that is
-- not null is for an object that exists.
pub run_counts :
    (cs : List Call)
    → run_proper cs start ≡ true
    → (s : Store) × (run cs start ≡ some s)
      × Exact s
      × ((l : Place) (a : ℕ)
          → load l s ≡ some (some a)
          → (c : Cell) × (at s.heap a ≡ some c) × (0 < c.count))
run_counts cs k =
    let (s, e, h) = run-Exact cs start start-Exact k in (s, e, h, λ l a. Exact-exists l a s h)
