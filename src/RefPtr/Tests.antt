-- ===== src/RefPtr/Tests.antt =====
-- Programs over ref_ptr, and uses of the theorems on them.
use vsg.Base.{ℕ, zero, suc, ◌≡◌, refl, true, none, some, List, [], ◌∷◌, ◌<◌, arith}
use vsg.Base.Word.{add32, sub32}
use vsg.RefPtr.{
  Cell, Heap, Store, Place, variable, member, at, load, save, ref, unref, ref_in, unref_in,
  unref_one, unref_all, create, construct, assign, destroy,
}
use vsg.RefPtr.Unref.{Counted, Remains}
use vsg.RefPtr.Calls.{Exact, unref-Counted}
use vsg.RefPtr.History.{
  Call, create_call, construct_call, assign_call, destroy_call, perform, proper, run, run_proper,
  start, run_counts,
}

-- The one ref_ptr of a parent is assigned the parent's child.
abbrev to_child : List Call
to_child =
    create_call 1
    ∷ create_call 0
    ∷ construct_call (some 0)
    ∷ assign_call (member 0 0) (some 1)
    ∷ assign_call (variable 0) (some 1)
    ∷ []

run-to_child :
    run to_child start
    ≡ some (record {
      variables = some 1 ∷ [];
      heap = none ∷ some (record { count = 1; members = [] }) ∷ [];
    })
unfolding run perform create construct assign ref_in unref_in ref unref unref_one unref_all load
    save at add32 sub32
run-to_child = refl

-- The parent is deleted with its child.
run-destroy_family :
    run
      (create_call 1
        ∷ create_call 0
        ∷ construct_call (some 0)
        ∷ assign_call (member 0 0) (some 1)
        ∷ destroy_call
        ∷ [])
      start
    ≡ some (record { variables = []; heap = none ∷ none ∷ [] })
unfolding run perform create construct assign destroy ref_in unref_in ref unref unref_one unref_all
    load save at add32 sub32
run-destroy_family = refl

run_proper-to_child : run_proper to_child start ≡ true
unfolding run_proper proper perform create construct assign ref_in unref_in ref unref unref_one
    unref_all load save at add32 sub32
run_proper-to_child = refl

run_counts_example :
    (s : Store) × (run to_child start ≡ some s)
    × Exact s
    × ((l : Place) (a : ℕ)
        → load l s ≡ some (some a)
        → (c : Cell) × (at s.heap a ≡ some c) × (0 < c.count))
run_counts_example = run_counts to_child run_proper-to_child

-- A parent whose last ref_ptr has gone, and its child.
abbrev family : Heap
family =
    some (record { count = 1; members = some 1 ∷ [] })
    ∷ some (record { count = 1; members = [] })
    ∷ []

family-Counted : Counted (λ a. 0) (some 0 ∷ []) family
unfolding at
family-Counted zero = (refl, omega arith)
family-Counted (suc zero) = (refl, omega arith)
family-Counted (suc (suc a)) = (ground arith, omega arith)

unref-Counted_example :
    (after : Heap) × (unref (some 0) family ≡ some after)
    × Counted (λ a. 0) [] after
    × Remains family after
unref-Counted_example = unref-Counted (λ a. 0) (some 0) family family-Counted
