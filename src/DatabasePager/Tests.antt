-- ===== src/DatabasePager/Tests.antt =====
-- Tests and the theorems at concrete pagers.
use mathlib.Core.Path.{subst}
use vsg.Base.{
  some, ℕ, ◌≡◌, refl, sym, true, false, none, [], ◌∷◌, arith, ltb, ◌==◌, ◌&&◌, if◌then◌else◌,
}
use vsg.PagedLodContainer.{init}
use vsg.DatabasePager.Scene.{update_scene_graph-Owned}
use vsg.DatabasePager.Update.{update_scene_graph}
use vsg.DatabasePager.Owned.{Owned}
use vsg.DatabasePager.Round.{no_compiling, compile_round-Owned}
use vsg.DatabasePager.Steps.{compile_round}
use vsg.DatabasePager.{
  no_request, value, PagedLod, Pager, request, compare_exchange, set_status, set_plod, enqueue,
}
use vsg.DatabasePager.Queue.{
  Removed, removed, takes, take_when_available, find_highest, Takes, take_when_available-Takes,
}
use vsg.DatabasePager.Owned.{System, system}
use vsg.DatabasePager.Machine.{requests, takes_to_read}
use vsg.DatabasePager.Reach.{Reachable, here, next, OwnedSystem, no_threads, Idle, Reachable-Owned}

abbrev idle_plod : PagedLod
idle_plod = record {
  status = no_request;
  request_count = 0;
  frame_last_used = 0;
  pending = none;
  child = none;
  semaphore = none;
}

abbrev start : Pager
start = record {
  plods = λ _. idle_plod;
  num_active_requests = 0;
  frame_count = 0;
  request_queue = [];
  compile_queue = [];
  to_merge_queue = [];
  semaphores = [];
  container = init 10;
  target_max_num = 10;
}

start-Idle : Idle start
start-Idle = record {
  statuses = λ k. refl;
  no_requests = refl;
  no_compiles = refl;
  no_merges = refl;
}

-- The PagedLOD 5 is requested and then taken by a read thread.
abbrev asked : Pager
asked = request 5 start

abbrev taken_state : System
taken_state = system (record asked { request_queue = [] }) (record no_threads { to_read = 5 ∷ [] })

asked_queue : asked.request_queue ≡ 5 ∷ []
unfolding request enqueue compare_exchange set_status set_plod value
asked_queue = refl

taken-Reachable : Reachable (system start no_threads) taken_state
taken-Reachable =
    next (next here (requests 5))
      (takes_to_read {p = asked} (subst (λ q. Removed 5 q []) (sym asked_queue) (removed [] [])))

Reachable-Owned_example : OwnedSystem taken_state
Reachable-Owned_example = Reachable-Owned start start-Idle taken_state taken-Reachable

-- The PagedLODs are their own priorities, at every moment.
abbrev own : ℕ → ℕ → ℕ
own moment plod = plod

-- The priority of the PagedLOD 1 is raised between the two comparisons.
abbrev raised : ℕ → ℕ → ℕ
raised moment plod = if ltb 1 moment && (plod == 1) then 4 else plod

-- Then 3 is taken, although 2 has a lower priority.
raised_while_read :
    take_when_available (λ x y. ltb y x) raised true false (1 ∷ 2 ∷ 3 ∷ []) ≡ takes 3 (1 ∷ 2 ∷ [])
unfolding take_when_available find_highest
raised_while_read = refl

lowest_first :
    take_when_available (λ x y. ltb y x) own true false (3 ∷ 1 ∷ 2 ∷ []) ≡ takes 1 (3 ∷ 2 ∷ [])
unfolding take_when_available find_highest
lowest_first = refl

take_when_available-Takes_example :
    Takes
      (λ x y. ltb y x)
      own
      true
      false
      (3 ∷ 1 ∷ 2 ∷ [])
      (take_when_available (λ x y. ltb y x) own true false (3 ∷ 1 ∷ 2 ∷ []))
take_when_available-Takes_example =
    take_when_available-Takes (λ x y. ltb y x) own (λ x. ground arith) (λ x y h. ground arith)
      (λ x y z h k. ground arith) true false (3 ∷ 1 ∷ 2 ∷ [])

taken-Owned : Owned (record asked { request_queue = [] }) (record no_threads { to_read = 5 ∷ [] })
unfolding OwnedSystem
taken-Owned = Reachable-Owned start start-Idle taken_state taken-Reachable

update_scene_graph-Owned_example :
    Owned
      (update_scene_graph 1 (some ([], 7 ∷ [])) (record asked { request_queue = [] }))
      (record (record no_threads { to_read = 5 ∷ [] }) { to_merge = [] })
update_scene_graph-Owned_example =
    update_scene_graph-Owned (record asked { request_queue = [] })
      (record no_threads { to_read = 5 ∷ [] }) taken-Owned refl 1 (some ([], 7 ∷ []))

compile_round-Owned_example :
    Owned
      (compile_round 9 (record asked { request_queue = [] }))
      (no_compiling (record no_threads { to_read = 5 ∷ [] }))
compile_round-Owned_example =
    compile_round-Owned 9 (record asked { request_queue = [] })
      (record no_threads { to_read = 5 ∷ [] }) taken-Owned
