-- ===== src/DatabasePager.antt =====
-- PagedLOD (the fields of a request) of include/vsg/nodes/PagedLOD.h, DatabaseQueue and
-- DatabasePager of include/vsg/io/DatabasePager.h and src/vsg/io/DatabasePager.cpp. A PagedLOD, a
-- node and a semaphore are addresses; 0 is the null PagedLOD. The code of a thread is cut where
-- another thread can run; read_cast and the Vulkan calls are arguments.
pub mod Queue
pub mod Steps
pub mod Update
pub mod Owned
pub mod Reach
pub mod Scene
pub mod Round
pub mod Steady
pub mod Machine
pub mod Numbers
mod Tests
use vsg.Base.{
  ℕ, ◌+◌, ◌≡◌, Bool, true, false, Option, none, some, List, [], ◌∷◌, ◌++◌, leb, ◌==◌, if◌then◌else◌,
}
use vsg.Base.Word.{add32, sub32, sub64}
use vsg.PagedLodContainer.{Container, update}

-- enum RequestStatus.
pub data RequestStatus : Type 0 where
  no_request read_request reading compile_request compiling merge_request merging delete_request
        deleting :
      RequestStatus

-- The values that the enum gives them.
unfoldable pub value : RequestStatus → ℕ
value no_request = 0
value read_request = 1
value reading = 2
value compile_request = 3
value compiling = 4
value merge_request = 5
value merging = 6
value delete_request = 7
value deleting = 8

-- `child` is getChild(0).node.
pub record PagedLod : Type 0 where
  pub status : RequestStatus
  pub request_count : ℕ
  pub frame_last_used : ℕ
  pub pending : Option ℕ
  pub child : Option ℕ
  pub semaphore : Option ℕ

pub record Pager : Type 0 where
  pub plods : ℕ → PagedLod
  pub num_active_requests : ℕ
  pub frame_count : ℕ
  pub request_queue : List ℕ
  pub compile_queue : List ℕ
  pub to_merge_queue : List ℕ
  pub semaphores : List ℕ
  pub container : Container
  pub target_max_num : ℕ

unfoldable pub set_plod : ℕ → PagedLod → Pager → Pager
set_plod plod p pager = record pager { plods = λ k. if plod == k then p else pager.plods k }

unfoldable pub set_status : ℕ → RequestStatus → Pager → Pager
set_status plod to pager = set_plod plod (record (pager.plods plod) { status = to }) pager

-- compare_exchange on requestStatus: whether it held `from`, and then holds `to`.
unfoldable pub compare_exchange : ℕ → RequestStatus → RequestStatus → Pager → Bool × Pager
compare_exchange plod from to pager =
    if value (pager.plods plod).status == value from
    then (true, set_status plod to pager)
    else (false, pager)

-- PagedLOD::highResActive.
unfoldable pub high_res_active : ℕ → PagedLod → Bool
high_res_active frame_count p = leb (sub64 frame_count p.frame_last_used) 1

unfoldable pub request_discarded : ℕ → Pager → Pager
request_discarded plod pager =
    record (set_plod plod (record (pager.plods plod) { request_count = 0; status = no_request })
      pager) { num_active_requests = sub32 pager.num_active_requests 1 }

-- request() from `hasPending` on, which tells whether there is a pending subgraph.
unfoldable pub enqueue : ℕ → Option ℕ → Pager → Pager
enqueue plod (some _) pager =
    let (done, next) = compare_exchange plod no_request compile_request pager in
    if done then record next { compile_queue = next.compile_queue ++ plod ∷ [] } else next
enqueue plod none pager =
    let (done, next) = compare_exchange plod no_request read_request pager in
    if done then record next { request_queue = next.request_queue ++ plod ∷ [] } else next

unfoldable pub request : ℕ → Pager → Pager
request plod pager =
    enqueue plod (pager.plods plod).pending
      (record pager { num_active_requests = add32 pager.num_active_requests 1 })
