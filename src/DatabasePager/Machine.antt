-- ===== src/DatabasePager/Machine.antt =====
-- DatabasePager, its threads and the threads that call it as a step relation: each step is one
-- operation of the code on one PagedLOD, or the take or the add of a whole queue, and the steps of
-- the threads come in any order.
use vsg.Base.{ℕ, ◌≡◌, Option, List, [], ◌∷◌, ◌++◌, if◌then◌else◌}
use vsg.DatabasePager.{Pager, request}
use vsg.DatabasePager.Queue.{Removed}
use vsg.DatabasePager.Steps.{
  read_begin, read_end, delete_one, compile_one, finish_one, take_compile_queue,
}
use vsg.DatabasePager.Update.{trim_one, merge_one}
use vsg.DatabasePager.Owned.{Threads, System, system}

-- `Kept p p'`: no request and no queue changes; the frame count, the container, the semaphores and
-- the number of active requests may.
pub data Kept : Pager → Pager → Type 0 where
  kept :
      {p p' : Pager}
      → ((k : ℕ) → (p'.plods k).status ≡ (p.plods k).status)
      → p'.request_queue ≡ p.request_queue
      → p'.compile_queue ≡ p.compile_queue
      → p'.to_merge_queue ≡ p.to_merge_queue
      → Kept p p'

pub data Step : System → System → Type 0 where
  others : {p p' : Pager} {t : Threads} → Kept p p' → Step (system p t) (system p' t)
  requests : {p : Pager} {t : Threads} (plod : ℕ) → Step (system p t) (system (request plod p) t)
  takes_to_read :
      {p : Pager} {t : Threads} {plod : ℕ} {queue : List ℕ}
      → Removed plod p.request_queue queue
      → Step
          (system p t)
          (system (record p { request_queue = queue }) (record t { to_read = plod ∷ t.to_read }))
  begins_reading :
      {p : Pager} {t : Threads} {plod : ℕ} {rest : List ℕ}
      → Removed plod t.to_read rest
      → Step (system p t) (
          system (read_begin plod p).1 (
            if (read_begin plod p).0
            then record t { to_read = rest; being_read = plod ∷ t.being_read }
            else record t { to_read = rest }))
  ends_reading :
      {p : Pager} {t : Threads} {plod : ℕ} {rest : List ℕ} (subgraph : Option ℕ)
      → Removed plod t.being_read rest
      → Step (system p t) (system (read_end plod subgraph p) (record t { being_read = rest }))
  takes_to_compile :
      {p : Pager} {t : Threads}
      → Step (system p t) (
          system
            (take_compile_queue p).1
            (record t { taken = t.taken ++ (take_compile_queue p).0 }))
  sorts :
      {p : Pager} {t : Threads} {plod : ℕ} {rest : List ℕ}
      → Removed plod t.taken rest
      → Step (system p t) (
          system (delete_one plod p).1 (
            if (delete_one plod p).0
            then record t { taken = rest }
            else record t { taken = rest; to_compile = plod ∷ t.to_compile }))
  compiles :
      {p : Pager} {t : Threads} {plod : ℕ} {rest : List ℕ}
      → Removed plod t.to_compile rest
      → Step (system p t) (
          system (compile_one plod p).1 (
            if (compile_one plod p).0
            then record t { to_compile = rest; compiled = plod ∷ t.compiled }
            else record t { to_compile = rest }))
  finishes :
      {p : Pager} {t : Threads} {plod : ℕ} {rest : List ℕ} (semaphore : ℕ)
      → Removed plod t.compiled rest
      → Step (system p t) (
          system
            (finish_one semaphore plod p)
            (record t { compiled = rest; finished = t.finished ++ plod ∷ [] }))
  adds_to_merge :
      {p : Pager} {t : Threads} {plod : ℕ} {rest : List ℕ}
      → Removed plod t.finished rest
      → Step (system p t) (
          system
            (record p { to_merge_queue = p.to_merge_queue ++ plod ∷ [] })
            (record t { finished = rest }))
  takes_to_merge :
      {p : Pager} {t : Threads}
      → Step (system p t) (
          system
            (record p { to_merge_queue = [] })
            (record t { to_merge = t.to_merge ++ p.to_merge_queue }))
  merges :
      {p : Pager} {t : Threads} {plod : ℕ} {rest : List ℕ}
      → Removed plod t.to_merge rest
      → Step (system p t) (system (merge_one plod p) (record t { to_merge = rest }))
  trims : {p : Pager} {t : Threads} (plod : ℕ) → Step (system p t) (system (trim_one plod p) t)
