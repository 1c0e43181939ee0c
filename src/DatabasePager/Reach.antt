-- ===== src/DatabasePager/Reach.antt =====
-- The reachable states of the pager and its threads.

use vsg.Base.{ℕ, ◌≡◌, refl, [], arith}
use vsg.PagedLodContainer.Chain.{occ, occ-append}
use vsg.DatabasePager.{no_request, value, Pager}
use vsg.DatabasePager.Steps.{take_compile_queue}
use vsg.DatabasePager.Owned.{Threads, System, system, Owned, occ_snoc, occ-Removed}
use vsg.DatabasePager.Machine.{
  kept, Step, others, requests, takes_to_read, begins_reading, ends_reading, takes_to_compile,
  sorts, compiles, finishes, adds_to_merge, takes_to_merge, merges, trims,
}
use vsg.DatabasePager.Numbers.{
  Balanced-take_read, Balanced-add_merge, Balanced-take_merge, Balanced-take_compile,
}
use vsg.DatabasePager.Steady.{
  request-Owned, read_begin-Owned, read_end-Owned, delete_one-Owned, compile_one-Owned,
  finish_one-Owned, merge_one-Owned, trim_one-Owned,
}

pub data Reachable (start : System) : System → Type 0 where
  here : Reachable start start
  next : {s s' : System} → Reachable start s → Step s s' → Reachable start s'

unfoldable pub OwnedSystem : System → Type 0
OwnedSystem (system p t) = Owned p t

abbrev pub no_threads : Threads
no_threads = record {
  to_read = [];
  being_read = [];
  taken = [];
  to_compile = [];
  compiled = [];
  finished = [];
  to_merge = [];
}

-- A pager without requests.
pub record Idle (p : Pager) : Type 0 where
  pub statuses : (k : ℕ) → (p.plods k).status ≡ no_request
  pub no_requests : p.request_queue ≡ []
  pub no_compiles : p.compile_queue ≡ []
  pub no_merges : p.to_merge_queue ≡ []

Step-Owned : {s s' : System} → Step s s' → OwnedSystem s → OwnedSystem s'
unfolding OwnedSystem Owned occ take_compile_queue
Step-Owned (others {p} {p'} {t} (kept e r c m)) o = λ k. rw (e k, r, c, m) (o k)
Step-Owned (requests {p} {t} plod) o = λ k. request-Owned plod p t o k
Step-Owned (takes_to_read {p} {t} {plod} r) o =
    λ k. Balanced-take_read k plod (occ-Removed k plod r) refl (o k)
Step-Owned (begins_reading {p} {t} {plod} {rest} r) o = λ k. read_begin-Owned plod p t rest r o k
Step-Owned (ends_reading {p} {t} {plod} {rest} subgraph r) o =
    λ k. read_end-Owned plod subgraph p t rest r o k
Step-Owned (takes_to_compile {p} {t}) o =
    λ k. Balanced-take_compile (occ-append k t.taken p.compile_queue) (o k)
Step-Owned (sorts {p} {t} {plod} {rest} r) o = λ k. delete_one-Owned plod p t rest r o k
Step-Owned (compiles {p} {t} {plod} {rest} r) o = λ k. compile_one-Owned plod p t rest r o k
Step-Owned (finishes {p} {t} {plod} {rest} semaphore r) o =
    λ k. finish_one-Owned plod semaphore p t rest r o k
Step-Owned (adds_to_merge {p} {t} {plod} r) o =
    λ k. Balanced-add_merge k plod (occ-Removed k plod r) (occ_snoc k plod p.to_merge_queue) (o k)
Step-Owned (takes_to_merge {p} {t}) o =
    λ k. Balanced-take_merge (occ-append k t.to_merge p.to_merge_queue) (o k)
Step-Owned (merges {p} {t} {plod} {rest} r) o = λ k. merge_one-Owned plod p t rest r o k
Step-Owned (trims {p} {t} plod) o = λ k. trim_one-Owned plod p t o k

Idle-Owned : (p : Pager) → Idle p → Owned p no_threads
unfolding Owned occ value
Idle-Owned p i k = rw (i.statuses k, i.no_requests, i.no_compiles, i.no_merges) (omega arith)

-- From a pager without requests, whatever the threads do and in whatever order, every PagedLOD
-- that is requested is in one queue or with one thread, the one that its status names, and once;
-- every other PagedLOD is in none.
pub Reachable-Owned :
    (p : Pager) → Idle p → (s : System) → Reachable (system p no_threads) s → OwnedSystem s
unfolding OwnedSystem
Reachable-Owned p i s here = Idle-Owned p i
Reachable-Owned p i s (next before step) = Step-Owned step (Reachable-Owned p i _ before)
