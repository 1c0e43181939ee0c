-- ===== src/Threading.antt =====
-- OperationQueue and Barrier of include/vsg/threading and src/vsg/threading/OperationQueue.cpp. What
-- a method does under its lock is one step; a wait is what its condition says when the lock is
-- taken.
pub mod Rendezvous
pub mod Latch
mod Tests
use vsg.Base.{
  ℕ, zero, suc, ◌+◌, ◌-◌, Bool, true, false, not, ◌&&◌, Option, none, some, List, [], ◌∷◌, ◌++◌,
  ltb, leb, ◌==◌, if◌then◌else◌,
}
use vsg.Base.Word.{add32}

-- OperationQueue, with operations by address.
unfoldable pub add : ℕ → List ℕ → List ℕ
add operation queue = queue ++ operation ∷ []

unfoldable pub add_all : List ℕ → List ℕ → List ℕ
add_all [] queue = queue
add_all (operation ∷ operations) queue = add_all operations (add operation queue)

unfoldable pub take : List ℕ → Option ℕ × List ℕ
take [] = (none, [])
take (operation ∷ queue) = (some operation, queue)

-- What take_when_avilable does when it holds the lock. The status is read in the condition of the
-- loop and behind it; front() of an empty list is undefined.
pub data Taking : Type 0 where
  waits : Taking
  nothing : Taking
  takes : ℕ → List ℕ → Taking
  undefined : Taking

unfoldable pub take_when_available : Bool → Bool → List ℕ → Taking
take_when_available true cancel [] = waits
take_when_available false true [] = nothing
take_when_available false false [] = undefined
take_when_available active true (operation ∷ queue) = nothing
take_when_available active false (operation ∷ queue) = takes operation queue

-- Barrier.
pub record Barrier : Type 0 where
  pub num_threads : ℕ
  pub num_arrived : ℕ
  pub phase : ℕ

abbrev pub barrier : ℕ → Barrier
barrier num_threads = record { num_threads = num_threads; num_arrived = 0; phase = 0 }

unfoldable pub release : Barrier → Barrier
release b = record b { num_arrived = 0; phase = add32 b.phase 1 }

-- arrive_and_drop, and arrive_and_wait up to its wait.
unfoldable pub arrive : Barrier → Barrier
arrive b =
    let arrived = record b { num_arrived = add32 b.num_arrived 1 } in
    if arrived.num_arrived == b.num_threads then release arrived else arrived

-- Whether a thread that arrived in the phase `my_phase` goes on.
unfoldable pub passes : ℕ → Barrier → Bool
passes my_phase b = not (b.phase == my_phase)

-- Threads that arrive one after the other.
unfoldable pub arrivals : ℕ → Barrier → Barrier
arrivals zero b = b
arrivals (suc n) b = arrivals n (arrive b)
