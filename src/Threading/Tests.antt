-- ===== src/Threading/Tests.antt =====
-- The theorems at a barrier and at a latch of three threads.
use vsg.Base.{ℕ, ◌≡◌, ◌<◌, refl, true, false, [], ◌∷◌, ◌++◌, arith}
use vsg.Threading.{barrier, arrivals, passes}
use vsg.Threading.Latch.{falses, waits, count_downs, is_ready, count_downs-release}
use vsg.Threading.Rendezvous.{barrier_rendezvous}

barrier_rendezvous_example :
    ((n : ℕ) → n < 3 → passes 0 (arrivals n (barrier 3)) ≡ false)
    × ((passes 0 (arrivals 3 (barrier 3)) ≡ true) × ((arrivals 3 (barrier 3)).num_arrived ≡ 0))
barrier_rendezvous_example =
    barrier_rendezvous (barrier 3) refl (omega arith) (omega arith) (omega arith)

count_downs-release_example :
    (count_downs 1 3 ≡ (falses 1, 2))
    × (waits 2 ≡ true)
    × (count_downs 3 3 ≡ (falses 2 ++ true ∷ [], 0))
    × (is_ready 0 ≡ true)
    × (waits 0 ≡ false)
count_downs-release_example = count_downs-release 2 1 (omega arith) (omega arith)
