-- ===== src/Threading/Rendezvous.antt =====
-- The arrivals at a Barrier.
use vsg.Base.{
  ℕ, zero, suc, ◌+◌, ◌-◌, ◌^◌, ◌<◌, ◌≡◌, refl, sym, ap, ◌∙◌, true, false, not, ◌==◌, arith, ==_refl,
}
use vsg.Base.Word.{add32, add32_exact}
use vsg.Threading.{Barrier, arrive, arrivals, release, passes}

arrive_early :
    (b : Barrier)
    → b.num_arrived + 1 < b.num_threads
    → b.num_threads < 2 ^ 32
    → arrive b ≡ record b { num_arrived = b.num_arrived + 1 }
unfolding arrive
arrive_early b h w =
    let e : ((b.num_arrived + 1) == b.num_threads) ≡ false = ground arith in
    rw (add32_exact b.num_arrived 1 (omega arith), e) refl

arrive_last :
    (b : Barrier)
    → b.num_arrived + 1 ≡ b.num_threads
    → b.num_threads < 2 ^ 32
    → arrive b ≡ record b { num_arrived = 0; phase = add32 b.phase 1 }
unfolding arrive release
arrive_last b h w =
    let e : ((b.num_arrived + 1) == b.num_threads) ≡ true = ground arith in
    rw (add32_exact b.num_arrived 1 (omega arith), e) refl

arrivals_early :
    (n : ℕ) (b : Barrier)
    → b.num_arrived + n < b.num_threads
    → b.num_threads < 2 ^ 32
    → arrivals n b ≡ record b { num_arrived = b.num_arrived + n }
unfolding arrivals
arrivals_early zero b h w =
    let e : b.num_arrived + 0 ≡ b.num_arrived = omega arith in
    ap (λ k. record b { num_arrived = k }) (sym e)
arrivals_early (suc n) b h w =
    let e : b.num_arrived + 1 + n ≡ b.num_arrived + suc n = omega arith in
    rw (arrive_early b (omega arith) w) (
      arrivals_early n (record b { num_arrived = b.num_arrived + 1 }) (omega arith) w
      ∙ ap (λ k. record b { num_arrived = k }) e)

arrivals-arrive : (n : ℕ) (b : Barrier) → arrivals (suc n) b ≡ arrive (arrivals n b)
unfolding arrivals
arrivals-arrive zero b = refl
arrivals-arrive (suc n) b = arrivals-arrive n (arrive b)

arrivals_all :
    (n : ℕ) (b : Barrier)
    → b.num_arrived ≡ 0
    → b.num_threads ≡ suc n
    → b.num_threads < 2 ^ 32
    → arrivals (suc n) b ≡ record b { num_arrived = 0; phase = add32 b.phase 1 }
arrivals_all n b none_yet all w =
    arrivals-arrive n b
    ∙ (ap arrive (arrivals_early n b (omega arith) w)
        ∙ arrive_last (record b { num_arrived = b.num_arrived + n }) (omega arith) w)

phase_changes : (n : ℕ) → n < 2 ^ 32 → not (add32 n 1 == n) ≡ true
unfolding add32
phase_changes n h = ground arith

-- Of the threads of a barrier in which none has arrived, each waits while some have not arrived,
-- and all go on when the last one has, also when the phase wraps around; then no thread has
-- arrived in the next phase.
pub barrier_rendezvous :
    (b : Barrier)
    → b.num_arrived ≡ 0
    → 0 < b.num_threads
    → b.num_threads < 2 ^ 32
    → b.phase < 2 ^ 32
    → ((n : ℕ) → n < b.num_threads → passes b.phase (arrivals n b) ≡ false)
      × ((passes b.phase (arrivals b.num_threads b) ≡ true)
          × ((arrivals b.num_threads b).num_arrived ≡ 0))
unfolding passes
barrier_rendezvous b none_yet some_thread w p =
    let e : b.num_threads ≡ suc (b.num_threads - 1) = omega arith in
    let all : arrivals b.num_threads b ≡ record b { num_arrived = 0; phase = add32 b.phase 1 } =
      ap (λ k. arrivals k b) e ∙ arrivals_all (b.num_threads - 1) b none_yet e w in
    (
      λ n h. rw (arrivals_early n b (omega arith) w, ==_refl b.phase) refl,
      (rw all (phase_changes b.phase p), rw all refl),
    )
