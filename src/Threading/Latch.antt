-- ===== src/Threading/Latch.antt =====
-- Latch of include/vsg/threading/Latch.h. Its count is a 32-bit int in two's complement; the
-- exchanges of the count are atomic, and a thread that waits looks at it whenever it is notified.
use vsg.Base.{
  ℕ, zero, suc, ◌-◌, ◌≤◌, ◌<◌, ◌^◌, ◌≡◌, refl, ap, Bool, true, false, List, [], ◌∷◌, ◌++◌, ◌==◌,
  ◌&&◌, ◌||◌, not, ltb, leb, if◌then◌else◌, arith,
}
use vsg.Base.Word.{add32, sub32}

-- The comparisons of an int.
unfoldable pub at_most_one : ℕ → Bool
at_most_one count = leb count 1 || leb 2147483648 count

unfoldable pub is_ready : ℕ → Bool
is_ready count = count == 0 || leb 2147483648 count

-- The condition under which wait() goes on waiting.
unfoldable pub waits : ℕ → Bool
waits count = ltb 0 count && ltb count 2147483648

-- Each operation gives whether it releases the threads that wait, and the count.
unfoldable pub set : ℕ → ℕ → Bool × ℕ
set num count = if num == 0 then (not (count == 0), 0) else (false, num)

unfoldable pub count_up : ℕ → ℕ
count_up count = add32 count 1

unfoldable pub count_down : ℕ → Bool × ℕ
count_down count = (at_most_one count, sub32 count 1)

-- As many calls of count_down, by whichever threads: what they return, and the count.
unfoldable pub count_downs : ℕ → ℕ → List Bool × ℕ
count_downs zero count = ([], count)
count_downs (suc n) count =
    let (released, next) = count_down count in
    let (others, last) = count_downs n next in (released ∷ others, last)

count_downs_step :
    (n count : ℕ)
    → count_downs (suc n) count
      ≡ (at_most_one count ∷ (count_downs n (sub32 count 1)).0, (count_downs n (sub32 count 1)).1)
unfolding count_downs count_down
count_downs_step n count = refl

-- `n` times false.
abbrev pub falses : ℕ → List Bool
falses zero = []
falses (suc n) = false ∷ falses n

lower : (count : ℕ) → 0 < count → count < 2 ^ 32 → sub32 count 1 ≡ count - 1
unfolding sub32
lower count h k = omega arith

not_last : (count : ℕ) → 1 < count → count < 2147483648 → at_most_one count ≡ false
unfolding at_most_one
not_last count h k = ground arith

-- The calls before the last one.
count_downs_before :
    (n count : ℕ) → n < count → count < 2147483648 → count_downs n count ≡ (falses n, count - n)
unfolding count_downs count_down
count_downs_before zero count h k = ap (λ x. ([], x)) (omega arith)
count_downs_before (suc n) count h k =
    rw
      (
        not_last count (omega arith) k,
        lower count (omega arith) (omega arith),
        count_downs_before n (count - 1) (omega arith) (omega arith),
      )
      (ap (λ x. (false ∷ falses n, x)) (omega arith))

last_one : count_downs 1 1 ≡ (true ∷ [], 0)
unfolding count_downs count_down at_most_one sub32
last_one = refl

one_less : (n : ℕ) → suc (suc n) - 1 ≡ suc n
one_less n = omega arith

count_downs_all :
    (n : ℕ) → suc n < 2147483648 → count_downs (suc n) (suc n) ≡ (falses n ++ true ∷ [], 0)
count_downs_all zero k = last_one
count_downs_all (suc n) k = one_more n k (count_downs_all n (omega arith))
  where
    one_more :
        (n : ℕ)
        → suc (suc n) < 2147483648
        → count_downs (suc n) (suc n) ≡ (falses n ++ true ∷ [], 0)
        → count_downs (suc (suc n)) (suc (suc n)) ≡ (falses (suc n) ++ true ∷ [], 0)
    one_more n k h =
        rw
          (
            count_downs_step (suc n) (suc (suc n)),
            not_last (suc (suc n)) (omega arith) k,
            lower (suc (suc n)) (omega arith) (omega arith),
            one_less n,
            h,
          )
          refl

waiting : (count : ℕ) → 0 < count → count < 2147483648 → waits count ≡ true
unfolding waits
waiting count h k = ground arith

-- A latch of `suc n`, less than 2^31: the threads that wait go on waiting while at most `n` calls of
-- count_down have come, all of which return false; the next call, by whichever thread, returns true
-- and releases them, and then the latch is ready and nothing waits.
pub count_downs-release :
    (n k : ℕ)
    → suc n < 2 ^ 31
    → k ≤ n
    → (count_downs k (suc n) ≡ (falses k, suc n - k))
      × (waits (suc n - k) ≡ true)
      × (count_downs (suc n) (suc n) ≡ (falses n ++ true ∷ [], 0))
      × (is_ready 0 ≡ true)
      × (waits 0 ≡ false)
unfolding is_ready waits
count_downs-release n k h l = (
  count_downs_before k (suc n) (omega arith) h,
  waiting (suc n - k) (omega arith) (omega arith),
  count_downs_all n h,
  refl,
  refl,
)
