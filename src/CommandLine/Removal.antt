-- ===== src/CommandLine/Removal.antt =====
-- remove() of include/vsg/utils/CommandLine.h: the arguments before and behind what is removed.
use mathlib.Core.List.{append-nil}
use vsg.Base.{
  ℕ, zero, suc, ◌+◌, ◌-◌, ◌<◌, ◌≤◌, ◌≡◌, refl, sym, ap, ◌∙◌, false, List, [], ◌∷◌, ◌++◌, length,
  leb, leb→le, arith, inl, inr, Bool-cases,
}
use vsg.RefPtr.{get, set}
use vsg.CommandLine.{CommandLine, Text, or_empty, shift, remove}

module _ {ℓ} {A : Type ℓ} where
  abbrev pub take : ℕ → List A → List A
  take zero l = []
  take (suc n) [] = []
  take (suc n) (x ∷ l) = x ∷ take n l

  abbrev pub drop : ℕ → List A → List A
  drop zero l = l
  drop (suc n) [] = []
  drop (suc n) (x ∷ l) = drop n l

  drop-set : (i s : ℕ) (x : A) (l : List A) → i < s → drop s (set i x l) ≡ drop s l
  drop-set i s x [] h = refl
  drop-set i zero x (y ∷ l) h = absurd (omega arith)
  drop-set zero (suc s) x (y ∷ l) h = refl
  drop-set (suc i) (suc s) x (y ∷ l) h = drop-set i s x l (omega arith)

  take-set :
      (i : ℕ) (x : A) (l : List A) → i < length l → take (suc i) (set i x l) ≡ take i l ++ x ∷ []
  take-set i x [] h = absurd (omega arith)
  take-set zero x (y ∷ l) h = refl
  take-set (suc i) x (y ∷ l) h = ap (λ t. y ∷ t) (take-set i x l (omega arith))

  length-set : (i : ℕ) (x : A) (l : List A) → length (set i x l) ≡ length l
  length-set i x [] = refl
  length-set zero x (y ∷ l) = refl
  length-set (suc i) x (y ∷ l) = ap suc (length-set i x l)

  pub append_one : (l m : List A) (x : A) → (l ++ x ∷ []) ++ m ≡ l ++ x ∷ m
  append_one [] m x = refl
  append_one (y ∷ l) m x = ap (λ t. y ∷ t) (append_one l m x)

  take-take : (i n : ℕ) (l : List A) → i ≤ n → take i (take n l) ≡ take i l
  take-take zero n l h = refl
  take-take (suc i) zero l h = absurd (omega arith)
  take-take (suc i) (suc n) [] h = refl
  take-take (suc i) (suc n) (x ∷ l) h = ap (λ t. x ∷ t) (take-take i n l (omega arith))

  take_nil : (n : ℕ) → take n [] ≡ []
  take_nil zero = refl
  take_nil (suc n) = refl

  drop-take : (i m : ℕ) (l : List A) → i ≤ m → drop i (take m l) ≡ take (m - i) (drop i l)
  drop-take zero m l h = ap (λ k. take k l) (omega arith)
  drop-take (suc i) zero l h = absurd (omega arith)
  drop-take (suc i) (suc m) [] h = sym (take_nil (suc m - suc i))
  drop-take (suc i) (suc m) (x ∷ l) h =
      drop-take i m l (omega arith) ∙ ap (λ k. take k (drop i l)) (omega arith)

drop_step : (s : ℕ) (l : List Text) → s < length l → drop s l ≡ or_empty (get l s) ∷ drop (suc s) l
drop_step s [] h = absurd (omega arith)
drop_step zero (x ∷ l) h = refl
drop_step (suc s) (x ∷ l) h = drop_step s l (omega arith)

take-shift :
    (n m i s : ℕ) (l : List Text)
    → m ≡ i + n
    → i < s
    → s + n ≤ length l
    → take m (shift n i s l) ≡ take i l ++ take n (drop s l)
unfolding shift
take-shift zero m i s l e h k = ap (λ t. take t l) (omega (arith, e)) ∙ sym (append-nil (take i l))
take-shift (suc n) m i s l e h k =
    let x : Text = or_empty (get l s) in
    let l' : List Text = set i x l in
    let ih : take m (shift n (suc i) (suc s) l') ≡ take (suc i) l' ++ take n (drop (suc s) l') =
      take-shift n m (suc i) (suc s) l' (omega (arith, e)) (omega (arith, h))
        (omega (arith, k, length-set i x l)) in
    rw
      (
        ih,
        take-set i x l (omega (arith, h, k)),
        drop-set i (suc s) x l (omega (arith, h)),
        drop_step s l (omega (arith, k)),
      )
      (append_one (take i l) (take n (drop (suc s) l)) x)

-- The arguments that are left, argv[0] to argv[argc - 1].
abbrev pub arguments : CommandLine → List Text
arguments c = take c.argc c.argv

-- remove() of the arguments from `i` to before `j` keeps those before and behind them, in order.
pub arguments-remove :
    (i j : ℕ) (c : CommandLine)
    → c.argc ≤ length c.argv
    → i < j
    → j ≤ c.argc
    → arguments (remove i (j - i) c) ≡ take i (arguments c) ++ drop j (arguments c)
unfolding remove
arguments-remove i j c w h k =
    let source : i + (j - i) ≡ j = omega (arith, h) in
    let inside : leb c.argc i ≡ false = ground (arith, h, k) in
    elim (Bool-cases (leb c.argc (i + (j - i)))) [
      | inl q ↦
          let nothing : c.argc - j ≡ 0 = ground (arith, leb→le c.argc (i + (j - i)) q, source, k) in
          rw
            (
              inside,
              q,
              take-take i c.argc c.argv (omega (arith, h, k)),
              drop-take j c.argc c.argv k,
            )
            (sym (
              ap (λ n. take i c.argv ++ take n (drop j c.argv)) nothing
              ∙ append-nil (take i c.argv)))
      | inr q ↦
          let more : i + (j - i) ≤ c.argc = ground (arith, q) in
          rw
            (
              inside,
              q,
              take-take i c.argc c.argv (omega (arith, h, k)),
              drop-take j c.argc c.argv k,
            )
            (take-shift (c.argc - (i + (j - i))) (c.argc - (j - i)) i (i + (j - i)) c.argv
                (omega (arith, more, h)) (omega (arith, h)) (omega (arith, w, more))
              ∙ ap (λ n. take i c.argv ++ take (c.argc - n) (drop n c.argv)) source)
    ]

length-shift : (n i s : ℕ) (l : List Text) → length (shift n i s l) ≡ length l
unfolding shift
length-shift zero i s l = refl
length-shift (suc n) i s l =
    length-shift n (suc i) (suc s) (set i (or_empty (get l s)) l)
    ∙ length-set i (or_empty (get l s)) l

-- argc stays within the array.
pub argc-remove :
    (i num : ℕ) (c : CommandLine)
    → c.argc ≤ length c.argv
    → (remove i num c).argc ≤ length ((remove i num c).argv)
unfolding remove
argc-remove i num c w = elim (Bool-cases (leb c.argc i)) [
  | inl q ↦ rw q w
  | inr q ↦ elim (Bool-cases (leb c.argc (i + num))) [
    | inl q' ↦ rw (q, q') (ground (arith, q, w))
    | inr q' ↦ rw (q, q') (omega (arith, w, length-shift (c.argc - (i + num)) i (i + num) c.argv))
  ]
]

pub error_messages-remove :
    (i num : ℕ) (c : CommandLine) → (remove i num c).error_messages ≡ c.error_messages
unfolding remove
error_messages-remove i num c = elim (Bool-cases (leb c.argc i)) [
  | inl q ↦ rw q refl
  | inr q ↦ elim (Bool-cases (leb c.argc (i + num))) [
    | inl q' ↦ rw (q, q') refl
    | inr q' ↦ rw (q, q') refl
  ]
]
