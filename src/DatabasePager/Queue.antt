-- ===== src/DatabasePager/Queue.antt =====
-- DatabaseQueue: the take of the request with the lowest `priority`, which the source calls the
-- highest. The priorities (doubles) and their order `greater` are parameters. A priority is
-- atomic, and another thread may write it while the loop reads it: `priority` depends on the moment.
use mathlib.Core.Path.{subst}
use mathlib.Core.List.{append-nil, append_assoc}
use vsg.Base.{
  ℕ, ◌+◌, ◌≡◌, ◌≢◌, ◌⊎◌, refl, Bool, true, false, List, [], ◌∷◌, ◌++◌, inl, inr, if◌then◌else◌,
  Bool-cases,
}

-- What take_when_available does when the lock is held: it waits once more, returns null, or
-- returns an item and leaves the others.
pub data Taken : Type 0 where
  waits : Taken
  nothing : Taken
  takes : ℕ → List ℕ → Taken

-- The queue is `before ++ plod ∷ after`, and the others are `before ++ after`.
pub data Removed (plod : ℕ) : List ℕ → List ℕ → Type 0 where
  removed : (before after : List ℕ) → Removed plod (before ++ plod ∷ after) (before ++ after)

module _ {ℓ} {Priority : Type ℓ} (greater : Priority → Priority → Bool)
    (priority : ℕ → ℕ → Priority) where
  -- The for loop. `highest_itr` is kept as the items before it, its item, and the items between
  -- it and `itr`. Each comparison reads two priorities, one after the other.
  unfoldable pub find_highest : ℕ → List ℕ → ℕ → List ℕ → List ℕ → ℕ × List ℕ
  find_highest now before highest between [] = (highest, before ++ between)
  find_highest now before highest between (plod ∷ rest) =
      let moved = find_highest (now + 2) (before ++ highest ∷ between) plod [] rest in
      let kept = find_highest (now + 2) before highest (between ++ plod ∷ []) rest in
      if greater (priority now highest) (priority (now + 1) plod) then moved else kept

  -- `active` is read in the condition of the loop and `cancel` after it: another thread may
  -- write the status in between.
  unfoldable pub take_when_available : Bool → Bool → List ℕ → Taken
  take_when_available active cancel [] = if active then waits else nothing
  take_when_available active cancel (plod ∷ queue) =
      let (highest, others) = find_highest 0 [] plod [] queue in
      if cancel then nothing else takes highest others

  -- No item of the list is below `plod`, by the priorities at the moment 0, the start of the loop.
  abbrev pub Lowest : ℕ → List ℕ → Type 0
  Lowest plod [] = Unit
  Lowest plod (x ∷ xs) = (greater (priority 0 plod) (priority 0 x) ≡ false) × Lowest plod xs

  Lowest-append : (p : ℕ) (xs ys : List ℕ) → Lowest p xs → Lowest p ys → Lowest p (xs ++ ys)
  Lowest-append p [] ys h k = k
  Lowest-append p (x ∷ xs) ys h k = (h.0, Lowest-append p xs ys h.1 k)

  -- Two priorities were read at a moment that compare otherwise than at the start.
  pub data Changed : Type 0 where
    changed :
        (moment h p : ℕ)
        → greater (priority moment h) (priority (moment + 1) p)
          ≢ greater (priority 0 h) (priority 0 p)
        → Changed

  -- What a call may do.
  pub data Takes (active cancel : Bool) : List ℕ → Taken → Type ℓ where
    waited : active ≡ true → Takes active cancel [] waits
    stopped : active ≡ false → Takes active cancel [] nothing
    cancelled : {queue : List ℕ} → cancel ≡ true → Takes active cancel queue nothing
    took :
        {plod : ℕ} {queue others : List ℕ}
        → cancel ≡ false
        → Removed plod queue others
        → Lowest plod queue ⊎ Changed
        → Takes active cancel queue (takes plod others)

  module _ (irreflexive : (a : Priority) → greater a a ≡ false)
      (asymmetric : (a b : Priority) → greater a b ≡ true → greater b a ≡ false)
      (transitive : (a b c : Priority)
        → greater a b ≡ false
        → greater b c ≡ false
        → greater a c ≡ false) where
    Lowest-below :
        (h p : ℕ)
        → greater (priority 0 h) (priority 0 p) ≡ true
        → (xs : List ℕ) → Lowest h xs
        → Lowest p xs
    Lowest-below h p lt [] l = tt
    Lowest-below h p lt (x ∷ xs) l = (
      transitive (priority 0 p) (priority 0 h) (priority 0 x)
          (asymmetric (priority 0 h) (priority 0 p) lt) l.0,
      Lowest-below h p lt xs l.1,
    )

    -- The loop goes on with the next item, or with the same one.
    moved_on :
        (now : ℕ) (before : List ℕ) (h : ℕ) (between : List ℕ) (p : ℕ)
        → greater (priority now h) (priority (now + 1) p) ≡ true
        → Lowest h (before ++ h ∷ between) ⊎ Changed
        → Lowest p ((before ++ h ∷ between) ++ p ∷ []) ⊎ Changed
    moved_on now before h between p e (inr c) = inr c
    moved_on now before h between p e (inl l) =
        elim (Bool-cases (greater (priority 0 h) (priority 0 p))) [
          | inl f ↦ inl (
              Lowest-append p (before ++ h ∷ between) (p ∷ [])
                (Lowest-below h p f (before ++ h ∷ between) l) (irreflexive (priority 0 p), tt))
          | inr f ↦ inr (changed now h p (λ z. cc (e, f, z)))
        ]

    kept_on :
        (now : ℕ) (before : List ℕ) (h : ℕ) (between : List ℕ) (p : ℕ)
        → greater (priority now h) (priority (now + 1) p) ≡ false
        → Lowest h (before ++ h ∷ between) ⊎ Changed
        → Lowest h (before ++ h ∷ (between ++ p ∷ [])) ⊎ Changed
    kept_on now before h between p e (inr c) = inr c
    kept_on now before h between p e (inl l) =
        elim (Bool-cases (greater (priority 0 h) (priority 0 p))) [
          | inl f ↦ inr (changed now h p (λ z. cc (e, f, z)))
          | inr f ↦ inl (
              subst (Lowest h) (append_assoc before (h ∷ between) (p ∷ []))
                (Lowest-append h (before ++ h ∷ between) (p ∷ []) l (f, tt)))
        ]

    -- Of the result of the loop.
    abbrev Found : List ℕ → ℕ × List ℕ → Type 0
    Found queue r = Removed r.0 queue r.1 × (Lowest r.0 queue ⊎ Changed)

    find_highest-Found :
        (now : ℕ) (before : List ℕ) (h : ℕ) (between rest : List ℕ)
        → Lowest h (before ++ h ∷ between) ⊎ Changed
        → Found (before ++ h ∷ (between ++ rest)) (find_highest now before h between rest)
    unfolding find_highest
    find_highest-Found now before h between [] l =
        rw (append-nil between) (removed before between, l)
    find_highest-Found now before h between (p ∷ rest) l =
        elim (Bool-cases (greater (priority now h) (priority (now + 1) p))) [
          | inl e ↦ rw e (
              subst (λ q. Found q (find_highest (now + 2) (before ++ h ∷ between) p [] rest))
                (append_assoc before (h ∷ between) (p ∷ rest))
                (find_highest-Found (now + 2) (before ++ h ∷ between) p [] rest
                  (moved_on now before h between p e l)))
          | inr e ↦ rw e (
              subst
                (λ q.
                  Found (before ++ h ∷ q)
                    (find_highest (now + 2) before h (between ++ p ∷ []) rest))
                (append_assoc between (p ∷ []) rest)
                (find_highest-Found (now + 2) before h (between ++ p ∷ []) rest
                  (kept_on now before h between p e l)))
        ]

    -- `take_when_available` waits only when the queue is empty and the status is active; it
    -- returns null only when the queue is empty or the status is cancelled; otherwise it takes
    -- one item out of the queue, and no item of the queue had a lower priority at the start, unless
    -- two priorities compare otherwise at a later moment, since others may write them meanwhile. The
    -- order of the priorities is irreflexive and asymmetric, and its negation is transitive.
    pub take_when_available-Takes :
        (active cancel : Bool) (queue : List ℕ)
        → Takes active cancel queue (take_when_available active cancel queue)
    unfolding take_when_available
    take_when_available-Takes true cancel [] = waited refl
    take_when_available-Takes false cancel [] = stopped refl
    take_when_available-Takes active true (p ∷ queue) = cancelled refl
    take_when_available-Takes active false (p ∷ queue) =
        let found = find_highest-Found 0 [] p [] queue (inl (irreflexive (priority 0 p), tt)) in
        took refl found.0 found.1
