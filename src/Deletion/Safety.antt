-- ===== src/Deletion/Safety.antt =====
-- What holds of an object whatever the threads do, from src/vsg/core/Object.cpp and
-- src/vsg/core/Auxiliary.cpp: no ref_ptr is for a deleted object.
use vsg.Base.{
  ℕ, suc, ◌+◌, ◌-◌, ◌≡◌, refl, Bool, true, false, Option, none, some, leb, ltb, if◌then◌else◌,
  arith, ◌⊎◌, ◌≢◌, inl, inr, Bool-cases, ◌<◌, ◌≤◌, ◌^◌,
}
use vsg.Base.Word.{add32, sub32, add32_exact, sub32_exact}
use vsg.Deletion.{
  Object, ref, unref, signal, delete, attempt_delete, observe, lock, Step, copies, drops, releases,
  unref_nodelete, decides, observes, locks, Reachable, begins, goes_on,
}

-- By the Auxiliary, the number of ref_ptrs, the decisions to come and the deletions. Without an Auxiliary
-- the last ref_ptr alone leads to a decision, or to none when it is released; with one that is connected
-- the object is not deleted yet.
abbrev pub Sound : Option Bool → ℕ → ℕ → ℕ → ℕ → Type 0
Sound none holders deciding released deletions =
    (0 < holders → deciding + deletions ≡ 0)
    × (holders ≡ 0 → deciding + deletions ≤ 1)
    × (holders ≡ 0 → 0 < deciding + deletions + released)
Sound (some true) holders deciding released deletions =
    (deletions ≡ 0) × (holders ≡ 0 → 0 < deciding + released)
Sound (some false) holders deciding released deletions = (holders ≡ 0) × (0 < deletions)

abbrev pub Safe : Object → Type 0
Safe o =
    (o.count ≡ o.holders)
    × (o.count < 2 ^ 32)
    × Sound o.auxiliary o.holders o.deciding o.released o.deletions

zero_or : (h : ℕ) → (h ≡ 0) ⊎ (0 < h)
zero_or h = ground arith

module _ (c h d r n : ℕ) where
  abbrev as_object : Option Bool → Object
  as_object x = record {
    count = c;
    auxiliary = x;
    holders = h;
    deciding = d;
    released = r;
    deletions = n;
  }

  attempt_delete-Safe :
      (x : Option Bool)
      → 0 < d
      → Safe (as_object x)
      → Safe (attempt_delete (record (as_object x) { deciding = d - 1 }))
  unfolding attempt_delete signal delete
  attempt_delete-Safe none k (e, b, s) = (
    e,
    b,
    ((λ z. absurd (omega (arith, s.0 z))), (λ z. omega (arith, s.1 z, k)), λ z. omega arith),
  )
  attempt_delete-Safe (some false) k (e, b, s) = (e, b, (s.0, omega arith))
  attempt_delete-Safe (some true) k (e, b, s) = elim (Bool-cases (ltb 0 c)) [
    | inl q ↦ rw q (e, b, (s.0, λ z. absurd (ground (arith, q, e, z))))
    | inr q ↦ rw q (e, b, (ground (arith, q, e), omega arith))
  ]

  raised : suc h < 2 ^ 32 → c ≡ h → add32 c 1 ≡ suc h
  raised l e = omega (arith, l, e, add32_exact c 1 (omega arith))

  sunk : 0 < h → c < 2 ^ 32 → c ≡ h → sub32 c 1 ≡ h - 1
  sunk k b e = omega (arith, e, sub32_exact c 1 (omega arith) b)

  ref-Safe :
      (x : Option Bool)
      → suc h < 2 ^ 32
      → c ≡ h
      → Sound x (suc h) d r n
      → Safe (record (ref (as_object x)) { holders = suc h })
  unfolding ref
  ref-Safe x l e s = (raised l e, omega (arith, raised l e, l), s)

  copies-Sound : (x : Option Bool) → 0 < h → Sound x h d r n → Sound x (suc h) d r n
  copies-Sound none k s =
      ((λ z. s.0 k), (λ z. absurd (omega (arith, z))), λ z. absurd (omega (arith, z)))
  copies-Sound (some false) k s = absurd (omega (arith, k, s.0))
  copies-Sound (some true) k s = (s.0, λ z. absurd (omega (arith, z)))

  lock-Safe : (x : Option Bool) → suc h < 2 ^ 32 → Safe (as_object x) → Safe (lock (as_object x))
  unfolding lock
  lock-Safe none l s = s
  lock-Safe (some false) l s = s
  lock-Safe (some true) l (e, b, s) = ref-Safe (some true) l e (s.0, λ z. absurd (omega (arith, z)))

  observe-Safe : (x : Option Bool) → 0 < h → Safe (as_object x) → Safe (observe (as_object x))
  unfolding observe
  observe-Safe none k (e, b, s) = (e, b, (omega (arith, s.0 k), λ z. absurd (omega (arith, z, k))))
  observe-Safe (some connected) k s = s

  drops-Sound :
      (x : Option Bool)
      → 0 < h
      → c ≡ h
      → Sound x h d r n
      → Sound x (h - 1) (if leb c 1 then suc d else d) r n
  drops-Sound none k e s = elim (Bool-cases (leb c 1)) [
    | inl q ↦
        rw q
          ((λ z. absurd (ground (arith, q, e, z))), (λ z. omega (arith, s.0 k)), λ z. omega arith)
    | inr q ↦ rw q (
      (λ z. s.0 k),
      (λ z. absurd (ground (arith, q, e, z))),
      λ z. absurd (ground (arith, q, e, z)),
    )
  ]
  drops-Sound (some false) k e s = absurd (omega (arith, k, s.0))
  drops-Sound (some true) k e s = elim (Bool-cases (leb c 1)) [
    | inl q ↦ rw q (s.0, λ z. omega arith)
    | inr q ↦ rw q (s.0, λ z. absurd (ground (arith, q, e, z)))
  ]

  drops-Safe :
      (x : Option Bool)
      → 0 < h
      → Safe (as_object x)
      → Safe (record (unref (as_object x)) { holders = h - 1 })
  unfolding unref
  drops-Safe x k (e, b, s) = (sunk k b e, omega (arith, sunk k b e, b, e), drops-Sound x k e s)

module _ (c h d r n : ℕ) where
  releases-Sound : (x : Option Bool) → 0 < h → Sound x h d r n → Sound x (h - 1) d (suc r) n
  releases-Sound none k s = ((λ z. s.0 k), (λ z. omega (arith, s.0 k)), λ z. omega arith)
  releases-Sound (some false) k s = absurd (omega (arith, k, s.0))
  releases-Sound (some true) k s = (s.0, λ z. omega arith)

  releases-Safe :
      (x : Option Bool)
      → 0 < h
      → Safe (as_object c h d r n x)
      → Safe (record (unref_nodelete (as_object c h d r n x)) { holders = h - 1; released = suc r })
  unfolding unref_nodelete
  releases-Safe x k (e, b, s) =
      (sunk c h d r n k b e, omega (arith, sunk c h d r n k b e, b, e), releases-Sound x k s)

Step-Safe : (o o' : Object) → suc o.holders < 2 ^ 32 → Step o o' → Safe o → Safe o'
Step-Safe o o' l (copies k) (e, b, s) =
    ref-Safe o.count o.holders o.deciding o.released o.deletions o.auxiliary l e
      (copies-Sound o.count o.holders o.deciding o.released o.deletions o.auxiliary k s)
Step-Safe o o' l (drops k) s =
    drops-Safe o.count o.holders o.deciding o.released o.deletions o.auxiliary k s
Step-Safe o o' l (releases k) s =
    releases-Safe o.count o.holders o.deciding o.released o.deletions o.auxiliary k s
Step-Safe o o' l (decides k) s =
    attempt_delete-Safe o.count o.holders o.deciding o.released o.deletions o.auxiliary k s
Step-Safe o o' l (observes k) s =
    observe-Safe o.count o.holders o.deciding o.released o.deletions o.auxiliary k s
Step-Safe o o' l locks s =
    lock-Safe o.count o.holders o.deciding o.released o.deletions o.auxiliary l s

Reachable-Safe : (o : Object) → Reachable o → Safe o
Reachable-Safe o begins = (
  refl,
  omega arith,
  ((λ z. omega arith), (λ z. absurd (omega (arith, z))), λ z. absurd (omega (arith, z))),
)
Reachable-Safe o (goes_on before after r l st) =
    Step-Safe before after l st (Reachable-Safe before r)

Sound-promise :
    (x : Option Bool) (h d r n : ℕ)
    → Sound x h d r n
    → ((h ≡ 0) ⊎ (n ≡ 0)) × ((0 < h) ⊎ (0 < d + n + r)) × ((x ≢ none) ⊎ (n ≤ 1))
Sound-promise none h d r n s = elim (zero_or h) [
  | inl z ↦ (inl z, inr (s.2 z), inr (omega (arith, s.1 z)))
  | inr k ↦ (inr (omega (arith, s.0 k)), inl k, inr (omega (arith, s.0 k)))
]
Sound-promise (some false) h d r n s = (inl (s.0), inr (omega (arith, s.1)), inl (λ q. cc q))
Sound-promise (some true) h d r n s = elim (zero_or h) [
  | inl z ↦ (inl z, inr (omega (arith, s.1 z)), inl (λ q. cc q))
  | inr k ↦ (inr (s.0), inl k, inl (λ q. cc q))
]

-- Whatever the threads do, by steps that interleave in any order, the count is the number of the
-- ref_ptrs; an object that is deleted has none; an object without any is deleted, or a thread is
-- about to decide on it, or release() has given out a pointer to it; and an object without an
-- Auxiliary is deleted once at most. A ref_ptr is made from a pointer only while there is another,
-- and the ref_ptrs are less than 2^32 - 1 at each time.
pub deletion_lem :
    (o : Object)
    → Reachable o
    → (o.count ≡ o.holders)
      × ((o.holders ≡ 0) ⊎ (o.deletions ≡ 0))
      × ((0 < o.holders) ⊎ (0 < o.deciding + o.deletions + o.released))
      × ((o.auxiliary ≢ none) ⊎ (o.deletions ≤ 1))
deletion_lem o r =
    let (e, b, s) = Reachable-Safe o r in
    let (p, q, t) = Sound-promise o.auxiliary o.holders o.deciding o.released o.deletions s in
    (e, p, q, t)
