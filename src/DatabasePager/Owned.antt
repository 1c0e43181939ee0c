-- ===== src/DatabasePager/Owned.antt =====
-- Where a PagedLOD is while it is requested: in one queue or with one thread, which its status
-- tells.
use vsg.Base.{
  ℕ, ◌+◌, ◌≤◌, ◌≡◌, refl, ap, true, List, [], ◌∷◌, ◌++◌, inl, inr, if◌then◌else◌, ◌==◌, arith,
  Bool-cases, ==_iff,
}
use mathlib.Core.Path.{subst}
use vsg.DatabasePager.Queue.{Removed, removed}
use vsg.PagedLodContainer.Chain.{occ, occ-append}
use vsg.DatabasePager.{
  RequestStatus, no_request, value, PagedLod, Pager, set_plod, set_status, request_discarded,
}

-- What the threads hold between their steps: what they took to read, read, took to delete or
-- compile, will compile, compiled, finished, and what updateSceneGraph took to merge.
pub record Threads : Type 0 where
  pub to_read : List ℕ
  pub being_read : List ℕ
  pub taken : List ℕ
  pub to_compile : List ℕ
  pub compiled : List ℕ
  pub finished : List ℕ
  pub to_merge : List ℕ

pub data System : Type 0 where
  system : Pager → Threads → System

-- 1 when the status `v` is the value `n`.
abbrev pub one_if : ℕ → ℕ → ℕ
one_if n v = if v == n then 1 else 0

-- Of one PagedLOD: the value of its status, and how often it stands in the request queue, is to be
-- read, is being read, stands in the compile queue, is taken from it, is to be compiled, is
-- compiled, finished, stands in the merge queue, and is to be merged.
pub record Balanced
    (v requests reads in_reading compiles taken to_compile compiled finished merges to_merge : ℕ)
    : Type 0 where
  pub to_be_read : requests + reads ≡ one_if 1 v
  pub is_read : in_reading ≡ one_if 2 v
  pub to_be_compiled : compiles + taken + to_compile ≡ one_if 3 v + one_if 7 v
  pub never_deleted : to_compile ≤ one_if 3 v
  pub is_compiled : compiled ≡ one_if 4 v
  pub to_be_merged : finished + merges + to_merge ≡ one_if 5 v
  pub at_rest : one_if 6 v + one_if 8 v ≡ 0

-- Every PagedLOD that is requested is in one queue or with one thread, the one that its status
-- names, and once; every other PagedLOD is in none.
unfoldable pub Owned : Pager → Threads → Type 0
Owned p t =
    (k : ℕ)
    → Balanced (value (p.plods k).status) (occ k p.request_queue) (occ k t.to_read)
        (occ k t.being_read) (occ k p.compile_queue) (occ k t.taken) (occ k t.to_compile)
        (occ k t.compiled) (occ k t.finished) (occ k p.to_merge_queue) (occ k t.to_merge)

pub value_set :
    (plod k : ℕ) (q : PagedLod) (p : Pager)
    → value ((set_plod plod q p).plods k).status
      ≡ (if plod == k then value q.status else value (p.plods k).status)
unfolding set_plod
value_set plod k q p = elim (Bool-cases (plod == k)) [ inl e ↦ rw e refl | inr e ↦ rw e refl ]

pub value-set_status :
    (plod k : ℕ) (to : RequestStatus) (p : Pager)
    → value ((set_status plod to p).plods k).status
      ≡ (if plod == k then value to else value (p.plods k).status)
unfolding set_status
value-set_status plod k to p = value_set plod k (record (p.plods plod) { status = to }) p

pub value-request_discarded :
    (plod k : ℕ) (p : Pager)
    → value ((request_discarded plod p).plods k).status
      ≡ (if plod == k then 0 else value (p.plods k).status)
unfolding request_discarded value
value-request_discarded plod k p =
    value_set plod k (record (p.plods plod) { request_count = 0; status = no_request }) p

-- The second of two writes counts.
pub value_again :
    (plod k v n n' : ℕ) {v' v'' : ℕ}
    → v'' ≡ (if plod == k then n' else v')
    → v' ≡ (if plod == k then n else v)
    → v'' ≡ (if plod == k then n' else v)
value_again plod k v n n' h h' = ground arith

-- A write that keeps the status.
pub value-set_same :
    (plod k : ℕ) (q : PagedLod) (p : Pager)
    → q.status ≡ (p.plods plod).status
    → value ((set_plod plod q p).plods k).status ≡ value (p.plods k).status
unfolding set_plod
value-set_same plod k q p h = elim (Bool-cases (plod == k)) [
  | inl e ↦
      rw e
        (subst (λ j. value q.status ≡ value (p.plods j).status) ((==_iff plod k).0 e) (ap value h))
  | inr e ↦ rw e refl
]

pub occ_snoc :
    (k plod : ℕ) (l : List ℕ) → occ k (l ++ plod ∷ []) ≡ occ k l + (if plod == k then 1 else 0)
unfolding occ
occ_snoc k plod l = omega (arith, occ-append k l (plod ∷ []))

pub occ-Removed :
    (k plod : ℕ) {l l' : List ℕ}
    → Removed plod l l'
    → occ k l ≡ (if plod == k then 1 else 0) + occ k l'
unfolding occ
occ-Removed k plod (removed before after) =
    omega (arith, occ-append k before (plod ∷ after), occ-append k before after)

pub value-at :
    (plod k n : ℕ) (p : Pager)
    → value (p.plods plod).status ≡ n
    → (plod == k) ≡ true
    → value (p.plods k).status ≡ n
value-at plod k n p h e = subst (λ j. value (p.plods j).status ≡ n) ((==_iff plod k).0 e) h
