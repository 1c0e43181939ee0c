-- ===== src/DatabasePager/Steady.antt =====
-- Each kind of step of the machine and the ownership.
use mathlib.Core.Path.{subst}
use vsg.Base.{
  ℕ, ◌≡◌, ◌≢◌, ◌⊎◌, refl, ◌∙◌, true, false, Option, none, some, List, [], ◌∷◌, ◌++◌, inl, inr,
  if◌then◌else◌, ◌==◌, arith, Bool-cases, ==_iff, ltb,
}
use vsg.PagedLodContainer.Chain.{occ}
use vsg.DatabasePager.{
  RequestStatus, no_request, read_request, reading, compile_request, compiling, merge_request,
  merging, delete_request, deleting, value, PagedLod, Pager, set_plod, set_status, compare_exchange,
  request_discarded, enqueue, request,
}
use vsg.DatabasePager.Queue.{Removed}
use vsg.DatabasePager.Steps.{
  frame_delta, read_begin, read_end, is_compiled, delete_one, compile_one, finish_one,
}
use vsg.DatabasePager.Update.{trim_one, merge_one}
use vsg.DatabasePager.Owned.{
  Threads, Owned, value_set, value-set_same, value-set_status, value-request_discarded, value_again,
  value-at, occ_snoc, occ-Removed,
}
use vsg.DatabasePager.Numbers.{
  Balanced-ask_read, Balanced-ask_compile, Balanced-begin_read, Balanced-drop_read,
  Balanced-end_read, Balanced-drop_reading, Balanced-delete, Balanced-keep, Balanced-compile,
  Balanced-drop_compile, Balanced-finish, Balanced-merge, Balanced-trim, Balanced-lost,
  Balanced-unmerged,
}

-- What an exchange that succeeds or fails returns.
compare_exchange-cases :
    (plod : ℕ) (from to : RequestStatus) (p : Pager)
    → ((compare_exchange plod from to p ≡ (true, set_status plod to p))
        × (value (p.plods plod).status ≡ value from))
      ⊎ ((compare_exchange plod from to p ≡ (false, p))
          × (value (p.plods plod).status ≢ value from))
unfolding compare_exchange
compare_exchange-cases plod from to p =
    elim (Bool-cases (value (p.plods plod).status == value from)) [
      | inl e ↦ inl (rw e refl, (==_iff (value (p.plods plod).status) (value from)).0 e)
      | inr e ↦ inr (rw e refl, ground arith)
    ]

value-not :
    (plod k n : ℕ) (p : Pager)
    → value (p.plods plod).status ≢ n
    → (plod == k) ≡ true
    → value (p.plods k).status ≢ n
value-not plod k n p h e = subst (λ j. value (p.plods j).status ≢ n) ((==_iff plod k).0 e) h

enqueue-Owned :
    (plod : ℕ) (pending : Option ℕ) (p : Pager) (t : Threads)
    → Owned p t
    → Owned (enqueue plod pending p) t
unfolding enqueue Owned value set_status set_plod
enqueue-Owned plod (some subgraph) p t o k =
    elim (compare_exchange-cases plod no_request compile_request p) [
      | inl (e, s) ↦ rw e (
          Balanced-ask_compile k plod (occ_snoc k plod p.compile_queue)
            (value-set_status plod k compile_request p) (value-at plod k 0 p s) (o k))
      | inr (e, _) ↦ rw e (o k)
    ]
enqueue-Owned plod none p t o k = elim (compare_exchange-cases plod no_request read_request p) [
  | inl (e, s) ↦ rw e (
      Balanced-ask_read k plod (occ_snoc k plod p.request_queue)
        (value-set_status plod k read_request p) (value-at plod k 0 p s) (o k))
  | inr (e, _) ↦ rw e (o k)
]

pub request-Owned : (plod : ℕ) (p : Pager) (t : Threads) → Owned p t → Owned (request plod p) t
unfolding request Owned
request-Owned plod p t o = enqueue-Owned plod (p.plods plod).pending _ t o

pub read_begin-Owned :
    (plod : ℕ) (p : Pager) (t : Threads) (rest : List ℕ)
    → Removed plod t.to_read rest
    → Owned p t
    → Owned (read_begin plod p).1 (
        if (read_begin plod p).0
        then record t { to_read = rest; being_read = plod ∷ t.being_read }
        else record t { to_read = rest })
unfolding read_begin Owned set_status set_plod request_discarded occ value
read_begin-Owned plod p t rest r o k =
    let dropped =
      Balanced-drop_read k plod (occ-Removed k plod r) (value-request_discarded plod k p) (o k) in
    elim (Bool-cases (ltb 1 (frame_delta plod p))) [
      | inl late ↦ rw late dropped
      | inr soon ↦ elim (compare_exchange-cases plod read_request reading p) [
        | inl (e, _) ↦
            rw (soon, e)
              (Balanced-begin_read k plod (occ-Removed k plod r) refl
                (value-set_status plod k reading p) (o k))
        | inr (e, _) ↦ rw (soon, e) dropped
      ]
    ]

pub read_end-Owned :
    (plod : ℕ) (subgraph : Option ℕ) (p : Pager) (t : Threads) (rest : List ℕ)
    → Removed plod t.being_read rest
    → Owned p t
    → Owned (read_end plod subgraph p) (record t { being_read = rest })
unfolding read_end Owned set_status set_plod request_discarded occ value
read_end-Owned plod none p t rest r o k =
    Balanced-drop_reading k plod (occ-Removed k plod r) (value-request_discarded plod k p) (o k)
read_end-Owned plod (some subgraph) p t rest r o k =
    let q = set_status plod compile_request p in
    elim (compare_exchange-cases plod reading compile_request p) [
      | inl (e, _) ↦ rw e (
          Balanced-end_read k plod (occ-Removed k plod r) (occ_snoc k plod p.compile_queue)
            (value-set_same plod k (record (q.plods plod) { pending = some subgraph }) q refl
              ∙ value-set_status plod k compile_request p)
            (o k))
      | inr (e, _) ↦ rw e (
          Balanced-drop_reading k plod (occ-Removed k plod r) (value-request_discarded plod k p)
            (o k))
    ]

pub delete_one-Owned :
    (plod : ℕ) (p : Pager) (t : Threads) (rest : List ℕ)
    → Removed plod t.taken rest
    → Owned p t
    → Owned (delete_one plod p).1 (
        if (delete_one plod p).0
        then record t { taken = rest }
        else record t { taken = rest; to_compile = plod ∷ t.to_compile })
unfolding delete_one Owned set_status set_plod request_discarded occ value
delete_one-Owned plod p t rest r o k =
    let q = set_status plod deleting p in
    let released = set_plod plod (record (q.plods plod) { pending = none }) q in
    elim (compare_exchange-cases plod delete_request deleting p) [
      | inl (e, s) ↦ rw e (
          Balanced-delete k plod (occ-Removed k plod r)
            (value_again plod k (value (p.plods k).status) 8 0
              (value-request_discarded plod k released)
              (value-set_same plod k (record (q.plods plod) { pending = none }) q refl
                ∙ value-set_status plod k deleting p))
            (value-at plod k 7 p s) (o k))
      | inr (e, s) ↦
          rw e (Balanced-keep k plod (occ-Removed k plod r) refl (value-not plod k 7 p s) (o k))
    ]

pub compile_one-Owned :
    (plod : ℕ) (p : Pager) (t : Threads) (rest : List ℕ)
    → Removed plod t.to_compile rest
    → Owned p t
    → Owned (compile_one plod p).1 (
        if (compile_one plod p).0
        then record t { to_compile = rest; compiled = plod ∷ t.compiled }
        else record t { to_compile = rest })
unfolding compile_one Owned set_status set_plod request_discarded occ value
compile_one-Owned plod p t rest r o k =
    let q = set_status plod compiling p in
    elim (compare_exchange-cases plod compile_request compiling p) [
      | inl (e, _) ↦ elim (Bool-cases (is_compiled plod q)) [
        | inl c ↦
            rw (e, c)
              (Balanced-compile k plod (occ-Removed k plod r) refl
                (value-set_status plod k compiling p) (o k))
        | inr c ↦
            rw (e, c)
              (Balanced-drop_compile k plod (occ-Removed k plod r)
                (value_again plod k (value (p.plods k).status) 4 0
                  (value-request_discarded plod k q) (value-set_status plod k compiling p))
                (o k))
      ]
      | inr (e, s) ↦
          rw e (Balanced-lost k plod (occ-Removed k plod r) (value-not plod k 3 p s) (o k))
    ]

pub finish_one-Owned :
    (plod semaphore : ℕ) (p : Pager) (t : Threads) (rest : List ℕ)
    → Removed plod t.compiled rest
    → Owned p t
    → Owned
        (finish_one semaphore plod p)
        (record t { compiled = rest; finished = t.finished ++ plod ∷ [] })
unfolding finish_one Owned set_plod value
finish_one-Owned plod semaphore p t rest r o k =
    Balanced-finish k plod (occ-Removed k plod r) (occ_snoc k plod t.finished)
      (value_set plod k
        (record (p.plods plod) { semaphore = some semaphore; status = merge_request }) p)
      (o k)

pub merge_one-Owned :
    (plod : ℕ) (p : Pager) (t : Threads) (rest : List ℕ)
    → Removed plod t.to_merge rest
    → Owned p t
    → Owned (merge_one plod p) (record t { to_merge = rest })
unfolding merge_one Owned set_status set_plod value
merge_one-Owned plod p t rest r o k =
    let q = set_status plod merging p in
    let l = q.plods plod in
    let l' : PagedLod = record l { child = l.pending; semaphore = none; status = no_request } in
    elim (compare_exchange-cases plod merge_request merging p) [
      | inl (e, _) ↦ rw e (
          Balanced-merge k plod (occ-Removed k plod r)
            (value_again plod k (value (p.plods k).status) 6 0 (value_set plod k l' q)
              (value-set_status plod k merging p))
            (o k))
      | inr (e, s) ↦
          rw e (Balanced-unmerged k plod (occ-Removed k plod r) (value-not plod k 5 p s) (o k))
    ]

pub trim_one-Owned : (plod : ℕ) (p : Pager) (t : Threads) → Owned p t → Owned (trim_one plod p) t
unfolding trim_one Owned set_status set_plod value
trim_one-Owned plod p t o k =
    let q = set_status plod delete_request p in
    elim (compare_exchange-cases plod no_request delete_request p) [
      | inl (e, s) ↦ rw e (
          Balanced-trim k plod (occ_snoc k plod p.compile_queue)
            (value-set_same plod k (record (q.plods plod) { child = none }) q refl
              ∙ value-set_status plod k delete_request p)
            (value-at plod k 0 p s) (o k))
      | inr (e, _) ↦ rw e (o k)
    ]
