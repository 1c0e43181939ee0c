-- ===== src/DatabasePager/Round.antt =====
-- A round of the compile thread and the ownership.
use mathlib.Core.List.{append-nil, append_assoc}
use mathlib.Core.Path.{subst}
use vsg.Base.{ℕ, ◌≡◌, List, [], ◌∷◌, ◌++◌, arith, inl, inr, Bool-cases}
use vsg.PagedLodContainer.Chain.{occ, occ-append}
use vsg.DatabasePager.{Pager}
use vsg.DatabasePager.Queue.{removed}
use vsg.DatabasePager.Steps.{
  take_compile_queue, delete_one, delete_all, compile_one, compile_all, finish_one, finish_all,
  finish_compile, compile_round,
}
use vsg.DatabasePager.Owned.{Threads, Owned}
use vsg.DatabasePager.Numbers.{
  Balanced-take_compile, Balanced-recount_compile, Balanced-recount_compiled, Balanced-add_finished,
}
use vsg.DatabasePager.Steady.{delete_one-Owned, compile_one-Owned, finish_one-Owned}

-- Only how often a PagedLOD stands in a list counts.
recount_compile :
    (p : Pager) (t : Threads) (l l' : List ℕ)
    → ((k : ℕ) → occ k l' ≡ occ k l)
    → Owned p (record t { to_compile = l })
    → Owned p (record t { to_compile = l' })
unfolding Owned
recount_compile p t l l' e o k = Balanced-recount_compile (e k) (o k)

recount_compiled :
    (p : Pager) (t : Threads) (l l' : List ℕ)
    → ((k : ℕ) → occ k l' ≡ occ k l)
    → Owned p (record t { compiled = l })
    → Owned p (record t { compiled = l' })
unfolding Owned
recount_compiled p t l l' e o k = Balanced-recount_compiled (e k) (o k)

occ-shift : (plod : ℕ) (l r : List ℕ) (k : ℕ) → occ k ((plod ∷ l) ++ r) ≡ occ k (l ++ plod ∷ r)
unfolding occ
occ-shift plod l r k = omega (arith, occ-append k l r, occ-append k l (plod ∷ r))

module _ (t : Threads) where
  delete_all-Owned :
      (nodes to_compile : List ℕ) (p : Pager)
      → Owned p (record t { taken = nodes; to_compile = to_compile })
      → Owned
          (delete_all nodes p).1
          (record t { taken = []; to_compile = (delete_all nodes p).0 ++ to_compile })
  unfolding delete_all
  delete_all-Owned [] to_compile p o = o
  delete_all-Owned (plod ∷ nodes) to_compile p o =
      let now : Threads = record t { taken = plod ∷ nodes; to_compile = to_compile } in
      let o' = delete_one-Owned plod p now nodes (removed [] nodes) o in
      elim (Bool-cases (delete_one plod p).0) [
        | inl e ↦ rw e (delete_all-Owned nodes to_compile (delete_one plod p).1 (rw e at o'))
        | inr e ↦ rw e (
            recount_compile _ (record t { taken = [] }) _ _
              (occ-shift plod (delete_all nodes (delete_one plod p).1).0 to_compile)
              (delete_all-Owned nodes (plod ∷ to_compile) (delete_one plod p).1 (rw e at o')))
      ]

  compile_all-Owned :
      (nodes compiled : List ℕ) (p : Pager)
      → Owned p (record t { to_compile = nodes; compiled = compiled })
      → Owned
          (compile_all nodes p).1
          (record t { to_compile = []; compiled = (compile_all nodes p).0 ++ compiled })
  unfolding compile_all
  compile_all-Owned [] compiled p o = o
  compile_all-Owned (plod ∷ nodes) compiled p o =
      let now : Threads = record t { to_compile = plod ∷ nodes; compiled = compiled } in
      let o' = compile_one-Owned plod p now nodes (removed [] nodes) o in
      elim (Bool-cases (compile_one plod p).0) [
        | inl e ↦ rw e (
            recount_compiled _ (record t { to_compile = [] }) _ _
              (occ-shift plod (compile_all nodes (compile_one plod p).1).0 compiled)
              (compile_all-Owned nodes (plod ∷ compiled) (compile_one plod p).1 (rw e at o')))
        | inr e ↦ rw e (compile_all-Owned nodes compiled (compile_one plod p).1 (rw e at o'))
      ]

  finish_all-Owned :
      (semaphore : ℕ) (nodes finished : List ℕ) (p : Pager)
      → Owned p (record t { compiled = nodes; finished = finished })
      → Owned
          (finish_all semaphore nodes p)
          (record t { compiled = []; finished = finished ++ nodes })
  unfolding finish_all
  finish_all-Owned semaphore [] finished p o = rw (append-nil finished) o
  finish_all-Owned semaphore (plod ∷ nodes) finished p o =
      let now : Threads = record t { compiled = plod ∷ nodes; finished = finished } in
      subst
        (λ l.
          Owned (finish_all semaphore nodes (finish_one semaphore plod p))
            (record t { compiled = []; finished = l }))
        (append_assoc finished (plod ∷ []) nodes)
        (finish_all-Owned semaphore nodes (finished ++ plod ∷ []) (finish_one semaphore plod p)
          (finish_one-Owned plod semaphore p now nodes (removed [] nodes) o))

-- The threads, when no compile thread is between its steps.
abbrev pub no_compiling : Threads → Threads
no_compiling t = record t { taken = []; to_compile = []; compiled = []; finished = [] }

finish_compile-Owned :
    (t : Threads) (semaphore : ℕ) (nodes : List ℕ) (p : Pager)
    → Owned p (record t { compiled = nodes; finished = [] })
    → Owned (finish_compile semaphore nodes p) (record t { compiled = []; finished = [] })
unfolding finish_compile Owned occ
finish_compile-Owned t semaphore [] p o k = o k
finish_compile-Owned t semaphore (plod ∷ nodes) p o k =
    let all : List ℕ = plod ∷ nodes in
    let finished : Pager = finish_all semaphore all p in
    Balanced-add_finished (occ-append k finished.to_merge_queue all)
      (finish_all-Owned t semaphore all [] p o k)

taken-Owned :
    (p : Pager) (t : Threads)
    → Owned p (no_compiling t)
    → Owned (record p { compile_queue = [] }) (record (no_compiling t) { taken = p.compile_queue })
unfolding Owned occ
taken-Owned p t o k = Balanced-take_compile (omega arith) (o k)

-- A whole round of the compile thread, with no other compile thread between its steps, keeps every
-- requested PagedLOD in one queue or with one thread, the one that its status names, and the
-- compile thread holds none afterwards.
pub compile_round-Owned :
    (semaphore : ℕ) (p : Pager) (t : Threads)
    → Owned p (no_compiling t)
    → Owned (compile_round semaphore p) (no_compiling t)
unfolding compile_round take_compile_queue
compile_round-Owned semaphore p t o =
    let nodes = p.compile_queue in
    let taken : Pager = record p { compile_queue = [] } in
    let to_compile : List ℕ = (delete_all nodes taken).0 in
    let deleted : Pager = (delete_all nodes taken).1 in
    let compiled : List ℕ = (compile_all to_compile deleted).0 in
    let last : Pager = (compile_all to_compile deleted).1 in
    let sorted : Owned deleted (record (no_compiling t) { to_compile = to_compile }) =
      subst (λ l. Owned deleted (record (no_compiling t) { to_compile = l }))
        (append-nil to_compile)
        (delete_all-Owned (no_compiling t) nodes [] taken (taken-Owned p t o)) in
    let done : Owned last (record (no_compiling t) { compiled = compiled }) =
      subst (λ l. Owned last (record (no_compiling t) { compiled = l })) (append-nil compiled)
        (compile_all-Owned (no_compiling t) to_compile [] deleted sorted) in
    finish_compile-Owned (no_compiling t) semaphore compiled last done
