-- ===== src/DatabasePager/Steps.antt =====
-- The bodies of DatabasePager's read and compile threads, between the calls that wait.
use vsg.Base.{
  ℕ, Bool, true, false, ◌&&◌, Option, none, some, List, [], ◌∷◌, ◌++◌, ltb, leb, if◌then◌else◌,
}
use vsg.Base.Word.{sub64}
use vsg.DatabasePager.{
  read_request, reading, compile_request, compiling, merge_request, delete_request, deleting, Pager,
  set_plod, compare_exchange, request_discarded,
}

unfoldable pub frame_delta : ℕ → Pager → ℕ
frame_delta plod pager = sub64 pager.frame_count (pager.plods plod).frame_last_used

-- The read thread up to read_cast: whether it reads.
unfoldable pub read_begin : ℕ → Pager → Bool × Pager
read_begin plod pager =
    let (done, next) = compare_exchange plod read_request reading pager in
    if ltb 1 (frame_delta plod pager)
    then (false, request_discarded plod pager)
    else if done
    then (true, next)
    else (false, request_discarded plod next)

-- The read thread with what read_cast returned, none for null. No other thread can see the
-- status compile_request without `pending`, as the plod is in no queue.
unfoldable pub read_end : ℕ → Option ℕ → Pager → Pager
read_end plod none pager = request_discarded plod pager
read_end plod (some subgraph) pager =
    let (done, next) = compare_exchange plod reading compile_request pager in
    let read = set_plod plod (record (next.plods plod) { pending = some subgraph }) next in
    if done
    then record read { compile_queue = read.compile_queue ++ plod ∷ [] }
    else request_discarded plod next

-- One round of the first loop of the compile thread: whether it did a request to delete.
unfoldable pub delete_one : ℕ → Pager → Bool × Pager
delete_one plod pager =
    let (done, next) = compare_exchange plod delete_request deleting pager in
    let released = set_plod plod (record (next.plods plod) { pending = none }) next in
    if done then (true, request_discarded plod released) else (false, next)

-- The first loop: what is left to compile.
unfoldable pub delete_all : List ℕ → Pager → List ℕ × Pager
delete_all [] pager = ([], pager)
delete_all (plod ∷ nodes) pager =
    let (done, next) = delete_one plod pager in
    let (to_compile, last) = delete_all nodes next in
    (if done then to_compile else plod ∷ to_compile, last)

-- Whether the frame is recent and there is a subgraph to compile.
unfoldable pub is_compiled : ℕ → Pager → Bool
is_compiled plod pager =
    leb (frame_delta plod pager) 1
    && elim (pager.plods plod).pending [ none ↦ false | some _ ↦ true ]

-- One round of the second loop: whether the subgraph was compiled.
unfoldable pub compile_one : ℕ → Pager → Bool × Pager
compile_one plod pager =
    let (done, next) = compare_exchange plod compile_request compiling pager in
    if done
    then if is_compiled plod next then (true, next) else (false, request_discarded plod next)
    else (false, next)

-- The second loop: what was compiled.
unfoldable pub compile_all : List ℕ → Pager → List ℕ × Pager
compile_all [] pager = ([], pager)
compile_all (plod ∷ nodes) pager =
    let (done, next) = compile_one plod pager in
    let (compiled, last) = compile_all nodes next in
    (if done then plod ∷ compiled else compiled, last)

-- One round of the last loop, with the semaphore of the CompileTraversal's context.
unfoldable pub finish_one : ℕ → ℕ → Pager → Pager
finish_one semaphore plod pager =
    set_plod plod (record (pager.plods plod) { semaphore = some semaphore; status = merge_request })
      pager

unfoldable pub finish_all : ℕ → List ℕ → Pager → Pager
finish_all semaphore [] pager = pager
finish_all semaphore (plod ∷ nodes) pager =
    finish_all semaphore nodes (finish_one semaphore plod pager)

unfoldable pub finish_compile : ℕ → List ℕ → Pager → Pager
finish_compile semaphore [] pager = pager
finish_compile semaphore (plod ∷ nodes) pager =
    let finished = finish_all semaphore (plod ∷ nodes) pager in
    record finished { to_merge_queue = finished.to_merge_queue ++ plod ∷ nodes }

-- take_all_when_available with a status that is not cancelled.
unfoldable pub take_compile_queue : Pager → List ℕ × Pager
take_compile_queue pager = (pager.compile_queue, record pager { compile_queue = [] })

-- A round of the compile thread, without other threads in between.
unfoldable pub compile_round : ℕ → Pager → Pager
compile_round semaphore pager =
    let (nodes, taken) = take_compile_queue pager in
    let (to_compile, deleted) = delete_all nodes taken in
    let (compiled, last) = compile_all to_compile deleted in finish_compile semaphore compiled last
