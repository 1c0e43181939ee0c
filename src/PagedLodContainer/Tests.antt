-- ===== src/PagedLodContainer/Tests.antt =====
-- The theorems at a container of ten elements.
use vsg.Base.Word.{add32}
use vsg.Base.{true, false, ◌↔◌, ◌<◌, ◌++◌, ◌≡◌, refl, arith}
use vsg.PagedLodContainer.{
  Container, init, resize_to, resize_elements, resize_loop, set_element, set_list, set_next, move,
  resize, remove, available, active, inactive, ListName,
}
use vsg.PagedLodContainer.Chain.{occ}
use vsg.PagedLodContainer.Linked.{Queues, put, Linked, length-le-all}
use vsg.PagedLodContainer.Move.{moved, move-moved, move_new-moved}
use vsg.PagedLodContainer.Check.{check, check_list, check_loop, links_match, Row, check_iff}
use vsg.PagedLodContainer.Remove.{Removes, remove-Removes}
use vsg.PagedLodContainer.Resize.{range, no_queues, init-Linked, resize-Linked}

abbrev start : Container
start = init 10

abbrev start_queues : Queues
start_queues = put no_queues available (range 1 10)

start-Linked : Linked start start_queues 0
start-Linked = init-Linked 10 (omega arith)

unused : start.index 77 ≡ 0
unfolding init resize_to resize_elements resize_loop set_element set_list set_next add32
unused = refl

-- The PagedLOD 77 gets element 1.
abbrev used : Container
used = move 77 active start

abbrev used_queues : Queues
used_queues = moved start_queues 1 available active

used-Linked : Linked used used_queues 0
used-Linked = (move_new-moved start start_queues 77 1 (range 2 9) active start-Linked unused refl).0

one : used.index 77 ≡ 1
one = (move_new-moved start start_queues 77 1 (range 2 9) active start-Linked unused refl).1

here : 0 < occ (used.index 77) (used_queues active)
unfolding occ
here = rw one (omega arith)

move-moved_example :
    Linked (move 77 inactive used) (moved used_queues (used.index 77) active inactive) 0
move-moved_example = move-moved used used_queues used-Linked 77 inactive active refl here

resize-Linked_example :
    Linked (resize start) (put start_queues available (range 1 10 ++ range 11 10)) 0
unfolding init resize_to resize_elements resize_loop set_element set_list set_next add32
resize-Linked_example = resize-Linked start start_queues start-Linked (omega arith) (omega arith)

init-Linked_example : Linked (init 4000) (put no_queues available (range 1 4000)) 0
init-Linked_example = init-Linked 4000 (omega arith)

remove-Removes_example : Removes used used_queues 77 active (remove 77 used)
remove-Removes_example = remove-Removes used used_queues used-Linked 77 active refl here

used_counts : (k : ListName) → (used.lists k).count < used.size
used_counts k =
    let below = length-le-all used_queues k in
    omega (arith, below, used-Linked.total, (used-Linked.ends k).2)

check_iff_example : (check used ≡ true) ↔ ((k : ListName) → Row used (used.lists k))
check_iff_example = check_iff used used-Linked.word used_counts

-- A list whose count is wrong does not pass.
miscounted : check_list (record { head = 1; tail = 10; count = 9 }) start ≡ false
unfolding check_list check_loop links_match init resize_to resize_elements resize_loop set_element
    set_list set_next add32
miscounted = refl
