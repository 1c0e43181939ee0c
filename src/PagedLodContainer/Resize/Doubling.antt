-- ===== src/PagedLodContainer/Resize/Doubling.antt =====
-- The constructor and `resize()`, which calls `resize` with twice the number of elements.
use mathlib.Core.Path.{subst}
use vsg.Base.{ℕ, suc, ◌+◌, ◌-◌, ◌*◌, ◌≤◌, ◌<◌, ◌^◌, ◌≡◌, refl, [], ◌++◌, arith, ltb, if◌then◌else◌}
use vsg.Base.Word.{mul32_exact}
use vsg.PagedLodContainer.{available, Container, default_element, resize_to, resize, init}
use vsg.PagedLodContainer.Chain.{occ}
use vsg.PagedLodContainer.Linked.{Queues, put, Linked}
use vsg.PagedLodContainer.Resize.Loop.{range}
use vsg.PagedLodContainer.Resize.Whole.{resize_to-Linked}

abbrev pub no_queues : Queues
no_queues k = []

bare-Linked :
    Linked
      (record {
        size = 1;
        elements = λ _. default_element;
        lists = λ _. record { head = 0; tail = 0; count = 0 };
        index = λ _. 0;
      })
      no_queues
      0
unfolding occ
bare-Linked = record {
  ends = λ k. (refl, refl, refl);
  chains = λ k. tt;
  once = λ i. ground arith;
  total = refl;
  word = omega arith;
}

-- The constructor's container is linked: all its elements, ten at least, are available, in order.
-- Their number is below 2^32 - 1.
pub init-Linked :
    (max_num : ℕ)
    → max_num + 1 < 2 ^ 32
    → Linked
        (init max_num)
        (put no_queues available (range 1 (if ltb max_num 10 then 10 else max_num)))
        0
unfolding init
init-Linked max_num h =
    let n : ℕ = if ltb max_num 10 then 10 else max_num in
    let large : 10 ≤ n = ground arith in
    let small : n + 1 < 2 ^ 32 = ground arith in
    let e : suc (n - 1) ≡ n = omega arith in
    subst (λ k. Linked (init max_num) (put no_queues available (range 1 k)) 0) e
      (resize_to-Linked _ no_queues bare-Linked n (omega arith) (omega arith) small)

-- `resize()` of a linked container that has an element doubles the number of elements, appends the
-- new ones to the available list in order and keeps the container linked, as long as the elements
-- are fewer than 2^32 then.
pub resize-Linked :
    (c : Container) (q : Queues)
    → Linked c q 0
    → 1 < c.size
    → (c.size - 1) * 2 + 1 < 2 ^ 32
    → Linked (resize c) (put q available (q available ++ range c.size (c.size - 1))) 0
unfolding resize
resize-Linked c q l some_element word =
    let e : suc ((c.size - 1) * 2 - c.size) ≡ c.size - 1 = omega arith in
    rw (mul32_exact (c.size - 1) 2 (omega arith)) (
      subst
        (λ k.
          Linked (resize_to ((c.size - 1) * 2) c) (put q available (q available ++ range c.size k))
            0)
        e (resize_to-Linked c q l ((c.size - 1) * 2) (omega arith) (omega arith) word))
