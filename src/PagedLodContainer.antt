-- ===== src/PagedLodContainer.antt =====
-- PagedLODContainer of include/vsg/nodes/PagedLOD.h and src/vsg/nodes/PagedLOD.cpp: three doubly
-- linked lists through the elements of one vector. Indices and counts are uint32_t.
pub mod Chain
pub mod Linked
pub mod Move
pub mod Resize
pub mod Check
pub mod Remove
mod Tests
use vsg.Base.{
  ℕ, zero, suc, ◌+◌, ◌-◌, ◌≡◌, Bool, true, false, Option, none, some, ◌&&◌, ltb, ◌==◌,
  if◌then◌else◌,
}
use vsg.Base.Word.{add32, sub32, mul32}

pub data ListName : Type 0 where
  available active inactive : ListName

abbrev pub same : ListName → ListName → Bool
same available available = true
same active active = true
same inactive inactive = true
same _ _ = false

pub record IndexList : Type 0 where
  pub head : ℕ
  pub tail : ℕ
  pub count : ℕ

-- `plod` is the address of a PagedLOD, 0 for none; `list` is none for the null pointer.
pub record Element : Type 0 where
  pub previous : ℕ
  pub next : ℕ
  pub plod : ℕ
  pub list : Option ListName

-- `size` is elements.size(); `index` is the field of that name of each PagedLOD.
pub record Container : Type 0 where
  pub size : ℕ
  pub elements : ℕ → Element
  pub lists : ListName → IndexList
  pub index : ℕ → ℕ

abbrev pub update {ℓ} : {A : Type ℓ} → (ℕ → A) → ℕ → A → ℕ → A
update f i v j = if j == i then v else f j

abbrev pub default_element : Element
default_element = record { previous = 0; next = 0; plod = 0; list = none }

unfoldable pub set_next : ℕ → ℕ → Container → Container
set_next i next c = record c {
  elements = update c.elements i (record (c.elements i) { next = next });
}

unfoldable pub set_previous : ℕ → ℕ → Container → Container
set_previous i previous c = record c {
  elements = update c.elements i (record (c.elements i) { previous = previous });
}

unfoldable pub set_list : ListName → IndexList → Container → Container
set_list name l c = record c { lists = λ k. if same k name then l else c.lists k }

-- One new element of the list of available elements in the loop of `resize`.
unfoldable pub set_element : ℕ → ℕ → ℕ → Container → Container
set_element i previous next c = record c {
  elements =
      update c.elements i
        (record (c.elements i) { previous = previous; next = next; list = some available });
}

-- for (; i < new_size; ++i), by the rounds that are left, and the element behind it.
unfoldable pub resize_loop : ℕ → ℕ → ℕ → Container → Container
resize_loop zero i previous c = set_element i previous 0 c
resize_loop (suc rounds) i previous c =
    resize_loop rounds (suc i) i (set_element i previous (suc i) c)

-- elements.resize: what is added is a default element.
unfoldable pub resize_elements : ℕ → Container → Container
resize_elements new_size c = record c {
  size = new_size;
  elements = λ i. if ltb i c.size then c.elements i else default_element;
}

unfoldable pub resize_to : ℕ → Container → Container
resize_to new_size c =
    let original_size = c.size - 1 in
    let i = add32 1 original_size in
    let l = c.lists available in
    let c' = resize_elements (add32 new_size 1) c in
    let c'' = if ltb 0 l.tail then set_next l.tail i c' else c' in
    let c''' = resize_loop (new_size - i) i l.tail c'' in
    set_list available
      (record {
        head = if l.head == 0 then i else l.head;
        tail = i + (new_size - i);
        count = add32 l.count (sub32 new_size original_size);
      })
      c'''

unfoldable pub resize : Container → Container
resize c = resize_to (mul32 (c.size - 1) 2) c

-- The vector with the null element, and max(maxNumPagedLOD, 10) available ones.
unfoldable pub init : ℕ → Container
init max_num = resize_to (if ltb max_num 10 then 10 else max_num) (record {
  size = 1;
  elements = λ _. default_element;
  lists = λ _. record { head = 0; tail = 0; count = 0 };
  index = λ _. 0;
})

-- Appends element `i`, with `plod`, to the list `target`.
unfoldable pub append : ℕ → ℕ → ListName → Container → Container
append i plod target c =
    let l = c.lists target in
    let c' = if ltb 0 l.tail then set_next l.tail i c else c in
    let c'' = record c' {
      elements =
          update c'.elements i
            (record { previous = l.tail; next = 0; plod = plod; list = some target });
    } in
    set_list target
      (record { head = if l.head == 0 then i else l.head; tail = i; count = add32 l.count 1 }) c''

-- Takes the first available element.
unfoldable pub take_first : ℕ → Container → Container
take_first i c =
    let l = c.lists available in
    let element = c.elements i in
    let ends =
      if l.head == l.tail
      then record { head = 0; tail = 0; count = sub32 l.count 1 }
      else record { head = element.next; tail = l.tail; count = sub32 l.count 1 } in
    let c' = set_list available ends c in
    if ltb 0 element.next then set_previous element.next 0 c' else c'

-- The branch of `_move` for a PagedLOD with no element.
unfoldable pub move_new : ℕ → ListName → Container → Container
move_new plod target c =
    let c' = if (c.lists available).head == 0 then resize c else c in
    let i = (c'.lists available).head in
    let c'' = append i plod target (take_first i c') in
    record c'' { index = update c''.index plod i }

-- Takes element `i` out of the list `source`.
unfoldable pub unlink : ℕ → ListName → Container → Container
unlink i source c =
    let element = c.elements i in
    let c' = if ltb 0 element.previous then set_next element.previous element.next c else c in
    let c'' = if ltb 0 element.next then set_previous element.next element.previous c' else c' in
    let l = c.lists source in
    set_list source
      (record {
        head = if l.head == i then element.next else l.head;
        tail = if l.tail == i then element.previous else l.tail;
        count = sub32 l.count 1;
      })
      c''

-- The branch of `_move` for a PagedLOD with an element. A null list is not dereferenced.
unfoldable pub move_linked : ℕ → ListName → Container → Container
move_linked i target c = elim (c.elements i).list [
  | none ↦ c
  | some source ↦
      if same source target then c else append i (c.elements i).plod target (unlink i source c)
]

unfoldable pub move : ℕ → ListName → Container → Container
move plod target c =
    if c.index plod == 0 then move_new plod target c else move_linked (c.index plod) target c

unfoldable pub activate : ℕ → Container → Container
activate plod c = move plod active c

unfoldable pub inactivate : ℕ → Container → Container
inactivate plod c = move plod inactive c

unfoldable pub remove : ℕ → Container → Container
remove plod c =
    if c.index plod == 0
    then c
    else let c' = move plod available c in
      let i = c'.index plod in
      record c' {
        elements = update c'.elements i (record (c'.elements i) { plod = 0 });
        index = update c'.index plod 0;
      }
