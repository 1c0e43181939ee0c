-- ===== src/RecordTraversal.antt =====
-- RecordTraversal of src/vsg/traversals/RecordTraversal.cpp with the stacks of
-- include/vsg/vk/State.h: StateStack, MatrixStack and State. Matrices, bounds and the tests on them
-- are parameters (floating-point arithmetic of include/vsg/maths); what is recorded into the
-- CommandBuffer is a list.
pub mod Traverse
pub mod Device
pub mod Eager
pub mod Sync
pub mod Slots
pub mod Flush
pub mod Keeps
pub mod Commands
pub mod Transform
pub mod Equivalence
pub mod Frame
pub mod Tests
use vsg.Base.{ℕ, zero, suc, Bool, true, false, List, [], ◌∷◌, ◌++◌, ◌==◌, if◌then◌else◌}

-- The stack has its top first; `dirty` is whether the top is to be recorded.
pub record StateStack : Type 0 where
  pub stack : List ℕ
  pub dirty : Bool

unfoldable pub push_command : ℕ → StateStack → StateStack
push_command c s = record { stack = c ∷ s.stack; dirty = true }

-- What is under the top; std::stack::pop() of an empty stack is undefined, and here is empty.
abbrev pub rest : List ℕ → List ℕ
rest [] = []
rest (c ∷ cs) = cs

abbrev pub is_empty : List ℕ → Bool
is_empty [] = true
is_empty (c ∷ cs) = false

unfoldable pub pop_command : StateStack → StateStack
pop_command s = record {
  stack = rest s.stack;
  dirty = if is_empty (rest s.stack) then false else true;
}

-- A MatrixStack is never empty: `top` and what is under it.
pub record MatrixStack (M : Type 0) : Type 0 where
  pub top : M
  pub below : List M
  pub dirty : Bool

-- What is recorded: a state command of a slot, the push constants of the projection or the
-- modelview matrix, and a command that draws. `undefined` stands for top() of an empty stack.
pub data Recorded (M : Type 0) : Type 0 where
  bind : ℕ → ℕ → Recorded M
  push_projection : M → Recorded M
  push_modelview : M → Recorded M
  draw : ℕ → Recorded M
  undefined : Recorded M

-- `num_slots` is stateStacks.size(), and `projected` is the matrix that _frustumProjected is made
-- of.
pub record State (M F : Type 0) : Type 0 where
  pub num_slots : ℕ
  pub stacks : ℕ → StateStack
  pub projection : MatrixStack M
  pub modelview : MatrixStack M
  pub projected : M
  pub frustums : List F
  pub dirty : Bool

module _ {M : Type 0} where
  unfoldable pub set_matrix : M → MatrixStack M → MatrixStack M
  set_matrix m s = record { top = m; below = []; dirty = true }

  unfoldable pub push_matrix : M → MatrixStack M → MatrixStack M
  push_matrix m s = record { top = m; below = s.top ∷ s.below; dirty = true }

  -- pop() of a stack of one matrix leaves it empty, and is not reached.
  unfoldable pub pop_matrix : MatrixStack M → MatrixStack M
  pop_matrix s = elim s.below [
    | [] ↦ record s { dirty = true }
    | m ∷ ms ↦ record { top = m; below = ms; dirty = true }
  ]

  abbrev pub record_top : ℕ → List ℕ → Recorded M
  record_top slot [] = undefined
  record_top slot (c ∷ cs) = bind slot c

  unfoldable pub record_stack : ℕ → StateStack → List (Recorded M) × StateStack
  record_stack slot s =
      if s.dirty then (record_top slot s.stack ∷ [], record s { dirty = false }) else ([], s)

  unfoldable pub record_matrix :
      (M → Recorded M) → MatrixStack M → List (Recorded M) × MatrixStack M
  record_matrix push s = if s.dirty then (push s.top ∷ [], record s { dirty = false }) else ([], s)

module _ {M F : Type 0} where
  unfoldable pub set_stack : ℕ → StateStack → State M F → State M F
  set_stack slot s st = record st { stacks = λ k. if slot == k then s else st.stacks k }

  -- The loop over stateStacks: the slots from `slot` on, `rounds` of them.
  unfoldable pub record_stacks : ℕ → ℕ → State M F → List (Recorded M) × State M F
  record_stacks zero slot st = ([], st)
  record_stacks (suc rounds) slot st =
      let (recorded, s) = record_stack slot (st.stacks slot) in
      let (others, last) = record_stacks rounds (suc slot) (set_stack slot s st) in
      (recorded ++ others, last)

  -- The body of State::record() under if (dirty).
  unfoldable pub record_all : State M F → List (Recorded M) × State M F
  record_all st =
      let (binds, bound) = record_stacks st.num_slots 0 st in
      let (first, projection) = record_matrix push_projection st.projection in
      let (second, modelview) = record_matrix push_modelview st.modelview in
      (
        binds ++ (first ++ second),
        record bound { projection = projection; modelview = modelview; dirty = false },
      )

  unfoldable pub record_state : State M F → List (Recorded M) × State M F
  record_state st = if st.dirty then record_all st else ([], st)
