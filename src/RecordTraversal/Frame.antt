-- ===== src/RecordTraversal/Frame.antt =====
-- One view recorded from the constructor of State on: the matrices of the view, then the scene
-- graph. State::dirty is first set by a StateGroup or a MatrixTransform.
use mathlib.Core.Path.{subst}
use vsg.Base.{ℕ, suc, ◌≡◌, refl, Bool, true, false, none, some, List, [], ◌∷◌}
use vsg.RecordTraversal.{State, Recorded, set_stack, push_command, set_matrix}
use vsg.RecordTraversal.Traverse.{
  StateCommand, Node, group, lod, paged_lod, cull_group, state_group, matrix_transform, commands,
  command, Geometry, Paging, Traversal, set_projection_and_view, push_commands, push_transform,
  apply, set_state,
}
use vsg.RecordTraversal.Device.{Device}
use vsg.RecordTraversal.Eager.{Context, eager}
use vsg.RecordTraversal.Sync.{MatrixGood, Good}
use vsg.RecordTraversal.Keeps.{Of, Keeps}
use vsg.RecordTraversal.Equivalence.{apply-Keeps}

-- State(commandBuffer, maxSlot), where mat4() is `identity` and _frustumProjected is not set yet.
unfoldable pub fresh_state : {M F : Type 0} → M → M → ℕ → State M F
fresh_state identity projected max_slot = record {
  num_slots = suc max_slot;
  stacks = λ k. record { stack = []; dirty = false };
  projection = record { top = identity; below = []; dirty = true };
  modelview = record { top = identity; below = []; dirty = true };
  projected = projected;
  frustums = [];
  dirty = false;
}

-- setProjectionAndViewMatrix, and accept() of the root.
unfoldable pub record_view :
    {M F : Type 0}
    → Geometry M F
    → M
    → M
    → Node M
    → Traversal M F
    → List (Recorded M) × Traversal M F
record_view g proj view root t =
    apply g root (set_state g (set_projection_and_view g proj view t.state) t)

-- The context of the root: no state commands.
unfoldable pub root_context : {M F : Type 0} → Geometry M F → M → M → Context M F
root_context g proj view = record {
  innermost = λ k. none;
  projection = proj;
  modelview = view;
  frustum = some (g.frustum proj view);
}

-- The root sets the state before anything is drawn.
abbrev pub sets_state : {M : Type 0} → Node M → Bool
sets_state (state_group cs ns) = true
sets_state (matrix_transform m local ns) = true
sets_state n = false

module _ {M F : Type 0} (g : Geometry M F) where
  abbrev pub dirtied : State M F → State M F
  dirtied st = record st { dirty = true }

  push_commands-dirtied :
      (cs : List StateCommand) (st : State M F)
      → push_commands cs (dirtied st) ≡ push_commands cs st
  unfolding push_commands set_stack
  push_commands-dirtied [] st = refl
  push_commands-dirtied (c ∷ cs) st =
      push_commands-dirtied cs (set_stack c.slot (push_command c.command (st.stacks c.slot)) st)

  push_transform-dirtied :
      (m : M) (local : Bool) (st : State M F)
      → push_transform g m local (dirtied st) ≡ push_transform g m local st
  unfolding push_transform
  push_transform-dirtied m true st = refl
  push_transform-dirtied m false st = refl

  -- Such a root is recorded as if the state was dirty.
  apply-dirtied :
      (root : Node M) (t : Traversal M F)
      → sets_state root ≡ true
      → apply g root (record t { state = dirtied t.state }) ≡ apply g root t
  unfolding apply
  apply-dirtied (state_group cs ns) t h = rw (push_commands-dirtied cs t.state) refl
  apply-dirtied (matrix_transform m local ns) t h = rw (push_transform-dirtied m local t.state) refl
  apply-dirtied (group ns) t h = cc h
  apply-dirtied (lod bound cs) t h = cc h
  apply-dirtied (paged_lod p b x high y low) t h = cc h
  apply-dirtied (cull_group bound ns) t h = cc h
  apply-dirtied (commands cs) t h = cc h
  apply-dirtied (command c) t h = cc h

  module _ (identity projected proj view : M) (max_slot : ℕ) (paging : Paging) where
    abbrev pub start : State M F
    start = dirtied (set_projection_and_view g proj view (fresh_state identity projected max_slot))

    pub start-Good : (d : Device M) → Good start d
    unfolding set_projection_and_view set_matrix fresh_state MatrixGood
    start-Good d = record {
      stacks_good = λ k. record { full = λ h. cc h; held = λ c h e. cc e };
      projection_good = λ h. cc h;
      modelview_good = λ h. cc h;
      clean = λ h. cc h;
    }

    pub start-Of : Of start (root_context g proj view)
    unfolding set_projection_and_view set_matrix fresh_state root_context
    start-Of = record {
      innermost_of = λ k. refl;
      projection_of = refl;
      modelview_of = refl;
      frustum_of = refl;
      projected_of = refl;
    }

    -- From the constructor on, whatever the device had: of a graph whose root is a StateGroup or a
    -- MatrixTransform exactly the draws are recorded that `eager` expects, in its order, and at each
    -- the device has the innermost state command of each slot, the projection and the modelview
    -- matrix of its context; the stacks are left as they were after setProjectionAndViewMatrix, and
    -- the dirty flags true to the device.
    pub record_view-Keeps :
        (root : Node M) (d : Device M)
        → sets_state root ≡ true
        → Keeps start d
            (record_view g proj view root
              (record { state = fresh_state identity projected max_slot; paging = paging })).0
            (record_view g proj view root
              (record { state = fresh_state identity projected max_slot; paging = paging })).1.state
            (eager g root (root_context g proj view))
    unfolding record_view
    record_view-Keeps root d h =
        let t : Traversal M F = record {
          state = set_projection_and_view g proj view (fresh_state identity projected max_slot);
          paging = paging;
        } in
        subst (λ r. Keeps start d r.0 r.1.state (eager g root (root_context g proj view)))
          (apply-dirtied root t h)
          (apply-Keeps g root (record { state = start; paging = paging }) d
            (root_context g proj view) (start-Good d) start-Of)
