-- ===== src/RecordTraversal/Tests.antt =====
-- Tests and the theorems at a small scene graph, over matrices that are numbers.
use vsg.Base.{ℕ, ◌+◌, ◌≡◌, refl, true, false, none, some, [], ◌∷◌, ltb}
use vsg.RecordTraversal.{
  bind, push_projection, push_modelview, draw, record_stack, record_matrix, record_stacks,
  record_all, record_state, push_command, pop_command, push_matrix, pop_matrix, set_matrix,
  set_stack,
}
use vsg.RecordTraversal.Traverse.{
  Node, cull_group, state_group, matrix_transform, commands, command, no_nodes, node, Geometry,
  Paging, Traversal, set_projection_and_view, push_commands, pop_commands, push_transform,
  pop_transform, apply, apply_commands, draws,
}
use vsg.RecordTraversal.Device.{Device}
use vsg.RecordTraversal.Eager.{eager}
use vsg.RecordTraversal.Flush.{Flushes, record_state-Flushes}
use vsg.RecordTraversal.Keeps.{Keeps}
use vsg.RecordTraversal.Equivalence.{apply-Keeps}
use vsg.RecordTraversal.Frame.{
  fresh_state, record_view, root_context, start, start-Good, start-Of, record_view-Keeps,
}

-- A bound is in the frustum when it is below it.
abbrev numbers : Geometry ℕ ℕ
numbers = record {
  mul = λ a b. a + b;
  frustum = λ p m. p + m;
  intersect = λ f bound. elim f [ none ↦ false | some x ↦ ltb bound x ];
  visible = λ p m bound ratio. ltb ratio bound;
}

abbrev no_pager : Paging
no_pager = record {
  has_pager = false;
  frame_count = 1;
  last_used = λ k. 0;
  request_count = λ k. 0;
  highres_culled = [];
  new_highres_required = [];
  requested = [];
}

abbrev fresh : Traversal ℕ ℕ
fresh = record { state = fresh_state 0 0 1; paging = no_pager }

-- A pipeline 50 in slot 0; below it a draw 7 under a transform, one that is culled, and a draw 8.
abbrev scene : Node ℕ
scene = state_group (record { slot = 0; command = 50 } ∷ []) (
    node (matrix_transform 3 true (node (command 7) no_nodes))
      (node (cull_group 900 (node (command 9) no_nodes)) (node (commands (8 ∷ [])) no_nodes)))

-- The pipeline is bound once.
scene_recorded :
    (record_view numbers 100 20 scene fresh).0
    ≡ bind 0 50 ∷ push_projection 100 ∷ push_modelview 23 ∷ draw 7 ∷ push_modelview 20 ∷ draw 8 ∷ []
unfolding record_view fresh_state set_projection_and_view set_matrix apply push_commands
    pop_commands push_command pop_command set_stack push_transform pop_transform push_matrix
    pop_matrix apply_commands draws record_state record_all record_stacks record_stack record_matrix
scene_recorded = refl

-- A draw that is the root has no matrices: setProjectionAndViewMatrix leaves State::dirty as it was.
bare_recorded : (record_view numbers 100 20 (command 7) fresh).0 ≡ draw 7 ∷ []
unfolding record_view fresh_state set_projection_and_view set_matrix apply apply_commands draws
    record_state
bare_recorded = refl

abbrev empty_device : Device ℕ
empty_device = record { bound = λ k. none; projection = none; modelview = none }

record_view-Keeps_example :
    Keeps
      (start numbers 0 0 100 20 1 no_pager)
      empty_device
      (record_view numbers 100 20 scene fresh).0
      (record_view numbers 100 20 scene fresh).1.state
      (eager numbers scene (root_context numbers 100 20))
record_view-Keeps_example = record_view-Keeps numbers 0 0 100 20 1 no_pager scene empty_device refl

abbrev started : Traversal ℕ ℕ
started = record { state = start numbers 0 0 100 20 1 no_pager; paging = no_pager }

apply-Keeps_example :
    Keeps started.state empty_device
      (apply numbers scene started).0
      (apply numbers scene started).1.state
      (eager numbers scene (root_context numbers 100 20))
apply-Keeps_example =
    apply-Keeps numbers scene started empty_device (root_context numbers 100 20)
      (start-Good numbers 0 0 100 20 1 no_pager empty_device)
      (start-Of numbers 0 0 100 20 1 no_pager)

record_state-Flushes_example : Flushes started.state empty_device (record_state started.state)
record_state-Flushes_example =
    record_state-Flushes started.state empty_device
      (start-Good numbers 0 0 100 20 1 no_pager empty_device)
