-- ===== src/RecordTraversal/Equivalence.antt =====
-- The recording traversal shows what the specification expects: by induction on the scene graph.
use mathlib.Core.Path.{subst}
use vsg.Base.{ℕ, ◌≡◌, refl, ap, List, [], ◌∷◌, ◌&&◌}
use vsg.RecordTraversal.{State, Recorded}
use vsg.RecordTraversal.Traverse.{
  Node, Nodes, Children, group, lod, paged_lod, cull_group, state_group, matrix_transform, commands,
  command, no_nodes, node, no_children, child, has_node, Geometry, Traversal, push_commands,
  push_transform, in_frustum, is_visible, apply, apply_nodes, apply_children,
}
use vsg.RecordTraversal.Device.{Device, after, shown}
use vsg.RecordTraversal.Eager.{
  Context, Expected, inherit, Matches, transformed, eager, eager_nodes, eager_children,
}
use vsg.RecordTraversal.Sync.{Good}
use vsg.RecordTraversal.Keeps.{
  Of, Keeps, Same-Of, Keeps-nothing, Keeps-append, Keeps-if, apply_commands-Keeps,
}
use vsg.RecordTraversal.Commands.{
  push_commands-Good, pop_commands-Good, push_commands-Of, push_commands-num_slots,
  pop_commands-Same,
}
use vsg.RecordTraversal.Transform.{
  push_transform-Good, pop_transform-Good, push_transform-Of, push_transform-num_slots,
  pop_transform-Same,
}

-- A traversal `r` from `t` records what shows `es`.
abbrev Records :
    {M F : Type 0}
    → Traversal M F
    → Device M
    → List (Recorded M) × Traversal M F
    → List (Expected M F)
    → Type 0
Records t d r es = Keeps t.state d r.0 r.1.state es

module _ {M F : Type 0} (g : Geometry M F) where
  in_frustum-Of :
      (bound : ℕ) (st : State M F) (c : Context M F)
      → Of st c
      → g.intersect c.frustum bound ≡ in_frustum g bound st
  in_frustum-Of bound st c o = ap (λ x. g.intersect x bound) o.frustum_of

  is_visible-Of :
      (bound ratio : ℕ) (st : State M F) (c : Context M F)
      → Of st c
      → g.visible c.projection c.modelview bound ratio ≡ is_visible g bound ratio st
  is_visible-Of bound ratio st c o = rw (o.projection_of, o.modelview_of) refl

  mutual
    unfolding apply eager

    node-Keeps :
        (n : Node M) (t : Traversal M F) (d : Device M) (c : Context M F)
        → Good t.state d
        → Of t.state c
        → Records t d (apply g n t) (eager g n c)
    node-Keeps (group ns) t d c h o = nodes-Keeps ns t d c h o
    node-Keeps (lod bound cs) t d c h o =
        Keeps-if _ _ t.state d (apply_children g bound cs t) ([], t) _ []
          (in_frustum-Of bound t.state c o) (children-Keeps bound cs t d c h o)
          (Keeps-nothing t.state d h)
    node-Keeps (paged_lod plod bound high_ratio high low_ratio low) t d c h o =
        Keeps-if _ _ t.state d _ _ _ [] (in_frustum-Of bound t.state c o)
          (Keeps-if _ _ t.state d _ _ _ _
            (ap (λ b. b && has_node high) (is_visible-Of bound high_ratio t.state c o))
            (nodes-Keeps high _ d c h o)
            (Keeps-if _ _ t.state d _ _ _ [] (is_visible-Of bound low_ratio t.state c o)
              (nodes-Keeps low _ d c h o) (Keeps-nothing t.state d h)))
          (Keeps-nothing t.state d h)
    node-Keeps (cull_group bound ns) t d c h o =
        Keeps-if _ _ t.state d (apply_nodes g ns t) ([], t) _ [] (in_frustum-Of bound t.state c o)
          (nodes-Keeps ns t d c h o) (Keeps-nothing t.state d h)
    node-Keeps (state_group cs ns) t d c h o =
        let st = push_commands cs t.state in
        let r = apply_nodes g ns (record t { state = st }) in
        let inside =
          nodes-Keeps ns (record t { state = st }) d (inherit cs c)
            (push_commands-Good cs t.state d h) (push_commands-Of cs t.state d c h o) in
        record {
          same = pop_commands-Same cs t.state r.1.state d (after r.0 d) h inside.good inside.same;
          good = pop_commands-Good cs r.1.state (after r.0 d) inside.good;
          matches =
              subst (λ k. Matches k (shown r.0 d) (eager_nodes g ns (inherit cs c)))
                (push_commands-num_slots cs t.state d h) inside.matches;
        }
    node-Keeps (matrix_transform m local ns) t d c h o =
        let st = push_transform g m local t.state in
        let r = apply_nodes g ns (record t { state = st }) in
        let inside =
          nodes-Keeps ns (record t { state = st }) d (transformed g m local c)
            (push_transform-Good g m t.state d local h)
            (push_transform-Of g m t.state d local c o) in
        record {
          same = pop_transform-Same g m local t.state r.1.state inside.same;
          good = pop_transform-Good local r.1.state (after r.0 d) inside.good;
          matches =
              subst (λ k. Matches k (shown r.0 d) (eager_nodes g ns (transformed g m local c)))
                (push_transform-num_slots g m t.state d local) inside.matches;
        }
    node-Keeps (commands cs) t d c h o = apply_commands-Keeps cs t.state d c h o
    node-Keeps (command x) t d c h o = apply_commands-Keeps (x ∷ []) t.state d c h o

    nodes-Keeps :
        (ns : Nodes M) (t : Traversal M F) (d : Device M) (c : Context M F)
        → Good t.state d
        → Of t.state c
        → Records t d (apply_nodes g ns t) (eager_nodes g ns c)
    nodes-Keeps no_nodes t d c h o = Keeps-nothing t.state d h
    nodes-Keeps (node n ns) t d c h o =
        let r = apply g n t in
        let first = node-Keeps n t d c h o in
        let r' = apply_nodes g ns r.1 in
        let others = nodes-Keeps ns r.1 (after r.0 d) c first.good (Same-Of first.same o) in
        Keeps-append t.state r.1.state r'.1.state d r.0 r'.0 (eager g n c) (eager_nodes g ns c)
          first others

    children-Keeps :
        (bound : ℕ) (cs : Children M) (t : Traversal M F) (d : Device M) (c : Context M F)
        → Good t.state d
        → Of t.state c
        → Records t d (apply_children g bound cs t) (eager_children g bound cs c)
    children-Keeps bound no_children t d c h o = Keeps-nothing t.state d h
    children-Keeps bound (child ratio n cs) t d c h o =
        Keeps-if _ _ t.state d (apply g n t) (apply_children g bound cs t) _ _
          (is_visible-Of bound ratio t.state c o) (node-Keeps n t d c h o)
          (children-Keeps bound cs t d c h o)

  -- From any state whose dirty flags are true to the device (Good) and whose stacks have the
  -- inherited context on top (Of), a node records the draws that are expected of it, in their
  -- order, each with the innermost state commands, the projection and the modelview matrix bound;
  -- it leaves every stack as it was, and the dirty flags true to the device.
  pub apply-Keeps :
      (n : Node M) (t : Traversal M F) (d : Device M) (c : Context M F)
      → Good t.state d
      → Of t.state c
      → Keeps t.state d (apply g n t).0 (apply g n t).1.state (eager g n c)
  apply-Keeps n t d c h o = node-Keeps n t d c h o
