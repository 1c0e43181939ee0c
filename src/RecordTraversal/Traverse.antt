-- ===== src/RecordTraversal/Traverse.antt =====
-- The apply methods of RecordTraversal over a scene graph. What the traversal reads of the graph is
-- in its data; the tests on the floating-point matrices are parameters.
use vsg.Base.{
  ℕ, Bool, true, false, Option, List, [], ◌∷◌, ◌++◌, head?, ◌&&◌, ltb, leb, ◌==◌, if◌then◌else◌,
}
use vsg.Base.Word.{sub64, add32}
use vsg.RecordTraversal.{
  push_command, pop_command, Recorded, draw, State, set_matrix, push_matrix, pop_matrix, set_stack,
  record_state,
}

-- A StateCommand with its getSlot(). A bound is the address of a bounding sphere, and a ratio that
-- of a minimumScreenHeightRatio.
pub record StateCommand : Type 0 where
  pub slot : ℕ
  pub command : ℕ

-- The nodes that RecordTraversal distinguishes; `group` is also QuadGroup, and any object whose
-- traverse() visits its children; a CullNode is a `cull_group` of one child. A command whose slot is
-- not below num_slots is undefined in the source; here its stack is kept and never recorded. A PagedLOD has the address `plod`, and each of its two children
-- may be null, `nodes` or `node` of one element.
mutual
  pub data Node (M : Type 0) : Type 0 where
    group : Nodes M → Node M
    lod : ℕ → Children M → Node M
    paged_lod : ℕ → ℕ → ℕ → Nodes M → ℕ → Nodes M → Node M
    cull_group : ℕ → Nodes M → Node M
    state_group : List StateCommand → Nodes M → Node M
    matrix_transform : M → Bool → Nodes M → Node M
    commands : List ℕ → Node M
    command : ℕ → Node M

  pub data Nodes (M : Type 0) : Type 0 where
    no_nodes : Nodes M
    node : Node M → Nodes M → Nodes M

  -- The children of a LOD, each with its ratio.
  pub data Children (M : Type 0) : Type 0 where
    no_children : Children M
    child : ℕ → Node M → Children M → Children M

abbrev pub has_node : {M : Type 0} → Nodes M → Bool
has_node no_nodes = false
has_node (node n ns) = true

-- What the traversal tells the DatabasePager: of each PagedLOD frameHighResLastUsed and
-- requestCount, the two lists of CulledPagedLODs, and the calls of request(). Without a
-- DatabasePager there is no CulledPagedLODs either. The priority of a request is left out.
pub record Paging : Type 0 where
  pub has_pager : Bool
  pub frame_count : ℕ
  pub last_used : ℕ → ℕ
  pub request_count : ℕ → ℕ
  pub highres_culled : List ℕ
  pub new_highres_required : List ℕ
  pub requested : List ℕ

abbrev pub set_at : (ℕ → ℕ) → ℕ → ℕ → ℕ → ℕ
set_at f i v k = if i == k then v else f k

-- A PagedLOD outside the frustum.
unfoldable pub cull_plod : ℕ → Paging → Paging
cull_plod plod p =
    if ltb 1 (sub64 p.frame_count (p.last_used plod)) && p.has_pager
    then record p { highres_culled = p.highres_culled ++ plod ∷ [] }
    else p

-- One whose high resolution child is too small.
unfoldable pub drop_plod : ℕ → Paging → Paging
drop_plod plod p =
    if p.has_pager && leb (sub64 p.frame_count (p.last_used plod)) 1
    then record p { highres_culled = p.highres_culled ++ plod ∷ [] }
    else p

-- One whose high resolution child is large enough.
unfoldable pub use_plod : ℕ → Paging → Paging
use_plod plod p =
    let used = record p { last_used = set_at p.last_used plod p.frame_count } in
    if p.has_pager && ltb 1 (sub64 p.frame_count (p.last_used plod))
    then record used { new_highres_required = used.new_highres_required ++ plod ∷ [] }
    else used

-- And whose child is not there yet.
unfoldable pub request_plod : ℕ → Paging → Paging
request_plod plod p =
    let counted = record p {
      request_count = set_at p.request_count plod (add32 (p.request_count plod) 1);
    } in
    let asked =
      if p.request_count plod == 0
      then record counted { requested = counted.requested ++ plod ∷ [] }
      else counted in
    if p.has_pager then asked else p

pub record Traversal (M F : Type 0) : Type 0 where
  pub state : State M F
  pub paging : Paging

-- Command::record of each command, after State::record().
unfoldable pub draws : {M : Type 0} → List ℕ → List (Recorded M)
draws [] = []
draws (c ∷ cs) = draw c ∷ draws cs

abbrev pub pop_frustum : {F : Type 0} → List F → List F
pop_frustum [] = []
pop_frustum (f ∷ fs) = fs

module _ {M F : Type 0} where
  unfoldable pub push_commands : List StateCommand → State M F → State M F
  push_commands [] st = record st { dirty = true }
  push_commands (c ∷ cs) st =
      push_commands cs (set_stack c.slot (push_command c.command (st.stacks c.slot)) st)

  unfoldable pub pop_commands : List StateCommand → State M F → State M F
  pop_commands [] st = record st { dirty = true }
  pop_commands (c ∷ cs) st = pop_commands cs (set_stack c.slot (pop_command (st.stacks c.slot)) st)

  unfoldable pub pop_transform : Bool → State M F → State M F
  pop_transform local st =
      let popped = record st { modelview = pop_matrix st.modelview; dirty = true } in
      if local then record popped { frustums = pop_frustum popped.frustums } else popped

  unfoldable pub apply_commands : List ℕ → State M F → List (Recorded M) × State M F
  apply_commands cs st = let (recorded, st') = record_state st in (recorded ++ draws cs, st')

-- `mul` is the product of matrices; `frustum` makes the planes from the projection and the
-- modelview matrix; `intersect` is whether a bound is in the frustum on top; `visible` compares the
-- size of a bound on the screen to a ratio, by the projection and the modelview matrix.
pub record Geometry (M F : Type 0) : Type 0 where
  pub mul : M → M → M
  pub frustum : M → M → F
  pub intersect : Option F → ℕ → Bool
  pub visible : M → M → ℕ → ℕ → Bool

module _ {M F : Type 0} (g : Geometry M F) where
  unfoldable pub push_transform : M → Bool → State M F → State M F
  push_transform m local st =
      let mv = g.mul st.modelview.top m in
      let pushed = record st { modelview = push_matrix mv st.modelview; dirty = true } in
      if local
      then record pushed { frustums = g.frustum st.projected mv ∷ pushed.frustums }
      else pushed

  unfoldable pub set_projection_and_view : M → M → State M F → State M F
  set_projection_and_view proj view st = record st {
    projection = set_matrix proj st.projection;
    projected = proj;
    modelview = set_matrix view st.modelview;
    frustums = g.frustum proj view ∷ [];
  }

  abbrev pub set_state : State M F → Traversal M F → Traversal M F
  set_state st t = record t { state = st }

  abbrev pub set_paging : (Paging → Paging) → Traversal M F → Traversal M F
  set_paging f t = record t { paging = f t.paging }

  abbrev pub in_frustum : ℕ → State M F → Bool
  in_frustum bound st = g.intersect (head? st.frustums) bound

  abbrev pub is_visible : ℕ → ℕ → State M F → Bool
  is_visible bound ratio st = g.visible st.projection.top st.modelview.top bound ratio

  unfoldable mutual
    unfolding push_transform

    pub apply : Node M → Traversal M F → List (Recorded M) × Traversal M F
    apply (group ns) t = apply_nodes ns t
    apply (lod bound children) t =
        let inside = apply_children bound children t in
        if in_frustum bound t.state then inside else ([], t)
    apply (paged_lod plod bound high_ratio high low_ratio low) t =
        let culled = set_paging (cull_plod plod) t in
        let used = set_paging (use_plod plod) t in
        let high_res = apply_nodes high used in
        let waiting =
          set_paging
            (λ p.
              if is_visible bound high_ratio t.state
              then request_plod plod (use_plod plod p)
              else drop_plod plod p)
            t in
        let low_res = apply_nodes low waiting in
        if in_frustum bound t.state
        then if is_visible bound high_ratio t.state && has_node high
          then high_res
          else if is_visible bound low_ratio t.state
          then low_res
          else ([], waiting)
        else ([], culled)
    apply (cull_group bound ns) t =
        let inside = apply_nodes ns t in if in_frustum bound t.state then inside else ([], t)
    apply (state_group cs ns) t =
        let (recorded, t') = apply_nodes ns (set_state (push_commands cs t.state) t) in
        (recorded, set_state (pop_commands cs t'.state) t')
    apply (matrix_transform m local ns) t =
        let (recorded, t') = apply_nodes ns (set_state (push_transform m local t.state) t) in
        (recorded, set_state (pop_transform local t'.state) t')
    apply (commands cs) t =
        let (recorded, st) = apply_commands cs t.state in (recorded, set_state st t)
    apply (command c) t =
        let (recorded, st) = apply_commands (c ∷ []) t.state in (recorded, set_state st t)

    pub apply_nodes : Nodes M → Traversal M F → List (Recorded M) × Traversal M F
    apply_nodes no_nodes t = ([], t)
    apply_nodes (node n ns) t =
        let (first, t') = apply n t in
        let (others, t'') = apply_nodes ns t' in (first ++ others, t'')

    -- The first child that is large enough.
    pub apply_children : ℕ → Children M → Traversal M F → List (Recorded M) × Traversal M F
    apply_children bound no_children t = ([], t)
    apply_children bound (child ratio n cs) t =
        let this = apply n t in
        let next = apply_children bound cs t in
        if is_visible bound ratio t.state then this else next
