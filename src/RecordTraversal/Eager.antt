-- ===== src/RecordTraversal/Eager.antt =====
-- The specification: what is drawn, and with which state, without stacks and dirty flags. A draw
-- has the innermost state command of each slot and the product of the matrices on the way to it.
use vsg.Base.{ℕ, ◌≡◌, Bool, Option, some, List, [], ◌∷◌, ◌++◌, ◌&&◌, ◌<◌, ◌==◌, if◌then◌else◌}
use vsg.RecordTraversal.Traverse.{
  StateCommand, Node, Nodes, Children, group, lod, paged_lod, cull_group, state_group,
  matrix_transform, commands, command, no_nodes, node, no_children, child, has_node, Geometry,
}
use vsg.RecordTraversal.Device.{Device, Drawn, drawn, fault}

-- What a node inherits.
pub record Context (M F : Type 0) : Type 0 where
  pub innermost : ℕ → Option ℕ
  pub projection : M
  pub modelview : M
  pub frustum : Option F

-- A draw command and its context.
pub record Expected (M F : Type 0) : Type 0 where
  pub command : ℕ
  pub context : Context M F

module _ {M F : Type 0} where
  abbrev pub inherit : List StateCommand → Context M F → Context M F
  inherit [] c = c
  inherit (s ∷ ss) c =
      inherit ss
        (record c { innermost = λ k. if s.slot == k then some s.command else c.innermost k })

  abbrev pub expect_all : List ℕ → Context M F → List (Expected M F)
  expect_all [] c = []
  expect_all (d ∷ ds) c = record { command = d; context = c } ∷ expect_all ds c

  -- The device shows a draw as expected: the commands and the matrices of its context are bound.
  abbrev pub Shows : ℕ → Device M → Context M F → Type 0
  Shows num_slots d c =
      ((slot : ℕ) (s : ℕ) → slot < num_slots → c.innermost slot ≡ some s → d.bound slot ≡ some s)
      × (d.projection ≡ some c.projection)
      × (d.modelview ≡ some c.modelview)

  abbrev pub Matches : ℕ → List (Drawn M) → List (Expected M F) → Type 0
  Matches n [] [] = Unit
  Matches n (drawn c d ∷ ds) (e ∷ es) = (c ≡ e.command) × (Shows n d e.context × Matches n ds es)
  Matches n _ _ = ⊥

module _ {M F : Type 0} (g : Geometry M F) where
  abbrev pub transformed : M → Bool → Context M F → Context M F
  transformed m local c =
      let mv = g.mul c.modelview m in
      record c {
        modelview = mv;
        frustum = if local then some (g.frustum c.projection mv) else c.frustum;
      }

  abbrev inside : Context M F → ℕ → Bool
  inside c bound = g.intersect c.frustum bound

  abbrev large : Context M F → ℕ → ℕ → Bool
  large c bound ratio = g.visible c.projection c.modelview bound ratio

  unfoldable mutual
    pub eager : Node M → Context M F → List (Expected M F)
    eager (group ns) c = eager_nodes ns c
    eager (lod bound cs) c =
        let drawn_inside = eager_children bound cs c in if inside c bound then drawn_inside else []
    eager (paged_lod plod bound high_ratio high low_ratio low) c =
        let high_res = eager_nodes high c in
        let low_res = eager_nodes low c in
        if inside c bound
        then if large c bound high_ratio && has_node high
          then high_res
          else if large c bound low_ratio
          then low_res
          else []
        else []
    eager (cull_group bound ns) c =
        let drawn_inside = eager_nodes ns c in if inside c bound then drawn_inside else []
    eager (state_group cs ns) c = eager_nodes ns (inherit cs c)
    eager (matrix_transform m local ns) c = eager_nodes ns (transformed m local c)
    eager (commands cs) c = expect_all cs c
    eager (command d) c = expect_all (d ∷ []) c

    pub eager_nodes : Nodes M → Context M F → List (Expected M F)
    eager_nodes no_nodes c = []
    eager_nodes (node n ns) c = eager n c ++ eager_nodes ns c

    pub eager_children : ℕ → Children M → Context M F → List (Expected M F)
    eager_children bound no_children c = []
    eager_children bound (child ratio n cs) c =
        let this = eager n c in
        let further = eager_children bound cs c in if large c bound ratio then this else further

module _ {M F : Type 0} where
  pub Matches-append :
      (n : ℕ) (ds ds' : List (Drawn M)) (es es' : List (Expected M F))
      → Matches n ds es
      → Matches n ds' es'
      → Matches n (ds ++ ds') (es ++ es')
  Matches-append n [] ds' [] es' h k = k
  Matches-append n (drawn c d ∷ ds) ds' (e ∷ es) es' h k =
      (h.0, (h.1.0, Matches-append n ds ds' es es' h.1.1 k))
  Matches-append n [] ds' (e ∷ es) es' h k = absurd h
  Matches-append n (drawn c d ∷ ds) ds' [] es' h k = absurd h
  Matches-append n (fault ∷ ds) ds' [] es' h k = absurd h
  Matches-append n (fault ∷ ds) ds' (e ∷ es) es' h k = absurd h
