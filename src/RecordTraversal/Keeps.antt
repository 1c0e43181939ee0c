-- ===== src/RecordTraversal/Keeps.antt =====
-- What a step of the traversal keeps, and how such steps compose.
use mathlib.Core.Path.{subst}
use vsg.Base.{
  ℕ, ◌≡◌, refl, sym, ap, ◌∙◌, Bool, true, false, some, List, [], ◌∷◌, ◌++◌, head?, if◌then◌else◌,
}
use vsg.RecordTraversal.{State, Recorded, record_state}
use vsg.RecordTraversal.Traverse.{Traversal, draws, apply_commands}
use vsg.RecordTraversal.Device.{Device, run, after, shown, after-append, shown-append}
use vsg.RecordTraversal.Eager.{Context, Expected, Shows, Matches, Matches-append, expect_all}
use vsg.RecordTraversal.Sync.{Synced, Good, Same, Same_refl, Same_trans}
use vsg.RecordTraversal.Flush.{record_state-Flushes}

-- The context is what is on top of the stacks.
pub record Of {M F : Type 0} (st : State M F) (c : Context M F) : Type 0 where
  pub innermost_of : (k : ℕ) → c.innermost k ≡ head? (st.stacks k).stack
  pub projection_of : c.projection ≡ st.projection.top
  pub modelview_of : c.modelview ≡ st.modelview.top
  pub frustum_of : c.frustum ≡ head? st.frustums
  pub projected_of : st.projected ≡ st.projection.top

-- What is recorded from `st` and leaves `st'` shows the draws that are expected.
pub record Keeps {M F : Type 0} (st : State M F) (d : Device M) (r : List (Recorded M))
    (st' : State M F) (es : List (Expected M F)) : Type 0 where
  pub same : Same st' st
  pub good : Good st' (after r d)
  pub matches : Matches st.num_slots (shown r d) es

module _ {M F : Type 0} where
  pub Same-Of : {st' st : State M F} {c : Context M F} → Same st' st → Of st c → Of st' c
  Same-Of s o = record {
    innermost_of = λ k. o.innermost_of k ∙ ap head? (sym (s.stacks_same k));
    projection_of = o.projection_of ∙ sym s.projection_same;
    modelview_of = o.modelview_of ∙ sym s.modelview_same;
    frustum_of = o.frustum_of ∙ ap head? (sym s.frustums_same);
    projected_of = s.projected_same ∙ (o.projected_of ∙ sym s.projection_same);
  }

  pub Keeps-nothing : (st : State M F) (d : Device M) → Good st d → Keeps st d [] st []
  unfolding run
  Keeps-nothing st d g = record { same = Same_refl st; good = g; matches = _ }

  pub Keeps-append :
      (st st' st'' : State M F) (d : Device M) (r r' : List (Recorded M))
      (es es' : List (Expected M F))
      → Keeps st d r st' es
      → Keeps st' (after r d) r' st'' es'
      → Keeps st d (r ++ r') st'' (es ++ es')
  Keeps-append st st' st'' d r r' es es' h k = record {
    same = Same_trans k.same h.same;
    good = rw (after-append r r' d) k.good;
    matches = rw (shown-append r r' d) (
        Matches-append st.num_slots (shown r d) (shown r' (after r d)) es es' h.matches
          (subst (λ n. Matches n (shown r' (after r d)) es') h.same.num_slots_same k.matches));
  }

  -- A test of the traversal that the specification makes too.
  pub Keeps-if :
      (b b' : Bool) (st : State M F) (d : Device M) (x y : List (Recorded M) × Traversal M F)
      (es es' : List (Expected M F))
      → b' ≡ b
      → Keeps st d x.0 x.1.state es
      → Keeps st d y.0 y.1.state es'
      → Keeps st d (if b then x else y).0 (if b then x else y).1.state (if b' then es else es')
  Keeps-if true true st d x y es es' e h k = h
  Keeps-if false false st d x y es es' e h k = k
  Keeps-if true false st d x y es es' e h k = cc e
  Keeps-if false true st d x y es es' e h k = cc e

  Synced-Shows :
      (st : State M F) (d : Device M) (c : Context M F)
      → Synced st d
      → Of st c
      → Shows st.num_slots d c
  Synced-Shows st d c s o = (
    λ k x l e. s.slots k x l (sym (o.innermost_of k) ∙ e),
    s.projections ∙ ap some (sym o.projection_of),
    s.modelviews ∙ ap some (sym o.modelview_of),
  )

  draws-Keeps :
      (cs : List ℕ) (st : State M F) (d : Device M) (c : Context M F)
      → Good st d
      → Synced st d
      → Of st c
      → Keeps st d (draws cs) st (expect_all cs c)
  unfolding draws run
  draws-Keeps [] st d c g s o = Keeps-nothing st d g
  draws-Keeps (x ∷ cs) st d c g s o =
      let k = draws-Keeps cs st d c g s o in
      record {
        same = k.same;
        good = k.good;
        matches = (refl, (Synced-Shows st d c s o, k.matches));
      }

  pub apply_commands-Keeps :
      (cs : List ℕ) (st : State M F) (d : Device M) (c : Context M F)
      → Good st d
      → Of st c
      → Keeps st d (apply_commands cs st).0 (apply_commands cs st).1 (expect_all cs c)
  unfolding apply_commands
  apply_commands-Keeps cs st d c g o =
      let f = record_state-Flushes st d g in
      let r = record_state st in
      Keeps-append st r.1 r.1 d r.0 (draws cs) [] (expect_all cs c)
        (record { same = f.same; good = f.good; matches = rw f.nothing _ })
        (draws-Keeps cs r.1 (after r.0 d) c f.good f.synced (Same-Of f.same o))
