-- ===== src/RecordTraversal/Transform.antt =====
-- A MatrixTransform: the modelview matrix and the frustum that are pushed before its children and
-- popped after them; and the matrices of the view.
use vsg.Base.{◌≡◌, refl, ap, Bool, true, false, some, List, [], ◌∷◌, head?}
use vsg.RecordTraversal.{MatrixStack, State, push_matrix, pop_matrix, set_matrix}
use vsg.RecordTraversal.Traverse.{
  Geometry, push_transform, pop_transform, pop_frustum, set_projection_and_view,
}
use vsg.RecordTraversal.Device.{Device}
use vsg.RecordTraversal.Eager.{Context, transformed}
use vsg.RecordTraversal.Sync.{MatrixGood, Good, Same}
use vsg.RecordTraversal.Keeps.{Of}

module _ {M : Type 0} where
  pop_matrix_below :
      (s : MatrixStack M) (m : M) (ms : List M)
      → s.below ≡ m ∷ ms
      → pop_matrix s ≡ record { top = m; below = ms; dirty = true }
  unfolding pop_matrix
  pop_matrix_below s m ms e = rw e refl

  pop_matrix_dirty : (s : MatrixStack M) → (pop_matrix s).dirty ≡ true
  unfolding pop_matrix
  pop_matrix_dirty s =
      elim s.below
        as (λ l.
          (elim l as (λ x. MatrixStack M) [
            | [] ↦ record s { dirty = true }
            | m ∷ ms ↦ record { top = m; below = ms; dirty = true }
          ]).dirty
          ≡ true) [ [] ↦ refl | m ∷ ms ↦ refl ]

module _ {M F : Type 0} (g : Geometry M F) (m : M) (st : State M F) (d : Device M) where
  pub push_transform-Good : (local : Bool) → Good st d → Good (push_transform g m local st) d
  unfolding push_transform push_matrix MatrixGood
  push_transform-Good true h = record {
    stacks_good = h.stacks_good;
    projection_good = h.projection_good;
    modelview_good = λ e. cc e;
    clean = λ e. cc e;
  }
  push_transform-Good false h = record {
    stacks_good = h.stacks_good;
    projection_good = h.projection_good;
    modelview_good = λ e. cc e;
    clean = λ e. cc e;
  }

  pub push_transform-num_slots :
      (local : Bool) → (push_transform g m local st).num_slots ≡ st.num_slots
  unfolding push_transform
  push_transform-num_slots true = refl
  push_transform-num_slots false = refl

  pub push_transform-Of :
      (local : Bool) (c : Context M F)
      → Of st c
      → Of (push_transform g m local st) (transformed g m local c)
  unfolding push_transform push_matrix
  push_transform-Of true c o = record {
    innermost_of = o.innermost_of;
    projection_of = o.projection_of;
    modelview_of = ap (λ x. g.mul x m) o.modelview_of;
    frustum_of = rw (o.projection_of, o.modelview_of, o.projected_of) refl;
    projected_of = o.projected_of;
  }
  push_transform-Of false c o = record {
    innermost_of = o.innermost_of;
    projection_of = o.projection_of;
    modelview_of = ap (λ x. g.mul x m) o.modelview_of;
    frustum_of = o.frustum_of;
    projected_of = o.projected_of;
  }

module _ {M F : Type 0} where
  pub pop_transform-Good :
      (local : Bool) (st : State M F) (d : Device M) → Good st d → Good (pop_transform local st) d
  unfolding pop_transform MatrixGood
  pop_transform-Good true st d h = record {
    stacks_good = h.stacks_good;
    projection_good = h.projection_good;
    modelview_good = λ e. cc (e, pop_matrix_dirty st.modelview);
    clean = λ e. cc e;
  }
  pop_transform-Good false st d h = record {
    stacks_good = h.stacks_good;
    projection_good = h.projection_good;
    modelview_good = λ e. cc (e, pop_matrix_dirty st.modelview);
    clean = λ e. cc e;
  }

  pub pop_transform-Same :
      (g : Geometry M F) (m : M) (local : Bool) (st st' : State M F)
      → Same st' (push_transform g m local st)
      → Same (pop_transform local st') st
  unfolding pop_transform push_transform push_matrix
  pop_transform-Same g m true st st' s =
      let popped =
        pop_matrix_below st'.modelview st.modelview.top st.modelview.below s.below_same in
      record {
        stacks_same = s.stacks_same;
        projection_same = s.projection_same;
        modelview_same = ap (λ x. x.top) popped;
        below_same = ap (λ x. x.below) popped;
        projected_same = s.projected_same;
        frustums_same = ap pop_frustum s.frustums_same;
        num_slots_same = s.num_slots_same;
      }
  pop_transform-Same g m false st st' s =
      let popped =
        pop_matrix_below st'.modelview st.modelview.top st.modelview.below s.below_same in
      record {
        stacks_same = s.stacks_same;
        projection_same = s.projection_same;
        modelview_same = ap (λ x. x.top) popped;
        below_same = ap (λ x. x.below) popped;
        projected_same = s.projected_same;
        frustums_same = s.frustums_same;
        num_slots_same = s.num_slots_same;
      }

  -- The stacks that a frame starts with.
  pub set_projection_and_view-Of :
      (g : Geometry M F) (proj view : M) (st : State M F)
      → Of (set_projection_and_view g proj view st) (record {
        innermost = λ k. head? (st.stacks k).stack;
        projection = proj;
        modelview = view;
        frustum = some (g.frustum proj view);
      })
  unfolding set_projection_and_view set_matrix
  set_projection_and_view-Of g proj view st = record {
    innermost_of = λ k. refl;
    projection_of = refl;
    modelview_of = refl;
    frustum_of = refl;
    projected_of = refl;
  }
