-- ===== src/RecordTraversal/Sync.antt =====
-- The state of the traversal and the state of the device: what the dirty flags say.

use vsg.Base.{ℕ, ◌<◌, ◌≡◌, refl, ◌∙◌, true, false, Option, some, head?}
use vsg.RecordTraversal.{StateStack, MatrixStack, State, is_empty}
use vsg.RecordTraversal.Device.{Device}

-- A dirty stack is not empty, and the top of one that is not dirty is bound.
pub record StackGood (s : StateStack) (bound : Option ℕ) : Type 0 where
  pub full : s.dirty ≡ true → is_empty s.stack ≡ false
  pub held : (c : ℕ) → s.dirty ≡ false → head? s.stack ≡ some c → bound ≡ some c

unfoldable pub MatrixGood : {M : Type 0} → MatrixStack M → Option M → Type 0
MatrixGood s m = s.dirty ≡ false → m ≡ some s.top

-- The device has all that is on top of the stacks.
pub record Synced {M F : Type 0} (st : State M F) (d : Device M) : Type 0 where
  pub slots : (k c : ℕ) → k < st.num_slots → head? (st.stacks k).stack ≡ some c → d.bound k ≡ some c
  pub projections : d.projection ≡ some st.projection.top
  pub modelviews : d.modelview ≡ some st.modelview.top

pub record Good {M F : Type 0} (st : State M F) (d : Device M) : Type 0 where
  pub stacks_good : (k : ℕ) → StackGood (st.stacks k) (d.bound k)
  pub projection_good : MatrixGood st.projection d.projection
  pub modelview_good : MatrixGood st.modelview d.modelview
  pub clean : st.dirty ≡ false → Synced st d

-- The same stacks, up to their dirty flags.
pub record Same {M F : Type 0} (st' st : State M F) : Type 0 where
  pub stacks_same : (k : ℕ) → (st'.stacks k).stack ≡ (st.stacks k).stack
  pub projection_same : st'.projection.top ≡ st.projection.top
  pub modelview_same : st'.modelview.top ≡ st.modelview.top
  pub below_same : st'.modelview.below ≡ st.modelview.below
  pub projected_same : st'.projected ≡ st.projected
  pub frustums_same : st'.frustums ≡ st.frustums
  pub num_slots_same : st'.num_slots ≡ st.num_slots

module _ {M F : Type 0} where
  pub Same_refl : (st : State M F) → Same st st
  Same_refl st = record {
    stacks_same = λ k. refl;
    projection_same = refl;
    modelview_same = refl;
    below_same = refl;
    projected_same = refl;
    frustums_same = refl;
    num_slots_same = refl;
  }

  pub Same_trans : {st'' st' st : State M F} → Same st'' st' → Same st' st → Same st'' st
  Same_trans a b = record {
    stacks_same = λ k. a.stacks_same k ∙ b.stacks_same k;
    projection_same = a.projection_same ∙ b.projection_same;
    modelview_same = a.modelview_same ∙ b.modelview_same;
    below_same = a.below_same ∙ b.below_same;
    projected_same = a.projected_same ∙ b.projected_same;
    frustums_same = a.frustums_same ∙ b.frustums_same;
    num_slots_same = a.num_slots_same ∙ b.num_slots_same;
  }
