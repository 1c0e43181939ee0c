-- ===== src/RecordTraversal/Flush.antt =====
-- State::record: it records what is dirty, and the device then has all that is on top.
use mathlib.Core.Path.{subst}
use vsg.Base.{
  ℕ, ◌+◌, ◌<◌, ◌≡◌, refl, sym, ap, ◌∙◌, Option, some, List, [], ◌++◌, if◌then◌else◌, arith, inl,
  inr, Bool-cases,
}
use vsg.RecordTraversal.{
  MatrixStack, State, Recorded, push_projection, push_modelview, record_matrix, record_stacks,
  record_all, record_state,
}
use vsg.RecordTraversal.Device.{Device, run, after, shown, after-append, shown-append}
use vsg.RecordTraversal.Sync.{StackGood, MatrixGood, Synced, Good, Same, Same_refl}
use vsg.RecordTraversal.Slots.{record_stacks-RecordsSlots}

-- What the recording of a matrix does, with the matrix of the device that it is for.
record RecordsMatrix {M : Type 0} (matrix : Device M → Option M) (s : MatrixStack M) (d : Device M)
    (r : List (Recorded M) × MatrixStack M) : Type 0 where
  nothing : shown r.0 d ≡ []
  top_same : r.1.top ≡ s.top
  below_same : r.1.below ≡ s.below
  pushed : matrix (after r.0 d) ≡ some s.top
  bound_same : (after r.0 d).bound ≡ d.bound

module _ {M : Type 0} (s : MatrixStack M) (d : Device M) where
  record_projection-RecordsMatrix :
      MatrixGood s d.projection
      → RecordsMatrix (λ x. x.projection) s d (record_matrix push_projection s)
        × ((after (record_matrix push_projection s).0 d).modelview ≡ d.modelview)
  unfolding record_matrix run MatrixGood
  record_projection-RecordsMatrix g = elim (Bool-cases s.dirty) [
    | inl e ↦ rw e (
      record {
        nothing = refl;
        top_same = refl;
        below_same = refl;
        pushed = refl;
        bound_same = refl;
      },
      refl,
    )
    | inr e ↦ rw e (
      record {
        nothing = refl;
        top_same = refl;
        below_same = refl;
        pushed = g e;
        bound_same = refl;
      },
      refl,
    )
  ]

  record_modelview-RecordsMatrix :
      MatrixGood s d.modelview
      → RecordsMatrix (λ x. x.modelview) s d (record_matrix push_modelview s)
        × ((after (record_matrix push_modelview s).0 d).projection ≡ d.projection)
  unfolding record_matrix run MatrixGood
  record_modelview-RecordsMatrix g = elim (Bool-cases s.dirty) [
    | inl e ↦ rw e (
      record {
        nothing = refl;
        top_same = refl;
        below_same = refl;
        pushed = refl;
        bound_same = refl;
      },
      refl,
    )
    | inr e ↦ rw e (
      record {
        nothing = refl;
        top_same = refl;
        below_same = refl;
        pushed = g e;
        bound_same = refl;
      },
      refl,
    )
  ]

nothing_shown :
    {M : Type 0} (r s : List (Recorded M)) (d : Device M)
    → shown r d ≡ []
    → shown s (after r d) ≡ []
    → shown (r ++ s) d ≡ []
nothing_shown r s d h k = shown-append r s d ∙ rw (h, k) refl

slot_of_all : (k n : ℕ) → k < n → k < 0 + n
slot_of_all k n h = omega arith

-- What State::record does.
pub record Flushes {M F : Type 0} (st : State M F) (d : Device M)
    (r : List (Recorded M) × State M F) : Type 0 where
  pub nothing : shown r.0 d ≡ []
  pub same : Same r.1 st
  pub good : Good r.1 (after r.0 d)
  pub synced : Synced r.1 (after r.0 d)

module _ {M F : Type 0} (st : State M F) (d : Device M) (g : Good st d) where
  pub record_all-Flushes : Flushes st d (record_all st)
  unfolding record_all MatrixGood
  record_all-Flushes =
      let a = record_stacks-RecordsSlots st.num_slots 0 st d g.stacks_good in
      let binds = record_stacks st.num_slots 0 st in
      let d1 = after binds.0 d in
      let p = record_matrix push_projection st.projection in
      let b =
        record_projection-RecordsMatrix st.projection d1
          (λ h. a.projection_same ∙ g.projection_good h) in
      let d2 = after p.0 d1 in
      let m = record_matrix push_modelview st.modelview in
      let c =
        record_modelview-RecordsMatrix st.modelview d2
          (λ h. (b.1 ∙ a.modelview_same) ∙ g.modelview_good h) in
      let last = after-append binds.0 (p.0 ++ m.0) d ∙ after-append p.0 m.0 d1 in
      let kept_bound = c.0.bound_same ∙ b.0.bound_same in
      let d' = after (binds.0 ++ (p.0 ++ m.0)) d in
      let stacks_good : (k : ℕ) → StackGood (binds.1.stacks k) (d'.bound k) = λ k.
        subst (λ x. StackGood (binds.1.stacks k) (x k)) (sym (ap (λ x. x.bound) last ∙ kept_bound))
          (a.good k) in
      let has_projection = ap (λ x. x.projection) last ∙ (c.1 ∙ b.0.pushed) in
      let has_modelview = ap (λ x. x.modelview) last ∙ c.0.pushed in
      let synced : Synced (record_all st).1 d' = record {
        slots = λ k x h e.
            (stacks_good k).held x
              (a.undirtied k (λ l. absurd (omega arith))
                (slot_of_all k st.num_slots (subst (λ n. k < n) a.others.0 h)))
              e;
        projections = has_projection ∙ ap some (sym b.0.top_same);
        modelviews = has_modelview ∙ ap some (sym c.0.top_same);
      } in
      record {
        nothing =
            nothing_shown binds.0 (p.0 ++ m.0) d a.nothing
              (nothing_shown p.0 m.0 d1 b.0.nothing c.0.nothing);
        same = record {
          stacks_same = a.same;
          projection_same = b.0.top_same;
          modelview_same = c.0.top_same;
          below_same = c.0.below_same;
          projected_same = a.others.3;
          frustums_same = a.others.4;
          num_slots_same = a.others.0;
        };
        good = record {
          stacks_good = stacks_good;
          projection_good = λ h. synced.projections;
          modelview_good = λ h. synced.modelviews;
          clean = λ h. synced;
        };
        synced = synced;
      }

  -- When the dirty flags are true to the device: nothing is drawn and no empty stack is read, the
  -- stacks stay as they are, the device then has the top of each stack, and the flags are true to it.
  pub record_state-Flushes : Flushes st d (record_state st)
  unfolding record_state run
  record_state-Flushes = elim (Bool-cases st.dirty) [
    | inl e ↦
        subst (λ b. Flushes st d (if b then record_all st else ([], st))) (sym e) record_all-Flushes
    | inr e ↦
        subst (λ b. Flushes st d (if b then record_all st else ([], st))) (sym e)
          (record { nothing = refl; same = Same_refl st; good = g; synced = g.clean e })
  ]
