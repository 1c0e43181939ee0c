-- ===== src/RecordTraversal/Slots.antt =====
-- The recording of the state stacks: one slot, and the loop over the slots.
use mathlib.Core.Path.{subst}
use vsg.Base.{
  ℕ, zero, suc, ◌+◌, ◌<◌, ◌≡◌, refl, ap, ◌∙◌, Bool, true, false, List, [], ◌∷◌, ◌==◌, arith, inl,
  inr, Bool-cases, ==_iff, ==_refl,
}
use vsg.RecordTraversal.{StateStack, State, Recorded, record_stack, set_stack, record_stacks}
use vsg.RecordTraversal.Device.{Device, run, after, shown, after-append, shown-append}
use vsg.RecordTraversal.Sync.{StackGood}

-- What the recording of one slot does.
pub record RecordsSlot {M : Type 0} (slot : ℕ) (s : StateStack) (d : Device M)
    (r : List (Recorded M) × StateStack) : Type 0 where
  pub nothing : shown r.0 d ≡ []
  pub same : r.1.stack ≡ s.stack
  pub undirtied : r.1.dirty ≡ false
  pub bound_there : StackGood r.1 ((after r.0 d).bound slot)
  pub elsewhere : (k : ℕ) → (slot == k) ≡ false → (after r.0 d).bound k ≡ d.bound k
  pub projection_same : (after r.0 d).projection ≡ d.projection
  pub modelview_same : (after r.0 d).modelview ≡ d.modelview

module _ {M : Type 0} (slot : ℕ) (d : Device M) where
  recorded-RecordsSlot :
      (stack : List ℕ) (dirty : Bool)
      → StackGood (record { stack = stack; dirty = dirty }) (d.bound slot)
      → RecordsSlot slot
          (record { stack = stack; dirty = dirty })
          d
          (record_stack slot (record { stack = stack; dirty = dirty }))
  unfolding record_stack run
  recorded-RecordsSlot [] true g = cc (g.full refl)
  recorded-RecordsSlot (c ∷ cs) true g = record {
    nothing = refl;
    same = refl;
    undirtied = refl;
    bound_there = record { full = λ h. refl; held = λ x h e. rw (==_refl slot) e };
    elsewhere = λ k h. rw h;
    projection_same = refl;
    modelview_same = refl;
  }
  recorded-RecordsSlot stack false g = record {
    nothing = refl;
    same = refl;
    undirtied = refl;
    bound_there = g;
    elsewhere = λ k h. refl;
    projection_same = refl;
    modelview_same = refl;
  }

-- What the loop over the slots does, from `slot` on.
pub record RecordsSlots {M F : Type 0} (rounds slot : ℕ) (st : State M F) (d : Device M)
    (r : List (Recorded M) × State M F) : Type 0 where
  pub nothing : shown r.0 d ≡ []
  pub same : (k : ℕ) → (r.1.stacks k).stack ≡ (st.stacks k).stack
  pub undirtied :
      (k : ℕ)
      → ((k < slot → (st.stacks k).dirty ≡ false))
      → k < slot + rounds
      → (r.1.stacks k).dirty ≡ false
  pub good : (k : ℕ) → StackGood (r.1.stacks k) ((after r.0 d).bound k)
  pub projection_same : (after r.0 d).projection ≡ d.projection
  pub modelview_same : (after r.0 d).modelview ≡ d.modelview
  pub others :
      (r.1.num_slots ≡ st.num_slots)
      × (r.1.projection ≡ st.projection)
      × (r.1.modelview ≡ st.modelview)
      × (r.1.projected ≡ st.projected)
      × (r.1.frustums ≡ st.frustums)

abbrev pub SameOthers : {M F : Type 0} → State M F → State M F → Type 0
SameOthers st' st =
    (st'.num_slots ≡ st.num_slots)
    × (st'.projection ≡ st.projection)
    × (st'.modelview ≡ st.modelview)
    × (st'.projected ≡ st.projected)
    × (st'.frustums ≡ st.frustums)

kept_others :
    {M F : Type 0} (slot : ℕ) (s : StateStack) (st st' : State M F)
    → SameOthers st' (set_stack slot s st)
    → SameOthers st' st
unfolding set_stack
kept_others slot s st st' h = h

module _ {M F : Type 0} (slot : ℕ) (st : State M F) (d : Device M)
    (r : List (Recorded M) × StateStack) (one : RecordsSlot slot (st.stacks slot) d r) where
  next_good :
      ((k : ℕ) → StackGood (st.stacks k) (d.bound k))
      → (k : ℕ) → StackGood ((set_stack slot r.1 st).stacks k) ((after r.0 d).bound k)
  unfolding set_stack
  next_good g k = elim (Bool-cases (slot == k)) [
    | inl e ↦
        rw e
          (subst (λ j. StackGood r.1 ((after r.0 d).bound j)) ((==_iff slot k).0 e) one.bound_there)
    | inr e ↦ rw (e, one.elsewhere k e) (g k)
  ]

  next_same : (k : ℕ) → ((set_stack slot r.1 st).stacks k).stack ≡ (st.stacks k).stack
  unfolding set_stack
  next_same k = elim (Bool-cases (slot == k)) [
    | inl e ↦ rw e (one.same ∙ ap (λ j. (st.stacks j).stack) ((==_iff slot k).0 e))
    | inr e ↦ rw e refl
  ]

  next_undirtied :
      (k : ℕ)
      → (k < slot → (st.stacks k).dirty ≡ false)
      → k < suc slot
      → ((set_stack slot r.1 st).stacks k).dirty ≡ false
  unfolding set_stack
  next_undirtied k h l = elim (Bool-cases (slot == k)) [
    | inl e ↦ rw e one.undirtied
    | inr e ↦ rw e (h (ground arith))
  ]

module _ {M F : Type 0} where
  pub record_stacks-RecordsSlots :
      (rounds slot : ℕ) (st : State M F) (d : Device M)
      → ((k : ℕ) → StackGood (st.stacks k) (d.bound k))
      → RecordsSlots rounds slot st d (record_stacks rounds slot st)
  unfolding record_stacks run
  record_stacks-RecordsSlots zero slot st d g = record {
    nothing = refl;
    same = λ k. refl;
    undirtied = λ k h l. h (omega arith);
    good = g;
    projection_same = refl;
    modelview_same = refl;
    others = (refl, refl, refl, refl, refl);
  }
  record_stacks-RecordsSlots (suc rounds) slot st d g =
      let s = st.stacks slot in
      let r = record_stack {M = M} slot s in
      let one = recorded-RecordsSlot slot d s.stack s.dirty (g slot) in
      let st' = set_stack slot r.1 st in
      let d' = after r.0 d in
      let rest = record_stacks rounds (suc slot) st' in
      let more =
        record_stacks-RecordsSlots rounds (suc slot) st' d' (next_good slot st d r one g) in
      let last = after-append r.0 rest.0 d in
      record {
        nothing = shown-append r.0 rest.0 d ∙ rw one.nothing more.nothing;
        same = λ k. more.same k ∙ next_same slot st d r one k;
        undirtied = λ k h l. more.undirtied k (next_undirtied slot st d r one k h) (omega arith);
        good = λ k. rw last (more.good k);
        projection_same =
            ap (λ x. x.projection) last ∙ (more.projection_same ∙ one.projection_same);
        modelview_same = ap (λ x. x.modelview) last ∙ (more.modelview_same ∙ one.modelview_same);
        others = kept_others slot r.1 st rest.1 more.others;
      }
