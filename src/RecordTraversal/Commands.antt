-- ===== src/RecordTraversal/Commands.antt =====
-- The state commands of a StateGroup: what is pushed before its children and popped after them.
use mathlib.Core.Path.{subst}
use vsg.Base.{
  ℕ, zero, suc, ◌≡◌, refl, sym, ap, ◌∙◌, ==_iff, true, false, Option, some, List, [], ◌∷◌, head?,
  ◌==◌, if◌then◌else◌, inl, inr, Bool-cases,
}
use vsg.RecordTraversal.{StateStack, push_command, pop_command, State, rest, is_empty, set_stack}
use vsg.RecordTraversal.Traverse.{StateCommand, push_commands, pop_commands}
use vsg.RecordTraversal.Device.{Device}
use vsg.RecordTraversal.Eager.{Context, inherit}
use vsg.RecordTraversal.Sync.{StackGood, MatrixGood, Good, Same}
use vsg.RecordTraversal.Slots.{SameOthers}
use vsg.RecordTraversal.Keeps.{Of}

-- The commands of a slot, and a stack without as many.
unfoldable occ : List StateCommand → ℕ → ℕ
occ [] k = 0
occ (c ∷ cs) k = if c.slot == k then suc (occ cs k) else occ cs k

unfoldable without : ℕ → List ℕ → List ℕ
without zero s = s
without (suc n) s = rest (without n s)

without-rest : (n : ℕ) (s : List ℕ) → without n (rest s) ≡ rest (without n s)
unfolding without
without-rest zero s = refl
without-rest (suc n) s = ap rest (without-rest n s)

pop-StackGood : (s : StateStack) (b : Option ℕ) → StackGood (pop_command s) b
unfolding pop_command
pop-StackGood s b =
    elim s.stack
      as (λ l.
        StackGood (record { stack = rest l; dirty = if is_empty (rest l) then false else true })
          b) [
            | [] ↦ record { full = λ h. cc h; held = λ c h e. cc e }
            | x ∷ [] ↦ record { full = λ h. cc h; held = λ c h e. cc e }
            | x ∷ y ∷ l ↦ record { full = λ h. refl; held = λ c h e. cc h }
          ]

module _ {M F : Type 0} where
  -- A stack that is set, and the others.
  set_stack-good :
      (slot : ℕ) (s : StateStack) (st : State M F) (d : Device M)
      → ((b : Option ℕ) → StackGood s b)
      → ((k : ℕ) → StackGood (st.stacks k) (d.bound k))
      → (k : ℕ) → StackGood ((set_stack slot s st).stacks k) (d.bound k)
  unfolding set_stack
  set_stack-good slot s st d h g k = elim (Bool-cases (slot == k)) [
    | inl e ↦ rw e (h (d.bound k))
    | inr e ↦ rw e (g k)
  ]

  push_commands-good :
      (cs : List StateCommand) (st : State M F) (d : Device M)
      → ((k : ℕ) → StackGood (st.stacks k) (d.bound k))
      → ((k : ℕ) → StackGood ((push_commands cs st).stacks k) (d.bound k))
        × SameOthers (push_commands cs st) st
        × ((push_commands cs st).dirty ≡ true)
  unfolding push_commands push_command set_stack
  push_commands-good [] st d g = (g, (refl, refl, refl, refl, refl), refl)
  push_commands-good (c ∷ cs) st d g = push_commands-good cs _ d (
      set_stack-good c.slot (push_command c.command (st.stacks c.slot)) st d
        (λ b. record { full = λ h. refl; held = λ x h e. cc h }) g)

  pop_commands-good :
      (cs : List StateCommand) (st : State M F) (d : Device M)
      → ((k : ℕ) → StackGood (st.stacks k) (d.bound k))
      → ((k : ℕ) → StackGood ((pop_commands cs st).stacks k) (d.bound k))
        × SameOthers (pop_commands cs st) st
        × ((pop_commands cs st).dirty ≡ true)
  unfolding pop_commands set_stack
  pop_commands-good [] st d g = (g, (refl, refl, refl, refl, refl), refl)
  pop_commands-good (c ∷ cs) st d g = pop_commands-good cs _ d (
      set_stack-good c.slot (pop_command (st.stacks c.slot)) st d (pop-StackGood (st.stacks c.slot))
        g)

  set_stack_there :
      (slot k : ℕ) (s : StateStack) (st : State M F)
      → (slot == k) ≡ true
      → (set_stack slot s st).stacks k ≡ s
  unfolding set_stack
  set_stack_there slot k s st e = rw e refl

  set_stack_elsewhere :
      (slot k : ℕ) (s : StateStack) (st : State M F)
      → (slot == k) ≡ false
      → (set_stack slot s st).stacks k ≡ st.stacks k
  unfolding set_stack
  set_stack_elsewhere slot k s st e = rw e refl

  without-push :
      (cs : List StateCommand) (st : State M F) (k : ℕ)
      → without (occ cs k) ((push_commands cs st).stacks k).stack ≡ (st.stacks k).stack
  unfolding push_commands push_command set_stack without occ
  without-push [] st k = refl
  without-push (c ∷ cs) st k =
      let s = push_command c.command (st.stacks c.slot) in
      let h = without-push cs (set_stack c.slot s st) k in
      elim (Bool-cases (c.slot == k)) [
        | inl e ↦ rw e (
            ap rest (h ∙ ap (λ x. x.stack) (set_stack_there c.slot k s st e))
            ∙ ap (λ j. (st.stacks j).stack) ((==_iff c.slot k).0 e))
        | inr e ↦ rw e (h ∙ ap (λ x. x.stack) (set_stack_elsewhere c.slot k s st e))
      ]

  pop_commands-without :
      (cs : List StateCommand) (st : State M F) (k : ℕ)
      → ((pop_commands cs st).stacks k).stack ≡ without (occ cs k) (st.stacks k).stack
  unfolding pop_commands pop_command set_stack without occ
  pop_commands-without [] st k = refl
  pop_commands-without (c ∷ cs) st k =
      let h = pop_commands-without cs (set_stack c.slot (pop_command (st.stacks c.slot)) st) k in
      elim (Bool-cases (c.slot == k)) [
        | inl e ↦
            h
            ∙ rw e (
                without-rest (occ cs k) (st.stacks c.slot).stack
                ∙ ap (λ j. rest (without (occ cs k) (st.stacks j).stack)) ((==_iff c.slot k).0 e))
        | inr e ↦ h ∙ rw e refl
      ]

  inherit_one :
      (s : StateCommand) (st : State M F) (c : Context M F) (k : ℕ)
      → c.innermost k ≡ head? (st.stacks k).stack
      → (if s.slot == k then some s.command else c.innermost k)
        ≡ head? ((set_stack s.slot (push_command s.command (st.stacks s.slot)) st).stacks k).stack
  unfolding set_stack push_command
  inherit_one s st c k h = elim (Bool-cases (s.slot == k)) [ inl e ↦ rw e refl | inr e ↦ rw e h ]

  -- The top of the stack of a slot in a group is its last command there.
  inherit-push_commands :
      (cs : List StateCommand) (st : State M F) (c : Context M F)
      → ((k : ℕ) → c.innermost k ≡ head? (st.stacks k).stack)
      → (k : ℕ) → (inherit cs c).innermost k ≡ head? ((push_commands cs st).stacks k).stack
  unfolding push_commands
  inherit-push_commands [] st c h = h
  inherit-push_commands (s ∷ cs) st c h =
      inherit-push_commands cs (set_stack s.slot (push_command s.command (st.stacks s.slot)) st) _
        (λ k. inherit_one s st c k (h k))

  inherit_others :
      (cs : List StateCommand) (c : Context M F)
      → ((inherit cs c).projection ≡ c.projection)
        × ((inherit cs c).modelview ≡ c.modelview)
        × ((inherit cs c).frustum ≡ c.frustum)
  inherit_others [] c = (refl, refl, refl)
  inherit_others (s ∷ cs) c = inherit_others cs _

  pub push_commands-Good :
      (cs : List StateCommand) (st : State M F) (d : Device M)
      → Good st d
      → Good (push_commands cs st) d
  unfolding MatrixGood
  push_commands-Good cs st d g =
      let a = push_commands-good cs st d g.stacks_good in
      record {
        stacks_good = a.0;
        projection_good = subst (λ s. MatrixGood s d.projection) (sym a.1.1) g.projection_good;
        modelview_good = subst (λ s. MatrixGood s d.modelview) (sym a.1.2) g.modelview_good;
        clean = λ h. cc (h, a.2);
      }

  pub pop_commands-Good :
      (cs : List StateCommand) (st : State M F) (d : Device M)
      → Good st d
      → Good (pop_commands cs st) d
  unfolding MatrixGood
  pop_commands-Good cs st d g =
      let a = pop_commands-good cs st d g.stacks_good in
      record {
        stacks_good = a.0;
        projection_good = subst (λ s. MatrixGood s d.projection) (sym a.1.1) g.projection_good;
        modelview_good = subst (λ s. MatrixGood s d.modelview) (sym a.1.2) g.modelview_good;
        clean = λ h. cc (h, a.2);
      }

  pub push_commands-Of :
      (cs : List StateCommand) (st : State M F) (d : Device M) (c : Context M F)
      → Good st d
      → Of st c
      → Of (push_commands cs st) (inherit cs c)
  push_commands-Of cs st d c g o =
      let a = push_commands-good cs st d g.stacks_good in
      let b = inherit_others cs c in
      record {
        innermost_of = inherit-push_commands cs st c o.innermost_of;
        projection_of = b.0 ∙ (o.projection_of ∙ ap (λ s. s.top) (sym a.1.1));
        modelview_of = b.1 ∙ (o.modelview_of ∙ ap (λ s. s.top) (sym a.1.2));
        frustum_of = b.2 ∙ (o.frustum_of ∙ ap head? (sym a.1.4));
        projected_of = a.1.3 ∙ (o.projected_of ∙ ap (λ s. s.top) (sym a.1.1));
      }

  -- After a subgraph that leaves the stacks as they were, the pops undo the pushes.
  pub pop_commands-Same :
      (cs : List StateCommand) (st st' : State M F) (d d' : Device M)
      → Good st d
      → Good st' d'
      → Same st' (push_commands cs st)
      → Same (pop_commands cs st') st
  pop_commands-Same cs st st' d d' g g' s =
      let a = push_commands-good cs st d g.stacks_good in
      let b = pop_commands-good cs st' d' g'.stacks_good in
      record {
        stacks_same = λ k.
            pop_commands-without cs st' k
            ∙ (ap (without (occ cs k)) (s.stacks_same k) ∙ without-push cs st k);
        projection_same = ap (λ x. x.top) b.1.1 ∙ (s.projection_same ∙ ap (λ x. x.top) a.1.1);
        modelview_same = ap (λ x. x.top) b.1.2 ∙ (s.modelview_same ∙ ap (λ x. x.top) a.1.2);
        below_same = ap (λ x. x.below) b.1.2 ∙ (s.below_same ∙ ap (λ x. x.below) a.1.2);
        projected_same = b.1.3 ∙ (s.projected_same ∙ a.1.3);
        frustums_same = b.1.4 ∙ (s.frustums_same ∙ a.1.4);
        num_slots_same = b.1.0 ∙ (s.num_slots_same ∙ a.1.0);
      }

  pub push_commands-num_slots :
      (cs : List StateCommand) (st : State M F) (d : Device M)
      → Good st d
      → (push_commands cs st).num_slots ≡ st.num_slots
  push_commands-num_slots cs st d g = (push_commands-good cs st d g.stacks_good).1.0
