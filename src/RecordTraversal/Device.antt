-- ===== src/RecordTraversal/Device.antt =====
-- What the device does with a recorded list: it keeps what was bound last, and draws with it.

use vsg.Base.{ℕ, ◌≡◌, refl, ap, Option, some, List, [], ◌∷◌, ◌++◌, ◌==◌, if◌then◌else◌}
use vsg.RecordTraversal.{Recorded, bind, push_projection, push_modelview, draw, undefined}

pub record Device (M : Type 0) : Type 0 where
  pub bound : ℕ → Option ℕ
  pub projection : Option M
  pub modelview : Option M

-- A draw command with the state of the device at it; `fault` is where the recording was undefined.
pub data Drawn (M : Type 0) : Type 0 where
  drawn : ℕ → Device M → Drawn M
  fault : Drawn M

module _ {M : Type 0} where
  abbrev pub bind_slot : ℕ → ℕ → Device M → Device M
  bind_slot slot c d = record d { bound = λ k. if slot == k then some c else d.bound k }

  unfoldable pub run : List (Recorded M) → Device M → List (Drawn M) × Device M
  run [] d = ([], d)
  run (bind slot c ∷ r) d = run r (bind_slot slot c d)
  run (push_projection m ∷ r) d = run r (record d { projection = some m })
  run (push_modelview m ∷ r) d = run r (record d { modelview = some m })
  run (draw c ∷ r) d = let (ds, d') = run r d in (drawn c d ∷ ds, d')
  run (undefined ∷ r) d = let (ds, d') = run r d in (fault ∷ ds, d')

  abbrev pub after : List (Recorded M) → Device M → Device M
  after r d = (run r d).1

  abbrev pub shown : List (Recorded M) → Device M → List (Drawn M)
  shown r d = (run r d).0

  pub after-append :
      (r s : List (Recorded M)) (d : Device M) → after (r ++ s) d ≡ after s (after r d)
  unfolding run
  after-append [] s d = refl
  after-append (bind slot c ∷ r) s d = after-append r s _
  after-append (push_projection m ∷ r) s d = after-append r s _
  after-append (push_modelview m ∷ r) s d = after-append r s _
  after-append (draw c ∷ r) s d = after-append r s d
  after-append (undefined ∷ r) s d = after-append r s d

  pub shown-append :
      (r s : List (Recorded M)) (d : Device M) → shown (r ++ s) d ≡ shown r d ++ shown s (after r d)
  unfolding run
  shown-append [] s d = refl
  shown-append (bind slot c ∷ r) s d = shown-append r s _
  shown-append (push_projection m ∷ r) s d = shown-append r s _
  shown-append (push_modelview m ∷ r) s d = shown-append r s _
  shown-append (draw c ∷ r) s d = ap (λ ds. drawn c d ∷ ds) (shown-append r s d)
  shown-append (undefined ∷ r) s d = ap (λ ds. fault ∷ ds) (shown-append r s d)
