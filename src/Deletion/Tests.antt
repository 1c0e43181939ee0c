-- ===== src/Deletion/Tests.antt =====
-- Lives of an object, and a use of the theorem on them.
use vsg.Base.{ℕ, ◌+◌, ◌≡◌, ◌≢◌, ◌⊎◌, ◌<◌, ◌≤◌, true, false, none, some, arith}
use vsg.Base.Word.{add32, sub32}
use vsg.Deletion.{
  Object, ref, unref, signal, delete, attempt_delete, observe, lock, drops, releases,
  unref_nodelete, decides, observes, locks, created, Reachable, begins, goes_on,
}
use vsg.Deletion.Safety.{deletion_lem}

-- The last ref_ptr goes, and the thread deletes the object.
abbrev dropped : Object
dropped = record {
  count = 0;
  auxiliary = none;
  holders = 0;
  deciding = 1;
  released = 0;
  deletions = 0;
}

abbrev deleted : Object
deleted = record {
  count = 0;
  auxiliary = none;
  holders = 0;
  deciding = 0;
  released = 0;
  deletions = 1;
}

dropped-Reachable : Reachable dropped
unfolding unref sub32
dropped-Reachable = goes_on created dropped begins (omega arith) (drops (omega arith))

deleted-Reachable : Reachable deleted
unfolding attempt_delete delete
deleted-Reachable = goes_on dropped deleted dropped-Reachable (omega arith) (decides (omega arith))

deletion_lem_example :
    (deleted.count ≡ deleted.holders)
    × ((deleted.holders ≡ 0) ⊎ (deleted.deletions ≡ 0))
    × ((0 < deleted.holders) ⊎ (0 < deleted.deciding + deleted.deletions + deleted.released))
    × ((deleted.auxiliary ≢ none) ⊎ (deleted.deletions ≤ 1))
deletion_lem_example = deletion_lem deleted deleted-Reachable

-- With an observer: between the drop of the last ref_ptr and the decision another thread makes a
-- ref_ptr from it and drops that, so that two threads decide.
abbrev between : ℕ → ℕ → ℕ → Object
between count deciding deletions = record {
  count = count;
  auxiliary = some true;
  holders = count;
  deciding = deciding;
  released = 0;
  deletions = deletions;
}

abbrev disconnected : ℕ → ℕ → Object
disconnected deciding deletions = record {
  count = 0;
  auxiliary = some false;
  holders = 0;
  deciding = deciding;
  released = 0;
  deletions = deletions;
}

observed-Reachable : Reachable (between 1 0 0)
unfolding observe
observed-Reachable = goes_on created (between 1 0 0) begins (omega arith) (observes (omega arith))

alone-Reachable : Reachable (between 0 1 0)
unfolding unref sub32
alone-Reachable =
    goes_on (between 1 0 0) (between 0 1 0) observed-Reachable (omega arith) (drops (omega arith))

locked-Reachable : Reachable (between 1 1 0)
unfolding lock ref add32
locked-Reachable = goes_on (between 0 1 0) (between 1 1 0) alone-Reachable (omega arith) locks

both-Reachable : Reachable (between 0 2 0)
unfolding unref sub32
both-Reachable =
    goes_on (between 1 1 0) (between 0 2 0) locked-Reachable (omega arith) (drops (omega arith))

first-Reachable : Reachable (disconnected 1 1)
unfolding attempt_delete signal delete
first-Reachable =
    goes_on (between 0 2 0) (disconnected 1 1) both-Reachable (omega arith) (decides (omega arith))

second-Reachable : Reachable (disconnected 0 2)
unfolding attempt_delete signal delete
second-Reachable =
    goes_on (disconnected 1 1) (disconnected 0 2) first-Reachable (omega arith)
      (decides (omega arith))

-- The pointer that release() gives out of the only ref_ptr keeps the object, and nobody deletes it.
abbrev given_out : Object
given_out = record {
  count = 0;
  auxiliary = none;
  holders = 0;
  deciding = 0;
  released = 1;
  deletions = 0;
}

given_out-Reachable : Reachable given_out
unfolding unref_nodelete sub32
given_out-Reachable = goes_on created given_out begins (omega arith) (releases (omega arith))
