-- ===== src/State/Operation/WellFormed/Runs.antt =====
-- Runs of the methods of crates/openshield-core/src/state.rs on well-formed policies.
use open_shield.Base.{List, [], ◌∷◌, arith}
use open_shield.Model.Kinds.{enforcing}
use open_shield.State.Data.{State, new}
use open_shield.State.Mutation.{
  create_rule_at, delete_rule_at, set_rule_enabled_at, set_mode_at, enforce, update_rule_at,
}
use open_shield.State.Operation.{
  Operation, rotates, sets_mode, enforces, creates, updates, deletes, enables, perform, run,
}
use open_shield.State.Operation.{forget-state}
use open_shield.State.Operation.WellFormed.{
  WellFormed, rotate-WellFormed, set_mode-WellFormed, create-WellFormed, update-WellFormed,
  delete-WellFormed, enable-WellFormed,
}

perform-WellFormed : (op : Operation) (s : State) → WellFormed s → WellFormed (perform op s).1
unfolding perform
perform-WellFormed (rotates generation) s w = rotate-WellFormed s w generation
perform-WellFormed (sets_mode mode now) s w =
    rw (forget-state (set_mode_at mode now s))
      (unfold set_mode_at in set_mode-WellFormed s w mode _ now)
perform-WellFormed (enforces strategy now) s w =
    rw (forget-state (enforce strategy now s))
      (unfold enforce in set_mode-WellFormed s w enforcing strategy now)
perform-WellFormed (creates id spec now) s w =
    rw (forget-state (create_rule_at id spec now s)) (create-WellFormed s w id spec now)
perform-WellFormed (updates id spec now) s w =
    rw (forget-state (update_rule_at id spec now s)) (update-WellFormed s w id spec now)
perform-WellFormed (deletes id now) s w =
    rw (forget-state (delete_rule_at id now s)) (delete-WellFormed s w id now)
perform-WellFormed (enables id enabled now) s w =
    rw (forget-state (set_rule_enabled_at id enabled now s)) (enable-WellFormed s w id enabled now)

-- From a well-formed policy (bounded revision, generation and size, sorted keys, every rule valid,
-- pinned, not redacted and under its own identifier) every run of operations, whether they succeed
-- or fail, ends in a well-formed policy.
pub run-WellFormed : (s : State) (ops : List Operation) → WellFormed s → WellFormed (run s ops)
unfolding run
run-WellFormed s [] w = w
run-WellFormed s (op ∷ rest) w = run-WellFormed (perform op s).1 rest (perform-WellFormed op s w)

new-WellFormed : WellFormed new
new-WellFormed = record {
  revision = omega arith;
  generation = (omega arith, omega arith);
  size = omega arith;
  sorted = tt;
  entries = tt;
}
