-- ===== src/State/Operation/Modes.antt =====
-- Closing the firewall: `State::set_mode_at` of crates/openshield-core/src/state.rs.
use open_shield.Base.{◌+◌, ◌≤◌, ◌<◌, ◌≡◌, refl, min, true, Bool-cases, inl, inr, leb, arith}
use open_shield.Base.Words.{u64_max}
use open_shield.Base.Outcome.{ok}
use open_shield.Model.Kinds.{block_all, Mode-discrete}
use open_shield.Model.Rule.{Instant}
use open_shield.State.Data.{
  State, mode_changed, next_revision, next_flow_generation, max_flow_generation,
}
use open_shield.State.Mutation.{set_mode_at, set_mode_with_strategy_at}

-- The firewall can be closed whenever a revision is left, even when no flow generation is: the
-- mode becomes block-all, rules and strategy stay, and the generation moves on unless it is the
-- last one.
pub set_mode_at-block_all :
    (s : State) (now : Instant)
    → s.revision < u64_max
    → s.flow_generation ≤ max_flow_generation
    → set_mode_at block_all now s ≡ (
      ok (record {
        revision = s.revision + 1;
        occurred_at = now;
        kind = mode_changed s.mode block_all;
      }),
      record s {
        revision = s.revision + 1;
        flow_generation = min (s.flow_generation + 1) max_flow_generation;
        mode = block_all;
      },
    )
unfolding set_mode_at set_mode_with_strategy_at next_revision next_flow_generation Mode-discrete
set_mode_at-block_all s now left domain =
    let some_revision : leb (s.revision + 1) u64_max ≡ true = ground (arith, left) in
    elim (Bool-cases (leb max_flow_generation s.flow_generation)) [
      | inl last ↦
          let kept : min (s.flow_generation + 1) max_flow_generation ≡ s.flow_generation =
            ground (arith, domain) in
          rw kept (rw some_revision (rw last refl))
      | inr more ↦
          let fresh : min (s.flow_generation + 1) max_flow_generation ≡ s.flow_generation + 1 =
            ground (arith, domain) in
          rw fresh (rw some_revision (rw more refl))
    ]
