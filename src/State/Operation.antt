-- ===== src/State/Operation.antt =====
-- The operations of crates/openshield-core/src/state.rs as one alphabet, and runs of them.
pub mod WellFormed
pub mod Atomic
pub mod Revocation
pub mod Modes
use open_shield.Base.{◌≡◌, refl, ℕ, Bool, List, [], ◌∷◌}
use open_shield.Base.Outcome.{Result, ok, err}
use open_shield.Base.Exec.{Exec}
use open_shield.Model.Kinds.{Mode, EnforcementStrategy}
use open_shield.Model.RuleSpec.{RuleSpec}
use open_shield.Model.Rule.{Uuid, Instant}
use open_shield.State.Data.{State, CoreError}
use open_shield.State.Mutation.{
  rotate_flow_generation, set_mode_at, enforce, create_rule_at, update_rule_at, delete_rule_at,
  set_rule_enabled_at,
}

pub data Operation : Type 0 where
  rotates : ℕ → Operation
  sets_mode : Mode → Instant → Operation
  enforces : EnforcementStrategy → Instant → Operation
  creates : Uuid → RuleSpec → Instant → Operation
  updates : Uuid → RuleSpec → Instant → Operation
  deletes : Uuid → Instant → Operation
  enables : Uuid → Bool → Instant → Operation

abbrev pub forget : {A : Type 0} → Result CoreError A × State → Result CoreError Unit × State
forget (ok _, s) = (ok tt, s)
forget (err e, s) = (err e, s)

unfoldable pub perform : Operation → Exec CoreError State Unit
unfolding set_mode_at enforce update_rule_at
perform (rotates generation) s = rotate_flow_generation generation s
perform (sets_mode mode now) s = forget (set_mode_at mode now s)
perform (enforces strategy now) s = forget (enforce strategy now s)
perform (creates id spec now) s = forget (create_rule_at id spec now s)
perform (updates id spec now) s = forget (update_rule_at id spec now s)
perform (deletes id now) s = forget (delete_rule_at id now s)
perform (enables id enabled now) s = forget (set_rule_enabled_at id enabled now s)

-- A caller goes on with the state that an operation leaves, whether it failed or not.
unfoldable pub run : State → List Operation → State
run s [] = s
run s (op ∷ rest) = run (perform op s).1 rest

pub forget-state : {A : Type 0} (r : Result CoreError A × State) → (forget r).1 ≡ r.1
forget-state (ok a, s) = refl
forget-state (err e, s) = refl
