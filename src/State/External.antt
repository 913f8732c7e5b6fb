-- ===== src/State/External.antt =====
-- What crates/openshield-core/src/state.rs takes from outside the repository: JSON of `serde_json`,
-- text of `uuid`, host networks of `ipnet`, the display of an address, fresh identifiers and times.
use open_shield.Base.{ℕ, suc, Option, List}
use open_shield.Base.Outcome.{Result}
use open_shield.Base.Text.{Text}
use open_shield.Model.Address.{IpAddr, IpNet}
use open_shield.Model.Rule.{Rule, Uuid, Instant}
use open_shield.State.Data.{State}

-- The sizes of the slices that `to_writer` passes to its writer, and the error in which it ends
-- after them, if it does.
pub record Writes : Type 0 where
  pub sizes : List ℕ
  pub failure : Option Text

pub record External : Type 0 where
  pub state_json : State → Writes
  -- The size of `to_vec(rule)`.
  pub rule_json : Rule → Result Text ℕ
  pub uuid_text_len : Uuid → ℕ
  pub ip_net_from : IpAddr → IpNet
  pub display_address : IpAddr → Text

-- What successive calls of `Uuid::new_v4` and `Utc::now` give, a pair for each rule made.
abbrev pub Draws : Type 0
Draws = ℕ → Uuid × Instant

abbrev pub later : Draws → Draws
later draws k = draws (suc k)
