-- ===== src/Model/PortRange.antt =====
-- `PortRange` of crates/openshield-core/src/model.rs.
use open_shield.Base.{ℕ, ◌||◌, ltb, ◌==◌, ℕ_discrete}
use open_shield.Base.Outcome.{Result, ok, ◌>>◌, reject_if}
use open_shield.Model.Failure.{ValidationError, invalid_port_range}

pub record PortRange : Type 0 where
  pub start : ℕ
  pub end : ℕ

unfoldable pub PortRange-discrete : Discrete PortRange
PortRange-discrete = hlevel ℕ_discrete

unfoldable pub new : ℕ → ℕ → Result ValidationError PortRange
new start end = do
  reject_if (start == 0 || end == 0 || ltb end start) (invalid_port_range start end)
  ok (record { start = start; end = end })

unfoldable pub single : ℕ → Result ValidationError PortRange
unfolding new
single port = new port port
