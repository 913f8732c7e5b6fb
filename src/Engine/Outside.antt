-- ===== src/Engine/Outside.antt =====
-- What `Engine` of crates/openshield-daemon/src/engine.rs works on: the traits `FirewallBackend` and
-- `StateStore`, file identities, and the texts of errors. `World` is all that their calls change.
use open_shield.Base.{◌≡◌, Bool, Option, some}
use open_shield.Base.Outcome.{ok}
use open_shield.Base.Exec.{Exec}
use open_shield.Base.Text.{Text}
use open_shield.Application.Failure.{ApplicationValidationError}
use open_shield.Model.Address.{IpNet}
use open_shield.Model.Rule.{Uuid, Instant}
use open_shield.State.Data.{State, Snapshot, CoreError}
use open_shield.State.External.{External}
use open_shield.Attribution.Pinning.{Files}
use open_shield.Protocol.Compatibility.{FirewallBackendKind}
use open_shield.Engine.Data.{Engine, ApplicationLearningTransaction, PersistedApplicationLearning}

pub record Outside : Type 1 where
  pub World : Type 0
  pub external : External
  pub kind : FirewallBackendKind
  pub apply : Snapshot → Exec Text World Unit
  pub fail_closed : Exec Text World Unit
  pub save : State → Exec Text World Unit
  pub load : Exec Text World (Option State)
  -- Whether the thread that holds a reservation ends before it writes.
  pub abandons : World → Bool
  pub files : Instant → Files
  pub trunc : IpNet → IpNet
  pub describe : CoreError → Text
  pub describe_application : ApplicationValidationError → Text
  pub display_uuid : Uuid → Text

-- The policy that the kernel enforces, where it is known.
pub data Kernel : Type 0 where
  enforces : Snapshot → Kernel
  closed : Kernel
  undetermined : Kernel

-- What the backend and the store promise. A call that fails may have done anything of its own: an
-- update of the kernel may be in force, and the file may hold the old policy, the new one or none.
pub record Promises (o : Outside) : Type 0 where
  pub kernel : o.World → Kernel
  pub disk : o.World → Option State
  pub apply_ok :
      (s : Snapshot) (w : o.World) → (o.apply s w).0 ≡ ok tt → kernel (o.apply s w).1 ≡ enforces s
  pub fail_closed_ok :
      (w : o.World) → (o.fail_closed w).0 ≡ ok tt → kernel (o.fail_closed w).1 ≡ closed
  pub save_ok : (s : State) (w : o.World) → (o.save s w).0 ≡ ok tt → disk (o.save s w).1 ≡ some s
  pub load_ok : (w : o.World) (found : Option State) → (o.load w).0 ≡ ok found → found ≡ disk w
  pub disk-apply : (s : Snapshot) (w : o.World) → disk (o.apply s w).1 ≡ disk w
  pub disk-fail_closed : (w : o.World) → disk (o.fail_closed w).1 ≡ disk w
  pub kernel-save : (s : State) (w : o.World) → kernel (o.save s w).1 ≡ kernel w
  pub kernel-load : (w : o.World) → kernel (o.load w).1 ≡ kernel w
  pub disk-load : (w : o.World) → disk (o.load w).1 ≡ disk w

-- The engine, the reservation of its `PersistenceCoordinator` with the transaction that it is for,
-- the transaction that was written and not finalized, and the world.
pub record Daemon (o : Outside) : Type 0 where
  pub engine : Engine
  pub reservation : Option ApplicationLearningTransaction
  pub persisted : Option PersistedApplicationLearning
  pub world : o.World
