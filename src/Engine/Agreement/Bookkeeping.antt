-- ===== src/Engine/Agreement/Bookkeeping.antt =====
-- The agreement of crates/openshield-daemon/src/engine.rs rests on a few fields of the engine: what
-- leaves them alone keeps it.
use open_shield.Base.{◌≡◌, refl, sym, ap, ◌∙◌, ℕ, Bool, Option, some, inl, inr}
use open_shield.State.Data.{State}
use open_shield.Engine.Data.{
  Engine, StartupPolicy, LearningPersistence, ApplicationLearningTransaction,
}
use open_shield.Engine.Outside.{Outside, Promises, Daemon}
use open_shield.Engine.Agreement.{
  IsLive, IsQuarantined, Agrees, Storage, settled, writing, written, abandoned, Flight,
}

-- The fields on which the file and a transaction in flight rest, and those of the agreement.
pub record Progress : Type 0 where
  pub state : State
  pub learning_persistence : LearningPersistence
  pub candidate : Option State
  pub next : ℕ
  pub superseded : Option ℕ

pub record Ledger : Type 0 where
  pub progress : Progress
  pub poisoned : Bool
  pub fatal : Bool
  pub restart_required : Bool
  pub startup_policy : StartupPolicy

abbrev pub progress : Engine → Progress
progress e = record {
  state = e.state;
  learning_persistence = e.learning_persistence;
  candidate = e.pending_application_learning_candidate;
  next = e.next_learning_transaction;
  superseded = e.superseded_learning_transaction;
}

abbrev pub ledger : Engine → Ledger
ledger e = record {
  progress = progress e;
  poisoned = e.poisoned;
  fatal = e.fatal;
  restart_required = e.restart_required;
  startup_policy = e.startup_policy;
}

module _ (o : Outside) (p : Promises o) (d : Daemon o) (e : Engine) (w : o.World)
    (kept : progress e ≡ progress d.engine) (unwritten : p.disk w ≡ p.disk d.world) where
  has : {A : Type 0} (f : Progress → A) → f (progress e) ≡ f (progress d.engine)
  has f = ap f kept

  pub Flight-moved :
      (t : ApplicationLearningTransaction)
      → Flight o p d t
      → Flight o p (record d { engine = e; world = w }) t
  Flight-moved t f = record {
    flying = has (λ l. l.learning_persistence) ∙ f.flying;
    pending = has (λ l. l.candidate) ∙ f.pending;
    base = f.base ∙ sym (has (λ l. l.state));
    fresh = rw (has (λ l. l.superseded)) f.fresh;
    latest = f.latest ∙ sym (has (λ l. l.next));
    mode = has (λ l. l.state.mode) ∙ f.mode;
    candidate_mode = f.candidate_mode;
    generation = f.generation ∙ sym (has (λ l. l.state.flow_generation));
  }

  file : p.disk d.world ≡ some d.engine.state → p.disk w ≡ some e.state
  file h = unwritten ∙ h ∙ ap (λ (s : State). some s) (sym (has (λ l. l.state)))

  pub Storage-moved : Storage o p d → Storage o p (record d { engine = e; world = w })
  Storage-moved (settled free grounded nothing disk) =
      settled free (rw (has (λ l. l.learning_persistence)) grounded)
        (has (λ l. l.candidate) ∙ nothing) (file disk)
  Storage-moved (writing t held empty f disk) = writing t held empty (Flight-moved t f) (file disk)
  Storage-moved (written v free held f disk) =
      written v free held (Flight-moved v.transaction f) (rw unwritten disk)
  Storage-moved (abandoned t free empty f disk) =
      abandoned t free empty (Flight-moved t f) (file disk)

module _ (o : Outside) (p : Promises o) (d : Daemon o) (e : Engine)
    (same_ledger : ledger e ≡ ledger d.engine) where
  at : {A : Type 0} (f : Ledger → A) → f (ledger e) ≡ f (ledger d.engine)
  at f = ap f same_ledger

  pub IsLive-kept : IsLive o p d → IsLive o p (record d { engine = e })
  IsLive-kept live = record {
    clean = (
      at (λ l. l.poisoned) ∙ live.clean.0,
      at (λ l. l.fatal) ∙ live.clean.1,
      at (λ l. l.restart_required) ∙ live.clean.2,
    );
    superseded = rw (at (λ l. l.progress.superseded), at (λ l. l.progress.next)) live.superseded;
    served = rw (at (λ l. l.startup_policy), at (λ l. l.progress.state)) live.served;
    storage =
        Storage-moved o p d e d.world (ap (λ (l : Ledger). l.progress) same_ledger) refl
          live.storage;
  }

  pub IsQuarantined-kept : IsQuarantined o p d → IsQuarantined o p (record d { engine = e })
  IsQuarantined-kept q = record {
    poisoned = at (λ l. l.poisoned) ∙ q.poisoned;
    kernel_closed = rw (at (λ l. l.fatal)) q.kernel_closed;
    blocks_all =
        rw (at (λ l. l.fatal), at (λ l. l.startup_policy), at (λ l. l.progress.state)) q.blocks_all;
    durable =
        rw (at (λ l. l.fatal), at (λ l. l.restart_required), at (λ l. l.progress.state)) q.durable;
  }

  pub Agrees-kept : Agrees o p d → Agrees o p (record d { engine = e })
  Agrees-kept (inl live) = inl (IsLive-kept live)
  Agrees-kept (inr q) = inr (IsQuarantined-kept q)
