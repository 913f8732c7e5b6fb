-- ===== src/Engine/Agreement.antt =====
-- What `Engine` of crates/openshield-daemon/src/engine.rs keeps between memory, kernel and file.
pub mod Writing
pub mod Emergencies
pub mod Commits
pub mod Bookkeeping
pub mod Interruptions
pub mod Requests
pub mod Transactions
pub mod Preparations
pub mod Admissions
pub mod Loading
pub mod Releases
pub mod Runs
pub mod Learnings
pub mod Closing
use open_shield.Base.{◌≡◌, ◌⊎◌, ℕ, ◌≤◌, Bool, true, false, Option, none, some}
use open_shield.Base.Outcome.{Result}
use open_shield.Model.Kinds.{block_all, learning}
use open_shield.State.Data.{State, snapshot}
use open_shield.Engine.Data.{
  LearningPersistence, in_flight, startup_pending, startup_active, LearningStoreOutcome, saved,
  previous_retained, unsafe, ApplicationLearningTransaction, PersistedApplicationLearning,
}
use open_shield.Engine.Outside.{Outside, Promises, Kernel, enforces, closed, Daemon}
use open_shield.Engine.Learning.{is_superseded}

-- The kernel enforces this policy. While learning, the installed policy may lack rules that were
-- learned since: it lets pass what they allow.
pub data Serves (k : Kernel) (s : State) : Type 0 where
  exactly : k ≡ enforces (snapshot s) → Serves k s
  learning_since :
      (t : State)
      → k ≡ enforces (snapshot t)
      → t.mode ≡ learning
      → s.mode ≡ learning
      → s.flow_generation ≡ t.flow_generation
      → Serves k s
  entirely_closed : k ≡ closed → s.mode ≡ block_all → Serves k s

abbrev pub is_flying : LearningPersistence → Bool
is_flying (in_flight _) = true
is_flying _ = false

module _ (o : Outside) (p : Promises o) where
  -- The transaction that the engine waits for.
  pub record Flight (d : Daemon o) (t : ApplicationLearningTransaction) : Type 0 where
    pub flying : d.engine.learning_persistence ≡ in_flight t.token
    pub pending : d.engine.pending_application_learning_candidate ≡ some t.candidate
    pub base : t.previous ≡ d.engine.state
    pub fresh : is_superseded o t.token d.engine.superseded_learning_transaction ≡ false
    pub latest : t.token ≡ d.engine.next_learning_transaction
    pub mode : d.engine.state.mode ≡ learning
    pub candidate_mode : t.candidate.mode ≡ learning
    pub generation : t.candidate.flow_generation ≡ d.engine.state.flow_generation

  -- What the file holds behind the write of a transaction.
  abbrev pub WrittenAs :
      LearningStoreOutcome → ApplicationLearningTransaction → Option State → Type 0
  WrittenAs saved t file = file ≡ some t.candidate
  WrittenAs previous_retained t file = file ≡ some t.previous
  WrittenAs unsafe t file = Unit {0}

  -- The file of an engine in service: it holds the policy in memory, unless the write of a learning
  -- transaction has ended and was not finalized yet.
  pub data Storage (d : Daemon o) : Type 0 where
    settled :
        d.reservation ≡ none
        → is_flying d.engine.learning_persistence ≡ false
        → d.engine.pending_application_learning_candidate ≡ none
        → p.disk d.world ≡ some d.engine.state
        → Storage d
    writing :
        (t : ApplicationLearningTransaction)
        → d.reservation ≡ some t
        → d.persisted ≡ none
        → Flight d t
        → p.disk d.world ≡ some d.engine.state
        → Storage d
    written :
        (w : PersistedApplicationLearning)
        → d.reservation ≡ none
        → d.persisted ≡ some w
        → Flight d w.transaction
        → WrittenAs w.outcome w.transaction (p.disk d.world)
        → Storage d
    abandoned :
        (t : ApplicationLearningTransaction)
        → d.reservation ≡ none
        → d.persisted ≡ none
        → Flight d t
        → p.disk d.world ≡ some d.engine.state
        → Storage d

  pub record IsLive (d : Daemon o) : Type 0 where
    pub clean :
        (d.engine.poisoned ≡ false) × (d.engine.fatal ≡ false) × (d.engine.restart_required ≡ false)
    pub superseded :
        (token : ℕ)
        → d.engine.superseded_learning_transaction ≡ some token
        → token ≤ d.engine.next_learning_transaction
    pub served :
        ((d.engine.startup_policy ≡ startup_pending) × (p.kernel d.world ≡ closed))
        ⊎ ((d.engine.startup_policy ≡ startup_active) × Serves (p.kernel d.world) d.engine.state)
    pub storage : Storage d

  -- A poisoned engine that does not call for its end has the kernel closed. In service its policy
  -- says so, and where it asks for a restart, the file does.
  pub record IsQuarantined (d : Daemon o) : Type 0 where
    pub poisoned : d.engine.poisoned ≡ true
    pub kernel_closed : d.engine.fatal ≡ false → p.kernel d.world ≡ closed
    pub blocks_all :
        d.engine.fatal ≡ false
        → d.engine.startup_policy ≡ startup_active
        → d.engine.state.mode ≡ block_all
    pub durable :
        d.engine.fatal ≡ false
        → d.engine.restart_required ≡ true
        → (p.disk d.world ≡ some d.engine.state) × (d.reservation ≡ none)

  abbrev pub Agrees : Daemon o → Type 0
  Agrees d = IsLive d ⊎ IsQuarantined d

  -- An engine that was poisoned before its activation, which installed its policy all the same.
  pub record IsReleased (d : Daemon o) : Type 0 where
    pub poisoned : d.engine.poisoned ≡ true
    pub active : d.engine.startup_policy ≡ startup_active
    pub enforced : p.kernel d.world ≡ enforces (snapshot d.engine.state)

  -- What a method leaves beside its result.
  pub record Keeps {E A : Type 0} (r : Result E A × Daemon o) : Type 0 where
    pub agrees : Agrees r.1
