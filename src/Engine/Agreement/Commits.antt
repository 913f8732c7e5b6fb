-- ===== src/Engine/Agreement/Commits.antt =====
-- `commit` of crates/openshield-daemon/src/engine.rs is a transaction over kernel, file and memory.
use open_shield.Base.{
  ◌≡◌, refl, ap, ◌∙◌, ℕ, ◌≤◌, false, not, ◌||◌, none, some, List, inl, inr, if◌then◌else◌, max,
}
use open_shield.Base.Outcome.{Result, ok, err, is_ok}
use open_shield.Base.Text.{Text}
use open_shield.State.Data.{State, Event, snapshot}
use open_shield.Protocol.Errors.{ProtocolError}
use open_shield.Engine.Data.{Engine, startup_active}
use open_shield.Engine.Outside.{Outside, Promises, enforces, Daemon}
use open_shield.Engine.Decision.{replace_state}
use open_shield.Engine.Persistence.{save_exclusive, persisted_state_after_failed_save}
use open_shield.Engine.Emergency.{on_engine}
use open_shield.Engine.Commit.{
  emergency, restore_previous, roll_storage_back, roll_back, accept_candidate, store_candidate,
  commit,
}
use open_shield.Engine.Agreement.{IsLive, IsQuarantined, settled, exactly, is_flying}
use open_shield.Engine.Agreement.Writing.{
  Result-cases, Verdict-cases, IsExclusive-trans, IsSaved, save_exclusive-IsSaved,
  found-IsExclusive, found_previous,
}
use open_shield.Engine.Agreement.Emergencies.{emergency-IsQuarantined}

-- An engine in service that waits for no learning transaction.
pub record IsQuiet (e : Engine) : Type 0 where
  pub clean : (e.poisoned ≡ false) × (e.fatal ≡ false) × (e.restart_required ≡ false)
  pub superseded :
      (token : ℕ)
      → e.superseded_learning_transaction ≡ some token
      → token ≤ e.next_learning_transaction
  pub active : e.startup_policy ≡ startup_active
  pub grounded : is_flying e.learning_persistence ≡ false
  pub nothing_pending : e.pending_application_learning_candidate ≡ none

module _ (o : Outside) (p : Promises o) where
  -- In service, with memory, kernel and file at one policy.
  pub record IsServing (d : Daemon o) : Type 0 where
    pub quiet : IsQuiet d.engine
    pub kernel : p.kernel d.world ≡ enforces (snapshot d.engine.state)
    pub disk : p.disk d.world ≡ some d.engine.state
    pub free : d.reservation ≡ none

  pub IsServing-IsLive : (d : Daemon o) → IsServing d → IsLive o p d
  IsServing-IsLive d s = record {
    clean = s.quiet.clean;
    superseded = s.quiet.superseded;
    served = inr (s.quiet.active, exactly s.kernel);
    storage = settled s.free s.quiet.grounded s.quiet.nothing_pending s.disk;
  }

  -- The three ways in which a transaction ends.
  pub data Ends {A : Type 0} (before candidate : State)
      : Result ProtocolError A × Daemon o → Type 0 where
    committed :
        (a : A) (d : Daemon o)
        → d.engine.state ≡ candidate
        → IsServing d
        → Ends before candidate (ok a, d)
    restored :
        (e : ProtocolError) (d : Daemon o)
        → d.engine.state ≡ before
        → IsServing d
        → Ends before candidate (err e, d)
    quarantined :
        (e : ProtocolError) (d : Daemon o) → IsQuarantined o p d → Ends before candidate (err e, d)

  module _ (before candidate : State) where
    emergency-Ends :
        {A : Type 0} (floor : ℕ) (d : Daemon o)
        → Ends before candidate (emergency o {A = A} floor d)
    unfolding emergency
    emergency-Ends floor d = quarantined _ _ (emergency-IsQuarantined o p floor d)

    restore-Ends :
        (d : Daemon o)
        → IsQuiet d.engine
        → d.engine.state ≡ before
        → d.reservation ≡ none
        → p.disk d.world ≡ some before
        → Ends before candidate (restore_previous o before candidate d)
    unfolding restore_previous
    restore-Ends d quiet now free file = elim (Result-cases (o.apply (snapshot before) d.world).0) [
      | inl (_, e) ↦
          rw (e, restore_previous)
            (restored _ _ now (record {
              quiet = record {
                clean = quiet.clean;
                superseded = quiet.superseded;
                active = quiet.active;
                grounded = quiet.grounded;
                nothing_pending = quiet.nothing_pending;
              };
              kernel = rw now (p.apply_ok (snapshot before) d.world e);
              disk = rw now (p.disk-apply (snapshot before) d.world ∙ file);
              free = free;
            }))
      | inr (_, e) ↦
          rw (e, restore_previous)
            (emergency-Ends (max before.revision candidate.revision)
              (record d { world = (o.apply (snapshot before) d.world).1 }))
    ]

    roll_storage-IsSaved :
        (d : Daemon o) → IsSaved o p d before (roll_storage_back o before candidate d)
    unfolding roll_storage_back
    roll_storage-IsSaved d =
        let found = persisted_state_after_failed_save o before candidate d in
        let looked = found-IsExclusive o p before candidate d in
        let again = save_exclusive-IsSaved o p before found.1 in
        elim (Verdict-cases found.0) [
          | inl e ↦
              rw (e, roll_storage_back)
                (record {
                  exclusive = looked;
                  stored = λ _. found_previous o p before candidate d e;
                })
          | inr e ↦
              rw (e, roll_storage_back)
                (record {
                  exclusive = IsExclusive-trans o p looked again.exclusive;
                  stored = again.stored;
                })
        ]

    rolled_back-Ends :
        (d : Daemon o) (kernel : Result Text Unit) (storage : Result Text Unit × Daemon o)
        (error : ProtocolError)
        → IsQuiet d.engine
        → d.engine.state ≡ before
        → (kernel ≡ ok tt → p.kernel d.world ≡ enforces (snapshot before))
        → IsSaved o p d before storage
        → Ends before candidate (
            if not (is_ok kernel) || not (is_ok storage.0)
            then emergency o {A = Unit {0}} (max before.revision candidate.revision) storage.1
            else (err error, storage.1))
    rolled_back-Ends d (err _) storage error quiet now installed x =
        emergency-Ends (max before.revision candidate.revision) storage.1
    rolled_back-Ends d (ok _) (err _, e) error quiet now installed x =
        emergency-Ends (max before.revision candidate.revision) e
    rolled_back-Ends d (ok _) (ok _, e) error quiet now installed x =
        let same_engine = x.exclusive.engine in
        restored error e (rw same_engine now) (record {
          quiet = rw same_engine quiet;
          kernel = rw (same_engine, now) (x.exclusive.kernel ∙ installed refl);
          disk = rw (same_engine, now) (x.stored refl);
          free = x.exclusive.free;
        })

    roll_back-Ends :
        (d : Daemon o)
        → IsQuiet d.engine
        → d.engine.state ≡ before
        → Ends before candidate (roll_back o before candidate d)
    unfolding roll_back
    roll_back-Ends d quiet now =
        let restoring = o.apply (snapshot before) d.world in
        let after : Daemon o = record d { world = restoring.1 } in
        rolled_back-Ends after restoring.0 (roll_storage_back o before candidate after) _ quiet now
          (p.apply_ok (snapshot before) d.world) (roll_storage-IsSaved after)

  -- Memory takes the candidate.
  module _ (candidate : State) where
    accepted-IsServing :
        (events : List Event) (d : Daemon o)
        → IsQuiet d.engine
        → p.kernel d.world ≡ enforces (snapshot candidate)
        → p.disk d.world ≡ some candidate
        → d.reservation ≡ none
        → IsServing (on_engine o (accept_candidate o candidate events) d)
    unfolding replace_state
    accepted-IsServing events d quiet installed file free = record {
      quiet = record {
        clean = quiet.clean;
        superseded = quiet.superseded;
        active = quiet.active;
        grounded = refl;
        nothing_pending = refl;
      };
      kernel = installed;
      disk = file;
      free = free;
    }

    store-Ends :
        (events : List Event) (d : Daemon o)
        → IsQuiet d.engine
        → p.kernel d.world ≡ enforces (snapshot candidate)
        → Ends d.engine.state candidate (store_candidate o candidate events d)
    unfolding store_candidate replace_state
    store-Ends events d quiet installed =
        let stored = save_exclusive o candidate d in
        let x = save_exclusive-IsSaved o p candidate d in
        let still : IsQuiet stored.1.engine = rw x.exclusive.engine quiet in
        elim (Result-cases stored.0) [
          | inl (_, e) ↦
              rw (e, store_candidate)
                (committed tt _ refl (
                  accepted-IsServing events stored.1 still (x.exclusive.kernel ∙ installed)
                    (x.stored e) x.exclusive.free))
          | inr (_, e) ↦
              rw (e, store_candidate)
                (roll_back-Ends d.engine.state candidate stored.1 still
                  (ap (λ (g : Engine). g.state) x.exclusive.engine))
        ]

    -- A transaction of a quiet engine ends in one of three ways, whatever calls fail: memory,
    -- kernel and file are at the candidate; or an error is returned and all three are at the
    -- policy before it; or an error is returned from quarantine.
    pub commit-Ends :
        (events : List Event) (d : Daemon o)
        → IsQuiet d.engine
        → d.reservation ≡ none
        → p.disk d.world ≡ some d.engine.state
        → Ends d.engine.state candidate (commit o candidate events d)
    unfolding commit
    commit-Ends events d quiet free file =
        let applied = o.apply (snapshot candidate) d.world in
        let after : Daemon o = record d { world = applied.1 } in
        elim (Result-cases applied.0) [
          | inl (_, e) ↦
              rw (e, commit)
                (store-Ends events after quiet (p.apply_ok (snapshot candidate) d.world e))
          | inr (_, e) ↦
              rw (e, commit)
                (restore-Ends d.engine.state candidate after quiet refl free
                  (p.disk-apply (snapshot candidate) d.world ∙ file))
        ]
