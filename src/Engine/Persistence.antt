-- ===== src/Engine/Persistence.antt =====
-- `PersistenceCoordinator` of crates/openshield-daemon/src/engine.rs. The write of a learning
-- transaction runs without the engine's lock, under a reservation. A writer that needs the file for
-- itself waits until the reservation is gone: its owner writes, or ends before it does.
use open_shield.Base.{ℕ, Bool, Option, none, some, same, ◌==◌, is_some_and, if◌then◌else◌}
use open_shield.Base.Outcome.{Result, ok, err}
use open_shield.Base.Text.{Text, codes}
use open_shield.State.Data.{State}
use open_shield.State.Equality.{State-discrete}
use open_shield.Protocol.Errors.{ProtocolError, protocol_error, conflict}
use open_shield.Engine.Data.{
  PersistedStateAfterFailure, is_previous, is_candidate_or_unknown, LearningStoreOutcome, saved,
  previous_retained, unsafe, ApplicationLearningTransaction,
}
use open_shield.Engine.Outside.{Outside, Daemon}

unfoldable pub persisted_state_after_failed_save_result :
    Option State → State → State → PersistedStateAfterFailure
persisted_state_after_failed_save_result none previous candidate = is_candidate_or_unknown
persisted_state_after_failed_save_result (some persisted) previous candidate =
    if same State-discrete persisted previous then is_previous else is_candidate_or_unknown

-- The `match` on what `load` returned.
abbrev pub after_failed_save :
    Result Text (Option State) → State → State → PersistedStateAfterFailure
after_failed_save (ok persisted) previous candidate =
    persisted_state_after_failed_save_result persisted previous candidate
after_failed_save (err _) previous candidate = is_candidate_or_unknown

abbrev pub rollback_outcome : Result Text Unit → LearningStoreOutcome
rollback_outcome (ok _) = previous_retained
rollback_outcome (err _) = unsafe

module _ (o : Outside) where
  -- The branches behind a save of the candidate that failed.
  unfoldable pub retain_previous : State → State → o.World → LearningStoreOutcome × o.World
  unfolding persisted_state_after_failed_save_result
  retain_previous previous candidate w =
      let loaded = o.load w in
      let saved_again = o.save previous loaded.1 in
      elim (after_failed_save loaded.0 previous candidate) [
        | is_candidate_or_unknown ↦ (rollback_outcome saved_again.0, saved_again.1)
        | is_previous ↦ (previous_retained, loaded.1)
      ]

  unfoldable pub store_learning : State → State → o.World → LearningStoreOutcome × o.World
  unfolding retain_previous
  store_learning previous candidate w =
      let stored = o.save candidate w in
      let retained = retain_previous previous candidate stored.1 in
      elim stored.0 [ ok _ ↦ (saved, stored.1) | err _ ↦ retained ]

  abbrev pub holds_reservation : ℕ → Daemon o → Bool
  holds_reservation token d = is_some_and d.reservation (λ t. t.token == token)

  unfoldable pub cancel_learning_reservation : ℕ → Daemon o → Daemon o
  cancel_learning_reservation token d =
      if holds_reservation token d then record d { reservation = none } else d

  unfoldable pub persist_learning : ℕ → State → State → Daemon o → LearningStoreOutcome × Daemon o
  unfolding store_learning cancel_learning_reservation
  persist_learning token previous candidate d =
      let stored = store_learning previous candidate d.world in
      if holds_reservation token d
      then (stored.0, cancel_learning_reservation token (record d { world = stored.1 }))
      else (unsafe, d)

  -- `ApplicationLearningTransaction::persist`.
  unfoldable pub persist : ApplicationLearningTransaction → Daemon o → Daemon o
  unfolding persist_learning
  persist t d =
      let done = persist_learning t.token t.previous t.candidate d in
      record done.1 { persisted = some (record { transaction = t; outcome = done.0 }) }

  -- The owner of the reservation goes on: it writes, or ends.
  unfoldable pub owner_proceeds : ApplicationLearningTransaction → Daemon o → Daemon o
  unfolding persist cancel_learning_reservation
  owner_proceeds t d =
      let written = persist t d in
      if o.abandons d.world then cancel_learning_reservation t.token d else written

  abbrev pub proceed : Option ApplicationLearningTransaction → Daemon o → Daemon o
  proceed none d = d
  proceed (some t) d = owner_proceeds t d

  unfoldable pub wait_until_exclusive : Daemon o → Daemon o
  unfolding owner_proceeds
  wait_until_exclusive d = proceed d.reservation d

  unfoldable pub save_exclusive : State → Daemon o → Result Text Unit × Daemon o
  unfolding wait_until_exclusive
  save_exclusive s d =
      let free = wait_until_exclusive d in
      let stored = o.save s free.world in (stored.0, record free { world = stored.1 })

  unfoldable pub load_exclusive : Daemon o → Result Text (Option State) × Daemon o
  unfolding wait_until_exclusive
  load_exclusive d =
      let free = wait_until_exclusive d in
      let loaded = o.load free.world in (loaded.0, record free { world = loaded.1 })

  -- `Engine::persisted_state_after_failed_save`.
  unfoldable pub persisted_state_after_failed_save :
      State → State → Daemon o → PersistedStateAfterFailure × Daemon o
  unfolding load_exclusive persisted_state_after_failed_save_result
  persisted_state_after_failed_save previous candidate d =
      let loaded = load_exclusive d in (after_failed_save loaded.0 previous candidate, loaded.1)

  -- The test of the reservation in `reserve_learning`.
  abbrev pub reserve_beside :
      Option ApplicationLearningTransaction
      → ApplicationLearningTransaction
      → Daemon o
      → Result ProtocolError (Daemon o)
  reserve_beside none t d = ok (record d { reservation = some t })
  reserve_beside (some _) t d = err (
      protocol_error conflict
        (codes "another automatic-learning transaction is already being persisted"))

  -- `reserve_learning`, for a transaction that has its token.
  unfoldable pub reserve_learning :
      ApplicationLearningTransaction → Daemon o → Result ProtocolError (Daemon o)
  reserve_learning t d = reserve_beside d.reservation t d
