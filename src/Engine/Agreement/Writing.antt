-- ===== src/Engine/Agreement/Writing.antt =====
-- The writes of the state file in crates/openshield-daemon/src/engine.rs touch neither the kernel
-- nor the engine, and leave what they report.
use open_shield.Base.{
  ◌≡◌, ◌⊎◌, refl, sym, ap, ◌∙◌, true, Option, none, some, arith, Bool-cases, inl, inr, same,
  same_iff,
}
use open_shield.Base.Outcome.{Result, ok, err}
use open_shield.Base.Text.{Text}
use open_shield.State.Data.{State}
use open_shield.State.Equality.{State-discrete}
use open_shield.Engine.Data.{
  is_previous, is_candidate_or_unknown, LearningStoreOutcome, saved, previous_retained,
  ApplicationLearningTransaction, PersistedStateAfterFailure,
}
use open_shield.Engine.Outside.{Outside, Promises, Daemon}
use open_shield.Engine.Persistence.{
  persisted_state_after_failed_save_result, after_failed_save, rollback_outcome, retain_previous,
  store_learning, cancel_learning_reservation, persist_learning, persist, owner_proceeds, proceed,
  holds_reservation, wait_until_exclusive, save_exclusive, load_exclusive,
  persisted_state_after_failed_save,
}
use open_shield.Engine.Agreement.{WrittenAs}

pub Result-cases :
    {E A : Type 0} (r : Result E A) → ((a : A) × (r ≡ ok a)) ⊎ ((e : E) × (r ≡ err e))
Result-cases (ok a) = inl (a, refl)
Result-cases (err e) = inr (e, refl)

pub Verdict-cases :
    (v : PersistedStateAfterFailure) → (v ≡ is_previous) ⊎ (v ≡ is_candidate_or_unknown)
Verdict-cases is_previous = inl refl
Verdict-cases is_candidate_or_unknown = inr refl

-- A reported `Previous` is right.
previous_found :
    (r : Result Text (Option State)) (previous candidate : State)
    → after_failed_save r previous candidate ≡ is_previous
    → r ≡ ok (some previous)
unfolding persisted_state_after_failed_save_result
previous_found (ok none) previous candidate h = absurd (ground arith)
previous_found (ok (some s)) previous candidate h =
    elim (Bool-cases (same State-discrete s previous)) [
      | inl e ↦
          let found : s ≡ previous = (same_iff State-discrete s previous).0 e in
          ap (λ (z : State). ok (some z)) found
      | inr e ↦ absurd (ground arith)
    ]
previous_found (err _) previous candidate h = absurd (ground arith)

module _ (o : Outside) where
  retain_cases :
      (P : LearningStoreOutcome × o.World → Type 0) (previous candidate : State) (w : o.World)
      → (after_failed_save (o.load w).0 previous candidate ≡ is_previous
          → P (previous_retained, (o.load w).1))
      → P (rollback_outcome (o.save previous (o.load w).1).0, (o.save previous (o.load w).1).1)
      → P (retain_previous o previous candidate w)
  unfolding retain_previous
  retain_cases P previous candidate w kept rolled =
      elim (Verdict-cases (after_failed_save (o.load w).0 previous candidate)) [
        | inl e ↦ rw (e, retain_previous) (kept e)
        | inr e ↦ rw (e, retain_previous) rolled
      ]

  store_cases :
      (P : LearningStoreOutcome × o.World → Type 0) (previous candidate : State) (w : o.World)
      → ((o.save candidate w).0 ≡ ok tt → P (saved, (o.save candidate w).1))
      → P (retain_previous o previous candidate (o.save candidate w).1)
      → P (store_learning o previous candidate w)
  unfolding store_learning
  store_cases P previous candidate w done failed = elim (Result-cases (o.save candidate w).0) [
    | inl (_, e) ↦ rw (e, store_learning) (done e)
    | inr (_, e) ↦ rw (e, store_learning) failed
  ]

module _ (o : Outside) (p : Promises o) where
  pub kernel-store_learning :
      (previous candidate : State) (w : o.World)
      → p.kernel (store_learning o previous candidate w).1 ≡ p.kernel w
  kernel-store_learning previous candidate w =
      let first = p.kernel-save candidate w in
      let v = (o.save candidate w).1 in
      store_cases o (λ r. p.kernel r.1 ≡ p.kernel w) previous candidate w (λ _. first)
        (retain_cases o (λ r. p.kernel r.1 ≡ p.kernel w) previous candidate v
          (λ _. p.kernel-load v ∙ first)
          (p.kernel-save previous (o.load v).1 ∙ p.kernel-load v ∙ first))

  rolled_back-Written :
      (t : ApplicationLearningTransaction) (w : o.World)
      → WrittenAs o p (rollback_outcome (o.save t.previous w).0) t (p.disk (o.save t.previous w).1)
  rolled_back-Written t w = elim (Result-cases (o.save t.previous w).0) [
    | inl (_, e) ↦ rw e (p.save_ok t.previous w e)
    | inr (_, e) ↦ rw e tt
  ]

  pub store_learning-Written :
      (t : ApplicationLearningTransaction) (w : o.World)
      → WrittenAs o p
          (store_learning o t.previous t.candidate w).0
          t
          (p.disk (store_learning o t.previous t.candidate w).1)
  store_learning-Written t w =
      let Right = λ (r : LearningStoreOutcome × o.World). WrittenAs o p r.0 t (p.disk r.1) in
      let v = (o.save t.candidate w).1 in
      store_cases o Right t.previous t.candidate w (λ e. p.save_ok t.candidate w e)
        (retain_cases o Right t.previous t.candidate v
          (λ e.
            p.disk-load v
            ∙ sym (
                p.load_ok v (some t.previous)
                  (previous_found (o.load v).0 t.previous t.candidate e)))
          (rolled_back-Written t (o.load v).1))

  -- An exclusive access of the file: engine and kernel stay, and no reservation is left.
  pub record IsExclusive (d e : Daemon o) : Type 0 where
    pub engine : e.engine ≡ d.engine
    pub kernel : p.kernel e.world ≡ p.kernel d.world
    pub free : e.reservation ≡ none

  pub persist_cases :
      (P : Daemon o → Type 0) (t : ApplicationLearningTransaction) (d : Daemon o)
      → d.reservation ≡ some t
      → (let r = store_learning o t.previous t.candidate d.world in
          P (record d {
            reservation = none;
            persisted = some (record { transaction = t; outcome = r.0 });
            world = r.1;
          }))
      → P (persist o t d)
  unfolding persist persist_learning cancel_learning_reservation
  persist_cases P t d h g =
      let own : holds_reservation o t.token d ≡ true = rw h (ground arith) in rw (own, persist) g

  pub owner_cases :
      (P : Daemon o → Type 0) (t : ApplicationLearningTransaction) (d : Daemon o)
      → d.reservation ≡ some t
      → P (record d { reservation = none })
      → (let r = store_learning o t.previous t.candidate d.world in
          P (record d {
            reservation = none;
            persisted = some (record { transaction = t; outcome = r.0 });
            world = r.1;
          }))
      → P (owner_proceeds o t d)
  unfolding owner_proceeds cancel_learning_reservation
  owner_cases P t d h ended wrote =
      let own : holds_reservation o t.token d ≡ true = rw h (ground arith) in
      elim (Bool-cases (o.abandons d.world)) [
        | inl e ↦ rw (e, own, owner_proceeds) ended
        | inr e ↦ rw (e, owner_proceeds) (persist_cases P t d h wrote)
      ]

  proceed-IsExclusive :
      (owner : Option ApplicationLearningTransaction) (d : Daemon o)
      → d.reservation ≡ owner
      → IsExclusive d (proceed o owner d)
  proceed-IsExclusive none d h = record { engine = refl; kernel = refl; free = h }
  proceed-IsExclusive (some t) d h =
      owner_cases (IsExclusive d) t d h (record { engine = refl; kernel = refl; free = refl })
        (record {
          engine = refl;
          kernel = kernel-store_learning t.previous t.candidate d.world;
          free = refl;
        })

  pub wait-IsExclusive : (d : Daemon o) → IsExclusive d (wait_until_exclusive o d)
  unfolding wait_until_exclusive
  wait-IsExclusive d = proceed-IsExclusive d.reservation d refl

  pub record IsSaved (d : Daemon o) (s : State) (r : Result Text Unit × Daemon o) : Type 0 where
    pub exclusive : IsExclusive d r.1
    pub stored : r.0 ≡ ok tt → p.disk r.1.world ≡ some s

  -- An access of the world behind the wait, which leaves the kernel alone.
  behind :
      (d : Daemon o) (w : o.World)
      → p.kernel w ≡ p.kernel (wait_until_exclusive o d).world
      → IsExclusive d (record (wait_until_exclusive o d) { world = w })
  behind d w h =
      let x = wait-IsExclusive d in
      record { engine = x.engine; kernel = h ∙ x.kernel; free = x.free }

  pub save_exclusive-IsSaved : (s : State) (d : Daemon o) → IsSaved d s (save_exclusive o s d)
  unfolding save_exclusive
  save_exclusive-IsSaved s d =
      let w = (wait_until_exclusive o d).world in
      record {
        exclusive = behind d (o.save s w).1 (p.kernel-save s w);
        stored = λ e. p.save_ok s w e;
      }

  pub IsExclusive-trans : {d e f : Daemon o} → IsExclusive d e → IsExclusive e f → IsExclusive d f
  IsExclusive-trans x y = record {
    engine = y.engine ∙ x.engine;
    kernel = y.kernel ∙ x.kernel;
    free = y.free;
  }

  -- The verdict on the file behind a save that failed.
  pub found-IsExclusive :
      (previous candidate : State) (d : Daemon o)
      → IsExclusive d (persisted_state_after_failed_save o previous candidate d).1
  unfolding persisted_state_after_failed_save load_exclusive
  found-IsExclusive previous candidate d =
      let w = (wait_until_exclusive o d).world in behind d (o.load w).1 (p.kernel-load w)

  pub found_previous :
      (previous candidate : State) (d : Daemon o)
      → (persisted_state_after_failed_save o previous candidate d).0 ≡ is_previous
      → p.disk (persisted_state_after_failed_save o previous candidate d).1.world ≡ some previous
  unfolding persisted_state_after_failed_save load_exclusive
  found_previous previous candidate d h =
      let w = (wait_until_exclusive o d).world in
      p.disk-load w
      ∙ sym (p.load_ok w (some previous) (previous_found (o.load w).0 previous candidate h))
