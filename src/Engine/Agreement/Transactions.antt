-- ===== src/Engine/Agreement/Transactions.antt =====
-- Learning transactions of crates/openshield-daemon/src/engine.rs: their preparation, their write and
-- their end keep memory, kernel and file in agreement.
use open_shield.Base.{
  ◌≡◌, ◌⊎◌, refl, sym, ◌∙◌, subst, ℕ, ◌≤◌, true, false, not, ◌||◌, Option, none, some, arith, inl,
  inr, if_cases, same, max,
}
use open_shield.Base.Outcome.{Result, ok, err}
use open_shield.Model.Kinds.{learning}
use open_shield.State.Data.{State}
use open_shield.State.Equality.{State-discrete}
use open_shield.Protocol.Errors.{ProtocolError}
use open_shield.Engine.Data.{
  startup_active, startup_pending, LearningStoreOutcome, saved, previous_retained, unsafe,
  ApplicationLearningTransaction, PersistedApplicationLearning,
}
use open_shield.Engine.Outside.{Outside, Promises, Kernel, closed, Daemon}
use open_shield.Engine.Decision.{replace_state}
use open_shield.Engine.Persistence.{owner_proceeds, store_learning}
use open_shield.Engine.Emergency.{on_engine, emergency_protocol_error}
use open_shield.Engine.Commit.{emergency}
use open_shield.Engine.Learning.{
  conclude, is_superseded, is_in_flight, finalize_application_learning,
}
use open_shield.Engine.Agreement.{
  IsLive, IsQuarantined, Agrees, Storage, settled, writing, written, abandoned, Flight, Serves,
  exactly, learning_since, entirely_closed, WrittenAs,
}
use open_shield.Engine.Agreement.Writing.{
  owner_cases, kernel-store_learning, store_learning-Written,
}
use open_shield.Engine.Agreement.Emergencies.{emergency-IsQuarantined}

pub some-injective : {A : Type 0} {a b : A} → ◌≡◌ {A = Option A} (some a) (some b) → a ≡ b
some-injective h = cc

-- A kernel that serves a policy in learning serves what it has learned since.
Serves-learned :
    (k : Kernel) (s t : State)
    → Serves k s
    → s.mode ≡ learning
    → t.mode ≡ learning
    → t.flow_generation ≡ s.flow_generation
    → Serves k t
Serves-learned k s t (exactly h) hs ht g = learning_since s h hs ht g
Serves-learned k s t (learning_since base h mode _ since) hs ht g =
    learning_since base h mode ht (g ∙ since)
Serves-learned k s t (entirely_closed _ shut) hs ht g = absurd (let no : ⊥ = cc in no)

module _ (o : Outside) (p : Promises o) where
  pub Flight-engine :
      (t : ApplicationLearningTransaction) (d e : Daemon o)
      → e.engine ≡ d.engine
      → Flight o p d t
      → Flight o p e t
  Flight-engine t d e h f = record {
    flying = rw h f.flying;
    pending = rw h f.pending;
    base = rw h f.base;
    fresh = rw h f.fresh;
    latest = rw h f.latest;
    mode = rw h f.mode;
    candidate_mode = f.candidate_mode;
    generation = rw h f.generation;
  }

  -- The owner of the reservation writes or ends.
  pub owner-Agrees :
      (t : ApplicationLearningTransaction) (d : Daemon o)
      → d.reservation ≡ some t
      → Agrees o p d
      → Agrees o p (owner_proceeds o t d)
  owner-Agrees t d held (inr q) =
      let taken : d.engine.fatal ≡ false → d.engine.restart_required ≡ true → ⊥ =
        λ sound asks. let free = (q.durable sound asks).1 in cc in
      inr (
        owner_cases o p (IsQuarantined o p) t d held
          (record {
            poisoned = q.poisoned;
            kernel_closed = q.kernel_closed;
            blocks_all = q.blocks_all;
            durable = λ sound asks. absurd (taken sound asks);
          })
          (record {
            poisoned = q.poisoned;
            kernel_closed = λ sound.
                kernel-store_learning o p t.previous t.candidate d.world ∙ q.kernel_closed sound;
            blocks_all = q.blocks_all;
            durable = λ sound asks. absurd (taken sound asks);
          }))
  owner-Agrees t d held (inl live) = inl (owner_live live.storage)
    where
      kernel : p.kernel (store_learning o t.previous t.candidate d.world).1 ≡ p.kernel d.world
      kernel = kernel-store_learning o p t.previous t.candidate d.world

      owner_live : Storage o p d → IsLive o p (owner_proceeds o t d)
      owner_live (settled free _ _ _) = absurd (let no : ⊥ = cc in no)
      owner_live (written _ free _ _ _) = absurd (let no : ⊥ = cc in no)
      owner_live (abandoned _ free _ _ _) = absurd (let no : ⊥ = cc in no)
      owner_live (writing u held_u empty f file) =
          let own : Flight o p d t = subst (Flight o p d) (some-injective (sym held_u ∙ held)) f in
          owner_cases o p (IsLive o p) t d held
            (record {
              clean = live.clean;
              superseded = live.superseded;
              served = live.served;
              storage = abandoned t refl empty (Flight-engine t d _ refl own) file;
            })
            (record {
              clean = live.clean;
              superseded = live.superseded;
              served = rw kernel live.served;
              storage =
                  written _ refl refl (Flight-engine t d _ refl own)
                    (store_learning-Written o p t d.world);
            })

  conclude-Agrees :
      (w : PersistedApplicationLearning) (d e : Daemon o)
      → IsLive o p e
      → d.engine ≡ e.engine
      → d.world ≡ e.world
      → d.reservation ≡ none
      → Flight o p d w.transaction
      → WrittenAs o p w.outcome w.transaction (p.disk d.world)
      → Agrees o p (conclude o w.transaction w.outcome d).1
  unfolding conclude replace_state emergency
  conclude-Agrees w d e before same_engine same_world free f file = by_outcome w.outcome file
    where
      t : ApplicationLearningTransaction
      t = w.transaction

      clean :
          (d.engine.poisoned ≡ false)
          × (d.engine.fatal ≡ false)
          × (d.engine.restart_required ≡ false)
      clean = rw same_engine before.clean

      superseded :
          (token : ℕ)
          → d.engine.superseded_learning_transaction ≡ some token
          → token ≤ d.engine.next_learning_transaction
      superseded = rw same_engine before.superseded

      still :
          ((d.engine.startup_policy ≡ startup_pending) × (p.kernel d.world ≡ closed))
          ⊎ ((d.engine.startup_policy ≡ startup_active) × Serves (p.kernel d.world) d.engine.state)
      still = rw (same_engine, same_world) before.served

      served :
          ((d.engine.startup_policy ≡ startup_pending) × (p.kernel d.world ≡ closed))
            ⊎ ((d.engine.startup_policy ≡ startup_active)
                × Serves (p.kernel d.world) d.engine.state)
          → ((d.engine.startup_policy ≡ startup_pending) × (p.kernel d.world ≡ closed))
            ⊎ ((d.engine.startup_policy ≡ startup_active) × Serves (p.kernel d.world) t.candidate)
      served (inl waiting) = inl waiting
      served (inr (active, serves)) = inr (
        active,
        Serves-learned (p.kernel d.world) d.engine.state t.candidate serves f.mode f.candidate_mode
            f.generation,
      )

      by_outcome :
          (outcome : LearningStoreOutcome)
          → WrittenAs o p outcome t (p.disk d.world)
          → Agrees o p (conclude o t outcome d).1
      by_outcome saved h = inl (record {
        clean = clean;
        superseded = superseded;
        served = served still;
        storage = settled free refl refl h;
      })
      by_outcome previous_retained h = inl (record {
        clean = clean;
        superseded = superseded;
        served = still;
        storage = settled free refl refl (rw (← f.base) h);
      })
      by_outcome unsafe h =
          inr (emergency-IsQuarantined o p (max d.engine.state.revision t.candidate.revision) d)

  pub finalize_cases :
      (P : Result ProtocolError ℕ × Daemon o → Type 0) (w : PersistedApplicationLearning)
      (d : Daemon o)
      → (is_superseded o w.transaction.token d.engine.superseded_learning_transaction ≡ true
          → P (ok 0, on_engine o (λ e. record e { superseded_learning_transaction = none }) d))
      → (d.engine.fatal || d.engine.poisoned ≡ true
          → P (err (emergency_protocol_error d.engine), d))
      → (d.engine.fatal || d.engine.poisoned ≡ false
          → not (is_in_flight w.transaction.token d.engine.learning_persistence)
              || not (same State-discrete d.engine.state w.transaction.previous)
            ≡ true
          → P (
              emergency o {A = ℕ} (max d.engine.state.revision w.transaction.candidate.revision) d))
      → (not (is_in_flight w.transaction.token d.engine.learning_persistence)
              || not (same State-discrete d.engine.state w.transaction.previous)
            ≡ false
          → d.engine.fatal || d.engine.poisoned ≡ false
          → P (conclude o w.transaction w.outcome d))
      → P (finalize_application_learning o w d)
  unfolding finalize_application_learning
  finalize_cases P w d withdrawn locked confused concluded =
      let t = w.transaction in
      let old = is_superseded o t.token d.engine.superseded_learning_transaction in
      let shut = d.engine.fatal || d.engine.poisoned in
      let odd =
        not (is_in_flight t.token d.engine.learning_persistence)
        || not (same State-discrete d.engine.state t.previous) in
      if_cases P old _ _ withdrawn
        λ _. if_cases P shut _ _ locked λ f. if_cases P odd _ _ (confused f) λ g. concluded g f

  -- The end of a transaction, which the learner hands over.
  pub finalize-Agrees :
      (w : PersistedApplicationLearning) (d : Daemon o)
      → d.persisted ≡ some w
      → Agrees o p d
      → Agrees o p (finalize_application_learning o w (record d { persisted = none })).1
  unfolding emergency
  finalize-Agrees w d handed (inr q) =
      let again : IsQuarantined o p (record d { persisted = none }) = record {
        poisoned = q.poisoned;
        kernel_closed = q.kernel_closed;
        blocks_all = q.blocks_all;
        durable = q.durable;
      } in
      finalize_cases (λ r. Agrees o p r.1) w (record d { persisted = none })
        (λ _. inr (record {
          poisoned = q.poisoned;
          kernel_closed = q.kernel_closed;
          blocks_all = q.blocks_all;
          durable = q.durable;
        }))
        (λ _. inr again) (λ sound. absurd (ground (arith, sound, q.poisoned)))
        (λ _ sound. absurd (ground (arith, sound, q.poisoned)))
  finalize-Agrees w d handed (inl live) =
      finalize_cases (λ r. Agrees o p r.1) w taken (withdrawn live.storage)
        (λ shut. absurd (ground (arith, shut, live.clean)))
        (λ _ _. inr (
          emergency-IsQuarantined o p (max d.engine.state.revision w.transaction.candidate.revision)
            taken))
        (λ sure _. concluded live.storage sure)
    where
      taken : Daemon o
      taken = record d { persisted = none }

      withdrawn :
          Storage o p d
          → is_superseded o w.transaction.token d.engine.superseded_learning_transaction ≡ true
          → Agrees o p
              (on_engine o (λ e. record e { superseded_learning_transaction = none }) taken)
      withdrawn (settled free grounded nothing file) old = inl (record {
        clean = live.clean;
        superseded = λ token no. cc;
        served = live.served;
        storage = settled free grounded nothing file;
      })
      withdrawn (writing _ _ empty _ _) old = absurd (let no : ⊥ = cc in no)
      withdrawn (abandoned _ _ empty _ _) old = absurd (let no : ⊥ = cc in no)
      withdrawn (written v _ held f _) old =
          let own : Flight o p d w.transaction =
            subst (λ u. Flight o p d u.transaction) (some-injective (sym held ∙ handed)) f in
          absurd (let young = own.fresh in let no : ⊥ = cc in no)

      concluded :
          Storage o p d
          → not (is_in_flight w.transaction.token d.engine.learning_persistence)
              || not (same State-discrete d.engine.state w.transaction.previous)
            ≡ false
          → Agrees o p (conclude o w.transaction w.outcome taken).1
      concluded (settled free grounded nothing file) sure = absurd (ground (arith, grounded, sure))
      concluded (writing _ _ empty _ _) sure = absurd (let no : ⊥ = cc in no)
      concluded (abandoned _ _ empty _ _) sure = absurd (let no : ⊥ = cc in no)
      concluded (written v free held f file) sure =
          let e = some-injective (sym held ∙ handed) in
          let own : Flight o p d w.transaction = subst (λ u. Flight o p d u.transaction) e f in
          let found : WrittenAs o p w.outcome w.transaction (p.disk d.world) =
            subst (λ u. WrittenAs o p u.outcome u.transaction (p.disk d.world)) e file in
          conclude-Agrees w taken d live refl refl free
            (Flight-engine w.transaction d taken refl own) found
