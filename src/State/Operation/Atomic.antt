-- ===== src/State/Operation/Atomic.antt =====
-- A failed operation of crates/openshield-core/src/state.rs changes nothing, and a successful one
-- takes the next revision.
use open_shield.Base.{
  ℕ, ◌+◌, ◌≡◌, refl, ap, Bool, true, false, ◌&&◌, Option, List, [], ◌∷◌, arith, if◌then◌else◌,
}
use open_shield.Base.Outcome.{Result, ok, err, is_ok}
use open_shield.Model.Kinds.{Mode, enforcing, EnforcementStrategy}
use open_shield.Model.Rule.{Instant}
use open_shield.State.Data.{State, CoreError, next_revision}
use open_shield.State.Pins.{clear_disabled_template_pin_if_skeleton}
use open_shield.State.Mutation.{
  set_mode_at, enforce, update_rule_at, set_mode_with_strategy_at, set_generation,
}
use open_shield.State.Mutation.Cases.{
  rotate_cases, set_mode_cases, create_cases, update_cases, delete_cases, enable_cases,
}
use open_shield.State.Operation.{
  Operation, rotates, sets_mode, enforces, creates, updates, deletes, enables, forget, perform, run,
}

-- Rotation of the flow generation is the one change that the policy's revision does not count.
abbrev pub counts : Operation → Bool
counts (rotates _) = false
counts _ = true

-- What an operation that counts makes of the revision, and, where it fails, of the whole policy.
abbrev Advances : {A : Type 0} → State → Result CoreError A × State → Type 0
Advances s (ok a, t) = t.revision ≡ s.revision + 1
Advances s (err e, t) = t ≡ s

next : (s : State) (r : ℕ) → next_revision s ≡ ok r → r ≡ s.revision + 1
unfolding next_revision
next s r h = ground arith

next_assigned :
    (s m : State) (g : Option ℕ) (r : ℕ)
    → next_revision s ≡ ok r
    → (record (set_generation g m) { revision = r }).revision ≡ s.revision + 1
next_assigned s m g r h = next s r h

abbrev Forgotten : {A : Type 0} → State → Result CoreError A × State → Type 0
Forgotten s r = Advances s (forget r)

mode_Advances :
    (mode : Mode) (strategy : EnforcementStrategy) (now : Instant) (s : State)
    → Forgotten s (set_mode_with_strategy_at mode strategy now s)
mode_Advances mode strategy now s =
    set_mode_cases (Forgotten s) mode strategy now s (λ _. refl) λ r g h _. next s r h

perform-Advances : (op : Operation) (s : State) → counts op ≡ true → Advances s (perform op s)
unfolding perform
perform-Advances (rotates generation) s h = cc
perform-Advances (sets_mode mode now) s h = unfold set_mode_at in mode_Advances mode _ now s
perform-Advances (enforces strategy now) s h =
    unfold enforce in mode_Advances enforcing strategy now s
perform-Advances (creates id spec now) s h =
    create_cases (Forgotten s) id spec now s (λ _. refl) λ rule r g _ _ _ _ _ hr _. next s r hr
perform-Advances (updates id spec now) s h =
    unfold update_rule_at in
    update_cases (Forgotten s) id (clear_disabled_template_pin_if_skeleton spec) now s (λ _. refl)
      λ r current g _ _ _ hr _ _ _. next s r hr
perform-Advances (deletes id now) s h =
    delete_cases (Forgotten s) id now s (λ _. refl) λ r rule g hr _ _. next s r hr
perform-Advances (enables id enabled now) s h =
    enable_cases (Forgotten s) id enabled now s (λ _. refl) λ r current g hr _ _ _ _. next s r hr

abbrev Rotated : State → Result CoreError Unit × State → Type 0
Rotated s (ok a, t) = t ≡ record s { flow_generation = t.flow_generation }
Rotated s (err e, t) = t ≡ s

rotate-Rotated : (generation : ℕ) (s : State) → Rotated s (perform (rotates generation) s)
unfolding perform
rotate-Rotated generation s = rotate_cases (Rotated s) generation s (λ _. refl) (λ _. refl)

kept_on_error :
    (s : State) (r : Result CoreError Unit × State) (e : CoreError)
    → Advances s r
    → r.0 ≡ err e
    → r.1 ≡ s
kept_on_error s (ok _, t) e a h = cc
kept_on_error s (err _, t) e a h = a

Rotated-on_error :
    (s : State) (r : Result CoreError Unit × State) (e : CoreError)
    → Rotated s r
    → r.0 ≡ err e
    → r.1 ≡ s
Rotated-on_error s (ok _, t) e a h = cc
Rotated-on_error s (err _, t) e a h = a

-- An operation that returns an error leaves the policy exactly as it was.
pub perform_atomic :
    (op : Operation) (s : State) (e : CoreError) → (perform op s).0 ≡ err e → (perform op s).1 ≡ s
perform_atomic (rotates generation) s e h =
    Rotated-on_error s (perform (rotates generation) s) e (rotate-Rotated generation s) h
perform_atomic (sets_mode mode now) s e h =
    kept_on_error s (perform (sets_mode mode now) s) e
      (perform-Advances (sets_mode mode now) s refl) h
perform_atomic op s e h = kept_on_error s (perform op s) e (perform-Advances op s refl) h

advanced :
    (s : State) (r : Result CoreError Unit × State)
    → Advances s r
    → r.1.revision ≡ (if is_ok r.0 then s.revision + 1 else s.revision)
advanced s (ok _, t) a = a
advanced s (err _, t) a = ap (λ (u : State). u.revision) a

Rotated-revision :
    (s : State) (r : Result CoreError Unit × State) → Rotated s r → r.1.revision ≡ s.revision
Rotated-revision s (ok _, t) a = ap (λ (u : State). u.revision) a
Rotated-revision s (err _, t) a = ap (λ (u : State). u.revision) a

-- The revision grows by one with each success of an operation that counts, and at no other time.
pub revision-perform :
    (op : Operation) (s : State)
    → (perform op s).1.revision
      ≡ (if counts op && is_ok (perform op s).0 then s.revision + 1 else s.revision)
revision-perform (rotates generation) s =
    Rotated-revision s (perform (rotates generation) s) (rotate-Rotated generation s)
revision-perform (sets_mode mode now) s =
    advanced s (perform (sets_mode mode now) s) (perform-Advances (sets_mode mode now) s refl)
revision-perform op s = advanced s (perform op s) (perform-Advances op s refl)

-- The number of operations of a run that succeed, rotations of the flow generation left out.
abbrev pub counted_successes : State → List Operation → ℕ
counted_successes s [] = 0
counted_successes s (op ∷ rest) =
    (if counts op && is_ok (perform op s).0 then 1 else 0) + counted_successes (perform op s).1 rest

-- Over a run the revision grows by exactly the number of successful operations other than
-- rotations of the flow generation.
pub revision-run :
    (s : State) (ops : List Operation) → (run s ops).revision ≡ s.revision + counted_successes s ops
unfolding run
revision-run s [] = omega arith
revision-run s (op ∷ rest) =
    ground (arith, revision-run (perform op s).1 rest, revision-perform op s)
