-- ===== src/State/Size/Exact.antt =====
-- What the size counter of crates/openshield-core/src/state.rs computes.
use open_shield.Base.{
  ℕ, ◌+◌, ◌≤◌, ◌≡◌, ◌∙◌, ap, false, Bool-cases, inl, inr, none, List, [], ◌∷◌, leb, arith,
  if◌then◌else◌,
}
use open_shield.Base.Outcome.{Result, ok, err}
use open_shield.State.Data.{State, CoreError, state_size_limit_reached, max_state_bytes}
use open_shield.State.External.{External}
use open_shield.State.Size.{write_all, size_verdict, bounded_serialized_state_size}

-- The bytes of all writes.
abbrev pub total : List ℕ → ℕ
total [] = 0
total (size ∷ rest) = size + total rest

-- The outcome of the writes, behind the bytes counted before.
abbrev counted : ℕ → List ℕ → Result CoreError ℕ
counted bytes sizes =
    if leb (bytes + total sizes) max_state_bytes
    then ok (bytes + total sizes)
    else err (state_size_limit_reached max_state_bytes)

write_all-counted :
    (bytes : ℕ) (sizes : List ℕ)
    → bytes ≤ max_state_bytes
    → size_verdict (write_all sizes (record { bytes = bytes; exceeded = false })) none
      ≡ counted bytes sizes
unfolding write_all
write_all-counted bytes [] h = ground (arith, h)
write_all-counted bytes (size ∷ rest) h = elim (Bool-cases (leb (bytes + size) max_state_bytes)) [
  | inl e ↦ ground (arith, write_all-counted (bytes + size) rest (ground (arith, e)))
  | inr e ↦ ground (arith, e)
]

-- Where serialization itself does not fail, the bounded size of the policy is the sum of all
-- writes, if that is at most 8 MiB, and the error of the limit otherwise.
pub bounded_serialized_state_size-total :
    (x : External) (s : State)
    → (x.state_json s).failure ≡ none
    → bounded_serialized_state_size x s ≡ (
        if leb (total (x.state_json s).sizes) max_state_bytes
        then ok (total (x.state_json s).sizes)
        else err (state_size_limit_reached max_state_bytes))
unfolding bounded_serialized_state_size
bounded_serialized_state_size-total x s h =
    let plain : 0 + total (x.state_json s).sizes ≡ total (x.state_json s).sizes = omega arith in
    rw h (
      write_all-counted 0 (x.state_json s).sizes (omega arith)
      ∙ ap
          (λ n.
            if leb n max_state_bytes then ok n else err (state_size_limit_reached max_state_bytes))
          plain)
