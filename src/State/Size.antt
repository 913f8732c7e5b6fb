-- ===== src/State/Size.antt =====
-- The bound on the serialized policy: `bounded_serialized_state_size` with its `SizeCounter`, and
-- `serialized_rule_map_entry_delta`, of crates/openshield-core/src/state.rs.
pub mod Exact
use open_shield.Base.{
  ℕ, Bool, true, false, Option, none, some, List, [], ◌∷◌, ltb, length, if◌then◌else◌,
}
use open_shield.Base.Words.{usize_max, checked_add, checked_sub, saturating_add}
use open_shield.Base.Outcome.{Result, ok, err, ◌>>=◌, map_err, ok_or}
use open_shield.Base.Text.{Text, codes}
use open_shield.Base.Decimal.{to_string}
use open_shield.Model.Rule.{Rule}
use open_shield.State.Data.{
  State, CoreError, state_size_limit_reached, state_serialization, max_state_bytes,
}
use open_shield.State.External.{External}

pub record SizeCounter : Type 0 where
  pub bytes : ℕ
  pub exceeded : Bool

-- `SizeCounter::write`: `true` when the whole slice is taken, `false` for an I/O error.
abbrev pub write : SizeCounter → ℕ → Bool × SizeCounter
write counter size = elim (checked_add usize_max counter.bytes size) [
  | none ↦ (false, record counter { exceeded = true })
  | some total ↦
      if ltb max_state_bytes total
      then (false, record counter { exceeded = true })
      else (true, record counter { bytes = total })
]

-- `to_writer` stops at the first write that fails.
unfoldable pub write_all : List ℕ → SizeCounter → Bool × SizeCounter
write_all [] counter = (true, counter)
write_all (size ∷ rest) counter =
    let (taken, next) = write counter size in
    let more = write_all rest next in if taken then more else (false, next)

abbrev pub size_verdict : Bool × SizeCounter → Option Text → Result CoreError ℕ
size_verdict (true, counter) none = ok counter.bytes
size_verdict (true, counter) (some error) =
    if counter.exceeded
    then err (state_size_limit_reached max_state_bytes)
    else err (state_serialization error)
size_verdict (false, counter) failure =
    if counter.exceeded
    then err (state_size_limit_reached max_state_bytes)
    else err (state_serialization (codes "I/O error"))

unfoldable pub bounded_serialized_state_size : External → State → Result CoreError ℕ
unfolding write_all
bounded_serialized_state_size x s =
    size_verdict (write_all (x.state_json s).sizes (record { bytes = 0; exceeded = false }))
      (x.state_json s).failure

abbrev pub and_then : Option ℕ → (ℕ → Option ℕ) → Option ℕ
and_then none f = none
and_then (some n) f = f n

unfoldable pub serialized_rule_map_entry_delta : External → Rule → ℕ → ℕ → Bool → Result CoreError ℕ
serialized_rule_map_entry_delta x rule previous_revision current_revision had_rules = do
  rule_size ← map_err state_serialization (x.rule_json rule)
  let key_and_separator_size = saturating_add usize_max (x.uuid_text_len rule.id) 3
  let comma_size : ℕ = if had_rules then 1 else 0
  let previous_revision_size = length (to_string previous_revision)
  let current_revision_size = length (to_string current_revision)
  ok_or (state_serialization (codes "state size arithmetic overflowed")) (
      and_then
        (and_then
          (and_then (checked_add usize_max rule_size key_and_separator_size)
            (λ size. checked_add usize_max size comma_size))
          (λ size. checked_add usize_max size current_revision_size))
        (λ size. checked_sub size previous_revision_size))
