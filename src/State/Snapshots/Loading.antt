-- ===== src/State/Snapshots/Loading.antt =====
-- `State::from_snapshot` behind `State::snapshot`, both of crates/openshield-core/src/state.rs.
use open_shield.Base.{
  ℕ, suc, ◌≤◌, ◌<◌, ◌≡◌, refl, sym, ap, ◌∙◌, true, false, List, [], ◌∷◌, ◌++◌, map, any, All,
  All-append, All-map_of, length, ltb, ◌==◌, arith, append_assoc, append-nil,
}
use open_shield.Base.Outcome.{ok}
use open_shield.BTree.Laws.{length-values}
use open_shield.BTree.{values, Ordered, insert, from_list}
use open_shield.Model.Kinds.{strict}
use open_shield.Model.Rule.{Rule, Uuid}
use open_shield.State.Data.{State, snapshot, max_rules, in_flow_domain}
use open_shield.State.External.{External}
use open_shield.State.Size.{bounded_serialized_state_size}
use open_shield.State.Snapshots.{
  validate_rule, validate_rules, validate_snapshot, validate_entries, validate, state_of,
  from_snapshot,
}
use open_shield.State.Operation.WellFormed.{WellFormed, IsEntry}

pub not_seen :
    (ids : List Uuid) (id : Uuid) → All (λ i. i < id) ids → any (λ i. i == id) ids ≡ false
not_seen [] id h = refl
not_seen (i ∷ ids) id h = ground (arith, not_seen ids id h.1)

pub All-below :
    (ids : List Uuid) (lo id : Uuid) → lo ≤ id → All (λ i. i < lo) ids → All (λ i. i < id) ids
All-below ids lo id le h =
    All-map_of (λ i. i < lo) (λ i. i < id) (λ i below. omega (arith, below, le)) ids h

validate_rule-IsEntry : (id : Uuid) (rule : Rule) → IsEntry (id, rule) → validate_rule rule ≡ ok tt
unfolding validate_rule
validate_rule-IsEntry id rule e = rw e.valid (rw e.visible e.pinned)

validate_rules-values :
    (ids : List Uuid) (lo : ℕ) (m : List (Uuid × Rule))
    → Ordered lo m
    → All IsEntry m
    → All (λ i. i < lo) ids
    → validate_rules ids (values m) ≡ ok tt
unfolding validate_rules
validate_rules-values ids lo [] sorted entries below = refl
validate_rules-values ids lo ((id, rule) ∷ m) sorted entries below =
    let keyed : id ≡ rule.id = entries.0.keyed in
    let older : All (λ i. i < rule.id) ids = rw (← keyed) (All-below ids lo id sorted.0 below) in
    let rest =
      validate_rules-values (rule.id ∷ ids) (suc id) m sorted.1 entries.1
        (omega (arith, keyed), All-below ids lo (suc id) (omega (arith, sorted.0)) below) in
    rw (validate_rule-IsEntry id rule entries.0) (rw (not_seen ids rule.id older) rest)

validate_entries-ok : (m : List (Uuid × Rule)) → All IsEntry m → validate_entries m ≡ ok tt
unfolding validate_entries
validate_entries-ok [] h = refl
validate_entries-ok ((id, rule) ∷ m) h =
    let same : (id == rule.id) ≡ true = ground (arith, h.0.keyed) in
    rw same (rw (validate_rule-IsEntry id rule h.0) (validate_entries-ok m h.1))

keyed_values :
    (m : List (Uuid × Rule)) → All IsEntry m → map (λ rule. (rule.id, rule)) (values m) ≡ m
keyed_values [] h = refl
keyed_values ((id, rule) ∷ m) h = rw (keyed_values m h.1) (rw (← h.0.keyed) refl)

insert_last :
    (k : ℕ) (rule : Rule) (m : List (Uuid × Rule))
    → All (λ e. e.0 < k) m
    → insert k rule m ≡ m ++ (k, rule) ∷ []
unfolding insert
insert_last k rule [] h = refl
insert_last k rule ((j, w) ∷ m) h = ground (arith, insert_last k rule m h.1)

from_list-sorted :
    (lo : ℕ) (m rest : List (Uuid × Rule))
    → All (λ e. e.0 < lo) m
    → Ordered lo rest
    → from_list m rest ≡ m ++ rest
unfolding from_list
from_list-sorted lo m [] below sorted = sym (append-nil m)
from_list-sorted lo m ((k, rule) ∷ rest) below sorted =
    let lower : All (λ e. e.0 < k) m =
      All-map_of (λ e. e.0 < lo) (λ e. e.0 < k) (λ e b. omega (arith, b, sorted.0)) m below in
    rw (insert_last k rule m lower) (
      from_list-sorted (suc k) (m ++ (k, rule) ∷ []) rest
        (All-append (λ e. e.0 < suc k) m ((k, rule) ∷ [])
          (All-map_of (λ e. e.0 < k) (λ e. e.0 < suc k) (λ e b. omega (arith, b)) m lower)
          (omega arith, tt))
        sorted.1
      ∙ append_assoc m ((k, rule) ∷ []) rest)

-- The policy with the strategy of a snapshot, which carries none.
abbrev pub restarted : State → State
restarted s = record s { enforcement_strategy = strict }

state_of-snapshot : (s : State) → WellFormed s → state_of (snapshot s) ≡ restarted s
unfolding snapshot
state_of-snapshot s w =
    rw (keyed_values s.rules w.entries)
      (ap (λ m. record (restarted s) { rules = m }) (from_list-sorted 0 [] s.rules tt w.sorted))

pub generation-in_domain : (s : State) → WellFormed s → in_flow_domain s.flow_generation ≡ true
generation-in_domain s w = ground (arith, w.generation)

validate_snapshot-snapshot : (s : State) → WellFormed s → validate_snapshot (snapshot s) ≡ ok tt
unfolding validate_snapshot snapshot
validate_snapshot-snapshot s w =
    let few : ltb max_rules (length (values s.rules)) ≡ false =
      ground (arith, w.size, length-values s.rules) in
    rw few
      (rw (generation-in_domain s w) (validate_rules-values [] 0 s.rules w.sorted w.entries tt))

pub validate-WellFormed :
    (x : External) (s : State) (size : ℕ)
    → WellFormed s
    → bounded_serialized_state_size x s ≡ ok size
    → validate x s ≡ ok tt
unfolding validate
validate-WellFormed x s size w fits =
    let few : ltb max_rules (length s.rules) ≡ false = ground (arith, w.size) in
    rw few
      (rw (generation-in_domain s w) (rw (validate_entries-ok s.rules w.entries) (rw fits refl)))

-- A well-formed policy whose serialization fits comes back from its snapshot as it was, except
-- that its enforcement strategy is strict.
pub from_snapshot-snapshot :
    (x : External) (s : State) (size : ℕ)
    → WellFormed s
    → bounded_serialized_state_size x (restarted s) ≡ ok size
    → from_snapshot x (snapshot s) ≡ ok (restarted s)
unfolding from_snapshot
from_snapshot-snapshot x s size w fits =
    let again : WellFormed (restarted s) = record {
      revision = w.revision;
      generation = w.generation;
      size = w.size;
      sorted = w.sorted;
      entries = w.entries;
    } in
    rw (validate_snapshot-snapshot s w)
      (rw (state_of-snapshot s w) (rw (validate-WellFormed x (restarted s) size again fits) refl))
