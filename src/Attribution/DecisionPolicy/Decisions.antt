-- ===== src/Attribution/DecisionPolicy/Decisions.antt =====
-- What `matching_rule` of crates/openshield-daemon/src/application.rs decides, against a scan of
-- the whole policy.
use mathlib.Core.Option.{or_else}
use open_shield.Base.{◌≡◌, refl, ap, ◌∙◌, Bool, true, Option, List, [], ◌∷◌, arith, keep, All}
use open_shield.Base.Outcome.{ok}
use open_shield.Application.Selector
use open_shield.Application.Selector.{ApplicationIdentity}
use open_shield.Model.Kinds.{EnforcementStrategy, strict, fast}
use open_shield.Model.Address.{IpAddr, IpNet}
use open_shield.Model.Rule.{Rule}
use open_shield.State.Data.{Snapshot}
use open_shield.State.Pins.{reject_unpinned_application_spec}
use open_shield.Attribution.DecisionPolicy.{
  OutboundConnection, new, with_enforcement_strategy, min_by, is_older, decides_before,
  application_rule_matches, application_rule_network_and_uid_matches,
  outbound_network_selectors_match, fast_learned_accept_rule_matches, outbound_network_rule_matches,
  fast_match, candidates, matching_network_accept, matching_rule,
}
use open_shield.Attribution.DecisionPolicy.Indexing.{
  is_pinned_to, is_network_only, rules_at-positions, rules_at-network_accept,
}

-- `matching_application_rule`, the scan without an index.
unfoldable pub matching_application_rule :
    (IpNet → IpAddr → Bool) → Snapshot → OutboundConnection → ApplicationIdentity → Option Rule
unfolding min_by application_rule_matches
matching_application_rule contains snapshot connection identity =
    min_by decides_before
      (keep (application_rule_matches contains connection identity) snapshot.rules)

keep-keep :
    (p q : Rule → Bool) (rules : List Rule)
    → All (λ rule. p rule ≡ true → q rule ≡ true) rules
    → keep p (keep q rules) ≡ keep p rules
keep-keep p q [] h = refl
keep-keep p q (rule ∷ rest) h = ground (arith, keep-keep p q rest h.1, h.0)

abbrev pub IsPinned : Rule → Type 0
IsPinned rule = reject_unpinned_application_spec rule.spec ≡ ok tt

module _ (contains : IpNet → IpAddr → Bool) (connection : OutboundConnection)
    (identity : ApplicationIdentity) where
  pinned_match :
      (rule : Rule)
      → IsPinned rule
      → application_rule_matches contains connection identity rule ≡ true
      → is_pinned_to identity.executable_file rule ≡ true
  unfolding application_rule_matches application_rule_network_and_uid_matches
      outbound_network_selectors_match reject_unpinned_application_spec Selector.matches
  pinned_match rule pinned h = ground arith

  fast_pinned :
      (rule : Rule)
      → fast_learned_accept_rule_matches contains connection identity rule ≡ true
      → is_pinned_to identity.executable_file rule ≡ true
  unfolding fast_learned_accept_rule_matches
  fast_pinned rule h = ground arith

  network_only :
      (rule : Rule)
      → outbound_network_rule_matches contains connection rule ≡ true
      → is_network_only rule ≡ true
  unfolding outbound_network_rule_matches outbound_network_selectors_match
  network_only rule h = ground arith

  All-of :
      {P Q : Rule → Type 0} (rules : List Rule)
      → ((r : Rule) → P r → Q r)
      → All P rules
      → All Q rules
  All-of [] f h = tt
  All-of (rule ∷ rest) f h = (f rule h.0, All-of rest f h.1)

  All-every : {Q : Rule → Type 0} (rules : List Rule) → ((r : Rule) → Q r) → All Q rules
  All-every [] f = tt
  All-every (rule ∷ rest) f = (f rule, All-every rest f)

  keep-candidates :
      (p : Rule → Bool) (strategy : EnforcementStrategy) (snapshot : Snapshot)
      → All (λ r. p r ≡ true → is_pinned_to identity.executable_file r ≡ true) snapshot.rules
      → keep p (candidates (with_enforcement_strategy strategy (new snapshot)) identity)
        ≡ keep p snapshot.rules
  unfolding candidates new
  keep-candidates p strategy snapshot h =
      ap (keep p) (rules_at-positions identity.executable_file snapshot)
      ∙ keep-keep p (is_pinned_to identity.executable_file) snapshot.rules h

  network_accept-scan :
      (strategy : EnforcementStrategy) (snapshot : Snapshot)
      → matching_network_accept contains
          (with_enforcement_strategy strategy (new snapshot))
          connection
        ≡ min_by is_older (keep (outbound_network_rule_matches contains connection) snapshot.rules)
  unfolding matching_network_accept new
  network_accept-scan strategy snapshot =
      ap (λ rules. min_by is_older (keep (outbound_network_rule_matches contains connection) rules))
        (rules_at-network_accept snapshot)
      ∙ ap (min_by is_older) (
          keep-keep (outbound_network_rule_matches contains connection) is_network_only
            snapshot.rules (All-every snapshot.rules network_only))

  fast_match-scan :
      (strategy : EnforcementStrategy) (snapshot : Snapshot)
      → fast_match contains strategy
          (candidates (with_enforcement_strategy strategy (new snapshot)) identity)
          connection
          identity
        ≡ fast_match contains strategy snapshot.rules connection identity
  fast_match-scan strict snapshot = refl
  fast_match-scan fast snapshot = ap (min_by is_older) (
      keep-candidates (fast_learned_accept_rule_matches contains connection identity) fast snapshot
        (All-every snapshot.rules fast_pinned))

  -- Where every application rule is pinned, the indexed policy decides as a scan of all rules
  -- does: first the application rule that matches with the strongest action and the least
  -- identifier, then, in the fast strategy, a learned accept for the same file and user, then a
  -- network accept.
  pub matching_rule-scan :
      (strategy : EnforcementStrategy) (snapshot : Snapshot)
      → All IsPinned snapshot.rules
      → matching_rule contains
          (with_enforcement_strategy strategy (new snapshot))
          connection
          identity
        ≡ or_else
            (or_else
              (matching_application_rule contains snapshot connection identity)
              (fast_match contains strategy snapshot.rules connection identity))
            (min_by is_older
              (keep (outbound_network_rule_matches contains connection) snapshot.rules))
  unfolding matching_rule matching_application_rule
  matching_rule-scan strategy snapshot pinned =
      rw
        (
          network_accept-scan strategy snapshot,
          fast_match-scan strategy snapshot,
          keep-candidates (application_rule_matches contains connection identity) strategy snapshot
              (All-of snapshot.rules pinned_match pinned),
        )
        refl
