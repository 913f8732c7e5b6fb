-- ===== src/Attribution/DecisionPolicy/Denials.antt =====
-- The two lookups of `ApplicationDecisionPolicy` in crates/openshield-daemon/src/application.rs that
-- may deny a packet agree.
use mathlib.Core.Option.{or_else}
use open_shield.Base.{
  ◌≡◌, refl, ◌↔◌, inl, inr, Bool, true, false, Option, none, some, List, [], ◌∷◌, arith, keep,
  if◌then◌else◌, Bool-cases,
}
use open_shield.Application.Selector.{ApplicationIdentity}
use open_shield.Model.Kinds.{EnforcementStrategy, strict, fast, RuleAction-discrete}
use open_shield.Model.Address.{IpAddr, IpNet}
use open_shield.Model.Rule.{Rule}
use open_shield.Attribution.DecisionPolicy.{
  OutboundConnection, ApplicationDecisionPolicy, min_by, is_older, decides_before, is_deny,
  application_rule_matches, fast_learned_accept_rule_matches, outbound_network_rule_matches,
  fast_match, rules_at, candidates, matching_network_accept, matching_rule, matching_deny_rule,
}

keep_comm : (p q : Rule → Bool) (rules : List Rule) → keep p (keep q rules) ≡ keep q (keep p rules)
keep_comm p q [] = refl
keep_comm p q (rule ∷ rest) = ground (arith, keep_comm p q rest)

abbrev IsAccept : Option Rule → Type 0
IsAccept none = Unit {0}
IsAccept (some rule) = is_deny rule ≡ false

-- The first rule among all, against the first among those that deny.
abbrev Leads : Option Rule → Option Rule → Type 0
Leads none first = IsAccept first
Leads (some rule) first = (first ≡ some rule) × (is_deny rule ≡ true)

abbrev better : Rule → Option Rule → Option Rule
better rule none = some rule
better rule (some other) = if decides_before other rule then some other else some rule

better-Leads :
    (rule : Rule) (denied first : Option Rule)
    → Leads denied first
    → (is_deny rule ≡ true → Leads (better rule denied) (better rule first))
      × (is_deny rule ≡ false → Leads denied (better rule first))
unfolding RuleAction-discrete
better-Leads rule none none h = ground arith
better-Leads rule none (some a) h = ground arith
better-Leads rule (some d) none h = (λ _. cc, λ _. cc)
better-Leads rule (some d) (some a) h = let e : d ≡ a = cc in rw e (ground arith)

min_by-Leads :
    (rules : List Rule)
    → Leads (min_by decides_before (keep is_deny rules)) (min_by decides_before rules)
unfolding min_by
min_by-Leads [] = tt
min_by-Leads (rule ∷ rest) =
    let h =
      better-Leads rule (min_by decides_before (keep is_deny rest)) (min_by decides_before rest)
        (min_by-Leads rest) in
    elim (Bool-cases (is_deny rule)) [ inl e ↦ rw e (h.0 e) | inr e ↦ rw e (h.1 e) ]

clash :
    (a rule : Rule)
    → is_deny a ≡ false
    → ◌≡◌ {A = Option Rule} (some a) (some rule)
    → is_deny rule ≡ true
    → ⊥
clash a rule h e g =
    let same_rule : a ≡ rule = cc in let t : is_deny a ≡ true = rw same_rule g in cc

decide :
    (denied first quick network : Option Rule) (rule : Rule)
    → Leads denied first
    → IsAccept quick
    → IsAccept network
    → (denied ≡ some rule)
      ↔ ((or_else (or_else first quick) network ≡ some rule) × (is_deny rule ≡ true))
unfolding or_else
decide (some d) none quick network rule h hq hn = absurd (let no : ⊥ = cc in no)
decide (some d) (some a) quick network rule h hq hn =
    (λ g. (cc, let e : d ≡ rule = cc in rw (← e) h.1), λ g. cc)
decide none (some a) quick network rule h hq hn =
    (λ g. absurd (let no : ⊥ = cc in no), λ g. absurd (clash a rule h g.0 g.1))
decide none none (some a) network rule h hq hn =
    (λ g. absurd (let no : ⊥ = cc in no), λ g. absurd (clash a rule hq g.0 g.1))
decide none none none (some a) rule h hq hn =
    (λ g. absurd (let no : ⊥ = cc in no), λ g. absurd (clash a rule hn g.0 g.1))
decide none none none none rule h hq hn = (λ g. absurd (let no : ⊥ = cc in no), λ g. g.0)

older-IsAccept :
    (rule : Rule) (o : Option Rule)
    → is_deny rule ≡ false
    → IsAccept o
    → IsAccept (elim o [
      | none ↦ some rule
      | some other ↦ if is_older other rule then some other else some rule
    ])
older-IsAccept rule none h g = h
older-IsAccept rule (some other) h g = elim (Bool-cases (is_older other rule)) [
  | inl e ↦ rw e g
  | inr e ↦ rw e h
]

chosen-IsAccept :
    (p : Rule → Bool) (rules : List Rule)
    → ((rule : Rule) → p rule ≡ true → is_deny rule ≡ false)
    → IsAccept (min_by is_older (keep p rules))
unfolding min_by
chosen-IsAccept p [] h = tt
chosen-IsAccept p (rule ∷ rest) h =
    let more = chosen-IsAccept p rest h in
    elim (Bool-cases (p rule)) [
      | inl e ↦ rw e (older-IsAccept rule (min_by is_older (keep p rest)) (h rule e) more)
      | inr e ↦ rw e more
    ]

module _ (contains : IpNet → IpAddr → Bool) (connection : OutboundConnection)
    (identity : ApplicationIdentity) where
  fast_match-IsAccept :
      (strategy : EnforcementStrategy) (rules : List Rule)
      → IsAccept (fast_match contains strategy rules connection identity)
  unfolding fast_learned_accept_rule_matches
  fast_match-IsAccept strict rules = tt
  fast_match-IsAccept fast rules =
      chosen-IsAccept (fast_learned_accept_rule_matches contains connection identity) rules
        (λ rule h. ground arith)

  network-IsAccept :
      (policy : ApplicationDecisionPolicy)
      → IsAccept (matching_network_accept contains policy connection)
  unfolding matching_network_accept outbound_network_rule_matches
  network-IsAccept policy =
      chosen-IsAccept (outbound_network_rule_matches contains connection)
        (rules_at policy.snapshot.rules policy.network_accept_rules) (λ rule h. ground arith)

  -- The lookup of denials returns a rule exactly when that rule decides and does not accept: in
  -- either strategy no accept of any kind hides a rule that drops or rejects.
  pub matching_deny_rule-decides :
      (policy : ApplicationDecisionPolicy) (rule : Rule)
      → (matching_deny_rule contains policy connection identity ≡ some rule)
        ↔ ((matching_rule contains policy connection identity ≡ some rule) × (is_deny rule ≡ true))
  unfolding matching_rule matching_deny_rule
  matching_deny_rule-decides policy rule =
      let matching = application_rule_matches contains connection identity in
      let rules = candidates policy identity in
      rw (keep_comm matching is_deny rules) (
        decide (min_by decides_before (keep is_deny (keep matching rules)))
          (min_by decides_before (keep matching rules))
          (fast_match contains policy.enforcement_strategy rules connection identity)
          (matching_network_accept contains policy connection) rule
          (min_by-Leads (keep matching rules))
          (fast_match-IsAccept policy.enforcement_strategy rules) (network-IsAccept policy))
