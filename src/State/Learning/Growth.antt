-- ===== src/State/Learning/Growth.antt =====
-- Learning in crates/openshield-core/src/state.rs as growth: one fresh automatic rule after another.
use open_shield.Base.{
  suc, ◌+◌, ◌≡◌, refl, Bool, true, none, some, List, [], ◌∷◌, ◌++◌, arith, length, length-append,
  count_if, count_if-append, if◌then◌else◌, ℕ_discrete,
}
use open_shield.BTree
use open_shield.BTree.{values}
use open_shield.BTree.Laws.{get-insert, length-insert, count_if-insert}
use open_shield.Model.Kinds.{accept}
use open_shield.Model.Rule.{Rule, Uuid}
use open_shield.State.Data.{State}
use open_shield.State.Operation.WellFormed.{WellFormed}
use open_shield.State.Keys.{is_automatic_rule}
use open_shield.State.Learning.{automatic_count}

-- The policy with one more rule, as `create_rule` leaves it for a rule that denies nothing.
abbrev pub with_rule : Rule → State → State
with_rule rule s = record s { revision = s.revision + 1; rules = BTree.insert rule.id rule s.rules }

pub record Adds (s : State) (rule : Rule) (t : State) : Type 0 where
  pub result : t ≡ with_rule rule s
  pub absent : BTree.get rule.id s.rules ≡ none
  pub automatic : is_automatic_rule rule ≡ true
  pub permissive : rule.spec.action ≡ accept
  pub keeps : WellFormed s → WellFormed t

-- `rules` were added in this order.
pub data Grows (s : State) : List Rule → State → Type 0 where
  start : Grows s [] s
  step :
      {rules : List Rule} {t u : State} (rule : Rule)
      → Grows s rules t
      → Adds t rule u
      → Grows s (rules ++ rule ∷ []) u

pub Grows-WellFormed :
    {s : State} {rules : List Rule} {t : State} → Grows s rules t → WellFormed s → WellFormed t
Grows-WellFormed start w = w
Grows-WellFormed (step rule g a) w = a.keeps (Grows-WellFormed g w)

-- What growth does to the policy, beside its rules: revisions are counted, all else stays.
pub record SameSettings (s t : State) : Type 0 where
  pub generation : t.flow_generation ≡ s.flow_generation
  pub mode : t.mode ≡ s.mode
  pub strategy : t.enforcement_strategy ≡ s.enforcement_strategy

pub Grows-SameSettings :
    {s : State} {rules : List Rule} {t : State} → Grows s rules t → SameSettings s t
Grows-SameSettings start = record { generation = refl; mode = refl; strategy = refl }
Grows-SameSettings (step rule g a) =
    let h = Grows-SameSettings g in
    record {
      generation = rw a.result h.generation;
      mode = rw a.result h.mode;
      strategy = rw a.result h.strategy;
    }

pub revision-Grows :
    {s : State} {rules : List Rule} {t : State}
    → Grows s rules t
    → t.revision ≡ s.revision + length rules
revision-Grows start = omega arith
revision-Grows {s} (step {rules = rules} {t = t} {u = u} rule g a) =
    let h = revision-Grows g in
    let e : u.revision ≡ t.revision + 1 = rw a.result in
    omega (arith, h, e, length-append rules (rule ∷ []))

-- No rule is replaced or lost.
pub Grows-kept :
    {s : State} {rules : List Rule} {t : State}
    → Grows s rules t
    → (id : Uuid) (rule : Rule) → BTree.get id s.rules ≡ some rule
    → BTree.get id t.rules ≡ some rule
Grows-kept start id rule h = h
Grows-kept (step {t = t} new g a) id rule h =
    let before = Grows-kept g id rule h in
    rw (a.result, get-insert new.id id new t.rules)
      (elim (ℕ_discrete new.id id) [
        | yes e ↦ absurd (ground (arith, a.absent, before))
        | no e ↦ ground arith
      ])

pub count-Adds :
    {s : State} (w : WellFormed s) (p : Rule → Bool) {rule : Rule} {t : State}
    → Adds s rule t
    → count_if p (values t.rules) ≡ (if p rule then 1 else 0) + count_if p (values s.rules)
count-Adds {s} w p {rule} a =
    rw a.result (count_if-insert p rule.id rule 0 s.rules w.sorted a.absent)

module _ {s : State} (w : WellFormed s) where
  pub length-Grows :
      {rules : List Rule} {t : State}
      → Grows s rules t
      → length t.rules ≡ length s.rules + length rules
  length-Grows start = omega arith
  length-Grows (step {rules = rules} {t = t} {u = u} rule g a) =
      let e : length u.rules ≡ suc (length t.rules) = rw a.result (
        rw (length-insert 0 rule.id rule t.rules (Grows-WellFormed g w).sorted)
          (rw a.absent refl)) in
      omega (arith, length-Grows g, e, length-append rules (rule ∷ []))

  -- A count over the rules grows by what is added.
  pub count-Grows :
      (p : Rule → Bool) {rules : List Rule} {t : State}
      → Grows s rules t
      → count_if p (values t.rules) ≡ count_if p (values s.rules) + count_if p rules
  count-Grows p start = omega arith
  count-Grows p (step {rules = rules} rule g a) = omega (
    arith,
    count-Grows p g,
    count-Adds (Grows-WellFormed g w) p a,
    count_if-append p rules (rule ∷ []),
  )

pub All-automatic :
    {s : State} {rules : List Rule} {t : State}
    → Grows s rules t
    → count_if is_automatic_rule rules ≡ length rules
All-automatic start = refl
All-automatic (step {rules = rules} rule g a) =
    let e = a.automatic in
    rw (count_if-append is_automatic_rule rules (rule ∷ []), e)
      (omega (arith, All-automatic g, length-append rules (rule ∷ [])))

-- Every rule that is added counts as automatic.
pub automatic_count-Grows :
    {s : State} {rules : List Rule} {t : State}
    → WellFormed s
    → Grows s rules t
    → automatic_count t ≡ automatic_count s + length rules
automatic_count-Grows {rules = rules} w g =
    omega (arith, count-Grows w is_automatic_rule g, All-automatic g)
