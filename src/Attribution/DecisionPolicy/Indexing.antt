-- ===== src/Attribution/DecisionPolicy/Indexing.antt =====
-- The index of `ApplicationDecisionPolicy` in crates/openshield-daemon/src/application.rs leads to
-- the rules of a file, in the order of the policy.
use open_shield.Base.{
  ℕ, suc, ◌≡◌, refl, ap, ◌∙◌, sym, Bool, ◌&&◌, Option, none, some, List, [], ◌∷◌, ◌++◌, arith,
  length, length-append, keep, is_none, is_some_and, same, if◌then◌else◌, append_assoc, append-nil,
  Bool-cases, Option-cases, inl, inr,
}
use open_shield.Application.FileId.{ExecutableFileId, ExecutableFileId-discrete}
use open_shield.Model.Rule.{Rule}
use open_shield.State.Data.{Snapshot}
use open_shield.Attribution.DecisionPolicy.{
  FileIndex, positions, push_position, index_file, is_network_accept, index_rule, index_rules, new,
  get_elem?, rules_at,
}

abbrev is_file : ExecutableFileId → Option ExecutableFileId → Bool
is_file file o = is_some_and o (λ f. same ExecutableFileId-discrete f file)

-- The rule names this file in its application selector.
abbrev pub is_pinned_to : ExecutableFileId → Rule → Bool
is_pinned_to file rule =
    is_some_and rule.spec.application (λ selector. is_file file selector.executable_file)

abbrev pub is_network_only : Rule → Bool
is_network_only rule = is_none rule.spec.application && is_network_accept rule

-- The positions of the rules that pass a test, counted from `start`.
offsets : (Rule → Bool) → ℕ → List Rule → List ℕ
offsets test start [] = []
offsets test start (rule ∷ rest) =
    let later = offsets test (suc start) rest in if test rule then start ∷ later else later

get_elem?-append :
    (pre rest : List Rule) (rule : Rule) → get_elem? (pre ++ rule ∷ rest) (length pre) ≡ some rule
get_elem?-append [] rest rule = refl
get_elem?-append (first ∷ pre) rest rule = get_elem?-append pre rest rule

rules_at-offsets :
    (test : Rule → Bool) (pre rules : List Rule) (start : ℕ)
    → start ≡ length pre
    → rules_at (pre ++ rules) (offsets test start rules) ≡ keep test rules
unfolding rules_at offsets
rules_at-offsets test pre [] start h = refl
rules_at-offsets test pre (rule ∷ rest) start h =
    let again : rules_at (pre ++ rule ∷ rest) (offsets test (suc start) rest) ≡ keep test rest =
      rw (← append_assoc pre (rule ∷ []) rest) (
        rules_at-offsets test (pre ++ rule ∷ []) rest (suc start)
          (omega (arith, h, length-append pre (rule ∷ [])))) in
    elim (Bool-cases (test rule)) [
      | inl e ↦ rw (e, h, get_elem?-append pre rest rule) (ap (λ l. rule ∷ l) (rw (← h) again))
      | inr e ↦ rw e again
    ]

positions-push_position :
    (file f : ExecutableFileId) (position : ℕ) (index : FileIndex)
    → positions file (push_position f position index) ≡ (
        if same ExecutableFileId-discrete f file
        then positions file index ++ position ∷ []
        else positions file index)
unfolding positions push_position
positions-push_position file f position [] = ground arith
positions-push_position file f position ((g, found) ∷ rest) =
    ground (arith, positions-push_position file f position rest)

positions-index_file :
    (file : ExecutableFileId) (o : Option ExecutableFileId) (position : ℕ) (index : FileIndex)
    → positions file (index_file o position index)
      ≡ (if is_file file o then positions file index ++ position ∷ [] else positions file index)
positions-index_file file none position index = refl
positions-index_file file (some f) position index = positions-push_position file f position index

positions-index_rule :
    (file : ExecutableFileId) (position : ℕ) (rule : Rule) (found : FileIndex × List ℕ)
    → positions file (index_rule position rule found).0 ≡ (
        if is_pinned_to file rule
        then positions file found.0 ++ position ∷ []
        else positions file found.0)
positions-index_rule file position rule (index, accepts) =
    elim (Option-cases rule.spec.application) [
      | inl e ↦ ground (arith, e)
      | inr (selector, e) ↦ rw e (positions-index_file file selector.executable_file position index)
    ]

accepts-index_rule :
    (position : ℕ) (rule : Rule) (found : FileIndex × List ℕ)
    → (index_rule position rule found).1
      ≡ (if is_network_only rule then found.1 ++ position ∷ [] else found.1)
accepts-index_rule position rule (index, accepts) = ground arith

-- One more position in front of the later ones.
joined :
    (test : Rule → Bool) (position : ℕ) (rule : Rule) (rest : List Rule) (before : List ℕ)
    → (if test rule then before ++ position ∷ [] else before) ++ offsets test (suc position) rest
      ≡ before ++ offsets test position (rule ∷ rest)
unfolding offsets
joined test position rule rest before = elim (Bool-cases (test rule)) [
  | inl e ↦ rw e (append_assoc before (position ∷ []) (offsets test (suc position) rest))
  | inr e ↦ rw e refl
]

positions-index_rules :
    (file : ExecutableFileId) (position : ℕ) (rules : List Rule) (found : FileIndex × List ℕ)
    → positions file (index_rules position rules found).0
      ≡ positions file found.0 ++ offsets (is_pinned_to file) position rules
unfolding index_rules offsets
positions-index_rules file position [] found = sym (append-nil _)
positions-index_rules file position (rule ∷ rest) found =
    positions-index_rules file (suc position) rest (index_rule position rule found)
    ∙ ap (λ l. l ++ offsets (is_pinned_to file) (suc position) rest)
        (positions-index_rule file position rule found)
    ∙ joined (is_pinned_to file) position rule rest (positions file found.0)

accepts-index_rules :
    (position : ℕ) (rules : List Rule) (found : FileIndex × List ℕ)
    → (index_rules position rules found).1 ≡ found.1 ++ offsets is_network_only position rules
unfolding index_rules offsets
accepts-index_rules position [] found = sym (append-nil _)
accepts-index_rules position (rule ∷ rest) found =
    accepts-index_rules (suc position) rest (index_rule position rule found)
    ∙ ap (λ l. l ++ offsets is_network_only (suc position) rest)
        (accepts-index_rule position rule found)
    ∙ joined is_network_only position rule rest found.1

pub rules_at-positions :
    (file : ExecutableFileId) (snapshot : Snapshot)
    → rules_at snapshot.rules (positions file (new snapshot).rules_by_executable)
      ≡ keep (is_pinned_to file) snapshot.rules
unfolding new positions
rules_at-positions file snapshot =
    rw (positions-index_rules file 0 snapshot.rules ([], []))
      (rules_at-offsets (is_pinned_to file) [] snapshot.rules 0 refl)

pub rules_at-network_accept :
    (snapshot : Snapshot)
    → rules_at snapshot.rules (new snapshot).network_accept_rules
      ≡ keep is_network_only snapshot.rules
unfolding new
rules_at-network_accept snapshot =
    rw (accepts-index_rules 0 snapshot.rules ([], []))
      (rules_at-offsets is_network_only [] snapshot.rules 0 refl)
