-- ===== src/Engine/Reports/Paging.antt =====
-- A client that follows the cursors of `rules_page_response` in crates/openshield-daemon/src/engine.rs.
use mathlib.Core.Option.{map as map_option}
use open_shield.Base.{◌≡◌, ℕ, zero, suc, ◌≤◌, Option, none, some, List, ◌++◌, drop, All}
use open_shield.BTree.{after, values, Ordered}
use open_shield.Model.Rule.{Rule, Uuid}
use open_shield.State.Data.{State}
use open_shield.State.Operation.WellFormed.{WellFormed}
use open_shield.Protocol.Responses.{Response, rules_page}
use open_shield.Engine.Data.{Engine}
use open_shield.Engine.Reports.{rules_after, rules_page_response}

abbrev AreKeyed : List (ℕ × Rule) → Type 0
AreKeyed = All (λ e. e.0 ≡ e.1.id)

-- The cursor of a page, and what is behind it.
record Cuts (lo n : ℕ) (m : List (ℕ × Rule)) (id : Uuid) : Type 0 where
  pub bound : lo ≤ id
  pub rest : values (after id m) ≡ drop (suc n) (values m)

-- All rules that a client reads from this cursor on: it asks for the next page until there is none,
-- with the requests that it has left. An error, or a request too few, ends it without a result.
pub follow : Response → (Uuid → Option (List Rule)) → Option (List Rule)
follow (rules_page _ rules none) more = some rules
follow (rules_page _ rules (some cursor)) more = map_option (λ rest. rules ++ rest) (more cursor)
follow _ more = none

unfoldable pub read_pages : ℕ → ℕ → Option Uuid → Engine → Option (List Rule)
unfolding rules_page_response
read_pages zero limit cursor e = none
read_pages (suc n) limit cursor e =
    follow (rules_page_response cursor limit e) (λ next. read_pages n limit (some next) e)

-- The entries that a cursor leaves: what is behind any later cursor is behind it in them, too.
record Leaves (s : State) (cursor : Option Uuid) (lo : ℕ) (m : List (ℕ × Rule)) : Type 0 where
  pub behind : rules_after cursor s ≡ values m
  pub ordered : Ordered lo m
  pub keyed : AreKeyed m
  pub further : (id : Uuid) → lo ≤ id → after id s.rules ≡ after id m
