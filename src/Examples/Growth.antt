-- ===== src/Examples/Growth.antt =====
-- Learning at a policy with one rule.
use open_shield.Base.{some, ◌≡◌, ◌↔◌, refl, true, [], ◌∷◌, arith}
use open_shield.Base.Outcome.{ok}
use open_shield.Application.FileId
use open_shield.Application.CommandLine
use open_shield.Application.CommandLine.{exact}
use open_shield.Application.Identity
use open_shield.Application.Selector
use open_shield.Application.Selector.{ApplicationSelector, ApplicationIdentity, matches}
use open_shield.Application.Identity.{learned_selector}
use open_shield.Application.Learned.{RunsSame, learned_selector-RunsSame}
use open_shield.State.Learning.Endpoints.{learn_new_endpoints}
use open_shield.State.Learning.Endpoints.Growth.{learn_new_endpoints-IsSafeGrowth}
use open_shield.State.Learning.Templates.{ensure_application_group_templates_with_size_limit}
use open_shield.State.Learning.Templates.Growth.{ensure_templates-IsSafeGrowth}
use open_shield.State.Learning.Applications.Growth.{IsSafeGrowth}
use open_shield.Fixtures.{
  one_rule, endpoint, small_files, from_hundred, curl_identity, curl_selector,
}
use open_shield.Examples.Policy.{one_rule-WellFormed}

learn_new_endpoints-IsSafeGrowth_example :
    IsSafeGrowth one_rule
      (learn_new_endpoints small_files from_hundred (endpoint ∷ []) 10 one_rule).1
learn_new_endpoints-IsSafeGrowth_example =
    learn_new_endpoints-IsSafeGrowth small_files from_hundred (endpoint ∷ []) 10 one_rule
      one_rule-WellFormed (omega arith)

ensure_templates-IsSafeGrowth_example :
    IsSafeGrowth one_rule
      (ensure_application_group_templates_with_size_limit small_files from_hundred 10 4_000
        one_rule).1
ensure_templates-IsSafeGrowth_example =
    ensure_templates-IsSafeGrowth small_files from_hundred 10 4_000 one_rule one_rule-WellFormed
      (omega arith)

abbrev exact_curl : ApplicationSelector
exact_curl = record curl_selector {
  command_line = some (record { kind = exact; arguments = curl_identity.command_line });
}

curl_learned : learned_selector curl_identity ≡ ok exact_curl
unfolding learned_selector Identity.validate FileId.validate CommandLine.argument_bytes
    CommandLine.new Selector.new
curl_learned = refl

learned_selector-RunsSame_example :
    (matches exact_curl curl_identity ≡ true) ↔ RunsSame curl_identity curl_identity
learned_selector-RunsSame_example =
    learned_selector-RunsSame curl_identity curl_identity exact_curl curl_learned
