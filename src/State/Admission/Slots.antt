-- ===== src/State/Admission/Slots.antt =====
-- The slots that an observation needs, as the admission index and as learning of
-- crates/openshield-core/src/state.rs compute with them.
use open_shield.Base.{ℕ, ◌-◌, ◌≤◌, min, ◌≡◌, Bool, true, false, ◌||◌, [], ◌∷◌, arith, ltb}
use open_shield.Base.Words.{usize_max, saturating_add}
use open_shield.Base.Outcome.{ok}
use open_shield.Model.LearnedEndpoint.{LearnedApplicationEndpoint, validate_application_endpoint}
use open_shield.State.Data.{max_rules, max_automatic_learned_rules}
use open_shield.State.Learning.{validate_all}
use open_shield.State.Learning.Applications.{check_item, required_slots}

pub full_room :
    (maximum_new total automatic slots : ℕ)
    → (1 ≤ slots) × (slots ≤ 2)
    → (ltb max_rules (saturating_add usize_max total slots)
        || ltb max_automatic_learned_rules (saturating_add usize_max automatic slots))
      ≡ true
    → ltb
        (min (min maximum_new (max_rules - total)) (max_automatic_learned_rules - automatic))
        (saturating_add usize_max 0 slots)
      ≡ true
full_room maximum_new total automatic slots h full = ground arith

pub free_room :
    (maximum_new total automatic slots : ℕ)
    → (1 ≤ slots) × (slots ≤ 2)
    → 2 ≤ maximum_new
    → (ltb max_rules (saturating_add usize_max total slots)
        || ltb max_automatic_learned_rules (saturating_add usize_max automatic slots))
      ≡ false
    → ltb
        (min (min maximum_new (max_rules - total)) (max_automatic_learned_rules - automatic))
        (saturating_add usize_max 0 slots)
      ≡ false
free_room maximum_new total automatic slots h two free = ground arith

pub single_valid :
    (item : LearnedApplicationEndpoint)
    → validate_application_endpoint item ≡ ok tt
    → validate_all check_item (item ∷ []) ≡ ok tt
unfolding validate_all check_item
single_valid item h = ground arith

pub slots_bound : (b : Bool) → (1 ≤ required_slots b) × (required_slots b ≤ 2)
slots_bound true = (omega arith, omega arith)
slots_bound false = (omega arith, omega arith)
