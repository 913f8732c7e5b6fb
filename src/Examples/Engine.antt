-- ===== src/Examples/Engine.antt =====
-- Runs of crates/openshield-daemon/src/engine.rs with a backend and a store that never fail.
use open_shield.Base.{◌≡◌, ◌⊎◌, refl, true, false, Option, none, some, [], ◌∷◌, arith, inl, inr}
use open_shield.BTree
use open_shield.Base.Outcome.{Result, ok}
use open_shield.Base.Words.{pos}
use open_shield.Base.Text.{Text, codes}
use open_shield.Model.Kinds.{block_all, learning, enforcing}
use open_shield.State.Data.{State, Event, mode_changed, snapshot}
use open_shield.State.Size.{bounded_serialized_state_size}
use open_shield.State.Keys.{default_limits}
use open_shield.Attribution.Pinning.{Files}
use open_shield.Protocol.Compatibility.{nftables}
use open_shield.Protocol.Requests.{ControlRequest, set_mode}
use open_shield.Engine.Bus.{EventBus, with_limits, subscribe, publish, recv_timeout}
use open_shield.Engine.Bus.Identifiers.{identifiers, Increases, run-new-IsBounded}
use open_shield.Engine.Bus.Delivery
use open_shield.Engine.Bus.Delivery.{
  BusStep, subscribes, publishes, receives, removes, IsBounded, delivered, publish-delivers,
}
use open_shield.Engine.Data.{Engine, startup_active, in_flight, ApplicationLearningTransaction}
use open_shield.Engine.Outside.{Outside, Promises, Kernel, enforces, closed, Daemon}
use open_shield.Engine.Emergency.{quarantine_after_runtime_failure}
use open_shield.Engine.Commit.{commit, handle_control}
use open_shield.Engine.Startup.{activate_startup_policy, load_with_learning_limits, new_engine}
use open_shield.Engine.Agreement.{IsLive, Agrees, IsReleased, exactly, settled, writing}
use open_shield.Engine.Agreement.Commits.{IsQuiet, Ends, commit-Ends}
use open_shield.Engine.Agreement.Requests.{IsAnswered, handle_control-IsAnswered}
use open_shield.Engine.Agreement.Loading.{Starts, load-Starts}
use open_shield.Engine.Agreement.Runs.{Run, Releases, begins, goes_on, controls, fails, Run-Agrees}
use open_shield.Engine.Persistence.{owner_proceeds}
use open_shield.Engine.Agreement.Learnings.{Learns, learning-Completes, silent}
use open_shield.Engine.Agreement.Closing.{
  IsClosable, IsReliable, Closes, closed_policy, handle_control-Closes,
}
use open_shield.Engine.Agreement.Releases.{activate-quarantine-IsReleased}
use open_shield.Engine.Reports.{runtime_compatibility}
use open_shield.Engine.Reports.Consistency.{IsReadable, runtime_compatibility-IsReadable}
use open_shield.Fixtures.{one_rule, small_files, from_hundred}
use open_shield.Examples.Policy.{one_rule-WellFormed}

abbrev no_files : Files
no_files = record {
  canonicalize = λ _ path. ok path;
  open_file = λ _ _. ok (record {
    is_file = true;
    identity = record {
      device = 1;
      inode = 42;
      size = 1000;
      ctime_seconds = pos 5;
      ctime_nanoseconds = pos 7;
    };
  });
  to_str = λ path. some path;
  describe_application = λ _. codes "application";
  describe_validation = λ _. codes "rule";
}

abbrev machine : Outside
machine = record {
  World = Kernel × Option State;
  external = small_files;
  kind = nftables;
  apply = λ s w. (ok tt, (enforces s, w.1));
  fail_closed = λ w. (ok tt, (closed, w.1));
  save = λ s w. (ok tt, (w.0, some s));
  load = λ w. (ok w.1, w);
  abandons = λ _. false;
  files = λ _. no_files;
  trunc = λ network. network;
  describe = λ _. codes "error";
  describe_application = λ _. codes "application";
  display_uuid = λ _. codes "rule";
}

same_value : {a b : Option State} → ◌≡◌ {A = Result Text (Option State)} (ok a) (ok b) → b ≡ a
same_value h = cc

abbrev kept_promises : Promises machine
kept_promises = record {
  kernel = λ w. w.0;
  disk = λ w. w.1;
  apply_ok = λ s w done. refl;
  fail_closed_ok = λ w done. refl;
  save_ok = λ s w done. refl;
  load_ok = λ w found h. same_value h;
  disk-apply = λ s w. refl;
  disk-fail_closed = λ w. refl;
  kernel-save = λ s w. refl;
  kernel-load = λ w. refl;
  disk-load = λ w. refl;
}

abbrev bus : EventBus
bus = with_limits 2 1

-- The policy with one rule, in service.
abbrev in_service : Engine
in_service = record (new_engine bus default_limits one_rule) { startup_policy = startup_active }

abbrev serving : Daemon machine
serving = record {
  engine = in_service;
  reservation = none;
  persisted = none;
  world = (enforces (snapshot one_rule), some one_rule);
}

serving-IsQuiet : IsQuiet in_service
unfolding new_engine
serving-IsQuiet = record {
  clean = (refl, refl, refl);
  superseded = λ token no. cc;
  active = refl;
  grounded = refl;
  nothing_pending = refl;
}

serving-Agrees : Agrees machine kept_promises serving
unfolding new_engine
serving-Agrees = inl (record {
  clean = (refl, refl, refl);
  superseded = λ token no. cc;
  served = inr (refl, exactly refl);
  storage = settled refl refl refl refl;
})

abbrev enforce : ControlRequest
enforce = set_mode 3 enforcing

handle_control-IsAnswered_example :
    IsAnswered machine kept_promises from_hundred enforce serving
      (handle_control machine from_hundred enforce serving)
handle_control-IsAnswered_example =
    handle_control-IsAnswered machine kept_promises from_hundred enforce serving serving-Agrees refl

abbrev enforcing_now : Daemon machine
enforcing_now = (handle_control machine from_hundred enforce serving).1

-- A client changes the mode, then a packet worker fails.
abbrev changed_and_failed :
    Run machine serving (quarantine_after_runtime_failure machine enforcing_now)
changed_and_failed = goes_on (goes_on begins (controls from_hundred enforce refl)) fails

Run-Agrees_example :
    Agrees machine kept_promises (quarantine_after_runtime_failure machine enforcing_now)
    ⊎ (IsReleased machine kept_promises (quarantine_after_runtime_failure machine enforcing_now)
        × Releases machine kept_promises serving
            (quarantine_after_runtime_failure machine enforcing_now)
            changed_and_failed)
Run-Agrees_example = Run-Agrees machine kept_promises changed_and_failed serving-Agrees

-- A policy that was loaded and not activated yet.
abbrev waiting : Daemon machine
waiting = record {
  engine = new_engine bus default_limits one_rule;
  reservation = none;
  persisted = none;
  world = (closed, some one_rule);
}

activate-quarantine-IsReleased_example :
    IsReleased machine kept_promises
      (activate_startup_policy machine (quarantine_after_runtime_failure machine waiting)).1
unfolding new_engine
activate-quarantine-IsReleased_example =
    activate-quarantine-IsReleased machine kept_promises waiting refl refl

abbrev candidate : State
candidate = record one_rule { revision = 4; flow_generation = 9; mode = enforcing }

commit-Ends_example :
    Ends machine kept_promises one_rule candidate (commit machine candidate [] serving)
unfolding new_engine
commit-Ends_example =
    commit-Ends machine kept_promises candidate [] serving serving-IsQuiet refl refl

load-Starts_example :
    Starts machine kept_promises
      (some one_rule)
      (load_with_learning_limits machine from_hundred bus default_limits (closed, some one_rule))
load-Starts_example =
    load-Starts machine kept_promises from_hundred bus default_limits (closed, some one_rule)
      (one_rule-WellFormed, omega arith)

abbrev event : Event
event = record { revision = 3; occurred_at = 9; kind = mode_changed learning enforcing }

run-new-IsBounded_example :
    IsBounded (Delivery.run (subscribes ∷ removes 0 ∷ subscribes ∷ []) bus)
    × Increases 0 (identifiers (subscribes ∷ removes 0 ∷ subscribes ∷ []) bus)
run-new-IsBounded_example = run-new-IsBounded (subscribes ∷ removes 0 ∷ subscribes ∷ []) 2 1

-- The queue of the first subscriber has room for one event.
abbrev busy : EventBus
busy = Delivery.run (subscribes ∷ subscribes ∷ publishes event ∷ receives 0 ∷ []) bus

publish-delivers_example :
    BTree.get 1 (publish event busy).subscribers ≡ delivered 1 event (BTree.get 1 busy.subscribers)
unfolding Delivery.run Delivery.step subscribe publish recv_timeout BTree.get BTree.insert
publish-delivers_example =
    publish-delivers event busy 1
      (run-new-IsBounded (subscribes ∷ subscribes ∷ publishes event ∷ receives 0 ∷ []) 2 1).0

-- A transaction that its owner holds.
abbrev transaction : ApplicationLearningTransaction
transaction = record {
  token = 1;
  previous = one_rule;
  candidate = record one_rule { revision = 4 };
  events = [];
}

abbrev learns : Daemon machine
learns = record serving {
  engine = record in_service {
    learning_persistence = in_flight 1;
    next_learning_transaction = 1;
    pending_application_learning_candidate = some transaction.candidate;
  };
  reservation = some transaction;
}

learns-IsLive : IsLive machine kept_promises learns
unfolding new_engine
learns-IsLive = record {
  clean = (refl, refl, refl);
  superseded = λ token no. cc;
  served = inr (refl, exactly refl);
  storage =
      writing transaction refl refl
        (record {
          flying = refl;
          pending = refl;
          base = refl;
          fresh = refl;
          latest = refl;
          mode = refl;
          candidate_mode = refl;
          generation = refl;
        })
        refl;
}

works : IsReliable machine
works = record { applies = λ s w. refl; closes = λ w. refl; saves = λ s w. refl }

learns-IsClosable : IsClosable machine transaction.candidate
unfolding bounded_serialized_state_size
learns-IsClosable = record {
  well_formed = record {
    revision = omega arith;
    generation = one_rule-WellFormed.generation;
    size = one_rule-WellFormed.size;
    sorted = one_rule-WellFormed.sorted;
    entries = one_rule-WellFormed.entries;
  };
  left = omega arith;
  size = 100;
  fits = refl;
}

handle_control-Closes_example :
    Closes machine kept_promises
      (closed_policy transaction.candidate)
      (handle_control machine from_hundred (set_mode 3 block_all) learns)
unfolding new_engine
handle_control-Closes_example =
    handle_control-Closes machine kept_promises works from_hundred 3 learns learns-IsLive refl
      learns-IsClosable refl

learning-Completes_example :
    Learns machine kept_promises transaction (owner_proceeds machine transaction learns)
learning-Completes_example =
    learning-Completes machine kept_promises transaction learns
      (owner_proceeds machine transaction learns) learns-IsLive refl refl refl silent

runtime_compatibility-IsReadable_example :
    IsReadable (runtime_compatibility nftables in_service) learning nftables
unfolding new_engine
runtime_compatibility-IsReadable_example =
    runtime_compatibility-IsReadable nftables in_service (λ no. let x : ⊥ = cc in x)
