-- ===== src/Lib.antt =====
-- Verification library of OpenShield, a host firewall that learns and enforces rules for
-- applications.
--
-- The daemon keeps one policy, `State` of crates/openshield-core/src/state.rs: a mode, an
-- enforcement strategy, a revision, a flow generation and an ordered map of rules. `Engine` of
-- crates/openshield-daemon/src/engine.rs keeps it in memory, in the kernel and in the state file
-- together: clients change it by control requests, a learner adds rules for what was observed, a
-- monitor repairs the kernel, and failures end in quarantine. The packet path asks an index whether
-- an observed connection can still be learned, and a decision policy which rule an attributed
-- packet matches. Observers without privileges see snapshots with the application metadata redacted.
--
-- Which file models what:
--   Base, BTree: helpers; `Result`, text as code points, checked and saturating arithmetic of
--     `usize`, loops with `continue`, `break` and `?`; `BTreeMap` as an ordered list of entries.
--   Application and its files: crates/openshield-core/src/application.rs. Paths, command lines,
--     file identities, selectors (`ApplicationSelector`) and what was observed
--     (`ApplicationIdentity`), with each `new`, `validate` and `matches`.
--   Model and its files: crates/openshield-core/src/model.rs. Rule names, interfaces, port ranges,
--     specifications, rules and learned endpoints.
--   State.Data, State.Mutation, State.Pins, State.Interception: the policy and its methods. A method
--     takes the policy and returns its result beside the policy that it leaves, also for an error,
--     so that what an early return leaves behind is visible. State.Operation lists the methods
--     as one alphabet with runs. State.Equality is the derived equality.
--   State.Snapshots, State.Size, State.Observer: validation of snapshots, the bounded size of the
--     serialized policy, redaction.
--   State.Keys, State.Counts, State.Learning and its files: automatic learning, with the quotas of
--     crates/openshield-core/src/learning_limits.rs.
--   State.Admission and its files: the admission index, and what learning does with what it admits.
--   Protocol and its files: crates/openshield-protocol/src/lib.rs. Control requests, responses,
--     errors and the runtime compatibility.
--   Attribution and its files: crates/openshield-daemon/src/application.rs, the pinning of
--     executables (`pin_rule_application`), the decision policy (`ApplicationDecisionPolicy`) and the
--     fields of a process that it needs (`IdentityCaptureRequirements`).
--   Engine.Bus, Engine.Data, Engine.Decision, Engine.Control: crates/openshield-daemon/src/engine.rs,
--     the event bus, the fields of `Engine`, the decision policy that it builds, and
--     `apply_control_to_candidate`.
--   Engine.Outside: what the engine calls, as a record of functions on a type `World`: the traits
--     `FirewallBackend` and `StateStore`, and parameters of other parts. `Promises` is what their
--     documentation says: an apply that succeeds installs the policy, a fail-closed update that
--     succeeds closes the kernel, a save that succeeds is in the file, a load that succeeds returns the
--     file, and neither side changes the other. Of a call that fails nothing is assumed.
--   Engine.Persistence, Engine.Commit, Engine.Transition, Engine.QueueAdmission, Engine.Learning,
--     Engine.Emergency, Engine.Startup, Engine.Reports: the methods of `PersistenceCoordinator` and `Engine`, on a `Daemon`: the
--     engine, the reservation with its transaction, a transaction that was written, and the world.
--   Engine.Agreement and its files: when memory, kernel and file agree, and that methods keep it so;
--     Engine.Agreement.Runs has the steps of the daemon's threads.
--   Scheduler and its files: crates/openshield-daemon/src/nfqueue_scheduler.rs, the fair queue of
--     pending packets between users and their flows.
--   Fixtures, Examples: concrete policies and runs on them.
--
-- Conventions and bounds:
--   * Identifiers, times, addresses and networks are numbers; an address keeps its family. Numbers
--     are natural numbers. Where the code computes with checked or saturating arithmetic, the bound
--     is written out (`usize_max`, `u64_max`).
--   * Identifiers and times that `create_rule` draws come from a stream of draws (`Draws`).
--   * serde_json, the conversion of an address to a network, and the display of addresses and
--     identifiers are parameters (`External`). A serialization is the list of the sizes it writes.
--   * The file system that pinning looks at is a parameter (`Files`), and each call of it has its
--     number, so that its answers may change while an executable is pinned.
--   * Loops follow lists, so no fuel is used for them, but `take_batch` of the fair queue runs on fuel
--     32: every round on a queue without empty flows puts a packet into a batch of at most 32.
--   * One method of the engine runs at a time, under its mutex. The owner of a reservation writes
--     beside it: a step of a run, or within an exclusive access, which waits for it. The owner may end
--     without a write. There is one learner, which prepares a transaction when it holds none; clients,
--     the monitor and the learner begin when the policy is active, and an activation that fails ends
--     the daemon. `activate_startup_policy` does not ask whether a worker has failed before it, and the
--     runs have such an activation too.
--   * Errors of anyhow are their outermost context. Log messages and the times that limit them are
--     left out, and so is the poisoned mutex of the coordinator and of the event bus.
--
-- Not modelled: serde formats, file storage, the nftables and iptables compilers, the framing of
-- the wire protocol, the reading of /proc and netlink, the daemon's sockets, threads and
-- processes, and the terminal interface. They are I/O or text output around the policy.
pub mod Base
pub mod BTree
pub mod Application
pub mod Model
pub mod State
pub mod Protocol
pub mod Attribution
pub mod Engine
pub mod Scheduler
pub mod Fixtures
pub mod Examples
