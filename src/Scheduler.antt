-- ===== src/Scheduler.antt =====
-- The fair queue of pending packets: crates/openshield-daemon/src/nfqueue_scheduler.rs.
--
-- Time is a number, and an error of parsing is its text. `take_batch` runs on fuel: `none` stands for fuel that has run out.
pub mod Fair
pub mod Pushing
pub mod Batch
pub mod Runs
pub mod Order
use open_shield.Base.{
  ◌&&◌, not, ℕ, zero, suc, ◌+◌, ◌-◌, min, Bool, true, false, Option, none, some, List, [], ◌∷◌,
  ◌++◌, length, ltb, is_empty, same, if◌then◌else◌, ℕ_discrete,
}
use open_shield.Base.Outcome.{Result, ok, err}
use open_shield.Base.Text.{Text}
use open_shield.Model.Kinds.{TransportProtocol, TransportProtocol-discrete}
use open_shield.Model.Address.{IpAddr, IpAddr-discrete}
use open_shield.Model.InterfaceName.{InterfaceName}
use open_shield.Model.Rule.{Instant}

abbrev pub max_pending_packets : ℕ
max_pending_packets = 128

abbrev pub flow_quantum : ℕ
flow_quantum = 4

abbrev pub max_packet_batch_size : ℕ
max_packet_batch_size = 32

pub record OutboundConnection : Type 0 where
  pub source_address : IpAddr
  pub source_port : Option ℕ
  pub destination_address : IpAddr
  pub destination_port : Option ℕ
  pub protocol : TransportProtocol
  pub output_interface : InterfaceName
  pub socket_uid : ℕ

pub record QueuedPacket : Type 0 where
  pub connection : OutboundConnection
  pub packet_mark : ℕ
  pub initial_observation : Bool

pub record QueuedPacketWork : Type 0 where
  pub packet_id : ℕ
  pub packet : Result Text QueuedPacket

pub record PendingPacket : Type 0 where
  pub work : QueuedPacketWork
  pub received : Instant

pub data UserKey : Type 0 where
  of_socket_uid : ℕ → UserKey
  unparsed : UserKey

pub data FlowKey : Type 0 where
  network : TransportProtocol → IpAddr → IpAddr → Option ℕ → Option ℕ → FlowKey
  unparsed : ℕ → FlowKey

unfoldable pub UserKey-discrete : Discrete UserKey
UserKey-discrete = hlevel ℕ_discrete

unfoldable pub FlowKey-discrete : Discrete FlowKey
FlowKey-discrete = hlevel (TransportProtocol-discrete, IpAddr-discrete, ℕ_discrete)

-- `FlowKey::for_packet`
unfoldable pub for_packet : QueuedPacketWork → UserKey × FlowKey
for_packet work = elim work.packet [
  | err _ ↦ (UserKey.unparsed, FlowKey.unparsed work.packet_id)
  | ok packet ↦
      let connection = packet.connection in
      (
        of_socket_uid connection.socket_uid,
        network connection.protocol connection.source_address connection.destination_address
            connection.source_port connection.destination_port,
      )
]

pub record FlowQueue : Type 0 where
  pub key : FlowKey
  pub packets : List PendingPacket

pub record UserQueue : Type 0 where
  pub key : UserKey
  pub flows : List FlowQueue

pub record FairQueue : Type 0 where
  pub users : List UserQueue
  pub pending : ℕ

-- `FairQueue::default`
abbrev pub empty_queue : FairQueue
empty_queue = record { users = []; pending = 0 }

-- The first flow of the key takes the packet, or else a new one at the end.
unfoldable pub push_flow : FlowKey → PendingPacket → List FlowQueue → List FlowQueue
push_flow key packet [] = record { key = key; packets = packet ∷ [] } ∷ []
push_flow key packet (flow ∷ rest) =
    let more = push_flow key packet rest in
    if same FlowKey-discrete flow.key key
    then record flow { packets = flow.packets ++ packet ∷ [] } ∷ rest
    else flow ∷ more

-- The first user of the key takes the packet, or else a new one at the end.
unfoldable pub push_user : UserKey → FlowKey → PendingPacket → List UserQueue → List UserQueue
unfolding push_flow
push_user user_key flow_key packet [] =
    record { key = user_key; flows = record { key = flow_key; packets = packet ∷ [] } ∷ [] } ∷ []
push_user user_key flow_key packet (user ∷ rest) =
    let more = push_user user_key flow_key packet rest in
    if same UserKey-discrete user.key user_key
    then record user { flows = push_flow flow_key packet user.flows } ∷ rest
    else user ∷ more

pub data PushError : Type 0 where
  exceeds_bound : PushError

unfoldable pub push : PendingPacket → FairQueue → Result PushError Unit × FairQueue
unfolding push_user for_packet
push packet q =
    let key = for_packet packet.work in
    if ltb q.pending max_pending_packets
    then (ok tt, record { users = push_user key.0 key.1 packet q.users; pending = q.pending + 1 })
    else (err exceeds_bound, q)

-- The variables of the inner loop.
pub record Taking : Type 0 where
  pub batch : List PendingPacket
  pub packets : List PendingPacket
  pub pending : ℕ

-- `for _ in 0..quantum`
unfoldable pub take_packets : ℕ → Taking → Taking
take_packets zero t = t
take_packets (suc n) t = elim t.packets [
  | [] ↦ t
  | packet ∷ rest ↦
      take_packets n
        (record { batch = t.batch ++ packet ∷ []; packets = rest; pending = t.pending - 1 })
]

-- `FLOW_QUANTUM.min(MAX_PACKET_BATCH_SIZE - batch.len())`
abbrev pub quantum : List PendingPacket → ℕ
quantum batch = min flow_quantum (max_packet_batch_size - length batch)

-- The flow goes back behind the others, unless it has no packet left.
abbrev pub requeued_flow : FlowQueue → List PendingPacket → List FlowQueue → List FlowQueue
requeued_flow flow packets flows =
    if is_empty packets then flows else flows ++ record flow { packets = packets } ∷ []

-- The user goes back behind the others, unless it has no flow left.
abbrev pub requeued_user : UserQueue → List FlowQueue → List UserQueue → List UserQueue
requeued_user user flows users =
    if is_empty flows then users else users ++ record user { flows = flows } ∷ []

-- One pass of the outer loop, for the user that it pops.
abbrev pub serve :
    UserQueue
    → List FlowQueue
    → List UserQueue
    → List PendingPacket
    → ℕ
    → List PendingPacket × FairQueue
serve user [] others batch pending =
    (batch, record { users = requeued_user user [] others; pending = pending })
serve user (flow ∷ flows) others batch pending =
    let t =
      take_packets (quantum batch)
        (record { batch = batch; packets = flow.packets; pending = pending }) in
    (
      t.batch,
      record {
        users = requeued_user user (requeued_flow flow t.packets flows) others;
        pending = t.pending;
      },
    )

-- `while batch.len() < MAX_PACKET_BATCH_SIZE`
unfoldable pub take_rounds :
    ℕ → List PendingPacket → FairQueue → Option (List PendingPacket × FairQueue)
unfolding take_packets
take_rounds zero batch q =
    if ltb (length batch) max_packet_batch_size && not (is_empty q.users)
    then none
    else some (batch, q)
take_rounds (suc n) batch q = elim (ltb (length batch) max_packet_batch_size) [
  | false ↦ some (batch, q)
  | true ↦ elim q.users [
    | [] ↦ some (batch, q)
    | user ∷ others ↦
        let next = serve user user.flows others batch q.pending in take_rounds n next.0 next.1
  ]
]

unfoldable pub take_batch : FairQueue → Option (List PendingPacket × FairQueue)
unfolding take_rounds
take_batch q = take_rounds max_packet_batch_size [] q
