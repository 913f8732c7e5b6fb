-- ===== src/Examples/Scheduling.antt =====
-- A fair queue with two users, and a short run.
use open_shield.Scheduler.Order.{AreDistinct}
use open_shield.Scheduler.Batch.Fifo.{IsInOrder, take_batch-IsInOrder}
use open_shield.Base.{◌≢◌, true, refl, some, [], ◌∷◌, arith}
use open_shield.Base.Outcome.{ok, err}
use open_shield.Base.Text.{codes}
use open_shield.Model.Kinds.{tcp}
use open_shield.Model.Address.{IpAddr}
use open_shield.Scheduler.{
  PendingPacket, OutboundConnection, UserQueue, FairQueue, of_socket_uid, network, UserKey, FlowKey,
  for_packet, take_batch,
}
use open_shield.Scheduler.Fair.{IsFair}
use open_shield.Scheduler.Pushing.{Pushes, push-Pushes}
use open_shield.Scheduler.Batch.Rounds.{TakesAll, take_batch-TakesAll}
use open_shield.Scheduler.Batch.Turns.{Contains, is_of, take_batch-Contains}
use open_shield.Scheduler.Runs.{arrives, takes, steps, Reaches, nothing_yet, steps-IsAccounted}
use open_shield.Fixtures.{eth0}

abbrev connection : OutboundConnection
connection = record {
  source_address = IpAddr.v4 1;
  source_port = some 50_000;
  destination_address = IpAddr.v4 9;
  destination_port = some 443;
  protocol = tcp;
  output_interface = eth0;
  socket_uid = 1_000;
}

abbrev parsed_packet : PendingPacket
parsed_packet = record {
  work = record {
    packet_id = 1;
    packet = ok (record { connection = connection; packet_mark = 0; initial_observation = true });
  };
  received = 5;
}

abbrev broken_packet : PendingPacket
broken_packet = record {
  work = record { packet_id = 2; packet = err (codes "truncated") };
  received = 6;
}

abbrev second_user : UserQueue
second_user = record {
  key = UserKey.unparsed;
  flows = record { key = FlowKey.unparsed 2; packets = broken_packet ∷ [] } ∷ [];
}

abbrev two_users : FairQueue
two_users = record {
  users =
      record {
        key = of_socket_uid 1_000;
        flows =
            record {
              key = network tcp (IpAddr.v4 1) (IpAddr.v4 9) (some 50_000) (some 443);
              packets = parsed_packet ∷ parsed_packet ∷ [];
            }
            ∷ [];
      }
      ∷ second_user
      ∷ [];
  pending = 3;
}

two_users-IsFair : IsFair two_users
unfolding for_packet
two_users-IsFair = record {
  counted = refl;
  bounded = omega arith;
  users = (
    (omega arith, ((omega arith, (refl, (refl, tt))), tt)),
    ((omega arith, ((omega arith, (refl, tt)), tt)), tt),
  );
}

two_users-AreDistinct : AreDistinct two_users.users
two_users-AreDistinct = ((λ e. differ e, tt), (tt, tt), (tt, (tt, tt), tt))
  where
    differ : UserKey.unparsed ≢ of_socket_uid 1_000
    differ e = cc

push-Pushes_example : Pushes broken_packet two_users
push-Pushes_example = push-Pushes broken_packet two_users two_users-IsFair two_users-AreDistinct

take_batch-TakesAll_example : TakesAll [] two_users (take_batch two_users)
take_batch-TakesAll_example = take_batch-TakesAll two_users two_users-IsFair

take_batch-Contains_example : Contains (is_of UserKey.unparsed) (take_batch two_users)
take_batch-Contains_example =
    take_batch-Contains two_users 1 second_user two_users-IsFair refl (omega arith)

take_batch-IsInOrder_example : IsInOrder [] two_users (take_batch two_users)
take_batch-IsInOrder_example = take_batch-IsInOrder two_users two_users-IsFair two_users-AreDistinct

steps-IsAccounted_example :
    Reaches (steps (arrives parsed_packet ∷ arrives broken_packet ∷ takes ∷ []) nothing_yet)
steps-IsAccounted_example =
    steps-IsAccounted (arrives parsed_packet ∷ arrives broken_packet ∷ takes ∷ [])
