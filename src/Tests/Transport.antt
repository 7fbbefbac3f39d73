-- ===== src/Tests/Transport.antt =====
-- The publish channel, the snapshot client, the queues of the bus and the replies to a sender:
-- src/region/publisher.cxx, src/tracker/subscriber.cxx, src/snapshot/snapshotclientworker.cxx,
-- src/region/busprocesser.cxx and src/buscli/busmsgreply.cxx.
use ris.SnapshotClient.Transfer.{builder}
use ris.Base.{
  if◌then◌else◌, ◌&&◌, not, String, ℕ, ◌≡◌, ◌==◌, refl, true, false, some, none, List, [], ◌∷◌,
  str_dec, is_empty, ite,
}
use ris.Observer.{on_service}
use ris.RiTypes.EndPoint
use ris.RiTypes.EndPoint.{EndPoint}
use ris.RiTypes.Service
use ris.RiTypes.Service.{Service}
use ris.RiTypes.Messages.{RegionMsg, RegionRuntime, pub_service, service}
use ris.RegionProduct
use ris.RegionProduct.{RegionProduct}
use ris.Channel
use ris.Channel.{Letter}
use ris.Channel.RoundTrip.{receive-publish, stamped}
use ris.SnapshotClient
use ris.SnapshotClient.{SnapshotBuilder, Message, item, Receiver, Client, at_body, Outcome}
use ris.SnapshotClient.Progress.{Moves, readable-Moves}
use ris.BusMsgReply
use ris.BusMsgReply.Answers
use ris.BusMsgReply.Answers.{reply-hear}
use ris.BusProcesser
use ris.BusProcesser.{BusProcesser, Network, Sent}
use ris.BusProcesser.Queues
use ris.BusProcesser.Delivery.{workers, dispatch}
use ris.BusProcesser.Traffic
use ris.BusProcesser.Traffic.{Handled, on_bus_readable_lem, run-create-IsBounded}

abbrev echo : Service
echo = record {
  name = "echo";
  endpoint = record { address = "tcp://a"; identity = "a" };
  timeval = 7;
}

abbrev letter : Letter
letter = (
  "east",
  pub_service (record { uuid = "east"; version = 3 })
      (record { name = "echo"; endpoint = record { address = "tcp://a"; identity = "a" } }),
)

published : Channel.publish (on_service "east" 3 echo) ≡ some letter
unfolding Channel.publish Channel.publish_service Service.to_publish Service.to_protobuf
    EndPoint.to_protobuf is_empty
published = refl

receive-publish_example : Channel.receive 50 letter ≡ stamped 50 (on_service "east" 3 echo)
receive-publish_example = receive-publish 50 (on_service "east" 3 echo) letter published

-- Frames that hold their message.
abbrev receiver : Receiver Message
receiver = record {
  recv_rep = λ m. none;
  recv_begin = λ m. false;
  recv_region_begin = λ m. none;
  recv = λ m. some m;
}

abbrev client : Client
client = record { stage = some at_body; last_region = "east"; requester = "me" }

abbrev frame : Message
frame =
    item (
      service (record { name = "echo"; endpoint = record { address = "tcp://a"; identity = "a" } }))

in_region : is_empty "east" ≡ false
unfolding is_empty
in_region = refl

no_region :
    (rt : RegionRuntime) (r : RegionMsg)
    → receiver.recv_region_begin frame ≡ some (rt, r)
    → is_empty r.uuid ≡ false
no_region rt r e = cc

readable-Moves_example :
    (o : Outcome RegionProduct) × (SnapshotClient.readable builder receiver
        (5, 6)
        client
        RegionProduct.create
        frame
      ≡ some o)
    × Moves o
readable-Moves_example =
    readable-Moves builder receiver (5, 6) client RegionProduct.create frame at_body refl in_region
      no_region

-- The router has lost one of the workers.
abbrev net : Network
net = record { knows = λ w. ite (str_dec w "here") true false; takes = λ w. true }

abbrev queues : BusProcesser ℕ
queues = BusProcesser.push_worker (BusProcesser.push_worker (BusProcesser.create 2) "gone") "here"

queues-IsValid : Queues.IsValid queues
queues-IsValid =
    Queues.push_worker-IsValid _ "here"
      (Queues.push_worker-IsValid _ "gone" (Queues.create-IsValid 2))

on_bus_readable_lem_example :
    (r : BusProcesser ℕ × List (Sent ℕ)) × (BusProcesser.on_bus_readable net queues (some 9)
      ≡ some r)
    × Queues.IsValid r.0
    × (workers r.0 ≡ (dispatch net (workers queues)).0)
    × Handled net queues 9 r (dispatch net (workers queues)).1
on_bus_readable_lem_example = on_bus_readable_lem net queues 9 queues-IsValid

abbrev traffic : List (Traffic.Call ℕ)
traffic =
    Traffic.from_worker (some ("here", 0))
    ∷ Traffic.from_bus net (some 7)
    ∷ Traffic.from_bus net (some 8)
    ∷ []

run-create-IsBounded_example :
    Traffic.Succeeds (λ n. n == 0) (Traffic.run (λ n. n == 0) (BusProcesser.create 2) traffic)
run-create-IsBounded_example = run-create-IsBounded (λ n. n == 0) 2 traffic

-- A reply for one of two payloads, and a failure of the other.
abbrev reports : List (Answers.Report ℕ)
reports = Answers.replied 4 ("cargo" ∷ "stray" ∷ []) (some 9) ∷ Answers.failed 4 ("crate" ∷ []) ∷ []

abbrev targets : List String
targets = "cargo" ∷ "crate" ∷ []

cargo_replied :
    BusMsgReply.reply (Answers.hear (BusMsgReply.create 4 targets) reports) "cargo" ≡ some 9
unfolding BusMsgReply.reply Answers.hear BusMsgReply.create BusMsgReply.add_reply BusMsgReply.keep
    BusMsgReply.add_failure BusMsgReply.fail_all BusMsgReply.find_item BusMsgReply.member
    BusMsgReply.insert BusMsgReply.expected str_dec
cargo_replied = refl

reply-hear_example :
    BusMsgReply.reply (Answers.hear (BusMsgReply.create 4 targets) reports) "cargo" ≡ (
      if BusMsgReply.member "cargo" targets && not (Answers.tells_failure 4 "cargo" reports)
      then Answers.first_reply 4 "cargo" reports
      else none)
reply-hear_example = reply-hear 4 targets reports "cargo"
