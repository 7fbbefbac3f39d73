-- ===== src/Tests/Snapshots.antt =====
-- A transfer of a small table: src/snapshot/snapshotservice.cxx and src/snapshot/
-- snapshotclientworker.cxx.
use ris.Base.{
  ℕ, suc, ◌≡◌, ◌≢◌, refl, String, Bool, true, false, Option, some, none, List, [], ◌∷◌, str_dec,
  is_empty, arith, collect, length, ◌≤◌, ◌<◌, ◌*◌, All, ℕ_discrete, ap, ite,
}
use ris.Observer.{ok, failed}
use ris.Containers.Map
use ris.Containers.NodeList
use ris.Containers.Indexed
use ris.RiTypes.EndPoint
use ris.RiTypes.Region
use ris.RiTypes.Service
use ris.RiTypes.Service.{Service}
use ris.RiTypes.Payload
use ris.RiTypes.Payload.{Payload}
use ris.RiTypes.Messages.{
  RegionMsg, RegionRuntime, SnapshotItem, snapshot_begin, region_begin, region_end, snapshot_end,
  service, payload,
}
use ris.RegionTable
use ris.RegionTable.{RegionTable}
use ris.RegionTable.Invariant
use ris.RegionProduct
use ris.SnapshotService
use ris.SnapshotService.{SnapshotService, Ctx, Fate}
use ris.SnapshotService.Worker.{Frame, reply, carries, asks_sync}
use ris.SnapshotService.Steps
use ris.SnapshotService.Steps.{Event, asks, signals, ticks}
use ris.SnapshotService.Invariant.{start-IsValid, run-IsValid}
use ris.SnapshotService.Delivery.{request-Accounts}
use ris.SnapshotService.Ledger.{Accounts, pending}
use ris.SnapshotService.Completion.{request_completes, Serves, signals_of}
use ris.SnapshotClient.{Receiver, Message, item, sync_signal, other}
use ris.SnapshotClient.Transfer.{IsFaithful, waiting}
use ris.SnapshotClient.Completion.{Completes, transfer_completes}
use ris.SnapshotTransfer.{snapshot_transfers}
use ris.SnapshotTransfer.Addressed.{frames_to}

abbrev echo : Service
echo = record {
  name = "echo";
  endpoint = record { address = "tcp://a"; identity = "a" };
  timeval = 7;
}

abbrev cargo : Payload
cargo = record { id = "cargo"; timeval = 5 }

abbrev ctx : RegionTable.Ctx
ctx = record {
  uuid = "east";
  idc = "one";
  bus_address = "tcp://a";
  bus_identity = "a";
  snapshot_address = "tcp://s";
  snapshot_identity = "s";
}

abbrev table : RegionTable
table = (RegionTable.add_payload (RegionTable.add_service (RegionTable.create ctx) echo).0 cargo).0

table-IsValid : Invariant.IsValid table
table-IsValid =
    Invariant.add_payload-IsValid _ cargo
      (Invariant.add_service-IsValid _ echo (Invariant.create-IsValid ctx))

abbrev region_msg : RegionMsg
region_msg = record {
  uuid = "east";
  idc = "one";
  bus = record { address = "tcp://a"; identity = "a" };
  snapshot = record { address = "tcp://s"; identity = "s" };
}

abbrev runtime : RegionRuntime
runtime = record { uuid = "east"; version = 2 }

abbrev body : List SnapshotItem
body =
    service (record { name = "echo"; endpoint = record { address = "tcp://a"; identity = "a" } })
    ∷ payload (record { uuid = "cargo" })
    ∷ region_end runtime
    ∷ snapshot_end
    ∷ []

abbrev built : List SnapshotItem
built = snapshot_begin ∷ region_begin runtime region_msg ∷ body

build_snapshot-table : RegionTable.build_snapshot table ≡ some built
unfolding RegionTable.build_snapshot RegionTable.add_payload RegionTable.insert_payload
    RegionTable.add_service RegionTable.insert_service RegionTable.create RegionTable.bump
    RegionTable.notify Region.to_snapshot_begin Region.to_protobuf Region.to_runtime
    Region.to_snapshot_end EndPoint.to_protobuf EndPoint.good EndPoint.all_good Service.good
    Service.to_snapshot Service.to_protobuf Payload.good Payload.to_snapshot Payload.to_protobuf
    Indexed.empty Indexed.find Indexed.append NodeList.empty NodeList.push_back NodeList.write
    Map.find Map.insert collect is_empty str_dec ℕ_discrete
build_snapshot-table = refl

abbrev rep_of : Frame → Option ℕ
rep_of (reply ok) = some 0
rep_of (reply failed) = some 1
rep_of (carries i) = none
rep_of asks_sync = none

abbrev is_begin : Frame → Bool
is_begin (carries snapshot_begin) = true
is_begin f = false

abbrev begin_of : Frame → Option (RegionRuntime × RegionMsg)
begin_of (carries (region_begin rt r)) = some (rt, r)
begin_of f = none

abbrev message_of : Frame → Option Message
message_of (reply result) = some other
message_of (carries i) = some (item i)
message_of asks_sync = some sync_signal

abbrev receiver : Receiver Frame
receiver = record {
  recv_rep = rep_of;
  recv_begin = is_begin;
  recv_region_begin = begin_of;
  recv = message_of;
}

receiver-IsFaithful : IsFaithful receiver
receiver-IsFaithful = record {
  accepts = refl;
  begins = refl;
  opens = λ rt r. refl;
  items = λ i. refl;
  syncs = refl;
}

abbrev clock : ℕ → ℕ × ℕ
clock k = (suc k, suc k)

ticking : (k : ℕ) → (clock k).0 ≢ 0
ticking k e = omega (arith, e)

-- The socket takes everything.
abbrev fine : Fate
fine = record { takes_reply = true; takes_item = λ i. true; takes_sync = true }

abbrev service_ctx : Ctx
service_ctx = record { capacity = 2; period_count = 2; timeout = 5000 }

abbrev fresh : SnapshotService
fresh = SnapshotService.start service_ctx

abbrev events : List Event
events = signals 11 fine "me" ∷ asks 12 fine "you" built ∷ signals 13 fine "me" ∷ []

nobody : Map.find str_dec "me" fresh.workers ≡ none
unfolding Map.find SnapshotService.start
nobody = refl

you : ◌≢◌ {A = String} "you" "me"
unfolding str_dec
you e = let h : false ≡ true = ap (λ s. ite {C = Bool} (str_dec s "me") true false) e in cc h

events-Serves : All (Serves "me") events
events-Serves = (λ i. refl, (you, (λ i. refl, tt)))

two_signals : signals_of "me" events ≡ 2
unfolding signals_of str_dec
two_signals = refl

roomy : length fresh.workers < fresh.ctx.capacity
unfolding SnapshotService.start
roomy = omega arith

paired : 2 ≤ fresh.ctx.period_count
unfolding SnapshotService.start
paired = omega arith

enough : length built ≤ fresh.ctx.period_count * suc (signals_of "me" events)
unfolding SnapshotService.start
enough = rw two_signals (omega arith)

snapshot_transfers_example :
    Completes receiver receiver-IsFaithful clock ticking table "me" 0
      (waiting "me")
      RegionProduct.create
      (frames_to "me" (Steps.run fresh (asks 10 fine "me" built ∷ events)).1)
snapshot_transfers_example =
    snapshot_transfers receiver receiver-IsFaithful clock ticking table fresh "me" 10 fine built
      events table-IsValid build_snapshot-table (start-IsValid service_ctx) nobody roomy paired refl
      (λ i. refl) events-Serves enough

request_completes_example :
    (Steps.items_to "me" (Steps.run fresh (asks 10 fine "me" built ∷ events)).1 ≡ built)
    × (Map.find str_dec "me" (Steps.run fresh (asks 10 fine "me" built ∷ events)).0.workers ≡ none)
request_completes_example =
    request_completes "me" fresh 10 fine built events (start-IsValid service_ctx) nobody roomy refl
      (λ i. refl) events-Serves enough

-- A batch that breaks off, and a time-out.
abbrev broken : Fate
broken = record { takes_reply = true; takes_item = λ i. false; takes_sync = false }

abbrev trouble : List Event
trouble = asks 11 broken "you" built ∷ signals 12 broken "me" ∷ ticks 9000 ∷ []

request-Accounts_example :
    Accounts
      (Steps.items_to "me" (Steps.run fresh (asks 10 fine "me" built ∷ trouble)).1)
      (pending "me" (Steps.run fresh (asks 10 fine "me" built ∷ trouble)).0)
      built
request-Accounts_example =
    request-Accounts "me" fresh 10 fine built trouble (start-IsValid service_ctx) nobody
      (you, (tt, (tt, tt)))

run-IsValid_example :
    SnapshotService.Invariant.IsValid (Steps.run fresh (asks 10 fine "me" built ∷ trouble)).0
run-IsValid_example =
    run-IsValid fresh (asks 10 fine "me" built ∷ trouble) (start-IsValid service_ctx)

-- A request for a signal between two entries.
abbrev arriving : List Frame
arriving =
    carries (
      service (record { name = "echo"; endpoint = record { address = "tcp://a"; identity = "a" } }))
    ∷ asks_sync
    ∷ carries (payload (record { uuid = "cargo" }))
    ∷ carries (region_end runtime)
    ∷ carries snapshot_end
    ∷ []

arriving_body : snapshot_begin ∷ region_begin runtime region_msg ∷ Steps.items_of arriving ≡ built
unfolding Steps.items_of Steps.item_of
arriving_body = refl

transfer_completes_example :
    Completes receiver receiver-IsFaithful clock ticking table "me" 0
      (waiting "me")
      RegionProduct.create
      (reply ok ∷ carries snapshot_begin ∷ carries (region_begin runtime region_msg) ∷ arriving)
transfer_completes_example =
    transfer_completes receiver receiver-IsFaithful clock ticking table "me" snapshot_begin
      (region_begin runtime region_msg) arriving 0 built table-IsValid build_snapshot-table
      arriving_body (tt, (tt, (tt, (tt, (tt, tt)))))
