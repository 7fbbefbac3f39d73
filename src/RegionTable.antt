-- ===== src/RegionTable.antt =====
-- `RIRegionTable`: include/region/regiontable.h and src/region/regiontable.cxx. The table that a
-- region keeps of its own services and payloads. An operation returns the new table, its result
-- and the calls of the observer; the time is an argument. The timers belong to a library outside
-- the repository: the table keeps whether they run, and whether one starts is an argument.
pub mod Refresh
pub mod Steps
pub mod Invariant
pub mod Updates
pub mod Mirror
use ris.Base.{
  ℕ, zero, suc, ◌+◌, ◌*◌, ◌/◌, String, Bool, true, false, Option, none, some, List, [], ◌∷◌, ◌++◌,
  map, if◌then◌else◌, not, ◌||◌, str_dec, length, ◌>>=◌, collect, ◌==◌,
}
use ris.Words.{u32, u64}
use ris.Observer.{
  Event, on_region, on_rm_region, on_service, on_rm_service, on_payload, on_rm_payload, Status, ok,
  failed,
}
use ris.RiTypes.Region
use ris.RiTypes.Region.{Region}
use ris.RiTypes.Service
use ris.RiTypes.Service.{Service}
use ris.RiTypes.Payload
use ris.RiTypes.Payload.{Payload}
use ris.RiTypes.Messages.{SnapshotItem, snapshot_begin, snapshot_end}
use ris.Containers.Indexed
use ris.Containers.Indexed.{Indexed, contents}
use Refresh.{update_timeouted}

pub record RegionTable : Type 0 where
  pub region : Region
  pub observed : Bool
  pub services : Indexed String Service
  pub payloads : Indexed String Payload
  pub timer_reg : Bool
  pub timer_repeat : Bool
  pub sec_repub_region : ℕ
  pub sec_repub_service : ℕ
  pub sec_repub_payload : ℕ

-- The part of `RegionCtx` that the table reads.
pub record Ctx : Type 0 where
  pub uuid : String
  pub idc : String
  pub bus_address : String
  pub bus_identity : String
  pub snapshot_address : String
  pub snapshot_identity : String

unfoldable pub create : Ctx → RegionTable
create ctx = record {
  region = record {
    id = ctx.uuid;
    version = 0;
    idc = ctx.idc;
    bus = record { address = ctx.bus_address; identity = ctx.bus_identity };
    snapshot = record { address = ctx.snapshot_address; identity = ctx.snapshot_identity };
    timeval = 0;
  };
  observed = false;
  services = Indexed.empty Service.default;
  payloads = Indexed.empty Payload.default;
  timer_reg = false;
  timer_repeat = false;
  sec_repub_region = 1;
  sec_repub_service = 60;
  sec_repub_payload = 60;
}

-- `++m_region.version`
unfoldable pub bump : Region → Region
bump r = record r { version = u32 (r.version + 1) }

-- A call of the observer, if there is one.
unfoldable pub notify : RegionTable → Event → List Event
notify t e = if t.observed then e ∷ [] else []

abbrev pub Outcome : Type 0
Outcome = RegionTable × Status × List Event

unfoldable pub insert_service : RegionTable → Service → Outcome
unfolding bump notify
insert_service t svc =
    let t' : RegionTable = record t {
      region = bump t.region;
      services = Indexed.append str_dec svc.name svc t.services;
    } in
    (t', ok, notify t' (on_service t'.region.id t'.region.version svc))

unfoldable pub add_service : RegionTable → Service → Outcome
unfolding insert_service
add_service t svc =
    if not (Service.good svc)
    then (t, failed, [])
    else elim (Indexed.find str_dec svc.name t.services) [
      | none ↦ insert_service t svc
      | some it ↦ (t, failed, [])
    ]

delete_service : RegionTable → String → ℕ → Outcome
unfolding bump notify
delete_service t svc it =
    let t' : RegionTable = record t {
      region = bump t.region;
      services = Indexed.remove str_dec svc it t.services;
    } in
    (t', ok, notify t' (on_rm_service t'.region.id t'.region.version svc))

unfoldable pub rm_service : RegionTable → String → Outcome
unfolding delete_service
rm_service t svc = elim (Indexed.find str_dec svc t.services) [
  | some it ↦ delete_service t svc it
  | none ↦ (t, failed, [])
]

unfoldable pub insert_payload : RegionTable → Payload → Outcome
unfolding bump notify
insert_payload t pl =
    let t' : RegionTable = record t {
      region = bump t.region;
      payloads = Indexed.append str_dec pl.id pl t.payloads;
    } in
    (t', ok, notify t' (on_payload t'.region.id t'.region.version pl))

unfoldable pub add_payload : RegionTable → Payload → Outcome
unfolding insert_payload
add_payload t pl =
    if not (Payload.good pl)
    then (t, failed, [])
    else elim (Indexed.find str_dec pl.id t.payloads) [
      | none ↦ insert_payload t pl
      | some it ↦ (t, failed, [])
    ]

delete_payload : RegionTable → String → ℕ → Outcome
unfolding bump notify
delete_payload t pl it =
    let t' : RegionTable = record t {
      region = bump t.region;
      payloads = Indexed.remove str_dec pl it t.payloads;
    } in
    (t', ok, notify t' (on_rm_payload t'.region.id t'.region.version pl))

unfoldable pub rm_payload : RegionTable → String → Outcome
unfolding delete_payload
rm_payload t pl = elim (Indexed.find str_dec pl t.payloads) [
  | some it ↦ delete_payload t pl it
  | none ↦ (t, failed, [])
]

-- The package, or an abort where a `CHECK` of a conversion fails.
unfoldable pub build_snapshot : RegionTable → Option (List SnapshotItem)
build_snapshot t = do
  begin ← Region.to_snapshot_begin t.region
  services ← collect Service.to_snapshot (contents t.services)
  payloads ← collect Payload.to_snapshot (contents t.payloads)
  some (
      snapshot_begin
      ∷ begin
      ∷ (services ++ (payloads ++ (Region.to_snapshot_end t.region ∷ snapshot_end ∷ []))))

-- `start(ob)`: `reg_starts` and `repeat_starts` say whether the two timers can be started.
unfoldable pub start : RegionTable → Bool → Bool → Bool → Outcome
unfolding notify
start t ob reg_starts repeat_starts =
    if t.timer_reg || t.timer_repeat
    then (t, failed, [])
    else if not reg_starts
    then (t, failed, [])
    else if not repeat_starts
    then (t, failed, [])
    else let t' : RegionTable = record t { timer_reg = true; timer_repeat = true; observed = ob } in
      (t', ok, notify t' (on_region t'.region))

-- `none` is the failed `CHECK` that the second timer runs if the first does.
unfoldable pub stop : RegionTable → Option (RegionTable × List Event)
unfolding notify
stop t =
    if not t.timer_reg
    then some (t, [])
    else if not t.timer_repeat
    then none
    else some
        (record t { timer_reg = false; timer_repeat = false }, notify t (on_rm_region t.region.id))

unfoldable pub update_timeouted_service : ℕ → RegionTable → ℕ → ℕ → RegionTable × List Service
update_timeouted_service now t timeout maxcount =
    let (services, svcs) =
      update_timeouted (λ (s : Service). s.timeval) (λ n s. record s { timeval = n }) now timeout
        maxcount t.services in
    (record t { services = services }, svcs)

unfoldable pub update_timeouted_payload : ℕ → RegionTable → ℕ → ℕ → RegionTable × List Payload
update_timeouted_payload now t timeout maxcount =
    let (payloads, pls) =
      update_timeouted (λ (p : Payload). p.timeval) (λ n p. record p { timeval = n }) now timeout
        maxcount t.payloads in
    (record t { payloads = payloads }, pls)

-- `payload_size() / (m_sec_repub_payload * 1000 / RI_PUB_REPEAT_TIMER) + 100`; the division by zero
-- is a fault.
unfoldable pub payload_quota : RegionTable → Option ℕ
payload_quota t =
    let turns = u64 (t.sec_repub_payload * 1000) / 20 in
    if turns == 0 then none else some (length (contents t.payloads) / turns + 100)

-- The body of `pubRepeated`, where there is an observer.
unfoldable pub repeat : ℕ × ℕ → RegionTable → Option (RegionTable × List Event)
repeat (now, later) t = do
  let refreshed = update_timeouted_service now t (u64 (t.sec_repub_service * 1000)) 100
  maxcount ← payload_quota refreshed.0
  let last = update_timeouted_payload later refreshed.0 (u64 (t.sec_repub_payload * 1000)) maxcount
  some (
    last.0,
    map (on_service t.region.id t.region.version) refreshed.1
        ++ map (on_payload t.region.id t.region.version) last.1,
  )

-- The pair holds the readings of the clock, for the services and for the payloads.
unfoldable pub pub_repeated : ℕ × ℕ → RegionTable → Option (RegionTable × List Event)
unfolding repeat
pub_repeated times t = if not t.observed then some (t, []) else repeat times t

unfoldable pub pub_region : RegionTable → List Event
unfolding notify
pub_region t = notify t (on_region t.region)
