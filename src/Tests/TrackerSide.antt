-- ===== src/Tests/TrackerSide.antt =====
-- The table of a tracker and its queue of updates: src/tracker/trackertable.cxx and
-- src/tracker/regionsubcacher.cxx.
use ris.Base.{
  ◌++◌, ap, ◌∙◌, sym, false, is_empty, subst, ◌≢◌, ℕ, ℕ_discrete, ◌<◌, ◌^◌, ◌+◌, ◌≡◌, ◌⊎◌, ◌↔◌,
  refl, String, true, some, none, List, [], ◌∷◌, str_dec, arith, map, length, collect,
}
use mathlib.Core.Option.{some-injective, none-ne-some}
use ris.Words.{u32}
use ris.Observer.{on_rm_region, on_service, on_payload, ok, failed}
use ris.Containers.Map
use ris.Containers.NodeList
use ris.Containers.NodeList.{mem}
use ris.Containers.Indexed
use ris.RiTypes.EndPoint.{EndPoint, ep_dec}
use ris.RiTypes.Region.{Region}
use ris.RiTypes.Service.{Service}
use ris.RiTypes.Payload.{Payload}
use ris.PubData
use ris.PubData.{PubData}
use ris.TrackerSession
use ris.TrackerSession.{TrackerSession}
use ris.TrackerSession.Routes.{answered, route_of, IsAddressed, routes_found}
use ris.Containers.Map.Entries.{Distinct}
use ris.BusWorker.{Header, do_work, deliver, merge_routes}
use ris.BusWorker.Grouping.{unrouted, grouped, report, targets_at, AllTargeted}
use ris.BusWorker.Routing.{message_routed}
use ris.RegionSubCacher
use ris.RegionSubCacher.{RegionSubCacher}
use ris.RegionSubCacher.Continuity.{StartsAt, IsConsecutive, present-ok_iff, present_repeated}
use ris.TrackerTable
use ris.TrackerTable.{TrackerTable}
use ris.TrackerTable.Regions
use ris.TrackerTable.Services
use ris.TrackerTable.Payloads
use ris.TrackerTable.Reads.{route_payload}
use ris.TrackerTable.RoundRobin.{route_times, route_times_lem, provider}
use ris.TrackerTable.Invariant.{IsValid}
use ris.TrackerTable.Invariant.Operations.{create-IsValid}
use ris.TrackerTable.Invariant.Merging.{merge-IsValid}
use ris.TrackerTable.Invariant.Removal.{Removed, do_rm_region-Removed}
use ris.TrackerTable.Invariant.Routing.{route_payload_lem}
use ris.TrackerTable.Invariant.History
use ris.TrackerTable.Invariant.History.{run-create-Succeeds}

abbrev endpoint : String → EndPoint
endpoint s = record { address = s; identity = "bus" }

abbrev echo : String → Service
echo s = record { name = "echo"; endpoint = endpoint s; timeval = 7 }

abbrev cargo : Payload
cargo = record { id = "cargo"; timeval = 5 }

abbrev area : String → Region
area id = record {
  id = id;
  version = 3;
  idc = "one";
  bus = endpoint id;
  snapshot = endpoint id;
  timeval = 4;
}

abbrev traffic : List History.Call
traffic =
    History.merges (area "east") (echo "a" ∷ []) (cargo ∷ [])
    ∷ History.merges (area "west") (echo "b" ∷ []) []
    ∷ History.routes_service "echo"
    ∷ History.hears (on_payload "west" 4 cargo)
    ∷ History.hears (on_rm_region "east")
    ∷ History.checks_timer 500000
    ∷ []

run-create-Succeeds_example : History.Succeeds (History.run TrackerTable.create traffic)
run-create-Succeeds_example = run-create-Succeeds traffic

-- A table with two regions that provide one service.
abbrev one : TrackerTable
one = (Regions.merge TrackerTable.create (area "east") (echo "a" ∷ []) (cargo ∷ [])).0

abbrev two : TrackerTable
two = (Regions.merge one (area "west") (echo "b" ∷ []) []).0

two-IsValid : IsValid two
two-IsValid =
    merge-IsValid one (area "west") (echo "b" ∷ []) []
      (merge-IsValid TrackerTable.create (area "east") (echo "a" ∷ []) (cargo ∷ []) create-IsValid)

east_found : Indexed.find str_dec "east" two.regions ≡ some 0
unfolding TrackerTable.create Regions.merge Regions.put_services Regions.put_payloads
    Services.put_service Services.link_service Services.update_service Services.find_region_service
    Payloads.put_payload Indexed.find Indexed.append Indexed.empty NodeList.empty NodeList.push_back
    NodeList.write Map.find Map.insert Map.assign str_dec ℕ_discrete
east_found = refl

two_providers : Map.find str_dec "echo" two.services_index ≡ some (0 ∷ 1 ∷ [])
unfolding TrackerTable.create Regions.merge Regions.put_services Regions.put_payloads
    Services.put_service Services.link_service Services.update_service Services.find_region_service
    Payloads.put_payload Indexed.find Indexed.append Indexed.empty NodeList.empty NodeList.push_back
    NodeList.write Map.find Map.insert Map.assign str_dec ℕ_discrete
two_providers = refl

do_rm_region-Removed_example :
    (u : TrackerTable) × (Regions.do_rm_region two "east" ≡ some u) × Removed "east" 0 two u
do_rm_region-Removed_example = do_rm_region-Removed two "east" 0 east_found two-IsValid

abbrev ids : List ℕ
ids = 0 ∷ 1 ∷ []

route_times_lem_example :
    ((route_times (length ids) two "echo").1 ≡ map (provider two) ids)
    × (Map.find str_dec "echo" (route_times (length ids) two "echo").0.services_index ≡ some ids)
route_times_lem_example = route_times_lem two "echo" ids two_providers

route_payload_lem_example :
    ((Indexed.find str_dec "cargo" two.payloads ≡ none) × (route_payload two "cargo" ≡ some none))
    ⊎ ((it p : ℕ) × (Indexed.find str_dec "cargo" two.payloads ≡ some it)
        × ((Indexed.get it two.payloads).region ≡ some p)
        × (mem p two.regions.list.order ≡ true)
        × (route_payload two "cargo" ≡ some (some (Indexed.get p two.regions).bus)))
route_payload_lem_example = route_payload_lem two "cargo" two-IsValid

one-IsValid : IsValid one
one-IsValid =
    merge-IsValid TrackerTable.create (area "east") (echo "a" ∷ []) (cargo ∷ []) create-IsValid

cargo_bus : route_payload one "cargo" ≡ some (some (area "east").bus)
unfolding TrackerTable.create Regions.merge Regions.put_services Regions.put_payloads
    Services.put_service Services.link_service Services.update_service Services.find_region_service
    Payloads.put_payload Indexed.find Indexed.append Indexed.empty NodeList.empty NodeList.push_back
    NodeList.write Map.find Map.insert Map.assign str_dec ℕ_discrete route_payload
    TrackerTable.deref
cargo_bus = refl

no_bus : (p : String) → "cargo" ≢ p → route_payload one p ≡ some none
unfolding TrackerTable.create Regions.merge Regions.put_services Regions.put_payloads
    Services.put_service Services.link_service Services.update_service Services.find_region_service
    Payloads.put_payload Indexed.find Indexed.append Indexed.empty NodeList.empty NodeList.push_back
    NodeList.write Map.find Map.insert Map.assign ℕ_discrete route_payload TrackerTable.deref
no_bus p n = ground arith

one-IsAddressed : IsAddressed one
unfolding is_empty
one-IsAddressed p ep e = elim (str_dec "cargo" p) [
  | yes f ↦
      subst (λ (x : EndPoint). is_empty x.address ≡ false)
        (some-injective _ _ (some-injective _ _ (sym cargo_bus ∙ ap (route_payload one) f ∙ e)))
        refl
  | no n ↦ absurd (none-ne-some _ (some-injective _ _ (sym (no_bus p n) ∙ e)))
]

-- Updates around a snapshot of version 3.
abbrev cacher : List PubData → RegionSubCacher
cacher ds = record { region_id = "east"; updates = PubData.from_region (area "east") ∷ ds }

abbrev later : List PubData
later = PubData.from_service 4 (echo "a") ∷ PubData.from_payload 5 cargo ∷ []

present-ok_iff_example :
    (RegionSubCacher.present (cacher later) 3
      ≡ some (
        record (cacher later) { updates = [] },
        ok,
        on_service "east" 4 (echo "a") ∷ on_payload "east" 5 cargo ∷ [],
      ))
    ↔ ((old : List PubData) × (ds : List PubData) × (d : PubData) × StartsAt 3
          (cacher later).updates
          old
          ds
          d
        × IsConsecutive (u32 (3 + 1)) ds
        × (collect (λ d. PubData.present d "east") ds
            ≡ some (on_service "east" 4 (echo "a") ∷ on_payload "east" 5 cargo ∷ [])))
present-ok_iff_example =
    present-ok_iff (cacher later) 3
      (on_service "east" 4 (echo "a") ∷ on_payload "east" 5 cargo ∷ [])

-- The service is published again under the version that it had.
abbrev again : PubData
again = PubData.from_service 3 (echo "a")

abbrev repeated : RegionSubCacher
repeated = cacher (again ∷ later)

small : 3 < 2 ^ 32
small = ground arith

first_is : StartsAt 3 repeated.updates [] (again ∷ later) (PubData.from_region (area "east"))
unfolding PubData.from_region
first_is = (refl, refl, tt)

again_version : again.version ≡ 3
unfolding PubData.from_service
again_version = refl

present_repeated_example :
    RegionSubCacher.present repeated 3 ≡ some (record repeated { updates = [] }, failed, [])
present_repeated_example =
    present_repeated repeated 3 [] later (PubData.from_region (area "east")) again small first_is
      again_version

abbrev session : TrackerSession
session = record { has_req = true }

routes_found_example :
    (TrackerSession.get_payloads_route_info session ("cargo" ∷ "mail" ∷ []) (answered one)
      ≡ map (route_of one) ("cargo" ∷ "mail" ∷ []))
    × ((p : String)
        → TrackerSession.get_payload_route_info session p (answered one) ≡ some (route_of one p))
routes_found_example =
    routes_found one session ("cargo" ∷ "mail" ∷ []) one-IsValid one-IsAddressed refl

abbrev envelope : String
envelope = "me"

abbrev content : String
content = "hello"

abbrev header : Header
header = record { msg_id = 4; failure = true; payloads = "cargo" ∷ "mail" ∷ [] }

has_id : header.msg_id ≢ 0
has_id e = omega (arith, e)

has_payloads : length header.payloads ≢ 0
has_payloads e = omega (arith, e)

message_routed_example :
    let routes = map (route_of one) header.payloads in
    let m = (merge_routes [] [] routes).0 in
    (do_work
        (λ ps. TrackerSession.get_payloads_route_info session ps (answered one))
        (some envelope)
        (some header)
        (some content)
      ≡ report envelope header (unrouted routes)
        ++ map (λ g. deliver g.0.identity envelope content) m)
    × Distinct ep_dec m
    × AllTargeted m
    × ((ep : EndPoint) → grouped (Map.find ep_dec ep m) ≡ targets_at ep routes)
message_routed_example =
    message_routed one session envelope header content one-IsValid one-IsAddressed refl has_id
      has_payloads
