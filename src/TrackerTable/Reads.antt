-- ===== src/TrackerTable/Reads.antt =====
-- The access methods and the snapshot of the tracker's table: src/tracker/trackertable.cxx.
use ris.Base.{
  ℕ, String, Option, none, some, List, [], ◌∷◌, ◌++◌, map, ◌>>=◌, str_dec, length, collect,
}
use ris.RiTypes.EndPoint.{EndPoint}
use ris.RiTypes.Region
use ris.RiTypes.Region.{Region}
use ris.RiTypes.Service
use ris.RiTypes.Service.{Service}
use ris.RiTypes.Payload
use ris.RiTypes.Payload.{Payload}
use ris.RiTypes.Messages.{SnapshotItem, snapshot_begin, snapshot_end}
use ris.Containers.Map
use ris.Containers.NodeList
use ris.Containers.Indexed
use ris.TrackerTable.{TrackerTable, RegionService, RegionPayload, deref}

unfoldable pub region_size : TrackerTable → ℕ
region_size t = length t.regions.list.order

unfoldable pub service_size : TrackerTable → ℕ
service_size t = length t.services.order

unfoldable pub payload_size : TrackerTable → ℕ
payload_size t = length t.payloads.list.order

unfoldable pub regions : TrackerTable → List Region
regions t = Indexed.contents t.regions

unfoldable pub services : TrackerTable → List String
services t = map (λ e. e.0) t.services_index

unfoldable pub get_region : TrackerTable → String → Option Region
get_region t id = elim (Indexed.find str_dec id t.regions) [
  | none ↦ none
  | some it ↦ some (Indexed.get it t.regions)
]

-- The bus of the region that carries the payload, if there is one. The outer `none` is a fault.
unfoldable pub route_payload : TrackerTable → String → Option (Option EndPoint)
unfolding deref
route_payload t id = elim (Indexed.find str_dec id t.payloads) [
  | none ↦ some none
  | some it ↦ do region ← deref t (Indexed.get it t.payloads).region; some (some region.bus)
]

unfoldable pub rotate : List ℕ → List ℕ
rotate [] = []
rotate (it ∷ l) = l ++ it ∷ []

unfoldable pub front : TrackerTable → List ℕ → Option EndPoint
front t [] = none
front t (it ∷ l) = some (t.services.cell it).service.endpoint

-- Round robin: the first provider of the name, which then goes last.
unfoldable pub robin_route_service : TrackerTable → String → TrackerTable × Option EndPoint
unfolding rotate front
robin_route_service t svc = elim (Map.find str_dec svc t.services_index) [
  | none ↦ (t, none)
  | some l ↦
      (record t { services_index = Map.assign str_dec svc (rotate l) t.services_index }, front t l)
]

-- `m[k].push_back(v)`
abbrev pub push_at : {V : Type 0} → String → V → List (String × List V) → List (String × List V)
push_at k v m =
    Map.assign str_dec k (elim (Map.find str_dec k m) [ none ↦ [] | some l ↦ l ] ++ v ∷ []) m

group_services :
    TrackerTable
    → List RegionService
    → List (String × List Service)
    → Option (List (String × List Service))
unfolding deref
group_services t [] m = some m
group_services t (rs ∷ rest) m = do
  region ← deref t rs.region
  group_services t rest (push_at region.id rs.service m)

group_payloads :
    TrackerTable
    → List RegionPayload
    → List (String × List Payload)
    → Option (List (String × List Payload))
unfolding deref
group_payloads t [] m = some m
group_payloads t (rp ∷ rest) m = do
  region ← deref t rp.region
  group_payloads t rest (push_at region.id rp.payload m)

abbrev pub entry : {V : Type 0} → String → List (String × List V) → List V
entry k m = elim (Map.find str_dec k m) [ none ↦ [] | some l ↦ l ]

region_items :
    List (String × List Service)
    → List (String × List Payload)
    → Region
    → Option (List SnapshotItem)
region_items svcs pls r = do
  begin ← Region.to_snapshot_begin r
  ss ← collect Service.to_snapshot (entry r.id svcs)
  ps ← collect Payload.to_snapshot (entry r.id pls)
  some (begin ∷ (ss ++ (ps ++ (Region.to_snapshot_end r ∷ []))))

concat : List (List SnapshotItem) → List SnapshotItem
concat [] = []
concat (xs ∷ xss) = xs ++ concat xss

-- The package, or an abort where a `CHECK` of a conversion fails or a null pointer is read.
unfoldable pub build_snapshot : TrackerTable → Option (List SnapshotItem)
unfolding group_services group_payloads region_items concat
build_snapshot t = do
  svcs ← group_services t (NodeList.values t.services) []
  pls ← group_payloads t (Indexed.contents t.payloads) []
  parts ← collect (region_items svcs pls) (Indexed.contents t.regions)
  some (snapshot_begin ∷ (concat parts ++ (snapshot_end ∷ [])))
