-- ===== src/TrackerTable/Regions.antt =====
-- The regions of the tracker's table: src/tracker/trackertable.cxx, `merge`, `doRmRegion` and
-- `updateRegionVersion`.
use ris.Base.{ℕ, String, Option, none, some, List, [], ◌∷◌, ◌>>=◌, str_dec}
use ris.Observer.{Status, ok, failed}
use ris.RiTypes.Region.{Region}
use ris.RiTypes.Service.{Service}
use ris.RiTypes.Payload.{Payload}
use ris.Containers.Indexed
use ris.TrackerTable.{TrackerTable}
use ris.TrackerTable.Services.{put_service, rm_services_of}
use ris.TrackerTable.Payloads.{put_payload, rm_payloads_of}

-- `updateRegionVersion(const ri_uuid_t&, uint32_t)`
unfoldable pub update_region_version : TrackerTable → String → ℕ → TrackerTable
update_region_version t region version = elim (Indexed.find str_dec region t.regions) [
  | none ↦ t
  | some it ↦ record t {
    regions = Indexed.set it (record (Indexed.get it t.regions) { version = version }) t.regions;
  }
]

-- The node of the region goes, then its services, then its payloads. `none` is a failed `CHECK`.
unfoldable pub do_rm_region : TrackerTable → String → Option TrackerTable
do_rm_region t region = elim (Indexed.find str_dec region t.regions) [
  | none ↦ none
  | some it ↦ do
    let t1 : TrackerTable = record t { regions = Indexed.remove str_dec region it t.regions }
    t2 ← rm_services_of it t1.services.order t1
    rm_payloads_of it t2.payloads.list.order t2
]

-- The loops of `merge`, for the region at `regit`.
unfoldable pub put_services : TrackerTable → ℕ → String → List Service → TrackerTable
put_services t regit reg [] = t
put_services t regit reg (svc ∷ svcs) = put_services (put_service t regit reg svc) regit reg svcs

unfoldable pub put_payloads : TrackerTable → ℕ → List Payload → TrackerTable
put_payloads t regit [] = t
put_payloads t regit (pl ∷ pls) = put_payloads (put_payload t regit pl) regit pls

-- `services` and `payloads` are the lists that the reader returns.
unfoldable pub merge : TrackerTable → Region → List Service → List Payload → TrackerTable × Status
unfolding put_services put_payloads
merge t region services payloads = elim (Indexed.find str_dec region.id t.regions) [
  | some it ↦ (t, failed)
  | none ↦
      let regit = t.regions.list.next in
      let t1 : TrackerTable = record t {
        regions = Indexed.append str_dec region.id region t.regions;
      } in
      (put_payloads (put_services t1 regit region.id services) regit payloads, ok)
]
