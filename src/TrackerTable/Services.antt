-- ===== src/TrackerTable/Services.antt =====
-- The services of the tracker's table: src/tracker/trackertable.cxx, `findRegionService`,
-- `doRmService`, and the insertion that `onService` and `merge` share.
use ris.Base.{◌>>=◌, ℕ, String, ite, Option, none, some, List, [], ◌∷◌, ◌++◌, str_dec, ℕ_discrete}
use ris.RiTypes.Service.{Service}
use ris.Containers.Map
use ris.Containers.NodeList
use ris.Containers.NodeList.{unlink}
use ris.Containers.Indexed
use ris.TrackerTable.{TrackerTable}

-- The entry of a region among the nodes of one name. A node whose region is null is unlinked from
-- the list on the way; the first component is the list that is left.
unfoldable pub find_region_service : TrackerTable → List ℕ → String → List ℕ × Option ℕ
find_region_service t [] region = ([], none)
find_region_service t (it ∷ l) region =
    let rest = find_region_service t l region in
    elim (t.services.cell it).region [
      | none ↦ rest
      | some p ↦
          ite (str_dec (Indexed.get p t.regions).id region) (it ∷ l, some it) (it ∷ rest.0, rest.1)
    ]

-- A new node for the service, under `l`, the nodes of its name.
unfoldable pub link_service : TrackerTable → ℕ → Service → List ℕ → TrackerTable
link_service t regit svc l = record t {
  services = NodeList.push_back (record { region = some regit; service = svc }) t.services;
  services_index = Map.assign str_dec svc.name (l ++ t.services.next ∷ []) t.services_index;
}

-- `(*lit)->service = svc`, and the node goes to the back.
unfoldable pub update_service : TrackerTable → Service → List ℕ → ℕ → TrackerTable
update_service t svc l it = record t {
  services =
      NodeList.to_back it (
        NodeList.set it (record { region = (t.services.cell it).region; service = svc })
          t.services);
  services_index = Map.assign str_dec svc.name l t.services_index;
}

-- The insertion of a service of the region at `regit`, whose id is `reg`.
unfoldable pub put_service : TrackerTable → ℕ → String → Service → TrackerTable
unfolding link_service update_service
put_service t regit reg svc = elim (Map.find str_dec svc.name t.services_index) [
  | none ↦ link_service t regit svc []
  | some l ↦
      let found = find_region_service t l reg in
      elim found.1 [
        | some it ↦ update_service t svc found.0 it
        | none ↦ link_service t regit svc found.0
      ]
]

-- The index after the entry of a name has become `l`.
unfoldable pub reindex : String → List ℕ → List (String × List ℕ) → List (String × List ℕ)
reindex svc [] index = Map.erase str_dec svc index
reindex svc (it ∷ l) index = Map.assign str_dec svc (it ∷ l) index

-- The node leaves the entry of its name and the list; an entry that becomes empty goes too.
unfoldable pub unlink_service : TrackerTable → String → List ℕ → ℕ → TrackerTable
unfolding reindex
unlink_service t svc l it = record t {
  services = NodeList.erase it t.services;
  services_index = reindex svc (unlink it l) t.services_index;
}

unfoldable pub do_rm_service : TrackerTable → String → String → TrackerTable
unfolding unlink_service
do_rm_service t region svc = elim (Map.find str_dec svc t.services_index) [
  | none ↦ t
  | some l ↦
      let found = find_region_service t l region in
      elim found.1 [
        | some it ↦ unlink_service t svc found.0 it
        | none ↦ record t { services_index = Map.assign str_dec svc found.0 t.services_index }
      ]
]

-- The body of the loop of `doRmRegion` over the services: a node of the region at `regptr` goes.
-- `none` is the failed `CHECK` that the name of the service is in the index.
unfoldable pub rm_service_of : ℕ → ℕ → TrackerTable → Option TrackerTable
unfolding unlink_service
rm_service_of regptr it t = elim (t.services.cell it).region [
  | none ↦ some t
  | some p ↦
      ite (ℕ_discrete p regptr)
        (elim (Map.find str_dec (t.services.cell it).service.name t.services_index) [
          | none ↦ none
          | some l ↦ some (unlink_service t (t.services.cell it).service.name l it)
        ])
        (some t)
]

unfoldable pub rm_services_of : ℕ → List ℕ → TrackerTable → Option TrackerTable
rm_services_of regptr [] t = some t
rm_services_of regptr (it ∷ its) t = do t' ← rm_service_of regptr it t; rm_services_of regptr its t'
