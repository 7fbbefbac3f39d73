-- ===== src/RegionSubCacher.antt =====
-- `RegionSubCacher`: include/tracker/regionsubcacher.h and src/tracker/regionsubcacher.cxx. The
-- queue of the updates that one region publishes while its snapshot is under way.
pub mod Continuity
use ris.Base.{
  ℕ, ◌+◌, String, ite, Option, none, some, List, [], ◌∷◌, ◌++◌, ◌>>=◌, if◌then◌else◌, ◌==◌, str_dec,
}
use ris.Words.{u32}
use ris.Observer.{
  Event, on_region, on_rm_region, on_service, on_rm_service, on_payload, on_rm_payload, Status, ok,
  failed,
}
use ris.RiTypes.Region.{Region}
use ris.PubData
use ris.PubData.{PubData}

pub record RegionSubCacher : Type 0 where
  pub region_id : String
  pub updates : List PubData

push : RegionSubCacher → String → PubData → RegionSubCacher
push c reg d = ite (str_dec reg c.region_id) (record c { updates = c.updates ++ d ∷ [] }) c

-- The six handlers of `IRIObserver`.
unfoldable pub handle : RegionSubCacher → Event → RegionSubCacher
unfolding push
handle c (on_region reg) = push c reg.id (PubData.from_region reg)
handle c (on_rm_region reg) = ite (str_dec reg c.region_id) (record c { updates = [] }) c
handle c (on_service reg version svc) = push c reg (PubData.from_service version svc)
handle c (on_rm_service reg version svc) = push c reg (PubData.from_rm_service version svc)
handle c (on_payload reg version pl) = push c reg (PubData.from_payload version pl)
handle c (on_rm_payload reg version pl) = push c reg (PubData.from_rm_payload version pl)

-- `RegionSubCacher::RegionSubCacher(const Region&)`
unfoldable pub create : Region → RegionSubCacher
create region = handle (record { region_id = region.id; updates = [] }) (on_region region)

-- The first loop: what follows the first update of the version, if there is one.
unfoldable pub drop_until : ℕ → List PubData → Option (List PubData)
drop_until version [] = none
drop_until version (d ∷ ds) = if d.version == version then some ds else drop_until version ds

-- The second loop: the calls that the observer gets, and the updates left in the queue.
unfoldable pub present_from : String → ℕ → List PubData → Option (List Event × List PubData)
present_from region expect [] = some ([], [])
present_from region expect (d ∷ ds) =
    let more = (do
      e ← PubData.present d region
      (es, left) ← present_from region (u32 (expect + 1)) ds
      some (e ∷ es, left)) in
    if d.version == expect then more else some ([], d ∷ ds)

unfoldable pub left_over : List PubData → Status
left_over [] = ok
left_over (d ∷ ds) = failed

-- The queue is empty afterwards in every case.
unfoldable pub present : RegionSubCacher → ℕ → Option (RegionSubCacher × Status × List Event)
unfolding left_over
present c version = elim (drop_until version c.updates) [
  | none ↦ some (record c { updates = [] }, failed, [])
  | some ds ↦ do
    (es, left) ← present_from c.region_id (u32 (version + 1)) ds
    some (record c { updates = [] }, left_over left, es)
]
