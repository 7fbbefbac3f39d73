-- ===== src/PubTracker.antt =====
-- `PubTracker`: include/tracker/pubtracker.h and src/tracker/pubtracker.cxx. It hears the calls about
-- regions that the tracker's table does not hold, and makes a factory for each of them. An aborted
-- process is `none`.
pub mod Steps
pub mod Invariant
pub mod Joining
pub mod Course
use ris.Base.{
  ℕ, String, Bool, true, false, Option, none, some, List, [], ◌∷◌, if◌then◌else◌, not, ◌>>=◌, ltb,
  length, str_dec,
}
use ris.Observer.{
  Event, on_region, on_rm_region, on_service, on_rm_service, on_payload, on_rm_payload, Status, ok,
  failed,
}
use ris.Containers.Map
use ris.Containers.Indexed
use ris.RiTypes.Region.{Region}
use ris.RegionProduct.{RegionProduct}
use ris.RegionSubCacher
use ris.RegionSubCacher.{RegionSubCacher}
use ris.RegionFactory
use ris.RegionFactory.{RegionFactory}
use ris.TrackerTable.{TrackerTable}
use ris.TrackerTable.Regions.{merge}

-- The table is a weak pointer to one that the owner of the tracker keeps.
pub record PubTracker : Type 0 where
  pub factories : List (String × RegionFactory)
  pub capacity : ℕ
  pub has_table : Bool

unfoldable pub create : PubTracker
create = record { factories = []; capacity = 4; has_table = false }

unfoldable pub start : PubTracker → ℕ → PubTracker × Status
start t capacity = elim t.factories [
  | [] ↦ (record t { capacity = capacity; has_table = true }, ok)
  | f ∷ fs ↦ (t, failed)
]

unfoldable pub stop : PubTracker → PubTracker
stop t = record t { factories = []; has_table = false }

-- `it->second->observer()->…`: a call of the factory's queue; `none` is a null pointer that is read.
unfoldable pub observe : RegionFactory → Event → Option RegionFactory
observe f e = do c ← f.subcacher; some (record f { subcacher = some (RegionSubCacher.handle c e) })

-- The handlers that pass a call about a known region on.
unfoldable pub forward : PubTracker → String → Event → Option PubTracker
unfolding observe
forward t reg e = elim (Map.find str_dec reg t.factories) [
  | none ↦ some t
  | some it ↦ do
    f ← observe it e
    some (record t { factories = Map.assign str_dec reg f t.factories })
]

-- The factory for a new region, if its client starts.
unfoldable pub open_factory : PubTracker → Region → Bool → PubTracker
open_factory t reg client_starts =
    let (f, status) = RegionFactory.start RegionFactory.create reg client_starts in
    elim status [
      | failed ↦ t
      | ok ↦ record t { factories = Map.insert str_dec reg.id f t.factories }
    ]

unfoldable pub handle_region : PubTracker → Region → Bool → Option PubTracker
unfolding observe open_factory
handle_region t reg client_starts = elim (Map.find str_dec reg.id t.factories) [
  | none ↦
      if ltb (length t.factories) t.capacity
      then some (open_factory t reg client_starts)
      else some t
  | some it ↦ do
    f ← observe it (on_region reg)
    some (record t { factories = Map.assign str_dec reg.id f t.factories })
]

unfoldable pub handle_rm_region : PubTracker → String → PubTracker
handle_rm_region t reg = elim (Map.find str_dec reg t.factories) [
  | none ↦ t
  | some it ↦ record t { factories = Map.erase str_dec reg t.factories }
]

-- The six handlers; a client that a call makes starts or not.
unfoldable pub handle : PubTracker → Event → Bool → Option PubTracker
unfolding forward handle_region handle_rm_region
handle t (on_region reg) client_starts = handle_region t reg client_starts
handle t (on_rm_region reg) client_starts = some (handle_rm_region t reg)
handle t (on_service reg version svc) client_starts = forward t reg (on_service reg version svc)
handle t (on_rm_service reg version svc) client_starts =
    forward t reg (on_rm_service reg version svc)
handle t (on_payload reg version pl) client_starts = forward t reg (on_payload reg version pl)
handle t (on_rm_payload reg version pl) client_starts = forward t reg (on_rm_payload reg version pl)

-- `table->merge(product)`, with what the product reads as its region, services and payloads.
unfoldable pub merge_product : TrackerTable → RegionProduct → TrackerTable
merge_product table p =
    (merge table p.region (Indexed.contents p.services) (Indexed.contents p.payloads)).0

-- `none` is the failed `CHECK`.
unfoldable pub on_factory_completed :
    PubTracker → TrackerTable → String → Option RegionProduct → Option (PubTracker × TrackerTable)
unfolding merge_product
on_factory_completed t table reg product = elim (Map.find str_dec reg t.factories) [
  | none ↦ none
  | some it ↦
      let table' : TrackerTable = elim product [
        | none ↦ table
        | some p ↦ if t.has_table then merge_product table p else table
      ] in
      some (record t { factories = Map.erase str_dec reg t.factories }, table')
]
