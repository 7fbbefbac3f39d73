-- ===== src/TrackerTable.antt =====
-- `RITrackerTable`: include/tracker/trackertable.h and src/tracker/trackertable.cxx. The state and
-- the operations that the children share. A `Region` object is known by its address: `merge` makes
-- one and links it into the list of regions at once, so the address is that of its node, and the
-- memory of the node outlives its removal. A `shared_ptr` is an `Option` of such an address.
pub mod Services
pub mod Payloads
pub mod Regions
pub mod Handlers
pub mod Reads
pub mod Timer
pub mod RoundRobin
pub mod Invariant
use ris.Base.{ℕ, String, Bool, Option, none, some, List, [], ◌∷◌}
use ris.RiTypes.Region
use ris.RiTypes.Region.{Region}
use ris.RiTypes.Service
use ris.RiTypes.Service.{Service}
use ris.RiTypes.Payload
use ris.RiTypes.Payload.{Payload}
use ris.Containers.NodeList
use ris.Containers.NodeList.{NodeList}
use ris.Containers.Indexed
use ris.Containers.Indexed.{Indexed}

pub record RegionService : Type 0 where
  pub region : Option ℕ
  pub service : Service

pub record RegionPayload : Type 0 where
  pub region : Option ℕ
  pub payload : Payload

-- `has_next` says whether there is a next handler. The index of the services maps a name to the
-- list of the nodes that provide it.
pub record TrackerTable : Type 0 where
  pub has_next : Bool
  pub regions : Indexed String Region
  pub services : NodeList RegionService
  pub services_index : List (String × List ℕ)
  pub payloads : Indexed String RegionPayload

unfoldable pub create : TrackerTable
create = record {
  has_next = Bool.false;
  regions = Indexed.empty Region.default;
  services = NodeList.empty (record { region = none; service = Service.default });
  services_index = [];
  payloads = Indexed.empty (record { region = none; payload = Payload.default });
}

-- `ptr->…` of a `shared_ptr<Region>`; `none` is the fault on a null pointer.
unfoldable pub deref : TrackerTable → Option ℕ → Option Region
deref t none = none
deref t (some p) = some (Indexed.get p t.regions)
