-- ===== src/RegionActor.antt =====
-- The requests that `RIRegionActor` handles: src/region/regionactor.cxx, with the messages of
-- proto/regionapi.proto. The service that a request names reads the clock as it is made. The actor's
-- thread and its poller are outside.
use ris.Base.{ℕ, String, Bool, List, [], ◌∷◌, if◌then◌else◌, is_empty, concat}
use ris.Observer.{Event, Status}
use ris.RiTypes.Messages.{ServiceMsg, PayloadMsg}
use ris.RiTypes.Service
use ris.RiTypes.Service.{Service}
use ris.RiTypes.Payload
use ris.RegionTable
use ris.RegionTable.{RegionTable}

-- The Boolean asks for a result.
pub data Request : Type 0 where
  hand_shake : Request
  add_service : ServiceMsg → Bool → Request
  rm_service : String → Bool → Request
  add_payload : PayloadMsg → Bool → Request
  rm_payload : String → Bool → Request

pub data Response : Type 0 where
  shaken : ℕ → Response
  result : Status → ℕ → Response

-- The table, the calls of its observer, and the response.
abbrev pub Handled : Type 0
Handled = RegionTable × List Event × List Response

-- `if( p->rep() )`, with the version after the operation.
unfoldable pub answer : Bool → RegionTable.Outcome → Handled
answer rep (t, err, es) = (t, es, if rep then result err t.region.version ∷ [] else [])

-- The identity of an end point that has none.
unfoldable pub identified : String → Service → Service
identified uuid svc =
    if is_empty svc.endpoint.identity
    then record svc {
      endpoint = record svc.endpoint { identity = concat uuid (concat "-" svc.name) };
    }
    else svc

-- The handlers: the clock, the `uuid` of the configuration, the table and the request.
unfoldable pub handle : ℕ → String → RegionTable → Request → Handled
unfolding answer identified
handle now uuid t hand_shake = (t, [], shaken t.region.version ∷ [])
handle now uuid t (add_service svc rep) =
    answer rep (RegionTable.add_service t (identified uuid (Service.of_protobuf now svc)))
handle now uuid t (rm_service name rep) = answer rep (RegionTable.rm_service t name)
handle now uuid t (add_payload pl rep) =
    answer rep (RegionTable.add_payload t (Payload.of_protobuf now pl))
handle now uuid t (rm_payload uuid' rep) = answer rep (RegionTable.rm_payload t uuid')
