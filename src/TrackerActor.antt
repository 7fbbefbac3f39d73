-- ===== src/TrackerActor.antt =====
-- The requests that `RITrackerActor` handles: src/tracker/trackeractor.cxx, with the messages of
-- proto/trackerapi.proto. A handler that aborts on a failed `CHECK`, or reads a null pointer, is
-- `none`. The actor's thread and its poller are outside.
use ris.Base.{ℕ, String, Option, none, some, List, ◌>>=◌, collect}
use ris.Words.{u32}
use ris.RiTypes.EndPoint
use ris.RiTypes.EndPoint.{EndPoint}
use ris.RiTypes.Region
use ris.RiTypes.Messages.{EndPointMsg, RegionMsg}
use ris.TrackerTable.{TrackerTable}
use ris.TrackerTable.Reads.{
  regions, services, payload_size, get_region, route_payload, robin_route_service,
}

-- `tracker::api::RouteInfo`; the end point may be absent.
pub record RouteMsg : Type 0 where
  pub target : String
  pub endpoint : Option EndPointMsg

pub data Request : Type 0 where
  hand_shake : Request
  statistics_req : Request
  region_req : String → Request
  service_route_req : String → Request
  payload_route_req : String → Request
  payloads_route_req : List String → Request

-- A field that may be absent is an option.
pub data Response : Type 0 where
  shaken : Response
  statistics_rep : List RegionMsg → List String → ℕ → Response
  region_rep : Option RegionMsg → Response
  service_route_rep : Option RouteMsg → Response
  payload_route_rep : Option RouteMsg → Response
  payloads_route_rep : List RouteMsg → Response

-- `result.second.toProtobuf(ri->mutable_endpoint())`, if `result.first`.
unfoldable pub route_to : String → Option EndPoint → Option RouteMsg
route_to target none = some (record { target = target; endpoint = none })
route_to target (some ep) = do
  m ← EndPoint.to_protobuf ep
  some (record { target = target; endpoint = some m })

-- The route of one payload.
unfoldable pub payload_route : TrackerTable → String → Option RouteMsg
unfolding route_to
payload_route t p = do ep ← route_payload t p; route_to p ep

unfoldable pub region_answer : TrackerTable → String → Option Response
region_answer t id = elim (get_region t id) [
  | none ↦ some (region_rep none)
  | some r ↦ do m ← Region.to_protobuf r; some (region_rep (some m))
]

unfoldable pub handle : TrackerTable → Request → Option (TrackerTable × Response)
unfolding route_to payload_route region_answer
handle t hand_shake = some (t, shaken)
handle t statistics_req = do
  rs ← collect Region.to_protobuf (regions t)
  some (t, statistics_rep rs (services t) (u32 (payload_size t)))
handle t (region_req id) = do rep ← region_answer t id; some (t, rep)
handle t (service_route_req svc) = do
  let r = robin_route_service t svc
  m ← route_to svc r.1
  some (r.0, service_route_rep (some m))
handle t (payload_route_req p) = do m ← payload_route t p; some (t, payload_route_rep (some m))
handle t (payloads_route_req ps) = do
  ms ← collect (payload_route t) ps
  some (t, payloads_route_rep ms)
