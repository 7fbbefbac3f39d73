-- ===== src/TrackerSession.antt =====
-- `TrackerSession`: include/trackercli/trackersession.h and src/trackercli/trackersession.cxx. The
-- responses that the socket receives before the time-out are a parameter. The null pointer is
-- `none`.
pub mod Routes
use ris.Base.{
  ℕ, String, Bool, true, false, Option, none, some, List, [], ◌∷◌, map, if◌then◌else◌, ◌&&◌, ite,
  str_dec, not,
}
use ris.Observer.{Status, ok, failed}
use ris.RiTypes.EndPoint
use ris.RiTypes.EndPoint.{EndPoint}
use ris.RiTypes.Region
use ris.RiTypes.Region.{Region}
use ris.RiTypes.Messages.{EndPointMsg}
use ris.TrackerActor.{
  RouteMsg, Request, hand_shake, statistics_req, region_req, service_route_req, payload_route_req,
  payloads_route_req, Response, shaken, statistics_rep, region_rep, service_route_rep,
  payload_route_rep, payloads_route_rep,
}

-- `RouteInfo`
pub record RouteInfo : Type 0 where
  pub target : String
  pub endpoint : EndPoint

-- `RouteInfoStatistics`
pub record RouteInfoStatistics : Type 0 where
  pub regions : List Region
  pub services : List String
  pub payload_size : ℕ

pub record TrackerSession : Type 0 where
  pub has_req : Bool

-- The response to a request, if the socket takes the request and receives a response in time.
abbrev pub Link : Type 0
Link = Request → Option Response

unfoldable pub create : TrackerSession
create = record { has_req = false }

unfoldable pub disconnect : TrackerSession → TrackerSession
disconnect s = record { has_req = false }

-- The reception of a `HandShake`.
unfoldable pub is_shaken : Option Response → Bool
is_shaken (some shaken) = true
is_shaken r = false

unfoldable pub connect : TrackerSession → Bool → Link → TrackerSession × Status
unfolding is_shaken
connect s connects link =
    if s.has_req
    then (s, failed)
    else if connects && is_shaken (link hand_shake)
    then (record { has_req = true }, ok)
    else (record { has_req = false }, failed)

-- A request and its response, if the socket is there.
unfoldable pub response : TrackerSession → Link → Request → Option Response
response s link q = if s.has_req then link q else none

unfoldable pub take_statistics : ℕ → Option Response → Option RouteInfoStatistics
take_statistics now (some (statistics_rep rs svcs n)) =
    some (record { regions = map (Region.of_protobuf now) rs; services = svcs; payload_size = n })
take_statistics now r = none

unfoldable pub get_statistics : ℕ → TrackerSession → Link → Option RouteInfoStatistics
unfolding response take_statistics
get_statistics now s link = take_statistics now (response s link statistics_req)

unfoldable pub take_region : ℕ → Option Response → Option Region
take_region now (some (region_rep (some r))) = some (Region.of_protobuf now r)
take_region now r = none

unfoldable pub get_region : ℕ → TrackerSession → String → Link → Option Region
unfolding response take_region
get_region now s id link = take_region now (response s link (region_req id))

-- The end point of a route; the fields of one that is absent read as empty.
unfoldable pub endpoint_of : Option EndPointMsg → EndPoint
endpoint_of none = EndPoint.default
endpoint_of (some m) = EndPoint.of_protobuf m

unfoldable pub route_info : RouteMsg → RouteInfo
unfolding endpoint_of
route_info m = record { target = m.target; endpoint = endpoint_of m.endpoint }

-- The route, if it is for the target that was asked for.
unfoldable pub route_for : String → RouteMsg → Option RouteInfo
unfolding route_info
route_for target m = ite (str_dec target m.target) (some (route_info m)) none

unfoldable pub take_service_route : String → Option Response → Option RouteInfo
unfolding route_for
take_service_route svc (some (service_route_rep (some m))) = route_for svc m
take_service_route svc r = none

unfoldable pub get_service_route_info : TrackerSession → String → Link → Option RouteInfo
unfolding response take_service_route
get_service_route_info s svc link = take_service_route svc (response s link (service_route_req svc))

unfoldable pub take_payload_route : String → Option Response → Option RouteInfo
unfolding route_for
take_payload_route p (some (payload_route_rep (some m))) = route_for p m
take_payload_route p r = none

unfoldable pub get_payload_route_info : TrackerSession → String → Link → Option RouteInfo
unfolding response take_payload_route
get_payload_route_info s p link = take_payload_route p (response s link (payload_route_req p))

unfoldable pub take_payloads_routes : Option Response → List RouteInfo
unfolding route_info
take_payloads_routes (some (payloads_route_rep ms)) = map route_info ms
take_payloads_routes r = []

unfoldable pub get_payloads_route_info : TrackerSession → List String → Link → List RouteInfo
unfolding response take_payloads_routes
get_payloads_route_info s ps link = take_payloads_routes (response s link (payloads_route_req ps))
