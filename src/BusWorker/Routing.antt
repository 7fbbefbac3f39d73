-- ===== src/BusWorker/Routing.antt =====
-- A message of the bus whose routes come from a tracker: src/busbroker/busworker.cxx, with src/
-- trackercli/trackersession.cxx and src/tracker/trackeractor.cxx.
use ris.Base.{◌≡◌, ◌≢◌, subst, String, true, some, List, [], ◌++◌, map, length}
use ris.RiTypes.EndPoint.{EndPoint, ep_dec}
use ris.Containers.Map
use ris.Containers.Map.Entries.{Distinct}
use ris.TrackerTable.{TrackerTable}
use ris.TrackerTable.Invariant
use ris.TrackerSession
use ris.TrackerSession.{TrackerSession, RouteInfo}
use ris.TrackerSession.Routes.{answered, route_of, IsAddressed, routes_found}
use ris.BusWorker.{Header, do_work, deliver, merge_routes}
use ris.BusWorker.Grouping.{targets_at, unrouted, grouped, report, AllTargeted, do_work-groups}

-- A worker whose session is connected to a tracker handles a message with an id and payloads. It
-- sends the message once for each entry of its map of routes, to the identity of the entry's end
-- point. In that map no end point stands twice, no entry is empty, and the entry of an end point
-- holds the payloads that the tracker's table routes to it, in their order; it is not sent itself.
-- The payloads that the table does not route are reported to the sender in one message, if it asks
-- for failures. The tracker's table is valid, and the buses of its regions with payloads have
-- addresses.
pub message_routed :
    {E D : Type 0} (t : TrackerTable) (s : TrackerSession) (envelope : E) (header : Header)
    (content : D)
    → Invariant.IsValid t
    → IsAddressed t
    → s.has_req ≡ true
    → header.msg_id ≢ 0
    → length header.payloads ≢ 0
    → let routes = map (route_of t) header.payloads in
      let m = (merge_routes [] [] routes).0 in
      (do_work
          (λ ps. TrackerSession.get_payloads_route_info s ps (answered t))
          (some envelope)
          (some header)
          (some content)
        ≡ report envelope header (unrouted routes)
          ++ map (λ g. deliver g.0.identity envelope content) m)
      × Distinct ep_dec m
      × AllTargeted m
      × ((ep : EndPoint) → grouped (Map.find ep_dec ep m) ≡ targets_at ep routes)
message_routed t s envelope header content v a c z n =
    let ask : List String → List RouteInfo =
      λ ps. TrackerSession.get_payloads_route_info s ps (answered t) in
    subst
      (λ (routes : List RouteInfo).
        let m = (merge_routes [] [] routes).0 in
        (do_work ask (some envelope) (some header) (some content)
          ≡ report envelope header (unrouted routes)
            ++ map (λ g. deliver g.0.identity envelope content) m)
        × Distinct ep_dec m
        × AllTargeted m
        × ((ep : EndPoint) → grouped (Map.find ep_dec ep m) ≡ targets_at ep routes))
      (routes_found t s header.payloads v a c).0 (do_work-groups ask envelope header content z n)
