-- ===== src/TrackerSession/Routes.antt =====
-- The calls of a session against the actor of a tracker: src/trackercli/trackersession.cxx, src/
-- tracker/trackeractor.cxx and src/tracker/trackertable.cxx.
use ris.Base.{
  ◌≡◌, refl, sym, ap, String, true, false, Option, none, some, List, [], ◌∷◌, map, ◌>>=◌, is_empty,
  not, if◌then◌else◌, collect, str_dec, inl, inr, if_pos,
}
use ris.Containers.Indexed
use ris.RiTypes.EndPoint
use ris.RiTypes.EndPoint.{EndPoint}
use ris.RiTypes.RoundTrip.{endpoint_round_trip}
use ris.RiTypes.Messages.{EndPointMsg}
use ris.TrackerTable.{TrackerTable}
use ris.TrackerTable.Reads.{route_payload}
use ris.TrackerTable.Invariant
use ris.TrackerTable.Invariant.Routing.{route_payload_lem}
use ris.TrackerActor
use ris.TrackerActor.{Request, Response, RouteMsg, payload_route_req, payloads_route_req}
use ris.TrackerSession
use ris.TrackerSession.{TrackerSession, Link, RouteInfo}

-- The actor answers from a table, over a link that loses nothing.
unfoldable pub answered : TrackerTable → Link
answered t q = do r ← TrackerActor.handle t q; some r.1

-- Where the table routes a payload: the bus of its region, or the end point with no address.
unfoldable pub routed : Option (Option EndPoint) → EndPoint
routed (some (some ep)) = ep
routed (some none) = EndPoint.default
routed none = EndPoint.default

unfoldable pub route_of : TrackerTable → String → RouteInfo
route_of t p = record { target = p; endpoint = routed (route_payload t p) }

-- The buses of the regions that carry payloads have addresses.
abbrev pub IsAddressed : TrackerTable → Type 0
IsAddressed t =
    (p : String) (ep : EndPoint) → route_payload t p ≡ some (some ep) → is_empty ep.address ≡ false

encoded :
    (ep : EndPoint)
    → is_empty ep.address ≡ false
    → (m : EndPointMsg) × (EndPoint.to_protobuf ep ≡ some m)
unfolding EndPoint.to_protobuf
encoded ep e = (
  record {
    address = ep.address;
    identity = if not (is_empty ep.identity) then ep.identity else "";
  },
  rw e refl,
)

payload_route_lem :
    (t : TrackerTable) (p : String)
    → Invariant.IsValid t
    → IsAddressed t
    → (m : RouteMsg) × (TrackerActor.payload_route t p ≡ some m)
      × (TrackerSession.route_info m ≡ route_of t p)
      × (m.target ≡ p)
unfolding TrackerActor.payload_route TrackerActor.route_to TrackerSession.route_info
    TrackerSession.endpoint_of route_of routed
payload_route_lem t p v a = elim (route_payload_lem t p v) [
  | inl (e, f) ↦ (record { target = p; endpoint = none }, rw f refl, rw f refl, refl)
  | inr (it, q, e, r, m, f) ↦
      let bus = (Indexed.get q t.regions).bus in
      let (b, g) = encoded bus (a p bus f) in
      (
        record { target = p; endpoint = some b },
        rw (f, g) refl,
        rw f (
            ap (λ (ep : EndPoint). record { target = p; endpoint = ep })
              (endpoint_round_trip bus b g)),
        refl,
      )
]

collected :
    (t : TrackerTable) (ps : List String)
    → Invariant.IsValid t
    → IsAddressed t
    → (ms : List RouteMsg) × (collect (TrackerActor.payload_route t) ps ≡ some ms)
      × (map TrackerSession.route_info ms ≡ map (route_of t) ps)
unfolding collect
collected t [] v a = ([], refl, refl)
collected t (p ∷ ps) v a =
    let (m, e, r, q) = payload_route_lem t p v a in
    let (ms, f, s) = collected t ps v a in (m ∷ ms, rw (e, f) refl, rw (r, s) refl)

-- A connected session that asks the actor of a tracker for the routes of some payloads gets one
-- route for each of them, in their order: to the bus of its region, for a payload of the table, and
-- with no address for any other. It gets the same route for a payload that it asks for alone. The
-- table is valid, and the buses of the regions with payloads have addresses; no `CHECK` fails.
pub routes_found :
    (t : TrackerTable) (s : TrackerSession) (ps : List String)
    → Invariant.IsValid t
    → IsAddressed t
    → s.has_req ≡ true
    → (TrackerSession.get_payloads_route_info s ps (answered t) ≡ map (route_of t) ps)
      × ((p : String)
          → TrackerSession.get_payload_route_info s p (answered t) ≡ some (route_of t p))
unfolding TrackerSession.get_payloads_route_info TrackerSession.get_payload_route_info
    TrackerSession.take_payloads_routes TrackerSession.take_payload_route TrackerSession.response
    TrackerSession.route_for TrackerActor.handle answered
routes_found t s ps v a c = (
  (let (ms, e, r) = collected t ps v a in rw (c, e, r) refl),
  λ p.
      (let (m, e, r, q) = payload_route_lem t p v a in
        rw (c, e, r) (if_pos (str_dec p m.target) (sym q) _ _)),
)
