-- ===== src/BusWorker.antt =====
-- `do_work`: src/busbroker/busworker.cxx. What a worker of the broker does with one message of a
-- sender: the routes of its payloads come from the tracker, whose answer is a parameter. An envelope
-- and the data of the message are values of types `E` and `D`. The worker's thread is outside.
pub mod Grouping
pub mod Routing
use ris.Base.{
  ℕ, String, Bool, true, false, Option, none, some, List, [], ◌∷◌, ◌++◌, if◌then◌else◌, is_empty,
  ◌==◌, ◌||◌, not, length,
}
use ris.RiTypes.EndPoint
use ris.RiTypes.EndPoint.{EndPoint, ep_dec}
use ris.TrackerSession.{RouteInfo}
use ris.Containers.Map

-- `bus::SendMessage`
pub record Header : Type 0 where
  pub msg_id : ℕ
  pub failure : Bool
  pub payloads : List String

-- What goes to the sender, and to a region under its identity.
pub data Sent (E D : Type 0) : Type 0 where
  failed : E → ℕ → List String → Sent E D
  deliver : String → E → D → Sent E D

abbrev pub Routes : Type 0
Routes = List (EndPoint × List String)

-- `route_map[ep].push_back(target)`
unfoldable pub push_route : EndPoint → String → Routes → Routes
push_route ep target m = elim (Map.find ep_dec ep m) [
  | none ↦ Map.insert ep_dec ep (target ∷ []) m
  | some targets ↦ Map.assign ep_dec ep (targets ++ target ∷ []) m
]

-- The loop that merges the routes of one destination.
unfoldable pub merge_routes : Routes → List String → List RouteInfo → Routes × List String
unfolding push_route
merge_routes m unfounds [] = (m, unfounds)
merge_routes m unfounds (r ∷ rs) =
    let found = merge_routes (push_route r.endpoint r.target m) unfounds rs in
    let missing = merge_routes m (unfounds ++ r.target ∷ []) rs in
    if not (is_empty r.endpoint.address) then found else missing

module _ {E D : Type 0} where
  -- `sendback failure message`
  unfoldable pub send_back : E → Header → List String → List (Sent E D)
  send_back envelope header [] = []
  send_back envelope header (p ∷ ps) =
      if header.failure then failed envelope header.msg_id (p ∷ ps) ∷ [] else []

  -- `deliver data message`
  unfoldable pub deliver_all : E → D → Routes → List (Sent E D)
  deliver_all envelope content [] = []
  deliver_all envelope content ((ep, targets) ∷ m) =
      deliver ep.identity envelope content ∷ deliver_all envelope content m

  -- The parts of the message as they are received: the envelope, the header, and the data, if more
  -- follows the header.
  unfoldable pub do_work :
      (List String → List RouteInfo) → Option E → Option Header → Option D → List (Sent E D)
  unfolding merge_routes send_back deliver_all
  do_work tracker none header content = []
  do_work tracker (some envelope) none content = []
  do_work tracker (some envelope) (some header) none = []
  do_work tracker (some envelope) (some header) (some content) =
      if header.msg_id == 0 || length header.payloads == 0
      then []
      else let (routes, unfounds) = merge_routes [] [] (tracker header.payloads) in
        send_back envelope header unfounds ++ deliver_all envelope content routes
