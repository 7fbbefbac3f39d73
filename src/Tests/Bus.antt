-- ===== src/Tests/Bus.antt =====
-- A message on the bus, its routes and its replies: src/busbroker/busworker.cxx, src/buscli/
-- bussender.cxx and src/regioncli/busreceiver.cxx.
use ris.Base.{
  map, ℕ, ◌≡◌, ◌≢◌, refl, String, true, false, some, List, [], ◌∷◌, ◌++◌, arith, length, All,
  is_empty,
}
use ris.Observer.{failed}
use ris.RiTypes.EndPoint.{EndPoint, ep_dec}
use ris.Containers.Map
use ris.Containers.Map.Entries.{Distinct}
use ris.BusMsgReply
use ris.BusMsgReply.{BusMsgReply}
use ris.BusWorker
use ris.TrackerSession.{RouteInfo}
use ris.BusWorker.{Header, Sent}
use ris.BusWorker.Grouping.{do_work-groups, targets_at, unrouted, grouped, report, AllTargeted}
use ris.BusReceiver.{BusReceiver, Network}
use ris.BusReceiver.Replies
use ris.BusReceiver.Replies.{Call, waits, replies, Result, IsConnected, replies_never_sent}
use ris.BusSender
use ris.BusSender.{BusSender, Fate, Target, many, Arrival, failure, reply_message}

abbrev east : EndPoint
east = record { address = "tcp://a"; identity = "east" }

abbrev nowhere : EndPoint
nowhere = record { address = ""; identity = "" }

abbrev tracker : List String → List RouteInfo
tracker ps =
    record { target = "cargo"; endpoint = east }
    ∷ record { target = "stray"; endpoint = nowhere }
    ∷ record { target = "crate"; endpoint = east }
    ∷ []

abbrev header : Header
header = record { msg_id = 4; failure = true; payloads = "cargo" ∷ "stray" ∷ "crate" ∷ [] }

abbrev envelope : String
envelope = "me"

abbrev content : String
content = "hello"

four : ◌≢◌ {A = ℕ} 4 0
four e = omega (arith, e)

three : length header.payloads ≢ 0
three e = omega (arith, e)

do_work-groups_example :
    let m = (BusWorker.merge_routes [] [] (tracker header.payloads)).0 in
    (BusWorker.do_work tracker (some envelope) (some header) (some content)
      ≡ report envelope header (unrouted (tracker header.payloads))
        ++ map (λ g. BusWorker.deliver g.0.identity envelope content) m)
    × Distinct ep_dec m
    × AllTargeted m
    × ((ep : EndPoint) → grouped (Map.find ep_dec ep m) ≡ targets_at ep (tracker header.payloads))
do_work-groups_example = do_work-groups tracker envelope header content four three

abbrev up : Network
up = record { interrupted = false; connects = true }

abbrev receiver : BusReceiver
receiver = record { address = "tcp://b"; has_sock = true; last_msg_id = 0 }

receiver-IsConnected : IsConnected receiver
unfolding is_empty
receiver-IsConnected = record { named = refl; linked = refl; idle = refl }

-- One message arrives, and is replied to.
abbrev calls : List (Call String)
calls =
    waits up true (record { header = some ("cargo" ∷ []); more = true; body = some "hello" })
    ∷ replies up ("cargo" ∷ []) "thanks" true true
    ∷ []

replies_never_sent_example :
    (s : BusReceiver) × (o : Result String) × (Replies.run receiver calls ≡ some (s, o))
    × IsConnected s
    × All (λ x. x ≡ failed) o.0
    × (o.1 ≡ [])
replies_never_sent_example =
    replies_never_sent receiver calls receiver-IsConnected ((refl, refl), ((refl, refl), tt))

abbrev sender : BusSender
sender = record { has_sock = true; brokers = "tcp://b" ∷ [] }

abbrev fine : Fate
fine = record { takes_header = true; takes_body = true }

abbrev target : Target
target = many ("cargo" ∷ "stray" ∷ [])

abbrev arrivals : List (Arrival String × ℕ)
arrivals =
    (failure 4 ("stray" ∷ []), 20)
    ∷ (reply_message 4 ("cargo" ∷ []) (some "thanks"), 30)
    ∷ (failure 4 ("cargo" ∷ []), 40)
    ∷ []
