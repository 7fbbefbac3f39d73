-- ===== src/TrackerTable/Invariant/History.antt =====
-- The life of a tracker's table: the calls that the actor makes on it, in the order of its loop's
-- thread.
use ris.Base.{ℕ, ◌≡◌, refl, String, Option, some, List, [], ◌∷◌, ◌>>=◌, ◌++◌}
use ris.Observer.{Event}
use ris.RiTypes.Region.{Region}
use ris.RiTypes.Service.{Service}
use ris.RiTypes.Payload.{Payload}
use ris.TrackerTable
use ris.TrackerTable.{TrackerTable}
use ris.TrackerTable.Regions.{merge}
use ris.TrackerTable.Handlers.{handle}
use ris.TrackerTable.Reads.{robin_route_service}
use ris.TrackerTable.Timer.{on_check_timer}
use ris.TrackerTable.Invariant.{IsValid}
use ris.TrackerTable.Invariant.Operations.{create-IsValid}
use ris.TrackerTable.Invariant.Handling.{handle-IsValid}
use ris.TrackerTable.Invariant.Expiry.{on_check_timer-IsValid}
use ris.TrackerTable.Invariant.Merging.{merge-IsValid}
use ris.TrackerTable.Invariant.Routing.{robin_route_service-IsValid}

pub data Call : Type 0 where
  hears : Event → Call
  merges : Region → List Service → List Payload → Call
  routes_service : String → Call
  checks_timer : ℕ → Call

-- The table, with the calls that go on to the next handler. `none` is an abort or a fault.
unfoldable pub step : TrackerTable → Call → Option (TrackerTable × List Event)
step t (hears e) = handle t e
step t (merges r svcs pls) = some ((merge t r svcs pls).0, [])
step t (routes_service svc) = some ((robin_route_service t svc).0, [])
step t (checks_timer now) = do t' ← on_check_timer now t; some (t', [])

unfoldable pub run : TrackerTable → List Call → Option (TrackerTable × List Event)
unfolding step
run t [] = some (t, [])
run t (c ∷ cs) = do (t1, es) ← step t c; (t2, fs) ← run t1 cs; some (t2, es ++ fs)

-- The calls return, and the table that they leave is valid.
abbrev pub Succeeds : Option (TrackerTable × List Event) → Type 0
Succeeds r = (u : TrackerTable) × (out : List Event) × (r ≡ some (u, out)) × IsValid u

step-Succeeds : (t : TrackerTable) (c : Call) → IsValid t → Succeeds (step t c)
unfolding step
step-Succeeds t (hears e) v = handle-IsValid t e v
step-Succeeds t (merges r svcs pls) v = (_, _, refl, merge-IsValid t r svcs pls v)
step-Succeeds t (routes_service svc) v = (_, _, refl, robin_route_service-IsValid t svc v)
step-Succeeds t (checks_timer now) v =
    let (u, e, w) = on_check_timer-IsValid now t v in (u, [], rw e refl, w)

run-Succeeds : (t : TrackerTable) (cs : List Call) → IsValid t → Succeeds (run t cs)
unfolding run
run-Succeeds t [] v = (t, [], refl, v)
run-Succeeds t (c ∷ cs) v =
    let (t1, es, e, v1) = step-Succeeds t c v in
    let (t2, fs, f, v2) = run-Succeeds t1 cs v1 in (t2, es ++ fs, rw (e, f) refl, v2)

-- From the empty table, any sequence of calls of the observer, merges, service routes and timer
-- ticks runs with no failed `CHECK` and no null pointer read, and ends in a table whose
-- indexes agree with its lists, whose services and payloads all belong to registered regions, and
-- in which no region has two services of one name.
pub run-create-Succeeds : (cs : List Call) → Succeeds (run TrackerTable.create cs)
run-create-Succeeds cs = run-Succeeds TrackerTable.create cs create-IsValid
