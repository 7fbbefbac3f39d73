-- ===== src/Tests/RegionSide.antt =====
-- The table of a region and the product that follows it: src/region/regiontable.cxx and
-- src/tracker/regionproduct.cxx.
use ris.Base.{
  ℕ, ◌≡◌, ◌≢◌, refl, String, true, some, none, List, [], ◌∷◌, str_dec, arith, if◌then◌else◌, ◌&&◌,
}
use ris.Observer.{Event, on_service, failed}
use ris.Containers.NodeList
use ris.Containers.Indexed
use ris.Containers.Indexed.{empty-IsCoherent}
use ris.RiTypes.EndPoint.{EndPoint}
use ris.RiTypes.Service
use ris.RiTypes.Service.{Service}
use ris.RiTypes.Payload
use ris.RiTypes.Payload.{Payload}
use ris.RegionProduct
use ris.RegionProduct.{RegionProduct}
use ris.RegionProduct.Catalogue
use ris.RegionProduct.Catalogue.{view, heard}
use ris.RegionProduct.Refinement.{handle-heard}
use ris.RegionTable
use ris.RegionTable.{RegionTable}
use ris.RegionTable.Steps
use ris.RegionTable.Invariant
use ris.RegionTable.Invariant.{run-create-IsValid, start-IsValid}
use ris.RegionTable.Mirror.{product_mirrors_run, handle_all}
use ris.RegionTable.Updates.{shown}
use ris.RegionSession.{RegionSession}
use ris.RegionSession.Calls
use ris.RegionSession.Calls.{perform-meant}
use ris.RegionSession.Mirrored.{perform_all, sessions_mirrored}

abbrev endpoint : String → EndPoint
endpoint s = record { address = s; identity = "bus" }

abbrev echo : Service
echo = record { name = "echo"; endpoint = endpoint "tcp://a"; timeval = 7 }

abbrev chat : Service
chat = record { name = "chat"; endpoint = endpoint "tcp://b"; timeval = 9 }

abbrev cargo : Payload
cargo = record { id = "cargo"; timeval = 5 }

abbrev ctx : RegionTable.Ctx
ctx = record {
  uuid = "east";
  idc = "one";
  bus_address = "tcp://a";
  bus_identity = "a";
  snapshot_address = "tcp://s";
  snapshot_identity = "s";
}

-- The table of a region that has started with an observer.
abbrev started : RegionTable
started = (RegionTable.start (RegionTable.create ctx) true true true).0

abbrev reading : ℕ
reading = 200000

abbrev traffic : List Steps.Call
traffic =
    Steps.adds_service echo
    ∷ Steps.adds_service chat
    ∷ Steps.adds_payload cargo
    ∷ Steps.pubs_repeated (reading, 200001)
    ∷ Steps.rms_service "echo"
    ∷ Steps.pubs_region
    ∷ []

clock_runs : reading ≢ 0
clock_runs e = ground arith

-- A product that has heard of the region alone.
abbrev newborn : RegionProduct
newborn = record {
  region = started.region;
  services = Indexed.empty Service.default;
  payloads = Indexed.empty Payload.default;
}

newborn-IsValid : Catalogue.IsValid newborn
newborn-IsValid = record {
  services = empty-IsCoherent str_dec _ Service.default;
  payloads = empty-IsCoherent str_dec _ Payload.default;
}

started-observed : started.observed ≡ true
unfolding RegionTable.start RegionTable.create
started-observed = refl

started-shown : view newborn ≡ shown started
unfolding RegionTable.start RegionTable.create Indexed.empty NodeList.empty
started-shown = refl

product_mirrors_run_example :
    (u : RegionTable) × (es : List Event) × (Steps.run started traffic ≡ some (u, es))
    × (view (handle_all newborn es) ≡ shown u)
product_mirrors_run_example =
    product_mirrors_run started traffic newborn (tt, (tt, (tt, (clock_runs, (tt, (tt, tt))))))
      started-observed
      (start-IsValid (RegionTable.create ctx) true true true (Invariant.create-IsValid ctx))
      newborn-IsValid started-shown

run-create-IsValid_example : Invariant.Succeeds (Steps.run (RegionTable.create ctx) traffic)
run-create-IsValid_example =
    run-create-IsValid ctx traffic (tt, (tt, (tt, (clock_runs, (tt, (tt, tt))))))

handle-heard_example :
    Catalogue.IsValid (RegionProduct.handle newborn (on_service "east" 3 echo))
    × (view (RegionProduct.handle newborn (on_service "east" 3 echo))
        ≡ heard (view newborn) (on_service "east" 3 echo))
handle-heard_example = handle-heard newborn (on_service "east" 3 echo) newborn-IsValid

-- A connected session, and the calls that it makes.
abbrev session : RegionSession
session = record { has_req = true }

abbrev calls : List (ℕ × RegionSession × Calls.Call)
calls =
    (reading, session, Calls.news_payload "cargo")
    ∷ (reading, session, Calls.news_service "echo" "tcp://a")
    ∷ (reading, session, Calls.removes_payload "cargo")
    ∷ []

perform-meant_example :
    Calls.perform reading "east" started session (Calls.news_service "echo" "tcp://a") ≡ (
      if session.has_req && Calls.complete (Calls.news_service "echo" "tcp://a")
      then Calls.told (Calls.meant reading "east" started (Calls.news_service "echo" "tcp://a"))
      else (started, [], failed, none))
perform-meant_example =
    perform-meant reading "east" started session (Calls.news_service "echo" "tcp://a")

sessions_mirrored_example :
    (view (handle_all newborn (perform_all "east" started calls).1)
      ≡ shown (perform_all "east" started calls).0)
    × Invariant.IsValid (perform_all "east" started calls).0
sessions_mirrored_example =
    sessions_mirrored "east" started calls newborn started-observed
      (start-IsValid (RegionTable.create ctx) true true true (Invariant.create-IsValid ctx))
      newborn-IsValid started-shown
