-- ===== src/PubTracker/Steps.antt =====
-- What happens to a `PubTracker` and its factories: src/tracker/pubtracker.cxx and src/tracker/
-- regionfactory.cxx.
use ris.Base.{String, Bool, Option, none, some, List, [], ◌∷◌, ◌>>=◌, str_dec}
use ris.Observer.{Event, Status}
use ris.Containers.Map
use ris.RegionProduct.{RegionProduct}
use ris.RegionFactory
use ris.RegionFactory.{RegionFactory}
use ris.PubTracker
use ris.PubTracker.{PubTracker}
use ris.TrackerTable.{TrackerTable}

-- A call of the observer; the client of a factory makes its product what it has received; the client
-- of a factory reports. A factory that is gone has no client.
pub data Happening : Type 0 where
  hears : Event → Bool → Happening
  fills : String → RegionProduct → Happening
  reports : String → Status → Happening

unfoldable pub step : PubTracker → TrackerTable → Happening → Option (PubTracker × TrackerTable)
step t table (hears e client_starts) = do t' ← PubTracker.handle t e client_starts; some (t', table)
step t table (fills reg p) = elim (Map.find str_dec reg t.factories) [
  | none ↦ some (t, table)
  | some it ↦
      let f : RegionFactory = record it { product = some p } in
      some (record t { factories = Map.assign str_dec reg f t.factories }, table)
]
step t table (reports reg status) = elim (Map.find str_dec reg t.factories) [
  | none ↦ some (t, table)
  | some it ↦ do
    (f, id, product) ← RegionFactory.on_snapshot_completed it status
    PubTracker.on_factory_completed t table id product
]

unfoldable pub run : PubTracker → TrackerTable → List Happening → Option (PubTracker × TrackerTable)
unfolding step
run t table [] = some (t, table)
run t table (h ∷ hs) = do (t', table') ← step t table h; run t' table' hs
