-- ===== src/Tests/Joining.antt =====
-- A region that joins the tracker's table: src/tracker/pubtracker.cxx and src/tracker/
-- regionfactory.cxx.
use ris.Base.{◌≡◌, refl, true, some, List, [], ◌∷◌, str_dec, none, length, ◌<◌, arith}
use ris.Observer.{Event, Status, ok, failed, on_region, on_service, on_rm_region}
use ris.Containers.Map
use ris.Containers.Map.Entries.{insert-Distinct, insert-Found, length-insert}
use ris.PubData
use ris.Containers.Indexed.{empty-IsCoherent}
use ris.RiTypes.Region.{Region}
use ris.RiTypes.Service.{Service}
use ris.RiTypes.Service
use ris.RiTypes.Payload
use ris.RegionSubCacher
use ris.RegionSubCacher.{RegionSubCacher}
use ris.RegionProduct
use ris.RegionProduct.{RegionProduct}
use ris.RegionProduct.Catalogue
use ris.RegionProduct.Catalogue.{view}
use ris.RegionTable.Updates.{hear_all}
use ris.RegionFactory.{RegionFactory}
use ris.PubTracker
use ris.PubTracker.{PubTracker}
use ris.PubTracker.Steps
use ris.PubTracker.Steps.{Happening, hears, fills, reports}
use ris.PubTracker.Invariant
use ris.PubTracker.Joining.{success_reported, erased, outcome}
use ris.PubTracker.Course
use ris.PubTracker.Course.{happenings-Succeed}
use ris.TrackerTable.Invariant.Operations.{create-IsValid}
use ris.TrackerTable
use ris.TrackerTable.{TrackerTable}

abbrev east : Region
east = record {
  id = "east";
  version = 3;
  idc = "one";
  bus = record { address = "tcp://a"; identity = "a" };
  snapshot = record { address = "tcp://s"; identity = "s" };
  timeval = 7;
}

abbrev echo : Service
echo = record {
  name = "echo";
  endpoint = record { address = "tcp://a"; identity = "a" };
  timeval = 7;
}

abbrev idle : PubTracker
idle = (PubTracker.start PubTracker.create 4).0

abbrev product : RegionProduct
product = record RegionProduct.create { region = east }

abbrev course : List Happening
course =
    hears (on_region east) true
    ∷ hears (on_service "east" 4 echo) true
    ∷ fills "east" product
    ∷ reports "east" ok
    ∷ hears (on_rm_region "east") true
    ∷ reports "west" failed
    ∷ []

happenings-Succeed_example : Course.Succeeds (Steps.run idle TrackerTable.create course)
happenings-Succeed_example =
    happenings-Succeed idle TrackerTable.create course (Invariant.start-IsValid 4) create-IsValid

-- The queue of a factory that has heard of the region and of one service.
abbrev queue : RegionSubCacher
queue = record {
  region_id = "east";
  updates = PubData.from_region east ∷ PubData.from_service 4 echo ∷ [];
}

abbrev factory : RegionFactory
factory = record {
  region_id = "east";
  product = some product;
  subcacher = some queue;
  has_client = true;
}

nobody : Map.find str_dec "east" idle.factories ≡ none
unfolding Map.find PubTracker.start PubTracker.create
nobody = refl

abbrev busy : PubTracker
busy = record idle { factories = Map.insert str_dec "east" factory idle.factories }

queue-AllKnown : Invariant.AllKnown queue
unfolding PubData.present PubData.from_region PubData.from_service
queue-AllKnown = (λ r. (_, refl), (λ r. (_, refl), tt))

factory-IsReady : Invariant.IsReady "east" factory
factory-IsReady = record {
  named = refl;
  product = (product, refl);
  subcacher = (queue, refl, queue-AllKnown);
}

room : length idle.factories < idle.capacity
unfolding PubTracker.start PubTracker.create
room = omega arith

busy-IsValid : Invariant.IsValid busy
busy-IsValid =
    let v = Invariant.start-IsValid 4 in
    record {
      bound = omega (arith, length-insert str_dec "east" factory idle.factories nobody, room);
      distinct = insert-Distinct str_dec "east" factory idle.factories v.distinct;
      ready =
          insert-Found str_dec Invariant.IsReady "east" factory idle.factories nobody
            factory-IsReady v.ready;
    }

busy_at : Map.find str_dec "east" busy.factories ≡ some factory
unfolding Map.find Map.insert PubTracker.start PubTracker.create str_dec
busy_at = refl

product-IsValid : Catalogue.IsValid product
unfolding RegionProduct.create
product-IsValid = record {
  services = empty-IsCoherent str_dec _ Service.default;
  payloads = empty-IsCoherent str_dec _ Payload.default;
}

success_reported_example :
    (c' : RegionSubCacher) × (status : Status) × (es : List Event) × (RegionSubCacher.present queue
        product.region.version
      ≡ some (c', status, es))
    × (Steps.step busy TrackerTable.create (reports "east" ok)
        ≡ some (
          erased busy "east",
          outcome busy TrackerTable.create (hear_all (view product) es) status,
        ))
success_reported_example =
    success_reported busy TrackerTable.create "east" factory busy-IsValid busy_at product queue refl
      refl product-IsValid
