-- ===== src/PubTracker/Invariant.antt =====
-- What holds of a `PubTracker` between two calls: src/tracker/pubtracker.cxx and src/tracker/
-- regionfactory.cxx.
use ris.Base.{
  ℕ, ◌≤◌, ◌≡◌, refl, String, Bool, true, false, Option, none, some, [], ◌∷◌, ◌++◌, ite, arith,
  length, All, All-append, str_dec, ltb, ltb→lt, Option-cases, Bool-cases, inl, inr, ite_both,
}
use ris.Observer.{
  Event, on_region, on_rm_region, on_service, on_rm_service, on_payload, on_rm_payload,
}
use ris.Containers.Map
use ris.Containers.Map.Entries.{
  Distinct, Found, insert-Distinct, assign-Distinct, erase-Distinct, insert-Found, assign-Found,
  erase-Found, length-insert, length-assign, length-erase,
}
use ris.PubData
use ris.PubData.{PubData}
use ris.RegionSubCacher
use ris.RegionSubCacher.{RegionSubCacher, drop_until, present_from}
use ris.RegionProduct.{RegionProduct}
use ris.RegionFactory
use ris.RegionFactory.{RegionFactory}
use ris.RiTypes.Region.{Region}
use ris.PubTracker
use ris.PubTracker.{PubTracker}

-- An update that can be presented.
abbrev pub IsKnown : PubData → Type 0
IsKnown d = (region : String) → (e : Event) × (PubData.present d region ≡ some e)

abbrev pub AllKnown : RegionSubCacher → Type 0
AllKnown c = All IsKnown c.updates

push-AllKnown :
    (c : RegionSubCacher) (reg : String) (d : PubData)
    → AllKnown c
    → IsKnown d
    → AllKnown (ite (str_dec reg c.region_id) (record c { updates = c.updates ++ d ∷ [] }) c)
push-AllKnown c reg d a k =
    ite_both AllKnown (str_dec reg c.region_id) (All-append IsKnown c.updates _ a (k, tt)) a

handle-AllKnown :
    (c : RegionSubCacher) (e : Event) → AllKnown c → AllKnown (RegionSubCacher.handle c e)
unfolding RegionSubCacher.handle PubData.present PubData.from_region PubData.from_service
    PubData.from_rm_service PubData.from_payload PubData.from_rm_payload
handle-AllKnown c (on_region reg) a = push-AllKnown c reg.id _ a (λ r. (_, refl))
handle-AllKnown c (on_rm_region reg) a = ite_both AllKnown (str_dec reg c.region_id) tt a
handle-AllKnown c (on_service reg version svc) a = push-AllKnown c reg _ a (λ r. (_, refl))
handle-AllKnown c (on_rm_service reg version svc) a = push-AllKnown c reg _ a (λ r. (_, refl))
handle-AllKnown c (on_payload reg version pl) a = push-AllKnown c reg _ a (λ r. (_, refl))
handle-AllKnown c (on_rm_payload reg version pl) a = push-AllKnown c reg _ a (λ r. (_, refl))

-- A factory that has started for a region: its product, and its queue.
pub record IsReady (id : String) (f : RegionFactory) : Type 0 where
  pub named : f.region_id ≡ id
  pub product : (p : RegionProduct) × (f.product ≡ some p)
  pub subcacher : (c : RegionSubCacher) × (f.subcacher ≡ some c) × AllKnown c

-- The factories are within the capacity, one for each region, and each has started for its region.
pub record IsValid (t : PubTracker) : Type 0 where
  pub bound : length t.factories ≤ t.capacity
  pub distinct : Distinct str_dec t.factories
  pub ready : Found str_dec IsReady t.factories

pub start-IsValid : (capacity : ℕ) → IsValid (PubTracker.start PubTracker.create capacity).0
unfolding PubTracker.start PubTracker.create Map.find
start-IsValid capacity = record { bound = omega arith; distinct = tt; ready = λ j w e. cc }

observe-IsReady :
    (id : String) (f : RegionFactory) (e : Event)
    → IsReady id f
    → (g : RegionFactory) × (PubTracker.observe f e ≡ some g) × IsReady id g
unfolding PubTracker.observe
observe-IsReady id f e v =
    let (c, h, a) = v.subcacher in
    (
      record f { subcacher = some (RegionSubCacher.handle c e) },
      rw (h, PubTracker.observe) refl,
      record { named = v.named; product = v.product; subcacher = (_, refl, handle-AllKnown c e a) },
    )

assign-IsValid :
    (t : PubTracker) (id : String) (f g : RegionFactory)
    → Map.find str_dec id t.factories ≡ some f
    → IsReady id g
    → IsValid t
    → IsValid (record t { factories = Map.assign str_dec id g t.factories })
assign-IsValid t id f g e r v = record {
  bound = omega (arith, length-assign str_dec id g f t.factories e, v.bound);
  distinct = assign-Distinct str_dec id g t.factories v.distinct;
  ready = assign-Found str_dec IsReady id g t.factories r v.ready;
}

pub erase-IsValid :
    (t : PubTracker) (id : String)
    → IsValid t
    → IsValid (record t { factories = Map.erase str_dec id t.factories })
erase-IsValid t id v = record {
  bound = omega (arith, length-erase str_dec id t.factories, v.bound);
  distinct = erase-Distinct str_dec id t.factories v.distinct;
  ready = erase-Found str_dec IsReady id t.factories v.ready;
}

-- The call returns, and keeps what holds.
abbrev pub Keeps : Option PubTracker → Type 0
Keeps r = (t : PubTracker) × (r ≡ some t) × IsValid t

forward-Keeps :
    (t : PubTracker) (reg : String) (e : Event) → IsValid t → Keeps (PubTracker.forward t reg e)
unfolding PubTracker.forward
forward-Keeps t reg e v = elim (Option-cases (Map.find str_dec reg t.factories)) [
  | inl h ↦ (t, rw (h, PubTracker.forward) refl, v)
  | inr (f, h) ↦
      let (g, q, r) = observe-IsReady reg f e (v.ready reg f h) in
      (_, rw (h, PubTracker.forward, q) refl, assign-IsValid t reg f g h r v)
]

opened-IsReady :
    (reg : Region) → IsReady reg.id (RegionFactory.start RegionFactory.create reg true).0
unfolding RegionFactory.start RegionFactory.create RegionSubCacher.create
opened-IsReady reg = record {
  named = refl;
  product = (_, refl);
  subcacher =
      (_, refl, handle-AllKnown (record { region_id = reg.id; updates = [] }) (on_region reg) tt);
}

open_factory-IsValid :
    (t : PubTracker) (reg : Region) (client_starts : Bool)
    → Map.find str_dec reg.id t.factories ≡ none
    → ltb (length t.factories) t.capacity ≡ true
    → IsValid t
    → IsValid (PubTracker.open_factory t reg client_starts)
unfolding PubTracker.open_factory RegionFactory.start RegionFactory.create
open_factory-IsValid t reg false n l v = v
open_factory-IsValid t reg true n l v =
    let f = (RegionFactory.start RegionFactory.create reg true).0 in
    record {
      bound = omega (arith, length-insert str_dec reg.id f t.factories n, ltb→lt _ _ l);
      distinct = insert-Distinct str_dec reg.id f t.factories v.distinct;
      ready = insert-Found str_dec IsReady reg.id f t.factories n (opened-IsReady reg) v.ready;
    }

handle_region-Keeps :
    (t : PubTracker) (reg : Region) (client_starts : Bool)
    → IsValid t
    → Keeps (PubTracker.handle_region t reg client_starts)
unfolding PubTracker.handle_region
handle_region-Keeps t reg b v = elim (Option-cases (Map.find str_dec reg.id t.factories)) [
  | inl h ↦ elim (Bool-cases (ltb (length t.factories) t.capacity)) [
    | inl l ↦ (_, rw (h, PubTracker.handle_region, l) refl, open_factory-IsValid t reg b h l v)
    | inr l ↦ (t, rw (h, PubTracker.handle_region, l) refl, v)
  ]
  | inr (f, h) ↦
      let (g, q, r) = observe-IsReady reg.id f (on_region reg) (v.ready reg.id f h) in
      (_, rw (h, PubTracker.handle_region, q) refl, assign-IsValid t reg.id f g h r v)
]

handle_rm_region-IsValid :
    (t : PubTracker) (reg : String) → IsValid t → IsValid (PubTracker.handle_rm_region t reg)
unfolding PubTracker.handle_rm_region
handle_rm_region-IsValid t reg v = elim (Option-cases (Map.find str_dec reg t.factories)) [
  | inl h ↦ rw (h, PubTracker.handle_rm_region) v
  | inr (f, h) ↦ rw (h, PubTracker.handle_rm_region) (erase-IsValid t reg v)
]

pub handle-Keeps :
    (t : PubTracker) (e : Event) (client_starts : Bool)
    → IsValid t
    → Keeps (PubTracker.handle t e client_starts)
unfolding PubTracker.handle
handle-Keeps t (on_region reg) b v = handle_region-Keeps t reg b v
handle-Keeps t (on_rm_region reg) b v = (_, refl, handle_rm_region-IsValid t reg v)
handle-Keeps t (on_service reg version svc) b v = forward-Keeps t reg _ v
handle-Keeps t (on_rm_service reg version svc) b v = forward-Keeps t reg _ v
handle-Keeps t (on_payload reg version pl) b v = forward-Keeps t reg _ v
handle-Keeps t (on_rm_payload reg version pl) b v = forward-Keeps t reg _ v

pub fill-IsValid :
    (t : PubTracker) (id : String) (f : RegionFactory) (p : RegionProduct)
    → Map.find str_dec id t.factories ≡ some f
    → IsValid t
    → IsValid
        (record t { factories = Map.assign str_dec id (record f { product = some p }) t.factories })
fill-IsValid t id f p e v =
    let r = v.ready id f e in
    assign-IsValid t id f (record f { product = some p }) e
      (record { named = r.named; product = (p, refl); subcacher = r.subcacher }) v
