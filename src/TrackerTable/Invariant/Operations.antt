-- ===== src/TrackerTable/Invariant/Operations.antt =====
-- Every operation of the tracker's table keeps it valid, and none fails a `CHECK`.
use ris.Base.{
  ℕ, ◌≡◌, refl, sym, String, some, [], ◌∷◌, true, arith, str_dec, subst, Option-cases, inl, inr,
}
use ris.Containers.NodeList
use ris.Containers.NodeList.{
  mem, mem-unlink, unlink, Distinct, mem-append, mem_last, empty-IsLinked,
}
use ris.Containers.Map
use ris.Containers.Indexed
use ris.Containers.Indexed.{
  Indexed, IsCoherent, set-IsCoherent, to_back-IsCoherent, append-IsCoherent, remove-IsCoherent,
  empty-IsCoherent,
}
use ris.Containers.Indexed.Holds.{Holds-empty}
use ris.RiTypes.Region
use ris.RiTypes.Region.{Region}
use ris.RiTypes.Service.{Service}
use ris.RiTypes.Payload.{Payload}
use ris.TrackerTable
use ris.TrackerTable.{TrackerTable, RegionPayload}
use ris.TrackerTable.Services
use ris.TrackerTable.Services.{put_service, do_rm_service, rm_services_of}
use ris.TrackerTable.Payloads.{put_payload, do_rm_payload}
use ris.TrackerTable.Regions.{update_region_version}
use ris.TrackerTable.Handlers
use ris.TrackerTable.Invariant.{IsValid, HasServices}
use ris.TrackerTable.Invariant.Services.{put_service-HasServices, do_rm_service-HasServices}
use ris.TrackerTable.Invariant.Carry.{services_with, payloads_with}
use ris.TrackerTable.Invariant.RegionPayloads.{put_payload-HasPayloads, do_rm_payload-HasPayloads}

pub create-IsValid : IsValid TrackerTable.create
unfolding TrackerTable.create NodeList.empty mem Map.find
create-IsValid = record {
  regions = empty-IsCoherent str_dec (λ r. r.id) Region.default;
  services = record {
    linked = empty-IsLinked _;
    owned = λ i m. cc;
    listed = λ i m. cc;
    entries = λ n l e. cc;
    single = λ i j hi. cc;
  };
  payloads = Holds-empty str_dec _ _ _;
}

-- The regions change, and none goes.
pub regions_with :
    (t : TrackerTable) (rs : Indexed String Region)
    → IsCoherent str_dec (λ r. r.id) rs
    → ((p : ℕ) → mem p t.regions.list.order ≡ true → mem p rs.list.order ≡ true)
    → IsValid t
    → IsValid (record t { regions = rs })
regions_with t rs c sub v = record {
  regions = c;
  services = services_with _ _ t (record t { regions = rs }) refl refl sub v.services;
  payloads = payloads_with _ _ t (record t { regions = rs }) refl sub v.payloads;
}

pub update_region_version-IsValid :
    (t : TrackerTable) (reg : String) (version : ℕ)
    → IsValid t
    → IsValid (update_region_version t reg version)
unfolding update_region_version Indexed.set NodeList.set
update_region_version-IsValid t reg version v =
    elim (Option-cases (Indexed.find str_dec reg t.regions)) [
      | inl e ↦ rw (e, update_region_version) v
      | inr (it, e) ↦
          rw (e, update_region_version)
            (regions_with t
              (Indexed.set it (record (Indexed.get it t.regions) { version = version }) t.regions)
              (set-IsCoherent str_dec _ it _ t.regions refl v.regions) (λ p m. m) v)
    ]

pub handle_region-IsValid :
    (t : TrackerTable) (reg : Region) → IsValid t → IsValid (Handlers.handle_region t reg).0
unfolding Handlers.handle_region Indexed.set NodeList.set Indexed.to_back NodeList.to_back
handle_region-IsValid t reg v = elim (Option-cases (Indexed.find str_dec reg.id t.regions)) [
  | inl e ↦ rw (e, Handlers.handle_region) v
  | inr (it, e) ↦
      let (m, k) = v.regions.sound reg.id it e in
      rw (e, Handlers.handle_region)
        (regions_with t (Indexed.to_back it (Indexed.set it reg t.regions))
          (to_back-IsCoherent str_dec _ it _ m
            (set-IsCoherent str_dec _ it reg t.regions (sym k) v.regions))
          (λ p h. ground (
            arith,
            mem-append p (unlink it t.regions.list.order) (it ∷ []),
            mem-unlink it p t.regions.list.order v.regions.linked.distinct,
            mem_last it p,
          ))
          v)
]

pub put_service-keeps :
    (t : TrackerTable) (regit : ℕ) (reg : String) (svc : Service)
    → ((put_service t regit reg svc).regions ≡ t.regions)
      × ((put_service t regit reg svc).payloads ≡ t.payloads)
unfolding put_service Services.link_service Services.update_service
put_service-keeps t regit reg svc = ground arith

pub put_service-IsValid :
    (t : TrackerTable) (regit : ℕ) (reg : String) (svc : Service)
    → Indexed.find str_dec reg t.regions ≡ some regit
    → IsValid t
    → IsValid (put_service t regit reg svc)
put_service-IsValid t regit reg svc e v =
    let (m, k) = v.regions.sound reg regit e in
    let (rs, ps) = put_service-keeps t regit reg svc in
    record {
      regions = rw rs v.regions;
      services =
          subst (λ r. HasServices r.list.order (put_service t regit reg svc)) (sym rs)
            (put_service-HasServices _ t v.services regit reg svc m k);
      payloads = payloads_with _ _ t (put_service t regit reg svc) ps (λ p h. rw rs h) v.payloads;
    }

do_rm_service-keeps :
    (t : TrackerTable) (reg svc : String)
    → ((do_rm_service t reg svc).regions ≡ t.regions)
      × ((do_rm_service t reg svc).payloads ≡ t.payloads)
unfolding do_rm_service Services.unlink_service
do_rm_service-keeps t reg svc = ground arith

pub do_rm_service-IsValid :
    (t : TrackerTable) (reg svc : String) → IsValid t → IsValid (do_rm_service t reg svc)
do_rm_service-IsValid t reg svc v =
    let (rs, ps) = do_rm_service-keeps t reg svc in
    record {
      regions = rw rs v.regions;
      services =
          subst (λ r. HasServices r.list.order (do_rm_service t reg svc)) (sym rs)
            (do_rm_service-HasServices _ t v.services reg svc);
      payloads = payloads_with _ _ t (do_rm_service t reg svc) ps (λ p h. rw rs h) v.payloads;
    }

pub put_payload-keeps :
    (t : TrackerTable) (regit : ℕ) (pl : Payload)
    → ((put_payload t regit pl).regions ≡ t.regions)
      × ((put_payload t regit pl).services ≡ t.services)
      × ((put_payload t regit pl).services_index ≡ t.services_index)
unfolding put_payload
put_payload-keeps t regit pl = ground arith

pub put_payload-IsValid :
    (t : TrackerTable) (regit : ℕ) (pl : Payload)
    → mem regit t.regions.list.order ≡ true
    → IsValid t
    → IsValid (put_payload t regit pl)
put_payload-IsValid t regit pl m v =
    let (rs, ss, is) = put_payload-keeps t regit pl in
    record {
      regions = rw rs v.regions;
      services = services_with _ _ t (put_payload t regit pl) ss is (λ p h. rw rs h) v.services;
      payloads = rw rs (put_payload-HasPayloads _ t regit pl m v.payloads);
    }

do_rm_payload-keeps :
    (t : TrackerTable) (reg pl : String)
    → ((do_rm_payload t reg pl).regions ≡ t.regions)
      × ((do_rm_payload t reg pl).services ≡ t.services)
      × ((do_rm_payload t reg pl).services_index ≡ t.services_index)
unfolding do_rm_payload
do_rm_payload-keeps t reg pl = ground arith

pub do_rm_payload-IsValid :
    (t : TrackerTable) (reg pl : String) → IsValid t → IsValid (do_rm_payload t reg pl)
do_rm_payload-IsValid t reg pl v =
    let (rs, ss, is) = do_rm_payload-keeps t reg pl in
    record {
      regions = rw rs v.regions;
      services = services_with _ _ t (do_rm_payload t reg pl) ss is (λ p h. rw rs h) v.services;
      payloads = rw rs (do_rm_payload-HasPayloads _ t reg pl v.payloads);
    }
