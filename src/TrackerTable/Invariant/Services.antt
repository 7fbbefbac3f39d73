-- ===== src/TrackerTable/Invariant/Services.antt =====
-- `onService`, `onRmService` and the first loop of `doRmRegion` keep the services of the tracker's
-- table in order.
use ris.Base.{
  ℕ, ◌≡◌, ◌≢◌, refl, String, some, none, List, [], ◌∷◌, true, arith, str_dec, Option-cases, inl,
  inr, ℕ_discrete,
}
use ris.RiTypes.Service.{Service}
use ris.Containers.Map
use ris.Containers.Indexed
use ris.Containers.NodeList
use ris.Containers.NodeList.{
  mem, mem-unlink, unlink, write_self, write_ne, to_back-IsLinked, set-IsLinked, mem-append,
  mem_last, Distinct,
}
use ris.TrackerTable.{TrackerTable}
use ris.TrackerTable.Services
use ris.TrackerTable.Services.{
  do_rm_service, put_service, find_region_service, rm_service_of, rm_services_of,
}
use ris.TrackerTable.Invariant.{name_at, region_at, HasServices}
use ris.TrackerTable.Invariant.Search.{
  find_region_service-missing, find_region_service-found, find_region_service-kept,
}
use ris.TrackerTable.Invariant.Link.{link_service-HasServices}
use ris.TrackerTable.Invariant.Unlink.{unlink_service-HasServices, HasServices_alike}

module _ (live : List ℕ) (t : TrackerTable) (v : HasServices live t) where
  entry_owned :
      (n : String) (l : List ℕ)
      → Map.find str_dec n t.services_index ≡ some l
      → (i : ℕ) → mem i l ≡ true
      → (p : ℕ) × (region_at t i ≡ some p)
  entry_owned n l e i m = let (p, r, h) = v.owned i ((v.entries n l e).nodes i m).0 in (p, r)

  -- On a valid table the search leaves the entry as it is.
  search_kept :
      (n reg : String) (l : List ℕ)
      → Map.find str_dec n t.services_index ≡ some l
      → (find_region_service t l reg).0 ≡ l
  search_kept n reg l e = find_region_service-kept t reg l (entry_owned n l e)

  listed_in :
      (n : String) (l : List ℕ)
      → Map.find str_dec n t.services_index ≡ some l
      → (i : ℕ) → mem i t.services.order ≡ true
      → name_at t i ≡ n
      → mem i l ≡ true
  listed_in n l e i m q = let (k, f, h) = v.listed i m in ground arith

  update_service-HasServices :
      (svc : Service) (l : List ℕ) (it : ℕ)
      → Map.find str_dec svc.name t.services_index ≡ some l
      → mem it l ≡ true
      → HasServices live (Services.update_service t svc l it)
  unfolding Services.update_service NodeList.to_back NodeList.set
  update_service-HasServices svc l it e m =
      let (here, named) = (v.entries svc.name l e).nodes it m in
      HasServices_alike live live t _
        (record {
          nodes = λ i. ground (
            arith,
            mem-append i (unlink it t.services.order) (it ∷ []),
            mem-unlink it i t.services.order v.linked.distinct,
            mem_last it i,
          );
          names = λ i. ground (
            arith,
            write_self t.services.cell it (record { region = region_at t it; service = svc }),
            write_ne t.services.cell it i (record { region = region_at t it; service = svc }),
            ℕ_discrete it i,
          );
          owners = λ i. ground (
            arith,
            write_self t.services.cell it (record { region = region_at t it; service = svc }),
            write_ne t.services.cell it i (record { region = region_at t it; service = svc }),
            ℕ_discrete it i,
          );
          index = λ n. ground (arith, Map.find-assign str_dec svc.name n l t.services_index);
        })
        (to_back-IsLinked it _ here (set-IsLinked it _ t.services v.linked)) (λ p h. h) v

  link_under :
      (regit : ℕ) (svc : Service) (l : List ℕ)
      → mem regit live ≡ true
      → Map.find str_dec svc.name t.services_index ≡ some l
      → ((i : ℕ) → mem i l ≡ true → region_at t i ≢ some regit)
      → HasServices live (Services.link_service t regit svc l)
  link_under regit svc l r e new =
      link_service-HasServices live t v regit svc l r (v.entries svc.name l e).distinct
        (v.entries svc.name l e).nodes (listed_in svc.name l e) new

  link_first :
      (regit : ℕ) (svc : Service)
      → mem regit live ≡ true
      → Map.find str_dec svc.name t.services_index ≡ none
      → HasServices live (Services.link_service t regit svc [])
  unfolding mem
  link_first regit svc r e =
      link_service-HasServices live t v regit svc [] r tt (λ i m. ground arith)
        (λ i m q. let (k, f, h) = v.listed i m in ground arith) (λ i m. cc)

  put_found :
      (regit : ℕ) (reg : String) (svc : Service) (l : List ℕ)
      → mem regit live ≡ true
      → (Indexed.get regit t.regions).id ≡ reg
      → Map.find str_dec svc.name t.services_index ≡ some l
      → HasServices live (put_service t regit reg svc)
  unfolding put_service
  put_found regit reg svc l r d e = elim (Option-cases (find_region_service t l reg).1) [
    | inl f ↦
        rw (e, put_service, f, search_kept svc.name reg l e)
          (link_under regit svc l r e
            (λ i m q. find_region_service-missing t reg l i regit f m q d))
    | inr (it, f) ↦
        rw (e, put_service, f, search_kept svc.name reg l e)
          (update_service-HasServices svc l it e (find_region_service-found t reg l it f).0)
  ]

  do_rm_found :
      (reg svc : String) (l : List ℕ)
      → Map.find str_dec svc t.services_index ≡ some l
      → HasServices live (do_rm_service t reg svc)
  unfolding do_rm_service
  do_rm_found reg svc l e = elim (Option-cases (find_region_service t l reg).1) [
    | inl f ↦
        rw (e, do_rm_service, f, search_kept svc reg l e)
          (HasServices_alike live live t _
            (record {
              nodes = λ i. refl;
              names = λ i. refl;
              owners = λ i. refl;
              index = λ n. ground (arith, Map.find-assign str_dec svc n l t.services_index);
            })
            v.linked (λ p h. h) v)
    | inr (it, f) ↦
        rw (e, do_rm_service, f, search_kept svc reg l e)
          (unlink_service-HasServices live t v svc l it e
            (find_region_service-found t reg l it f).0)
  ]

  -- The removal of a service of any region.
  pub do_rm_service-HasServices : (reg svc : String) → HasServices live (do_rm_service t reg svc)
  unfolding do_rm_service
  do_rm_service-HasServices reg svc = elim (Option-cases (Map.find str_dec svc t.services_index)) [
    | inl e ↦ rw (e, do_rm_service) v
    | inr (l, e) ↦ do_rm_found reg svc l e
  ]

  -- The insertion of a service of a registered region.
  pub put_service-HasServices :
      (regit : ℕ) (reg : String) (svc : Service)
      → mem regit live ≡ true
      → (Indexed.get regit t.regions).id ≡ reg
      → HasServices live (put_service t regit reg svc)
  unfolding put_service
  put_service-HasServices regit reg svc r d =
      elim (Option-cases (Map.find str_dec svc.name t.services_index)) [
        | inl e ↦ rw (e, put_service) (link_first regit svc r e)
        | inr (l, e) ↦ put_found regit reg svc l r d e
      ]
