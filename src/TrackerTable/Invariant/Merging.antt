-- ===== src/TrackerTable/Invariant/Merging.antt =====
-- `merge` keeps the tracker's table valid, whatever the reader's lists hold.
use ris.Base.{
  ℕ, ◌≡◌, refl, ◌∙◌, String, some, none, List, [], ◌∷◌, true, arith, ap, str_dec, Option-cases, inl,
  inr,
}
use ris.Containers.NodeList
use ris.Containers.NodeList.{mem, mem-append, mem_last}
use ris.Containers.Map
use ris.Containers.Indexed
use ris.Containers.Indexed.{append-IsCoherent}
use ris.RiTypes.Region.{Region}
use ris.RiTypes.Service.{Service}
use ris.RiTypes.Payload.{Payload}
use ris.TrackerTable.{TrackerTable}
use ris.TrackerTable.Services.{put_service}
use ris.TrackerTable.Payloads.{put_payload}
use ris.TrackerTable.Regions.{merge, put_services, put_payloads}
use ris.TrackerTable.Invariant.{IsValid}
use ris.TrackerTable.Invariant.Operations.{
  regions_with, put_service-IsValid, put_service-keeps, put_payload-IsValid, put_payload-keeps,
}

put_services-IsValid :
    (t : TrackerTable) (regit : ℕ) (reg : String) (svcs : List Service)
    → Indexed.find str_dec reg t.regions ≡ some regit
    → IsValid t
    → IsValid (put_services t regit reg svcs)
      × ((put_services t regit reg svcs).regions ≡ t.regions)
unfolding put_services
put_services-IsValid t regit reg [] e v = (v, refl)
put_services-IsValid t regit reg (svc ∷ svcs) e v =
    let k = (put_service-keeps t regit reg svc).0 in
    let (w, s) =
      put_services-IsValid (put_service t regit reg svc) regit reg svcs
        (ap (Indexed.find str_dec reg) k ∙ e) (put_service-IsValid t regit reg svc e v) in
    (w, s ∙ k)

put_payloads-IsValid :
    (t : TrackerTable) (regit : ℕ) (pls : List Payload)
    → mem regit t.regions.list.order ≡ true
    → IsValid t
    → IsValid (put_payloads t regit pls)
unfolding put_payloads
put_payloads-IsValid t regit [] m v = v
put_payloads-IsValid t regit (pl ∷ pls) m v =
    put_payloads-IsValid (put_payload t regit pl) regit pls
      (ap (λ r. mem regit r.list.order) (put_payload-keeps t regit pl).0 ∙ m)
      (put_payload-IsValid t regit pl m v)

find_appended :
    (r : Region) (rs : Indexed.Indexed String Region)
    → Indexed.find str_dec r.id rs ≡ none
    → Indexed.find str_dec r.id (Indexed.append str_dec r.id r rs) ≡ some rs.list.next
unfolding Indexed.find Indexed.append
find_appended r rs e = ground (arith, Map.find-insert str_dec r.id r.id rs.list.next rs.index e)

mem_kept :
    (r : Region) (rs : Indexed.Indexed String Region) (p : ℕ)
    → mem p rs.list.order ≡ true
    → mem p (Indexed.append str_dec r.id r rs).list.order ≡ true
unfolding Indexed.append NodeList.push_back
mem_kept r rs p m = ground (arith, mem-append p rs.list.order (rs.list.next ∷ []))

-- A merge of any region with any services and payloads leaves a valid table valid.
pub merge-IsValid :
    (t : TrackerTable) (r : Region) (svcs : List Service) (pls : List Payload)
    → IsValid t
    → IsValid (merge t r svcs pls).0
unfolding merge
merge-IsValid t r svcs pls v = elim (Option-cases (Indexed.find str_dec r.id t.regions)) [
  | inr (it, e) ↦ rw (e, merge) v
  | inl e ↦
      let rs = Indexed.append str_dec r.id r t.regions in
      let t1 : TrackerTable = record t { regions = rs } in
      let f = find_appended r t.regions e in
      let v1 =
        regions_with t rs (append-IsCoherent str_dec (λ r. r.id) r t.regions e v.regions)
          (mem_kept r t.regions) v in
      let (w, s) = put_services-IsValid t1 t.regions.list.next r.id svcs f v1 in
      rw (e, merge)
        (put_payloads-IsValid _ _ pls
          (w.regions.sound r.id _ (ap (Indexed.find str_dec r.id) s ∙ f)).0 w)
]
