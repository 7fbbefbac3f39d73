-- ===== src/TrackerTable/Invariant/Routing.antt =====
-- The routes that the tracker's table gives: `robinRouteService` and `routePayload`.
use ris.Base.{
  ℕ, ◌≡◌, refl, sym, ◌∙◌, ◌≢◌, String, some, none, List, [], ◌∷◌, true, false, arith, ap, str_dec,
  subst, ◌⊎◌, Option-cases, inl, inr,
}
use ris.Containers.NodeList.{mem, mem-append, mem_last, Distinct, Distinct-last}
use ris.Containers.Map
use ris.Containers.Indexed
use ris.TrackerTable.{TrackerTable, deref}
use ris.TrackerTable.Reads.{robin_route_service, route_payload, rotate}
use ris.TrackerTable.Invariant.{IsValid, IsEntry, HasServices, name_at}

mem-rotate : (i : ℕ) (l : List ℕ) → mem i (rotate l) ≡ mem i l
unfolding rotate mem
mem-rotate i [] = refl
mem-rotate i (j ∷ l) = ground (arith, mem-append i l (j ∷ []), mem_last j i)

rotate-Distinct : (l : List ℕ) → Distinct l → Distinct (rotate l)
unfolding rotate
rotate-Distinct [] d = tt
rotate-Distinct (i ∷ l) (n, d) = Distinct-last i l d n

rotate_nil : (l : List ℕ) → rotate l ≡ [] → l ≡ []
unfolding rotate mem
rotate_nil [] e = refl
rotate_nil (i ∷ l) e =
    let h = mem-rotate i (i ∷ l) in
    let k : mem i (rotate (i ∷ l)) ≡ false = ap (mem i) e in ground arith

module _ (live : List ℕ) (t : TrackerTable) (v : HasServices live t) (svc : String) (l : List ℕ)
    (e : Map.find str_dec svc t.services_index ≡ some l) where
  turned : TrackerTable
  turned = record t { services_index = Map.assign str_dec svc (rotate l) t.services_index }

  turned_find :
      (n : String)
      → ((svc ≡ n) × (Map.find str_dec n turned.services_index ≡ some (rotate l)))
        ⊎ ((svc ≢ n)
            × (Map.find str_dec n turned.services_index ≡ Map.find str_dec n t.services_index))
  unfolding turned
  turned_find n = elim (str_dec svc n) [
    | yes q ↦ inl (q, ground (arith, Map.find-assign str_dec svc n (rotate l) t.services_index))
    | no q ↦ inr (q, ground (arith, Map.find-assign str_dec svc n (rotate l) t.services_index))
  ]

  listed_turned :
      (i : ℕ)
      → mem i t.services.order ≡ true
      → (k : List ℕ) × (Map.find str_dec (name_at t i) turned.services_index ≡ some k)
        × (mem i k ≡ true)
  listed_turned i m =
      let (k, f, h) = v.listed i m in
      elim (turned_find (name_at t i)) [
        | inl (q, g) ↦ (
          rotate l,
          g,
          ground (arith, mem-rotate i l, ap (λ n. Map.find str_dec n t.services_index) q),
        )
        | inr (q, g) ↦ (k, g ∙ f, h)
      ]

  entry_turned : IsEntry turned svc (rotate l)
  unfolding turned
  entry_turned =
      let y = v.entries svc l e in
      record {
        some_node = λ q. y.some_node (rotate_nil l q);
        distinct = rotate-Distinct l y.distinct;
        nodes = λ i m. y.nodes i (sym (mem-rotate i l) ∙ m);
      }

  turned_entry : (n : String) (k : List ℕ) → IsEntry t n k → IsEntry turned n k
  unfolding turned
  turned_entry n k y = record { some_node = y.some_node; distinct = y.distinct; nodes = y.nodes }

  turned-HasServices : HasServices live turned
  unfolding turned
  turned-HasServices = record {
    linked = v.linked;
    owned = v.owned;
    listed = listed_turned;
    entries = λ n k f. elim (turned_find n) [
      | inl (q, g) ↦
          let h : rotate l ≡ k = ground arith in
          subst (λ k. IsEntry turned n k) h
            (subst (λ n. IsEntry turned n (rotate l)) q entry_turned)
      | inr (q, g) ↦ turned_entry n k (v.entries n k (sym g ∙ f))
    ];
    single = v.single;
  }

  turned_table :
      HasServices live
        (record t { services_index = Map.assign str_dec svc (rotate l) t.services_index })
  unfolding turned
  turned_table = turned-HasServices

-- A service route leaves a valid table valid.
pub robin_route_service-IsValid :
    (t : TrackerTable) (svc : String) → IsValid t → IsValid (robin_route_service t svc).0
unfolding robin_route_service
robin_route_service-IsValid t svc v = elim (Option-cases (Map.find str_dec svc t.services_index)) [
  | inl e ↦ rw (e, robin_route_service) v
  | inr (l, e) ↦
      rw (e, robin_route_service)
        (record {
          regions = v.regions;
          services = turned_table t.regions.list.order t v.services svc l e;
          payloads = record { coherent = v.payloads.coherent; every = v.payloads.every };
        })
]

-- On a valid table `routePayload` reads no null pointer: it gives the bus of a registered region
-- for a payload of the table, and nothing for any other payload.
pub route_payload_lem :
    (t : TrackerTable) (id : String)
    → IsValid t
    → ((Indexed.find str_dec id t.payloads ≡ none) × (route_payload t id ≡ some none))
      ⊎ ((it p : ℕ) × (Indexed.find str_dec id t.payloads ≡ some it)
          × ((Indexed.get it t.payloads).region ≡ some p)
          × (mem p t.regions.list.order ≡ true)
          × (route_payload t id ≡ some (some (Indexed.get p t.regions).bus)))
unfolding route_payload deref
route_payload_lem t id v = elim (Option-cases (Indexed.find str_dec id t.payloads)) [
  | inl e ↦ inl (e, rw (e, route_payload) refl)
  | inr (it, e) ↦
      let (p, f, m) = v.payloads.every it (v.payloads.coherent.sound id it e).0 in
      inr (it, p, e, f, m, rw (e, route_payload, f) refl)
]
