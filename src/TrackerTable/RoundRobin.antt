-- ===== src/TrackerTable/RoundRobin.antt =====
-- `robinRouteService` gives the providers of a service their turns: src/tracker/trackertable.cxx.
use ris.Base.{
  ℕ, zero, suc, ◌≡◌, refl, sym, ◌∙◌, ap, String, Option, some, List, [], ◌∷◌, ◌++◌, map, arith,
  str_dec, length, append-nil, append_assoc,
}
use ris.RiTypes.EndPoint.{EndPoint}
use ris.Containers.Map
use ris.TrackerTable.{TrackerTable}
use ris.TrackerTable.Reads.{robin_route_service, rotate, front}

-- A number of routes of one service, one after another, and the answers in order.
unfoldable pub route_times : ℕ → TrackerTable → String → TrackerTable × List (Option EndPoint)
route_times zero t svc = (t, [])
route_times (suc n) t svc =
    let now = robin_route_service t svc in
    let rest = route_times n now.0 svc in (rest.0, now.1 ∷ rest.1)

abbrev pub provider : TrackerTable → ℕ → Option EndPoint
provider t i = some (t.services.cell i).service.endpoint

-- One route: the first provider answers and goes last.
route_once :
    (t : TrackerTable) (svc : String) (i : ℕ) (l : List ℕ)
    → Map.find str_dec svc t.services_index ≡ some (i ∷ l)
    → (robin_route_service t svc ≡ (
      record t { services_index = Map.assign str_dec svc (l ++ i ∷ []) t.services_index },
      provider t i,
    ))
unfolding robin_route_service rotate front
route_once t svc i l e = rw (e, robin_route_service) refl

-- The routes through the first part of the list leave it behind the second part.
route_through :
    (xs ys : List ℕ) (t : TrackerTable) (svc : String)
    → Map.find str_dec svc t.services_index ≡ some (xs ++ ys)
    → ((route_times (length xs) t svc).1 ≡ map (provider t) xs)
      × (Map.find str_dec svc (route_times (length xs) t svc).0.services_index ≡ some (ys ++ xs))
unfolding route_times
route_through [] ys t svc e = (refl, e ∙ ap some (sym (append-nil ys)))
route_through (i ∷ xs) ys t svc e =
    let o = route_once t svc i (xs ++ ys) e in
    let u : TrackerTable = record t {
      services_index = Map.assign str_dec svc ((xs ++ ys) ++ i ∷ []) t.services_index;
    } in
    let f : Map.find str_dec svc u.services_index ≡ some (xs ++ (ys ++ i ∷ [])) = ground (
      arith,
      Map.find-assign str_dec svc svc ((xs ++ ys) ++ i ∷ []) t.services_index,
      append_assoc xs ys (i ∷ []),
    ) in
    let (a, b) = route_through xs (ys ++ i ∷ []) u svc f in
    (
      rw (o, route_times) (ap (λ k. provider t i ∷ k) a),
      rw (o, route_times) (b ∙ ap some (append_assoc ys (i ∷ []) xs)),
    )

-- As many routes of a service as it has providers: they answer each with its own endpoint, in the
-- order of the entry, and the entry is then in its old order.
pub route_times_lem :
    (t : TrackerTable) (svc : String) (l : List ℕ)
    → Map.find str_dec svc t.services_index ≡ some l
    → ((route_times (length l) t svc).1 ≡ map (provider t) l)
      × (Map.find str_dec svc (route_times (length l) t svc).0.services_index ≡ some l)
route_times_lem t svc l e = route_through l [] t svc (e ∙ ap some (sym (append-nil l)))
