-- ===== src/BusWorker/Grouping.antt =====
-- The groups that a message's routes fall into: src/busbroker/busworker.cxx.
use ris.Base.{
  not, ◌&&◌, map, ◌≡◌, ◌≢◌, refl, sym, ◌∙◌, ap, String, false, Option, none, some, List, [], ◌∷◌,
  ◌++◌, is_empty, ite, append-nil, append_assoc, ◌==◌, length, length-append, if◌then◌else◌, subst,
  arith, Option-cases, Bool-cases, inl, inr,
}
use ris.RiTypes.EndPoint.{EndPoint, ep_dec}
use ris.Containers.Map
use ris.Containers.Map.Entries.{
  Distinct, insert-Distinct, assign-Distinct, Every, insert-Every, assign-Every,
}
use ris.TrackerSession.{RouteInfo}
use ris.BusWorker.{
  deliver, failed, Sent, Header, do_work, send_back, deliver_all, Routes, push_route, merge_routes,
}

-- The targets that were routed to an end point, in the order of the routes.
unfoldable pub targets_at : EndPoint → List RouteInfo → List String
targets_at ep [] = []
targets_at ep (r ∷ rs) =
    let rest = targets_at ep rs in
    if is_empty r.endpoint.address then rest else ite (ep_dec r.endpoint ep) (r.target ∷ rest) rest

-- The targets without a route.
unfoldable pub unrouted : List RouteInfo → List String
unrouted [] = []
unrouted (r ∷ rs) =
    let rest = unrouted rs in if is_empty r.endpoint.address then r.target ∷ rest else rest

-- A group, or none if it has no target.
unfoldable pub grouped : Option (List String) → List String
grouped none = []
grouped (some targets) = targets

push_route-grouped :
    (e ep : EndPoint) (t : String) (m : Routes)
    → grouped (Map.find ep_dec ep (push_route e t m))
      ≡ ite
          (ep_dec e ep)
          (grouped (Map.find ep_dec ep m) ++ t ∷ [])
          (grouped (Map.find ep_dec ep m))
unfolding push_route grouped
push_route-grouped e ep t m = elim (Option-cases (Map.find ep_dec e m)) [
  | inl f ↦ rw (f, push_route, Map.find-insert ep_dec e ep (t ∷ []) m f) (new_group (ep_dec e ep) f)
  | inr (ts, f) ↦
      rw (f, push_route, Map.find-assign ep_dec e ep (ts ++ t ∷ []) m) (old_group (ep_dec e ep) f)
]
  where
    new_group :
        (d : Dec (e ≡ ep))
        → Map.find ep_dec e m ≡ none
        → grouped (ite d (some (t ∷ [])) (Map.find ep_dec ep m))
          ≡ ite d (grouped (Map.find ep_dec ep m) ++ t ∷ []) (grouped (Map.find ep_dec ep m))
    new_group (yes h) f =
        ap (λ o. grouped o ++ t ∷ []) (sym (subst (λ x. Map.find ep_dec x m ≡ none) h f))
    new_group (no h) f = refl

    old_group :
        {ts : List String} (d : Dec (e ≡ ep))
        → Map.find ep_dec e m ≡ some ts
        → grouped (ite d (some (ts ++ t ∷ [])) (Map.find ep_dec ep m))
          ≡ ite d (grouped (Map.find ep_dec ep m) ++ t ∷ []) (grouped (Map.find ep_dec ep m))
    old_group {ts = ts} (yes h) f =
        ap (λ o. grouped o ++ t ∷ []) (sym (subst (λ x. Map.find ep_dec x m ≡ some ts) h f))
    old_group (no h) f = refl

push_route-Distinct :
    (e : EndPoint) (t : String) (m : Routes)
    → Distinct ep_dec m
    → Distinct ep_dec (push_route e t m)
unfolding push_route
push_route-Distinct e t m d = elim (Option-cases (Map.find ep_dec e m)) [
  | inl f ↦ rw (f, push_route) (insert-Distinct ep_dec e (t ∷ []) m d)
  | inr (ts, f) ↦ rw (f, push_route) (assign-Distinct ep_dec e (ts ++ t ∷ []) m d)
]

-- Every group has a target.
abbrev pub AllTargeted : Routes → Type 0
AllTargeted m = Every ep_dec (λ ts. length ts ≢ 0) m

push_route-AllTargeted :
    (e : EndPoint) (t : String) (m : Routes) → AllTargeted m → AllTargeted (push_route e t m)
unfolding push_route
push_route-AllTargeted e t m d = elim (Option-cases (Map.find ep_dec e m)) [
  | inl f ↦ rw (f, push_route) (insert-Every ep_dec _ e (t ∷ []) m (omega arith) d)
  | inr (ts, f) ↦
      rw (f, push_route)
        (assign-Every ep_dec _ e (ts ++ t ∷ []) m (omega (arith, length-append ts (t ∷ []))) d)
]

-- The groups after the routes: those before, with the targets of each end point added.
record IsMerged (m : Routes) (unfounds : List String) (rs : List RouteInfo) : Type 0 where
  distinct : Distinct ep_dec (merge_routes m unfounds rs).0
  targeted : AllTargeted (merge_routes m unfounds rs).0
  groups :
      (ep : EndPoint)
      → grouped (Map.find ep_dec ep (merge_routes m unfounds rs).0)
        ≡ grouped (Map.find ep_dec ep m) ++ targets_at ep rs
  rest : (merge_routes m unfounds rs).1 ≡ unfounds ++ unrouted rs

snoc_either :
    {P : Type 0} (d : Dec P) (g : List String) (t : String) (rest : List String)
    → ite d (g ++ t ∷ []) g ++ rest ≡ g ++ ite d (t ∷ rest) rest
snoc_either (yes h) g t rest = append_assoc g (t ∷ []) rest
snoc_either (no h) g t rest = refl

merge_routes-IsMerged :
    (m : Routes) (unfounds : List String) (rs : List RouteInfo)
    → Distinct ep_dec m
    → AllTargeted m
    → IsMerged m unfounds rs
unfolding merge_routes targets_at unrouted
merge_routes-IsMerged m unfounds [] d a = record {
  distinct = d;
  targeted = a;
  groups = λ ep. sym (append-nil _);
  rest = sym (append-nil _);
}
merge_routes-IsMerged m unfounds (r ∷ rs) d a = elim (Bool-cases (is_empty r.endpoint.address)) [
  | inl e ↦
      let ih = merge_routes-IsMerged m (unfounds ++ r.target ∷ []) rs d a in
      record {
        distinct = rw (e, merge_routes) ih.distinct;
        targeted = rw (e, merge_routes) ih.targeted;
        groups = λ ep. rw (e, merge_routes) (ih.groups ep);
        rest = rw (e, merge_routes) (ih.rest ∙ append_assoc unfounds (r.target ∷ []) (unrouted rs));
      }
  | inr e ↦
      let ih =
        merge_routes-IsMerged (push_route r.endpoint r.target m) unfounds rs
          (push_route-Distinct r.endpoint r.target m d)
          (push_route-AllTargeted r.endpoint r.target m a) in
      record {
        distinct = rw (e, merge_routes) ih.distinct;
        targeted = rw (e, merge_routes) ih.targeted;
        groups = λ ep.
            rw (e, merge_routes)
              (ih.groups ep
                ∙ ap (λ g. g ++ targets_at ep rs) (push_route-grouped r.endpoint ep r.target m)
                ∙ snoc_either (ep_dec r.endpoint ep) _ r.target (targets_at ep rs));
        rest = rw (e, merge_routes) ih.rest;
      }
]

module _ {E D : Type 0} (envelope : E) where
  -- The report of the payloads without a route.
  unfoldable pub report : Header → List String → List (Sent E D)
  report header unfounds =
      if header.failure && not (length unfounds == 0)
      then failed envelope header.msg_id unfounds ∷ []
      else []

  send_back-report :
      (header : Header) (unfounds : List String)
      → send_back {E = E} {D = D} envelope header unfounds ≡ report header unfounds
  unfolding send_back report
  send_back-report header [] = ground arith
  send_back-report header (p ∷ ps) = ground arith

  deliver_all-map :
      (content : D) (m : Routes)
      → deliver_all envelope content m ≡ map (λ g. deliver g.0.identity envelope content) m
  unfolding deliver_all
  deliver_all-map content [] = refl
  deliver_all-map content ((ep, ts) ∷ m) =
      ap (λ l. deliver ep.identity envelope content ∷ l) (deliver_all-map content m)

-- A message with an id and at least one payload, whose parts are all received, is sent once for each
-- entry of the worker's map of routes, to the identity of its end point, behind one report of the
-- payloads without a route, if the sender asks for it and there are some. In that map no end point
-- stands twice, no entry is empty, and the entry of an end point holds exactly the payloads that the
-- tracker routes there, in its order; an end point without an entry is one that nothing is routed to.
-- The entries themselves are not sent.
pub do_work-groups :
    {E D : Type 0} (tracker : List String → List RouteInfo) (envelope : E) (header : Header)
    (content : D)
    → header.msg_id ≢ 0
    → length header.payloads ≢ 0
    → let routes = tracker header.payloads in
      let m = (merge_routes [] [] routes).0 in
      (do_work tracker (some envelope) (some header) (some content)
        ≡ report envelope header (unrouted routes)
          ++ map (λ g. deliver g.0.identity envelope content) m)
      × Distinct ep_dec m
      × AllTargeted m
      × ((ep : EndPoint) → grouped (Map.find ep_dec ep m) ≡ targets_at ep routes)
unfolding do_work Map.find grouped
do_work-groups {D = D} tracker envelope header content z n =
    let routes = tracker header.payloads in
    let v = merge_routes-IsMerged [] [] routes tt tt in
    let h : (header.msg_id == 0) ≡ false = ground arith in
    let k : (length header.payloads == 0) ≡ false = ground arith in
    (
      rw (h, k)
          (rw
            (
              v.rest,
              send_back-report {D = D} envelope header (unrouted routes),
              deliver_all-map envelope content (merge_routes [] [] routes).0,
            )
            refl),
      v.distinct,
      v.targeted,
      v.groups,
    )
