-- ===== src/RegionTable/Mirror.antt =====
-- The observer follows the table through its updates and its repeated publications: src/region/
-- regiontable.cxx and src/tracker/regionproduct.cxx.
use ris.Base.{
  ℕ, ◌≡◌, ◌≢◌, refl, sym, ◌∙◌, ap, subst, Bool, true, false, Option, some, List, [], ◌∷◌, ◌++◌, map,
  not, if◌then◌else◌, ◌*◌, All,
}
use ris.Words.{u64}
use ris.Observer.{Event, on_service, on_payload}
use ris.RiTypes.Service.{Service}
use ris.RiTypes.Payload.{Payload}
use ris.RegionProduct
use ris.RegionProduct.{RegionProduct}
use ris.RegionProduct.Catalogue
use ris.RegionProduct.Catalogue.{Catalogue, heard, renew, service_key, payload_key, view}
use ris.RegionProduct.Refinement.{handle-heard}
use ris.RegionTable
use ris.RegionTable.{RegionTable}
use ris.RegionTable.Refresh.Renewal.{renew_all, update_timeouted-renews}
use ris.RegionTable.Steps.{
  Call, adds_service, rms_service, adds_payload, rms_payload, starts, stops, pubs_repeated,
  pubs_region, step, run,
}
use ris.RegionTable.Invariant.{
  IsValid, add_service-IsValid, rm_service-IsValid, add_payload-IsValid, rm_payload-IsValid,
  service_stamp_good, payload_stamp_good, payload_quota_defined, update_timeouted_service-IsValid,
  update_timeouted_payload-IsValid,
}
use ris.RegionTable.Updates.{
  shown, hear_all, Follows, ite_self, add_service-Follows, rm_service-Follows, add_payload-Follows,
  rm_payload-Follows, pub_region-Follows, add_service-observed, rm_service-observed,
  add_payload-observed, rm_payload-observed,
}

pub hear_all-append :
    (c : Catalogue) (xs ys : List Event) → hear_all c (xs ++ ys) ≡ hear_all (hear_all c xs) ys
unfolding hear_all
hear_all-append c [] ys = refl
hear_all-append c (x ∷ xs) ys = hear_all-append (heard c x) xs ys

hear_services :
    (c : Catalogue) (svcs : List Service)
    → hear_all c (map (on_service c.region.id c.region.version) svcs)
      ≡ record c { services = renew_all service_key c.services svcs }
unfolding hear_all heard renew_all
hear_services c [] = refl
hear_services c (s ∷ svcs) =
    ap (λ d. hear_all d (map (on_service c.region.id c.region.version) svcs))
      (ite_self c.region.id _ c)
    ∙ hear_services (record c { services = renew service_key s c.services }) svcs

hear_payloads :
    (c : Catalogue) (pls : List Payload)
    → hear_all c (map (on_payload c.region.id c.region.version) pls)
      ≡ record c { payloads = renew_all payload_key c.payloads pls }
unfolding hear_all heard renew_all
hear_payloads c [] = refl
hear_payloads c (p ∷ pls) =
    ap (λ d. hear_all d (map (on_payload c.region.id c.region.version) pls))
      (ite_self c.region.id _ c)
    ∙ hear_payloads (record c { payloads = renew payload_key p c.payloads }) pls

service_refresh :
    (now timeout n : ℕ) (t : RegionTable)
    → now ≢ 0
    → IsValid t
    → shown (RegionTable.update_timeouted_service now t timeout n).0 ≡ record (shown t) {
      services =
          renew_all service_key
            (shown t).services
            (RegionTable.update_timeouted_service now t timeout n).1;
    }
unfolding RegionTable.update_timeouted_service
service_refresh now timeout n t z v =
    ap (λ l. record (shown t) { services = l })
      (update_timeouted-renews service_key _ _ _ now (λ s. refl) (service_stamp_good now z) timeout
        n t.services v.services)

payload_refresh :
    (now timeout n : ℕ) (t : RegionTable)
    → IsValid t
    → shown (RegionTable.update_timeouted_payload now t timeout n).0 ≡ record (shown t) {
      payloads =
          renew_all payload_key
            (shown t).payloads
            (RegionTable.update_timeouted_payload now t timeout n).1;
    }
unfolding RegionTable.update_timeouted_payload
payload_refresh now timeout n t v =
    ap (λ l. record (shown t) { payloads = l })
      (update_timeouted-renews payload_key _ _ _ now (λ s. refl) (payload_stamp_good now) timeout n
        t.payloads v.payloads)

-- A call from `t` returns, and the observer follows the table to where it ends.
abbrev pub Tracks : RegionTable → Option (RegionTable × List Event) → Type 0
Tracks t r =
    (u : RegionTable) × (es : List Event) × (r ≡ some (u, es))
    × IsValid u
    × (u.observed ≡ true)
    × Follows t u es

observed_kept :
    (now later a b n m : ℕ) (t : RegionTable)
    → (RegionTable.update_timeouted_payload later
        (RegionTable.update_timeouted_service now t a n).0
        b
        m).0.observed
      ≡ t.observed
unfolding RegionTable.update_timeouted_payload RegionTable.update_timeouted_service
observed_kept now later a b n m t = refl

region_kept :
    (now a n : ℕ) (t : RegionTable)
    → (RegionTable.update_timeouted_service now t a n).0.region ≡ t.region
unfolding RegionTable.update_timeouted_service
region_kept now a n t = refl

refresh-Follows :
    (now later a b n m : ℕ) (t : RegionTable)
    → now ≢ 0
    → IsValid t
    → let first : RegionTable × List Service = RegionTable.update_timeouted_service now t a n in
      let last : RegionTable × List Payload =
        RegionTable.update_timeouted_payload later first.0 b m in
      Follows t last.0 (
        map (on_service t.region.id t.region.version) first.1
        ++ map (on_payload t.region.id t.region.version) last.1)
unfolding RegionTable.update_timeouted_service
refresh-Follows now later a b n m t z v =
    let first = RegionTable.update_timeouted_service now t a n in
    let last = RegionTable.update_timeouted_payload later first.0 b m in
    let evs = map (on_payload t.region.id t.region.version) last.1 in
    hear_all-append (shown t) (map (on_service t.region.id t.region.version) first.1) evs
    ∙ ap (λ c. hear_all c evs)
        (hear_services (shown t) first.1 ∙ sym (service_refresh now a n t z v))
    ∙ hear_payloads (shown first.0) last.1
    ∙ sym (payload_refresh later b m first.0 (update_timeouted_service-IsValid now a n t z v))

repeat-Tracks :
    (now later : ℕ) (t : RegionTable)
    → now ≢ 0
    → t.observed ≡ true
    → IsValid t
    → Tracks t (RegionTable.repeat (now, later) t)
unfolding RegionTable.repeat
repeat-Tracks now later t z o v =
    let a = u64 (t.sec_repub_service * 1000) in
    let b = u64 (t.sec_repub_payload * 1000) in
    let w = update_timeouted_service-IsValid now a 100 t z v in
    let (n, q) = payload_quota_defined _ w in
    rw q (
      _,
      _,
      refl,
      update_timeouted_payload-IsValid later b n _ w,
      observed_kept now later a b 100 n t ∙ o,
      refresh-Follows now later a b 100 n t z v,
    )

observed_branch : {A : Type 0} (b : Bool) (x y : A) → b ≡ true → (if not b then x else y) ≡ y
observed_branch true x y e = refl
observed_branch false x y e = cc

pub_repeated-Tracks :
    (times : ℕ × ℕ) (t : RegionTable)
    → times.0 ≢ 0
    → t.observed ≡ true
    → IsValid t
    → Tracks t (RegionTable.pub_repeated times t)
unfolding RegionTable.pub_repeated
pub_repeated-Tracks times t z o v =
    subst (Tracks t) (sym (observed_branch t.observed _ _ o))
      (repeat-Tracks times.0 times.1 t z o v)

-- A call that updates or republishes the table, at a clock that does not read zero.
abbrev pub IsUpdate : Call → Type 0
IsUpdate (starts ob reg rep) = ⊥
IsUpdate stops = ⊥
IsUpdate (pubs_repeated times) = times.0 ≢ 0
IsUpdate (adds_service svc) = Unit {0}
IsUpdate (rms_service svc) = Unit {0}
IsUpdate (adds_payload pl) = Unit {0}
IsUpdate (rms_payload pl) = Unit {0}
IsUpdate pubs_region = Unit {0}

step-Tracks :
    (t : RegionTable) (c : Call) → IsUpdate c → t.observed ≡ true → IsValid t → Tracks t (step t c)
unfolding step
step-Tracks t (adds_service svc) z o v = (
  _,
  _,
  refl,
  add_service-IsValid t svc v,
  add_service-observed t svc ∙ o,
  add_service-Follows t o v svc,
)
step-Tracks t (rms_service svc) z o v = (
  _,
  _,
  refl,
  rm_service-IsValid t svc v,
  rm_service-observed t svc ∙ o,
  rm_service-Follows t o v svc,
)
step-Tracks t (adds_payload pl) z o v = (
  _,
  _,
  refl,
  add_payload-IsValid t pl v,
  add_payload-observed t pl ∙ o,
  add_payload-Follows t o v pl,
)
step-Tracks t (rms_payload pl) z o v = (
  _,
  _,
  refl,
  rm_payload-IsValid t pl v,
  rm_payload-observed t pl ∙ o,
  rm_payload-Follows t o v pl,
)
step-Tracks t (starts ob reg rep) z o v = absurd z
step-Tracks t stops z o v = absurd z
step-Tracks t (pubs_repeated times) z o v = pub_repeated-Tracks times t z o v
step-Tracks t pubs_region z o v = (_, _, refl, v, o, pub_region-Follows t o v)

run-Tracks :
    (t : RegionTable) (cs : List Call)
    → All IsUpdate cs
    → t.observed ≡ true
    → IsValid t
    → Tracks t (run t cs)
unfolding run hear_all
run-Tracks t [] z o v = (t, [], refl, v, o, refl)
run-Tracks t (c ∷ cs) z o v =
    let (t1, es, e, v1, o1, f1) = step-Tracks t c z.0 o v in
    let (t2, fs, g, v2, o2, f2) = run-Tracks t1 cs z.1 o1 v1 in
    (
      t2,
      es ++ fs,
      rw (e, g) refl,
      v2,
      o2,
      hear_all-append (shown t) es fs ∙ ap (λ c. hear_all c fs) f1 ∙ f2,
    )

-- The calls that a product hears, one after another.
unfoldable pub handle_all : RegionProduct → List Event → RegionProduct
handle_all p [] = p
handle_all p (e ∷ es) = handle_all (RegionProduct.handle p e) es

pub handle_all-hear_all :
    (p : RegionProduct) (es : List Event)
    → Catalogue.IsValid p
    → Catalogue.IsValid (handle_all p es) × (view (handle_all p es) ≡ hear_all (view p) es)
unfolding handle_all hear_all
handle_all-hear_all p [] v = (v, refl)
handle_all-hear_all p (e ∷ es) v =
    let (w, h) = handle-heard p e v in
    let (x, k) = handle_all-hear_all (RegionProduct.handle p e) es w in
    (x, k ∙ ap (λ c. hear_all c es) h)

-- A region with an observer makes any sequence of additions, removals, publications of itself and
-- repeated publications (at clocks that do not read zero), and a product that shows what the
-- region's table holds hears the calls. All of this runs with no failed `CHECK` and no division by
-- zero, and the product then shows what the table holds: the region with its version, and the
-- services and the payloads in the same order.
pub product_mirrors_run :
    (t : RegionTable) (cs : List Call) (p : RegionProduct)
    → All IsUpdate cs
    → t.observed ≡ true
    → IsValid t
    → Catalogue.IsValid p
    → view p ≡ shown t
    → (u : RegionTable) × (es : List Event) × (run t cs ≡ some (u, es))
      × (view (handle_all p es) ≡ shown u)
product_mirrors_run t cs p z o v w h =
    let (u, es, e, x, y, f) = run-Tracks t cs z o v in
    (u, es, e, (handle_all-hear_all p es w).1 ∙ ap (λ c. hear_all c es) h ∙ f)
