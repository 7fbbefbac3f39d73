-- ===== src/TrackerTable/Invariant/Expiry.antt =====
-- `onCheckTimer` on a valid table: no `CHECK` fails and no null pointer is read.
use ris.Base.{
  ℕ, zero, suc, ◌≡◌, refl, Option, some, List, [], ◌∷◌, true, arith, ◌∙◌, Option-cases, Bool-cases,
  inl, inr,
}
use ris.Containers.NodeList.{mem}
use ris.Containers.Indexed
use ris.TrackerTable.{TrackerTable, deref}
use ris.TrackerTable.Services.{do_rm_service}
use ris.TrackerTable.Payloads.{do_rm_payload}
use ris.TrackerTable.Regions.{do_rm_region}
use ris.TrackerTable.Timer.{
  expire_regions, expire_services, expire_payloads, on_check_timer, expired, head,
}
use ris.TrackerTable.Invariant.{IsValid, region_at}
use ris.TrackerTable.Invariant.RegionPayloads.{owner_at}
use ris.TrackerTable.Invariant.Operations.{do_rm_service-IsValid, do_rm_payload-IsValid}
use ris.TrackerTable.Invariant.Removal.{do_rm_region-Removed}

head-mem : (l : List ℕ) (i : ℕ) → head l ≡ some i → mem i l ≡ true
unfolding head mem
head-mem [] i e = cc
head-mem (j ∷ l) i e = ground arith

-- A result that is there and valid.
abbrev pub Sound : Option TrackerTable → Type 0
Sound r = (u : TrackerTable) × (r ≡ some u) × IsValid u

region_goes :
    (limits now p : ℕ) (t u : TrackerTable)
    → head t.regions.list.order ≡ some p
    → expired (Indexed.get p t.regions).timeval 30000 now ≡ true
    → do_rm_region t (Indexed.get p t.regions).id ≡ some u
    → expire_regions (suc limits) now t ≡ expire_regions limits now u
unfolding expire_regions
region_goes limits now p t u e b g = rw (e, expire_regions, b, g) refl

service_goes :
    (limits now i p : ℕ) (t : TrackerTable)
    → head t.services.order ≡ some i
    → expired (t.services.cell i).service.timeval 125000 now ≡ true
    → region_at t i ≡ some p
    → expire_services (suc limits) now t
      ≡ expire_services limits now
          (do_rm_service t (Indexed.get p t.regions).id (t.services.cell i).service.name)
unfolding expire_services deref
service_goes limits now i p t e b f = rw (e, expire_services, b, f) refl

payload_goes :
    (limits now i p : ℕ) (t : TrackerTable)
    → head t.payloads.list.order ≡ some i
    → expired (Indexed.get i t.payloads).payload.timeval 125000 now ≡ true
    → owner_at t i ≡ some p
    → expire_payloads (suc limits) now t
      ≡ expire_payloads limits now
          (do_rm_payload t (Indexed.get p t.regions).id (Indexed.get i t.payloads).payload.id)
unfolding expire_payloads deref
payload_goes limits now i p t e b f = rw (e, expire_payloads, b, f) refl

expire_regions-IsValid :
    (limits now : ℕ) (t : TrackerTable) → IsValid t → Sound (expire_regions limits now t)
unfolding expire_regions
expire_regions-IsValid zero now t v = (t, refl, v)
expire_regions-IsValid (suc limits) now t v = elim (Option-cases (head t.regions.list.order)) [
  | inl e ↦ (t, rw (e, expire_regions) refl, v)
  | inr (p, e) ↦
      let id = (Indexed.get p t.regions).id in
      elim (Bool-cases (expired (Indexed.get p t.regions).timeval 30000 now)) [
        | inl b ↦
            let f = v.regions.complete p (head-mem t.regions.list.order p e) in
            let (u, g, r) = do_rm_region-Removed t id p f v in
            let (w, h, x) = expire_regions-IsValid limits now u r.valid in
            (w, region_goes limits now p t u e b g ∙ h, x)
        | inr b ↦ (t, rw (e, expire_regions, b) refl, v)
      ]
]

expire_services-IsValid :
    (limits now : ℕ) (t : TrackerTable) → IsValid t → Sound (expire_services limits now t)
unfolding expire_services deref
expire_services-IsValid zero now t v = (t, refl, v)
expire_services-IsValid (suc limits) now t v = elim (Option-cases (head t.services.order)) [
  | inl e ↦ (t, rw (e, expire_services) refl, v)
  | inr (i, e) ↦ elim (Bool-cases (expired (t.services.cell i).service.timeval 125000 now)) [
    | inl b ↦
        let (p, f, m) = v.services.owned i (head-mem t.services.order i e) in
        let (w, h, x) =
          expire_services-IsValid limits now
            (do_rm_service t (Indexed.get p t.regions).id (t.services.cell i).service.name)
            (do_rm_service-IsValid t _ _ v) in
        (w, service_goes limits now i p t e b f ∙ h, x)
    | inr b ↦ (t, rw (e, expire_services, b) refl, v)
  ]
]

expire_payloads-IsValid :
    (limits now : ℕ) (t : TrackerTable) → IsValid t → Sound (expire_payloads limits now t)
unfolding expire_payloads deref
expire_payloads-IsValid zero now t v = (t, refl, v)
expire_payloads-IsValid (suc limits) now t v = elim (Option-cases (head t.payloads.list.order)) [
  | inl e ↦ (t, rw (e, expire_payloads) refl, v)
  | inr (i, e) ↦ elim (Bool-cases (expired (Indexed.get i t.payloads).payload.timeval 125000 now)) [
    | inl b ↦
        let (p, f, m) = v.payloads.every i (head-mem t.payloads.list.order i e) in
        let (w, h, x) =
          expire_payloads-IsValid limits now
            (do_rm_payload t (Indexed.get p t.regions).id (Indexed.get i t.payloads).payload.id)
            (do_rm_payload-IsValid t _ _ v) in
        (w, payload_goes limits now i p t e b f ∙ h, x)
    | inr b ↦ (t, rw (e, expire_payloads, b) refl, v)
  ]
]

-- The timer on a valid table returns, with no `CHECK` failed and no null pointer read, and leaves
-- the table valid.
pub on_check_timer-IsValid : (now : ℕ) (t : TrackerTable) → IsValid t → Sound (on_check_timer now t)
unfolding on_check_timer
on_check_timer-IsValid now t v =
    let (a, e, va) = expire_regions-IsValid 3 now t v in
    let (b, f, vb) = expire_services-IsValid 100 now a va in
    let (c, g, vc) = expire_payloads-IsValid 100 now b vb in (c, rw (e, f, g) refl, vc)
