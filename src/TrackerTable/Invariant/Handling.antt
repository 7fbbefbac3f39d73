-- ===== src/TrackerTable/Invariant/Handling.antt =====
-- Each call of the observer keeps the tracker's table valid and fails no `CHECK`.
use ris.Base.{ℕ, ◌≡◌, refl, String, some, List, [], str_dec, Option-cases, inl, inr}
use ris.Observer.{
  Event, on_region, on_rm_region, on_service, on_rm_service, on_payload, on_rm_payload,
}
use ris.Containers.Indexed
use ris.RiTypes.Service.{Service}
use ris.RiTypes.Payload.{Payload}
use ris.TrackerTable.{TrackerTable}
use ris.TrackerTable.Handlers
use ris.TrackerTable.Handlers.{handle, repost}
use ris.TrackerTable.Invariant.{IsValid}
use ris.TrackerTable.Invariant.Operations.{
  update_region_version-IsValid, handle_region-IsValid, put_service-IsValid, do_rm_service-IsValid,
  put_payload-IsValid, do_rm_payload-IsValid,
}
use ris.TrackerTable.Invariant.Removal.{do_rm_region-Removed}

handle_service-IsValid :
    (t : TrackerTable) (reg : String) (version : ℕ) (svc : Service)
    → IsValid t
    → IsValid (Handlers.handle_service t reg version svc).0
unfolding Handlers.handle_service
handle_service-IsValid t reg version svc v =
    elim (Option-cases (Indexed.find str_dec reg t.regions)) [
      | inl e ↦ rw (e, Handlers.handle_service) v
      | inr (it, e) ↦
          rw (e, Handlers.handle_service)
            (update_region_version-IsValid _ reg version (put_service-IsValid t it reg svc e v))
    ]

handle_rm_service-IsValid :
    (t : TrackerTable) (reg : String) (version : ℕ) (svc : String)
    → IsValid t
    → IsValid (Handlers.handle_rm_service t reg version svc).0
unfolding Handlers.handle_rm_service
handle_rm_service-IsValid t reg version svc v =
    elim (Option-cases (Indexed.find str_dec reg t.regions)) [
      | inl e ↦ rw (e, Handlers.handle_rm_service) v
      | inr (it, e) ↦
          rw (e, Handlers.handle_rm_service)
            (update_region_version-IsValid _ reg version (do_rm_service-IsValid t reg svc v))
    ]

handle_payload-IsValid :
    (t : TrackerTable) (reg : String) (version : ℕ) (pl : Payload)
    → IsValid t
    → IsValid (Handlers.handle_payload t reg version pl).0
unfolding Handlers.handle_payload
handle_payload-IsValid t reg version pl v =
    elim (Option-cases (Indexed.find str_dec reg t.regions)) [
      | inl e ↦ rw (e, Handlers.handle_payload) v
      | inr (it, e) ↦
          rw (e, Handlers.handle_payload)
            (update_region_version-IsValid _ reg version
              (put_payload-IsValid t it pl (v.regions.sound reg it e).0 v))
    ]

handle_rm_payload-IsValid :
    (t : TrackerTable) (reg : String) (version : ℕ) (pl : String)
    → IsValid t
    → IsValid (Handlers.handle_rm_payload t reg version pl).0
unfolding Handlers.handle_rm_payload
handle_rm_payload-IsValid t reg version pl v =
    elim (Option-cases (Indexed.find str_dec reg t.regions)) [
      | inl e ↦ rw (e, Handlers.handle_rm_payload) v
      | inr (it, e) ↦
          rw (e, Handlers.handle_rm_payload)
            (update_region_version-IsValid _ reg version (do_rm_payload-IsValid t reg pl v))
    ]

handle_rm_region-IsValid :
    (t : TrackerTable) (reg : String)
    → IsValid t
    → (u : TrackerTable) × (out : List Event) × (Handlers.handle_rm_region t reg ≡ some (u, out))
      × IsValid u
unfolding Handlers.handle_rm_region
handle_rm_region-IsValid t reg v = elim (Option-cases (Indexed.find str_dec reg t.regions)) [
  | inl e ↦ (t, (repost t (on_rm_region reg)).1, rw (e, Handlers.handle_rm_region) refl, v)
  | inr (it, e) ↦
      let (u, f, r) = do_rm_region-Removed t reg it e v in
      (u, [], rw (e, Handlers.handle_rm_region, f) refl, r.valid)
]

-- On a valid table every call of the observer returns, with no `CHECK` failed, and leaves the table
-- valid.
pub handle-IsValid :
    (t : TrackerTable) (e : Event)
    → IsValid t
    → (u : TrackerTable) × (out : List Event) × (handle t e ≡ some (u, out)) × IsValid u
unfolding handle
handle-IsValid t (on_region reg) v = (_, _, refl, handle_region-IsValid t reg v)
handle-IsValid t (on_rm_region reg) v = handle_rm_region-IsValid t reg v
handle-IsValid t (on_service reg version svc) v =
    (_, _, refl, handle_service-IsValid t reg version svc v)
handle-IsValid t (on_rm_service reg version svc) v =
    (_, _, refl, handle_rm_service-IsValid t reg version svc v)
handle-IsValid t (on_payload reg version pl) v =
    (_, _, refl, handle_payload-IsValid t reg version pl v)
handle-IsValid t (on_rm_payload reg version pl) v =
    (_, _, refl, handle_rm_payload-IsValid t reg version pl v)
