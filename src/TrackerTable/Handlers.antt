-- ===== src/TrackerTable/Handlers.antt =====
-- The handlers of `IRIObserver` in the tracker's table: src/tracker/trackertable.cxx. A call about
-- a region that the table does not hold goes to the next handler, if there is one: it is returned.
use ris.Base.{ℕ, String, Option, none, some, List, [], ◌∷◌, ◌>>=◌, str_dec, if◌then◌else◌}
use ris.Observer.{
  Event, on_region, on_rm_region, on_service, on_rm_service, on_payload, on_rm_payload,
}
use ris.RiTypes.Region.{Region}
use ris.RiTypes.Service.{Service}
use ris.RiTypes.Payload.{Payload}
use ris.Containers.Indexed
use ris.TrackerTable.{TrackerTable}
use ris.TrackerTable.Services.{put_service, do_rm_service}
use ris.TrackerTable.Payloads.{put_payload, do_rm_payload}
use ris.TrackerTable.Regions.{do_rm_region, update_region_version}

unfoldable pub repost : TrackerTable → Event → TrackerTable × List Event
repost t e = (t, if t.has_next then e ∷ [] else [])

unfoldable pub handle_region : TrackerTable → Region → TrackerTable × List Event
unfolding repost
handle_region t reg = elim (Indexed.find str_dec reg.id t.regions) [
  | none ↦ repost t (on_region reg)
  | some it ↦ (record t { regions = Indexed.to_back it (Indexed.set it reg t.regions) }, [])
]

unfoldable pub handle_rm_region : TrackerTable → String → Option (TrackerTable × List Event)
unfolding repost
handle_rm_region t reg = elim (Indexed.find str_dec reg t.regions) [
  | none ↦ some (repost t (on_rm_region reg))
  | some it ↦ do t' ← do_rm_region t reg; some (t', [])
]

unfoldable pub handle_service : TrackerTable → String → ℕ → Service → TrackerTable × List Event
unfolding repost
handle_service t reg version svc = elim (Indexed.find str_dec reg t.regions) [
  | none ↦ repost t (on_service reg version svc)
  | some it ↦ (update_region_version (put_service t it reg svc) reg version, [])
]

unfoldable pub handle_rm_service : TrackerTable → String → ℕ → String → TrackerTable × List Event
unfolding repost
handle_rm_service t reg version svc = elim (Indexed.find str_dec reg t.regions) [
  | none ↦ repost t (on_rm_service reg version svc)
  | some it ↦ (update_region_version (do_rm_service t reg svc) reg version, [])
]

unfoldable pub handle_payload : TrackerTable → String → ℕ → Payload → TrackerTable × List Event
unfolding repost
handle_payload t reg version pl = elim (Indexed.find str_dec reg t.regions) [
  | none ↦ repost t (on_payload reg version pl)
  | some it ↦ (update_region_version (put_payload t it pl) reg version, [])
]

unfoldable pub handle_rm_payload : TrackerTable → String → ℕ → String → TrackerTable × List Event
unfolding repost
handle_rm_payload t reg version pl = elim (Indexed.find str_dec reg t.regions) [
  | none ↦ repost t (on_rm_payload reg version pl)
  | some it ↦ (update_region_version (do_rm_payload t reg pl) reg version, [])
]

-- The virtual dispatch of a call of the observer.
unfoldable pub handle : TrackerTable → Event → Option (TrackerTable × List Event)
handle t (on_region reg) = some (handle_region t reg)
handle t (on_rm_region reg) = handle_rm_region t reg
handle t (on_service reg version svc) = some (handle_service t reg version svc)
handle t (on_rm_service reg version svc) = some (handle_rm_service t reg version svc)
handle t (on_payload reg version pl) = some (handle_payload t reg version pl)
handle t (on_rm_payload reg version pl) = some (handle_rm_payload t reg version pl)
