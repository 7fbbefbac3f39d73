-- ===== src/Channel/RoundTrip.antt =====
-- What a subscriber hears of what a region publishes: src/region/publisher.cxx and
-- src/tracker/subscriber.cxx.
use ris.Base.{ℕ, ◌≡◌, some, arith, Option-cases, inl, inr}
use ris.Observer.{
  Event, on_region, on_rm_region, on_service, on_rm_service, on_payload, on_rm_payload,
}
use ris.RiTypes.Region
use ris.RiTypes.Region.{Region}
use ris.RiTypes.Service
use ris.RiTypes.Service.{Service}
use ris.RiTypes.Payload
use ris.RiTypes.Payload.{Payload}
use ris.RiTypes.RoundTrip.{region_round_trip, service_round_trip}
use ris.Channel
use ris.Channel.{Letter, publish, receive}

-- The call with the receiver's time on what it carries.
abbrev pub stamped : ℕ → Event → Event
stamped now (on_region reg) = on_region (record reg { timeval = now })
stamped now (on_rm_region reg) = on_rm_region reg
stamped now (on_service reg version svc) = on_service reg version (record svc { timeval = now })
stamped now (on_rm_service reg version svc) = on_rm_service reg version svc
stamped now (on_payload reg version pl) = on_payload reg version (record pl { timeval = now })
stamped now (on_rm_payload reg version pl) = on_rm_payload reg version pl

-- A call that is published is heard by the subscriber as the same call, with the time of its
-- reception on the entry.
pub receive-publish :
    (now : ℕ) (e : Event) (l : Letter) → publish e ≡ some l → receive now l ≡ stamped now e
unfolding publish receive Channel.publish_region Region.to_publish Channel.publish_rm_region
    Region.to_publish_rm Channel.publish_service Service.to_publish Channel.publish_rm_service
    Service.to_publish_rm Channel.publish_payload Payload.to_publish Payload.to_protobuf
    Payload.of_protobuf Channel.publish_rm_payload Payload.to_publish_rm Region.to_runtime
receive-publish now (on_region reg) l e = elim (Option-cases (Region.to_protobuf reg)) [
  | inl n ↦ ground arith
  | inr (m, f) ↦ ground (arith, region_round_trip now reg m f)
]
receive-publish now (on_rm_region reg) l e = ground arith
receive-publish now (on_service reg version svc) l e =
    elim (Option-cases (Service.to_protobuf svc)) [
      | inl n ↦ ground arith
      | inr (m, f) ↦ ground (arith, service_round_trip now svc m f)
    ]
receive-publish now (on_rm_service reg version svc) l e = ground arith
receive-publish now (on_payload reg version pl) l e = ground arith
receive-publish now (on_rm_payload reg version pl) l e = ground arith
