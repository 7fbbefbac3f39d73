-- ===== src/Channel.antt =====
-- The publish channel between a region and the trackers: `RIPublisher` (include/region/publisher.h
-- and src/region/publisher.cxx) turns each call of the observer into a message on a topic, the id
-- of the region, and `RISubscriber` (include/tracker/subscriber.h and src/tracker/subscriber.cxx)
-- turns a message into a call of its observer.
pub mod RoundTrip
use ris.Base.{ℕ, String, Option, none, some, ◌>>=◌}
use ris.Observer.{
  Event, on_region, on_rm_region, on_service, on_rm_service, on_payload, on_rm_payload,
}
use ris.RiTypes.Region
use ris.RiTypes.Region.{Region}
use ris.RiTypes.Service
use ris.RiTypes.Service.{Service}
use ris.RiTypes.Payload
use ris.RiTypes.Payload.{Payload}
use ris.RiTypes.Messages.{
  Published, pub_region, pub_rm_region, pub_service, pub_rm_service, pub_payload, pub_rm_payload,
}

abbrev pub Letter : Type 0
Letter = String × Published

unfoldable pub publish_region : Region → Option Letter
publish_region reg = do p ← Region.to_publish reg; some (reg.id, p)

unfoldable pub publish_rm_region : String → Option Letter
publish_rm_region reg = do p ← Region.to_publish_rm reg; some (reg, p)

unfoldable pub publish_service : String → ℕ → Service → Option Letter
publish_service reg version svc = do p ← Service.to_publish reg version svc; some (reg, p)

unfoldable pub publish_rm_service : String → ℕ → String → Option Letter
publish_rm_service reg version svc = do p ← Service.to_publish_rm reg version svc; some (reg, p)

unfoldable pub publish_payload : String → ℕ → Payload → Option Letter
publish_payload reg version pl = do p ← Payload.to_publish reg version pl; some (reg, p)

unfoldable pub publish_rm_payload : String → ℕ → String → Option Letter
publish_rm_payload reg version pl = do p ← Payload.to_publish_rm reg version pl; some (reg, p)

-- The handlers of the publisher; `none` is the failed `CHECK` of a conversion.
unfoldable pub publish : Event → Option Letter
unfolding publish_region publish_rm_region publish_service publish_rm_service publish_payload
    publish_rm_payload
publish (on_region reg) = publish_region reg
publish (on_rm_region reg) = publish_rm_region reg
publish (on_service reg version svc) = publish_service reg version svc
publish (on_rm_service reg version svc) = publish_rm_service reg version svc
publish (on_payload reg version pl) = publish_payload reg version pl
publish (on_rm_payload reg version pl) = publish_rm_payload reg version pl

-- The handlers of the subscriber. The version of a region travels in the runtime part.
unfoldable pub receive : ℕ → Letter → Event
receive now (topic, pub_region rt region) =
    on_region (record (Region.of_protobuf now region) { version = rt.version })
receive now (topic, pub_rm_region uuid) = on_rm_region uuid
receive now (topic, pub_service rt svc) = on_service topic rt.version (Service.of_protobuf now svc)
receive now (topic, pub_rm_service rt name) = on_rm_service topic rt.version name
receive now (topic, pub_payload rt pl) = on_payload topic rt.version (Payload.of_protobuf now pl)
receive now (topic, pub_rm_payload rt uuid) = on_rm_payload topic rt.version uuid
