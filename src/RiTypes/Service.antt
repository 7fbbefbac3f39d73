-- ===== src/RiTypes/Service.antt =====
-- `class Service`: include/ris/ritypes.h and src/ritypes.cxx.
use ris.Base.{
  ℕ, String, Bool, true, false, Option, none, some, if◌then◌else◌, ◌||◌, not, is_empty, ◌==◌, ◌>>=◌,
}
use ris.RiTypes.EndPoint
use ris.RiTypes.EndPoint.{EndPoint}
use ris.RiTypes.Messages.{ServiceMsg, Published, pub_service, pub_rm_service, SnapshotItem, service}

pub record Service : Type 0 where
  pub name : String
  pub endpoint : EndPoint
  pub timeval : ℕ

-- `Service::Service()`
unfoldable pub default : Service
default = record { name = ""; endpoint = EndPoint.default; timeval = 0 }

-- `Service::Service(const ris::Service&)`
unfoldable pub of_protobuf : ℕ → ServiceMsg → Service
of_protobuf now s = record {
  name = s.name;
  endpoint = EndPoint.of_protobuf s.endpoint;
  timeval = now;
}

unfoldable pub good : Service → Bool
good s =
    if is_empty s.name || not (EndPoint.all_good s.endpoint) || 0 == s.timeval then false else true

unfoldable pub to_protobuf : Service → Option ServiceMsg
to_protobuf s = if is_empty s.name then none else (do
  endpoint ← EndPoint.to_protobuf s.endpoint
  some (record { name = s.name; endpoint = endpoint }))

-- `Service::toPublish(const ri_uuid_t&, uint32_t)`
unfoldable pub to_publish : String → ℕ → Service → Option Published
to_publish region version s = if is_empty s.name then none else (do
  svc ← to_protobuf s
  some (pub_service (record { uuid = region; version = version }) svc))

-- `Service::toPublishRm(const ri_uuid_t&, uint32_t, const std::string&)`
unfoldable pub to_publish_rm : String → ℕ → String → Option Published
to_publish_rm region version name =
    if is_empty name
    then none
    else some (pub_rm_service (record { uuid = region; version = version }) name)

unfoldable pub to_snapshot : Service → Option SnapshotItem
to_snapshot s = do svc ← to_protobuf s; some (service svc)
