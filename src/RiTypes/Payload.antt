-- ===== src/RiTypes/Payload.antt =====
-- `class Payload`: include/ris/ritypes.h and src/ritypes.cxx.
use ris.Base.{ℕ, String, Bool, Option, none, some, if◌then◌else◌, not, is_empty, ◌>>=◌}
use ris.RiTypes.Messages.{PayloadMsg, Published, pub_payload, pub_rm_payload, SnapshotItem, payload}

pub record Payload : Type 0 where
  pub id : String
  pub timeval : ℕ

-- `Payload::Payload()`
unfoldable pub default : Payload
default = record { id = ""; timeval = 0 }

-- `Payload::Payload(const ris::Payload&)`
unfoldable pub of_protobuf : ℕ → PayloadMsg → Payload
of_protobuf now p = record { id = p.uuid; timeval = now }

unfoldable pub good : Payload → Bool
good p = not (is_empty p.id)

unfoldable pub to_protobuf : Payload → Option PayloadMsg
to_protobuf p = if is_empty p.id then none else some (record { uuid = p.id })

-- `Payload::toPublish(const ri_uuid_t&, uint32_t)`
unfoldable pub to_publish : String → ℕ → Payload → Option Published
to_publish region version p = do
  pl ← to_protobuf p
  some (pub_payload (record { uuid = region; version = version }) pl)

-- `Payload::toPublishRm(const ri_uuid_t&, uint32_t, const ri_uuid_t&)`
unfoldable pub to_publish_rm : String → ℕ → String → Option Published
to_publish_rm region version id =
    if is_empty id
    then none
    else some (pub_rm_payload (record { uuid = region; version = version }) id)

unfoldable pub to_snapshot : Payload → Option SnapshotItem
to_snapshot p = do pl ← to_protobuf p; some (payload pl)
