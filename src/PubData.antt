-- ===== src/PubData.antt =====
-- `PubData`: include/tracker/pubdata.h and src/tracker/pubdata.cxx. One published update, kept with
-- its version until it is presented to an observer. The tag and the untyped pointer of the source
-- are one value.
use ris.Base.{ℕ, String, Option, none, some}
use ris.Observer.{Event, on_region, on_service, on_rm_service, on_payload, on_rm_payload}
use ris.RiTypes.Region.{Region}
use ris.RiTypes.Service.{Service}
use ris.RiTypes.Payload.{Payload}

pub data Update : Type 0 where
  unknown : Update
  update_region : Region → Update
  update_service : Service → Update
  rm_service : String → Update
  update_payload : Payload → Update
  rm_payload : String → Update

pub record PubData : Type 0 where
  pub version : ℕ
  pub update : Update

present_update : String → ℕ → Update → Option Event
present_update region version unknown = none
present_update region version (update_region reg) = some (on_region reg)
present_update region version (update_service svc) = some (on_service region version svc)
present_update region version (rm_service svc) = some (on_rm_service region version svc)
present_update region version (update_payload pl) = some (on_payload region version pl)
present_update region version (rm_payload pl) = some (on_rm_payload region version pl)

-- The call that the observer gets; `none` is the failed `CHECK` on the type.
unfoldable pub present : PubData → String → Option Event
unfolding present_update
present d region = present_update region d.version d.update

unfoldable pub from_region : Region → PubData
from_region reg = record { version = reg.version; update = update_region reg }

unfoldable pub from_service : ℕ → Service → PubData
from_service version svc = record { version = version; update = update_service svc }

unfoldable pub from_payload : ℕ → Payload → PubData
from_payload version pl = record { version = version; update = update_payload pl }

unfoldable pub from_rm_service : ℕ → String → PubData
from_rm_service version svc = record { version = version; update = rm_service svc }

unfoldable pub from_rm_payload : ℕ → String → PubData
from_rm_payload version pl = record { version = version; update = rm_payload pl }
