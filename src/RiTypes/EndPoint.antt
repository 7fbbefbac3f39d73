-- ===== src/RiTypes/EndPoint.antt =====
-- `struct EndPoint`: include/ris/ritypes.h and src/ritypes.cxx.
use ris.Base.{ap, str_dec, String, Bool, Option, none, some, if◌then◌else◌, ◌&&◌, not, is_empty}
use ris.RiTypes.Messages.{EndPointMsg}

pub record EndPoint : Type 0 where
  pub address : String
  pub identity : String

-- `EndPoint::EndPoint()`
unfoldable pub default : EndPoint
default = record { address = ""; identity = "" }

unfoldable pub of_protobuf : EndPointMsg → EndPoint
of_protobuf ep = record { address = ep.address; identity = ep.identity }

-- A field that is not set stays empty.
unfoldable pub to_protobuf : EndPoint → Option EndPointMsg
to_protobuf ep =
    if is_empty ep.address
    then none
    else some (record {
      address = ep.address;
      identity = if not (is_empty ep.identity) then ep.identity else "";
    })

-- `EndPoint::good`
unfoldable pub good : EndPoint → Bool
good ep = not (is_empty ep.address)

unfoldable pub all_good : EndPoint → Bool
all_good ep = not (is_empty ep.address) && not (is_empty ep.identity)

-- `EndPoint::operator==`
unfoldable pub ep_dec : Discrete EndPoint
unfolding str_dec
ep_dec x y = elim (str_dec x.address y.address) [
  | no h ↦ no (λ e. h (ap (λ (p : EndPoint). p.address) e))
  | yes h ↦ elim (str_dec x.identity y.identity) [
    | no g ↦ no (λ e. g (ap (λ (p : EndPoint). p.identity) e))
    | yes g ↦ yes (cc (h, g))
  ]
]
