-- ===== src/RegionSession.antt =====
-- `RegionSession`: include/regioncli/regionsession.h and src/regioncli/regionsession.cxx. What the
-- socket takes, and what it receives before the time-out, are parameters.
pub mod Calls
pub mod Mirrored
use ris.Base.{
  ℕ, String, Bool, true, false, Option, none, some, List, [], ◌∷◌, if◌then◌else◌, ◌&&◌, is_empty,
  not,
}
use ris.Observer.{Status, ok, failed}
use ris.RegionActor.{
  Request, hand_shake, add_service, rm_service, add_payload, rm_payload, Response, shaken, result,
}

pub record RegionSession : Type 0 where
  pub has_req : Bool

-- Whether the socket takes a request, and the response that it receives, if one comes in time.
pub record Link : Type 0 where
  pub sends : Bool
  pub received : Option Response

-- What a call sends and returns, and the version that it stores.
abbrev pub Returned : Type 0
Returned = List Request × Status × Option ℕ

unfoldable pub create : RegionSession
create = record { has_req = false }

unfoldable pub disconnect : RegionSession → RegionSession
disconnect s = record { has_req = false }

-- The reception of a `HandShake`.
unfoldable pub take_shake : Option Response → Option ℕ
take_shake none = none
take_shake (some (shaken version)) = some version
take_shake (some (result err version)) = none

unfoldable pub connect : RegionSession → Bool → Link → RegionSession × Returned
unfolding take_shake
connect s connects link =
    if s.has_req
    then (s, ([], failed, none))
    else if not connects
    then (record { has_req = false }, ([], failed, none))
    else if not link.sends
    then (record { has_req = false }, ([], failed, none))
    else elim (take_shake link.received) [
      | none ↦ (record { has_req = false }, (hand_shake ∷ [], failed, none))
      | some version ↦ (record { has_req = true }, (hand_shake ∷ [], ok, some version))
    ]

-- The reception of a `Result`.
unfoldable pub take_result : Option Response → Status × Option ℕ
take_result none = (failed, none)
take_result (some (shaken version)) = (failed, none)
take_result (some (result err version)) = (err, some version)

-- A request, if the socket is there and the arguments are not empty, and its result.
unfoldable pub request : RegionSession → Bool → Request → Link → Returned
unfolding take_result
request s complete q link =
    if s.has_req && complete && link.sends
    then (let (err, version) = take_result link.received in (q ∷ [], err, version))
    else ([], failed, none)

unfoldable pub new_payload : RegionSession → String → Link → Returned
unfolding request
new_payload s uuid link =
    request s (not (is_empty uuid)) (add_payload (record { uuid = uuid }) true) link

unfoldable pub remove_payload : RegionSession → String → Link → Returned
unfolding request
remove_payload s uuid link = request s (not (is_empty uuid)) (rm_payload uuid true) link

unfoldable pub new_service : RegionSession → String → String → Link → Returned
unfolding request
new_service s name address link =
    request s (not (is_empty name) && not (is_empty address))
      (add_service (record { name = name; endpoint = record { address = address; identity = "" } })
        true)
      link

unfoldable pub remove_service : RegionSession → String → Link → Returned
unfolding request
remove_service s name link = request s (not (is_empty name)) (rm_service name true) link

-- A request that asks for no result.
unfoldable pub post : RegionSession → Bool → Request → Bool → List Request × Status
post s complete q sends = if s.has_req && complete && sends then (q ∷ [], ok) else ([], failed)

unfoldable pub async_new_payload : RegionSession → String → Bool → List Request × Status
unfolding post
async_new_payload s uuid sends =
    post s (not (is_empty uuid)) (add_payload (record { uuid = uuid }) false) sends

unfoldable pub async_rm_payload : RegionSession → String → Bool → List Request × Status
unfolding post
async_rm_payload s uuid sends = post s (not (is_empty uuid)) (rm_payload uuid false) sends

unfoldable pub async_new_service : RegionSession → String → String → Bool → List Request × Status
unfolding post
async_new_service s name address sends =
    post s (not (is_empty name) && not (is_empty address))
      (add_service (record { name = name; endpoint = record { address = address; identity = "" } })
        false)
      sends

unfoldable pub async_rm_service : RegionSession → String → Bool → List Request × Status
unfolding post
async_rm_service s name sends = post s (not (is_empty name)) (rm_service name false) sends
