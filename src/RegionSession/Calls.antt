-- ===== src/RegionSession/Calls.antt =====
-- The calls of a session against the actor of a region: src/regioncli/regionsession.cxx, src/region/
-- regionactor.cxx and src/region/regiontable.cxx.
use ris.Base.{
  ℕ, ◌≡◌, String, Bool, true, Option, none, some, List, [], ◌∷◌, if◌then◌else◌, ◌&&◌, is_empty, not,
  concat, arith,
}
use ris.Observer.{Event, Status, failed}
use ris.RiTypes.EndPoint
use ris.RiTypes.Service
use ris.RiTypes.Payload
use ris.RegionTable
use ris.RegionTable.{RegionTable}
use ris.RegionTable.Invariant
use ris.RegionTable.Invariant.{
  add_service-IsValid, rm_service-IsValid, add_payload-IsValid, rm_payload-IsValid,
}
use ris.RegionActor
use ris.RegionActor.{Request, Response}
use ris.RegionSession
use ris.RegionSession.{RegionSession, Link, Returned}

-- The calls that wait for a result.
pub data Call : Type 0 where
  news_payload : String → Call
  removes_payload : String → Call
  news_service : String → String → Call
  removes_service : String → Call

unfoldable pub ask : RegionSession → Call → Link → Returned
ask s (news_payload uuid) link = RegionSession.new_payload s uuid link
ask s (removes_payload uuid) link = RegionSession.remove_payload s uuid link
ask s (news_service name address) link = RegionSession.new_service s name address link
ask s (removes_service name) link = RegionSession.remove_service s name link

unfoldable pub first : List Response → Option Response
first [] = none
first (r ∷ rs) = some r

-- What a call does over a link that loses nothing: the table of the region, the calls of its
-- observer, the result and the version.
abbrev pub Performed : Type 0
Performed = RegionTable × List Event × Status × Option ℕ

-- The actor handles the request that the session sends, and the session receives the response.
unfoldable pub perform : ℕ → String → RegionTable → RegionSession → Call → Performed
unfolding ask first
perform now uuid t s c = elim (ask s c (record { sends = true; received = none })).0 [
  | [] ↦ (t, [], failed, none)
  | q ∷ qs ↦
      let (t', es, rs) = RegionActor.handle now uuid t q in
      let r = ask s c (record { sends = true; received = first rs }) in (t', es, r.1, r.2)
]

-- The arguments of a call are not empty.
unfoldable pub complete : Call → Bool
complete (news_payload uuid) = not (is_empty uuid)
complete (removes_payload uuid) = not (is_empty uuid)
complete (news_service name address) = not (is_empty name) && not (is_empty address)
complete (removes_service name) = not (is_empty name)

-- The operation of the table that a call means. A new service is known under the region and its
-- name.
unfoldable pub meant : ℕ → String → RegionTable → Call → RegionTable.Outcome
meant now uuid t (news_payload id) = RegionTable.add_payload t (record { id = id; timeval = now })
meant now uuid t (removes_payload id) = RegionTable.rm_payload t id
meant now uuid t (news_service name address) = RegionTable.add_service t (record {
  name = name;
  endpoint = record { address = address; identity = concat uuid (concat "-" name) };
  timeval = now;
})
meant now uuid t (removes_service name) = RegionTable.rm_service t name

abbrev pub told : RegionTable.Outcome → Performed
told (t, err, es) = (t, es, err, some t.region.version)

-- The call of a connected session is performed on the region's table if its arguments are complete:
-- the session returns the result of the operation, and the version of the table after it. A call
-- with an empty argument, or of a session that is not connected, fails and changes nothing.
pub perform-meant :
    (now : ℕ) (uuid : String) (t : RegionTable) (s : RegionSession) (c : Call)
    → perform now uuid t s c
      ≡ (if s.has_req && complete c then told (meant now uuid t c) else (t, [], failed, none))
unfolding perform ask first complete meant RegionSession.new_payload RegionSession.remove_payload
    RegionSession.new_service RegionSession.remove_service RegionSession.request
    RegionSession.take_result RegionActor.handle RegionActor.answer RegionActor.identified
    Service.of_protobuf EndPoint.of_protobuf Payload.of_protobuf is_empty
perform-meant now uuid t s (news_payload id) = ground arith
perform-meant now uuid t s (removes_payload id) = ground arith
perform-meant now uuid t s (news_service name address) = ground arith
perform-meant now uuid t s (removes_service name) = ground arith

pub meant-IsValid :
    (now : ℕ) (uuid : String) (t : RegionTable) (c : Call)
    → Invariant.IsValid t
    → Invariant.IsValid (meant now uuid t c).0
unfolding meant
meant-IsValid now uuid t (news_payload id) v = add_payload-IsValid t _ v
meant-IsValid now uuid t (removes_payload id) v = rm_payload-IsValid t id v
meant-IsValid now uuid t (news_service name address) v = add_service-IsValid t _ v
meant-IsValid now uuid t (removes_service name) v = rm_service-IsValid t name v
