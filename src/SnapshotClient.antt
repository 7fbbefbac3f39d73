-- ===== src/SnapshotClient.antt =====
-- `SnapshotClientWorker`: include/snapshot/snapshotclientworker.h and src/snapshot/
-- snapshotclientworker.cxx, and the interface `ISnapshotBuilder` of include/snapshot/
-- snapshotbuilder.h. The handler that the reader is bound to is the stage of the client; a reader
-- that is stopped has none. The builder is shared with the caller: its state is passed beside the
-- client's. Of the timer, only its call-back is modelled.
pub mod Progress
pub mod Transfer
pub mod Arrivals
pub mod Frames
pub mod Filling
pub mod Completion
use ris.Base.{
  ℕ, zero, String, Bool, true, false, Option, none, some, List, [], ◌∷◌, if◌then◌else◌, not, ite,
  str_dec, is_empty, ◌==◌,
}
use ris.Observer.{Status, ok, failed}
use ris.RiTypes.Region
use ris.RiTypes.Region.{Region}
use ris.RiTypes.Service
use ris.RiTypes.Service.{Service}
use ris.RiTypes.Payload
use ris.RiTypes.Payload.{Payload}
use ris.RiTypes.Messages.{
  RegionMsg, RegionRuntime, SnapshotItem, snapshot_begin, region_begin, service, payload,
  region_end, snapshot_end,
}

-- `ISnapshotBuilder`
pub record SnapshotBuilder (B : Type 0) : Type 0 where
  pub add_region : B → Region → B × Status
  pub add_service : B → String → Service → B × Status
  pub add_payload : B → String → Payload → B × Status

-- A message that `zpb_recv(sock)` decodes.
pub data Message : Type 0 where
  item : SnapshotItem → Message
  sync_signal : Message
  other : Message

-- The receptions of zmqx: of a message of one type, and of any message. `none` is a failure.
pub record Receiver (F : Type 0) : Type 0 where
  pub recv_rep : F → Option ℕ
  pub recv_begin : F → Bool
  pub recv_region_begin : F → Option (RegionRuntime × RegionMsg)
  pub recv : F → Option Message

pub data Stage : Type 0 where
  at_request at_begin at_region at_body at_region_or_finish : Stage

pub record Client : Type 0 where
  pub stage : Option Stage
  pub last_region : String
  pub requester : String

-- What the client does outside: the call of `completed`, and the answer to a synchronisation.
pub data Output : Type 0 where
  completed : Status → Output
  sync_rep : String → Output

unfoldable pub stop : Client → Client
stop c = record { stage = none; last_region = ""; requester = "" }

-- `start`: the identity, and whether the socket connects, the request is sent, and the reader and
-- the timer start. `none` is the abort of `LOG(FATAL)`.
unfoldable pub start : Client → String → Bool → Bool → Bool → Bool → Option (Client × Status)
unfolding stop
start c identity connects sends reader_starts timer_starts = elim c.stage [
  | some s ↦ some (c, failed)
  | none ↦
      if not connects
      then some (stop c, failed)
      else if not sends
      then some (stop c, failed)
      else if not reader_starts
      then none
      else if not timer_starts
      then none
      else some (record { stage = some at_request; last_region = ""; requester = identity }, ok)
]

abbrev pub Outcome : Type 0 → Type 0
Outcome B = Client × B × List Output

-- `Region region(msg.region()); region.version = msg.rt().version();`
unfoldable pub received_region : ℕ → RegionRuntime → RegionMsg → Region
received_region now rt r = record (Region.of_protobuf now r) { version = rt.version }

module _ {B : Type 0} where
  unfoldable pub finish : Client → B → Status → Outcome B
  unfolding stop
  finish c b err = (stop c, b, completed err ∷ [])

  unfoldable pub go : Client → B → Stage → Outcome B
  go c b s = (record c { stage = some s }, b, [])

  unfoldable pub on_timeout_timer : Client → B → Outcome B
  unfolding finish
  on_timeout_timer c b = finish c b failed

  module _ (sb : SnapshotBuilder B) where
    -- `addRegion`, and the body of the region next.
    unfoldable pub open_region : Client → B → Region → Outcome B
    unfolding finish
    open_region c b r =
        let (b', status) = sb.add_region b r in
        elim status [
          | failed ↦ finish c b' failed
          | ok ↦ (record c { stage = some at_body; last_region = r.id }, b', [])
        ]

    -- The next message of the body, unless the builder refuses the entry.
    unfoldable pub accept : Client → B × Status → Outcome B
    unfolding finish
    accept c r = elim r.1 [ failed ↦ finish c r.0 failed | ok ↦ (c, r.0, []) ]

    -- A message in the body of a region; the region's end is for the last region only.
    unfoldable pub body_message : ℕ → Client → B → Message → Outcome B
    unfolding accept finish go
    body_message now c b (item (payload p)) =
        let pl = Payload.of_protobuf now p in
        if not (Payload.good pl)
        then finish c b failed
        else accept c (sb.add_payload b c.last_region pl)
    body_message now c b (item (service s)) =
        let svc = Service.of_protobuf now s in
        if not (Service.good svc)
        then finish c b failed
        else accept c (sb.add_service b c.last_region svc)
    body_message now c b (item (region_end rt)) =
        ite (str_dec rt.uuid c.last_region)
          (record c { stage = some at_region_or_finish; last_region = "" }, b, [])
          (finish c b failed)
    body_message now c b (item snapshot_begin) = finish c b failed
    body_message now c b (item (region_begin rt r)) = finish c b failed
    body_message now c b (item snapshot_end) = finish c b failed
    body_message now c b sync_signal = (c, b, sync_rep c.requester ∷ [])
    body_message now c b other = finish c b failed

    -- A message between two regions. `later` is the second reading of the clock.
    unfoldable pub between_message : ℕ × ℕ → Client → B → Message → Outcome B
    unfolding open_region finish received_region
    between_message (now, later) c b (item (region_begin rt r)) =
        let region = received_region now rt r in
        if not (Region.good region)
        then finish c b failed
        else open_region c b (record region { timeval = later })
    between_message times c b (item snapshot_end) = finish c b ok
    between_message times c b (item snapshot_begin) = (c, b, [])
    between_message times c b (item (service s)) = (c, b, [])
    between_message times c b (item (payload p)) = (c, b, [])
    between_message times c b (item (region_end rt)) = (c, b, [])
    between_message times c b sync_signal = (c, b, sync_rep c.requester ∷ [])
    between_message times c b other = (c, b, [])

    module _ {F : Type 0} (rx : Receiver F) where
      unfoldable pub on_req_readable : Client → B → F → Outcome B
      unfolding finish go
      on_req_readable c b f = elim (rx.recv_rep f) [
        | none ↦ finish c b failed
        | some result ↦ if result == 0 then go c b at_begin else finish c b failed
      ]

      unfoldable pub pull_snapshot_begin : Client → B → F → Outcome B
      unfolding finish go
      pull_snapshot_begin c b f = if rx.recv_begin f then go c b at_region else finish c b failed

      unfoldable pub pull_region_begin : ℕ → Client → B → F → Outcome B
      unfolding finish open_region received_region
      pull_region_begin now c b f = elim (rx.recv_region_begin f) [
        | none ↦ finish c b failed
        | some (rt, r) ↦ open_region c b (received_region now rt r)
      ]

      -- `none` is the failed `CHECK` on the last region.
      unfoldable pub pull_region_or_finish : ℕ × ℕ → Client → B → F → Option (Outcome B)
      unfolding finish between_message
      pull_region_or_finish times c b f =
          if not (is_empty c.last_region) then none else elim (rx.recv f) [
            | none ↦ some (finish c b failed)
            | some m ↦ some (between_message times c b m)
          ]

      unfoldable pub pull_region_body : ℕ → Client → B → F → Option (Outcome B)
      unfolding finish body_message
      pull_region_body now c b f = if is_empty c.last_region then none else elim (rx.recv f) [
        | none ↦ some (finish c b failed)
        | some m ↦ some (body_message now c b m)
      ]

      -- The call of the reader's handler. The pair holds the readings of the clock.
      unfoldable pub readable : ℕ × ℕ → Client → B → F → Option (Outcome B)
      readable times c b f = elim c.stage [
        | none ↦ some (c, b, [])
        | some at_request ↦ some (on_req_readable c b f)
        | some at_begin ↦ some (pull_snapshot_begin c b f)
        | some at_region ↦ some (pull_region_begin times.0 c b f)
        | some at_body ↦ pull_region_body times.0 c b f
        | some at_region_or_finish ↦ pull_region_or_finish times c b f
      ]
