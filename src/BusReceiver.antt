-- ===== src/BusReceiver.antt =====
-- `BusReceiver`: include/regioncli/busreceiver.h and src/regioncli/busreceiver.cxx. The socket is
-- there or not; what it receives and takes is a parameter. A message body is a value of a type `M`.
-- An aborted process is `none`.
pub mod Replies
use ris.Base.{
  ℕ, String, Bool, true, false, Option, none, some, List, [], ◌∷◌, if◌then◌else◌, is_empty, ◌==◌,
  not, ◌>>=◌,
}
use ris.Observer.{Status, ok, failed}
use ris.BusMsgReply.{insert}

pub record BusReceiver : Type 0 where
  pub address : String
  pub has_sock : Bool
  pub last_msg_id : ℕ

-- `zsys_interrupted`, and whether the socket connects.
pub record Network : Type 0 where
  pub interrupted : Bool
  pub connects : Bool

-- A header and the body behind it, as they are received.
pub record Delivery (M : Type 0) : Type 0 where
  pub header : Option (List String)
  pub more : Bool
  pub body : Option M

-- A reply on the wire: the id of the message, the payloads and the body.
pub record Sent (M : Type 0) : Type 0 where
  pub msg_id : ℕ
  pub payloads : List String
  pub body : M

abbrev pub Waited : Type 0 → Type 0
Waited M = Status × List String × Option M

unfoldable pub create : BusReceiver
create = record { address = ""; has_sock = false; last_msg_id = 0 }

unfoldable pub reconnect : Network → BusReceiver → Option (BusReceiver × Status)
reconnect net r =
    if is_empty r.address
    then none
    else if net.interrupted
    then some (record r { has_sock = false; last_msg_id = 0 }, failed)
    else if not net.connects
    then none
    else some (record r { has_sock = true; last_msg_id = 0 }, ok)

unfoldable pub connect : Network → BusReceiver → String → Option (BusReceiver × Status)
unfolding reconnect
connect net r address =
    if r.has_sock then some (r, failed) else reconnect net (record r { address = address })

unfoldable pub disconnect : BusReceiver → BusReceiver
disconnect r = record { address = ""; has_sock = false; last_msg_id = 0 }

-- The set of the payloads of a header.
unfoldable pub payload_set : List String → List String
payload_set [] = []
payload_set (p ∷ ps) = insert p (payload_set ps)

module _ {M : Type 0} where
  -- A failure, after the socket is made anew.
  unfoldable pub give_up : Network → BusReceiver → Option (BusReceiver × Waited M)
  unfolding reconnect
  give_up net r = do fresh ← reconnect net r; some (fresh.0, (failed, [], none))

  -- `do_wait_pb` and `do_wait_z`
  unfoldable pub do_wait : Network → BusReceiver → Delivery M → Option (BusReceiver × Waited M)
  unfolding give_up payload_set
  do_wait net r d = elim d.header [
    | none ↦ give_up net r
    | some payloads ↦ if not d.more then give_up net r else elim d.body [
      | none ↦ give_up net r
      | some m ↦ some (r, (ok, payload_set payloads, some m))
    ]
  ]

  -- `wait_pb` and `wait_z`; `ready` says whether the socket takes the frame WORKER_READY.
  unfoldable pub wait : Network → BusReceiver → Bool → Delivery M → Option (BusReceiver × Waited M)
  unfolding do_wait give_up
  wait net r ready d =
      if not r.has_sock then none else if not ready then give_up net r else do_wait net r d

  -- Both overloads of `reply`; the Booleans say whether the socket takes the header and the body.
  unfoldable pub reply :
      Network
      → BusReceiver
      → List String
      → M
      → Bool
      → Bool
      → Option (BusReceiver × Status × List (Sent M))
  unfolding reconnect
  reply net r payloads m header_taken body_taken =
      if not r.has_sock
      then none
      else if r.last_msg_id == 0
      then some (r, failed, [])
      else if not header_taken
      then (do fresh ← reconnect net r; some (fresh.0, failed, []))
      else if not body_taken
      then (do fresh ← reconnect net r; some (fresh.0, failed, []))
      else some (r, ok, record { msg_id = r.last_msg_id; payloads = payloads; body = m } ∷ [])
