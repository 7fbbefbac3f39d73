-- ===== src/BusSender.antt =====
-- `BusSender`: include/buscli/bussender.h and src/buscli/bussender.cxx. The socket is there or not;
-- what it takes and what arrives are parameters, as are the ids that `new_short_bin_identity` makes
-- and the readings of the clock. A message body is a value of a type `M`. An aborted process is
-- `none`.
pub mod Waiting
use ris.Base.{
  ℕ, ◌+◌, String, Bool, true, false, Option, none, some, List, [], ◌∷◌, ◌++◌, if◌then◌else◌,
  is_empty, ◌==◌, ◌||◌, not, ◌>>=◌, ltb, length,
}
use ris.Words.{u64}
use ris.Observer.{Status, ok, failed}
use ris.BusMsgReply
use ris.BusMsgReply.{BusMsgReply}

pub record BusSender : Type 0 where
  pub has_sock : Bool
  pub brokers : List String

-- A message on the wire: `bus::SendMessage`, and the body.
pub record Sent (M : Type 0) : Type 0 where
  pub msg_id : ℕ
  pub payloads : List String
  pub failure : Bool
  pub body : M

-- Whether the socket takes the header and the body.
pub record Fate : Type 0 where
  pub takes_header : Bool
  pub takes_body : Bool

-- What the socket receives: `bus::Failure`, `bus::ReplyMessage` with the data behind it, or a
-- message that is flushed.
pub data Arrival (M : Type 0) : Type 0 where
  failure : ℕ → List String → Arrival M
  reply_message : ℕ → List String → Option M → Arrival M
  other : Arrival M

unfoldable pub create : BusSender
create = record { has_sock = false; brokers = [] }

-- One payload, or a set of them: the overloads.
pub data Target : Type 0 where
  one : String → Target
  many : List String → Target

unfoldable pub payloads_of : Target → List String
payloads_of (one p) = p ∷ []
payloads_of (many ps) = ps

-- `CHECK( ! payload.empty() )` and `CHECK( ! payloads.empty() )`
unfoldable pub is_target : Target → Bool
is_target (one p) = not (is_empty p)
is_target (many ps) = not (length ps == 0)

unfoldable pub all_connect : (String → Bool) → List String → Bool
all_connect connects [] = true
all_connect connects (b ∷ bs) =
    let rest = all_connect connects bs in if connects b then rest else false

-- `connects` says of each broker whether the socket connects to it.
unfoldable pub connect : (String → Bool) → BusSender → List String → Option (BusSender × Status)
unfolding all_connect
connect connects s [] = none
connect connects s (b ∷ bs) =
    if s.has_sock
    then some (s, failed)
    else if all_connect connects (b ∷ bs)
    then some (record { has_sock = true; brokers = b ∷ bs }, ok)
    else none

unfoldable pub disconnect : BusSender → BusSender
disconnect s = record { has_sock = false; brokers = [] }

module _ {M : Type 0} where
  -- The four overloads of `do_send`: the id of the message, or 0 if it failed, and what went out.
  unfoldable pub do_send : BusSender → Fate → ℕ → Target → M → Bool → Option (ℕ × List (Sent M))
  unfolding is_target payloads_of
  do_send s fate msg_id target m asks_failure =
      if not s.has_sock || not (is_target target)
      then none
      else if not fate.takes_header
      then some (0, [])
      else if not fate.takes_body
      then some (0, [])
      else some (
        msg_id,
        record { msg_id = msg_id; payloads = payloads_of target; failure = asks_failure; body = m }
            ∷ [],
      )

  -- The four overloads of `send`.
  unfoldable pub send : BusSender → Fate → ℕ → Target → M → Option (Bool × List (Sent M))
  unfolding do_send
  send s fate msg_id target m = do
    r ← do_send s fate msg_id target m false
    some (not (r.0 == 0), r.1)

  -- The body of the loop of `wait_reply`.
  unfoldable pub take_in : BusMsgReply M → Arrival M → BusMsgReply M
  take_in r (failure msg_id payloads) = BusMsgReply.add_failure r msg_id payloads
  take_in r (reply_message msg_id payloads m) = (BusMsgReply.add_reply r msg_id payloads m).0
  take_in r other = r

  -- The loop: the arrivals are those that the socket shows before the poll times out, each with the
  -- reading of the clock behind it.
  unfoldable pub wait_loop : ℕ → BusMsgReply M → ℕ → List (Arrival M × ℕ) → BusMsgReply M
  unfolding take_in
  wait_loop deadline r now [] = r
  wait_loop deadline r now ((a, later) ∷ rest) =
      let waited = wait_loop deadline (take_in r a) later rest in
      if BusMsgReply.is_completed r || not (ltb now deadline) then r else waited

  unfoldable pub wait_reply : ℕ → List String → ℕ → ℕ → List (Arrival M × ℕ) → BusMsgReply M
  unfolding wait_loop
  wait_reply msg_id payloads timeout now arrivals =
      wait_loop (u64 (now + timeout)) (BusMsgReply.create msg_id payloads) now arrivals

  -- The four overloads of `sendWaitReply`; no reply object is the null pointer.
  unfoldable pub send_wait_reply :
      BusSender
      → Fate
      → ℕ
      → Target
      → M
      → ℕ
      → ℕ
      → List (Arrival M × ℕ)
      → Option (Option (BusMsgReply M) × List (Sent M))
  unfolding do_send wait_reply payloads_of
  send_wait_reply s fate msg_id target m timeout now arrivals = do
    r ← do_send s fate msg_id target m true
    some (
      if not (r.0 == 0)
          then some (wait_reply r.0 (payloads_of target) timeout now arrivals)
          else none,
      r.1,
    )
