-- ===== src/BusReceiver/Replies.antt =====
-- What becomes of the replies of a `BusReceiver`: src/regioncli/busreceiver.cxx.
use ris.Base.{
  ◌≡◌, refl, String, Bool, true, false, Option, none, some, List, [], ◌∷◌, ◌++◌, if◌then◌else◌,
  is_empty, not, ◌>>=◌, Option-cases, Bool-cases, inl, inr, All, All-append,
}
use ris.Observer.{Status, ok, failed}
use ris.BusReceiver
use ris.BusReceiver.{BusReceiver, Network, Delivery, Sent, Waited}

-- The calls of the user of a receiver that is connected.
pub data Call (M : Type 0) : Type 0 where
  waits : Network → Bool → Delivery M → Call M
  replies : Network → List String → M → Bool → Bool → Call M

-- What the replies return, and what goes out.
abbrev pub Result : Type 0 → Type 0
Result M = List Status × List (Sent M)

unfoldable pub step : {M : Type 0} → BusReceiver → Call M → Option (BusReceiver × Result M)
step r (waits net ready d) = do a ← BusReceiver.wait net r ready d; some (a.0, ([], []))
step r (replies net payloads m header_taken body_taken) = do
  a ← BusReceiver.reply net r payloads m header_taken body_taken
  some (a.0, (a.1 ∷ [], a.2))

unfoldable pub run : {M : Type 0} → BusReceiver → List (Call M) → Option (BusReceiver × Result M)
run r [] = some (r, ([], []))
run r (c ∷ cs) = do
  now ← step r c
  later ← run now.0 cs
  some (later.0, (now.1.0 ++ later.1.0, now.1.1 ++ later.1.1))

-- Sockets can be made and connected.
abbrev pub IsUp : Network → Type 0
IsUp net = (net.interrupted ≡ false) × (net.connects ≡ true)

abbrev pub CanCall : {M : Type 0} → Call M → Type 0
CanCall (waits net ready d) = IsUp net
CanCall (replies net payloads m header_taken body_taken) = IsUp net

-- Connected, and without a message to reply to.
pub record IsConnected (r : BusReceiver) : Type 0 where
  pub named : is_empty r.address ≡ false
  pub linked : r.has_sock ≡ true
  pub idle : r.last_msg_id ≡ 0

pub connect-IsConnected :
    (net : Network) (address : String)
    → IsUp net
    → is_empty address ≡ false
    → (r : BusReceiver) × (BusReceiver.connect net BusReceiver.create address ≡ some (r, ok))
      × IsConnected r
unfolding BusReceiver.connect BusReceiver.create BusReceiver.reconnect
connect-IsConnected net address (i, c) n = (
  record { address = address; has_sock = true; last_msg_id = 0 },
  rw (n, i, c) refl,
  record { named = n; linked = refl; idle = refl },
)

if_linked : {A : Type 0} (b : Bool) → b ≡ true → (x : Option A) → (if not b then none else x) ≡ x
if_linked b h x = rw h refl

module _ {M : Type 0} where
  give_up-IsConnected :
      (net : Network) (r : BusReceiver)
      → IsUp net
      → IsConnected r
      → (s : BusReceiver) × (BusReceiver.give_up {M = M} net r ≡ some (s, (failed, [], none)))
        × IsConnected s
  unfolding BusReceiver.give_up BusReceiver.reconnect
  give_up-IsConnected net r (i, c) v = (
    record { address = r.address; has_sock = true; last_msg_id = 0 },
    rw (v.named, i, c) refl,
    record { named = v.named; linked = refl; idle = refl },
  )

  do_wait-IsConnected :
      (net : Network) (r : BusReceiver) (d : Delivery M)
      → IsUp net
      → IsConnected r
      → (s : BusReceiver) × (w : Waited M) × (BusReceiver.do_wait net r d ≡ some (s, w))
        × IsConnected s
  unfolding BusReceiver.do_wait
  do_wait-IsConnected net r d u v =
      let (s, e, v') = give_up-IsConnected net r u v in
      elim (Option-cases d.header) [
        | inl h ↦ (s, (failed, [], none), rw (h, BusReceiver.do_wait) e, v')
        | inr (payloads, h) ↦ elim (Bool-cases d.more) [
          | inr g ↦ (s, (failed, [], none), rw (h, BusReceiver.do_wait, g) e, v')
          | inl g ↦ elim (Option-cases d.body) [
            | inl f ↦ (s, (failed, [], none), rw (h, BusReceiver.do_wait, g, f) e, v')
            | inr (m, f) ↦ (
              r,
              (ok, BusReceiver.payload_set payloads, some m),
              rw (h, BusReceiver.do_wait, g, f) refl,
              v,
            )
          ]
        ]
      ]

  wait_linked :
      (net : Network) (r : BusReceiver) (ready : Bool) (d : Delivery M)
      → r.has_sock ≡ true
      → BusReceiver.wait net r ready d
        ≡ (if not ready then BusReceiver.give_up net r else BusReceiver.do_wait net r d)
  unfolding BusReceiver.wait
  wait_linked net r ready d h = if_linked r.has_sock h _

  step-IsConnected :
      (r : BusReceiver) (c : Call M)
      → IsConnected r
      → CanCall c
      → (s : BusReceiver) × (o : Result M) × (step r c ≡ some (s, o))
        × IsConnected s
        × All (λ x. x ≡ failed) o.0
        × (o.1 ≡ [])
  unfolding step BusReceiver.reply
  step-IsConnected r (waits net ready d) v u =
      let (s, e, v') = give_up-IsConnected net r u v in
      elim (Bool-cases ready) [
        | inr h ↦ (s, ([], []), rw (wait_linked net r ready d v.linked, h, e) refl, v', tt, refl)
        | inl h ↦
            let (q, w, f, x) = do_wait-IsConnected net r d u v in
            (q, ([], []), rw (wait_linked net r ready d v.linked, h, f) refl, x, tt, refl)
      ]
  step-IsConnected r (replies net payloads m a b) v u =
      (r, (failed ∷ [], []), rw (BusReceiver.reply, v.linked, v.idle) refl, v, (refl, tt), refl)

  -- However often a connected receiver waits for messages and replies to them, and whatever it gets
  -- in between, each of its replies fails, and none goes out: it never keeps the id of a message
  -- that it has received.
  pub replies_never_sent :
      (r : BusReceiver) (cs : List (Call M))
      → IsConnected r
      → All CanCall cs
      → (s : BusReceiver) × (o : Result M) × (run r cs ≡ some (s, o))
        × IsConnected s
        × All (λ x. x ≡ failed) o.0
        × (o.1 ≡ [])
  unfolding run
  replies_never_sent r [] v u = (r, ([], []), refl, v, tt, refl)
  replies_never_sent r (c ∷ cs) v u =
      let (s, o, e, v', a, n) = step-IsConnected r c v u.0 in
      let (s', o', e', v'', a', n') = replies_never_sent s cs v' u.1 in
      (
        s',
        (o.0 ++ o'.0, o.1 ++ o'.1),
        rw (e, e') refl,
        v'',
        All-append _ o.0 o'.0 a a',
        rw (n, n') refl,
      )
