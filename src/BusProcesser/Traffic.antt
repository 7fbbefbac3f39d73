-- ===== src/BusProcesser/Traffic.antt =====
-- The two handlers of `BusProcesser` and their runs: src/region/busprocesser.cxx.
use ris.Base.{
  if◌then◌else◌, leb, ℕ, ◌≤◌, ◌≡◌, refl, ◌∙◌, ap, String, Bool, Option, none, some, List, [], ◌∷◌,
  ◌++◌, arith, ◌>>=◌, length, length-append, is_empty, if_both, subst,
}
use ris.BusProcesser
use ris.BusProcesser.{
  BusProcesser, Network, Sent, to_worker, to_bus, push_worker, sendto_worker, enqueue,
  on_bus_readable, on_worker_readable,
}
use ris.BusProcesser.Queues.{IsValid, create-IsValid, push_worker-IsValid}
use ris.BusProcesser.Delivery.{sendto_worker-dispatch, dispatch, workers}

enqueue-length :
    {M : Type 0} (hwm : ℕ) (msgs : List M) (m : M)
    → length msgs ≤ hwm
    → length (enqueue hwm msgs m) ≤ hwm
unfolding enqueue
enqueue-length hwm [] m h = ground arith
enqueue-length hwm (x ∷ msgs) m h = ground (arith, length-append msgs (m ∷ []))

-- The last elements of a list, at most `n`.
unfoldable pub newest : {M : Type 0} → ℕ → List M → List M
newest n [] = []
newest n (x ∷ xs) = let rest = newest n xs in if leb (length (x ∷ xs)) n then x ∷ xs else rest

newest-all : {M : Type 0} (n : ℕ) (l : List M) → length l ≤ n → newest n l ≡ l
unfolding newest
newest-all n [] h = refl
newest-all n (x ∷ xs) h = ground arith

enqueue-newest :
    {M : Type 0} (hwm : ℕ) (msgs : List M) (m : M)
    → length msgs ≤ hwm
    → enqueue hwm msgs m ≡ newest hwm (msgs ++ m ∷ [])
unfolding enqueue newest
enqueue-newest hwm [] m h = ground arith
enqueue-newest hwm (x ∷ msgs) m h =
    ground (arith, length-append msgs (m ∷ []), newest-all hwm (msgs ++ m ∷ []))

module _ {M : Type 0} (net : Network) where
  -- The message goes to a worker, or it waits.
  abbrev pub Handled : BusProcesser M → M → BusProcesser M × List (Sent M) → Option String → Type 0
  Handled p m r (some w) = (r.1 ≡ to_worker w m ∷ []) × (r.0.msgs ≡ p.msgs)
  Handled p m r none = (r.1 ≡ []) × (r.0.msgs ≡ newest p.hwm (p.msgs ++ m ∷ []))

  after :
      (p q : BusProcesser M) (m : M) (w : Option String)
      → sendto_worker net p ≡ some (q, w)
      → IsValid p
      → IsValid q
      → q.msgs ≡ p.msgs
      → q.hwm ≡ p.hwm
      → (r : BusProcesser M × List (Sent M)) × (on_bus_readable net p (some m) ≡ some r)
        × IsValid r.0
        × (workers r.0 ≡ workers q)
        × Handled p m r w
  unfolding on_bus_readable
  after p q m (some w) e u v h k = ((q, to_worker w m ∷ []), rw e refl, v, refl, (refl, h))
  after p q m none e u v h k = (
    (record q { msgs = enqueue q.hwm q.msgs m }, []),
    rw e refl,
    record { workers = v.workers; msgs = enqueue-length q.hwm q.msgs m v.msgs },
    refl,
    (
      refl,
      ap (λ l. enqueue q.hwm l m) h
          ∙ ap (λ n. enqueue n p.msgs m) k
          ∙ enqueue-newest p.hwm p.msgs m u.msgs,
    ),
  )

  -- A message from the bus, on valid queues: no `CHECK` fails and the queues stay valid. The idle
  -- workers become those that `dispatch` leaves; the message is sent to the worker that it names,
  -- or else it joins the end of the waiting messages, of which the newest stay, as many as the mark
  -- allows. No message that waited is sent.
  pub on_bus_readable_lem :
      (p : BusProcesser M) (m : M)
      → IsValid p
      → (r : BusProcesser M × List (Sent M)) × (on_bus_readable net p (some m) ≡ some r)
        × IsValid r.0
        × (workers r.0 ≡ (dispatch net (workers p)).0)
        × Handled p m r (dispatch net (workers p)).1
  on_bus_readable_lem p m v =
      let (q, w, e, x, d, h, k) = sendto_worker-dispatch net p v in
      let (r, f, y, c, s) = after p q m w e v x h k in
      (r, f, y, c ∙ ap (λ z. z.0) d, subst (Handled p m r) (ap (λ z. z.1) d) s)

-- A message from a worker.
module _ {M : Type 0} where
  on_worker_readable-IsValid :
      (ready : M → Bool) (p : BusProcesser M) (m : Option (String × M))
      → IsValid p
      → IsValid (on_worker_readable ready p m).0
  unfolding on_worker_readable
  on_worker_readable-IsValid ready p none v = v
  on_worker_readable-IsValid ready p (some (w, m)) v =
      if_both (λ (r : BusProcesser M × List (Sent M)). IsValid r.0) (is_empty w) v
        (push_worker-IsValid p w v)

-- What happens to the processer, with the sockets at that time.
pub data Call (M : Type 0) : Type 0 where
  from_bus : Network → Option M → Call M
  from_worker : Option (String × M) → Call M

module _ {M : Type 0} (ready : M → Bool) where
  unfoldable pub step : BusProcesser M → Call M → Option (BusProcesser M × List (Sent M))
  step p (from_bus net m) = on_bus_readable net p m
  step p (from_worker m) = some (on_worker_readable ready p m)

  unfoldable pub run : BusProcesser M → List (Call M) → Option (BusProcesser M × List (Sent M))
  unfolding step
  run p [] = some (p, [])
  run p (c ∷ cs) = do (q, out) ← step p c; (r, more) ← run q cs; some (r, out ++ more)

  abbrev pub Succeeds : Option (BusProcesser M × List (Sent M)) → Type 0
  Succeeds r = (q : BusProcesser M) × (out : List (Sent M)) × (r ≡ some (q, out)) × IsValid q

  step-Succeeds : (p : BusProcesser M) (c : Call M) → IsValid p → Succeeds (step p c)
  unfolding step on_bus_readable
  step-Succeeds p (from_bus net none) v = (p, [], refl, v)
  step-Succeeds p (from_bus net (some m)) v =
      let (r, e, x, y, h) = on_bus_readable_lem net p m v in (r.0, r.1, e, x)
  step-Succeeds p (from_worker m) v = (_, _, refl, on_worker_readable-IsValid ready p m v)

  run-Succeeds : (p : BusProcesser M) (cs : List (Call M)) → IsValid p → Succeeds (run p cs)
  unfolding run
  run-Succeeds p [] v = (p, [], refl, v)
  run-Succeeds p (c ∷ cs) v =
      let (q, out, e, w) = step-Succeeds p c v in
      let (r, more, f, x) = run-Succeeds q cs w in (r, out ++ more, rw (e, f) refl, x)

  -- From empty queues any sequence of messages from the bus and the workers is handled with no
  -- failed `CHECK`; each idle worker then stands once in the queue, and no more messages wait than
  -- the mark allows.
  pub run-create-IsBounded :
      (hwm : ℕ) (cs : List (Call M)) → Succeeds (run (BusProcesser.create hwm) cs)
  run-create-IsBounded hwm cs = run-Succeeds (BusProcesser.create hwm) cs (create-IsValid hwm)
