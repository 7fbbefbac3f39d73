-- ===== src/BusProcesser/Delivery.antt =====
-- Who gets a message: `sendto_worker` and its callers in src/region/busprocesser.cxx, against the
-- list of the idle workers.
use ris.Base.{
  ℕ, zero, suc, ◌≤◌, ◌≡◌, refl, ◌∙◌, String, true, false, Option, none, some, List, [], ◌∷◌, arith,
  if◌then◌else◌, length, map, not, Option-cases, Bool-cases, inl, inr,
}
use ris.Containers.Indexed
use ris.BusProcesser.{BusProcesser, Network, front, pop_worker, find_worker, sendto_worker}
use ris.BusProcesser.Queues.{IsValid, pop_worker-some}

abbrev pub workers : {M : Type 0} → BusProcesser M → List String
workers p = Indexed.contents p.workers

-- The idle workers that are left, and the one that gets the message: workers that the router does
-- not know go; the first one that it knows gets the message, or keeps its place if it takes none.
unfoldable pub dispatch : Network → List String → List String × Option String
dispatch net [] = ([], none)
dispatch net (w ∷ ws) =
    if not (net.knows w)
    then dispatch net ws
    else if not (net.takes w)
    then (w ∷ ws, none)
    else (ws, some w)

no_head :
    (cell : ℕ → String) (is : List ℕ)
    → ◌≡◌ {A = Option (ℕ × String)} (elim is [ [] ↦ none | j ∷ js ↦ some (j, cell j) ]) none
    → map cell is ≡ []
no_head cell [] e = refl
no_head cell (j ∷ js) e = ground arith

no_length : (cell : ℕ → String) (is : List ℕ) → length is ≤ 0 → map cell is ≡ []
no_length cell [] h = refl
no_length cell (j ∷ js) h = ground arith

module _ {M : Type 0} (net : Network) where
  -- The result of a delivery from `p`.
  abbrev pub Delivers : BusProcesser M → Option (BusProcesser M × Option String) → Type 0
  Delivers p r =
      (q : BusProcesser M) × (w : Option String) × (r ≡ some (q, w))
      × IsValid q
      × ((workers q, w) ≡ dispatch net (workers p))
      × (q.msgs ≡ p.msgs)
      × (q.hwm ≡ p.hwm)

  nobody : (p : BusProcesser M) → workers p ≡ [] → (workers p, none) ≡ dispatch net (workers p)
  unfolding dispatch
  nobody p e = rw e refl

  skipped :
      (n i : ℕ) (w : String) (p q : BusProcesser M) (r : BusProcesser M × Option String)
      → front p ≡ some (i, w)
      → pop_worker p ≡ some q
      → net.knows w ≡ false
      → find_worker net n q ≡ some r
      → find_worker net (suc n) p ≡ some r
  unfolding find_worker
  skipped n i w p q r e f k g = rw (e, find_worker, f, k, g) refl

  refused :
      (n i : ℕ) (w : String) (p : BusProcesser M)
      → front p ≡ some (i, w)
      → net.knows w ≡ true
      → net.takes w ≡ false
      → find_worker net (suc n) p ≡ some (p, none)
  unfolding find_worker
  refused n i w p e k t = rw (e, find_worker, k, t) refl

  served :
      (n i : ℕ) (w : String) (p q : BusProcesser M)
      → front p ≡ some (i, w)
      → pop_worker p ≡ some q
      → net.knows w ≡ true
      → net.takes w ≡ true
      → find_worker net (suc n) p ≡ some (q, some w)
  unfolding find_worker
  served n i w p q e f k t = rw (e, find_worker, f, k, t) refl

  find_worker-Delivers :
      (n : ℕ) (p : BusProcesser M)
      → length p.workers.list.order ≤ n
      → IsValid p
      → Delivers p (find_worker net n p)
  unfolding find_worker dispatch front
  find_worker-Delivers zero p h v = (
    p,
    none,
    refl,
    v,
    nobody p (no_length p.workers.list.cell p.workers.list.order h),
    refl,
    refl,
  )
  find_worker-Delivers (suc n) p h v = elim (Option-cases (front p)) [
    | inl e ↦ (
      p,
      none,
      rw (e, find_worker) refl,
      v,
      nobody p (no_head p.workers.list.cell p.workers.list.order e),
      refl,
      refl,
    )
    | inr ((i, w), e) ↦
        let (q, f, x, m, y, c, l) = pop_worker-some p i w v e in
        elim (Bool-cases (net.knows w)) [
          | inr k ↦
              let (r, u, g, x', d, m', y') = find_worker-Delivers n q (omega arith) x in
              (r, u, skipped n i w p q (r, u) e f k g, x', rw (c, k) d, m' ∙ m, y' ∙ y)
          | inl k ↦ elim (Bool-cases (net.takes w)) [
            | inr t ↦ (p, none, refused n i w p e k t, v, rw (c, k, t) refl, refl, refl)
            | inl t ↦ (q, some w, served n i w p q e f k t, x, rw (c, k, t) refl, m, y)
          ]
        ]
  ]

  -- On valid queues a delivery fails no `CHECK` and does what `dispatch` does to the list of the
  -- idle workers: the bound on the rounds is enough, the queues stay valid, and the waiting
  -- messages are left alone.
  pub sendto_worker-dispatch : (p : BusProcesser M) → IsValid p → Delivers p (sendto_worker net p)
  unfolding sendto_worker
  sendto_worker-dispatch p v = find_worker-Delivers _ p (omega arith) v
