-- ===== src/TrackerTable/Payloads.antt =====
-- The payloads of the tracker's table: src/tracker/trackertable.cxx, `doRmPayload`, and the
-- insertion that `onPayload` and `merge` share.
use ris.Base.{◌>>=◌, ℕ, String, ite, Option, none, some, List, [], ◌∷◌, str_dec, ℕ_discrete}
use ris.RiTypes.Payload.{Payload}
use ris.Containers.Indexed
use ris.TrackerTable.{TrackerTable, RegionPayload}

-- The payload of the region at `regit`: a payload of another region changes hands. The log line that
-- names the other region, and reads its pointer to do so, is left out.
unfoldable pub put_payload : TrackerTable → ℕ → Payload → TrackerTable
put_payload t regit pl =
    let rp : RegionPayload = record { region = some regit; payload = pl } in
    elim (Indexed.find str_dec pl.id t.payloads) [
      | none ↦ record t { payloads = Indexed.append str_dec pl.id rp t.payloads }
      | some it ↦ record t { payloads = Indexed.to_back it (Indexed.set it rp t.payloads) }
    ]

-- Only the region that a payload belongs to can remove it.
unfoldable pub do_rm_payload : TrackerTable → String → String → TrackerTable
do_rm_payload t region pl = elim (Indexed.find str_dec region t.regions) [
  | none ↦ t
  | some regit ↦ elim (Indexed.find str_dec pl t.payloads) [
    | none ↦ t
    | some it ↦ elim (Indexed.get it t.payloads).region [
      | none ↦ t
      | some p ↦
          ite (ℕ_discrete p regit) (record t { payloads = Indexed.remove str_dec pl it t.payloads })
            t
    ]
  ]
]

-- The body of the loop of `doRmRegion` over the payloads: a node of the region at `regptr` goes.
-- `none` is the failed `CHECK` that the id of the payload is in the index.
unfoldable pub rm_payload_of : ℕ → ℕ → TrackerTable → Option TrackerTable
rm_payload_of regptr it t =
    let id = (Indexed.get it t.payloads).payload.id in
    elim (Indexed.get it t.payloads).region [
      | none ↦ some t
      | some p ↦
          ite (ℕ_discrete p regptr)
            (elim (Indexed.find str_dec id t.payloads) [
              | none ↦ none
              | some i ↦ some (record t { payloads = Indexed.remove str_dec id it t.payloads })
            ])
            (some t)
    ]

unfoldable pub rm_payloads_of : ℕ → List ℕ → TrackerTable → Option TrackerTable
rm_payloads_of regptr [] t = some t
rm_payloads_of regptr (it ∷ its) t = do t' ← rm_payload_of regptr it t; rm_payloads_of regptr its t'
