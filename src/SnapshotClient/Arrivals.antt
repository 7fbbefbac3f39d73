-- ===== src/SnapshotClient/Arrivals.antt =====
-- The entries of a package as they reach a `RegionProduct`: src/snapshot/snapshotclientworker.cxx.
use ris.Base.{
  ℕ, ◌≡◌, ◌≢◌, refl, ap, true, none, some, [], arith, str_dec, if_pos, is_empty, Option-cases,
  Bool-cases, inl, inr,
}
use ris.RiTypes.Service
use ris.RiTypes.Service.{Service}
use ris.RiTypes.Payload
use ris.RiTypes.Payload.{Payload}
use ris.RiTypes.RoundTrip.{service_round_trip}
use ris.RiTypes.Messages.{SnapshotItem, ServiceMsg, PayloadMsg, service, payload}
use ris.Containers.Indexed
use ris.Containers.Indexed.{Indexed}
use ris.RegionProduct
use ris.RegionProduct.{RegionProduct}
use ris.SnapshotClient.{item, Client, body_message, accept}
use ris.SnapshotClient.Transfer.{builder}

service_decodes :
    (now : ℕ) (s : Service) (i : SnapshotItem)
    → Service.to_snapshot s ≡ some i
    → (m : ServiceMsg) × (i ≡ service m) × (Service.of_protobuf now m ≡ record s { timeval = now })
unfolding Service.to_snapshot
service_decodes now s i e = elim (Option-cases (Service.to_protobuf s)) [
  | inl f ↦ ground arith
  | inr (m, f) ↦ (m, ground arith, service_round_trip now s m f)
]

payload_decodes :
    (now : ℕ) (p : Payload) (i : SnapshotItem)
    → Payload.to_snapshot p ≡ some i
    → (m : PayloadMsg) × (i ≡ payload m) × (Payload.of_protobuf now m ≡ record p { timeval = now })
unfolding Payload.to_snapshot Payload.to_protobuf Payload.of_protobuf
payload_decodes now p i e = elim (Bool-cases (is_empty p.id)) [
  | inl f ↦ ground arith
  | inr f ↦ (record { uuid = p.id }, ground arith, refl)
]

service_stays_good :
    (now : ℕ) (s : Service)
    → now ≢ 0
    → Service.good s ≡ true
    → Service.good (record s { timeval = now }) ≡ true
unfolding Service.good
service_stays_good now s z g = ground arith

payload_stays_good :
    (now : ℕ) (p : Payload)
    → Payload.good p ≡ true
    → Payload.good (record p { timeval = now }) ≡ true
unfolding Payload.good
payload_stays_good now p g = g

module _ (now : ℕ) (c : Client) (b : RegionProduct) (r : b.region.id ≡ c.last_region) where
  add_service_new :
      (s : Service)
      → Indexed.find str_dec s.name b.services ≡ none
      → accept builder c (RegionProduct.add_service b c.last_region s)
        ≡ (c, record b { services = Indexed.append str_dec s.name s b.services }, [])
  unfolding accept RegionProduct.add_service
  add_service_new s f =
      rw f (ap (λ q. accept builder c q) (if_pos (str_dec b.region.id c.last_region) r _ _))

  add_payload_new :
      (p : Payload)
      → Indexed.find str_dec p.id b.payloads ≡ none
      → accept builder c (RegionProduct.add_payload b c.last_region p)
        ≡ (c, record b { payloads = Indexed.append str_dec p.id p b.payloads }, [])
  unfolding accept RegionProduct.add_payload
  add_payload_new p f =
      rw f (ap (λ q. accept builder c q) (if_pos (str_dec b.region.id c.last_region) r _ _))

  pub service_arrives :
      (s : Service) (i : SnapshotItem)
      → now ≢ 0
      → Service.good s ≡ true
      → Service.to_snapshot s ≡ some i
      → Indexed.find str_dec s.name b.services ≡ none
      → body_message builder now c b (item i) ≡ (
        c,
        record b {
          services = Indexed.append str_dec s.name (record s { timeval = now }) b.services;
        },
        [],
      )
  unfolding body_message
  service_arrives s i z g e f =
      let (m, q, d) = service_decodes now s i e in
      rw (q, d, service_stays_good now s z g) (add_service_new (record s { timeval = now }) f)

  pub payload_arrives :
      (p : Payload) (i : SnapshotItem)
      → Payload.good p ≡ true
      → Payload.to_snapshot p ≡ some i
      → Indexed.find str_dec p.id b.payloads ≡ none
      → body_message builder now c b (item i) ≡ (
        c,
        record b { payloads = Indexed.append str_dec p.id (record p { timeval = now }) b.payloads },
        [],
      )
  unfolding body_message
  payload_arrives p i g e f =
      let (m, q, d) = payload_decodes now p i e in
      rw (q, d, payload_stays_good now p g) (add_payload_new (record p { timeval = now }) f)
