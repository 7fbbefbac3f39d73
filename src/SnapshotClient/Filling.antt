-- ===== src/SnapshotClient/Filling.antt =====
-- How a `RegionProduct` fills with the entries of a region's table: src/tracker/regionproduct.cxx.
use ris.Base.{
  collect, arith, inr, inl, Option-cases, ℕ, ◌≡◌, ◌≢◌, refl, String, true, some, List, [], ◌∷◌,
  str_dec,
}
use ris.RiTypes.Region
use ris.RiTypes.Region.{Region}
use ris.RiTypes.Service
use ris.RiTypes.Service.{Service}
use ris.RiTypes.Payload
use ris.RiTypes.Payload.{Payload}
use ris.RiTypes.Messages.{region_begin, snapshot_begin, RegionMsg, SnapshotItem}
use ris.Containers.Indexed
use ris.Containers.Indexed.{Indexed}
use ris.Containers.Indexed.Loading.{IsLoading, start-IsLoading, next-IsLoading, end-IsLoading}
use ris.RegionTable
use ris.RegionTable.{RegionTable}
use ris.RegionTable.Updates.{shown}
use ris.RegionTable.Invariant
use ris.RegionProduct
use ris.RegionProduct.{RegionProduct}
use ris.RegionProduct.Catalogue
use ris.RegionProduct.Catalogue.{view, service_key, payload_key}
use ris.SnapshotClient.{item, at_body, body_message}
use ris.SnapshotClient.Arrivals.{service_arrives, payload_arrives}
use ris.SnapshotClient.Transfer.{body_of, builder, untimed_service, untimed_payload, untimed, at}

pub package_parts :
    (t : RegionTable) (built : List SnapshotItem)
    → RegionTable.build_snapshot t ≡ some built
    → (r : RegionMsg) × (sis : List SnapshotItem) × (pis : List SnapshotItem) × (Region.to_protobuf
          t.region
        ≡ some r)
      × (collect Service.to_snapshot (Indexed.contents t.services) ≡ some sis)
      × (collect Payload.to_snapshot (Indexed.contents t.payloads) ≡ some pis)
      × (built ≡ snapshot_begin ∷ region_begin (Region.to_runtime t.region) r ∷ body_of t sis pis)
unfolding RegionTable.build_snapshot Region.to_snapshot_begin
package_parts t built e = elim (Option-cases (Region.to_protobuf t.region)) [
  | inl f ↦ ground arith
  | inr (r, f) ↦ elim (Option-cases (collect Service.to_snapshot (Indexed.contents t.services))) [
    | inl g ↦ ground arith
    | inr (sis, g) ↦
        elim (Option-cases (collect Payload.to_snapshot (Indexed.contents t.payloads))) [
          | inl h ↦ ground arith
          | inr (pis, h) ↦ (r, sis, pis, f, g, h, ground arith)
        ]
  ]
]

module _ (t : RegionTable) (requester : String) where
  -- The product holds the part of the table that has arrived.
  pub record IsFilling (b : RegionProduct) (svcs : List Service) (pls : List Payload) : Type 0 where
    pub named : b.region.id ≡ t.region.id
    pub region :
        ◌≡◌ {A = Region} (record b.region { timeval = 0 }) (record t.region { timeval = 0 })
    pub services :
        IsLoading str_dec service_key untimed_service
          (λ s. Service.good s ≡ true)
          (Indexed.contents t.services)
          b.services
          svcs
    pub payloads :
        IsLoading str_dec payload_key untimed_payload
          (λ p. Payload.good p ≡ true)
          (Indexed.contents t.payloads)
          b.payloads
          pls

  pub filled :
      (b : RegionProduct)
      → IsFilling b [] []
      → Catalogue.IsValid b × (untimed (view b) ≡ untimed (shown t))
  filled b f = (
    record { services = f.services.coherent; payloads = f.payloads.coherent },
    cc (
      f.region,
      end-IsLoading str_dec service_key untimed_service _ _ b.services f.services,
      end-IsLoading str_dec payload_key untimed_payload _ _ b.payloads f.payloads,
    ),
  )

  pub next_service :
      (now : ℕ) (b : RegionProduct) (s : Service) (svcs : List Service) (pls : List Payload)
      (i : SnapshotItem)
      → now ≢ 0
      → Service.to_snapshot s ≡ some i
      → IsFilling b (s ∷ svcs) pls
      → (b' : RegionProduct) × (body_message builder now
            (at requester at_body t.region.id)
            b
            (item i)
          ≡ (at requester at_body t.region.id, b', []))
        × IsFilling b' svcs pls
  next_service now b s svcs pls i z e f =
      let (n, l) =
        next-IsLoading str_dec service_key untimed_service _ _ b.services s
          (record s { timeval = now }) svcs f.services refl refl in
      (
        record b {
          services = Indexed.append str_dec s.name (record s { timeval = now }) b.services;
        },
        service_arrives now (at requester at_body t.region.id) b f.named s i z f.services.complete.0
            e n,
        record { named = f.named; region = f.region; services = l; payloads = f.payloads },
      )

  pub next_payload :
      (now : ℕ) (b : RegionProduct) (p : Payload) (svcs : List Service) (pls : List Payload)
      (i : SnapshotItem)
      → Payload.to_snapshot p ≡ some i
      → IsFilling b svcs (p ∷ pls)
      → (b' : RegionProduct) × (body_message builder now
            (at requester at_body t.region.id)
            b
            (item i)
          ≡ (at requester at_body t.region.id, b', []))
        × IsFilling b' svcs pls
  next_payload now b p svcs pls i e f =
      let (n, l) =
        next-IsLoading str_dec payload_key untimed_payload _ _ b.payloads p
          (record p { timeval = now }) pls f.payloads refl refl in
      (
        record b { payloads = Indexed.append str_dec p.id (record p { timeval = now }) b.payloads },
        payload_arrives now (at requester at_body t.region.id) b f.named p i f.payloads.complete.0 e
            n,
        record { named = f.named; region = f.region; services = f.services; payloads = l },
      )

  pub start-IsFilling :
      (now : ℕ)
      → Invariant.IsValid t
      → IsFilling
          (record RegionProduct.create { region = record t.region { timeval = now } })
          (Indexed.contents t.services)
          (Indexed.contents t.payloads)
  unfolding RegionProduct.create
  start-IsFilling now v = record {
    named = refl;
    region = refl;
    services =
        start-IsLoading str_dec service_key untimed_service _ t.services Service.default v.services;
    payloads =
        start-IsLoading str_dec payload_key untimed_payload _ t.payloads Payload.default v.payloads;
  }
