-- ===== src/RegionTable/Updates.antt =====
-- What the observer of a region's table hears is enough to follow it: src/region/regiontable.cxx.
-- A catalogue that equals the table's, and hears the calls that an operation makes, equals the
-- table's afterwards.
use ris.Base.{
  ◌≡◌, refl, sym, ◌∙◌, ap, String, true, List, [], ◌∷◌, ite, str_dec, arith, Option-cases,
  Bool-cases, inl, inr,
}
use ris.Observer.{Event}
use ris.RiTypes.Service
use ris.RiTypes.Service.{Service}
use ris.RiTypes.Payload
use ris.RiTypes.Payload.{Payload}
use ris.Containers.Indexed
use ris.Containers.Indexed.{IsCoherent}
use ris.Containers.Indexed.Contents.{contents-remove}
use ris.RegionProduct.Catalogue.{Catalogue, heard, contents_new, service_key, payload_key}
use ris.RegionTable
use ris.RegionTable.{RegionTable}
use ris.RegionTable.Invariant.{IsValid}

abbrev pub shown : RegionTable → Catalogue
shown t = record {
  region = t.region;
  services = Indexed.contents t.services;
  payloads = Indexed.contents t.payloads;
}

unfoldable pub hear_all : Catalogue → List Event → Catalogue
hear_all c [] = c
hear_all c (e ∷ es) = hear_all (heard c e) es

-- The observer follows the operation.
abbrev pub Follows : RegionTable → RegionTable → List Event → Type 0
Follows t u es = hear_all (shown t) es ≡ shown u

pub ite_self : {A : Type 0} (s : String) (x y : A) → ite (str_dec s s) x y ≡ x
ite_self s x y = elim (str_dec s s) as (λ d. ite d x y ≡ x) [
  | yes h ↦ refl
  | no h ↦ absurd (h refl)
]

module _ (t : RegionTable) (o : t.observed ≡ true) (v : IsValid t) where
  with_services : List Service → Catalogue
  with_services l = record (shown t) { region = RegionTable.bump t.region; services = l }

  with_payloads : List Payload → Catalogue
  with_payloads l = record (shown t) { region = RegionTable.bump t.region; payloads = l }

  pub add_service-Follows :
      (svc : Service)
      → Follows t (RegionTable.add_service t svc).0 (RegionTable.add_service t svc).2
  unfolding RegionTable.add_service RegionTable.insert_service RegionTable.notify RegionTable.bump
      hear_all heard with_services
  add_service-Follows svc = elim (Bool-cases (Service.good svc)) [
    | inr e ↦ rw e refl
    | inl e ↦ elim (Option-cases (Indexed.find str_dec svc.name t.services)) [
      | inr (i, f) ↦ rw (e, f) refl
      | inl f ↦
          rw (e, f, o)
            (ite_self t.region.id _ _
              ∙ ap with_services
                  (sym (contents_new service_key t.services v.services.coherent svc f)))
    ]
  ]

  pub rm_service-Follows :
      (svc : String) → Follows t (RegionTable.rm_service t svc).0 (RegionTable.rm_service t svc).2
  unfolding RegionTable.rm_service RegionTable.delete_service RegionTable.notify RegionTable.bump
      hear_all heard with_services
  rm_service-Follows svc = elim (Option-cases (Indexed.find str_dec svc t.services)) [
    | inl f ↦ rw (f, RegionTable.rm_service) refl
    | inr (i, f) ↦
        rw (f, RegionTable.rm_service, o)
          (ite_self t.region.id _ _
            ∙ ap with_services
                (sym (contents-remove str_dec service_key t.services v.services.coherent svc i f)))
  ]

  pub add_payload-Follows :
      (pl : Payload) → Follows t (RegionTable.add_payload t pl).0 (RegionTable.add_payload t pl).2
  unfolding RegionTable.add_payload RegionTable.insert_payload RegionTable.notify RegionTable.bump
      hear_all heard with_payloads
  add_payload-Follows pl = elim (Bool-cases (Payload.good pl)) [
    | inr e ↦ rw e refl
    | inl e ↦ elim (Option-cases (Indexed.find str_dec pl.id t.payloads)) [
      | inr (i, f) ↦ rw (e, f) refl
      | inl f ↦
          rw (e, f, o)
            (ite_self t.region.id _ _
              ∙ ap with_payloads
                  (sym (contents_new payload_key t.payloads v.payloads.coherent pl f)))
    ]
  ]

  pub rm_payload-Follows :
      (pl : String) → Follows t (RegionTable.rm_payload t pl).0 (RegionTable.rm_payload t pl).2
  unfolding RegionTable.rm_payload RegionTable.delete_payload RegionTable.notify RegionTable.bump
      hear_all heard with_payloads
  rm_payload-Follows pl = elim (Option-cases (Indexed.find str_dec pl t.payloads)) [
    | inl f ↦ rw (f, RegionTable.rm_payload) refl
    | inr (i, f) ↦
        rw (f, RegionTable.rm_payload, o)
          (ite_self t.region.id _ _
            ∙ ap with_payloads
                (sym (contents-remove str_dec payload_key t.payloads v.payloads.coherent pl i f)))
  ]

  pub pub_region-Follows : Follows t t (RegionTable.pub_region t)
  unfolding RegionTable.pub_region RegionTable.notify hear_all heard
  pub_region-Follows = rw o (ite_self t.region.id _ _)

pub add_service-observed :
    (t : RegionTable) (svc : Service) → (RegionTable.add_service t svc).0.observed ≡ t.observed
unfolding RegionTable.add_service RegionTable.insert_service
add_service-observed t svc = ground arith

pub rm_service-observed :
    (t : RegionTable) (svc : String) → (RegionTable.rm_service t svc).0.observed ≡ t.observed
unfolding RegionTable.rm_service RegionTable.delete_service
rm_service-observed t svc = ground arith

pub add_payload-observed :
    (t : RegionTable) (pl : Payload) → (RegionTable.add_payload t pl).0.observed ≡ t.observed
unfolding RegionTable.add_payload RegionTable.insert_payload
add_payload-observed t pl = ground arith

pub rm_payload-observed :
    (t : RegionTable) (pl : String) → (RegionTable.rm_payload t pl).0.observed ≡ t.observed
unfolding RegionTable.rm_payload RegionTable.delete_payload
rm_payload-observed t pl = ground arith
