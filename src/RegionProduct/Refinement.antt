-- ===== src/RegionProduct/Refinement.antt =====
-- A `RegionProduct` does with its indexed lists what a catalogue of plain lists does: src/tracker/
-- regionproduct.cxx.
use ris.Base.{ℕ, ◌≡◌, refl, sym, ap, String, some, none, ite, str_dec, Option-cases, inl, inr}
use ris.Observer.{
  Event, on_region, on_rm_region, on_service, on_rm_service, on_payload, on_rm_payload,
}
use ris.Containers.NodeList
use ris.Containers.Indexed
use ris.Containers.Indexed.{Indexed, IsCoherent, empty-IsCoherent, remove-IsCoherent}
use ris.Containers.Indexed.Contents.{remove_by, contents-remove}
use ris.RiTypes.Service
use ris.RiTypes.Service.{Service}
use ris.RiTypes.Payload
use ris.RiTypes.Payload.{Payload}
use ris.RegionProduct
use ris.RegionProduct.{RegionProduct}
use ris.RegionProduct.Catalogue.{
  Catalogue, IsValid, view, heard, service_key, payload_key, missing, put_service_lem,
  put_payload_lem,
}

-- The product is valid and shows the catalogue.
abbrev pub Shows : RegionProduct → Catalogue → Type 0
Shows p c = IsValid p × (view p ≡ c)

ite-Shows :
    {P : Type 0} (d : Dec P) (p q : RegionProduct) (c e : Catalogue)
    → Shows p c
    → Shows q e
    → Shows (ite d p q) (ite d c e)
ite-Shows (yes h) p q c e s r = s
ite-Shows (no h) p q c e s r = r

rm_service_Shows :
    (p : RegionProduct) (version : ℕ) (svc : String)
    → IsValid p
    → Shows
        (elim (Indexed.find str_dec svc p.services) [
          | none ↦ RegionProduct.set_version p version
          | some it ↦ record (RegionProduct.set_version p version) {
            services = Indexed.remove str_dec svc it p.services;
          }
        ])
        (record (view p) {
          region = record p.region { version = version };
          services = remove_by str_dec service_key svc (view p).services;
        })
unfolding RegionProduct.set_version
rm_service_Shows p version svc v = elim (Option-cases (Indexed.find str_dec svc p.services)) [
  | inl e ↦ rw e (
    record { services = v.services; payloads = v.payloads },
    ap (λ l. record (view p) { region = record p.region { version = version }; services = l })
        (sym (missing service_key p.services v.services svc e)),
  )
  | inr (i, e) ↦ rw e (
    record {
      services = remove-IsCoherent str_dec service_key svc i p.services e v.services;
      payloads = v.payloads;
    },
    ap (λ l. record (view p) { region = record p.region { version = version }; services = l })
        (contents-remove str_dec service_key p.services v.services svc i e),
  )
]

rm_payload_Shows :
    (p : RegionProduct) (version : ℕ) (pl : String)
    → IsValid p
    → Shows
        (elim (Indexed.find str_dec pl p.payloads) [
          | none ↦ RegionProduct.set_version p version
          | some it ↦ record (RegionProduct.set_version p version) {
            payloads = Indexed.remove str_dec pl it p.payloads;
          }
        ])
        (record (view p) {
          region = record p.region { version = version };
          payloads = remove_by str_dec payload_key pl (view p).payloads;
        })
unfolding RegionProduct.set_version
rm_payload_Shows p version pl v = elim (Option-cases (Indexed.find str_dec pl p.payloads)) [
  | inl e ↦ rw e (
    record { services = v.services; payloads = v.payloads },
    ap (λ l. record (view p) { region = record p.region { version = version }; payloads = l })
        (sym (missing payload_key p.payloads v.payloads pl e)),
  )
  | inr (i, e) ↦ rw e (
    record {
      services = v.services;
      payloads = remove-IsCoherent str_dec payload_key pl i p.payloads e v.payloads;
    },
    ap (λ l. record (view p) { region = record p.region { version = version }; payloads = l })
        (contents-remove str_dec payload_key p.payloads v.payloads pl i e),
  )
]

-- Whatever call a valid product hears, it stays valid and shows the catalogue that heard the same.
pub handle-heard :
    (p : RegionProduct) (e : Event)
    → IsValid p
    → IsValid (RegionProduct.handle p e) × (view (RegionProduct.handle p e) ≡ heard (view p) e)
unfolding RegionProduct.handle RegionProduct.handle_region RegionProduct.handle_rm_region
    RegionProduct.handle_service RegionProduct.handle_rm_service RegionProduct.handle_payload
    RegionProduct.handle_rm_payload RegionProduct.set_version heard Indexed.empty NodeList.empty
handle-heard p (on_region reg) v =
    ite-Shows (str_dec reg.id p.region.id) (record p { region = reg }) p _ _
      (record { services = v.services; payloads = v.payloads }, refl) (v, refl)
handle-heard p (on_rm_region reg) v =
    ite-Shows (str_dec p.region.id reg) _ p _ _
      (
        record {
          services = empty-IsCoherent str_dec service_key Service.default;
          payloads = empty-IsCoherent str_dec payload_key Payload.default;
        },
        refl,
      )
      (v, refl)
handle-heard p (on_service reg version svc) v =
    let (c, e) = put_service_lem p.services svc v.services in
    ite-Shows (str_dec p.region.id reg) _ p _ _
      (
        record { services = c; payloads = v.payloads },
        ap (λ l. record (view p) { region = record p.region { version = version }; services = l })
            e,
      )
      (v, refl)
handle-heard p (on_rm_service reg version svc) v =
    ite-Shows (str_dec p.region.id reg) _ p _ _ (rm_service_Shows p version svc v) (v, refl)
handle-heard p (on_payload reg version pl) v =
    let (c, e) = put_payload_lem p.payloads pl v.payloads in
    ite-Shows (str_dec p.region.id reg) _ p _ _
      (
        record { services = v.services; payloads = c },
        ap (λ l. record (view p) { region = record p.region { version = version }; payloads = l })
            e,
      )
      (v, refl)
handle-heard p (on_rm_payload reg version pl) v =
    ite-Shows (str_dec p.region.id reg) _ p _ _ (rm_payload_Shows p version pl v) (v, refl)
