-- ===== src/TrackerTable/Invariant/Carry.antt =====
-- What the table holds carries over to a table with the same services or payloads.
use ris.Base.{ℕ, ◌≡◌, ap, List, Option, true, str_dec}
use ris.Containers.Map
use ris.Containers.NodeList.{mem}
use ris.Containers.Indexed.Holds.{Holds-map}
use ris.TrackerTable.{TrackerTable}
use ris.TrackerTable.Invariant.{HasServices, HasPayloads, Owned}
use ris.TrackerTable.Invariant.Unlink.{HasServices_alike}

Owned-mono :
    (live more : List ℕ) (r : Option ℕ)
    → ((p : ℕ) → mem p live ≡ true → mem p more ≡ true)
    → Owned live r
    → Owned more r
Owned-mono live more r sub (p, e, m) = (p, e, sub p m)

pub services_with :
    (live more : List ℕ) (t u : TrackerTable)
    → u.services ≡ t.services
    → u.services_index ≡ t.services_index
    → ((p : ℕ) → mem p live ≡ true → mem p more ≡ true)
    → HasServices live t
    → HasServices more u
services_with live more t u e f sub v =
    HasServices_alike live more t u
      (record {
        nodes = λ i. ap (λ s. mem i s.order) e;
        names = λ i. ap (λ s. (s.cell i).service.name) e;
        owners = λ i. ap (λ s. (s.cell i).region) e;
        index = λ n. ap (Map.find str_dec n) f;
      })
      (rw e v.linked) sub v

pub payloads_with :
    (live more : List ℕ) (t u : TrackerTable)
    → u.payloads ≡ t.payloads
    → ((p : ℕ) → mem p live ≡ true → mem p more ≡ true)
    → HasPayloads live t
    → HasPayloads more u
payloads_with live more t u e sub v =
    rw e (Holds-map str_dec _ _ _ t.payloads (λ rp o. Owned-mono live more rp.region sub o) v)
