-- ===== src/RegionSubCacher/Continuity.antt =====
-- When `RegionSubCacher::present` accepts the updates that it has kept: src/tracker/
-- regionsubcacher.cxx.
use ris.Base.{
  ℕ, ◌≡◌, ◌≢◌, refl, sym, ◌∙◌, ap, String, Option, some, none, List, [], ◌∷◌, ◌++◌, arith, ◌+◌,
  collect, Option-cases, inl, inr, All, ℕ_discrete, ◌↔◌, ◌<◌, ◌^◌,
}
use ris.Words.{u32}
use ris.Observer.{Event, Status, ok, failed}
use ris.PubData
use ris.PubData.{PubData}
use ris.RegionSubCacher.{RegionSubCacher, drop_until, present_from, present, left_over}

-- The versions of the updates, from the first on, are `v`, `v + 1`, … modulo 2 ^ 32.
abbrev pub IsConsecutive : ℕ → List PubData → Type 0
IsConsecutive v [] = Unit {0}
IsConsecutive v (d ∷ ds) = (d.version ≡ v) × IsConsecutive (u32 (v + 1)) ds

-- The first update with a version splits the queue.
abbrev pub StartsAt : ℕ → List PubData → List PubData → List PubData → PubData → Type 0
StartsAt v queue old ds d = (queue ≡ old ++ d ∷ ds) × (d.version ≡ v) × All (λ o. o.version ≢ v) old

none_ne : (es : List Event) → none ≢ some es
none_ne es e = cc

-- Continuous updates, all of a known kind, are presented to the end.
present_from-IsConsecutive :
    (region : String) (v : ℕ) (ds : List PubData) (es : List Event)
    → IsConsecutive v ds
    → collect (λ d. PubData.present d region) ds ≡ some es
    → present_from region v ds ≡ some (es, [])
unfolding present_from collect
present_from-IsConsecutive region v [] es c e = ground arith
present_from-IsConsecutive region v (d ∷ ds) es c e =
    elim (Option-cases (PubData.present d region)) [
      | inl n ↦ absurd (none_ne es (sym (rw (n, collect) refl) ∙ e))
      | inr (x, p) ↦ elim (Option-cases (collect (λ d. PubData.present d region) ds)) [
        | inl n ↦ ground arith
        | inr (xs, q) ↦ ground (arith, present_from-IsConsecutive region (u32 (v + 1)) ds xs c.1 q)
      ]
    ]

-- Updates that are presented to the end are continuous.
present_from_all :
    (region : String) (v : ℕ) (ds : List PubData) (es : List Event)
    → present_from region v ds ≡ some (es, [])
    → IsConsecutive v ds × (collect (λ d. PubData.present d region) ds ≡ some es)
unfolding present_from collect
present_from_all region v [] es e = (tt, ground arith)
present_from_all region v (d ∷ ds) es e = elim (ℕ_discrete d.version v) [
  | no h ↦ ground arith
  | yes h ↦ elim (Option-cases (PubData.present d region)) [
    | inl n ↦ ground arith
    | inr (x, p) ↦ elim (Option-cases (present_from region (u32 (v + 1)) ds)) [
      | inl n ↦ ground arith
      | inr ((xs, left), q) ↦
          let k : left ≡ [] = ground arith in
          let (c, f) = present_from_all region (u32 (v + 1)) ds xs (q ∙ ap (λ l. some (xs, l)) k) in
          ((h, c), ground arith)
    ]
  ]
]

drop_until-StartsAt :
    (v : ℕ) (queue old ds : List PubData) (d : PubData)
    → StartsAt v queue old ds d
    → drop_until v queue ≡ some ds
unfolding drop_until
drop_until-StartsAt v queue [] ds d (q, e, a) = rw q (ground arith)
drop_until-StartsAt v queue (o ∷ old) ds d (q, e, a) =
    rw q (ground (arith, drop_until-StartsAt v (old ++ d ∷ ds) old ds d (refl, e, a.1)))

drop_until_split :
    (v : ℕ) (queue ds : List PubData)
    → drop_until v queue ≡ some ds
    → (old : List PubData) × (d : PubData) × StartsAt v queue old ds d
unfolding drop_until
drop_until_split v [] ds e = cc
drop_until_split v (q ∷ queue) ds e = elim (ℕ_discrete q.version v) [
  | yes h ↦ ([], q, (ground arith, h, tt))
  | no h ↦
      let (old, d, (s, f, a)) = drop_until_split v queue ds (ground arith) in
      (q ∷ old, d, (ap (λ l. q ∷ l) s, f, (h, a)))
]

abbrev emptied : RegionSubCacher → RegionSubCacher
emptied c = record c { updates = [] }

module _ (c : RegionSubCacher) (version : ℕ) where
  present_missing :
      drop_until version c.updates ≡ none → present c version ≡ some (emptied c, failed, [])
  unfolding present
  present_missing n = rw (n, present) refl

  present_stuck :
      (ds : List PubData)
      → drop_until version c.updates ≡ some ds
      → present_from c.region_id (u32 (version + 1)) ds ≡ none
      → present c version ≡ none
  unfolding present
  present_stuck ds f n = rw (f, present, n) refl

  present_done :
      (ds left : List PubData) (es : List Event)
      → drop_until version c.updates ≡ some ds
      → present_from c.region_id (u32 (version + 1)) ds ≡ some (es, left)
      → present c version ≡ some (emptied c, left_over left, es)
  unfolding present
  present_done ds left es f n = rw (f, present, n) refl

  left_over-ok :
      (left : List PubData) (xs es : List Event)
      → ◌≡◌ {A = Option (RegionSubCacher × Status × List Event)}
          (some (emptied c, left_over left, xs))
          (some (emptied c, ok, es))
      → (left ≡ []) × (xs ≡ es)
  unfolding left_over
  left_over-ok [] xs es e = (refl, ground arith)
  left_over-ok (d ∷ left) xs es e = ground arith

-- `present` succeeds, with the calls `es`, exactly when the queue holds an update of the version,
-- the updates after the first such one have the next versions without a gap or a repetition, and
-- `es` are the calls of these updates, in order.
pub present-ok_iff :
    (c : RegionSubCacher) (version : ℕ) (es : List Event)
    → (present c version ≡ some (record c { updates = [] }, ok, es)) ↔ (
        (old : List PubData) × (ds : List PubData) × (d : PubData) × StartsAt version c.updates old
          ds d
        × IsConsecutive (u32 (version + 1)) ds
        × (collect (λ d. PubData.present d c.region_id) ds ≡ some es))
unfolding left_over
present-ok_iff c version es = (
  λ e. elim (Option-cases (drop_until version c.updates)) [
    | inl n ↦ ground (arith, present_missing c version n)
    | inr (ds, f) ↦ elim (Option-cases (present_from c.region_id (u32 (version + 1)) ds)) [
      | inl n ↦ ground (arith, present_stuck c version ds f n)
      | inr ((xs, left), p) ↦
          let (k, q) =
            left_over-ok c version left xs es (sym (present_done c version ds left xs f p) ∙ e) in
          let (a, b) =
            present_from_all c.region_id (u32 (version + 1)) ds xs (p ∙ ap (λ l. some (xs, l)) k) in
          let (old, d, s) = drop_until_split version c.updates ds f in
          (old, ds, d, s, a, b ∙ ap some q)
    ]
  ],
  λ (old, ds, d, s, k, e).
      present_done c version ds [] es (drop_until-StartsAt version c.updates old ds d s)
        (present_from-IsConsecutive c.region_id (u32 (version + 1)) ds es k e),
)

next_ne : (v : ℕ) → v < 2 ^ 32 → v ≢ u32 (v + 1)
next_ne v h e = ground arith

from_repeated :
    (region : String) (v : ℕ) (again : PubData) (ds : List PubData)
    → v < 2 ^ 32
    → again.version ≡ v
    → present_from region (u32 (v + 1)) (again ∷ ds) ≡ some ([], again ∷ ds)
unfolding present_from
from_repeated region v again ds h e = ground (arith, next_ne v h)

-- When the update that follows the first one of the snapshot's version has that version too, as a
-- republished service or payload has, `present` fails and presents nothing.
pub present_repeated :
    (c : RegionSubCacher) (version : ℕ) (old ds : List PubData) (d again : PubData)
    → version < 2 ^ 32
    → StartsAt version c.updates old (again ∷ ds) d
    → again.version ≡ version
    → present c version ≡ some (record c { updates = [] }, failed, [])
unfolding left_over
present_repeated c version old ds d again h s e =
    present_done c version (again ∷ ds) (again ∷ ds) []
      (drop_until-StartsAt version c.updates old (again ∷ ds) d s)
      (from_repeated c.region_id version again ds h e)
