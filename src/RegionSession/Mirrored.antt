-- ===== src/RegionSession/Mirrored.antt =====
-- What the calls of sessions do to a product that follows the region: src/regioncli/
-- regionsession.cxx, src/region/regionactor.cxx, src/region/regiontable.cxx and src/tracker/
-- regionproduct.cxx.
use ris.Base.{ℕ, ◌≡◌, refl, sym, ◌∙◌, ap, String, true, List, [], ◌∷◌, ◌++◌, ◌&&◌, if_both, subst}
use ris.Observer.{Event}
use ris.RegionTable.{RegionTable}
use ris.RegionTable.Invariant
use ris.RegionTable.Updates.{
  shown, hear_all, Follows, add_service-Follows, rm_service-Follows, add_payload-Follows,
  rm_payload-Follows, add_service-observed, rm_service-observed, add_payload-observed,
  rm_payload-observed,
}
use ris.RegionTable.Mirror.{handle_all, handle_all-hear_all, hear_all-append}
use ris.RegionProduct.{RegionProduct}
use ris.RegionProduct.Catalogue
use ris.RegionProduct.Catalogue.{view}
use ris.RegionSession.{RegionSession}
use ris.RegionSession.Calls.{
  Call, news_payload, removes_payload, news_service, removes_service, perform, Performed, complete,
  meant, told, perform-meant, meant-IsValid,
}

-- The calls of any sessions, one after another, each with the clock that it is handled at.
unfoldable pub perform_all :
    String → RegionTable → List (ℕ × RegionSession × Call) → RegionTable × List Event
perform_all uuid t [] = (t, [])
perform_all uuid t ((now, s, c) ∷ cs) =
    let r = perform now uuid t s c in let (u, es) = perform_all uuid r.0 cs in (u, r.1 ++ es)

-- The table is valid and observed after the call, and the observer can follow it.
record IsFollowed (t : RegionTable) (r : Performed) : Type 0 where
  valid : Invariant.IsValid r.0
  observed : r.0.observed ≡ true
  follows : Follows t r.0 r.1

meant-IsFollowed :
    (now : ℕ) (uuid : String) (t : RegionTable) (c : Call)
    → t.observed ≡ true
    → Invariant.IsValid t
    → IsFollowed t (told (meant now uuid t c))
unfolding meant
meant-IsFollowed now uuid t (news_payload id) o v = record {
  valid = meant-IsValid now uuid t (news_payload id) v;
  observed = add_payload-observed t _ ∙ o;
  follows = add_payload-Follows t o v _;
}
meant-IsFollowed now uuid t (removes_payload id) o v = record {
  valid = meant-IsValid now uuid t (removes_payload id) v;
  observed = rm_payload-observed t id ∙ o;
  follows = rm_payload-Follows t o v id;
}
meant-IsFollowed now uuid t (news_service name address) o v = record {
  valid = meant-IsValid now uuid t (news_service name address) v;
  observed = add_service-observed t _ ∙ o;
  follows = add_service-Follows t o v _;
}
meant-IsFollowed now uuid t (removes_service name) o v = record {
  valid = meant-IsValid now uuid t (removes_service name) v;
  observed = rm_service-observed t name ∙ o;
  follows = rm_service-Follows t o v name;
}

perform-IsFollowed :
    (now : ℕ) (uuid : String) (t : RegionTable) (s : RegionSession) (c : Call)
    → t.observed ≡ true
    → Invariant.IsValid t
    → IsFollowed t (perform now uuid t s c)
unfolding hear_all
perform-IsFollowed now uuid t s c o v = subst (IsFollowed t) (sym (perform-meant now uuid t s c)) (
    if_both (IsFollowed t) (s.has_req && complete c) (meant-IsFollowed now uuid t c o v)
      (record { valid = v; observed = o; follows = refl }))

all_followed :
    (uuid : String) (t : RegionTable) (cs : List (ℕ × RegionSession × Call))
    → t.observed ≡ true
    → Invariant.IsValid t
    → Follows t (perform_all uuid t cs).0 (perform_all uuid t cs).1
      × Invariant.IsValid (perform_all uuid t cs).0
unfolding perform_all hear_all
all_followed uuid t [] o v = (refl, v)
all_followed uuid t ((now, s, c) ∷ cs) o v =
    let f = perform-IsFollowed now uuid t s c o v in
    let r = perform now uuid t s c in
    let later = perform_all uuid r.0 cs in
    let (k, x) = all_followed uuid r.0 cs f.observed f.valid in
    (hear_all-append (shown t) r.1 later.1 ∙ ap (λ d. hear_all d later.1) f.follows ∙ k, x)

-- A product that shows what a region's observed table holds hears what the region publishes while
-- any sessions make any calls, one after another. Afterwards the product shows what the table
-- holds, and the table is valid.
pub sessions_mirrored :
    (uuid : String) (t : RegionTable) (cs : List (ℕ × RegionSession × Call)) (p : RegionProduct)
    → t.observed ≡ true
    → Invariant.IsValid t
    → Catalogue.IsValid p
    → view p ≡ shown t
    → let (u, es) = perform_all uuid t cs in
      (view (handle_all p es) ≡ shown u) × Invariant.IsValid u
sessions_mirrored uuid t cs p o v w h =
    let (k, x) = all_followed uuid t cs o v in
    (
      (handle_all-hear_all p (perform_all uuid t cs).1 w).1
          ∙ ap (λ c. hear_all c (perform_all uuid t cs).1) h
          ∙ k,
      x,
    )
