-- ===== src/RegionTable/Refresh.antt =====
-- `update_timeouted_service` and `update_timeouted_payload` of src/region/regiontable.cxx, which
-- differ in the element type alone: from the front of the list, stamp the elements whose time has
-- run out with the present time, move them to the back, and return copies of them.
pub mod Laws
pub mod Renewal
use ris.Base.{ℕ, zero, suc, Option, none, some, List, [], ◌∷◌, ◌++◌, leb, if◌then◌else◌, ◌==◌}
use ris.Words.{sub64}
use ris.Containers.Indexed
use ris.Containers.Indexed.{Indexed, get}

-- `l.begin()`; `none` is `l.end()`.
unfoldable pub begin : List ℕ → Option ℕ
begin [] = none
begin (i ∷ is) = some i

-- `++it`
unfoldable pub following : ℕ → List ℕ → Option ℕ
unfolding begin
following i [] = none
following i (j ∷ js) = if j == i then begin js else following i js

module _ {K V : Type 0} (time : V → ℕ) (stamp : ℕ → V → V) where
  -- The loop, with `maxcount - count` rounds left.
  unfoldable pub refresh_loop : ℕ → ℕ → ℕ → Option ℕ → Indexed K V → List V → Indexed K V × List V
  refresh_loop zero now expired it t out = (t, out)
  refresh_loop (suc n) now expired none t out = (t, out)
  refresh_loop (suc n) now expired (some it) t out =
      let t' = Indexed.set it (stamp now (get it t)) t in
      let rest =
        refresh_loop n now expired (following it t'.list.order) (Indexed.to_back it t')
          (out ++ get it t' ∷ []) in
      if leb (time (get it t)) expired then rest else (t, out)

  unfoldable pub update_timeouted : ℕ → ℕ → ℕ → Indexed K V → Indexed K V × List V
  unfolding refresh_loop begin following
  update_timeouted now timeout maxcount t =
      refresh_loop maxcount now (sub64 now timeout) (begin t.list.order) t []
