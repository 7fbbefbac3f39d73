-- ===== src/RegionTable/Refresh/Renewal.antt =====
-- The elements that the stamping loop returns are those that it has renewed in the table, in that
-- order: src/region/regiontable.cxx.
use ris.Base.{
  ℕ, zero, suc, ◌≡◌, refl, sym, ◌∙◌, ap, String, Option, none, some, List, [], ◌∷◌, ◌++◌, true, leb,
  inl, inr, Bool-cases, append-nil, append_assoc, str_dec,
}
use ris.Words.{sub64}
use ris.Containers.NodeList
use ris.Containers.NodeList.{mem, write_self}
use ris.Containers.Indexed
use ris.Containers.Indexed.{Indexed, get}
use ris.Containers.Indexed.Holds.{Holds, Holds-touch}
use ris.RegionProduct.Catalogue.{renew, contents_old}
use ris.RegionTable.Refresh.{begin, refresh_loop, update_timeouted}
use ris.RegionTable.Refresh.Laws.{following-kept, begin-mem}

unfoldable pub renew_all : {V : Type 0} → (V → String) → List V → List V → List V
renew_all key vs [] = vs
renew_all key vs (n ∷ ns) = renew_all key (renew key n vs) ns

module _ {V : Type 0} (key : V → String) (P : V → Type 0) (time : V → ℕ) (stamp : ℕ → V → V)
    (now : ℕ) (key-stamp : (v : V) → key (stamp now v) ≡ key v)
    (P-stamp : (v : V) → P v → P (stamp now v)) where
  -- The loop's result from `t` and `out`.
  Renews : Indexed String V → List V → Indexed String V × List V → Type 0
  Renews t out r =
      (news : List V) × (r.1 ≡ out ++ news)
      × (Indexed.contents r.0 ≡ renew_all key (Indexed.contents t) news)

  set_self : (i : ℕ) (v : V) (t : Indexed String V) → get i (Indexed.set i v t) ≡ v
  unfolding Indexed.set NodeList.set
  set_self i v t = write_self t.list.cell i v

  refresh_loop-Renews :
      (n expired : ℕ) (it : Option ℕ) (t : Indexed String V) (out : List V)
      → ((i : ℕ) → it ≡ some i → mem i t.list.order ≡ true)
      → Holds str_dec key P t
      → Renews t out (refresh_loop time stamp n now expired it t out)
  unfolding refresh_loop Renews renew_all
  refresh_loop-Renews zero expired it t out m h = ([], sym (append-nil out), refl)
  refresh_loop-Renews (suc n) expired none t out m h = ([], sym (append-nil out), refl)
  refresh_loop-Renews (suc n) expired (some i) t out m h =
      elim (Bool-cases (leb (time (get i t)) expired)) [
        | inr e ↦ rw e ([], sym (append-nil out), refl)
        | inl e ↦
            let w = stamp now (get i t) in
            let f =
              ap (λ k. Indexed.find str_dec k t) (key-stamp (get i t))
              ∙ h.coherent.complete i (m i refl) in
            let (news, a, b) =
              refresh_loop-Renews n expired _ (Indexed.to_back i (Indexed.set i w t))
                (out ++ get i (Indexed.set i w t) ∷ [])
                (λ j g. following-kept str_dec key P time stamp now key-stamp P-stamp i j w t h g)
                (Holds-touch str_dec key P i w t (m i refl) (key-stamp _)
                  (P-stamp _ (h.every i (m i refl))) h) in
            rw e (
              w ∷ news,
              a
                  ∙ append_assoc out (get i (Indexed.set i w t) ∷ []) news
                  ∙ ap (λ x. out ++ x ∷ news) (set_self i w t),
              b ∙ ap (λ l. renew_all key l news) (contents_old key t h.coherent w i f),
            )
      ]

  pub update_timeouted-renews :
      (timeout maxcount : ℕ) (t : Indexed String V)
      → Holds str_dec key P t
      → Indexed.contents (update_timeouted time stamp now timeout maxcount t).0
        ≡ renew_all key (Indexed.contents t) (update_timeouted time stamp now timeout maxcount t).1
  unfolding update_timeouted Renews
  update_timeouted-renews timeout maxcount t h =
      let (news, a, b) =
        refresh_loop-Renews maxcount (sub64 now timeout) (begin t.list.order) t []
          (λ i e. begin-mem i t.list.order e) h in
      b ∙ ap (renew_all key (Indexed.contents t)) (sym a)
