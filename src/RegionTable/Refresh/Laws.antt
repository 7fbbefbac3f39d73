-- ===== src/RegionTable/Refresh/Laws.antt =====
-- The stamping loop keeps the table coherent and returns few elements, all freshly stamped.
use ris.Base.{
  ℕ, zero, suc, ◌+◌, ◌≤◌, ◌≡◌, refl, Option, none, some, List, [], ◌∷◌, ◌++◌, true, arith, leb,
  length, length-append, inl, inr, Bool-cases, All, All-append, if_pos,
}
use ris.Words.{sub64}
use ris.Containers.NodeList
use ris.Containers.NodeList.{mem, write, unlink, mem-append, mem-unlink, mem_last}
use ris.Containers.Indexed
use ris.Containers.Indexed.{Indexed, get}
use ris.Containers.Indexed.Holds.{Holds, Holds-touch}
use ris.RegionTable.Refresh.{begin, following, refresh_loop, update_timeouted}

following-mem : (i j : ℕ) (is : List ℕ) → following i is ≡ some j → mem j is ≡ true
unfolding following begin mem
following-mem i j [] h = cc
following-mem i j (k ∷ []) h = ground (arith)
following-mem i j (k ∷ n ∷ ns) h = ground (arith, following-mem i j (n ∷ ns))

pub begin-mem : (i : ℕ) (is : List ℕ) → begin is ≡ some i → mem i is ≡ true
unfolding begin mem
begin-mem i [] h = cc
begin-mem i (j ∷ js) h = ground arith

module _ {K V : Type 0} (dec : Discrete K) (key : V → K) (P : V → Type 0) (time : V → ℕ)
    (stamp : ℕ → V → V) (now : ℕ) (key-stamp : (v : V) → key (stamp now v) ≡ key v)
    (P-stamp : (v : V) → P v → P (stamp now v)) where
  pub following-kept :
      (i j : ℕ) (v : V) (t : Indexed K V)
      → Holds dec key P t
      → following i (Indexed.set i v t).list.order ≡ some j
      → mem j (Indexed.to_back i (Indexed.set i v t)).list.order ≡ true
  unfolding Indexed.to_back Indexed.set NodeList.to_back NodeList.set
  following-kept i j v t h e = ground (
    arith,
    following-mem i j t.list.order,
    mem-append j (unlink i t.list.order) (i ∷ []),
    mem-unlink i j t.list.order h.coherent.linked.distinct,
    mem_last i j,
  )

  refresh_loop-Holds :
      (n expired : ℕ) (it : Option ℕ) (t : Indexed K V) (out : List V)
      → ((i : ℕ) → it ≡ some i → mem i t.list.order ≡ true)
      → Holds dec key P t
      → Holds dec key P (refresh_loop time stamp n now expired it t out).0
  unfolding refresh_loop
  refresh_loop-Holds zero expired it t out m h = h
  refresh_loop-Holds (suc n) expired none t out m h = h
  refresh_loop-Holds (suc n) expired (some i) t out m h =
      elim (Bool-cases (leb (time (get i t)) expired)) [
        | inl e ↦ rw (e) (
            refresh_loop-Holds n expired _ _ _ (λ j f. following-kept i j _ t h f)
              (Holds-touch dec key P i (stamp now (get i t)) t (m i refl) (key-stamp _)
                (P-stamp _ (h.every i (m i refl))) h))
        | inr e ↦ rw (e) h
      ]

  -- The loop keeps the table coherent, with the property of its elements.
  pub update_timeouted-Holds :
      (timeout maxcount : ℕ) (t : Indexed K V)
      → Holds dec key P t
      → Holds dec key P (update_timeouted time stamp now timeout maxcount t).0
  unfolding update_timeouted
  update_timeouted-Holds timeout maxcount t h =
      refresh_loop-Holds maxcount (sub64 now timeout) (begin t.list.order) t []
        (λ i e. begin-mem i t.list.order e) h

module _ {K V : Type 0} (time : V → ℕ) (stamp : ℕ → V → V) (now : ℕ) where
  refresh_loop-length :
      (n expired : ℕ) (it : Option ℕ) (t : Indexed K V) (out : List V)
      → length (refresh_loop time stamp n now expired it t out).1 ≤ length out + n
  unfolding refresh_loop
  refresh_loop-length zero expired it t out = omega arith
  refresh_loop-length (suc n) expired none t out = omega arith
  refresh_loop-length (suc n) expired (some i) t out = ground (
    arith,
    length-append out (get i (Indexed.set i (stamp now (get i t)) t) ∷ []),
    refresh_loop-length n expired (following i (Indexed.set i (stamp now (get i t)) t).list.order)
        (Indexed.to_back i (Indexed.set i (stamp now (get i t)) t))
        (out ++ get i (Indexed.set i (stamp now (get i t)) t) ∷ []),
  )

  pub update_timeouted-length :
      (timeout maxcount : ℕ) (t : Indexed K V)
      → length (update_timeouted time stamp now timeout maxcount t).1 ≤ maxcount
  unfolding update_timeouted
  update_timeouted-length timeout maxcount t =
      omega (arith, refresh_loop-length maxcount (sub64 now timeout) (begin t.list.order) t [])

  module _ (time-stamp : (v : V) → time (stamp now v) ≡ now) where
    refresh_loop-stamped :
        (n expired : ℕ) (it : Option ℕ) (t : Indexed K V) (out : List V)
        → All (λ v. time v ≡ now) out
        → All (λ v. time v ≡ now) (refresh_loop time stamp n now expired it t out).1
    unfolding refresh_loop Indexed.set NodeList.set write
    refresh_loop-stamped zero expired it t out a = a
    refresh_loop-stamped (suc n) expired none t out a = a
    refresh_loop-stamped (suc n) expired (some i) t out a =
        elim (Bool-cases (leb (time (get i t)) expired)) [
          | inl e ↦ rw e (
              refresh_loop-stamped n expired _ _ _ (
                All-append (λ v. time v ≡ now) out _ a
                  (rw (if_pos _ refl) (time-stamp (get i t)), tt)))
          | inr e ↦ rw e a
        ]

    -- What is returned bears the present time.
    pub update_timeouted-stamped :
        (timeout maxcount : ℕ) (t : Indexed K V)
        → All (λ v. time v ≡ now) (update_timeouted time stamp now timeout maxcount t).1
    unfolding update_timeouted
    update_timeouted-stamped timeout maxcount t =
        refresh_loop-stamped maxcount (sub64 now timeout) (begin t.list.order) t [] tt
