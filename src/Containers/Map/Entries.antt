-- ===== src/Containers/Map/Entries.antt =====
-- The entries of an association list: how many there are, and what holds of all the values.
use ris.Base.{
  ◌≡◌, refl, ite, List, [], ◌∷◌, Option, none, some, arith, length, All, ◌≤◌, suc, ite_split,
  ite_both, if_neg, ◌∙◌, sym, subst,
}
use ris.Containers.Map.{find, assign, insert, erase, find-assign, find-insert, find-erase}

module _ {K V : Type 0} (dec : Discrete K) where
  -- No key has two entries.
  abbrev pub Distinct : List (K × V) → Type 0
  Distinct [] = Unit
  Distinct ((k, v) ∷ m) = (find dec k m ≡ none) × Distinct m

  pub length-insert :
      (k : K) (v : V) (m : List (K × V))
      → find dec k m ≡ none
      → length (insert dec k v m) ≡ suc (length m)
  unfolding find insert
  length-insert k v [] h = refl
  length-insert k v ((j, w) ∷ m) h = ground (arith, length-insert k v m)

  pub length-assign :
      (k : K) (v w : V) (m : List (K × V))
      → find dec k m ≡ some w
      → length (assign dec k v m) ≡ length m
  unfolding find assign
  length-assign k v w [] h = ground arith
  length-assign k v w ((j, u) ∷ m) h = ground (arith, length-assign k v w m)

  pub length-erase : (k : K) (m : List (K × V)) → length (erase dec k m) ≤ length m
  unfolding erase
  length-erase k [] = omega arith
  length-erase k ((j, w) ∷ m) = ground (arith, length-erase k m)

  find-insert-other :
      (k j : K) (v : V) (m : List (K × V))
      → ¬ (k ≡ j)
      → find dec j m ≡ none
      → find dec j (insert dec k v m) ≡ none
  unfolding find insert
  find-insert-other k j v [] n h = if_neg (dec k j) n _ _
  find-insert-other k j v ((i, w) ∷ m) n h = ground (arith, find-insert-other k j v m)

  pub insert-Distinct :
      (k : K) (v : V) (m : List (K × V)) → Distinct m → Distinct (insert dec k v m)
  unfolding insert find
  insert-Distinct k v [] d = (refl, d)
  insert-Distinct k v ((j, w) ∷ m) (a, d) =
      ite_split Distinct (dec j k) (λ h. (a, d))
        (λ h. (find-insert-other k j v m (λ e. h (sym e)) a, insert-Distinct k v m d))

  pub assign-Distinct :
      (k : K) (v : V) (m : List (K × V)) → Distinct m → Distinct (assign dec k v m)
  unfolding assign find
  assign-Distinct k v [] d = (refl, d)
  assign-Distinct k v ((j, w) ∷ m) (a, d) =
      ite_split Distinct (dec j k) (λ h. (subst (λ i. find dec i m ≡ none) h a, d))
        (λ h. (
          find-assign dec k j v m ∙ if_neg (dec k j) (λ e. h (sym e)) _ _ ∙ a,
          assign-Distinct k v m d,
        ))

  pub erase-Distinct : (k : K) (m : List (K × V)) → Distinct m → Distinct (erase dec k m)
  unfolding erase find
  erase-Distinct k [] d = d
  erase-Distinct k ((j, w) ∷ m) (a, d) =
      ite_split Distinct (dec j k) (λ h. erase-Distinct k m d)
        (λ h.
          (find-erase dec k j m ∙ if_neg (dec k j) (λ e. h (sym e)) _ _ ∙ a, erase-Distinct k m d))

  module _ (P : V → Type 0) where
    abbrev pub Every : List (K × V) → Type 0
    Every m = All (λ e. P e.1) m

    pub find-Every : (k : K) (v : V) (m : List (K × V)) → Every m → find dec k m ≡ some v → P v
    unfolding find
    find-Every k v [] a e = ground arith
    find-Every k v ((j, w) ∷ m) a e = elim (dec j k) [
      | yes h ↦ subst P (ground arith) a.0
      | no h ↦ find-Every k v m a.1 (ground arith)
    ]

    pub insert-Every : (k : K) (v : V) (m : List (K × V)) → P v → Every m → Every (insert dec k v m)
    unfolding insert
    insert-Every k v [] p a = (p, a)
    insert-Every k v ((j, w) ∷ m) p a = ite_both Every (dec j k) a (a.0, insert-Every k v m p a.1)

    pub assign-Every : (k : K) (v : V) (m : List (K × V)) → P v → Every m → Every (assign dec k v m)
    unfolding assign
    assign-Every k v [] p a = (p, a)
    assign-Every k v ((j, w) ∷ m) p a =
        ite_both Every (dec j k) (p, a.1) (a.0, assign-Every k v m p a.1)

    pub erase-Every : (k : K) (m : List (K × V)) → Every m → Every (erase dec k m)
    unfolding erase
    erase-Every k [] a = a
    erase-Every k ((j, w) ∷ m) a =
        ite_both Every (dec j k) (erase-Every k m a.1) (a.0, erase-Every k m a.1)

  -- A property of each entry that a lookup finds.
  module _ (Q : K → V → Type 0) where
    abbrev pub Found : List (K × V) → Type 0
    Found m = (j : K) (w : V) → find dec j m ≡ some w → Q j w

    found_at :
        (k j : K) (v w : V) (o : Option V) (d : Dec (k ≡ j))
        → ite d (some v) o ≡ some w
        → Q k v
        → (o ≡ some w → Q j w)
        → Q j w
    found_at k j v w o (yes h) e p q = subst (λ i. Q i w) h (subst (λ u. Q k u) (ground arith) p)
    found_at k j v w o (no h) e p q = q e

    pub assign-Found :
        (k : K) (v : V) (m : List (K × V)) → Q k v → Found m → Found (assign dec k v m)
    assign-Found k v m p f j w e =
        found_at k j v w (find dec j m) (dec k j) (sym (find-assign dec k j v m) ∙ e) p (f j w)

    pub insert-Found :
        (k : K) (v : V) (m : List (K × V))
        → find dec k m ≡ none
        → Q k v
        → Found m
        → Found (insert dec k v m)
    insert-Found k v m n p f j w e =
        found_at k j v w (find dec j m) (dec k j) (sym (find-insert dec k j v m n) ∙ e) p (f j w)

    pub erase-Found : (k : K) (m : List (K × V)) → Found m → Found (erase dec k m)
    erase-Found k m f j w e = f j w (kept (dec k j) (sym (find-erase dec k j m) ∙ e))
      where
        kept : {o : Option V} {w : V} (d : Dec (k ≡ j)) → ite d none o ≡ some w → o ≡ some w
        kept (yes h) e = ground arith
        kept (no h) e = e
