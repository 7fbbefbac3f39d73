-- ===== src/BusMsgReply/Items.antt =====
-- The sets of payloads and the items of a reply object: src/buscli/busmsgreply.cxx.
use ris.Base.{
  ◌≡◌, refl, ap, String, true, false, Option, none, some, List, [], ◌∷◌, ◌++◌, str_dec, ◌&&◌, ◌||◌,
  ite, arith,
}
use ris.BusMsgReply.{Item, member, insert, expected, find_item}

pub member-insert :
    (p q : String) (qs : List String)
    → member p (insert q qs) ≡ ite (str_dec q p) true (member p qs)
unfolding insert member
member-insert p q qs = elim (str_dec q p) [
  | yes e ↦ ground (arith, ap (λ x. member x qs) e)
  | no n ↦ ground arith
]

pub member-expected :
    (p : String) (expects ps : List String)
    → member p (expected expects ps) ≡ (member p expects && member p ps)
unfolding expected member
member-expected p expects [] = ground arith
member-expected p expects (q ∷ ps) = elim (str_dec q p) [
  | yes e ↦ ground (
    arith,
    member-insert p q (expected expects ps),
    member-expected p expects ps,
    ap (λ x. member x expects) e,
  )
  | no n ↦ ground (arith, member-insert p q (expected expects ps), member-expected p expects ps)
]

-- The first of two answers.
unfoldable pub either : {M : Type 0} → Option M → Option M → Option M
either none b = b
either (some a) b = some a

pub find_item-append :
    {M : Type 0} (p : String) (its js : List (Item M))
    → find_item p (its ++ js) ≡ either (find_item p its) (find_item p js)
unfolding find_item either
find_item-append p [] js = refl
find_item-append p (it ∷ its) js = ground (arith, find_item-append p its js)

-- One more payload that is expected fails.
pub failure_of :
    (p q : String) (ps fails expects fails' : List String)
    → member q expects ≡ true
    → member p fails' ≡ (member p (insert q fails) || (member p expects && member p ps))
    → member p fails' ≡ (member p fails || (member p expects && member p (q ∷ ps)))
unfolding member
failure_of p q ps fails expects fails' e h = elim (str_dec q p) [
  | yes f ↦ ground (arith, member-insert p q fails, ap (λ x. member x expects) f)
  | no n ↦ ground (arith, member-insert p q fails)
]

-- One more payload that is not expected changes nothing.
pub no_failure_of :
    (p q : String) (ps fails expects fails' : List String)
    → member q expects ≡ false
    → member p fails' ≡ (member p fails || (member p expects && member p ps))
    → member p fails' ≡ (member p fails || (member p expects && member p (q ∷ ps)))
unfolding member
no_failure_of p q ps fails expects fails' e h = elim (str_dec q p) [
  | yes f ↦ ground (arith, ap (λ x. member x expects) f)
  | no n ↦ ground arith
]
