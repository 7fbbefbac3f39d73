-- ===== src/BusMsgReply/Counting.antt =====
-- What the counter of a reply object counts: src/buscli/busmsgreply.cxx.
use ris.BusMsgReply.Items.{member-insert}
use ris.Base.{
  ℕ, ◌+◌, ◌==◌, ◌≡◌, refl, ◌∙◌, ap, String, none, some, List, [], ◌∷◌, if◌then◌else◌, arith,
  Bool-cases, inl, inr, length,
}
use ris.BusMsgReply.{BusMsgReply, member, insert, expected, keep, add_reply, fail_all, add_failure}
use ris.BusMsgReply.Answers.{Report, replied, failed, hear, add_reply-IsTold, add_failure-IsTold}

-- The payloads that are targets, as often as they are listed.
unfoldable pub targets : List String → List String → List String
targets expects [] = []
targets expects (p ∷ ps) =
    let rest = targets expects ps in if member p expects then p ∷ rest else rest

-- Each payload once.
unfoldable pub once : List String → List String
once [] = []
once (p ∷ ps) = let rest = once ps in if member p ps then rest else p ∷ rest

-- The number of the targets that the reports for the message settle: those of each reply once, those
-- of a failure as often as it lists them.
unfoldable pub settled : {M : Type 0} → ℕ → List String → List (Report M) → ℕ
settled id expects [] = 0
settled id expects (replied msg_id payloads none ∷ rs) = settled id expects rs
settled id expects (replied msg_id payloads (some m) ∷ rs) =
    let rest = settled id expects rs in
    if msg_id == id then length (once (targets expects payloads)) + rest else rest
settled id expects (failed msg_id payloads ∷ rs) =
    let rest = settled id expects rs in
    if msg_id == id then length (targets expects payloads) + rest else rest

member-targets :
    (p : String) (expects ps : List String)
    → member p (targets expects ps) ≡ member p (expected expects ps)
unfolding targets expected member
member-targets p expects [] = refl
member-targets p expects (q ∷ ps) =
    ground (arith, member-targets p expects ps, member-insert p q (expected expects ps))

expected-once : (expects ps : List String) → expected expects ps ≡ once (targets expects ps)
unfolding expected targets once insert
expected-once expects [] = refl
expected-once expects (p ∷ ps) =
    ground (arith, expected-once expects ps, member-targets p expects ps)

module _ {M : Type 0} where
  keep-count :
      (r : BusMsgReply M) (m : M) (ps : List String) → (keep r m ps).0.count ≡ r.count + length ps
  unfolding keep
  keep-count r m [] = omega arith
  keep-count r m (p ∷ ps) = refl

  fail_all-count :
      (ps : List String) (r : BusMsgReply M)
      → (fail_all r ps).count ≡ r.count + length (targets r.expects ps)
  unfolding fail_all targets
  fail_all-count [] r = omega arith
  fail_all-count (p ∷ ps) r = elim (Bool-cases (member p r.expects)) [
    | inl e ↦
        rw
          (
            e,
            fail_all,
            fail_all-count ps (record r { fails = insert p r.fails; count = r.count + 1 }),
          )
          (omega arith)
    | inr e ↦ rw (e, fail_all, fail_all-count ps r) refl
  ]

  add_reply-count :
      (r : BusMsgReply M) (msg_id : ℕ) (payloads : List String) (m : M)
      → (add_reply r msg_id payloads (some m)).0.count
        ≡ r.count + (if msg_id == r.msg_id then length (once (targets r.expects payloads)) else 0)
  unfolding add_reply
  add_reply-count r msg_id payloads m = elim (Bool-cases (msg_id == r.msg_id)) [
    | inl e ↦ rw e (
        keep-count r m (expected r.expects payloads)
        ∙ ap (λ l. r.count + length l) (expected-once r.expects payloads))
    | inr e ↦ rw e (omega arith)
  ]

  add_failure-count :
      (r : BusMsgReply M) (msg_id : ℕ) (payloads : List String)
      → (add_failure r msg_id payloads).count
        ≡ r.count + (if msg_id == r.msg_id then length (targets r.expects payloads) else 0)
  unfolding add_failure
  add_failure-count r msg_id payloads = elim (Bool-cases (msg_id == r.msg_id)) [
    | inl e ↦ rw e (fail_all-count payloads r)
    | inr e ↦ rw e (omega arith)
  ]

  -- The counter after any reports.
  pub hear-count :
      (r : BusMsgReply M) (rs : List (Report M))
      → (hear r rs).count ≡ r.count + settled r.msg_id r.expects rs
  unfolding hear settled add_reply
  hear-count r [] = omega arith
  hear-count r (replied msg_id payloads none ∷ rs) = hear-count r rs
  hear-count r (replied msg_id payloads (some m) ∷ rs) =
      let r' = (add_reply r msg_id payloads (some m)).0 in
      let t = add_reply-IsTold "" r msg_id payloads m in
      hear-count r' rs
      ∙ rw (t.msg_id, t.expects, add_reply-count r msg_id payloads m) (ground arith)
  hear-count r (failed msg_id payloads ∷ rs) =
      let r' = add_failure r msg_id payloads in
      let t = add_failure-IsTold "" r msg_id payloads in
      hear-count r' rs
      ∙ rw (t.msg_id, t.expects, add_failure-count r msg_id payloads) (ground arith)
