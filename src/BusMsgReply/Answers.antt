-- ===== src/BusMsgReply/Answers.antt =====
-- What a sender is told of a payload: src/buscli/busmsgreply.cxx.
use ris.Base.{
  subst, ℕ, ◌+◌, ◌==◌, ◌≡◌, refl, sym, ◌∙◌, String, Bool, false, Option, none, some, List, [], ◌∷◌,
  not, ◌&&◌, ◌||◌, if◌then◌else◌, arith, Bool-cases, inl, inr,
}
use ris.BusMsgReply
use ris.BusMsgReply.Items.{member-expected, either, find_item-append, failure_of, no_failure_of}
use ris.BusMsgReply.{
  BusMsgReply, Item, member, insert, expected, find_item, reply, keep, add_reply, fail_all,
  add_failure,
}

-- What the sender hears from the bus.
pub data Report (M : Type 0) : Type 0 where
  replied : ℕ → List String → Option M → Report M
  failed : ℕ → List String → Report M

unfoldable pub hear : {M : Type 0} → BusMsgReply M → List (Report M) → BusMsgReply M
hear r [] = r
hear r (replied msg_id payloads m ∷ rs) = hear (add_reply r msg_id payloads m).0 rs
hear r (failed msg_id payloads ∷ rs) = hear (add_failure r msg_id payloads) rs

-- Whether a report tells that the payload failed, for the message with the id.
unfoldable pub tells_failure : {M : Type 0} → ℕ → String → List (Report M) → Bool
tells_failure id p [] = false
tells_failure id p (replied msg_id payloads m ∷ rs) = tells_failure id p rs
tells_failure id p (failed msg_id payloads ∷ rs) =
    (msg_id == id && member p payloads) || tells_failure id p rs

-- The first message among the reports that replies for the payload, to the message with the id.
unfoldable pub first_reply : {M : Type 0} → ℕ → String → List (Report M) → Option M
first_reply id p [] = none
first_reply id p (failed msg_id payloads ∷ rs) = first_reply id p rs
first_reply id p (replied msg_id payloads none ∷ rs) = first_reply id p rs
first_reply id p (replied msg_id payloads (some m) ∷ rs) =
    let rest = first_reply id p rs in if msg_id == id && member p payloads then some m else rest

-- The parts of a reply object that decide on the payload.
module _ {M : Type 0} (p : String) where
  pub record IsTold (r r' : BusMsgReply M) (failed : Bool) (answer : Option M) : Type 0 where
    pub msg_id : r'.msg_id ≡ r.msg_id
    pub expects : r'.expects ≡ r.expects
    fails : member p r'.fails ≡ (member p r.fails || failed)
    replys : find_item p r'.replys ≡ either (find_item p r.replys) answer

  either-none : (o : Option M) → either o none ≡ o
  unfolding either
  either-none none = refl
  either-none (some m) = refl

  untold : (r : BusMsgReply M) → IsTold r r false none
  untold r = record {
    msg_id = refl;
    expects = refl;
    fails = ground arith;
    replys = sym (either-none (find_item p r.replys));
  }

  keep-IsTold :
      (r : BusMsgReply M) (m : M) (ps : List String)
      → IsTold r (keep r m ps).0 false (if member p ps then some m else none)
  unfolding keep member find_item
  keep-IsTold r m [] = untold r
  keep-IsTold r m (q ∷ qs) = record {
    msg_id = refl;
    expects = refl;
    fails = ground arith;
    replys = find_item-append p r.replys (record { payloads = q ∷ qs; msg = m } ∷ []);
  }

  pub add_reply-IsTold :
      (r : BusMsgReply M) (msg_id : ℕ) (payloads : List String) (m : M)
      → IsTold r
          (add_reply r msg_id payloads (some m)).0
          false
          (if msg_id == r.msg_id && (member p r.expects && member p payloads) then some m else none)
  unfolding add_reply
  add_reply-IsTold r msg_id payloads m = elim (Bool-cases (msg_id == r.msg_id)) [
    | inl e ↦
        rw (e, add_reply)
          (subst
            (λ b.
              IsTold r (keep r m (expected r.expects payloads)).0 false
                (if b then some m else none))
            (member-expected p r.expects payloads) (keep-IsTold r m (expected r.expects payloads)))
    | inr e ↦ rw (e, add_reply) (untold r)
  ]

  fail_all-IsTold :
      (ps : List String) (r : BusMsgReply M)
      → IsTold r (fail_all r ps) (member p r.expects && member p ps) none
  unfolding fail_all member
  fail_all-IsTold [] r = record {
    msg_id = refl;
    expects = refl;
    fails = ground arith;
    replys = sym (either-none (find_item p r.replys));
  }
  fail_all-IsTold (q ∷ ps) r = elim (Bool-cases (member q r.expects)) [
    | inl e ↦
        let ih = fail_all-IsTold ps (record r { fails = insert q r.fails; count = r.count + 1 }) in
        rw (e, fail_all)
          (record {
            msg_id = ih.msg_id;
            expects = ih.expects;
            fails = failure_of p q ps r.fails r.expects _ e ih.fails;
            replys = ih.replys;
          })
    | inr e ↦
        let ih = fail_all-IsTold ps r in
        rw (e, fail_all)
          (record {
            msg_id = ih.msg_id;
            expects = ih.expects;
            fails = no_failure_of p q ps r.fails r.expects _ e ih.fails;
            replys = ih.replys;
          })
  ]

  pub add_failure-IsTold :
      (r : BusMsgReply M) (msg_id : ℕ) (payloads : List String)
      → IsTold r
          (add_failure r msg_id payloads)
          (msg_id == r.msg_id && (member p r.expects && member p payloads))
          none
  unfolding add_failure
  add_failure-IsTold r msg_id payloads = elim (Bool-cases (msg_id == r.msg_id)) [
    | inl e ↦ rw (e, add_failure) (fail_all-IsTold payloads r)
    | inr e ↦ rw (e, add_failure) (untold r)
  ]

  -- What a report tells, with what the later ones tell.
  and_later :
      (r r' : BusMsgReply M) (rs : List (Report M)) (f g : Bool) (a b : Option M)
      → IsTold r r' f a
      → IsTold r'
          (hear r' rs)
          (member p r'.expects && tells_failure r'.msg_id p rs)
          (if member p r'.expects then first_reply r'.msg_id p rs else none)
      → (f || (member p r.expects && tells_failure r.msg_id p rs)) ≡ g
      → either a (if member p r.expects then first_reply r.msg_id p rs else none) ≡ b
      → IsTold r (hear r' rs) g b
  unfolding either
  and_later r r' rs f g a b t h eg eb = record {
    msg_id = h.msg_id ∙ t.msg_id;
    expects = h.expects ∙ t.expects;
    fails = rw (h.fails, t.fails, t.expects, t.msg_id) (ground arith);
    replys = rw (h.replys, t.replys, t.expects, t.msg_id) (ground arith);
  }

  hear-IsTold :
      (r : BusMsgReply M) (rs : List (Report M))
      → IsTold r
          (hear r rs)
          (member p r.expects && tells_failure r.msg_id p rs)
          (if member p r.expects then first_reply r.msg_id p rs else none)
  unfolding hear tells_failure first_reply either add_reply
  hear-IsTold r [] = record {
    msg_id = refl;
    expects = refl;
    fails = ground arith;
    replys = ground (arith, either-none (find_item p r.replys));
  }
  hear-IsTold r (replied msg_id payloads none ∷ rs) = hear-IsTold r rs
  hear-IsTold r (replied msg_id payloads (some m) ∷ rs) =
      let r' = (add_reply r msg_id payloads (some m)).0 in
      and_later r r' rs _ _ _ _ (add_reply-IsTold r msg_id payloads m) (hear-IsTold r' rs)
        (ground arith) (ground arith)
  hear-IsTold r (failed msg_id payloads ∷ rs) =
      let r' = add_failure r msg_id payloads in
      and_later r r' rs _ _ _ _ (add_failure-IsTold r msg_id payloads) (hear-IsTold r' rs)
        (ground arith) (ground arith)

-- What a sender gets for a payload after any reports: nothing, if the message was not sent to it or
-- a report for the message's id tells that the payload failed; else the first message that replies
-- for it and for that id, if there is one.
pub reply-hear :
    {M : Type 0} (msg_id : ℕ) (payloads : List String) (rs : List (Report M)) (p : String)
    → reply (hear (BusMsgReply.create msg_id payloads) rs) p ≡ (
        if member p payloads && not (tells_failure msg_id p rs)
        then first_reply msg_id p rs
        else none)
unfolding reply BusMsgReply.create member find_item either
reply-hear {M = M} msg_id payloads rs p =
    let h : IsTold {M = M} p _ _ _ _ =
      hear-IsTold p (BusMsgReply.create {M = M} msg_id payloads) rs in
    ground (arith, h.fails, h.replys)
