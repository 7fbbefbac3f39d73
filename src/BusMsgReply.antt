-- ===== src/BusMsgReply.antt =====
-- `BusMsgReply`: include/buscli/busmsgreply.h and src/buscli/busmsgreply.cxx. What a sender on the
-- bus has heard of a message that it waits for. A `std::set` is a list with no element twice; a
-- message is a value of a type `M`.
pub mod Items
pub mod Answers
pub mod Counting
use ris.Base.{
  ℕ, ◌+◌, ◌==◌, String, Bool, true, false, Option, none, some, List, [], ◌∷◌, ◌++◌, if◌then◌else◌,
  ite, length, str_dec, not,
}

unfoldable pub member : String → List String → Bool
member p [] = false
member p (q ∷ qs) = ite (str_dec q p) true (member p qs)

-- `std::set::insert`
unfoldable pub insert : String → List String → List String
insert p qs = if member p qs then qs else p ∷ qs

-- `BusMsgReplyItem`
pub record Item (M : Type 0) : Type 0 where
  pub payloads : List String
  pub msg : M

pub record BusMsgReply (M : Type 0) : Type 0 where
  pub msg_id : ℕ
  pub expects : List String
  pub count : ℕ
  pub fails : List String
  pub replys : List (Item M)

-- The set of the payloads that are expected.
unfoldable pub expected : List String → List String → List String
expected expects [] = []
expected expects (p ∷ ps) =
    let rest = expected expects ps in if member p expects then insert p rest else rest

module _ {M : Type 0} where
  unfoldable pub create : ℕ → List String → BusMsgReply M
  create msg_id payloads = record {
    msg_id = msg_id;
    expects = payloads;
    count = 0;
    fails = [];
    replys = [];
  }

  unfoldable pub find_item : String → List (Item M) → Option M
  find_item p [] = none
  find_item p (it ∷ its) = if member p it.payloads then some it.msg else find_item p its

  unfoldable pub reply : BusMsgReply M → String → Option M
  reply r p = if member p r.fails then none else find_item p r.replys

  -- The item for the payloads that are expected, if there are some. The second component says
  -- whether the message is taken.
  unfoldable pub keep : BusMsgReply M → M → List String → BusMsgReply M × Bool
  keep r m [] = (r, false)
  keep r m (p ∷ ps) = (
    record r {
      count = r.count + length (p ∷ ps);
      replys = r.replys ++ record { payloads = p ∷ ps; msg = m } ∷ [];
    },
    true,
  )

  unfoldable pub add_reply : BusMsgReply M → ℕ → List String → Option M → BusMsgReply M × Bool
  unfolding keep
  add_reply r msg_id payloads none = (r, false)
  add_reply r msg_id payloads (some m) =
      if not (msg_id == r.msg_id) then (r, false) else keep r m (expected r.expects payloads)

  -- The loop of `addFailure`.
  unfoldable pub fail_all : BusMsgReply M → List String → BusMsgReply M
  fail_all r [] = r
  fail_all r (p ∷ ps) =
      let r' : BusMsgReply M =
        if member p r.expects
        then record r { fails = insert p r.fails; count = r.count + 1 }
        else r in
      fail_all r' ps

  unfoldable pub add_failure : BusMsgReply M → ℕ → List String → BusMsgReply M
  add_failure r msg_id payloads = if not (msg_id == r.msg_id) then r else fail_all r payloads

  unfoldable pub is_completed : BusMsgReply M → Bool
  is_completed r = r.count == length r.expects
