-- ===== src/BusSender/Waiting.antt =====
-- What a sender has heard when it stops to wait: src/buscli/bussender.cxx.
use ris.BusMsgReply.Counting.{settled}
use ris.Base.{String, ◌<◌, ◌≤◌, length, map, All, ℕ, ◌+◌, ◌≡◌, ◌≢◌, ◌⊎◌, List, [], ◌∷◌, ◌++◌}
use ris.BusMsgReply
use ris.BusMsgReply.{BusMsgReply}
use ris.BusMsgReply.Answers.{Report, replied, failed, hear}
use ris.BusSender
use ris.BusSender.{BusSender, Sent, Arrival, failure, reply_message, other}

-- The beginnings of a list but the whole.
unfoldable pub starts : {A : Type 0} → List A → List (List A)
starts [] = []
starts (x ∷ xs) = [] ∷ map (λ l. x ∷ l) (starts xs)

module _ {M : Type 0} where
  -- The reports among the arrivals.
  unfoldable pub reports : List (Arrival M × ℕ) → List (Report M)
  reports [] = []
  reports ((failure msg_id payloads, now) ∷ xs) = failed msg_id payloads ∷ reports xs
  reports ((reply_message msg_id payloads m, now) ∷ xs) = replied msg_id payloads m ∷ reports xs
  reports ((other, now) ∷ xs) = reports xs

  -- The clock after the arrivals.
  unfoldable pub clock_after : ℕ → List (Arrival M × ℕ) → ℕ
  clock_after now [] = now
  clock_after now ((a, later) ∷ xs) = clock_after later xs

  -- A sender that has heard some arrivals goes on to wait, if `known` targets were settled before: the
  -- number of the settled ones is not the number of the targets, and the clock has not reached the
  -- deadline.
  unfoldable pub GoesOn : ℕ → ℕ → List String → ℕ → ℕ → List (Arrival M × ℕ) → Type 0
  GoesOn known id expects deadline now before =
      (known + settled id expects (reports before) ≢ length expects)
      × (clock_after now before < deadline)

  -- A sender that started to wait with what is known in `r` knows at the end what the arrivals up to
  -- some point report, and it stops there for a reason: all arrivals are seen, the targets are
  -- settled, or the clock has reached the deadline. Before each of the arrivals that it saw it had no
  -- reason to stop.
  pub record HasHeard (r result : BusMsgReply M) (known id : ℕ) (expects : List String)
      (deadline now : ℕ) (arrivals : List (Arrival M × ℕ)) : Type 0 where
    pub seen : List (Arrival M × ℕ)
    pub unseen : List (Arrival M × ℕ)
    pub parts : seen ++ unseen ≡ arrivals
    pub heard : result ≡ hear r (reports seen)
    pub reason :
        (unseen ≡ [])
        ⊎ ((known + settled id expects (reports seen) ≡ length expects)
            ⊎ (deadline ≤ clock_after now seen))
    pub waited : All (GoesOn known id expects deadline now) (starts seen)
