-- ===== src/SnapshotService/Steps.antt =====
-- The events that `SnapshotService` handles, one after another: src/snapshot/snapshotservice.cxx. The
-- service sends its frames to the envelope of the message that it handles. A client sends under one
-- envelope and names itself in each of its messages, so the name stands for the envelope as well: a
-- message that names another client than its sender is not modelled.
use ris.Base.{ℕ, String, List, [], ◌∷◌, ◌++◌, map, ite, str_dec}
use ris.RiTypes.Messages.{SnapshotItem}
use ris.SnapshotService
use ris.SnapshotService.{SnapshotService, Fate}
use ris.SnapshotService.Worker.{Frame, reply, carries, asks_sync}

-- A request for a snapshot, with the package that would be built; a signal; the timer.
pub data Event : Type 0 where
  asks : ℕ → Fate → String → List SnapshotItem → Event
  signals : ℕ → Fate → String → Event
  ticks : ℕ → Event

-- The frames stand beside the client that sent the message, which is the requester that it names.
unfoldable pub step : SnapshotService → Event → SnapshotService × List (String × Frame)
unfolding SnapshotService.on_snapshot_req SnapshotService.on_sync_signal SnapshotService.on_timer
step s (asks now fate id built) =
    let (s', frames) = SnapshotService.on_snapshot_req now fate s id built in
    (s', map (λ f. (id, f)) frames)
step s (signals now fate id) =
    let (s', frames) = SnapshotService.on_sync_signal now fate s id in
    (s', map (λ f. (id, f)) frames)
step s (ticks now) = (SnapshotService.on_timer now s, [])

unfoldable pub run : SnapshotService → List Event → SnapshotService × List (String × Frame)
unfolding step
run s [] = (s, [])
run s (e ∷ es) = let (s', out) = step s e in let (s'', rest) = run s' es in (s'', out ++ rest)

unfoldable pub item_of : Frame → List SnapshotItem
item_of (reply result) = []
item_of (carries i) = i ∷ []
item_of asks_sync = []

-- The items among the frames.
unfoldable pub items_of : List Frame → List SnapshotItem
unfolding item_of
items_of [] = []
items_of (f ∷ fs) = item_of f ++ items_of fs

-- The items that went to one requester.
unfoldable pub items_to : String → List (String × Frame) → List SnapshotItem
unfolding item_of
items_to id [] = []
items_to id ((to, f) ∷ fs) =
    let rest = items_to id fs in ite (str_dec to id) (item_of f ++ rest) rest
