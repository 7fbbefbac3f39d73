-- ===== src/SnapshotService/Worker.antt =====
-- `SnapshotServiceWorker`: include/snapshot/snapshotserviceworker.h and src/snapshot/
-- snapshotserviceworker.cxx. A frame is what is handed to the router's socket for one client.
use ris.Base.{ℕ, zero, suc, Bool, true, false, List, [], ◌∷◌, if◌then◌else◌, length}
use ris.Observer.{Status}
use ris.RiTypes.Messages.{SnapshotItem}

pub record SnapshotServiceWorker : Type 0 where
  pub snapshot : List SnapshotItem
  pub tv_last : ℕ

-- `SnapshotRep`, an item of the package, and `SyncSignalReq`
pub data Frame : Type 0 where
  reply : Status → Frame
  carries : SnapshotItem → Frame
  asks_sync : Frame

unfoldable pub create : List SnapshotItem → SnapshotServiceWorker
create built = record { snapshot = built; tv_last = 0 }

-- The loop of `sendItems`: what is left, what was taken, and whether no sending failed.
unfoldable pub send_loop :
    (ℕ → Bool) → List SnapshotItem → ℕ → List SnapshotItem × List Frame × Bool
send_loop takes p zero = (p, [], true)
send_loop takes [] (suc n) = ([], [], true)
send_loop takes (x ∷ p) (suc n) =
    let rest = send_loop takes p n in
    if takes n then (rest.0, carries x ∷ rest.1, rest.2) else (p, [], false)

-- `sendItems`, with the number that it returns and the frames that were taken.
unfoldable pub send_items :
    ℕ → (ℕ → Bool) → SnapshotServiceWorker → ℕ → SnapshotServiceWorker × ℕ × List Frame
unfolding send_loop
send_items now takes w count =
    let (left, frames, done) = send_loop takes w.snapshot count in
    if done
    then (record { snapshot = left; tv_last = now }, length left, frames)
    else (record w { snapshot = left }, 0, frames)
