-- ===== src/TrackerTable/Timer.antt =====
-- `onCheckTimer` of src/tracker/trackertable.cxx. Each loop is bounded by its `limits`.
use ris.Base.{ℕ, zero, suc, ◌+◌, Bool, Option, none, some, List, [], ◌∷◌, ◌>>=◌, leb, if◌then◌else◌}
use ris.Words.{u64}
use ris.Containers.Indexed
use ris.TrackerTable.{TrackerTable, deref}
use ris.TrackerTable.Services.{do_rm_service}
use ris.TrackerTable.Payloads.{do_rm_payload}
use ris.TrackerTable.Regions.{do_rm_region}

-- `timeval + timeout <= now`
unfoldable pub expired : ℕ → ℕ → ℕ → Bool
expired timeval timeout now = leb (u64 (timeval + timeout)) now

unfoldable pub head : List ℕ → Option ℕ
head [] = none
head (i ∷ is) = some i

unfoldable pub expire_regions : ℕ → ℕ → TrackerTable → Option TrackerTable
unfolding head
expire_regions zero now t = some t
expire_regions (suc limits) now t = elim (head t.regions.list.order) [
  | none ↦ some t
  | some p ↦
      let region = Indexed.get p t.regions in
      let next = (do t' ← do_rm_region t region.id; expire_regions limits now t') in
      if expired region.timeval 30000 now then next else some t
]

unfoldable pub expire_services : ℕ → ℕ → TrackerTable → Option TrackerTable
unfolding head deref
expire_services zero now t = some t
expire_services (suc limits) now t = elim (head t.services.order) [
  | none ↦ some t
  | some it ↦
      let rs = t.services.cell it in
      let next = (do
        region ← deref t rs.region
        expire_services limits now (do_rm_service t region.id rs.service.name)) in
      if expired rs.service.timeval 125000 now then next else some t
]

unfoldable pub expire_payloads : ℕ → ℕ → TrackerTable → Option TrackerTable
unfolding head deref
expire_payloads zero now t = some t
expire_payloads (suc limits) now t = elim (head t.payloads.list.order) [
  | none ↦ some t
  | some it ↦
      let rp = Indexed.get it t.payloads in
      let next = (do
        region ← deref t rp.region
        expire_payloads limits now (do_rm_payload t region.id rp.payload.id)) in
      if expired rp.payload.timeval 125000 now then next else some t
]

unfoldable pub on_check_timer : ℕ → TrackerTable → Option TrackerTable
on_check_timer now t = do
  t1 ← expire_regions 3 now t
  t2 ← expire_services 100 now t1
  expire_payloads 100 now t2
