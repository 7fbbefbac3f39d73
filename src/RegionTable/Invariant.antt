-- ===== src/RegionTable/Invariant.antt =====
-- What holds of a region's table between two calls, and that every call keeps it.
use ris.RegionTable.Steps.{
  run, step, pubs_region, pubs_repeated, stops, starts, rms_payload, adds_payload, rms_service,
  adds_service, Call,
}
use ris.Base.{
  ◌++◌, ◌∷◌, not, All, if_both, ℕ, ◌+◌, ◌*◌, ◌/◌, ◌<◌, ◌^◌, ◌≡◌, ◌≢◌, refl, String, Bool, true,
  false, Option, some, List, [], arith, str_dec, Bool-cases, Option-cases, inl, inr, length,
}
use ris.Words.{u64}
use ris.Observer.{Event, on_rm_region}
use ris.RiTypes.Service
use ris.RiTypes.Service.{Service}
use ris.RiTypes.Payload
use ris.RiTypes.Payload.{Payload}
use ris.Containers.Indexed
use ris.Containers.Indexed.{Indexed}
use ris.Containers.Indexed.Holds.{Holds, Holds-empty, Holds-append, Holds-remove}
use ris.RegionTable
use ris.RegionTable.{RegionTable}
use ris.RegionTable.Refresh.Laws.{update_timeouted-Holds}

abbrev pub Services : Indexed String Service → Type 0
Services = Holds str_dec (λ s. s.name) (λ s. Service.good s ≡ true)

abbrev pub Payloads : Indexed String Payload → Type 0
Payloads = Holds str_dec (λ p. p.id) (λ p. Payload.good p ≡ true)

-- Both indexes agree with their lists, all entries are complete, the version is a `uint32_t`, the
-- timers run together, and the payload period is long enough to divide by.
pub record IsValid (t : RegionTable) : Type 0 where
  pub services : Services t.services
  pub payloads : Payloads t.payloads
  pub version : t.region.version < 2 ^ 32
  pub timers : t.timer_reg ≡ t.timer_repeat
  pub period : 0 < u64 (t.sec_repub_payload * 1000) / 20

pub create-IsValid : (ctx : RegionTable.Ctx) → IsValid (RegionTable.create ctx)
unfolding RegionTable.create
create-IsValid ctx = record {
  services = Holds-empty str_dec _ _ Service.default;
  payloads = Holds-empty str_dec _ _ Payload.default;
  version = omega arith;
  timers = refl;
  period = omega arith;
}

pub add_service-IsValid :
    (t : RegionTable) (svc : Service) → IsValid t → IsValid (RegionTable.add_service t svc).0
unfolding RegionTable.add_service RegionTable.insert_service
add_service-IsValid t svc v = elim (Bool-cases (Service.good svc)) [
  | inr e ↦ rw e v
  | inl e ↦ elim (Option-cases (Indexed.find str_dec svc.name t.services)) [
    | inl f ↦
        rw (e, f)
          (record {
            services = Holds-append str_dec _ _ svc t.services f e v.services;
            payloads = v.payloads;
            version = omega arith;
            timers = v.timers;
            period = v.period;
          })
    | inr (i, f) ↦ rw (e, f) v
  ]
]

pub rm_service-IsValid :
    (t : RegionTable) (svc : String) → IsValid t → IsValid (RegionTable.rm_service t svc).0
unfolding RegionTable.rm_service RegionTable.delete_service
rm_service-IsValid t svc v = elim (Option-cases (Indexed.find str_dec svc t.services)) [
  | inl f ↦ rw (f, RegionTable.rm_service) v
  | inr (i, f) ↦
      rw (f, RegionTable.rm_service)
        (record {
          services = Holds-remove str_dec _ _ svc i t.services f v.services;
          payloads = v.payloads;
          version = omega arith;
          timers = v.timers;
          period = v.period;
        })
]

pub add_payload-IsValid :
    (t : RegionTable) (pl : Payload) → IsValid t → IsValid (RegionTable.add_payload t pl).0
unfolding RegionTable.add_payload RegionTable.insert_payload
add_payload-IsValid t pl v = elim (Bool-cases (Payload.good pl)) [
  | inr e ↦ rw e v
  | inl e ↦ elim (Option-cases (Indexed.find str_dec pl.id t.payloads)) [
    | inl f ↦
        rw (e, f)
          (record {
            services = v.services;
            payloads = Holds-append str_dec _ _ pl t.payloads f e v.payloads;
            version = omega arith;
            timers = v.timers;
            period = v.period;
          })
    | inr (i, f) ↦ rw (e, f) v
  ]
]

pub rm_payload-IsValid :
    (t : RegionTable) (pl : String) → IsValid t → IsValid (RegionTable.rm_payload t pl).0
unfolding RegionTable.rm_payload RegionTable.delete_payload
rm_payload-IsValid t pl v = elim (Option-cases (Indexed.find str_dec pl t.payloads)) [
  | inl f ↦ rw (f, RegionTable.rm_payload) v
  | inr (i, f) ↦
      rw (f, RegionTable.rm_payload)
        (record {
          services = v.services;
          payloads = Holds-remove str_dec _ _ pl i t.payloads f v.payloads;
          version = omega arith;
          timers = v.timers;
          period = v.period;
        })
]

pub start-IsValid :
    (t : RegionTable) (ob reg rep : Bool) → IsValid t → IsValid (RegionTable.start t ob reg rep).0
unfolding RegionTable.start
start-IsValid t ob reg rep v = ground arith

abbrev pub Succeeds : Option (RegionTable × List Event) → Type 0
Succeeds r = (t : RegionTable) × (es : List Event) × (r ≡ some (t, es)) × IsValid t

stop-Succeeds : (t : RegionTable) → IsValid t → Succeeds (RegionTable.stop t)
unfolding RegionTable.stop
stop-Succeeds t v = elim (Bool-cases t.timer_reg) [
  | inl e ↦ (
    record t { timer_reg = false; timer_repeat = false },
    RegionTable.notify t (on_rm_region t.region.id),
    ground arith,
    record {
      services = v.services;
      payloads = v.payloads;
      version = v.version;
      timers = refl;
      period = v.period;
    },
  )
  | inr e ↦ (t, [], rw e, v)
]

pub service_stamp_good :
    (now : ℕ)
    → now ≢ 0
    → (s : Service) → Service.good s ≡ true
    → Service.good (record s { timeval = now }) ≡ true
unfolding Service.good
service_stamp_good now z s g = ground arith

pub update_timeouted_service-IsValid :
    (now timeout maxcount : ℕ) (t : RegionTable)
    → now ≢ 0
    → IsValid t
    → IsValid (RegionTable.update_timeouted_service now t timeout maxcount).0
unfolding RegionTable.update_timeouted_service
update_timeouted_service-IsValid now timeout maxcount t z v = record {
  services =
      update_timeouted-Holds str_dec _ _ _ _ now (λ s. refl) (service_stamp_good now z) timeout
        maxcount t.services v.services;
  payloads = v.payloads;
  version = v.version;
  timers = v.timers;
  period = v.period;
}

pub payload_stamp_good :
    (now : ℕ) (p : Payload)
    → Payload.good p ≡ true
    → Payload.good (record p { timeval = now }) ≡ true
unfolding Payload.good
payload_stamp_good now p g = g

pub update_timeouted_payload-IsValid :
    (now timeout maxcount : ℕ) (t : RegionTable)
    → IsValid t
    → IsValid (RegionTable.update_timeouted_payload now t timeout maxcount).0
unfolding RegionTable.update_timeouted_payload
update_timeouted_payload-IsValid now timeout maxcount t v = record {
  services = v.services;
  payloads =
      update_timeouted-Holds str_dec _ _ _ _ now (λ s. refl) (payload_stamp_good now) timeout
        maxcount t.payloads v.payloads;
  version = v.version;
  timers = v.timers;
  period = v.period;
}

pub payload_quota_defined :
    (t : RegionTable) → IsValid t → (n : ℕ) × (RegionTable.payload_quota t ≡ some n)
unfolding RegionTable.payload_quota
payload_quota_defined t v = (
  length (Indexed.contents t.payloads) / (u64 (t.sec_repub_payload * 1000) / 20) + 100,
  ground (arith, v.period),
)

repeat-Succeeds :
    (now later : ℕ) (t : RegionTable)
    → now ≢ 0
    → IsValid t
    → Succeeds (RegionTable.repeat (now, later) t)
unfolding RegionTable.repeat
repeat-Succeeds now later t z v =
    let w = update_timeouted_service-IsValid now (u64 (t.sec_repub_service * 1000)) 100 t z v in
    let (n, q) = payload_quota_defined _ w in
    rw q (_, _, refl, update_timeouted_payload-IsValid later _ n _ w)

pub pub_repeated-Succeeds :
    (times : ℕ × ℕ) (t : RegionTable)
    → times.0 ≢ 0
    → IsValid t
    → Succeeds (RegionTable.pub_repeated times t)
unfolding RegionTable.pub_repeated
pub_repeated-Succeeds times t z v =
    if_both Succeeds (not t.observed) (t, [], refl, v) (repeat-Succeeds times.0 times.1 t z v)

-- The clock of a call does not stand at zero, which marks an entry as incomplete.
abbrev pub IsTimed : Call → Type 0
IsTimed (pubs_repeated times) = times.0 ≢ 0
IsTimed c = Unit {0}

-- On a valid table no call aborts or faults, and the table that it leaves is valid.
pub step-Succeeds : (t : RegionTable) (c : Call) → IsTimed c → IsValid t → Succeeds (step t c)
unfolding step
step-Succeeds t (adds_service svc) z v = (_, _, refl, add_service-IsValid t svc v)
step-Succeeds t (rms_service svc) z v = (_, _, refl, rm_service-IsValid t svc v)
step-Succeeds t (adds_payload pl) z v = (_, _, refl, add_payload-IsValid t pl v)
step-Succeeds t (rms_payload pl) z v = (_, _, refl, rm_payload-IsValid t pl v)
step-Succeeds t (starts ob reg rep) z v = (_, _, refl, start-IsValid t ob reg rep v)
step-Succeeds t stops z v = stop-Succeeds t v
step-Succeeds t (pubs_repeated times) z v = pub_repeated-Succeeds times t z v
step-Succeeds t pubs_region z v = (_, _, refl, v)

run-Succeeds : (t : RegionTable) (cs : List Call) → All IsTimed cs → IsValid t → Succeeds (run t cs)
unfolding run
run-Succeeds t [] z v = (t, [], refl, v)
run-Succeeds t (c ∷ cs) z v =
    let (t1, es, e, v1) = step-Succeeds t c z.0 v in
    let (t2, fs, f, v2) = run-Succeeds t1 cs z.1 v1 in (t2, es ++ fs, rw (e, f) refl, v2)

-- From the table of a configuration, any sequence of additions, removals, starts, stops and timer
-- ticks (with clocks that do not read zero) runs with no failed CHECK and no division by zero, and
-- ends in a table whose indexes agree with its lists, whose entries are complete, and whose version
-- fits 32 bits.
pub run-create-IsValid :
    (ctx : RegionTable.Ctx) (cs : List Call)
    → All IsTimed cs
    → Succeeds (run (RegionTable.create ctx) cs)
run-create-IsValid ctx cs z = run-Succeeds (RegionTable.create ctx) cs z (create-IsValid ctx)
