-- ===== src/Health/Checker.antt =====
-- internal/health/checker.go: the status of each service from its probes. The network is an argument:
-- what a probe of a service returns, and how many services are handed to the workers before the
-- context ends. The workers' order does not matter to a service, since record touches its own entry.
pub mod Hysteresis
pub mod Live
use kydns_server.Prelude.{
  ℕ, zero, suc, ◌+◌, ◌-◌, ◌*◌, ◌/◌, ◌%◌, ◌^◌, ◌≤◌, ◌<◌, ◌≡◌, ◌≢◌, ◌↔◌, ◌⊎◌, inl, inr, refl, sym, ap,
  ◌∙◌, subst, String, Bool, true, false, ◌||◌, ◌&&◌, not, Option, none, some, List, [], ◌∷◌, ◌++◌,
  map, ◌==◌, Eq, nat_eq, string_eq, same_text, leb, ltb, if◌then◌else◌, length, is_empty, Map,
  lookup, insert, delete, size, lookup-insert, lookup-delete, arith, Bool-cases, Option-cases,
}
use kydns_server.Text.{
  Bytes, bytes_eq, bytes, to_lower, trim_space, trim_last, has_prefix, has_suffix, contains_byte,
  split, join, trim_suffix,
}

abbrev pub failures_to_down : ℕ
failures_to_down = 2

abbrev pub successes_to_up : ℕ
successes_to_up = 1

pub data State : Type 0 where
  up down unknown : State

unfoldable pub State-discrete : Discrete State
State-discrete = hlevel

instance abbrev pub state_eq : Eq State
state_eq = record { dec = State-discrete }

pub record Status : Type 0 where
  pub service_id : ℕ
  pub name : Bytes
  pub state : State
  pub since : ℕ
  pub last_error : Bytes

pub record Entry : Type 0 where
  pub status : Status
  pub failures : ℕ
  pub successes : ℕ

-- The fields of store.Service that the checker reads.
pub record Service : Type 0 where
  pub id : ℕ
  pub name : Bytes
  pub check_url : Bytes

pub record Checker : Type 0 where
  pub entries : Map ℕ Entry
  pub interval : ℕ
  pub timeout : ℕ
  pub workers : ℕ

-- A millisecond, in nanoseconds.
abbrev pub min_interval : ℕ
min_interval = 10 ^ 6

unfoldable pub reconfigure : ℕ → ℕ → ℕ → Checker → Checker
reconfigure interval timeout workers c = record c {
  interval = if ltb interval min_interval then min_interval else interval;
  timeout = timeout;
  workers = if ltb workers 1 then 8 else workers;
}

unfoldable pub new_checker : ℕ → ℕ → ℕ → Checker
unfolding reconfigure
new_checker interval timeout workers =
    reconfigure interval timeout workers
      (record { entries = []; interval = 0; timeout = 0; workers = 0 })

-- What record is told: a forced state, a healthy probe, or one that failed.
pub data Outcome : Type 0 where
  forced : State → Outcome
  healthy : Outcome
  failing : Bytes → Outcome

unfoldable pub new_entry : Service → ℕ → Entry
new_entry svc now = record {
  status = record { service_id = svc.id; name = []; state = unknown; since = now; last_error = [] };
  failures = 0;
  successes = 0;
}

-- The switch of record.
unfoldable pub judge : Outcome → Entry → Entry
judge (forced state) e = record e {
  status = record e.status { state = state; last_error = [] };
  failures = 0;
  successes = 0;
}
judge healthy e = record e {
  status = record e.status {
    state = if leb successes_to_up (e.successes + 1) then up else e.status.state;
    last_error = [];
  };
  failures = 0;
  successes = e.successes + 1;
}
judge (failing reason) e = record e {
  status = record e.status {
    state = if leb failures_to_down (e.failures + 1) then down else e.status.state;
    last_error = reason;
  };
  failures = e.failures + 1;
  successes = 0;
}

-- The entry after record: Since moves when the state does.
unfoldable pub observe : Service → Outcome → ℕ → Entry → Entry
unfolding judge
observe svc o now e =
    let named = record e { status = record e.status { name = svc.name } } in
    let judged = judge o named in
    if judged.status.state == e.status.state
    then judged
    else record judged { status = record judged.status { since = now } }

abbrev pub entry_of : Checker → Service → ℕ → Entry
entry_of c svc now = elim (lookup svc.id c.entries) [ none ↦ new_entry svc now | some e ↦ e ]

-- record
unfoldable pub record_probe : Service → Outcome → ℕ → Checker → Checker
record_probe svc o now c = record c {
  entries = insert svc.id (observe svc o now (entry_of c svc now)) c.entries;
}

-- probeAndRecord, with the error that the probe returns, or none
unfoldable pub probe_and_record : (Service → Option Bytes) → ℕ → Service → Checker → Checker
probe_and_record probe now svc c =
    if trim_space svc.check_url == []
    then record_probe svc (forced unknown) now c
    else elim (probe svc) [
      | none ↦ record_probe svc healthy now c
      | some reason ↦ record_probe svc (failing reason) now c
    ]

-- `live[id]`
unfoldable pub live : ℕ → List Service → Bool
live id [] = false
live id (s ∷ ss) = s.id == id || live id ss

-- The loop that drops the entries of services that are gone.
unfoldable pub prune : List Service → Map ℕ Entry → Map ℕ Entry
prune svcs [] = []
prune svcs ((id, e) ∷ m) = let rest = prune svcs m in if live id svcs then (id, e) ∷ rest else rest

-- The jobs that are handed out before the context ends.
unfoldable pub work : (Service → Option Bytes) → ℕ → ℕ → List Service → Checker → Checker
work probe now zero svcs c = c
work probe now (suc handed) [] c = c
work probe now (suc handed) (svc ∷ svcs) c =
    work probe now handed svcs (probe_and_record probe now svc c)

-- CheckOnce; `none` is the error of the lister.
unfoldable pub check_once :
    (Service → Option Bytes) → ℕ → ℕ → Option (List Service) → Checker → Checker
check_once probe now handed none c = c
check_once probe now handed (some svcs) c =
    work probe now handed svcs (record c { entries = prune svcs c.entries })
