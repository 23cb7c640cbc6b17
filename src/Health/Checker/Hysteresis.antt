-- ===== src/Health/Checker/Hysteresis.antt =====
-- The state of a service as a reading of its probes, in internal/health/checker.go.
use kydns_server.Prelude.{
  ℕ, suc, ◌≡◌, refl, Option, none, some, List, [], ◌∷◌, nat_eq, string_eq, leb, if◌then◌else◌,
  lookup, insert, lookup-insert, arith,
}
use kydns_server.Text.{Bytes, bytes_eq}
use kydns_server.Health.Checker.{
  State, up, down, unknown, state_eq, Entry, Service, Checker, Outcome, forced, healthy, failing,
  new_entry, judge, observe, entry_of, record_probe,
}

-- The probes of one service, the latest first, with the time of each; `none` is a healthy one.
abbrev pub Log : Type 0
Log = List (Option Bytes × ℕ)

abbrev pub outcome_of : Option Bytes → Outcome
outcome_of none = healthy
outcome_of (some reason) = failing reason

-- How many probes have failed in a row.
unfoldable pub streak : Log → ℕ
streak [] = 0
streak ((none, _) ∷ log) = 0
streak ((some _, _) ∷ log) = suc (streak log)

-- One healthy probe is enough to be up, two failed ones in a row to be down, and a single failed one
-- leaves things as they were.
unfoldable pub verdict : Log → State
unfolding streak
verdict [] = unknown
verdict ((none, _) ∷ log) = up
verdict ((some _, _) ∷ log) =
    let before = verdict log in if leb 1 (streak log) then down else before

-- The checker after the probes, from the oldest.
unfoldable pub replay : Service → Log → Checker → Checker
replay svc [] c = c
replay svc ((result, now) ∷ log) c = record_probe svc (outcome_of result) now (replay svc log c)

observe-judge :
    (svc : Service) (o : Outcome) (now : ℕ) (e : Entry)
    → ((observe svc o now e).status.state ≡ (judge o e).status.state)
      × ((observe svc o now e).failures ≡ (judge o e).failures)
unfolding observe judge
observe-judge svc (forced s) now e = (ground arith, ground arith)
observe-judge svc healthy now e = (ground arith, ground arith)
observe-judge svc (failing reason) now e = (ground arith, ground arith)

-- What the checker holds of a service after the log.
abbrev pub Tells : Log → Entry → Type 0
Tells log e = (e.status.state ≡ verdict log) × (e.failures ≡ streak log)

observe-Tells :
    (svc : Service) (result : Option Bytes) (now : ℕ) (log : Log) (e : Entry)
    → Tells log e
    → Tells ((result, now) ∷ log) (observe svc (outcome_of result) now e)
unfolding judge verdict streak
observe-Tells svc none now log e h =
    let o = observe-judge svc healthy now e in (ground (arith, o.0), ground (arith, o.1))
observe-Tells svc (some reason) now log e h =
    let o = observe-judge svc (failing reason) now e in
    (ground (arith, o.0, h.0, h.1), ground (arith, o.1, h.1))

new_entry-Tells : (svc : Service) (now : ℕ) → Tells [] (new_entry svc now)
unfolding new_entry verdict streak
new_entry-Tells svc now = (refl, refl)

-- The entry that the next probe finds.
found-Tells :
    (svc : Service) (log : Log) (c : Checker) (now : ℕ)
    → lookup svc.id c.entries ≡ none
    → Tells log (entry_of (replay svc log c) svc now)
unfolding replay record_probe
found-Tells svc [] c now fresh = rw (fresh, entry_of) (new_entry-Tells svc now)
found-Tells svc ((result, before) ∷ log) c now fresh =
    let t = replay svc log c in
    let e = observe svc (outcome_of result) before (entry_of t svc before) in
    let stored : lookup svc.id (insert svc.id e t.entries) ≡ some e =
      ground (arith, lookup-insert svc.id svc.id e t.entries) in
    rw (stored, entry_of)
      (observe-Tells svc result before log (entry_of t svc before)
        (found-Tells svc log c before fresh))

-- After any probes of a service that has no entry yet, its state is the verdict on them: up after a
-- healthy probe, down after two failed ones in a row, and otherwise what it was, unknown at first.
pub replay-verdict :
    (svc : Service) (result : Option Bytes) (now : ℕ) (log : Log) (c : Checker)
    → lookup svc.id c.entries ≡ none
    → (e : Entry) × (lookup svc.id (replay svc ((result, now) ∷ log) c).entries ≡ some e)
      × (e.status.state ≡ verdict ((result, now) ∷ log))
unfolding replay record_probe
replay-verdict svc result now log c fresh =
    let t = replay svc log c in
    let e = observe svc (outcome_of result) now (entry_of t svc now) in
    (
      e,
      ground (arith, lookup-insert svc.id svc.id e t.entries),
      (observe-Tells svc result now log (entry_of t svc now) (found-Tells svc log c now fresh)).0,
    )
