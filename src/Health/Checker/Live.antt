-- ===== src/Health/Checker/Live.antt =====
-- Whose status internal/health/checker.go holds after a round.
use kydns_server.Prelude.{
  ℕ, zero, suc, ◌≡◌, ◌≢◌, inl, inr, refl, subst, true, false, Option, none, some, List, [], ◌∷◌,
  ◌==◌, nat_eq, string_eq, Map, lookup, lookup-insert, arith, Bool-cases, Option-cases,
}
use kydns_server.Text.{Bytes, bytes_eq, trim_space}
use kydns_server.Health.Checker.{
  unknown, Entry, Service, Checker, Outcome, forced, healthy, failing, observe, entry_of,
  record_probe, probe_and_record, live, prune, work, check_once,
}

-- Every entry belongs to a service of the list.
abbrev pub AllLive : List Service → Checker → Type 0
AllLive svcs c = (id : ℕ) → lookup id c.entries ≢ none → live id svcs ≡ true

prune_gone :
    (svcs : List Service) (id : ℕ) (m : Map ℕ Entry)
    → live id svcs ≡ false
    → lookup id (prune svcs m) ≡ none
unfolding prune lookup
prune_gone svcs id [] h = refl
prune_gone svcs id ((k, e) ∷ m) h = ground (arith, prune_gone svcs id m h)

prune-AllLive :
    (svcs : List Service) (c : Checker) → AllLive svcs (record c { entries = prune svcs c.entries })
prune-AllLive svcs c id h = elim (Bool-cases (live id svcs)) [
  | inl here ↦ here
  | inr gone ↦ absurd (h (prune_gone svcs id c.entries gone))
]

record_probe-AllLive :
    (svcs : List Service) (svc : Service) (o : Outcome) (now : ℕ) (c : Checker)
    → live svc.id svcs ≡ true
    → AllLive svcs c
    → AllLive svcs (record_probe svc o now c)
unfolding record_probe
record_probe-AllLive svcs svc o now c here v id h =
    let e = observe svc o now (entry_of c svc now) in
    elim (nat_eq.dec svc.id id) [
      | yes p ↦ subst (λ (k : ℕ). live k svcs ≡ true) p here
      | no n ↦ v id (λ q. h (ground (arith, lookup-insert id svc.id e c.entries)))
    ]

probe_and_record-AllLive :
    (svcs : List Service) (probe : Service → Option Bytes) (now : ℕ) (svc : Service) (c : Checker)
    → live svc.id svcs ≡ true
    → AllLive svcs c
    → AllLive svcs (probe_and_record probe now svc c)
unfolding probe_and_record
probe_and_record-AllLive svcs probe now svc c here v =
    elim (Bool-cases (trim_space svc.check_url == [])) [
      | inl blank ↦
          rw (blank, probe_and_record) (record_probe-AllLive svcs svc (forced unknown) now c here v)
      | inr checked ↦ elim (Option-cases (probe svc)) [
        | inl e ↦
            rw (checked, e, probe_and_record) (record_probe-AllLive svcs svc healthy now c here v)
        | inr (reason, e) ↦
            rw (checked, e, probe_and_record)
              (record_probe-AllLive svcs svc (failing reason) now c here v)
      ]
    ]

-- All the services of the second list are in the first.
abbrev Within : List Service → List Service → Type 0
Within svcs [] = Unit {0}
Within svcs (s ∷ ss) = (live s.id svcs ≡ true) × Within svcs ss

Within-cons :
    (svcs : List Service) (x : Service) (ss : List Service) → Within svcs ss → Within (x ∷ svcs) ss
unfolding live
Within-cons svcs x [] h = tt
Within-cons svcs x (s ∷ ss) h = (ground (arith, h.0), Within-cons svcs x ss h.1)

Within-refl : (svcs : List Service) → Within svcs svcs
unfolding live
Within-refl [] = tt
Within-refl (s ∷ ss) = (ground arith, Within-cons ss s ss (Within-refl ss))

work-AllLive :
    (svcs : List Service) (probe : Service → Option Bytes) (now handed : ℕ) (left : List Service)
    (c : Checker)
    → Within svcs left
    → AllLive svcs c
    → AllLive svcs (work probe now handed left c)
unfolding work
work-AllLive svcs probe now zero left c w v = v
work-AllLive svcs probe now (suc handed) [] c w v = v
work-AllLive svcs probe now (suc handed) (s ∷ ss) c w v =
    work-AllLive svcs probe now handed ss (probe_and_record probe now s c) w.1
      (probe_and_record-AllLive svcs probe now s c w.0 v)

-- After a round over a list of services, cut short or not, every status is that of a service of the
-- list: a service that is gone has none.
pub check_once-AllLive :
    (probe : Service → Option Bytes) (now handed : ℕ) (svcs : List Service) (c : Checker)
    → AllLive svcs (check_once probe now handed (some svcs) c)
unfolding check_once
check_once-AllLive probe now handed svcs c =
    work-AllLive svcs probe now handed svcs (record c { entries = prune svcs c.entries })
      (Within-refl svcs) (prune-AllLive svcs c)
