-- ===== src/Dns/History/Window.antt =====
-- The ring of internal/dnsserver/history.go against a log that forgets nothing.
use kydns_server.Prelude.{
  ℕ, zero, suc, ◌+◌, ◌-◌, ◌%◌, ◌<◌, ◌≤◌, ◌≡◌, ◌≢◌, refl, sym, ap, ◌∙◌, true, false, List, [], ◌∷◌,
  ◌==◌, nat_eq, if◌then◌else◌, arith, map,
}
use mathlib.Core.Path.{ap₂}
use native.Mathlib.Decide.{ℕ_discrete, dec_le}
use kydns_server.Dns.History.{
  Bucket, empty_bucket, History, new_history, current, put_bucket, Sample, apply_sample, add_sample,
  snapshot_from, snapshot, count_outcome, QueryOutcome,
}

-- The calls so far, the latest first, each with its minute.
abbrev pub Log : Type 0
Log = List (ℕ × Sample)

-- All that a minute has seen.
unfoldable pub total : ℕ → Log → Bucket
total m [] = empty_bucket m
total m ((t, s) ∷ log) =
    let before = total m log in if t == m then apply_sample s before else before

unfoldable pub replay : Log → History
replay [] = new_history
replay ((t, s) ∷ log) = add_sample (replay log) t s

-- The clock does not run backwards, and reads at most `now`.
abbrev pub IsOrdered : ℕ → Log → Type 0
IsOrdered now [] = Unit {0}
IsOrdered now ((t, _) ∷ log) = (t ≤ now) × IsOrdered t log

apply_sample-minute : (s : Sample) (b : Bucket) → (apply_sample s b).minute ≡ b.minute
unfolding apply_sample
apply_sample-minute (Sample.query o ms) b = count_minute o
  where
    count_minute : (p : QueryOutcome) → (count_outcome p b).minute ≡ b.minute
    count_minute p = ground arith
apply_sample-minute (Sample.cache true) b = refl
apply_sample-minute (Sample.cache false) b = refl

total-minute : (m : ℕ) (log : Log) → (total m log).minute ≡ m
unfolding total
total-minute m [] = refl
total-minute m ((t, s) ∷ log) =
    ground (arith, total-minute m log, apply_sample-minute s (total m log))

total_later : (now m : ℕ) (log : Log) → IsOrdered now log → now < m → total m log ≡ empty_bucket m
unfolding total
total_later now m [] o lt = refl
total_later now m ((t, s) ∷ log) o lt = ground (arith, total_later t m log o.1)

current-minute : (h : History) (m : ℕ) → (current h m).minute ≡ m
unfolding current
current-minute h m = ground arith

replay_bounded :
    (now : ℕ) (log : Log) → IsOrdered now log → (i : ℕ) → ((replay log).slots i).minute ≤ now
unfolding replay add_sample put_bucket new_history
replay_bounded now [] o i = omega arith
replay_bounded now ((t, s) ∷ log) o i = ground (
  arith,
  replay_bounded t log o.1 i,
  apply_sample-minute s (current (replay log) t),
  current-minute (replay log) t,
)

-- An entry of the snapshot.
abbrev read : History → ℕ → Bucket
read h m = let b = h.slots (m % 60) in if b.minute == m then b else empty_bucket m

read-replay_later :
    (now m : ℕ) (log : Log) → IsOrdered now log → now < m → read (replay log) m ≡ empty_bucket m
read-replay_later now m log o lt = ground (arith, replay_bounded now log o (m % 60))

read-add_same :
    (h : History) (m : ℕ) (s : Sample) → read (add_sample h m s) m ≡ apply_sample s (read h m)
unfolding add_sample put_bucket current
read-add_same h m s = ground (arith, apply_sample-minute s (current h m), current-minute h m)

read-add_other :
    (h : History) (t m : ℕ) (s : Sample)
    → t ≢ m
    → t < m + 60
    → m ≤ t
    → read (add_sample h t s) m ≡ read h m
unfolding add_sample put_bucket
read-add_other h t m s n window le = ground arith

-- In the hour up to the latest call the ring has what the log has.
read-replay :
    (now m : ℕ) (log : Log) → IsOrdered now log → now < m + 60 → read (replay log) m ≡ total m log
unfolding replay total new_history
read-replay now m [] o window = ground arith
read-replay now m ((t, s) ∷ log) o window = elim (ℕ_discrete t m) [
  | yes p ↦ same p (read-replay t m log o.1 (omega arith))
  | no n ↦ elim (dec_le m t) [
    | yes le ↦
        read-add_other (replay log) t m s n (omega arith) le
        ∙ read-replay t m log o.1 (omega arith)
        ∙ untouched n
    | no above ↦
        read-replay_later t m ((t, s) ∷ log) (omega arith, o.1) (omega arith)
        ∙ sym (total_later t m ((t, s) ∷ log) (omega arith, o.1) (omega arith))
  ]
]
  where
    same :
        t ≡ m
        → read (replay log) m ≡ total m log
        → read (replay ((t, s) ∷ log)) m ≡ total m ((t, s) ∷ log)
    same p ih =
        ap (read (add_sample (replay log) t s)) (sym p)
        ∙ read-add_same (replay log) t s
        ∙ ap (λ (k : ℕ). apply_sample s (read (replay log) k)) p
        ∙ ap (apply_sample s) ih
        ∙ ground arith

    untouched : t ≢ m → total m log ≡ total m ((t, s) ∷ log)
    untouched n = ground arith

-- The minutes of the graph, the earliest first.
unfoldable pub minutes : ℕ → ℕ → List ℕ
minutes now zero = []
minutes now (suc n) = (now - n) ∷ minutes now n

snapshot_from-total :
    (now n : ℕ) (log : Log)
    → IsOrdered now log
    → n ≤ 60
    → n ≤ suc now
    → snapshot_from (replay log) now n ≡ map (λ m. total m log) (minutes now n)
unfolding snapshot_from minutes
snapshot_from-total now zero log o le first = refl
snapshot_from-total now (suc n) log o le first =
    ap₂ ◌∷◌ (read-replay now (now - n) log o (omega arith))
      (snapshot_from-total now n log o (omega arith) (omega arith))

-- After any calls on a clock that does not run backwards and stands past its first hour, the
-- snapshot has, for each of the last sixty minutes in order, exactly what was added in that minute:
-- the ring shows nothing stale and loses nothing.
pub snapshot-total :
    (now : ℕ) (log : Log)
    → IsOrdered now log
    → 59 ≤ now
    → snapshot (replay log) now ≡ map (λ m. total m log) (minutes now 60)
unfolding snapshot
snapshot-total now log o h = snapshot_from-total now 60 log o (omega arith) (omega arith)
