-- ===== src/Dns/Metrics/Totals.antt =====
-- The sums of the counters of internal/dnsserver/metrics.go.
use kydns_server.Prelude.{ℕ, suc, ◌+◌, ◌%◌, ◌^◌, ◌≡◌, refl, ap, ◌∙◌, List, [], ◌∷◌, nat_eq, arith}
use kydns_server.Text.{Bytes, bytes_eq}
use kydns_server.Dns.History.{
  QueryOutcome, was_authoritative, was_forwarded, was_blocked, was_refused, was_error,
}
use kydns_server.Dns.Metrics.{
  Metrics, outcome_for, file_outcome, file_rcode, file_reply, record_cache, Call, replies, looks_up,
  file, file_all,
}

abbrev pub outcomes : Metrics → ℕ
outcomes m = m.authoritative + m.forwarded + m.blocked + m.refused + m.errs

-- How many of the calls file a reply.
unfoldable pub reply_count : List Call → ℕ
reply_count [] = 0
reply_count (replies source rcode ms now ∷ cs) = suc (reply_count cs)
reply_count (looks_up hit now ∷ cs) = reply_count cs

file_outcome_total :
    (o : QueryOutcome) (m : Metrics)
    → (outcomes (file_outcome o m) % 2 ^ 64 ≡ (outcomes m + 1) % 2 ^ 64)
      × ((file_outcome o m).total ≡ m.total)
unfolding file_outcome
file_outcome_total was_authoritative m = (omega arith, refl)
file_outcome_total was_forwarded m = (omega arith, refl)
file_outcome_total was_blocked m = (omega arith, refl)
file_outcome_total was_refused m = (omega arith, refl)
file_outcome_total was_error m = (omega arith, refl)

file_rcode_total :
    (rcode : ℕ) (m : Metrics)
    → (outcomes (file_rcode rcode m) ≡ outcomes m) × ((file_rcode rcode m).total ≡ m.total)
unfolding file_rcode
file_rcode_total rcode m = (ground arith, ground arith)

file_reply_total :
    (m : Metrics) (source : Bytes) (rcode ms now : ℕ)
    → (outcomes (file_reply m source rcode ms now) % 2 ^ 64 ≡ (outcomes m + 1) % 2 ^ 64)
      × ((file_reply m source rcode ms now).total ≡ (m.total + 1) % 2 ^ 64)
unfolding file_reply
file_reply_total m source rcode ms now =
    let o = outcome_for source in
    let counted : Metrics = record m { total = (m.total + 1) % 2 ^ 64 } in
    let (summed, kept) = file_outcome_total o counted in
    let (same, still) = file_rcode_total rcode (file_outcome o counted) in
    (ap (λ (n : ℕ). n % 2 ^ 64) same ∙ summed, still ∙ kept)

-- Whatever replies and look-ups are filed, the five outcomes grow together, modulo 2^64, by the
-- number of replies, and so does the total: every reply lands in exactly one outcome.
pub file_all_total :
    (m : Metrics) (cs : List Call)
    → (outcomes (file_all m cs) % 2 ^ 64 ≡ (outcomes m + reply_count cs) % 2 ^ 64)
      × ((file_all m cs).total % 2 ^ 64 ≡ (m.total + reply_count cs) % 2 ^ 64)
unfolding file_all file record_cache reply_count
file_all_total m [] = (omega arith, omega arith)
file_all_total m (replies source rcode ms now ∷ cs) =
    let (summed, counted) = file_reply_total m source rcode ms now in
    let (a, b) = file_all_total (file_reply m source rcode ms now) cs in
    (omega (arith, summed, a), omega (arith, counted, b))
file_all_total m (looks_up hit now ∷ cs) = file_all_total (record_cache m hit now) cs
