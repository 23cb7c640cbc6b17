-- ===== src/Dns/Metrics.antt =====
-- internal/dnsserver/metrics.go: what the server did, in counts. The atomics are taken as one step
-- for each call; counters are 64-bit; `now` is in Unix seconds, latencies in milliseconds.
pub mod Totals
use kydns_server.Prelude.{
  ℕ, suc, ◌+◌, ◌-◌, ◌*◌, ◌/◌, ◌%◌, ◌^◌, ◌≡◌, refl, sym, ap, ◌∙◌, Bool, true, false, List, [], ◌∷◌,
  ◌==◌, nat_eq, if◌then◌else◌, arith, length,
}
use kydns_server.Text.{Bytes, bytes_eq, bytes}
use kydns_server.Dns.Message.{rcode_name_error}
use kydns_server.Dns.History.{
  QueryOutcome, was_authoritative, was_forwarded, was_blocked, was_refused, was_error, Bucket,
  History, new_history, query, cache, add_sample, snapshot,
}

unfoldable pub outcome_for : Bytes → QueryOutcome
outcome_for source =
    if source == bytes "authoritative"
    then was_authoritative
    else if source == bytes "forward"
    then was_forwarded
    else if source == bytes "blocked"
    then was_blocked
    else if source == bytes "acl"
    then was_refused
    else was_error

pub record Metrics : Type 0 where
  pub total : ℕ
  pub authoritative : ℕ
  pub forwarded : ℕ
  pub blocked : ℕ
  pub refused : ℕ
  pub errs : ℕ
  pub noerror : ℕ
  pub nxdomain : ℕ
  pub servfail : ℕ
  pub cache_hits : ℕ
  pub cache_misses : ℕ
  pub lat_sum : ℕ
  pub lat_count : ℕ
  pub last_query : ℕ
  pub started : ℕ
  pub hist : History

unfoldable pub new_metrics : ℕ → Metrics
unfolding new_history
new_metrics now = record {
  total = 0;
  authoritative = 0;
  forwarded = 0;
  blocked = 0;
  refused = 0;
  errs = 0;
  noerror = 0;
  nxdomain = 0;
  servfail = 0;
  cache_hits = 0;
  cache_misses = 0;
  lat_sum = 0;
  lat_count = 0;
  last_query = 0;
  started = now;
  hist = new_history;
}

abbrev count : ℕ → ℕ
count n = (n + 1) % 2 ^ 64

-- The switch over the outcome.
unfoldable pub file_outcome : QueryOutcome → Metrics → Metrics
file_outcome was_authoritative m = record m { authoritative = count m.authoritative }
file_outcome was_forwarded m = record m { forwarded = count m.forwarded }
file_outcome was_blocked m = record m { blocked = count m.blocked }
file_outcome was_refused m = record m { refused = count m.refused }
file_outcome was_error m = record m { errs = count m.errs }

-- The switch over the response code.
unfoldable pub file_rcode : ℕ → Metrics → Metrics
file_rcode rcode m =
    if rcode == 0
    then record m { noerror = count m.noerror }
    else if rcode == rcode_name_error
    then record m { nxdomain = count m.nxdomain }
    else if rcode == 2
    then record m { servfail = count m.servfail }
    else m

unfoldable pub file_reply : Metrics → Bytes → ℕ → ℕ → ℕ → Metrics
file_reply m source rcode ms now =
    let o = outcome_for source in
    let filed = file_rcode rcode (file_outcome o (record m { total = count m.total })) in
    record filed {
      lat_sum = (filed.lat_sum + ms) % 2 ^ 64;
      lat_count = count filed.lat_count;
      last_query = now;
      hist = add_sample filed.hist (now / 60) (query o ms);
    }

unfoldable pub record_cache : Metrics → Bool → ℕ → Metrics
record_cache m hit now = record m {
  cache_hits = if hit then count m.cache_hits else m.cache_hits;
  cache_misses = if hit then m.cache_misses else count m.cache_misses;
  hist = add_sample m.hist (now / 60) (cache hit);
}

-- The calls of Record and RecordCache.
pub data Call : Type 0 where
  replies : Bytes → ℕ → ℕ → ℕ → Call
  looks_up : Bool → ℕ → Call

unfoldable pub file : Metrics → Call → Metrics
file m (replies source rcode ms now) = file_reply m source rcode ms now
file m (looks_up hit now) = record_cache m hit now

unfoldable pub file_all : Metrics → List Call → Metrics
file_all m [] = m
file_all m (c ∷ cs) = file_all (file m c) cs

pub record MetricsSnapshot : Type 0 where
  pub metrics : Metrics
  pub uptime_seconds : ℕ
  pub history : List Bucket

-- Snapshot, which copies the counters.
unfoldable pub metrics_snapshot : Metrics → ℕ → MetricsSnapshot
metrics_snapshot m now = record {
  metrics = m;
  uptime_seconds = now - m.started;
  history = snapshot m.hist (now / 60);
}

unfoldable pub avg_ms : MetricsSnapshot → ℕ
avg_ms s = let m = s.metrics in if m.lat_count == 0 then 0 else m.lat_sum / m.lat_count

unfoldable pub cache_hit_rate : MetricsSnapshot → ℕ
cache_hit_rate s =
    let m = s.metrics in
    let total = (m.cache_hits + m.cache_misses) % 2 ^ 64 in
    if total == 0 then 0 else m.cache_hits * 100 % 2 ^ 64 / total
