-- ===== src/Dns/History.antt =====
-- internal/dnsserver/history.go: one hour of traffic in a ring of one-minute buckets. The clock's
-- reading enters as the minute; counters are 64-bit; the array is a function of its index, which the
-- code always takes modulo its length.
pub mod Window
use kydns_server.Prelude.{
  ℕ, zero, suc, ◌+◌, ◌-◌, ◌%◌, ◌^◌, Bool, true, false, List, [], ◌∷◌, ◌==◌, nat_eq, if◌then◌else◌,
}

abbrev pub hist_slots : ℕ
hist_slots = 60

pub record Bucket : Type 0 where
  pub minute : ℕ
  pub authoritative : ℕ
  pub forwarded : ℕ
  pub blocked : ℕ
  pub cache_hits : ℕ
  pub cache_misses : ℕ
  pub latency_sum : ℕ
  pub latency_count : ℕ

abbrev pub empty_bucket : ℕ → Bucket
empty_bucket m = record {
  minute = m;
  authoritative = 0;
  forwarded = 0;
  blocked = 0;
  cache_hits = 0;
  cache_misses = 0;
  latency_sum = 0;
  latency_count = 0;
}

-- The outcomes of a query; only the first three are graphed.
pub data QueryOutcome : Type 0 where
  was_authoritative was_forwarded was_blocked was_refused was_error : QueryOutcome

pub record History : Type 0 where
  pub slots : ℕ → Bucket

unfoldable pub new_history : History
new_history = record { slots = λ _. empty_bucket 0 }

abbrev count : ℕ → ℕ
count n = (n + 1) % 2 ^ 64

-- current: the bucket of the minute, after a stale slot has been reset
unfoldable pub current : History → ℕ → Bucket
current h m = let b = h.slots (m % hist_slots) in if b.minute == m then b else empty_bucket m

unfoldable pub put_bucket : History → ℕ → Bucket → History
put_bucket h m b = record { slots = λ i. if i == m % hist_slots then b else h.slots i }

unfoldable pub count_outcome : QueryOutcome → Bucket → Bucket
count_outcome was_authoritative b = record b { authoritative = count b.authoritative }
count_outcome was_forwarded b = record b { forwarded = count b.forwarded }
count_outcome was_blocked b = record b { blocked = count b.blocked }
count_outcome was_refused b = b
count_outcome was_error b = b

-- What one call adds to a bucket: `add` with a latency in milliseconds, or `addCache`.
pub data Sample : Type 0 where
  query : QueryOutcome → ℕ → Sample
  cache : Bool → Sample

unfoldable pub apply_sample : Sample → Bucket → Bucket
unfolding count_outcome
apply_sample (query o ms) b =
    let c = count_outcome o b in
    record c { latency_sum = (c.latency_sum + ms) % 2 ^ 64; latency_count = count c.latency_count }
apply_sample (cache true) b = record b { cache_hits = count b.cache_hits }
apply_sample (cache false) b = record b { cache_misses = count b.cache_misses }

-- add and addCache, at a minute
unfoldable pub add_sample : History → ℕ → Sample → History
add_sample h m s = put_bucket h m (apply_sample s (current h m))

-- The loop of snapshot, with `n` minutes to go up to `now`.
unfoldable pub snapshot_from : History → ℕ → ℕ → List Bucket
snapshot_from h now zero = []
snapshot_from h now (suc n) =
    let m = now - n in
    let b = h.slots (m % hist_slots) in
    (if b.minute == m then b else empty_bucket m) ∷ snapshot_from h now n

unfoldable pub snapshot : History → ℕ → List Bucket
unfolding snapshot_from
snapshot h now = snapshot_from h now hist_slots
