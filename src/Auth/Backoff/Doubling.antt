-- ===== src/Auth/Backoff/Doubling.antt =====
-- How long internal/auth/password.go makes a source wait.
use kydns_server.Prelude.{
  ℕ, zero, suc, ◌+◌, ◌*◌, ◌%◌, ◌^◌, ◌≤◌, ◌<◌, ◌≡◌, inl, inr, refl, List, [], ◌∷◌, ◌==◌, nat_eq,
  string_eq, ltb, if◌then◌else◌, lookup, lookup-insert, lookup-delete, arith, Bool-cases,
}
use kydns_server.Text.{Bytes, bytes_eq}
use native.Mathlib.Nat.{pow-le-pow_right}
use kydns_server.Auth.Backoff.{
  backoff_base, backoff_cap, backoff_max_shift, Backoff, new_backoff, failures_of, delay, fail,
  reset,
}

pub data Call : Type 0 where
  fails resets : Bytes → Call

unfoldable pub step : Backoff → Call → Backoff
step b (fails key) = fail key b
step b (resets key) = reset key b

-- After the calls, the latest first.
unfoldable pub replay : List Call → Backoff
replay [] = new_backoff
replay (c ∷ cs) = step (replay cs) c

-- How often a source has failed since its last success.
unfoldable pub streak : Bytes → List Call → ℕ
streak key [] = 0
streak key (fails k ∷ cs) = let rest = streak key cs in if k == key then suc rest else rest
streak key (resets k ∷ cs) = let rest = streak key cs in if k == key then 0 else rest

-- A tenth of a second, doubled for each further failure, and half a minute at most.
unfoldable pub doubled : ℕ → ℕ
doubled zero = 0
doubled (suc n) =
    if ltb backoff_cap (backoff_base * 2 ^ n) then backoff_cap else backoff_base * 2 ^ n

failures-streak : (key : Bytes) (cs : List Call) → failures_of (replay cs) key ≡ streak key cs
unfolding replay step new_backoff fail reset streak lookup
failures-streak key [] = refl
failures-streak key (fails k ∷ cs) =
    let b = replay cs in
    ground (
      arith,
      lookup-insert key k (failures_of b k + 1) b.failures,
      failures-streak key cs,
      failures-streak k cs,
    )
failures-streak key (resets k ∷ cs) =
    let b = replay cs in ground (arith, lookup-delete key k b.failures, failures-streak key cs)

doubled_large : (k : ℕ) → 18 ≤ k → backoff_cap < backoff_base * 2 ^ k
doubled_large k h = omega (arith, pow-le-pow_right {n = 2} (omega arith) h)

doubled_fits : (k : ℕ) → k ≤ 17 → backoff_base * 2 ^ k % 2 ^ 63 ≡ backoff_base * 2 ^ k
doubled_fits k h = omega (arith, pow-le-pow_right {n = 2} (omega arith) h)

delay-doubled :
    (key : Bytes) (b : Backoff) (n : ℕ) → failures_of b key ≡ n → delay key b ≡ doubled n
unfolding delay doubled
delay-doubled key b zero e = ground arith
delay-doubled key b (suc n) e = elim (Bool-cases (ltb backoff_max_shift (suc n))) [
  | inl many ↦ let large = doubled_large n (ground (arith, many)) in ground (arith, e, large)
  | inr few ↦ let fits = doubled_fits n (ground (arith, few)) in ground (arith, e, fits, few)
]

-- After any failures and successes of any sources, a source waits for a tenth of a second, doubled
-- for each failure after the first since its last success, and never longer than half a minute; the
-- shift never overflows, and no other source counts.
pub delay_exact : (key : Bytes) (cs : List Call) → delay key (replay cs) ≡ doubled (streak key cs)
delay_exact key cs = delay-doubled key (replay cs) (streak key cs) (failures-streak key cs)
