-- ===== src/Auth/Backoff.antt =====
-- internal/auth/password.go: the delay after failed logins. The mutex makes each method one step, and
-- a count stays below the range of int.
pub mod Doubling
use kydns_server.Prelude.{
  ℕ, zero, suc, ◌+◌, ◌-◌, ◌*◌, ◌/◌, ◌%◌, ◌^◌, ◌≤◌, ◌<◌, ◌≡◌, ◌≢◌, ◌↔◌, ◌⊎◌, inl, inr, refl, sym, ap,
  ◌∙◌, subst, String, Bool, true, false, ◌||◌, ◌&&◌, not, Option, none, some, List, [], ◌∷◌, ◌++◌,
  map, ◌==◌, Eq, nat_eq, string_eq, same_text, leb, ltb, if◌then◌else◌, length, is_empty, Map,
  lookup, insert, delete, size, lookup-insert, lookup-delete, arith, Bool-cases, Option-cases,
}
use kydns_server.Text.{
  Bytes, bytes_eq, bytes, to_lower, trim_space, trim_last, has_prefix, has_suffix, contains_byte,
  split, join, trim_suffix,
}

-- Nanoseconds.
abbrev pub backoff_base : ℕ
backoff_base = 100 * 10 ^ 6

abbrev pub backoff_cap : ℕ
backoff_cap = 30 * 10 ^ 9

abbrev pub backoff_max_shift : ℕ
backoff_max_shift = 18

pub record Backoff : Type 0 where
  pub failures : Map Bytes ℕ

unfoldable pub new_backoff : Backoff
new_backoff = record { failures = [] }

-- `b.failures[key]`
abbrev pub failures_of : Backoff → Bytes → ℕ
failures_of b key = elim (lookup key b.failures) [ none ↦ 0 | some n ↦ n ]

-- The shift is one of a 64-bit number.
unfoldable pub delay : Bytes → Backoff → ℕ
delay key b =
    let n = failures_of b key in
    if n == 0
    then 0
    else if ltb backoff_max_shift n
    then backoff_cap
    else let d = backoff_base * 2 ^ (n - 1) % 2 ^ 63 in if ltb backoff_cap d then backoff_cap else d

unfoldable pub fail : Bytes → Backoff → Backoff
fail key b = record b { failures = insert key (failures_of b key + 1) b.failures }

unfoldable pub reset : Bytes → Backoff → Backoff
reset key b = record b { failures = delete key b.failures }
