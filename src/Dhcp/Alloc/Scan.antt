-- ===== src/Dhcp/Alloc/Scan.antt =====
-- Rule 4's loop of `allocate` in internal/dhcpd/alloc.go: the search for the lowest free address.
use kydns_server.Prelude.{
  ℕ, zero, suc, ◌+◌, ◌-◌, ◌^◌, ◌≤◌, ◌<◌, String, ◌≡◌, false, true, some, arith, Bool-cases, inl,
  inr, ◌∙◌, ap,
}
use kydns_server.Net.{Addr, v4, next, u32_of}
use kydns_server.Dhcp.Alloc.{Allocator, in_range, usable, free, scan, scan_fuel}

-- What the loop finds is free.
pub scan-free :
    (a : Allocator) (mac : String) (now fuel : ℕ) (ip : Addr) {found : Addr}
    → scan a mac now fuel ip ≡ some found
    → free a found mac now ≡ true
unfolding scan
scan-free a mac now zero ip h = ground arith
scan-free a mac now (suc fuel) ip {found} h =
    ground (arith, scan-free a mac now fuel (next ip) {found = found})

-- A free address is in the range, so it is a v4 address between the ends.
pub free-bounds :
    (a : Allocator) (ip : Addr) (mac : String) (now : ℕ)
    → free a ip mac now ≡ true
    → (in_range a ip ≡ true) × (u32_of a.cfg.start ≤ u32_of ip) × (u32_of ip ≤ u32_of a.cfg.end)
unfolding free usable in_range
free-bounds a ip mac now h = ground arith

in_range-between :
    (a : Allocator) (n m : ℕ)
    → in_range a (v4 m) ≡ true
    → u32_of a.cfg.start ≤ n
    → n ≤ m
    → in_range a (v4 n) ≡ true
unfolding in_range
in_range-between a n m h lo le = ground arith

scan_here :
    (a : Allocator) (mac : String) (now fuel n : ℕ)
    → free a (v4 n) mac now ≡ true
    → scan a mac now (suc fuel) (v4 n) ≡ some (v4 n)
unfolding scan
scan_here a mac now fuel n f = ground (arith, free-bounds a (v4 n) mac now f)

scan_on :
    (a : Allocator) (mac : String) (now fuel n : ℕ)
    → in_range a (v4 n) ≡ true
    → free a (v4 n) mac now ≡ false
    → suc n < 2 ^ 32
    → scan a mac now (suc fuel) (v4 n) ≡ scan a mac now fuel (v4 (suc n))
unfolding scan
scan_on a mac now fuel n h f fits =
    let step : next (v4 n) ≡ v4 (suc n) = ground arith in rw (h, f, step)

-- With a round for each address up to the end, the loop from `n` finds an address not above any
-- free one.
pub scan-lowest :
    (a : Allocator) (mac : String) (now fuel n m : ℕ)
    → u32_of a.cfg.start ≤ n
    → n ≤ m
    → m < n + fuel
    → m < 2 ^ 32
    → free a (v4 m) mac now ≡ true
    → (k : ℕ) × (scan a mac now fuel (v4 n) ≡ some (v4 k)) × (n ≤ k) × (k ≤ m)
unfolding scan
scan-lowest a mac now zero n m lo le enough fits f = absurd (omega arith)
scan-lowest a mac now (suc fuel) n m lo le enough fits f =
    elim (Bool-cases (free a (v4 n) mac now)) [
      | inl here ↦ (n, scan_here a mac now fuel n here, omega arith, le)
      | inr busy ↦
          let ahead : suc n ≤ m = later busy in
          let bounds = free-bounds a (v4 m) mac now f in
          let inside = in_range-between a n m bounds.0 lo le in
          let (k, found, above, below) =
            scan-lowest a mac now fuel (suc n) m (omega arith) ahead (omega arith) fits f in
          (k, scan_on a mac now fuel n inside busy (omega arith) ∙ found, omega arith, below)
    ]
  where
    later : free a (v4 n) mac now ≡ false → suc n ≤ m
    later busy = ground arith

start_is_v4 :
    (a : Allocator) (ip : Addr) → in_range a ip ≡ true → a.cfg.start ≡ v4 (u32_of a.cfg.start)
unfolding in_range
start_is_v4 a ip h = ground arith

-- Whenever an address of the range is free, rule 4 finds one, and none below it is free.
pub scan_complete :
    (a : Allocator) (mac : String) (now m : ℕ)
    → u32_of a.cfg.end < 2 ^ 32
    → free a (v4 m) mac now ≡ true
    → (k : ℕ) × (scan a mac now (scan_fuel a) a.cfg.start ≡ some (v4 k)) × (k ≤ m)
scan_complete a mac now m fits f =
    let bounds = free-bounds a (v4 m) mac now f in
    let s = u32_of a.cfg.start in
    let (k, found, _, below) =
      scan-lowest a mac now (u32_of a.cfg.end - s + 2) s m (omega arith) (omega arith) (omega arith)
        (omega arith) f in
    (
      k,
      ap (scan a mac now (u32_of a.cfg.end - s + 2)) (start_is_v4 a (v4 m) bounds.0) ∙ found,
      below,
    )
