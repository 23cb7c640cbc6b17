-- ===== src/Dhcp/Tests.antt =====
-- The allocator of internal/dhcpd/alloc.go at concrete inputs: a range of two addresses.
use kydns_server.Prelude.{
  ℕ, ◌+◌, ◌<◌, String, ◌≡◌, ◌≢◌, refl, Bool, false, true, some, arith, List, [], ◌∷◌, lookup,
  insert, delete, string_eq, string_discrete, ◌⊎◌,
}
use text.Mathlib.TextEquality.{eq_iff}
use native.Mathlib.Decide.{ℕ_discrete}
use kydns_server.Net.{Addr, addr_eq, v4, invalid, Addr-discrete}
use kydns_server.Dhcp.Alloc.{
  load_leases, Allocator, Config, Lease, Request, new_allocator, load, add_reservations,
  set_reservations, in_range, protected, usable, held_by_another, quarantined, reserved_to_another,
  free, claims_name, name_taken, held, commit, reservation_rule, unreserved, renewal_rule, scan,
  dynamic_rule, with_name, later_rules, apply_rules, allocate, release, decline, quarantine_ip,
  quarantine_for, leases,
}
use kydns_server.Dhcp.Alloc.Invariant.{IsConsistent}
use kydns_server.Dhcp.Alloc.Safety.{allocate-unprotected, allocate_spares_others}
use kydns_server.Dhcp.Alloc.Own.{offer_keeps_own, IsKept, refused-exhausted}
use kydns_server.Dhcp.Alloc.Names.{HasDistinctNames, run-HasDistinctNames}
use kydns_server.Dhcp.Alloc.Returns.{decline_exact, IsUnbound}
use kydns_server.Dhcp.Alloc.History.{Call, allocates, releases, step, run, load-IsConsistent}

program : Unit {0}
unfolding new_allocator load in_range protected usable held_by_another quarantined
    reserved_to_another free claims_name name_taken held commit reservation_rule set_reservations
    unreserved renewal_rule scan dynamic_rule with_name later_rules apply_rules allocate release
    decline quarantine_ip leases step run lookup insert delete string_discrete Addr-discrete
    ℕ_discrete
program = tt

abbrev lan : ℕ → Addr
lan n = v4 (0xC0A80100 + n)

abbrev two_addresses : Config
two_addresses = record {
  subnet = record { addr = lan 0; bits = 24 };
  start = lan 100;
  end = lan 101;
  host = lan 1;
  gateway = lan 254;
  lease_time = 86400;
}

abbrev printer : Lease
printer = record { mac = "aa"; ip = lan 100; hostname = "printer"; expires = 1000 }

abbrev booted : Allocator
unfolding new_allocator load
booted = load (printer ∷ []) (new_allocator two_addresses)

abbrev ask : String → String → Addr → Bool → ℕ → Request
ask mac hostname requested tentative now = record {
  mac = mac;
  hostname = hostname;
  requested = requested;
  ttl = 500;
  tentative = tentative;
  now = now;
}

abbrev phone : Lease
phone = record { mac = "bb"; ip = lan 101; hostname = ""; expires = 510 }

-- The second client asks for the taken address and the taken name, and gets another and none.
second_client : (allocate booted (ask "bb" "printer" (lan 100) false 10)).1 ≡ some (phone, true)
unfolding program
second_client = refl

booted-IsConsistent : IsConsistent booted
unfolding program
booted-IsConsistent = load-IsConsistent (printer ∷ []) (new_allocator two_addresses) (tt, tt)

allocate-unprotected_example : protected booted phone.ip ≡ false
unfolding program
allocate-unprotected_example =
    allocate-unprotected booted (ask "bb" "printer" (lan 100) false 10) phone true refl

bb_not_aa : ◌≢◌ {A = String} "aa" "bb"
bb_not_aa = ground (arith, eq_iff "aa" "bb")

allocate_spares_others_example :
    (lookup "aa" (allocate booted (ask "bb" "" (lan 100) false 10)).0.by_mac ≡ some printer)
    ⊎ ((false ≡ false) × (lookup "bb" booted.reserved ≡ some (lan 100)))
unfolding program
allocate_spares_others_example =
    allocate_spares_others booted (ask "bb" "" (lan 100) false 10) "aa" printer booted-IsConsistent
      (record { other = bb_not_aa; bound = refl; live = omega arith })

offer_keeps_own_example : IsKept (allocate booted (ask "aa" "" (lan 101) true 10)).0 "aa" printer
unfolding program
offer_keeps_own_example =
    offer_keeps_own booted (ask "aa" "" (lan 101) true 10) printer
      (record { discover = refl; bound = refl; live = omega arith; allowed = refl })

abbrev reserving : Allocator
unfolding set_reservations add_reservations new_allocator load
reserving = set_reservations (("cc", lan 100) ∷ []) booted

abbrev full : Allocator
unfolding program
full = (allocate booted (ask "bb" "" (lan 101) false 10)).0

refused-exhausted_example :
    ((allocate full (ask "dd" "" invalid true 20)).0 ≡ full)
    × ((m : ℕ) → free full (v4 m) "dd" 20 ≡ false)
unfolding program
refused-exhausted_example = refused-exhausted full (ask "dd" "" invalid true 20) (omega arith) refl

booted_names : HasDistinctNames booted 5
unfolding program load_leases
booted_names m n k l hm hn lm ln same named = ground (arith, hm, hn)

-- aa is named printer; bb asks for that name and gets none, until aa has released its lease.
abbrev contended : List Call
contended =
    allocates (ask "bb" "printer" (lan 101) false 10)
    ∷ releases "aa" (lan 100)
    ∷ allocates (ask "bb" "printer" (lan 101) false 20)
    ∷ []

abbrev named_phone : Lease
named_phone = record { mac = "bb"; ip = lan 101; hostname = "printer"; expires = 520 }

bb_named : lookup "bb" (run booted contended).by_mac ≡ some named_phone
unfolding program
bb_named = refl

run-HasDistinctNames_example : HasDistinctNames (run booted contended) 30
run-HasDistinctNames_example =
    run-HasDistinctNames booted contended 5 booted-IsConsistent booted_names
      (omega arith, (omega arith, (omega arith, tt))) 30 (omega arith)

decline_exact_example :
    (((decline booted "aa" (lan 100) 10).1 ≡ true)
      × (◌≢◌ {A = String} "aa" "")
      × (lookup (lan 100) booted.by_ip ≡ some "aa")
      × IsUnbound booted (decline booted "aa" (lan 100) 10).0 "aa" (lan 100)
      × ((m : String) (later : ℕ)
          → later < 10 + quarantine_for
          → free (decline booted "aa" (lan 100) 10).0 (lan 100) m later ≡ false))
    ⊎ (((decline booted "aa" (lan 100) 10).1 ≡ false)
        × ¬ ((◌≢◌ {A = String} "aa" "") × (lookup (lan 100) booted.by_ip ≡ some "aa"))
        × ((decline booted "aa" (lan 100) 10).0 ≡ booted))
decline_exact_example = decline_exact booted "aa" (lan 100) 10

abbrev one_call : List Call
one_call = allocates (ask "bb" "" (lan 101) false 10) ∷ []
