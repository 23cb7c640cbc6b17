-- ===== src/Dhcp/Server/Tests.antt =====
-- The packets of internal/dhcpd/server.go at concrete inputs: a range of two addresses, the lower one
-- leased to the client aa, and another device that sits on the upper one.
use kydns_server.Prelude.{
  List, ℕ, ◌+◌, ◌*◌, ◌^◌, ◌≡◌, ◌≢◌, ◌⊎◌, refl, String, true, none, some, [], ◌∷◌, ◌==◌, nat_eq,
  string_eq, if◌then◌else◌, lookup, insert, delete, arith,
}
use kydns_server.Text.{Bytes, bytes_eq, bytes, to_lower, trim_space}
use native.Mathlib.Decide.{ℕ_discrete}
use kydns_server.Prelude.{string_discrete}
use kydns_server.Text.{Bytes-discrete, trim_left, trim_right}
use kydns_server.Net.{Addr, v4, addr_eq, Addr-discrete}
use kydns_server.Dhcp.Alloc.{
  set_reservations, add_reservations, Config, Lease, new_allocator, load, load_leases, in_range,
  protected, usable, held_by_another, quarantined, reserved_to_another, free, claims_name,
  name_taken, held, committed_lease, evict_holder, drop_previous, commit, reservation_rule,
  unreserved, renewal_rule, scan, dynamic_rule, with_name, later_rules, apply_rules, allocate,
  release, quarantine_ip,
}
use kydns_server.Dhcp.Alloc.History.{load-IsConsistent}
use kydns_server.Dhcp.Hostname.{sanitize_hostname, check_host, first_part}
use kydns_server.Dhcp.Reserve.{normalize_mac}
use kydns_server.Dhcp.Server.{
  discover, request, Packet, Server, World, restore, parse_rows, unexpired_rows, named, asked_for,
  is_ignored, offer_again, offer_address, put_row, clear_keys, grant, serve_ack, serve_kind, handle,
  reply, nak,
}
use kydns_server.Dhcp.Server.Packets.{
  Event, arrives, refreshes, handle_event, handle_all, handle_all-exclusive,
}
use kydns_server.Dhcp.Server.Answers.{IsAcked, IsNakked, handle_answers}
use kydns_server.Dhcp.Server.Probed.{offer_address-avoids}

program : Unit {0}
unfolding new_allocator load load_leases in_range protected usable held_by_another quarantined
    reserved_to_another free claims_name name_taken held committed_lease evict_holder drop_previous
    commit reservation_rule unreserved renewal_rule scan dynamic_rule with_name later_rules
    apply_rules allocate release quarantine_ip sanitize_hostname check_host first_part normalize_mac
    named asked_for is_ignored offer_again offer_address put_row clear_keys grant serve_ack
    serve_kind handle reply nak handle_all handle_event restore parse_rows unexpired_rows
    set_reservations add_reservations lookup insert delete string_discrete Addr-discrete
    Bytes-discrete ℕ_discrete to_lower trim_space trim_left trim_right
program = tt

abbrev lan : ℕ → Addr
lan n = v4 (0xC0A80100 + n)

abbrev two_addresses : Config
two_addresses = record {
  subnet = record { addr = lan 0; bits = 24 };
  start = lan 100;
  end = lan 101;
  host = lan 1;
  gateway = lan 254;
  lease_time = 86400;
}

abbrev printer : Lease
printer = record { mac = "aa"; ip = lan 100; hostname = "printer"; expires = 1000 }

abbrev server : Server
server = record {
  addr = lan 1;
  cfg = two_addresses;
  dns = lan 1 ∷ [];
  domain = bytes "home";
  alloc = load (printer ∷ []) (new_allocator two_addresses);
  rows = [];
  ignored = [];
}

-- Every client calls itself aa, unless its address has another text.
unfoldable text : Bytes → String
unfolding Bytes-discrete
text b = if b == bytes "bb" then "bb" else "aa"

abbrev world : World
unfolding Addr-discrete
world = record {
  macs = record { parse_mac = λ s. none; parse_addr = λ s. none };
  text = text;
  show = λ a. [];
  parse = λ s. none;
  in_use = λ a. a == lan 101;
  now = 10;
  later = 20;
  stores = true;
  deletes = true;
}

-- aa renews.
abbrev renews : Packet
renews = record {
  xid = 7;
  kind = request;
  chaddr = bytes "AA";
  host_name = [];
  requested_ip = none;
  client_ip = some (lan 100);
  server_id = none;
}

abbrev renewed : Lease
renewed = record { mac = "aa"; ip = lan 100; hostname = "aa"; expires = 86410 }

-- The table has aa on an address, which is then reserved to bb, and bb asks.
abbrev stored : Server
stored = record server {
  rows = record { mac = "aa"; ip = []; hostname = "printer"; expires_at = 1; last_seen = 0 } ∷ [];
}

abbrev boot : World
boot = record world { parse = λ s. some (lan 100) }

abbrev claims : Packet
claims = record renews { chaddr = bytes "bb"; client_ip = none }

abbrev evicting : List Event
evicting = refreshes (("bb", lan 100) ∷ []) ∷ arrives boot claims ∷ []

abbrev moved_in : Lease
moved_in = record { mac = "bb"; ip = lan 100; hostname = "aa"; expires = 86410 }

-- The live holder of the address is evicted.
evicted : lookup "aa" (handle_all (restore boot stored) evicting).alloc.by_mac ≡ none
unfolding program text
evicted = refl

bb_bound : lookup "bb" (handle_all (restore boot stored) evicting).alloc.by_mac ≡ some moved_in
unfolding program text
bb_bound = refl

handle_all-exclusive_example : ◌≡◌ {A = String} "bb" "bb"
unfolding parse_rows unexpired_rows world
handle_all-exclusive_example =
    handle_all-exclusive boot stored evicting "bb" "bb" moved_in moved_in (tt, tt) bb_bound bb_bound
      refl

handle_answers_example :
    ((l : Lease) × IsAcked world server
        (text (normalize_mac world.macs (bytes "AA")))
        renews
        (handle world server renews)
        l)
    ⊎ IsNakked server (handle world server renews)
unfolding program
handle_answers_example = handle_answers world server renews refl (λ p. absurd (ground arith)) refl

-- After aa's lease has run out, bb is offered the upper address first.
abbrev free_server : Server
free_server = record server { alloc = load [] (new_allocator two_addresses) }

abbrev discovers : Packet
discovers = record renews { kind = discover; chaddr = bytes "bb"; requested_ip = some (lan 101) }

abbrev first_offer : Lease
first_offer = record { mac = "bb"; ip = lan 101; hostname = ""; expires = 10 + 60 * 10 ^ 9 }

abbrev second_offer : Lease
second_offer = record { mac = "bb"; ip = lan 100; hostname = ""; expires = 20 + 60 * 10 ^ 9 }

offer_address-avoids_example : ◌≢◌ {A = Addr} (lan 100) (lan 101)
unfolding program
offer_address-avoids_example =
    offer_address-avoids world free_server "bb" discovers first_offer second_offer
      (load-IsConsistent [] (new_allocator two_addresses) tt) refl refl refl
