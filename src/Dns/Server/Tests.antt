-- ===== src/Dns/Server/Tests.antt =====
-- The DNS server of internal/dnsserver at concrete inputs: the zone home. with a CNAME that points to
-- itself, and an upstream in plaintext that sets AD.
use kydns_server.Prelude.{
  ◌<◌, ◌≡◌, ◌≢◌, ◌↔◌, ◌⊎◌, refl, true, false, none, some, List, [], ◌∷◌, ◌++◌, map, ◌==◌, nat_eq,
  string_eq, if◌then◌else◌, length, lookup,
}
use kydns_server.Text.{bytes_eq, bytes, to_lower, has_prefix, has_suffix}
use native.Mathlib.Decide.{ℕ_discrete}
use kydns_server.Text.{Bytes-discrete}
use kydns_server.Net.{v4}
use kydns_server.Zone.Index.{Rr as ZoneRr}
use kydns_server.Zone.Snapshot.{Snapshot, lookup_records, index_of}
use kydns_server.Dns.Acl.{new_acl}
use kydns_server.Dns.Metrics.{new_metrics}
use kydns_server.Dns.Message.{Rr, Question, Msg, new_msg, type_a}
use kydns_server.Dns.Cache.{new_cache, Key-discrete, key_for, get, get_element, find}
use kydns_server.Dns.Authoritative.{
  DnsLib, Authoritative, owns, apex_soa, chase, chase_records, cname_rr, answer_apex, answer_owned,
  answer, no_data,
}
use kydns_server.Dns.Authoritative.Chase.{IsChased, chase-IsChased}
use kydns_server.Dns.Authoritative.Replies.{IsReply, answer-IsReply}
use kydns_server.Dns.Forwarder.{
  Upstream, Slot, Exchange, failed, no_message, replied, fresh_slot, usable, cleared, failed_slot,
  ok_slot, exchange, Outside, new_forwarder, fetch, resolve,
}
use kydns_server.Dns.Forwarder.Order.{NoneUsable, exchange_first}
use kydns_server.Dns.Forwarder.Plaintext.{resolve_all, resolve_all-LacksAd}
use kydns_server.Dns.Server.{Server, Request, World, serve_dns}
use kydns_server.Dns.Server.Forwarded.{Leaves}
use kydns_server.Dns.Server.Asked.{Uncached, with_answers}
use kydns_server.Dns.Server.Privacy.{serve_dns-Leaves, owned_stays}

abbrev lib : DnsLib
lib = record { fqdn = λ n. n; parse_addr = λ s. none; parse_ip = λ s. none }

abbrev home : Authoritative
home = record { zone = bytes "home."; ttl = 60; reverse_zones = [] }

-- a.home. is an alias of itself.
abbrev alias : ZoneRr
alias = record { name = bytes "a.home."; rrtype = bytes "CNAME"; value = bytes "a.home." }

abbrev snap : Snapshot
snap = record {
  generation = 7;
  matcher = record { entries = []; names = [] };
  views = ([], record { forward = (bytes "a.home.", alias ∷ []) ∷ []; reverse = [] }) ∷ [];
  zone = bytes "home.";
  reverse_zones = [];
}

program : Unit {0}
unfolding owns has_suffix has_prefix to_lower lookup_records index_of lookup chase chase_records
    answer answer_owned answer_apex apex_soa Bytes-discrete ℕ_discrete usable resolve fetch exchange
    new_forwarder fresh_slot new_cache key_for get get_element find cleared ok_slot failed_slot
    resolve_all Key-discrete
program = tt

abbrev link : Rr
link = cname_rr lib (bytes "a.home.") (bytes "a.home.") 60

chase-IsChased_example :
    IsChased 60 3 (link ∷ link ∷ link ∷ []) × (0 < length (link ∷ link ∷ link ∷ []))
unfolding program
chase-IsChased_example =
    chase-IsChased lib home snap [] type_a 2 (bytes "a.home.") (bytes "a.home.")
      (link ∷ link ∷ link ∷ []) refl

abbrev ask_apex : Question
ask_apex = record { qname = bytes "HOME."; qtype = type_a; qclass = 1 }

answer-IsReply_example : IsReply home 7 (no_data home snap)
unfolding program
answer-IsReply_example = answer-IsReply lib home snap [] ask_apex (no_data home snap) refl

abbrev dead : Upstream
dead = record { spec = bytes "10.0.0.1"; secure = false }

abbrev alive : Upstream
alive = record { spec = bytes "10.0.0.2"; secure = false }

abbrev validated : Msg
validated = record new_msg { authenticated_data = true }

unfoldable ask : Upstream → Exchange
unfolding Bytes-discrete
ask u = if u.spec == bytes "10.0.0.1" then failed (bytes "timeout") else replied validated

abbrev slots : List Slot
unfolding fresh_slot
slots = fresh_slot dead ∷ fresh_slot alive ∷ []

exchange_first_example :
    ((before : List Slot) × (s : Slot) × (after : List Slot) × (m : Msg) × (slots
        ≡ before ++ s ∷ after)
      × NoneUsable ask before
      × (usable (ask s.up) ≡ some m)
      × ((exchange (λ n. []) ask 9 slots).1 ≡ some (cleared s.up m))
      × ((exchange (λ n. []) ask 9 slots).0
          ≡ map (failed_slot (λ n. []) ask 9) before ++ ok_slot (λ n. []) ask 9 s ∷ after))
    ⊎ (NoneUsable ask slots
        × ((exchange (λ n. []) ask 9 slots).1 ≡ none)
        × ((exchange (λ n. []) ask 9 slots).0 ≡ map (failed_slot (λ n. []) ask 9) slots))
exchange_first_example = exchange_first (λ n. []) ask 9 slots

abbrev out : Outside
out = record { fqdn = λ n. n; rcode_name = λ n. []; ask = λ q d. ask; now = 9 }

abbrev ask_far : Question
ask_far = record { qname = bytes "far."; qtype = type_a; qclass = 1 }

resolve_all-LacksAd_example : new_msg.authenticated_data ≡ false
unfolding program ask
resolve_all-LacksAd_example =
    resolve_all-LacksAd (dead ∷ alive ∷ []) 10 60 3600 300 [] out ask_far false new_msg
      (refl, (refl, tt)) refl

abbrev server : Server
server = record {
  acl = new_acl (record { addr = v4 0xC0A80100; bits = 24 } ∷ []);
  holder = record { cur = some snap; gen = 7 };
  auth = home;
  policy = none;
  forwarder = some (new_forwarder (dead ∷ alive ∷ []) (new_cache 10 60 3600 300));
  metrics = new_metrics 0;
}

abbrev world : World
world = record {
  lib = lib;
  names = record { is_address = λ s. false; to_ascii = λ s. some s };
  truncate = λ n m. m;
  out = out;
  udp = true;
  ms = 3;
  seconds = 6000;
}

abbrev asks : Question → Request
asks q = record { opcode = 0; questions = q ∷ []; edns = none }

serve_dns-Leaves_example :
    (((serve_dns world (asks ask_far) server (v4 0xC0A80107)).forwarded ≡ some ask_far)
      ↔ Leaves world (asks ask_far) server (v4 0xC0A80107) ask_far)
    × ((serve_dns (with_answers world (λ q d u. no_message)) (asks ask_far) server (v4 0xC0A80107)
          ≡ serve_dns world (asks ask_far) server (v4 0xC0A80107))
        ⊎ ((p : Question) × Leaves world (asks ask_far) server (v4 0xC0A80107) p
            × Uncached world (asks ask_far) server p))
serve_dns-Leaves_example =
    serve_dns-Leaves world (asks ask_far) server (v4 0xC0A80107) ask_far (λ q d u. no_message)

owned_stays_example :
    (serve_dns world (asks ask_apex) server (v4 0xC0A80107)).forwarded ≢ some ask_apex
unfolding program
owned_stays_example =
    owned_stays world (asks ask_apex) server (v4 0xC0A80107) snap ask_apex refl refl
