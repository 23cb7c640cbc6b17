-- ===== src/Dns/Tests.antt =====
-- The allow-list, the cache and the traffic history of internal/dnsserver at concrete inputs.
use kydns_server.Prelude.{
  List, ◌+◌, ◌-◌, ◌*◌, ◌/◌, ◌%◌, ◌^◌, ◌≤◌, ◌≡◌, ◌↔◌, refl, true, false, some, [], ◌∷◌, map, length,
  lookup, insert, delete, arith,
}
use native.Mathlib.Decide.{ℕ_discrete}
use kydns_server.Text.{Bytes-discrete, bytes}
use kydns_server.Net.{Prefix, v4, is_valid, unmap}
use kydns_server.Dns.Acl.{new_acl, replace, allow}
use kydns_server.Dns.Acl.Masking.{Admits, allow-Admits}
use kydns_server.Dns.History.{query, was_blocked, snapshot}
use kydns_server.Dns.History.Window.{Log, replay, total, minutes, snapshot-total}
use kydns_server.Dns.Metrics.{Call, replies, looks_up}
use kydns_server.Dns.Message.{Msg, ip}
use kydns_server.Dns.Cache.{
  Key, Key-discrete, Cache, new_cache, find, remove, back, remove_element, remove_back, shrink,
  evict, get_element, get, clamp, soa_ttl, lowest_ttl, ttl_for, set_rr, set_ttls, new_entry,
  remove_key, push_front, store_entry, put, age_rr, age_msg,
}
use kydns_server.Dns.Cache.Keys.{contents, drop_key, take}
use kydns_server.Dns.Cache.Removal.{IsCache}
use kydns_server.Dns.Cache.Lru.{store_entry-take}
use kydns_server.Dns.Cache.Reads.{put_bounded, get-put}

-- 192.168.1.7/24 has host bits; the client is 192.168.1.200.
abbrev lan : Prefix
lan = record { addr = v4 0xC0A80107; bits = 24 }

allow-Admits_example :
    ((allow (replace (new_acl []) (lan ∷ [])) (v4 0xC0A801C8) 5).1 ≡ true
      ↔ ((is_valid (v4 0xC0A801C8) ≡ true) × Admits (lan ∷ []) (unmap (v4 0xC0A801C8))))
    × ((allow (replace (new_acl []) (lan ∷ [])) (v4 0xC0A801C8) 5).1 ≡ true
        → (allow (replace (new_acl []) (lan ∷ [])) (v4 0xC0A801C8) 5).0
          ≡ replace (new_acl []) (lan ∷ []))
    × ((allow (replace (new_acl []) (lan ∷ [])) (v4 0xC0A801C8) 5).1 ≡ false
        → (allow (replace (new_acl []) (lan ∷ [])) (v4 0xC0A801C8) 5).0.total
          ≡ ((new_acl []).total + 1) % 2 ^ 64)
allow-Admits_example = allow-Admits (new_acl []) (lan ∷ []) (v4 0xC0A801C8) 5

-- A blocked query in minute 100, and one in minute 160, which reuses its slot.
abbrev traffic : Log
traffic = (160, query was_blocked 3) ∷ (100, query was_blocked 2) ∷ []

snapshot-total_example : snapshot (replay traffic) 161 ≡ map (λ m. total m traffic) (minutes 161 60)
snapshot-total_example = snapshot-total 161 traffic (omega arith, (omega arith, tt)) (omega arith)

program : Unit {0}
unfolding new_cache find remove back remove_element remove_back shrink evict get_element get clamp
    soa_ttl lowest_ttl ttl_for set_rr set_ttls new_entry remove_key push_front store_entry put
    age_rr age_msg lookup insert delete Key-discrete Bytes-discrete ℕ_discrete
program = tt

abbrev small : Cache
small = record {
  entries = [];
  order = [];
  next_id = 0;
  max_entries = 1;
  min_ttl = 60;
  max_ttl = 3600;
  neg_max_ttl = 300;
}

new_small : new_cache 1 60 3600 300 ≡ small
unfolding new_cache
new_small = refl

abbrev www : Key
www = record { name = bytes "www."; qtype = 1; dnssec_ok = false }

abbrev mail : Key
mail = record { name = bytes "mail."; qtype = 1; dnssec_ok = false }

abbrev answer : Msg
answer = record {
  rcode = 0;
  authoritative = false;
  recursion_available = false;
  authenticated_data = false;
  answer =
      record { name = bytes "www."; rrtype = 1; ttl = 120; rdata = ip (some (v4 0xC0A80102)) } ∷ [];
  ns = [];
  extra = [];
}

small-IsCache : IsCache small
unfolding lookup
small-IsCache = record {
  index = record {
    indexed = λ el h. absurd h;
    found = λ k i h. absurd (ground arith);
    below = λ el h. absurd h;
  };
  distinct = tt;
}

-- The second of two messages evicts the first.
one_left : length (put (put small www (some answer) 0) mail (some answer) 1).order ≡ 1
unfolding program
one_left = refl

store_entry-take_example :
    IsCache (store_entry small (new_entry www answer 120 0))
    × (contents (store_entry small (new_entry www answer 120 0)).order
        ≡ take 1 (new_entry www answer 120 0 ∷ drop_key www (contents small.order)))
unfolding new_entry
store_entry-take_example = store_entry-take small (new_entry www answer 120 0) small-IsCache

abbrev filled : Cache
filled = put small www (some answer) 0

filled-bounded : IsCache filled × (length filled.order ≤ 1)
filled-bounded = put_bounded small www (some answer) 0 small-IsCache (omega arith)

get-put_example :
    (get filled www (7 * 10 ^ 9)).1
    ≡ some (age_msg ((7 * 10 ^ 9 - 0) / 10 ^ 9 % 2 ^ 32) (set_ttls 120 answer))
unfolding program
get-put_example =
    get-put small www answer 0 (7 * 10 ^ 9) small-IsCache (omega arith) (omega arith) (omega arith)

abbrev calls : List Call
calls =
    replies (bytes "forward") 0 12 6000 ∷ looks_up true 6000 ∷ replies (bytes "acl") 5 0 6001 ∷ []
