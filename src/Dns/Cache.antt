-- ===== src/Dns/Cache.antt =====
-- internal/dnsserver/cache.go: the cache of forwarded responses. The mutex makes each method one
-- step; `now` is in nanoseconds; TTLs are 32-bit seconds; the hit counters are left out. A
-- `*list.Element` is a number that no other element has had.
pub mod Elements
pub mod Keys
pub mod Removal
pub mod Lru
pub mod Reads
use native.Mathlib.Decide.{ℕ_discrete}
use kydns_server.Prelude.{
  ℕ, zero, suc, ◌+◌, ◌-◌, ◌*◌, ◌/◌, ◌%◌, ◌^◌, Bool, true, false, ◌||◌, ◌&&◌, not, Option, none,
  some, List, [], ◌∷◌, ◌==◌, nat_eq, Eq, ltb, leb, if◌then◌else◌, Map, lookup, insert, delete,
  length, map, is_empty,
}
use kydns_server.Text.{Bytes, Bytes-discrete, to_lower}
use kydns_server.Dns.Message.{soa, Rr, Msg, Question, type_opt, rcode_name_error}

-- cacheKey
pub record Key : Type 0 where
  pub name : Bytes
  pub qtype : ℕ
  pub dnssec_ok : Bool

unfoldable pub Key-discrete : Discrete Key
Key-discrete = hlevel (ℕ_discrete, Bytes-discrete)

instance abbrev pub key_eq : Eq Key
key_eq = record { dec = Key-discrete }

-- cacheEntry
pub record Entry : Type 0 where
  pub key : Key
  pub msg : Msg
  pub stored : ℕ
  pub expires : ℕ
  pub ttl : ℕ

pub record Element : Type 0 where
  pub id : ℕ
  pub entry : Entry

pub record Cache : Type 0 where
  pub entries : Map Key ℕ
  pub order : List Element
  pub next_id : ℕ
  pub max_entries : ℕ
  pub min_ttl : ℕ
  pub max_ttl : ℕ
  pub neg_max_ttl : ℕ

unfoldable pub new_cache : ℕ → ℕ → ℕ → ℕ → Cache
new_cache max_entries min_ttl max_ttl neg_max_ttl = record {
  entries = [];
  order = [];
  next_id = 0;
  max_entries = max_entries;
  min_ttl = min_ttl % 2 ^ 32;
  max_ttl = max_ttl % 2 ^ 32;
  neg_max_ttl = neg_max_ttl % 2 ^ 32;
}

-- keyFor; `dns.Fqdn` is an argument.
unfoldable pub key_for : (Bytes → Bytes) → Question → Bool → Key
key_for fqdn q d = record { name = to_lower (fqdn q.qname); qtype = q.qtype; dnssec_ok = d }

-- The element behind a pointer, and `order.Remove`.
unfoldable pub find : ℕ → List Element → Option Element
find i [] = none
find i (el ∷ els) = if el.id == i then some el else find i els

unfoldable pub remove : ℕ → List Element → List Element
remove i [] = []
remove i (el ∷ els) = let rest = remove i els in if el.id == i then rest else el ∷ rest

unfoldable pub back : List Element → Option Element
back [] = none
back (el ∷ []) = some el
back (el ∷ el' ∷ els) = back (el' ∷ els)

-- removeLocked
unfoldable pub remove_element : Cache → Element → Cache
remove_element c el = record c {
  entries = delete el.entry.key c.entries;
  order = remove el.id c.order;
}

-- removeLocked(c.order.Back()), where a nil element is ignored
unfoldable pub remove_back : Cache → Cache
remove_back c = elim (back c.order) [ none ↦ c | some el ↦ remove_element c el ]

-- `for c.order.Len() > c.maxEntries`
unfoldable pub shrink : ℕ → Cache → Cache
shrink zero c = c
shrink (suc fuel) c =
    let rest = shrink fuel (remove_back c) in if ltb c.max_entries (length c.order) then rest else c

-- One round for each element.
unfoldable pub evict : Cache → Cache
unfolding shrink
evict c = shrink (length c.order) c

unfoldable pub age_rr : ℕ → Rr → Rr
age_rr age rr =
    if rr.rrtype == type_opt
    then rr
    else record rr { ttl = if ltb age rr.ttl then rr.ttl - age else 0 }

-- The copy that Get returns, with its TTLs counted down.
unfoldable pub age_msg : ℕ → Msg → Msg
unfolding age_rr
age_msg age m = record m {
  answer = map (age_rr age) m.answer;
  ns = map (age_rr age) m.ns;
  extra = map (age_rr age) m.extra;
}

unfoldable pub get_element : Cache → Element → ℕ → Cache × Option Msg
get_element c el now = if not (ltb now el.entry.expires) then (remove_element c el, none) else (
  record c { order = el ∷ remove el.id c.order },
  some (age_msg ((now - el.entry.stored) / 10 ^ 9 % 2 ^ 32) el.entry.msg),
)

-- lookup, for a key
unfoldable pub get : Cache → Key → ℕ → Cache × Option Msg
get c k now = elim (lookup k c.entries) [
  | none ↦ (c, none)
  | some i ↦ elim (find i c.order) [ none ↦ (c, none) | some el ↦ get_element c el now ]
]

unfoldable pub clamp : ℕ → ℕ → ℕ → ℕ
clamp v lo hi = if ltb v lo then lo else if ltb hi v then hi else v

-- The first SOA of the authority section.
unfoldable pub soa_ttl : List Rr → Option ℕ
soa_ttl [] = none
soa_ttl (rr ∷ rrs) = elim rr.rdata [ soa s ↦ some s.minttl | _ ↦ soa_ttl rrs ]

-- The loop over the answers, from `lowest`.
unfoldable pub lowest_ttl : ℕ → List Rr → ℕ
lowest_ttl low [] = low
lowest_ttl low (rr ∷ rrs) = lowest_ttl (if ltb rr.ttl low then rr.ttl else low) rrs

unfoldable pub ttl_for : Cache → Msg → ℕ
unfolding clamp soa_ttl lowest_ttl
ttl_for c m =
    if m.rcode == rcode_name_error || is_empty m.answer
    then elim (soa_ttl m.ns) [ some t ↦ clamp t c.min_ttl c.neg_max_ttl | none ↦ 0 ]
    else clamp (lowest_ttl (2 ^ 32 - 1) m.answer) c.min_ttl c.max_ttl

unfoldable pub set_rr : ℕ → Rr → Rr
set_rr ttl rr = if rr.rrtype == type_opt then rr else record rr { ttl = ttl }

unfoldable pub set_ttls : ℕ → Msg → Msg
unfolding set_rr
set_ttls ttl m = record m {
  answer = map (set_rr ttl) m.answer;
  ns = map (set_rr ttl) m.ns;
  extra = map (set_rr ttl) m.extra;
}

unfoldable pub new_entry : Key → Msg → ℕ → ℕ → Entry
new_entry k m ttl now = record {
  key = k;
  msg = set_ttls ttl m;
  stored = now;
  expires = now + ttl * 10 ^ 9;
  ttl = ttl;
}

-- `if el, ok := c.entries[key]; ok { c.removeLocked(el) }`
unfoldable pub remove_key : Cache → Key → Cache
remove_key c k = elim (lookup k c.entries) [
  | none ↦ c
  | some i ↦ elim (find i c.order) [ none ↦ c | some el ↦ remove_element c el ]
]

-- `c.entries[entry.key] = c.order.PushFront(entry)`
unfoldable pub push_front : Cache → Entry → Cache
push_front c e = record c {
  entries = insert e.key c.next_id c.entries;
  order = record { id = c.next_id; entry = e } ∷ c.order;
  next_id = suc c.next_id;
}

unfoldable pub store_entry : Cache → Entry → Cache
store_entry c e = evict (push_front (remove_key c e.key) e)

-- Put, for a key; a nil message is `none`.
unfoldable pub put : Cache → Key → Option Msg → ℕ → Cache
put c k none now = c
put c k (some m) now =
    if ttl_for c m == 0 then c else store_entry c (new_entry k m (ttl_for c m) now)

-- Retune
unfoldable pub retune : Cache → ℕ → ℕ → ℕ → ℕ → Cache
retune c max_entries min_ttl max_ttl neg_max_ttl = evict (record c {
  max_entries = if ltb max_entries 1 then 1 else max_entries;
  min_ttl = min_ttl % 2 ^ 32;
  max_ttl = max_ttl % 2 ^ 32;
  neg_max_ttl = neg_max_ttl % 2 ^ 32;
})

unfoldable pub flush : Cache → Cache
flush c = record c { entries = []; order = [] }

unfoldable pub len : Cache → ℕ
len c = length c.order
