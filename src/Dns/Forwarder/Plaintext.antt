-- ===== src/Dns/Forwarder/Plaintext.antt =====
-- The AD bit under plaintext upstreams, in internal/dnsserver/forward.go and its cache.
use kydns_server.Prelude.{
  ℕ, zero, suc, ◌≡◌, inl, inr, sym, subst, Bool, false, Option, none, some, List, [], ◌∷◌, map,
  ◌==◌, nat_eq, string_eq, lookup, arith, Bool-cases, Option-cases,
}
use kydns_server.Text.{Bytes, bytes_eq}
use kydns_server.Dns.Message.{Question, Msg}
use kydns_server.Dns.Cache.{
  Key, Entry, Cache, new_cache, key_for, get, put, ttl_for, new_entry, set_ttls, age_msg,
}
use kydns_server.Dns.Cache.Keys.{contents, drop_key, take, HasEntry}
use kydns_server.Dns.Cache.Removal.{IsCache}
use kydns_server.Dns.Cache.Lru.{store_entry-take}
use kydns_server.Dns.Cache.Reads.{get-Looked}
use kydns_server.Dns.Forwarder.{
  Upstream, Slot, Exchange, Forwarder, usable, cleared, failed_slot, ok_slot, exchange, Outside,
  fetch, resolve, fresh_slot, new_forwarder,
}

abbrev AllPlain : List Entry → Type 0
AllPlain [] = Unit {0}
AllPlain (e ∷ es) = (e.msg.authenticated_data ≡ false) × AllPlain es

AllPlain-drop_key : (k : Key) (es : List Entry) → AllPlain es → AllPlain (drop_key k es)
unfolding drop_key
AllPlain-drop_key k [] h = tt
AllPlain-drop_key k (e ∷ es) h = ground (arith, AllPlain-drop_key k es h.1)

AllPlain-take : (n : ℕ) (es : List Entry) → AllPlain es → AllPlain (take n es)
unfolding take
AllPlain-take zero es h = tt
AllPlain-take (suc n) [] h = tt
AllPlain-take (suc n) (e ∷ es) h = (h.0, AllPlain-take n es h.1)

AllPlain-HasEntry :
    (e : Entry) (es : List Entry) → AllPlain es → HasEntry e es → e.msg.authenticated_data ≡ false
AllPlain-HasEntry e [] h l = absurd l
AllPlain-HasEntry e (f ∷ es) h (inl p) =
    subst (λ (x : Entry). x.msg.authenticated_data ≡ false) p h.0
AllPlain-HasEntry e (f ∷ es) h (inr l) = AllPlain-HasEntry e es h.1 l

-- The cache is one, and no response in it has AD.
record IsPlainCache (c : Cache) : Type 0 where
  cached : IsCache c
  plain : AllPlain (contents c.order)

-- A message, if there is one, without AD.
abbrev pub LacksAd : Option Msg → Type 0
LacksAd o = (m : Msg) → o ≡ some m → m.authenticated_data ≡ false

some-LacksAd : (m : Msg) → m.authenticated_data ≡ false → LacksAd (some m)
some-LacksAd m h m' p = ground arith

none-LacksAd : LacksAd none
none-LacksAd m' p = absurd (ground arith)

get-IsPlainCache :
    (c : Cache) (k : Key) (now : ℕ)
    → IsPlainCache c
    → IsPlainCache (get c k now).0 × LacksAd (get c k now).1
unfolding age_msg
get-IsPlainCache c k now v =
    let (kept, looked) = get-Looked c k now v.cached in
    let out = get c k now in
    elim looked [
      | inl (_, nothing, same) ↦
          (subst IsPlainCache (sym same) v, subst LacksAd (sym nothing) none-LacksAd)
      | inr (e, _, listed, rest) ↦ elim rest [
        | inl (_, nothing, left) ↦ (
          record {
            cached = kept;
            plain = subst AllPlain (sym left) (AllPlain-drop_key k (contents c.order) v.plain);
          },
          subst LacksAd (sym nothing) none-LacksAd,
        )
        | inr (_, got, left) ↦
            let ad = AllPlain-HasEntry e (contents c.order) v.plain listed in
            (
              record {
                cached = kept;
                plain =
                    subst AllPlain (sym left) (ad, AllPlain-drop_key k (contents c.order) v.plain);
              },
              subst LacksAd (sym got) (some-LacksAd _ ad),
            )
      ]
    ]

put-IsPlainCache :
    (c : Cache) (k : Key) (m : Msg) (now : ℕ)
    → IsPlainCache c
    → m.authenticated_data ≡ false
    → IsPlainCache (put c k (some m) now)
unfolding put new_entry set_ttls
put-IsPlainCache c k m now v ad = elim (Bool-cases (ttl_for c m == 0)) [
  | inl zero_ttl ↦ rw (zero_ttl, put) v
  | inr cached ↦
      let e = new_entry k m (ttl_for c m) now in
      let (valid, newest) = store_entry-take c e v.cached in
      rw (cached, put)
        (record {
          cached = valid;
          plain = subst AllPlain (sym newest) (
              AllPlain-take c.max_entries (e ∷ drop_key k (contents c.order))
                (ad, AllPlain-drop_key k (contents c.order) v.plain));
        })
]

abbrev AllInsecure : List Slot → Type 0
AllInsecure [] = Unit {0}
AllInsecure (s ∷ ss) = (s.up.secure ≡ false) × AllInsecure ss

cleared-LacksAd :
    (u : Upstream) (m : Msg) → u.secure ≡ false → (cleared u m).authenticated_data ≡ false
unfolding cleared
cleared-LacksAd u m h = ground arith

exchange-LacksAd :
    (rcode_name : ℕ → Bytes) (ask : Upstream → Exchange) (now : ℕ) (slots : List Slot)
    → AllInsecure slots
    → AllInsecure (exchange rcode_name ask now slots).0
      × LacksAd (exchange rcode_name ask now slots).1
unfolding exchange failed_slot ok_slot
exchange-LacksAd rcode_name ask now [] v = (tt, none-LacksAd)
exchange-LacksAd rcode_name ask now (s ∷ ss) v = elim (Option-cases (usable (ask s.up))) [
  | inr (m, e) ↦ rw (e, exchange) (v, some-LacksAd _ (cleared-LacksAd s.up m v.0))
  | inl e ↦
      let (rest, result) = exchange-LacksAd rcode_name ask now ss v.1 in
      rw (e, exchange) ((v.0, rest), result)
]

record IsPlaintext (f : Forwarder) : Type 0 where
  cache : IsPlainCache f.cache
  slots : AllInsecure f.slots

fetch-IsPlaintext :
    (out : Outside) (f : Forwarder) (q : Question) (dnssec_ok : Bool)
    → IsPlaintext f
    → IsPlaintext (fetch out f q dnssec_ok).0 × LacksAd (fetch out f q dnssec_ok).1
unfolding fetch
fetch-IsPlaintext out f q dnssec_ok v =
    let k = key_for out.fqdn q dnssec_ok in
    let (kept, looked) = get-IsPlainCache f.cache k out.now v.cache in
    elim (Option-cases (get f.cache k out.now).1) [
      | inr (m, e) ↦
          rw (e, fetch) (record { cache = kept; slots = v.slots }, some-LacksAd m (looked m e))
      | inl e ↦
          let (slots, result) =
            exchange-LacksAd out.rcode_name (out.ask q dnssec_ok) out.now f.slots v.slots in
          elim (Option-cases (exchange out.rcode_name (out.ask q dnssec_ok) out.now f.slots).1) [
            | inl e' ↦ rw (e, e', fetch) (record { cache = kept; slots = slots }, none-LacksAd)
            | inr (m, e') ↦
                rw (e, e', fetch)
                  (
                    record {
                      cache =
                          put-IsPlainCache (get f.cache k out.now).0 k m out.now kept (result m e');
                      slots = slots;
                    },
                    some-LacksAd m (result m e'),
                  )
          ]
    ]

resolve-IsPlaintext :
    (out : Outside) (f : Forwarder) (q : Question) (dnssec_ok : Bool)
    → IsPlaintext f
    → IsPlaintext (resolve out f q dnssec_ok).0 × LacksAd (resolve out f q dnssec_ok).1
unfolding resolve
resolve-IsPlaintext out f q dnssec_ok v =
    let k = key_for out.fqdn q dnssec_ok in
    let (kept, looked) = get-IsPlainCache f.cache k out.now v.cache in
    elim (Option-cases (get f.cache k out.now).1) [
      | inr (m, e) ↦
          rw (e, resolve) (record { cache = kept; slots = v.slots }, some-LacksAd m (looked m e))
      | inl e ↦
          rw (e, resolve)
            (fetch-IsPlaintext out (record f { cache = (get f.cache k out.now).0 }) q dnssec_ok
              (record { cache = kept; slots = v.slots }))
    ]

-- One call of Resolve.
pub record Call : Type 0 where
  pub out : Outside
  pub q : Question
  pub dnssec_ok : Bool

unfoldable pub resolve_all : Forwarder → List Call → Forwarder
resolve_all f [] = f
resolve_all f (c ∷ cs) = resolve_all (resolve c.out f c.q c.dnssec_ok).0 cs

resolve_all-IsPlaintext :
    (f : Forwarder) (cs : List Call) → IsPlaintext f → IsPlaintext (resolve_all f cs)
unfolding resolve_all
resolve_all-IsPlaintext f [] v = v
resolve_all-IsPlaintext f (c ∷ cs) v =
    resolve_all-IsPlaintext (resolve c.out f c.q c.dnssec_ok).0 cs
      (resolve-IsPlaintext c.out f c.q c.dnssec_ok v).0

abbrev pub AllPlaintext : List Upstream → Type 0
AllPlaintext [] = Unit {0}
AllPlaintext (u ∷ us) = (u.secure ≡ false) × AllPlaintext us

fresh-AllInsecure : (ups : List Upstream) → AllPlaintext ups → AllInsecure (map fresh_slot ups)
unfolding fresh_slot
fresh-AllInsecure [] v = tt
fresh-AllInsecure (u ∷ us) v = (v.0, fresh-AllInsecure us v.1)

new_cache-IsPlainCache : (a b c d : ℕ) → IsPlainCache (new_cache a b c d)
unfolding new_cache lookup
new_cache-IsPlainCache a b c d = record {
  cached = record {
    index = record {
      indexed = λ el h. absurd h;
      found = λ k i h. absurd (ground arith);
      below = λ el h. absurd h;
    };
    distinct = tt;
  };
  plain = tt;
}

-- With plaintext upstreams alone no reply has AD: after any calls of Resolve from an empty cache,
-- whatever the upstreams answer, a response that Resolve returns does not have the bit, be it new or
-- from the cache.
pub resolve_all-LacksAd :
    (ups : List Upstream) (max_entries min_ttl max_ttl neg_max_ttl : ℕ) (cs : List Call)
    (out : Outside) (q : Question) (dnssec_ok : Bool) (m : Msg)
    → AllPlaintext ups
    → (resolve out
        (resolve_all (new_forwarder ups (new_cache max_entries min_ttl max_ttl neg_max_ttl)) cs)
        q
        dnssec_ok).1
      ≡ some m
    → m.authenticated_data ≡ false
unfolding new_forwarder
resolve_all-LacksAd ups a b c d cs out q dnssec_ok m v h =
    let f = new_forwarder ups (new_cache a b c d) in
    let first : IsPlaintext f = record {
      cache = new_cache-IsPlainCache a b c d;
      slots = fresh-AllInsecure ups v;
    } in
    (resolve-IsPlaintext out (resolve_all f cs) q dnssec_ok (resolve_all-IsPlaintext f cs first)).1
      m h
