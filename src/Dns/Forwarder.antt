-- ===== src/Dns/Forwarder.antt =====
-- internal/dnsserver/forward.go: the cache, and behind it the upstreams in their order. One call of
-- Resolve is one step; calls that the singleflight group joins to it share its result. Closing the
-- retired upstreams is left out.
pub mod Order
pub mod Plaintext
use kydns_server.Prelude.{
  ℕ, zero, suc, ◌+◌, ◌-◌, ◌*◌, ◌/◌, ◌%◌, ◌^◌, ◌≤◌, ◌<◌, ◌≡◌, ◌≢◌, ◌↔◌, ◌⊎◌, inl, inr, refl, sym, ap,
  ◌∙◌, subst, String, Bool, true, false, ◌||◌, ◌&&◌, not, Option, none, some, List, [], ◌∷◌, ◌++◌,
  map, ◌==◌, nat_eq, string_eq, same_text, leb, ltb, if◌then◌else◌, length, is_empty, Map, lookup,
  insert, delete, size, lookup-insert, lookup-delete, arith, Bool-cases, Option-cases,
}
use kydns_server.Text.{
  Bytes, bytes_eq, bytes, to_lower, trim_space, trim_last, has_prefix, has_suffix, contains_byte,
  split, join, trim_suffix,
}
use kydns_server.Dns.Message.{Question, Msg, rcode_server_failure}
use kydns_server.Dns.Cache.{Cache, Key, key_for, get, put}

-- upstream.Upstream, without the connection
pub record Upstream : Type 0 where
  pub spec : Bytes
  pub secure : Bool

pub record UpstreamStatus : Type 0 where
  pub spec : Bytes
  pub secure : Bool
  pub last_error : Bytes
  pub last_err_at : ℕ
  pub last_ok_at : ℕ

-- One upstream with its status: fwdState holds the two slices index by index.
pub record Slot : Type 0 where
  pub up : Upstream
  pub status : UpstreamStatus

-- What Exchange gives: an error, nil without an error, or a response.
pub data Exchange : Type 0 where
  failed : Bytes → Exchange
  no_message : Exchange
  replied : Msg → Exchange

pub record Forwarder : Type 0 where
  pub slots : List Slot
  pub cache : Cache

unfoldable pub fresh_slot : Upstream → Slot
fresh_slot u = record {
  up = u;
  status = record {
    spec = u.spec;
    secure = u.secure;
    last_error = [];
    last_err_at = 0;
    last_ok_at = 0;
  };
}

unfoldable pub replace : List Upstream → Forwarder → Forwarder
unfolding fresh_slot
replace ups f = record f { slots = map fresh_slot ups }

unfoldable pub new_forwarder : List Upstream → Cache → Forwarder
unfolding replace
new_forwarder ups c = replace ups (record { slots = []; cache = c })

-- record, with an error or without one
unfoldable pub record_error : Bytes → ℕ → UpstreamStatus → UpstreamStatus
record_error reason now s = record s { last_error = reason; last_err_at = now }

unfoldable pub record_ok : ℕ → UpstreamStatus → UpstreamStatus
record_ok now s = record s { last_error = []; last_err_at = 0; last_ok_at = now }

-- The response that counts: there is no error, there is a message, and it is not SERVFAIL.
unfoldable pub usable : Exchange → Option Msg
usable (failed e) = none
usable no_message = none
usable (replied m) = if m.rcode == rcode_server_failure then none else some m

-- The bare reason; the name of a response code is an argument.
unfoldable pub reason : (ℕ → Bytes) → Exchange → Bytes
reason rcode_name (failed e) = e
reason rcode_name no_message = bytes "returned no message"
reason rcode_name (replied m) = bytes "returned " ++ rcode_name m.rcode

-- A plaintext answer does not carry AD.
unfoldable pub cleared : Upstream → Msg → Msg
cleared u m = if u.secure then m else record m { authenticated_data = false }

module _ (rcode_name : ℕ → Bytes) (ask : Upstream → Exchange) (now : ℕ) where
  unfoldable pub failed_slot : Slot → Slot
  unfolding record_error reason
  failed_slot s = record s { status = record_error (reason rcode_name (ask s.up)) now s.status }

  unfoldable pub ok_slot : Slot → Slot
  unfolding record_ok
  ok_slot s = record s { status = record_ok now s.status }

  -- exchange's loop; `none` is the error after the last upstream, or that there is none.
  unfoldable pub exchange : List Slot → List Slot × Option Msg
  exchange [] = ([], none)
  exchange (s ∷ ss) =
      let rest = exchange ss in
      elim (usable (ask s.up)) [
        | some m ↦ (ok_slot s ∷ ss, some (cleared s.up m))
        | none ↦ (failed_slot s ∷ rest.0, rest.1)
      ]

-- What the outside gives to one call of Resolve: the responses and the clock.
pub record Outside : Type 0 where
  pub fqdn : Bytes → Bytes
  pub rcode_name : ℕ → Bytes
  pub ask : Question → Bool → Upstream → Exchange
  pub now : ℕ

-- The function that the group runs once for the calls it joins.
unfoldable pub fetch : Outside → Forwarder → Question → Bool → Forwarder × Option Msg
fetch out f q dnssec_ok =
    let k = key_for out.fqdn q dnssec_ok in
    let (c, hit) = get f.cache k out.now in
    elim hit [
      | some m ↦ (record f { cache = c }, some m)
      | none ↦
          let (slots, got) = exchange out.rcode_name (out.ask q dnssec_ok) out.now f.slots in
          elim got [
            | none ↦ (record { slots = slots; cache = c }, none)
            | some m ↦ (record { slots = slots; cache = put c k (some m) out.now }, some m)
          ]
    ]

unfoldable pub resolve : Outside → Forwarder → Question → Bool → Forwarder × Option Msg
resolve out f q dnssec_ok =
    let (c, hit) = get f.cache (key_for out.fqdn q dnssec_ok) out.now in
    elim hit [
      | some m ↦ (record f { cache = c }, some m)
      | none ↦ fetch out (record f { cache = c }) q dnssec_ok
    ]
