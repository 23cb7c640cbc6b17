-- ===== src/Upstream/Parse.antt =====
-- internal/upstream/parse.go: the text of an upstream and what it says of the channel.
pub mod Specs
use kydns_server.Prelude.{
  ℕ, zero, suc, ◌+◌, ◌-◌, ◌*◌, ◌/◌, ◌%◌, ◌^◌, ◌≤◌, ◌<◌, ◌≡◌, ◌≢◌, ◌↔◌, ◌⊎◌, inl, inr, refl, sym, ap,
  ◌∙◌, subst, String, Bool, true, false, ◌||◌, ◌&&◌, not, Option, none, some, List, [], ◌∷◌, ◌++◌,
  map, ◌==◌, Eq, nat_eq, string_eq, same_text, leb, ltb, if◌then◌else◌, length, is_empty, Map,
  lookup, insert, delete, size, lookup-insert, lookup-delete, arith, Bool-cases, Option-cases,
}
use kydns_server.Text.{
  Bytes, bytes_eq, bytes, to_lower, trim_space, trim_last, has_prefix, has_suffix, contains_byte,
  split, join, trim_suffix,
}
use kydns_server.Text.{has_infix, after_last, trim_any}

pub data Transport : Type 0 where
  plain dot doh : Transport

-- Transport.Secure
unfoldable pub secure : Transport → Bool
secure plain = false
secure dot = true
secure doh = true

-- The pool of root certificates, which only tests set, is left out.
pub record Spec : Type 0 where
  pub raw : Bytes
  pub transport : Transport
  pub addr : Bytes
  pub server_name : Bytes
  pub url : Bytes

pub data ParseError : Type 0 where
  empty_upstream : ParseError
  bad_url : ParseError
  credentials : Bytes → ParseError
  unknown_scheme : Bytes → ParseError
  bootstrap_hint : ParseError
  bad_port : Bytes → ParseError

pub data Result (A : Type 0) : Type 0 where
  ok : A → Result A
  err : ParseError → Result A

infixl 5 ◌>>=◌
abbrev pub ◌>>=◌ : {A B : Type 0} → Result A → (A → Result B) → Result B
ok a >>= f = f a
err e >>= f = err e

-- What `url.Parse` finds.
pub record Url : Type 0 where
  pub scheme : Bytes
  pub has_user : Bool
  pub host : Bytes
  pub path : Bytes
  pub fragment : Bytes

-- `url.Parse`, `net.SplitHostPort`, `netip.ParseAddr` followed by String, `net.LookupPort` for tcp
-- and `net.JoinHostPort`.
pub record Net : Type 0 where
  pub parse_url : Bytes → Option Url
  pub split_host_port : Bytes → Option (Bytes × Bytes)
  pub parse_addr : Bytes → Option Bytes
  pub is_port : Bytes → Bool
  pub join_host_port : Bytes → Bytes → Bytes

module _ (net : Net) where
  -- The host and port of a text, with the port filled in.
  unfoldable pub host_and_port : Bytes → Bytes → Bytes × Bytes
  host_and_port s def_port = elim (net.split_host_port s) [
    | some (h, p) ↦ (h, p)
    | none ↦ (s, def_port)
  ]

  unfoldable pub host_port : Bytes → Bytes → Result Bytes
  host_port s def_port =
      let (host, port) = host_and_port s def_port in
      elim (net.parse_addr (trim_any host (bytes "[]"))) [
        | none ↦ err bootstrap_hint
        | some addr ↦
            if net.is_port port then ok (net.join_host_port addr port) else err (bad_port port)
      ]

  -- dohAuthority
  unfoldable pub authority_host : Spec → Bytes → Bytes
  authority_host s host =
      if not (s.server_name == [])
      then s.server_name
      else if contains_byte b':' host
      then b'[' ∷ host ++ b']' ∷ []
      else host

  unfoldable pub doh_authority : Spec → Bytes
  doh_authority s = elim (net.split_host_port s.addr) [
    | none ↦ s.addr
    | some (host, port) ↦
        if port == bytes "443" then authority_host s host else authority_host s host ++ b':' ∷ port
  ]

  -- The switch over the scheme: the transport and its port.
  unfoldable pub scheme_of : Bytes → Option (Transport × Bytes)
  scheme_of scheme =
      if scheme == bytes "udp"
      then some (plain, bytes "53")
      else if scheme == bytes "tls"
      then some (dot, bytes "853")
      else if scheme == bytes "https"
      then some (doh, bytes "443")
      else none

  abbrev pub is_doh : Transport → Bool
  is_doh plain = false
  is_doh dot = false
  is_doh doh = true

  unfoldable pub with_url : Bytes → Spec → Spec
  with_url path s =
      if is_doh s.transport
      then record s {
        url =
            bytes "https://"
            ++ doh_authority s
            ++ (if path == [] then bytes "/dns-query" else path);
      }
      else s

  unfoldable pub parse_scheme : Bytes → Url → Result Spec
  parse_scheme raw u = elim (scheme_of u.scheme) [
    | none ↦ err (unknown_scheme u.scheme)
    | some (transport, def_port) ↦ host_port u.host def_port >>= λ addr. ok (
        with_url u.path (record {
          raw = raw;
          transport = transport;
          addr = addr;
          server_name = u.fragment;
          url = [];
        }))
  ]

  -- A text with no scheme.
  unfoldable pub parse_bare : Bytes → Bytes → Result Spec
  parse_bare raw s = elim (after_last b'@' s) [
    | some rest ↦ err (credentials rest)
    | none ↦ host_port s (bytes "53") >>= λ addr.
        ok (record { raw = raw; transport = plain; addr = addr; server_name = []; url = [] })
  ]

  unfoldable pub parse_url_spec : Bytes → Bytes → Result Spec
  parse_url_spec raw s = elim (net.parse_url s) [
    | none ↦ err bad_url
    | some u ↦
        if u.has_user
        then err (credentials (u.scheme ++ bytes "://" ++ u.host))
        else parse_scheme raw u
  ]

  unfoldable pub parse : Bytes → Result Spec
  parse raw =
      let s = trim_space raw in
      if s == []
      then err empty_upstream
      else if has_infix s (bytes "://")
      then parse_url_spec raw s
      else parse_bare raw s

  unfoldable pub parse_all : List Bytes → Result (List Spec)
  parse_all [] = ok []
  parse_all (r ∷ rs) = let rest = parse_all rs in parse r >>= λ s. rest >>= λ specs. ok (s ∷ specs)
