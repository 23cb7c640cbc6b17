-- ===== src/Upstream/Parse/Specs.antt =====
-- What an accepted text of internal/upstream/parse.go guarantees.
use kydns_server.Prelude.{
  ◌≡◌, ◌↔◌, ◌⊎◌, inl, inr, refl, sym, ap, ◌∙◌, subst, true, false, some, [], ◌==◌, nat_eq,
  string_eq, arith, Bool-cases, Option-cases,
}
use kydns_server.Text.{Bytes, bytes_eq, bytes, trim_space}
use kydns_server.Text.{has_infix, after_last, trim_any}
use kydns_server.Upstream.Parse.{
  Transport, plain, dot, doh, secure, Spec, ParseError, Result, ok, err, Url, Net, host_and_port,
  host_port, with_url, scheme_of, parse_scheme, parse_bare, parse_url_spec, parse,
}

-- What is dialed is an address that parses, with a port that is known.
abbrev pub IsDialable : Net → Bytes → Type 0
IsDialable net addr =
    (text : Bytes) × (ip : Bytes) × (port : Bytes) × (net.parse_addr text ≡ some ip)
    × (net.is_port port ≡ true)
    × (addr ≡ net.join_host_port ip port)

-- The text has a scheme, and it is tls or https, without credentials.
abbrev pub AsksForSecurity : Net → Bytes → Type 0
AsksForSecurity net raw =
    (u : Url) × (has_infix (trim_space raw) (bytes "://") ≡ true)
    × (net.parse_url (trim_space raw) ≡ some u)
    × ((u.scheme ≡ bytes "tls") ⊎ (u.scheme ≡ bytes "https"))

pub record IsSpec (net : Net) (raw : Bytes) (s : Spec) : Type 0 where
  pub same : s.raw ≡ raw
  pub dialable : IsDialable net s.addr
  pub channel : (secure s.transport ≡ true) ↔ AsksForSecurity net raw

pub Result-cases :
    {A : Type 0} (r : Result A) → ((e : ParseError) × (r ≡ err e)) ⊎ ((a : A) × (r ≡ ok a))
Result-cases (err e) = inl (e, refl)
Result-cases (ok a) = inr (a, refl)

module _ (net : Net) (raw : Bytes) where
  host_port-IsDialable :
      (s def_port addr : Bytes) → host_port net s def_port ≡ ok addr → IsDialable net addr
  unfolding host_port
  host_port-IsDialable s def_port addr h =
      let (host, port) = host_and_port net s def_port in
      elim (Option-cases (net.parse_addr (trim_any host (bytes "[]")))) [
        | inl e ↦ absurd (ground arith)
        | inr (ip, e) ↦ elim (Bool-cases (net.is_port port)) [
          | inr strange ↦ absurd (ground arith)
          | inl known ↦ (trim_any host (bytes "[]"), ip, port, e, known, ground arith)
        ]
      ]

  with_url_same :
      (path : Bytes) (s : Spec)
      → ((with_url net path s).raw ≡ s.raw)
        × ((with_url net path s).addr ≡ s.addr)
        × ((with_url net path s).transport ≡ s.transport)
  unfolding with_url
  with_url_same path s = (ground arith, ground arith, ground arith)

  scheme_of-secure :
      (scheme port : Bytes) (t : Transport)
      → scheme_of net scheme ≡ some (t, port)
      → (secure t ≡ true) ↔ ((scheme ≡ bytes "tls") ⊎ (scheme ≡ bytes "https"))
  unfolding scheme_of secure
  scheme_of-secure scheme port plain h = (λ s. absurd (ground arith), λ s. ground arith)
  scheme_of-secure scheme port dot h = (λ s. ground arith, λ s. refl)
  scheme_of-secure scheme port doh h = (λ s. ground arith, λ s. refl)

  parse_scheme-IsSpec :
      (u : Url) (s : Spec)
      → has_infix (trim_space raw) (bytes "://") ≡ true
      → net.parse_url (trim_space raw) ≡ some u
      → parse_scheme net raw u ≡ ok s
      → IsSpec net raw s
  unfolding parse_scheme
  parse_scheme-IsSpec u s marked p h = elim (Option-cases (scheme_of net u.scheme)) [
    | inl e ↦ absurd (ground arith)
    | inr (known, e) ↦ elim (Result-cases (host_port net u.host known.1)) [
      | inl (failed, e') ↦ absurd (ground arith)
      | inr (addr, e') ↦
          let base : Spec = record {
            raw = raw;
            transport = known.0;
            addr = addr;
            server_name = u.fragment;
            url = [];
          } in
          let q : with_url net u.path base ≡ s = ground arith in
          let (same, dialed, channel) = with_url_same u.path base in
          let (asks, asked) = scheme_of-secure u.scheme known.1 known.0 e in
          subst (IsSpec net raw) q (record {
            same = same;
            dialable =
                subst (IsDialable net) (sym dialed) (host_port-IsDialable u.host known.1 addr e');
            channel = (
              λ k. (u, marked, p, asks (ap secure (sym channel) ∙ k)),
              λ (u', _, p', k).
                  let r : u' ≡ u = ground arith in
                  ap secure channel
                  ∙ asked (
                      subst (λ (v : Url). (v.scheme ≡ bytes "tls") ⊎ (v.scheme ≡ bytes "https")) r
                        k),
            );
          })
    ]
  ]

  parse_bare-IsSpec :
      (s : Spec)
      → has_infix (trim_space raw) (bytes "://") ≡ false
      → parse_bare net raw (trim_space raw) ≡ ok s
      → IsSpec net raw s
  unfolding parse_bare secure
  parse_bare-IsSpec s bare h = elim (Option-cases (after_last b'@' (trim_space raw))) [
    | inr (rest, e) ↦ absurd (ground arith)
    | inl e ↦ elim (Result-cases (host_port net (trim_space raw) (bytes "53"))) [
      | inl (failed, e') ↦ absurd (ground arith)
      | inr (addr, e') ↦
          let base : Spec = record {
            raw = raw;
            transport = plain;
            addr = addr;
            server_name = [];
            url = [];
          } in
          let q : base ≡ s = ground arith in
          subst (IsSpec net raw) q (record {
            same = refl;
            dialable = host_port-IsDialable (trim_space raw) (bytes "53") addr e';
            channel = (λ k. absurd (ground arith), λ k. absurd (ground (arith, k.1, bare)));
          })
    ]
  ]

-- A text that is accepted gives a spec with an address to dial that parsed, never a name, and a known
-- port, and the channel is authenticated and encrypted exactly if the text is a URL with the scheme
-- tls or https.
pub parse-IsSpec : (net : Net) (raw : Bytes) (s : Spec) → parse net raw ≡ ok s → IsSpec net raw s
unfolding parse parse_url_spec
parse-IsSpec net raw s h = elim (Bool-cases (trim_space raw == [])) [
  | inl blank ↦ absurd (ground arith)
  | inr given ↦ elim (Bool-cases (has_infix (trim_space raw) (bytes "://"))) [
    | inr bare ↦ parse_bare-IsSpec net raw s bare (ground arith)
    | inl marked ↦ elim (Option-cases (net.parse_url (trim_space raw))) [
      | inl e ↦ absurd (ground arith)
      | inr (u, e) ↦ elim (Bool-cases u.has_user) [
        | inl secret ↦ absurd (ground arith)
        | inr clean ↦ parse_scheme-IsSpec net raw u s marked e (ground arith)
      ]
    ]
  ]
]
