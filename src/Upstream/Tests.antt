-- ===== src/Upstream/Tests.antt =====
-- The texts of upstreams of internal/upstream at concrete inputs.
use kydns_server.Prelude.{refl, true, false, none, some, [], ◌∷◌, ◌++◌, nat_eq, string_eq}
use kydns_server.Text.{bytes_eq, bytes, trim_space, has_prefix, contains_byte}
use kydns_server.Text.{Bytes-discrete, has_infix}
use native.Mathlib.Decide.{ℕ_discrete}
use kydns_server.Upstream.Parse.{
  dot, Spec, Net, host_and_port, host_port, with_url, scheme_of, parse_scheme, parse_url_spec,
  parse,
}
use kydns_server.Upstream.Parse.Specs.{IsSpec, parse-IsSpec}
use kydns_server.Text.{trim_left, trim_right, trim_any, trim_any_left, trim_any_right}

-- A library that reads one address without a port.
abbrev net : Net
net = record {
  parse_url = λ s. some (record {
    scheme = bytes "tls";
    has_user = false;
    host = bytes "9.9.9.9";
    path = [];
    fragment = bytes "dns.quad9.net";
  });
  split_host_port = λ s. none;
  parse_addr = λ s. some s;
  is_port = λ p. true;
  join_host_port = λ a p. a ++ b':' ∷ p;
}

abbrev quad9 : Spec
quad9 = record {
  raw = bytes "tls://9.9.9.9#dns.quad9.net";
  transport = dot;
  addr = bytes "9.9.9.9:853";
  server_name = bytes "dns.quad9.net";
  url = [];
}

program : Unit {0}
unfolding parse parse_url_spec parse_scheme scheme_of host_port host_and_port with_url has_infix
    has_prefix trim_space trim_left trim_right trim_any trim_any_left trim_any_right contains_byte
    Bytes-discrete ℕ_discrete
program = tt

parse-IsSpec_example : IsSpec net (bytes "tls://9.9.9.9#dns.quad9.net") quad9
unfolding program
parse-IsSpec_example = parse-IsSpec net (bytes "tls://9.9.9.9#dns.quad9.net") quad9 refl
