-- ===== src/Dns/Server/Privacy.antt =====
-- Which questions leave the machine in internal/dnsserver/server.go.
use kydns_server.Prelude.{Bool, ◌≡◌, ◌≢◌, ◌↔◌, ◌⊎◌, inl, inr, true, some, nat_eq, string_eq, arith}
use kydns_server.Text.{bytes_eq}
use kydns_server.Net.{Addr}
use kydns_server.Zone.Snapshot.{Snapshot}
use kydns_server.Dns.Message.{Question}
use kydns_server.Dns.Authoritative.{owns}
use kydns_server.Dns.Forwarder.{Upstream, Exchange}
use kydns_server.Dns.Server.{Server, Request, World, serve_dns}
use kydns_server.Dns.Server.Forwarded.{Leaves, serve_dns-forwarded}
use kydns_server.Dns.Server.Asked.{with_answers, Uncached, serve_dns-asks}

-- A question is handed to Resolve exactly when it is the only one of a QUERY, of class IN, from an
-- address that the allow-list admits, the zone does not own its name or there is no snapshot yet, the
-- policy does not block it, and there is a forwarder. And the upstreams are asked for nothing else:
-- whatever they would answer instead, the reply and the server afterwards are the same, unless there
-- is such a question and the cache has no response for it.
pub serve_dns-Leaves :
    (w : World) (r : Request) (s : Server) (src : Addr) (q : Question)
    (ask : Question → Bool → Upstream → Exchange)
    → (((serve_dns w r s src).forwarded ≡ some q) ↔ Leaves w r s src q)
      × ((serve_dns (with_answers w ask) r s src ≡ serve_dns w r s src)
          ⊎ ((p : Question) × Leaves w r s src p × Uncached w r s p))
serve_dns-Leaves w r s src q ask = (serve_dns-forwarded w r s src q, serve_dns-asks w r ask s src)

-- A name of ours never leaves the machine: once there is a snapshot, no question whose name the
-- zone owns goes to the forwarder, whoever asks and whatever the policy says.
pub owned_stays :
    (w : World) (r : Request) (s : Server) (src : Addr) (snap : Snapshot) (q : Question)
    → s.holder.cur ≡ some snap
    → owns w.lib s.auth q.qname ≡ true
    → (serve_dns w r s src).forwarded ≢ some q
owned_stays w r s src snap q there ours h =
    let leaves = (serve_dns-forwarded w r s src q).0 h in
    elim leaves.foreign [ inl missing ↦ absurd (ground arith) | inr other ↦ absurd (ground arith) ]
