-- ===== src/Dhcp/Server/Answers.antt =====
-- What a REQUEST is told, and which addresses are offered, in internal/dhcpd/server.go.
use kydns_server.Prelude.{
  ◌≡◌, ◌≢◌, ◌⊎◌, inl, inr, refl, sym, ap, ◌∙◌, subst, String, Bool, true, false, ◌||◌, ◌&&◌, not,
  Option, some, [], ◌==◌, nat_eq, string_eq, lookup, arith, Bool-cases, Option-cases,
}
use kydns_server.Text.{bytes_eq}
use kydns_server.Net.{addr_eq, is_valid, contains}
use kydns_server.Dhcp.Alloc.{Allocator, Lease, Request, protected, allocate, with_name}
use kydns_server.Dhcp.Alloc.Safety.{allocate-unprotected}
use kydns_server.Dhcp.Alloc.Commit.{lookup-commit_mac, commit_reply}
use kydns_server.Dhcp.Alloc.Rules.{Outcome, commits, promises, keeps, refuses, apply_rules-Outcome}
use kydns_server.Dhcp.Server.{
  request, Packet, Server, World, Handled, acked, is_ignored, put_row, asked_for, reply, nak,
  ack_request, row_of, grant, serve_ack, serve_kind, handle,
}
use kydns_server.Dhcp.Reserve.{normalize_mac}

-- An ACK of the lease l: the allocator has bound its address to the client, the row of it is in the
-- table if the database takes writes, the address is the one that the client named, if it named one,
-- and is neither the server's nor the gateway's.
pub record IsAcked (w : World) (s : Server) (mac : String) (m : Packet) (out : Handled) (l : Lease)
    : Type 0 where
  pub sent : out.sent ≡ some (reply s acked l.ip)
  pub bound : lookup mac out.server.alloc.by_mac ≡ some l
  pub stored : w.stores ≡ true → out.server.rows ≡ put_row (row_of w l) s.rows
  pub named : is_valid (asked_for m) ≡ true → l.ip ≡ asked_for m
  pub spared : protected s.alloc l.ip ≡ false
  pub notified : out.notified ≡ true

-- A NAK, which leaves the table alone.
abbrev pub IsNakked : Server → Handled → Type 0
IsNakked s out = (out.sent ≡ some (nak s)) × (out.server.rows ≡ s.rows) × (out.notified ≡ false)

-- What a call that is not an OFFER returns is bound.
Outcome-bound :
    (a : Allocator) (r : Request) (out : Allocator × Option (Lease × Bool)) (l : Lease)
    (fresh : Bool)
    → r.tentative ≡ false
    → Outcome a r out
    → out.1 ≡ some (l, fresh)
    → lookup r.mac out.0.by_mac ≡ some l
Outcome-bound a r out l fresh firm (commits ip f e g) h =
    ground (arith, lookup-commit_mac a r ip f r.mac, commit_reply a r ip f)
Outcome-bound a r out l fresh firm (promises k e t q p live) h = absurd (ground arith)
Outcome-bound a r out l fresh firm (keeps k e t q p) h = absurd (ground arith)
Outcome-bound a r out l fresh firm (refuses e k) h = absurd (ground arith)

allocate-bound :
    (a : Allocator) (r : Request) (l : Lease) (fresh : Bool)
    → r.tentative ≡ false
    → (allocate a r).1 ≡ some (l, fresh)
    → lookup r.mac (allocate a r).0.by_mac ≡ some l
unfolding allocate with_name
allocate-bound a r l fresh firm =
    Outcome-bound a (with_name a r) _ l fresh firm (apply_rules-Outcome a (with_name a r))

module _ (w : World) (s : Server) (mac : String) (m : Packet) where
  abbrev Answered : Handled → Type 0
  Answered out = ((l : Lease) × IsAcked w s mac m out l) ⊎ IsNakked s out

  grant-Answered :
      (a : Allocator) (l : Lease)
      → lookup mac a.by_mac ≡ some l
      → protected s.alloc l.ip ≡ false
      → Answered (grant w (record s { alloc = a }) (asked_for m) l)
  unfolding grant reply nak
  grant-Answered a l bound spared =
      let asked = asked_for m in
      elim (Bool-cases (is_valid asked && not (l.ip == asked))) [
        | inl other ↦ inr (ground arith, ground arith, ground arith)
        | inr right ↦ inl (
          l,
          record {
            sent = ground arith;
            bound = ground arith;
            stored = λ h. ground arith;
            named = λ h. ground arith;
            spared = spared;
            notified = ground arith;
          },
        )
      ]

  serve_ack-Answered : Answered (serve_ack w s mac m)
  unfolding serve_ack nak
  serve_ack-Answered =
      let asked = asked_for m in
      let r = ack_request w s mac m in
      elim (Bool-cases (is_valid asked && not (contains s.cfg.subnet asked))) [
        | inl foreign ↦ rw (foreign, serve_ack) (inr (refl, refl, refl))
        | inr ours ↦ elim (Option-cases (allocate s.alloc r).1) [
          | inl e ↦ rw (ours, e, serve_ack) (inr (refl, refl, refl))
          | inr ((l, fresh), e) ↦
              rw (ours, e, serve_ack)
                (grant-Answered (allocate s.alloc r).0 l (allocate-bound s.alloc r l fresh refl e)
                  (allocate-unprotected s.alloc r l fresh e))
        ]
      ]

-- A REQUEST with a client's address, and not of the server's own probe, is always answered. The
-- answer is an ACK, and then the client is bound to the address in the allocator and, if the
-- database takes writes, in the table; it is the address that the client named, if it named one, and
-- neither the server's nor the gateway's. Or it is a NAK, and then the table stays.
pub handle_answers :
    (w : World) (s : Server) (m : Packet)
    → m.kind ≡ request
    → normalize_mac w.macs m.chaddr ≢ []
    → is_ignored m.xid s.ignored ≡ false
    → ((l : Lease) × IsAcked w s (w.text (normalize_mac w.macs m.chaddr)) m (handle w s m) l)
      ⊎ IsNakked s (handle w s m)
unfolding handle serve_kind
handle_answers w s m asks client heard =
    let mac = normalize_mac w.macs m.chaddr in
    let served : (mac == [] || is_ignored m.xid s.ignored) ≡ false = ground arith in
    let kinds : handle w s m ≡ serve_kind w s (w.text mac) m m.kind = rw (served, handle) refl in
    let step : handle w s m ≡ serve_ack w s (w.text mac) m =
      kinds ∙ ap (serve_kind w s (w.text mac) m) asks in
    subst (Answered w s (w.text mac) m) (sym step) (serve_ack-Answered w s (w.text mac) m)
