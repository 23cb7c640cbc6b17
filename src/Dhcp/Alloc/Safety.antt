-- ===== src/Dhcp/Alloc/Safety.antt =====
-- What `Allocate` and `Offer` of internal/dhcpd/alloc.go promise of the bindings that they write.
use kydns_server.Prelude.{◌<◌, String, ◌≡◌, ◌≢◌, Bool, false, some, arith, string_eq, lookup, ◌⊎◌}
use kydns_server.Net.{Addr, addr_eq}
use kydns_server.Dhcp.Alloc.{
  Allocator, Request, Lease, Reply, protected, usable, free, held_by_another, allocate, with_name,
}
use kydns_server.Dhcp.Alloc.Commit.{lookup-commit_mac, commit_reply, committed_lease_key}
use kydns_server.Dhcp.Alloc.Invariant.{IsConsistent, commit-IsConsistent}
use kydns_server.Dhcp.Alloc.Rules.{
  Outcome, commits, promises, keeps, refuses, Grant, reserved, renewed, unclaimed,
  apply_rules-Outcome,
}

pub Grant-unprotected :
    (a : Allocator) (r : Request) (ip : Addr) → Grant a r ip → protected a ip ≡ false
unfolding usable free
Grant-unprotected a r ip (reserved e p q s) = p
Grant-unprotected a r ip (renewed l e at u) = ground arith
Grant-unprotected a r ip (unclaimed f k) = ground arith

module _ (a : Allocator) (r : Request) where
  Outcome-unprotected :
      (out : Allocator × Reply) (l : Lease) (fresh : Bool)
      → Outcome a r out
      → out.1 ≡ some (l, fresh)
      → protected a l.ip ≡ false
  Outcome-unprotected out l fresh (commits ip f e g) h =
      let p = Grant-unprotected a r ip g in
      ground (arith, committed_lease_key a r ip, commit_reply a r ip f)
  Outcome-unprotected out l fresh (promises k e t q p live) h = ground arith
  Outcome-unprotected out l fresh (keeps k e t q p) h = ground arith
  Outcome-unprotected out l fresh (refuses e k) h = ground arith

  Outcome-IsConsistent :
      (out : Allocator × Reply) → IsConsistent a → Outcome a r out → IsConsistent out.0
  Outcome-IsConsistent out c (commits ip f e g) = rw e (commit-IsConsistent a r ip f c)
  Outcome-IsConsistent out c (promises k e t q p live) = rw e c
  Outcome-IsConsistent out c (keeps k e t q p) = rw e c
  Outcome-IsConsistent out c (refuses e k) = rw e c

-- Our own address and the gateway are never handed out, whatever the leases, the reservations and
-- the requested address are.
pub allocate-unprotected :
    (a : Allocator) (r : Request) (l : Lease) (fresh : Bool)
    → (allocate a r).1 ≡ some (l, fresh)
    → protected a l.ip ≡ false
unfolding allocate with_name
allocate-unprotected a r l fresh =
    Outcome-unprotected a (with_name a r) _ l fresh (apply_rules-Outcome a (with_name a r))

pub allocate-IsConsistent :
    (a : Allocator) (r : Request) → IsConsistent a → IsConsistent (allocate a r).0
unfolding allocate with_name
allocate-IsConsistent a r c =
    Outcome-IsConsistent a (with_name a r) _ c (apply_rules-Outcome a (with_name a r))

-- A live lease of another client.
pub record IsOthersLive (a : Allocator) (r : Request) (m : String) (l : Lease) : Type 0 where
  pub other : m ≢ r.mac
  pub bound : lookup m a.by_mac ≡ some l
  pub live : r.now < l.expires

module _ (a : Allocator) (r : Request) (c : IsConsistent a) (m : String) (l : Lease)
    (o : IsOthersLive a r m l) where
  Grant-spares :
      (ip : Addr)
      → Grant a r ip
      → lookup ip a.by_ip ≡ some m
      → (r.tentative ≡ false) × (lookup r.mac a.reserved ≡ some l.ip)
  unfolding free held_by_another
  Grant-spares ip (reserved e p q s) h = ground (arith, c.backward ip m h)
  Grant-spares ip (renewed k e at u) h = absurd (ground (arith, c.forward r.mac k e))
  Grant-spares ip (unclaimed f k) h = absurd (ground arith)

  Outcome-spares :
      (out : Allocator × Reply)
      → Outcome a r out
      → (lookup m out.0.by_mac ≡ some l)
        ⊎ ((r.tentative ≡ false) × (lookup r.mac a.reserved ≡ some l.ip))
  Outcome-spares out (commits ip f e g) =
      ground (arith, lookup-commit_mac a r ip f m, Grant-spares ip g)
  Outcome-spares out (promises k e t q p live) = ground arith
  Outcome-spares out (keeps k e t q p) = ground arith
  Outcome-spares out (refuses e k) = ground arith

-- In a consistent state, a live lease of another client survives a call, with its address, name
-- and expiry, unless the call is a REQUEST and the address is the one reserved to the client that makes it.
pub allocate_spares_others :
    (a : Allocator) (r : Request) (m : String) (l : Lease)
    → IsConsistent a
    → IsOthersLive a r m l
    → (lookup m (allocate a r).0.by_mac ≡ some l)
      ⊎ ((r.tentative ≡ false) × (lookup r.mac a.reserved ≡ some l.ip))
unfolding allocate with_name
allocate_spares_others a r m l c o =
    Outcome-spares a (with_name a r) c m l
      (record { other = o.other; bound = o.bound; live = o.live }) _
      (apply_rules-Outcome a (with_name a r))
