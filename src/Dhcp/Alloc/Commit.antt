-- ===== src/Dhcp/Alloc/Commit.antt =====
-- What `commit` of internal/dhcpd/alloc.go leaves in the two lease maps.
use kydns_server.Prelude.{
  String, ◌≡◌, refl, ◌≢◌, Bool, false, none, some, arith, ◌==◌, string_eq, if◌then◌else◌, lookup,
  lookup-insert, lookup-delete, Option-cases, inl, inr,
}
use kydns_server.Net.{Addr, addr_eq}
use kydns_server.Dhcp.Alloc.{
  Allocator, Request, commit, committed_lease, evict_holder, drop_previous,
}

-- `ip` is bound to `m`, so that a commit of `ip` for another client drops the entry of `m`.
abbrev pub bound_to : Allocator → Addr → String → Bool
bound_to a ip m = elim (lookup ip a.by_ip) [ none ↦ false | some holder ↦ holder == m ]

-- The client's lease before the commit is on `q`.
abbrev pub was_on : Allocator → Request → Addr → Bool
was_on a r q = elim (lookup r.mac a.by_mac) [ none ↦ false | some prev ↦ prev.ip == q ]

lookup-evict_holder :
    (a : Allocator) (r : Request) (ip : Addr) (m : String)
    → r.mac ≢ m
    → lookup m (evict_holder a r ip) ≡ (if bound_to a ip m then none else lookup m a.by_mac)
unfolding evict_holder
lookup-evict_holder a r ip m h = elim (Option-cases (lookup ip a.by_ip)) [
  | inl e ↦ ground arith
  | inr (holder, e) ↦ ground (arith, lookup-delete m holder a.by_mac)
]

pub lookup-commit_mac :
    (a : Allocator) (r : Request) (ip : Addr) (fresh : Bool) (m : String)
    → lookup m (commit a r ip fresh).0.by_mac ≡ (
        if r.mac == m
        then some (committed_lease a r ip)
        else if bound_to a ip m
        then none
        else lookup m a.by_mac)
unfolding commit
lookup-commit_mac a r ip fresh m = ground (
  arith,
  lookup-insert m r.mac (committed_lease a r ip) (evict_holder a r ip),
  lookup-evict_holder a r ip m,
)

lookup-drop_previous :
    (a : Allocator) (r : Request) (ip q : Addr)
    → ip ≢ q
    → lookup q (drop_previous a r ip) ≡ (if was_on a r q then none else lookup q a.by_ip)
unfolding drop_previous
lookup-drop_previous a r ip q h = elim (Option-cases (lookup r.mac a.by_mac)) [
  | inl e ↦ ground arith
  | inr (prev, e) ↦ ground (arith, lookup-delete q prev.ip a.by_ip)
]

pub lookup-commit_ip :
    (a : Allocator) (r : Request) (ip : Addr) (fresh : Bool) (q : Addr)
    → lookup q (commit a r ip fresh).0.by_ip
      ≡ (if ip == q then some r.mac else if was_on a r q then none else lookup q a.by_ip)
unfolding commit
lookup-commit_ip a r ip fresh q =
    ground (arith, lookup-insert q ip r.mac (drop_previous a r ip), lookup-drop_previous a r ip q)

pub committed_lease_key :
    (a : Allocator) (r : Request) (ip : Addr)
    → ((committed_lease a r ip).mac ≡ r.mac) × ((committed_lease a r ip).ip ≡ ip)
unfolding committed_lease
committed_lease_key a r ip = ground arith

pub commit_reply :
    (a : Allocator) (r : Request) (ip : Addr) (fresh : Bool)
    → (commit a r ip fresh).1 ≡ some (committed_lease a r ip, fresh)
unfolding commit
commit_reply a r ip fresh = refl

-- After a commit the client has the lease that was written.
pub committed_found :
    (a : Allocator) (r : Request) (ip : Addr)
    → lookup r.mac (commit a r ip false).0.by_mac ≡ some (committed_lease a r ip)
committed_found a r ip = ground (arith, lookup-commit_mac a r ip false r.mac)
