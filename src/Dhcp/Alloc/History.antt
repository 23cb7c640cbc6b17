-- ===== src/Dhcp/Alloc/History.antt =====
-- Histories of internal/dhcpd/alloc.go: a boot with `Load`, then any sequence of method calls.
use kydns_server.Prelude.{
  ℕ, String, ◌≡◌, ◌≢◌, refl, none, some, arith, List, [], ◌∷◌, string_eq, lookup, insert, Map,
  lookup-insert,
}
use kydns_server.Net.{Addr, addr_eq, Addr-discrete}
use kydns_server.Dhcp.Alloc.{
  Allocator, Config, Lease, Request, allocate, release, decline, quarantine_ip, set_reservations,
  add_reservations, load, load_leases, new_allocator,
}
use kydns_server.Dhcp.Alloc.Invariant.{IsConsistent}
use kydns_server.Dhcp.Alloc.Safety.{allocate-IsConsistent}
use kydns_server.Dhcp.Alloc.Returns.{release-IsConsistent, decline-IsConsistent}

-- A call of a method that changes the allocator.
pub data Call : Type 0 where
  allocates : Request → Call
  releases : String → Addr → Call
  declines : String → Addr → ℕ → Call
  quarantines : Addr → ℕ → Call
  reserves : Map String Addr → Call

unfoldable pub step : Allocator → Call → Allocator
step a (allocates r) = (allocate a r).0
step a (releases mac ip) = (release a mac ip).0
step a (declines mac ip now) = (decline a mac ip now).0
step a (quarantines ip now) = quarantine_ip a ip now
step a (reserves r) = set_reservations r a

unfoldable pub run : Allocator → List Call → Allocator
run a [] = a
run a (c ∷ cs) = run (step a c) cs

-- `k` is of another client and on another address than `l`.
abbrev pub Apart : Lease → Lease → Type 0
Apart l k = (k.mac ≢ l.mac) × (k.ip ≢ l.ip)

abbrev pub AllApart : Lease → List Lease → Type 0
AllApart l [] = Unit {0}
AllApart l (k ∷ ks) = Apart l k × AllApart l ks

-- No two rows name one client or one address, as the keys of the table of leases have it.
abbrev pub RowsDistinct : List Lease → Type 0
RowsDistinct [] = Unit {0}
RowsDistinct (l ∷ ls) = AllApart l ls × RowsDistinct ls

abbrev Absent : Allocator → Lease → Type 0
Absent a l = (lookup l.mac a.by_mac ≡ none) × (lookup l.ip a.by_ip ≡ none)

abbrev AllAbsent : Allocator → List Lease → Type 0
AllAbsent a [] = Unit {0}
AllAbsent a (l ∷ ls) = Absent a l × AllAbsent a ls

abbrev with_lease : Allocator → Lease → Allocator
with_lease a l = record a { by_mac = insert l.mac l a.by_mac; by_ip = insert l.ip l.mac a.by_ip }

module _ (a : Allocator) (l : Lease) (c : IsConsistent a) (absent : Absent a l) where
  with_lease_backward :
      (ip : Addr) (m : String)
      → lookup ip (with_lease a l).by_ip ≡ some m
      → (k : Lease) × (lookup m (with_lease a l).by_mac ≡ some k) × (k.ip ≡ ip)
  with_lease_backward ip m h = elim (Addr-discrete l.ip ip) [
    | yes p ↦
        let own : l.mac ≡ m = ground (arith, lookup-insert ip l.ip l.mac a.by_ip) in
        (l, ground (arith, lookup-insert m l.mac l a.by_mac), p)
    | no n ↦
        let old : lookup ip a.by_ip ≡ some m =
          ground (arith, lookup-insert ip l.ip l.mac a.by_ip) in
        let (k, e, at) = c.backward ip m old in
        (k, ground (arith, lookup-insert m l.mac l a.by_mac, absent), at)
  ]

  with_lease-IsConsistent : IsConsistent (with_lease a l)
  with_lease-IsConsistent = record {
    forward = λ m k h. ground (
      arith,
      lookup-insert m l.mac l a.by_mac,
      lookup-insert k.ip l.ip l.mac a.by_ip,
      c.forward m k,
      absent,
    );
    backward = with_lease_backward;
  }

  with_lease-AllAbsent :
      (ls : List Lease) → AllApart l ls → AllAbsent a ls → AllAbsent (with_lease a l) ls
  with_lease-AllAbsent [] p q = tt
  with_lease-AllAbsent (k ∷ ks) p q = (
    (
      ground (arith, lookup-insert k.mac l.mac l a.by_mac),
      ground (arith, lookup-insert k.ip l.ip l.mac a.by_ip),
    ),
    with_lease-AllAbsent ks p.1 q.1,
  )

load_leases-IsConsistent :
    (ls : List Lease) (a : Allocator)
    → RowsDistinct ls
    → AllAbsent a ls
    → IsConsistent a
    → IsConsistent (load_leases ls a)
unfolding load_leases
load_leases-IsConsistent [] a d q c = c
load_leases-IsConsistent (l ∷ ls) a d q c =
    load_leases-IsConsistent ls (with_lease a l) d.1 (with_lease-AllAbsent a l c q.0 ls d.0 q.1)
      (with_lease-IsConsistent a l c q.0)

cleared_absent :
    (a : Allocator) (ls : List Lease) → AllAbsent (record a { by_mac = []; by_ip = [] }) ls
unfolding lookup
cleared_absent a [] = tt
cleared_absent a (l ∷ ls) = ((refl, refl), cleared_absent a ls)

pub load-IsConsistent :
    (ls : List Lease) (a : Allocator) → RowsDistinct ls → IsConsistent (load ls a)
unfolding load lookup
load-IsConsistent ls a d =
    load_leases-IsConsistent ls (record a { by_mac = []; by_ip = [] }) d (cleared_absent a ls)
      (record {
        forward = λ m l h. absurd (ground arith);
        backward = λ ip m h. absurd (ground arith);
      })

module _ (a : Allocator) (c : IsConsistent a) where
  quarantine_ip-IsConsistent : (ip : Addr) (now : ℕ) → IsConsistent (quarantine_ip a ip now)
  unfolding quarantine_ip
  quarantine_ip-IsConsistent ip now = record { forward = c.forward; backward = c.backward }

add_reservations-IsConsistent :
    (r : Map String Addr) (a : Allocator) → IsConsistent a → IsConsistent (add_reservations r a)
unfolding add_reservations
add_reservations-IsConsistent [] a c = c
add_reservations-IsConsistent ((mac, ip) ∷ r) a c =
    add_reservations-IsConsistent r _ (record { forward = c.forward; backward = c.backward })

pub step-IsConsistent : (a : Allocator) (call : Call) → IsConsistent a → IsConsistent (step a call)
unfolding step set_reservations
step-IsConsistent a (allocates r) c = allocate-IsConsistent a r c
step-IsConsistent a (releases mac ip) c = release-IsConsistent a mac ip c
step-IsConsistent a (declines mac ip now) c = decline-IsConsistent a mac ip now c
step-IsConsistent a (quarantines ip now) c = quarantine_ip-IsConsistent a c ip now
step-IsConsistent a (reserves r) c =
    add_reservations-IsConsistent r _ (record { forward = c.forward; backward = c.backward })

pub run_keeps : (a : Allocator) (calls : List Call) → IsConsistent a → IsConsistent (run a calls)
unfolding run
run_keeps a [] c = c
run_keeps a (call ∷ calls) c = run_keeps (step a call) calls (step-IsConsistent a call c)

-- So it is after a boot and any calls.
pub run-IsConsistent :
    (cfg : Config) (ls : List Lease) (calls : List Call)
    → RowsDistinct ls
    → IsConsistent (run (load ls (new_allocator cfg)) calls)
run-IsConsistent cfg ls calls d =
    run_keeps (load ls (new_allocator cfg)) calls (load-IsConsistent ls (new_allocator cfg) d)

-- After a boot from rows that name no client and no address twice, and any calls in any order, no
-- address is bound to two clients.
pub run_exclusive :
    (cfg : Config) (ls : List Lease) (calls : List Call) (m n : String) (k l : Lease)
    → RowsDistinct ls
    → lookup m (run (load ls (new_allocator cfg)) calls).by_mac ≡ some k
    → lookup n (run (load ls (new_allocator cfg)) calls).by_mac ≡ some l
    → k.ip ≡ l.ip
    → m ≡ n
run_exclusive cfg ls calls m n k l d hm hn same =
    let c = run-IsConsistent cfg ls calls d in ground (arith, c.forward m k hm, c.forward n l hn)
