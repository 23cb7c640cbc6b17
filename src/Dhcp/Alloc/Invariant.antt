-- ===== src/Dhcp/Alloc/Invariant.antt =====
-- inv
use kydns_server.Prelude.{
  String, ◌≡◌, ◌≢◌, Bool, some, arith, string_eq, lookup, Option-cases, inl, inr, ◌∙◌,
}
use kydns_server.Net.{Addr, addr_eq, Addr-discrete}
use kydns_server.Dhcp.Alloc.{Allocator, Request, Lease, commit, committed_lease}
use kydns_server.Dhcp.Alloc.Commit.{lookup-commit_mac, lookup-commit_ip, committed_lease_key}

-- byMAC and byIP describe one and the same set of bindings.
pub record IsConsistent (a : Allocator) : Type 0 where
  pub forward :
      (m : String) (l : Lease)
      → lookup m a.by_mac ≡ some l
      → (l.mac ≡ m) × (lookup l.ip a.by_ip ≡ some m)
  pub backward :
      (ip : Addr) (m : String)
      → lookup ip a.by_ip ≡ some m
      → (l : Lease) × (lookup m a.by_mac ≡ some l) × (l.ip ≡ ip)

module _ (a : Allocator) (r : Request) (ip : Addr) (fresh : Bool) (c : IsConsistent a) where
  commit_forward :
      (m : String) (l : Lease)
      → lookup m (commit a r ip fresh).0.by_mac ≡ some l
      → (l.mac ≡ m) × (lookup l.ip (commit a r ip fresh).0.by_ip ≡ some m)
  commit_forward m l h =
      let facts = committed_lease_key a r ip in
      elim (Option-cases (lookup r.mac a.by_mac)) [
        | inl e ↦ ground (
          arith,
          lookup-commit_mac a r ip fresh m,
          lookup-commit_ip a r ip fresh l.ip,
          facts,
          c.forward m l,
        )
        | inr (prev, e) ↦ ground (
          arith,
          lookup-commit_mac a r ip fresh m,
          lookup-commit_ip a r ip fresh l.ip,
          facts,
          c.forward m l,
          c.forward r.mac prev e,
        )
      ]

  commit_backward_other :
      (q : Addr) (m : String)
      → lookup q a.by_ip ≡ some m
      → ip ≢ q
      → r.mac ≢ m
      → (l : Lease) × (lookup m (commit a r ip fresh).0.by_mac ≡ some l) × (l.ip ≡ q)
  commit_backward_other q m h n k =
      let (l, e, at) = c.backward q m h in
      (l, ground (arith, lookup-commit_mac a r ip fresh m, c.backward ip m), at)

  commit_backward :
      (q : Addr) (m : String)
      → lookup q (commit a r ip fresh).0.by_ip ≡ some m
      → (l : Lease) × (lookup m (commit a r ip fresh).0.by_mac ≡ some l) × (l.ip ≡ q)
  commit_backward q m h = elim (Addr-discrete ip q) [
    | yes p ↦ (
      committed_lease a r ip,
      ground (arith, lookup-commit_mac a r ip fresh m, lookup-commit_ip a r ip fresh q),
      (committed_lease_key a r ip).1 ∙ p,
    )
    | no n ↦
        let old : lookup q a.by_ip ≡ some m = ground (arith, lookup-commit_ip a r ip fresh q) in
        commit_backward_other q m old n
          (λ k. ground (arith, lookup-commit_ip a r ip fresh q, c.backward q m old))
  ]

  pub commit-IsConsistent : IsConsistent (commit a r ip fresh).0
  commit-IsConsistent = record { forward = commit_forward; backward = commit_backward }
