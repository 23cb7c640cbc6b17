-- ===== src/Dhcp/Reserve/Usable.antt =====
-- Which addresses `Reservations` of internal/dhcpd/reserve.go reserves, and to whom.
use kydns_server.Prelude.{
  ◌≤◌, ◌≡◌, ◌≢◌, inl, inr, sym, ◌∙◌, subst, true, false, none, some, List, [], ◌∷◌, nat_eq, ltb,
  if◌then◌else◌, lookup, arith, Bool-cases, Option-cases,
}
use kydns_server.Text.{Bytes, bytes_eq}
use kydns_server.Net.{Addr, Prefix, addr_eq, masked, contains, unmap}
use kydns_server.Dhcp.Reserve.{
  Address, Service, Claim, Parsers, normalize_mac, broadcast_of, member, add_seen, judge,
  collect_seen, claims_of, by_mac, mark_mac, mark_macs, reservations,
}
use kydns_server.Dhcp.Reserve.OneToOne.{In, resolve-Wins}

-- An address of the subnet that a device may be given.
pub record IsUsable (subnet : Prefix) (a : Addr) : Type 0 where
  pub inside : contains subnet a ≡ true
  pub not_network : a ≢ (masked subnet).addr
  pub not_broadcast : a ≢ broadcast_of subnet

abbrev AllInside : Prefix → List Addr → Type 0
AllInside subnet [] = Unit {0}
AllInside subnet (a ∷ rest) = (contains subnet a ≡ true) × AllInside subnet rest

add_seen-AllInside :
    (subnet : Prefix) (a : Addr) (seen : List Addr)
    → contains subnet a ≡ true
    → AllInside subnet seen
    → AllInside subnet (add_seen a seen)
unfolding add_seen
add_seen-AllInside subnet a seen h v = elim (Bool-cases (member a seen)) [
  | inl old ↦ rw (old, add_seen) v
  | inr new ↦ rw (new, add_seen) (h, v)
]

collect_seen-AllInside :
    (parsers : Parsers) (subnet : Prefix) (addresses : List Address) (seen : List Addr)
    → AllInside subnet seen
    → AllInside subnet (collect_seen parsers subnet addresses seen)
unfolding collect_seen
collect_seen-AllInside parsers subnet [] seen v = v
collect_seen-AllInside parsers subnet (a ∷ more) seen v =
    elim (Option-cases (parsers.parse_addr a.address)) [
      | inl e ↦ rw (e, collect_seen) (collect_seen-AllInside parsers subnet more seen v)
      | inr (addr, e) ↦ elim (Bool-cases (contains subnet (unmap addr))) [
        | inl here ↦
            rw (e, here, collect_seen)
              (collect_seen-AllInside parsers subnet more (add_seen (unmap addr) seen)
                (add_seen-AllInside subnet (unmap addr) seen here v))
        | inr away ↦ rw (e, away, collect_seen) (collect_seen-AllInside parsers subnet more seen v)
      ]
    ]

judge-IsUsable :
    (subnet : Prefix) (name mac : Bytes) (seen : List Addr)
    → AllInside subnet seen
    → (judge subnet name mac seen).why ≡ none
    → IsUsable subnet (judge subnet name mac seen).addr
unfolding judge
judge-IsUsable subnet name mac [] v h = absurd (ground arith)
judge-IsUsable subnet name mac (a ∷ []) v h = record {
  inside = v.0;
  not_network = λ p. ground arith;
  not_broadcast = λ p. ground arith;
}
judge-IsUsable subnet name mac (a ∷ b ∷ seen) v h = absurd (ground arith)

claims_of-IsUsable :
    (parsers : Parsers) (subnet : Prefix) (svcs : List Service) (c : Claim)
    → In c (claims_of parsers subnet svcs)
    → c.why ≡ none
    → IsUsable subnet c.addr
unfolding claims_of
claims_of-IsUsable parsers subnet [] c here h = absurd here
claims_of-IsUsable parsers subnet (svc ∷ svcs) c here h =
    elim (bytes_eq.dec (normalize_mac parsers svc.mac) [])
        as (λ d.
          In c (
            if elim d [ yes _ ↦ true | no _ ↦ false ]
            then claims_of parsers subnet svcs
            else judge subnet svc.name (normalize_mac parsers svc.mac)
                (collect_seen parsers subnet svc.addresses [])
              ∷ claims_of parsers subnet svcs)
          → IsUsable subnet c.addr) [
            | yes _ ↦ λ r. claims_of-IsUsable parsers subnet svcs c r h
            | no _ ↦ λ r. elim r [
              | inr later ↦ claims_of-IsUsable parsers subnet svcs c later h
              | inl p ↦
                  let seen = collect_seen parsers subnet svc.addresses [] in
                  subst (λ (x : Claim). IsUsable subnet x.addr) (sym p)
                    (judge-IsUsable subnet svc.name (normalize_mac parsers svc.mac) seen
                      (collect_seen-AllInside parsers subnet svc.addresses [] tt)
                      (subst (λ (x : Claim). x.why ≡ none) p h))
            ]
          ]
      here

-- A claim that still stands after the marking is the only one of its client.
mark_macs-In :
    (all cs : List Claim) (c : Claim)
    → In c (mark_macs all cs)
    → c.why ≡ none
    → In c cs × (by_mac c.mac all ≤ 1)
unfolding mark_macs mark_mac
mark_macs-In all [] c here h = absurd here
mark_macs-In all (d ∷ ds) c (inr later) h =
    let (there, alone) = mark_macs-In all ds c later h in (inr there, alone)
mark_macs-In all (d ∷ ds) c (inl p) h = elim (Bool-cases (ltb 1 (by_mac d.mac all))) [
  | inl many ↦ absurd (ground (arith, subst (λ (x : Claim). x.why ≡ none) p h))
  | inr alone ↦
      let same : mark_mac all d ≡ d = ground arith in
      let q = p ∙ same in
      (inl q, subst (λ (x : Claim). by_mac x.mac all ≤ 1) (sym q) (ground arith))
]

-- A reserved address lies in the subnet and is neither its network nor its broadcast address, and
-- the client it is reserved to is the client of one service alone.
pub reserved-IsUsable :
    (parsers : Parsers) (subnet : Prefix) (svcs : List Service) (mac : Bytes) (a : Addr)
    → lookup mac (reservations parsers subnet svcs).0 ≡ some a
    → IsUsable subnet a × (by_mac mac (claims_of parsers subnet svcs) ≤ 1)
unfolding reservations lookup
reserved-IsUsable parsers subnet svcs mac a h =
    let claims = claims_of parsers subnet svcs in
    let marked = mark_macs claims claims in
    elim (resolve-Wins marked marked [] mac a h) [
      | inl e ↦ absurd (ground arith)
      | inr (c, here, bids, _) ↦
          let (there, alone) = mark_macs-In claims claims c here bids.stands in
          (
            subst (IsUsable subnet) bids.wants
                (claims_of-IsUsable parsers subnet svcs c there bids.stands),
            subst (λ (m : Bytes). by_mac m claims ≤ 1) bids.client alone,
          )
    ]
