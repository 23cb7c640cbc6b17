-- ===== src/Dhcp/Reserve/OneToOne.antt =====
-- What `Reservations` of internal/dhcpd/reserve.go reserves: one address for one client.
use kydns_server.Prelude.{
  ◌≤◌, ◌<◌, ◌≡◌, ◌⊎◌, inl, inr, refl, sym, ap, ◌∙◌, subst, none, some, List, [], ◌∷◌, nat_eq, ltb,
  Map, lookup, insert, lookup-insert, arith, Bool-cases, Option-cases,
}
use kydns_server.Text.{Bytes, bytes_eq}
use kydns_server.Net.{Addr, Prefix, addr_eq}
use kydns_server.Dhcp.Reserve.{
  Service, Claim, Parsers, claims_of, mark_macs, by_addr, mark_addr, resolve, reservations,
}

abbrev pub In : Claim → List Claim → Type 0
In c [] = ⊥
In c (d ∷ ds) = (c ≡ d) ⊎ In c ds

-- A claim that still stands, for the client and the address.
pub record Bids (mac : Bytes) (a : Addr) (c : Claim) : Type 0 where
  pub stands : c.why ≡ none
  pub client : c.mac ≡ mac
  pub wants : c.addr ≡ a

-- A claim of the list bids, and no other standing claim of all has its address.
abbrev pub Wins : List Claim → List Claim → Bytes → Addr → Type 0
Wins all cs mac a = (c : Claim) × In c cs × Bids mac a c × (by_addr a all ≤ 1)

Wins-cons :
    (all cs : List Claim) (d : Claim) (mac : Bytes) (a : Addr)
    → Wins all cs mac a
    → Wins all (d ∷ cs) mac a
Wins-cons all cs d mac a (c, here, bids, alone) = (c, inr here, bids, alone)

pub resolve-Wins :
    (all cs : List Claim) (out : Map Bytes Addr) (mac : Bytes) (a : Addr)
    → lookup mac (resolve all cs out).0 ≡ some a
    → (lookup mac out ≡ some a) ⊎ Wins all cs mac a
unfolding resolve mark_addr
resolve-Wins all [] out mac a h = inl h
resolve-Wins all (c ∷ cs) out mac a h = elim (Option-cases c.why) [
  | inr (why, e) ↦ elim (resolve-Wins all cs out mac a (ground arith)) [
    | inl old ↦ inl old
    | inr w ↦ inr (Wins-cons all cs c mac a w)
  ]
  | inl e ↦ elim (Bool-cases (ltb 1 (by_addr c.addr all))) [
    | inl contested ↦ elim (resolve-Wins all cs out mac a (ground arith)) [
      | inl old ↦ inl old
      | inr w ↦ inr (Wins-cons all cs c mac a w)
    ]
    | inr alone ↦ elim (resolve-Wins all cs (insert c.mac c.addr out) mac a (ground arith)) [
      | inr w ↦ inr (Wins-cons all cs c mac a w)
      | inl new ↦ elim (bytes_eq.dec c.mac mac) [
        | yes p ↦
            let q : c.addr ≡ a = ground (arith, lookup-insert mac c.mac c.addr out) in
            inr (
              c,
              inl refl,
              record { stands = e; client = p; wants = q },
              subst (λ (x : Addr). by_addr x all ≤ 1) q (ground arith),
            )
        | no n ↦ inl (ground (arith, lookup-insert mac c.mac c.addr out))
      ]
    ]
  ]
]

by_addr_positive :
    (cs : List Claim) (c : Claim) (mac : Bytes) (a : Addr)
    → In c cs
    → Bids mac a c
    → 0 < by_addr a cs
unfolding by_addr
by_addr_positive [] c mac a h b = absurd h
by_addr_positive (d ∷ ds) c mac a (inl p) b =
    let s : d.why ≡ none = subst (λ (x : Claim). x.why ≡ none) p b.stands in
    let w : d.addr ≡ a = subst (λ (x : Claim). x.addr ≡ a) p b.wants in ground arith
by_addr_positive (d ∷ ds) c mac a (inr h) b = ground (arith, by_addr_positive ds c mac a h b)

-- Two standing claims of an address that is counted once are one claim.
by_addr_unique :
    (cs : List Claim) (c d : Claim) (mac other : Bytes) (a : Addr)
    → In c cs
    → In d cs
    → Bids mac a c
    → Bids other a d
    → by_addr a cs ≤ 1
    → mac ≡ other
unfolding by_addr
by_addr_unique [] c d mac other a hc hd bc bd h = absurd hc
by_addr_unique (e ∷ es) c d mac other a (inl p) (inl q) bc bd h =
    sym bc.client ∙ ap (λ (x : Claim). x.mac) (p ∙ sym q) ∙ bd.client
by_addr_unique (e ∷ es) c d mac other a (inl p) (inr hd) bc bd h =
    let s : e.why ≡ none = subst (λ (x : Claim). x.why ≡ none) p bc.stands in
    let w : e.addr ≡ a = subst (λ (x : Claim). x.addr ≡ a) p bc.wants in
    absurd (ground (arith, by_addr_positive es d other a hd bd))
by_addr_unique (e ∷ es) c d mac other a (inr hc) (inl q) bc bd h =
    let s : e.why ≡ none = subst (λ (x : Claim). x.why ≡ none) q bd.stands in
    let w : e.addr ≡ a = subst (λ (x : Claim). x.addr ≡ a) q bd.wants in
    absurd (ground (arith, by_addr_positive es c mac a hc bc))
by_addr_unique (e ∷ es) c d mac other a (inr hc) (inr hd) bc bd h =
    by_addr_unique es c d mac other a hc hd bc bd (ground arith)

-- No address is reserved to two clients, whatever the parsers of texts are and even if two services
-- have one MAC or one address.
pub reservations_one_to_one :
    (parsers : Parsers) (subnet : Prefix) (svcs : List Service) (mac other : Bytes) (a : Addr)
    → lookup mac (reservations parsers subnet svcs).0 ≡ some a
    → lookup other (reservations parsers subnet svcs).0 ≡ some a
    → mac ≡ other
unfolding reservations lookup
reservations_one_to_one parsers subnet svcs mac other a h k =
    let claims = claims_of parsers subnet svcs in
    let marked = mark_macs claims claims in
    elim (resolve-Wins marked marked [] mac a h) [
      | inl e ↦ absurd (ground arith)
      | inr (c, hc, bc, alone) ↦ elim (resolve-Wins marked marked [] other a k) [
        | inl e ↦ absurd (ground arith)
        | inr (d, hd, bd, _) ↦ by_addr_unique marked c d mac other a hc hd bc bd alone
      ]
    ]
