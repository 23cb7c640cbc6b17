-- ===== src/Dns/Authoritative/Chase.antt =====
-- The CNAME chase of internal/dnsserver/auth.go: how long it gets, and its TTLs.
use kydns_server.Prelude.{
  ℕ, zero, suc, ◌≤◌, ◌<◌, ◌≡◌, ◌≢◌, inl, inr, refl, subst, ◌||◌, not, Option, some, List, [], ◌∷◌,
  ◌==◌, nat_eq, string_eq, if◌then◌else◌, length, arith, Bool-cases, Option-cases,
}
use native.Mathlib.Decide.{ℕ_discrete}
use kydns_server.Text.{Bytes, bytes_eq}
use kydns_server.Zone.Index.{Rr as ZoneRr}
use kydns_server.Zone.Snapshot.{Snapshot, lookup_records}
use kydns_server.Dns.Message.{Rr, type_cname}
use kydns_server.Dns.Authoritative.{
  DnsLib, Authoritative, owns, to_rr, convert, is_cname, cname_rr, chase_records, chase,
}

-- Every record has the TTL.
abbrev pub AllTtl : ℕ → List Rr → Type 0
AllTtl ttl [] = Unit {0}
AllTtl ttl (r ∷ rs) = (r.ttl ≡ ttl) × AllTtl ttl rs

unfoldable pub cname_count : List Rr → ℕ
cname_count [] = 0
cname_count (r ∷ rs) =
    let rest = cname_count rs in if r.rrtype == type_cname then suc rest else rest

pub to_rr-ttl :
    (lib : DnsLib) (rr : ZoneRr) (qtype ttl : ℕ) (r : Rr)
    → to_rr lib rr qtype ttl ≡ some r
    → (r.ttl ≡ ttl) × (r.rrtype ≢ type_cname)
unfolding to_rr
to_rr-ttl lib rr qtype ttl r h = (ground arith, λ p. ground arith)

pub convert-AllTtl :
    (lib : DnsLib) (qtype ttl : ℕ) (rrs : List ZoneRr) → AllTtl ttl (convert lib qtype ttl rrs)
unfolding convert
convert-AllTtl lib qtype ttl [] = tt
convert-AllTtl lib qtype ttl (rr ∷ rrs) = elim (Option-cases (to_rr lib rr qtype ttl)) [
  | inl e ↦ rw (e, convert) (convert-AllTtl lib qtype ttl rrs)
  | inr (r, e) ↦
      rw (e, convert) ((to_rr-ttl lib rr qtype ttl r e).0, convert-AllTtl lib qtype ttl rrs)
]

-- A part of a chase that has the TTL and at most so many CNAME records.
abbrev pub IsChased : ℕ → ℕ → List Rr → Type 0
IsChased ttl most out = AllTtl ttl out × (cname_count out ≤ most)

cname_count-plain :
    (r : Rr) (rs : List Rr) → r.rrtype ≢ type_cname → cname_count (r ∷ rs) ≡ cname_count rs
unfolding cname_count
cname_count-plain r rs h = ground arith

chase_records-IsChased :
    (lib : DnsLib) (qtype ttl most : ℕ) (follow : Bytes → Option (List Rr)) (rrs : List ZoneRr)
    (out : List Rr)
    → ((value : Bytes) (rs : List Rr) → follow value ≡ some rs → IsChased ttl most rs)
    → chase_records lib qtype ttl follow rrs ≡ some out
    → IsChased ttl most out
unfolding chase_records cname_count
chase_records-IsChased lib qtype ttl most follow [] out f h =
    let p : [] ≡ out = ground arith in subst (IsChased ttl most) p (tt, omega arith)
chase_records-IsChased lib qtype ttl most follow (rr ∷ rrs) out f h =
    elim (Bool-cases (is_cname rr)) [
      | inl here ↦ f rr.value out (ground arith)
      | inr plain ↦ elim (Option-cases (chase_records lib qtype ttl follow rrs)) [
        | inl e ↦ absurd (ground arith)
        | inr (rest, e) ↦
            let ih = chase_records-IsChased lib qtype ttl most follow rrs rest f e in
            elim (Option-cases (to_rr lib rr qtype ttl)) [
              | inl skip ↦ let p : rest ≡ out = ground arith in subst (IsChased ttl most) p ih
              | inr (r, made) ↦
                  let p : r ∷ rest ≡ out = ground arith in
                  let (t, other) = to_rr-ttl lib rr qtype ttl r made in
                  subst (IsChased ttl most) p
                    ((t, ih.0), omega (arith, cname_count-plain r rest other, ih.1))
            ]
      ]
    ]

module _ (lib : DnsLib) (a : Authoritative) (snap : Snapshot) (view : Bytes) (qtype : ℕ) where
  one-IsChased :
      (name value : Bytes) (most : ℕ)
      → IsChased a.ttl (suc most) (cname_rr lib name value a.ttl ∷ [])
  unfolding cname_count ℕ_discrete
  one-IsChased name value most = ((refl, tt), omega arith)

  cons-IsChased :
      (name value : Bytes) (most : ℕ) (out : List Rr)
      → IsChased a.ttl most out
      → IsChased a.ttl (suc most) (cname_rr lib name value a.ttl ∷ out)
  unfolding cname_count ℕ_discrete
  cons-IsChased name value most out (t, c) = ((refl, t), omega (arith, c))

  -- Whatever CNAME records the zone holds, loops included, a chase with so many rounds left returns
  -- at most one CNAME record more than that, and every record has the TTL of the reply.
  pub chase-IsChased :
      (left : ℕ) (name value : Bytes) (out : List Rr)
      → chase lib a snap view qtype left name value ≡ some out
      → IsChased a.ttl (suc left) out × (0 < length out)
  unfolding chase
  chase-IsChased zero name value out h =
      let p : cname_rr lib name value a.ttl ∷ [] ≡ out = ground arith in
      subst (λ (rs : List Rr). IsChased a.ttl 1 rs × (0 < length rs)) p
        (one-IsChased name value 0, omega arith)
  chase-IsChased (suc left) name value out h =
      elim (Bool-cases (qtype == type_cname || not (owns lib a value))) [
        | inl stop ↦
            let p : cname_rr lib name value a.ttl ∷ [] ≡ out = ground arith in
            subst (λ (rs : List Rr). IsChased a.ttl (suc (suc left)) rs × (0 < length rs)) p
              (one-IsChased name value (suc left), omega arith)
        | inr go ↦ elim (Option-cases (lookup_records snap view (lib.fqdn value))) [
          | inl e ↦ absurd (ground arith)
          | inr (rrs, e) ↦
              let follow = chase lib a snap view qtype left (lib.fqdn value) in
              elim (Option-cases (chase_records lib qtype a.ttl follow rrs)) [
                | inl e' ↦ absurd (ground arith)
                | inr (rest, e') ↦
                    let p : cname_rr lib name value a.ttl ∷ rest ≡ out = ground arith in
                    let chased =
                      chase_records-IsChased lib qtype a.ttl (suc left) follow rrs rest
                        (λ v rs k. (chase-IsChased left (lib.fqdn value) v rs k).0) e' in
                    subst (λ (rs : List Rr). IsChased a.ttl (suc (suc left)) rs × (0 < length rs)) p
                      (cons-IsChased name value (suc left) rest chased, omega arith)
              ]
        ]
      ]
