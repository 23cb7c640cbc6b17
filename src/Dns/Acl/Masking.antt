-- ===== src/Dns/Acl/Masking.antt =====
-- What `Allow` of internal/dnsserver/acl.go decides, over the prefixes as they were configured.
use native.Mathlib.Nat.{mul-div_cancel, pow-suc}
use mathlib.Core.Bool.{false≢true}
use kydns_server.Prelude.{
  ℕ, zero, suc, ◌+◌, ◌-◌, ◌*◌, ◌/◌, ◌^◌, ◌%◌, ◌<◌, ◌≡◌, ◌⊎◌, ◌↔◌, inl, inr, refl, sym, ap, ◌∙◌,
  true, false, List, [], ◌∷◌, ◌==◌, nat_eq, arith, Bool-cases, map, same_text, ◌&&◌,
}
use kydns_server.Net.{Addr, Prefix, invalid, v4, v6, masked, contains, within, is_valid, unmap}
use kydns_server.Dns.Acl.{Acl, replace, any_contains, allow, refuse}

pow_positive : (k : ℕ) → 0 < 2 ^ k
pow_positive zero = omega arith
pow_positive (suc k) = omega (arith, pow_positive k, pow-suc 2 k)

div_exact : (q k : ℕ) → q * 2 ^ k / 2 ^ k ≡ q
div_exact q k = mul-div_cancel q (pow_positive k)

within-masked :
    (a b : Addr) (k : ℕ) → contains (masked (record { addr = a; bits = k })) b ≡ within a k b
within-masked invalid b k = refl
within-masked (v4 n) (v4 m) k =
    ap (λ (x : ℕ). x == m / 2 ^ (32 - k)) (div_exact (n / 2 ^ (32 - k)) (32 - k))
within-masked (v6 n z) (v6 m y) k =
    ap (λ (x : ℕ). same_text y "" && (x == m / 2 ^ (128 - k)))
      (div_exact (n / 2 ^ (128 - k)) (128 - k))
within-masked (v4 n) invalid k = refl
within-masked (v4 n) (v6 m y) k = refl
within-masked (v6 n z) invalid k = refl
within-masked (v6 n z) (v4 m) k = refl

-- Clearing the host bits of a prefix changes nothing that it contains.
pub contains-masked : (p : Prefix) (a : Addr) → contains (masked p) a ≡ contains p a
contains-masked p a = within-masked p.addr a p.bits

-- Some prefix of the list contains the address.
abbrev pub Admits : List Prefix → Addr → Type 0
Admits [] a = ⊥
Admits (p ∷ ps) a = (contains p a ≡ true) ⊎ Admits ps a

any_contains-Admits :
    (ps : List Prefix) (a : Addr) → (any_contains (map masked ps) a ≡ true) ↔ Admits ps a
unfolding any_contains
any_contains-Admits [] a = (λ h. absurd (ground arith), λ h. absurd h)
any_contains-Admits (p ∷ ps) a =
    let ih = any_contains-Admits ps a in
    elim (Bool-cases (contains (masked p) a)) [
      | inl hit ↦ (λ h. inl (sym (contains-masked p a) ∙ hit), λ h. rw (hit, any_contains) refl)
      | inr miss ↦ (
        λ h. inr (ih.0 (rw (miss, any_contains) at h)),
        λ h.
            rw (miss, any_contains)
              (elim h [
                | inl c ↦ absurd (false≢true (sym miss ∙ contains-masked p a ∙ c))
                | inr c ↦ ih.1 c
              ]),
      )
    ]

-- A query is let through exactly when its address is valid and, in its v4 form where it has one, is
-- in one of the configured prefixes, host bits and all; it then counts nothing. A refusal counts one
-- in the total, and an empty list lets nothing through.
pub allow-Admits :
    (a : Acl) (ps : List Prefix) (addr : Addr) (now : ℕ)
    → ((allow (replace a ps) addr now).1 ≡ true ↔ ((is_valid addr ≡ true) × Admits ps (unmap addr)))
      × ((allow (replace a ps) addr now).1 ≡ true
          → (allow (replace a ps) addr now).0 ≡ replace a ps)
      × ((allow (replace a ps) addr now).1 ≡ false
          → (allow (replace a ps) addr now).0.total ≡ (a.total + 1) % 2 ^ 64)
unfolding allow replace refuse
allow-Admits a ps addr now =
    let admits = any_contains-Admits ps (unmap addr) in
    (
      (λ h. (ground arith, admits.0 (ground arith)), λ h. ground (arith, admits.1 h.1)),
      λ h. ground arith,
      λ h. ground arith,
    )
