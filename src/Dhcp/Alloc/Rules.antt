-- ===== src/Dhcp/Alloc/Rules.antt =====
-- The four rules of `allocate` in internal/dhcpd/alloc.go, and what each has checked when it acts.
use kydns_server.Prelude.{
  ◌+◌, ◌≡◌, refl, Bool, false, true, ◌&&◌, not, none, some, arith, string_eq, ltb, lookup,
  Option-cases, Bool-cases, inl, inr,
}
use kydns_server.Net.{Addr, addr_eq, is_valid}
use kydns_server.Dhcp.Alloc.{
  Allocator, Request, Lease, Reply, commit, protected, usable, free, held, held_by_another, scan,
  scan_fuel, previous_elsewhere, unreserved, reservation_rule, renewal_rule, dynamic_rule,
  later_rules, apply_rules,
}
use kydns_server.Dhcp.Alloc.Scan.{scan-free}

-- The client has a live lease on an address that may be handed out.
abbrev pub KeepsLive : Allocator → Request → Type 0
KeepsLive a r =
    (l : Lease)
    → lookup r.mac a.by_mac ≡ some l
    → protected a l.ip ≡ false
    → ltb r.now l.expires ≡ true
    → r.tentative ≡ false

-- Why `commit` may write a binding of `ip`.
pub data Grant (a : Allocator) (r : Request) (ip : Addr) : Type 0 where
  reserved :
      lookup r.mac a.reserved ≡ some ip
      → protected a ip ≡ false
      → (r.tentative ≡ true → held_by_another a ip r.mac r.now ≡ false)
      → ((l : Lease)
          → lookup r.mac a.by_mac ≡ some l
          → r.tentative ≡ true
          → ltb r.now l.expires ≡ true
          → l.ip ≡ ip)
      → Grant a r ip
  renewed :
      (l : Lease) → lookup r.mac a.by_mac ≡ some l → l.ip ≡ ip → usable a ip ≡ true → Grant a r ip
  unclaimed : free a ip r.mac r.now ≡ true → KeepsLive a r → Grant a r ip

-- The four things that `allocate` can do.
pub data Outcome (a : Allocator) (r : Request) (out : Allocator × Reply) : Type 0 where
  commits : (ip : Addr) (fresh : Bool) → out ≡ commit a r ip fresh → Grant a r ip → Outcome a r out
  promises :
      (l : Lease)
      → out ≡ (a, some (l, false))
      → r.tentative ≡ true
      → lookup r.mac a.reserved ≡ some l.ip
      → protected a l.ip ≡ false
      → held a r ≡ true
      → Outcome a r out
  keeps :
      (l : Lease)
      → out ≡ (a, some (l, false))
      → r.tentative ≡ true
      → lookup r.mac a.by_mac ≡ some l
      → protected a l.ip ≡ false
      → Outcome a r out
  refuses : out ≡ (a, none) → scan a r.mac r.now (scan_fuel a) a.cfg.start ≡ none → Outcome a r out

module _ (a : Allocator) (r : Request) where
  reservation-Outcome :
      (ip : Addr) (out : Allocator × Reply)
      → lookup r.mac a.reserved ≡ some ip
      → reservation_rule a r ≡ some out
      → Outcome a r out
  unfolding reservation_rule held
  reservation-Outcome ip out e h = elim (Bool-cases (protected a ip)) [
    | inl p ↦ absurd (ground arith)
    | inr p ↦ elim (Bool-cases r.tentative) [
      | inr t ↦
          commits ip false (ground arith)
            (reserved e p (λ q. ground arith) (λ l _ q _. ground arith))
      | inl t ↦ elim (Bool-cases (held_by_another a ip r.mac r.now)) [
        | inl b ↦ absurd (ground arith)
        | inr b ↦ elim (Bool-cases (held a r && previous_elsewhere a r ip)) [
          | inl q ↦
              promises (record { mac = r.mac; ip = ip; hostname = ""; expires = r.now + r.ttl })
                (ground arith) t e p (ground arith)
          | inr q ↦
              commits ip false (ground arith)
                (reserved e p (λ _. b) (λ l known _ live. ground arith))
        ]
      ]
    ]
  ]

  reservation_rule-Outcome :
      (out : Allocator × Reply) → reservation_rule a r ≡ some out → Outcome a r out
  unfolding reservation_rule
  reservation_rule-Outcome out h = elim (Option-cases (lookup r.mac a.reserved)) [
    | inl e ↦ absurd (ground arith)
    | inr (ip, e) ↦ reservation-Outcome ip out e h
  ]

  renewal_rule-Outcome : (out : Allocator × Reply) → renewal_rule a r ≡ some out → Outcome a r out
  unfolding renewal_rule
  renewal_rule-Outcome out h = elim (Option-cases (lookup r.mac a.by_mac)) [
    | inl e ↦ absurd (ground arith)
    | inr (l, e) ↦ elim (Bool-cases (usable a l.ip && unreserved a l.ip)) [
      | inl u ↦
          commits l.ip (not (ltb r.now l.expires)) (ground arith) (renewed l e refl (ground arith))
      | inr u ↦ keeps l (ground arith) (ground arith) e (ground arith)
    ]
  ]

  not_renewed : renewal_rule a r ≡ none → KeepsLive a r
  unfolding renewal_rule
  not_renewed h = λ l e p live. ground arith

  dynamic_rule-Outcome : KeepsLive a r → Outcome a r (dynamic_rule a r)
  unfolding dynamic_rule
  dynamic_rule-Outcome k =
      elim (Bool-cases (is_valid r.requested && free a r.requested r.mac r.now)) [
        | inl f ↦ commits r.requested true (rw f) (unclaimed (ground arith) k)
        | inr f ↦ elim (Option-cases (scan a r.mac r.now (scan_fuel a) a.cfg.start)) [
          | inl e ↦ refuses (rw (f, e)) e
          | inr (ip, e) ↦
              commits ip true (rw (f, e))
                (unclaimed (scan-free a r.mac r.now (scan_fuel a) a.cfg.start e) k)
        ]
      ]

  pub later_rules-Outcome : Outcome a r (later_rules a r)
  unfolding later_rules
  later_rules-Outcome = elim (Option-cases (renewal_rule a r)) [
    | inr (out, f) ↦ rw (f, later_rules) (renewal_rule-Outcome out f)
    | inl f ↦ rw (f, later_rules) (dynamic_rule-Outcome (not_renewed f))
  ]

  -- Every run of the rules is one of the four outcomes.
  pub apply_rules-Outcome : Outcome a r (apply_rules a r)
  unfolding apply_rules
  apply_rules-Outcome = elim (Option-cases (reservation_rule a r)) [
    | inr (out, e) ↦ rw (e, apply_rules) (reservation_rule-Outcome out e)
    | inl e ↦ rw (e, apply_rules) later_rules-Outcome
  ]
