-- ===== src/Policy/Snapshot/Precedence.antt =====
-- The precedence of internal/policy/snapshot.go, stated over the rules and lists themselves.
use kydns_server.Prelude.{
  ◌≡◌, ◌↔◌, ◌⊎◌, inl, inr, refl, true, false, ◌||◌, not, Option, none, some, List, [], ◌∷◌, arith,
  nat_eq, is_empty, if◌then◌else◌, Bool-cases, Option-cases,
}
use kydns_server.Text.{Bytes, bytes_eq}
use kydns_server.Policy.Set.{new_set, matches, Covers, CoveredBy}
use kydns_server.Policy.Set.Match.{matches_iff}
use kydns_server.Policy.Normalize.{Names, normalize}
use kydns_server.Policy.Snapshot.{
  BlacklistSettings, BlacklistList, BlacklistRule, Snapshot, domains_of, enabled_lists, build,
  first_match, decide_name, decide, policy_deny, policy_allow, forwarded,
}

-- Some rule of the kind covers the name.
abbrev pub RuledBy : Bytes → List BlacklistRule → Bytes → Type 0
RuledBy kind [] n = ⊥
RuledBy kind (r ∷ rs) n = ((r.kind ≡ kind) × Covers r.domain n) ⊎ RuledBy kind rs n

-- Some enabled list covers the name.
abbrev pub ListedBy : List BlacklistList → Bytes → Type 0
ListedBy [] n = ⊥
ListedBy (l ∷ ls) n = ((l.enabled ≡ true) × CoveredBy l.snapshot n) ⊎ ListedBy ls n

domains_of-CoveredBy :
    (kind : Bytes) (rs : List BlacklistRule) (n : Bytes)
    → CoveredBy (domains_of kind rs) n ↔ RuledBy kind rs n
unfolding domains_of
domains_of-CoveredBy kind [] n = (λ h. h, λ h. h)
domains_of-CoveredBy kind (r ∷ rs) n =
    let ih = domains_of-CoveredBy kind rs n in
    elim (bytes_eq.dec r.kind kind)
      as (λ d.
        CoveredBy
          (if elim d [ yes _ ↦ true | no _ ↦ false ]
            then r.domain ∷ domains_of kind rs
            else domains_of kind rs)
          n
        ↔ RuledBy kind (r ∷ rs) n) [
          | yes p ↦ (
            λ h. elim h [ inl c ↦ inl (p, c) | inr c ↦ inr (ih.0 c) ],
            λ h. elim h [ inl c ↦ inl c.1 | inr c ↦ inr (ih.1 c) ],
          )
          | no k ↦ (λ h. inr (ih.0 h), λ h. elim h [ inl c ↦ absurd (k c.0) | inr c ↦ ih.1 c ])
        ]

pub matches-RuledBy :
    (kind : Bytes) (rs : List BlacklistRule) (n : Bytes)
    → (matches (new_set (domains_of kind rs)) n ≡ true) ↔ RuledBy kind rs n
unfolding new_set
matches-RuledBy kind rs n =
    let m = matches_iff (new_set (domains_of kind rs)) n in
    let d = domains_of-CoveredBy kind rs n in (λ h. d.0 (m.0 h), λ h. m.1 (d.1 h))

nil_uncovered : (s : List Bytes) (n : Bytes) → is_empty s ≡ true → ¬ CoveredBy s n
nil_uncovered [] n h = λ c. c
nil_uncovered (d ∷ ds) n h = absurd (ground arith)

ListedBy-cons :
    (l : BlacklistList) (ls : List BlacklistList) (n : Bytes)
    → (not l.enabled || is_empty l.snapshot) ≡ true
    → ListedBy (l ∷ ls) n
    → ListedBy ls n
ListedBy-cons l ls n h (inl c) = absurd (nil_uncovered l.snapshot n (ground arith) c.1)
ListedBy-cons l ls n h (inr c) = c

-- The first matching set is found exactly when an enabled list covers the name.
listed :
    (lists : List BlacklistList) (n : Bytes)
    → (((list : Bytes) × (first_match n (enabled_lists lists) ≡ some list)) → ListedBy lists n)
      × (ListedBy lists n → (list : Bytes) × (first_match n (enabled_lists lists) ≡ some list))
unfolding first_match enabled_lists new_set
listed [] n = (λ h. absurd (ground arith), λ h. absurd h)
listed (l ∷ ls) n =
    let ih = listed ls n in
    let m = matches_iff (new_set l.snapshot) n in
    elim (Bool-cases (not l.enabled || is_empty l.snapshot)) [
      | inl off ↦ (
        λ h. inr (ih.0 (h.0, ground arith)),
        λ h. let (list, e) = ih.1 (ListedBy-cons l ls n off h) in (list, ground arith),
      )
      | inr on ↦ elim (Bool-cases (matches (new_set l.snapshot) n)) [
        | inl hit ↦ (λ h. inl (ground arith, m.0 hit), λ h. (l.name, ground arith))
        | inr miss ↦ (
          λ h. inr (ih.0 (h.0, ground arith)),
          λ h. elim h [
            | inl c ↦ absurd (ground (arith, m.1 c.1))
            | inr c ↦ let (list, e) = ih.1 c in (list, ground arith)
          ],
        )
      ]
    ]

-- The precedence: an explicit deny, then an explicit allow, then the lists.
abbrev pub Blocks : List BlacklistList → List BlacklistRule → Bytes → Type 0
Blocks lists rules n =
    RuledBy policy_deny rules n ⊎ ((¬ RuledBy policy_allow rules n) × ListedBy lists n)

module _ (s : BlacklistSettings) (lists : List BlacklistList) (rules : List BlacklistRule)
    (n : Bytes) where
  decide_name-Blocks : ((decide_name (build s lists rules) n).blocked ≡ true) ↔ Blocks lists rules n
  unfolding decide_name build
  decide_name-Blocks =
      let deny = matches-RuledBy policy_deny rules n in
      let allow = matches-RuledBy policy_allow rules n in
      let list = listed lists n in
      elim (Bool-cases (matches (new_set (domains_of policy_deny rules)) n)) [
        | inl d ↦ (λ h. inl (deny.0 d), λ h. ground arith)
        | inr d ↦ elim (Bool-cases (matches (new_set (domains_of policy_allow rules)) n)) [
          | inl a ↦ (
            λ h. absurd (ground arith),
            λ h. elim h [
              | inl r ↦ absurd (ground (arith, deny.1 r))
              | inr c ↦ absurd (c.0 (allow.0 a))
            ],
          )
          | inr a ↦ elim (Option-cases (first_match n (enabled_lists lists))) [
            | inl e ↦ (
              λ h. absurd (ground arith),
              λ h. elim h [
                | inl r ↦ absurd (ground (arith, deny.1 r))
                | inr c ↦ absurd (ground (arith, list.1 c.1))
              ],
            )
            | inr (found, e) ↦
                (λ h. inr (λ r. ground (arith, allow.1 r), list.0 (found, e)), λ h. ground arith)
          ]
        ]
      ]

-- With filtering on, a name is blocked exactly when a deny rule covers it, or no allow rule covers
-- it and an enabled list does. Disabled lists have no part in it.
pub decide-Blocks :
    (names : Names) (s : BlacklistSettings) (lists : List BlacklistList)
    (rules : List BlacklistRule) (name n : Bytes)
    → s.enabled ≡ true
    → normalize names name ≡ some n
    → ((decide names (some (build s lists rules)) name).blocked ≡ true) ↔ Blocks lists rules n
unfolding decide build
decide-Blocks names s lists rules name n on e =
    let blocks = decide_name-Blocks s lists rules n in
    (λ h. blocks.0 (ground arith), λ h. ground (arith, blocks.1 h))

-- Filtering never touches a name that it cannot normalize, nor any name while it is off or before
-- the first snapshot: the name is forwarded.
pub decide_forwards :
    (names : Names) (snapshot : Option Snapshot) (name : Bytes)
    → (snapshot ≡ none)
      ⊎ (((s : Snapshot) × (snapshot ≡ some s) × (s.enabled ≡ false))
          ⊎ (normalize names name ≡ none))
    → decide names snapshot name ≡ forwarded
unfolding decide
decide_forwards names none name h = refl
decide_forwards names (some s) name h = ground arith
