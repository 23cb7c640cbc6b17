-- ===== src/Zone/Matcher/Collect.antt =====
-- What `NewMatcher` of internal/zone/matcher.go collects from the views, and what `Match` then
-- answers.
use kydns_server.Prelude.{
  ◌≤◌, ◌≡◌, ◌⊎◌, ◌↔◌, inl, inr, refl, sym, ap, subst, true, false, List, [], ◌∷◌, ◌++◌, arith,
  Option-cases, nat_eq, Option, some,
}
use kydns_server.Text.{Bytes}
use kydns_server.Net.{Addr, Prefix, contains, masked, is_valid, unmap, prefix_eq}
use kydns_server.Zone.Matcher.{
  View, Entry, Collected, Result, ok, err, claim, collect_subnets, collect_views, sort_entries,
  Matcher, new_matcher, match_view, ◌>>=◌,
}
use kydns_server.Zone.Matcher.Longest.{
  In, Finds, IsDescending, first_view-Finds, sort_entries-IsDescending, In-sort_entries,
}

module _ (parse_prefix : Bytes → Option Prefix) where
  -- Some subnet of the list parses to a prefix that masks to `p`.
  abbrev pub HasSubnet : List Bytes → Prefix → Type 0
  HasSubnet [] p = ⊥
  HasSubnet (cidr ∷ rest) p =
      ((q : Prefix) × (parse_prefix cidr ≡ some q) × (masked q ≡ p)) ⊎ HasSubnet rest p

  -- Some view of the list is called as the entry says and has its prefix among its subnets.
  abbrev pub Declares : List View → Entry → Type 0
  Declares [] e = ⊥
  Declares (v ∷ vs) e = ((v.name ≡ e.view) × HasSubnet v.subnets e.prefix) ⊎ Declares vs e

In-snoc : (x e : Entry) (es : List Entry) → In x (es ++ e ∷ []) ↔ (In x es ⊎ (e ≡ x))
In-snoc x e [] = (
  λ h. elim h [ inl p ↦ inr p | inr q ↦ inl q ],
  λ h. elim h [ inl p ↦ absurd p | inr q ↦ inl q ],
)
In-snoc x e (f ∷ fs) =
    let ih = In-snoc x e fs in
    (
      λ h. elim h [
        | inl p ↦ inl (inl p)
        | inr q ↦ elim (ih.0 q) [ inl r ↦ inl (inr r) | inr r ↦ inr r ]
      ],
      λ h. elim h [
        | inl p ↦ elim p [ inl r ↦ inl r | inr r ↦ inr (ih.1 (inl r)) ]
        | inr q ↦ inr (ih.1 (inr q))
      ],
    )

claim_entries :
    (view : Bytes) (p : Prefix) (c d : Collected)
    → claim view p c ≡ ok d
    → d.entries ≡ c.entries ++ record { prefix = p; view = view } ∷ []
unfolding claim
claim_entries view p c d h = ground arith

-- The entry of a view and a prefix.
abbrev entry : Bytes → Prefix → Entry
entry view p = record { prefix = p; view = view }

entry_path :
    (view : Bytes) (p : Prefix) (x : Entry) → view ≡ x.view → p ≡ x.prefix → entry view p ≡ x
entry_path view p x v q = λ i. record { prefix = q i; view = v i }

>>=-eq-ok :
    {A B : Type 0} (r : Result A) (f : A → Result B) {b : B}
    → (r >>= f) ≡ ok b
    → (a : A) × (r ≡ ok a) × (f a ≡ ok b)
>>=-eq-ok (ok a) f h = (a, refl, h)
>>=-eq-ok (err e) f h = cc

module _ (parse_prefix : Bytes → Option Prefix) where
  collect_subnets-In :
      (view : Bytes) (cidrs : List Bytes) (c d : Collected) (x : Entry)
      → collect_subnets parse_prefix view cidrs c ≡ ok d
      → In x d.entries
        ↔ (In x c.entries ⊎ ((view ≡ x.view) × HasSubnet parse_prefix cidrs x.prefix))
  unfolding collect_subnets
  collect_subnets-In view [] c d x h =
      let e : c ≡ d = ground arith in
      subst (λ (k : Collected). In x k.entries ↔ (In x c.entries ⊎ ((view ≡ x.view) × ⊥))) e
        (λ i. inl i, λ i. elim i [ inl p ↦ p | inr q ↦ absurd q.1 ])
  collect_subnets-In view (cidr ∷ rest) c d x h = elim (Option-cases (parse_prefix cidr)) [
    | inl e ↦ absurd (ground arith)
    | inr (p, e) ↦
        let (b, claimed, more) =
          >>=-eq-ok (claim view (masked p) c) (collect_subnets parse_prefix view rest)
            (rw (e, collect_subnets) at h) in
        let ih = collect_subnets-In view rest b d x more in
        let added = claim_entries view (masked p) c b claimed in
        let snoc = In-snoc x (entry view (masked p)) c.entries in
        let back =
          λ (i : In x (c.entries ++ entry view (masked p) ∷ [])). subst (In x) (sym added) i in
        (
          λ i. elim (ih.0 i) [
            | inl j ↦ elim (snoc.0 (subst (In x) added j)) [
              | inl k ↦ inl k
              | inr q ↦
                  inr (ap (λ (y : Entry). y.view) q, inl (p, e, ap (λ (y : Entry). y.prefix) q))
            ]
            | inr j ↦ inr (j.0, inr j.1)
          ],
          λ i. elim i [
            | inl k ↦ ih.1 (inl (back (snoc.1 (inl k))))
            | inr (v, inl (q, f, m)) ↦
                let same : masked p ≡ x.prefix = ground arith in
                ih.1 (inl (back (snoc.1 (inr (entry_path view (masked p) x v same)))))
            | inr (v, inr j) ↦ ih.1 (inr (v, j))
          ],
        )
  ]

  collect_views-In :
      (vs : List View) (c d : Collected) (x : Entry)
      → collect_views parse_prefix vs c ≡ ok d
      → In x d.entries ↔ (In x c.entries ⊎ Declares parse_prefix vs x)
  unfolding collect_views
  collect_views-In [] c d x h =
      let e : c ≡ d = ground arith in
      subst (λ (k : Collected). In x k.entries ↔ (In x c.entries ⊎ ⊥)) e
        (λ i. inl i, λ i. elim i [ inl p ↦ p | inr q ↦ absurd q ])
  collect_views-In (v ∷ vs) c d x h =
      let (b, first, more) =
        >>=-eq-ok (collect_subnets parse_prefix v.name v.subnets c) (collect_views parse_prefix vs)
          h in
      let ih = collect_views-In vs b d x more in
      let own = collect_subnets-In v.name v.subnets c b x first in
      (
        λ i. elim (ih.0 i) [
          | inl j ↦ elim (own.0 j) [ inl k ↦ inl k | inr k ↦ inr (inl k) ]
          | inr j ↦ inr (inr j)
        ],
        λ i. elim i [
          | inl k ↦ ih.1 (inl (own.1 (inl k)))
          | inr k ↦ elim k [ inl k' ↦ ih.1 (inl (own.1 (inr k'))) | inr k' ↦ ih.1 (inr k') ]
        ],
      )

-- The view that the configuration gives an address: that of a longest declared subnet that
-- contains it, or "" where none does.
abbrev pub ViewOf : (Bytes → Option Prefix) → List View → Addr → Bytes → Type 0
ViewOf parse_prefix views a view =
    ((e : Entry) × Declares parse_prefix views e
      × (contains e.prefix a ≡ true)
      × ((f : Entry)
          → Declares parse_prefix views f
          → contains f.prefix a ≡ true
          → f.prefix.bits ≤ e.prefix.bits)
      × (view ≡ e.view))
    ⊎ (((f : Entry) → Declares parse_prefix views f → contains f.prefix a ≡ false) × (view ≡ []))

module _ (parse_prefix : Bytes → Option Prefix) (views : List View) (m : Matcher)
    (built : new_matcher parse_prefix views ≡ ok m) where
  collected :
      (c : Collected) × (collect_views parse_prefix views (record { claimed = []; entries = [] })
        ≡ ok c)
      × (sort_entries c.entries ≡ m.entries)
  unfolding new_matcher
  collected =
      let (c, e, last) =
        >>=-eq-ok (collect_views parse_prefix views (record { claimed = []; entries = [] })) _
          built in
      (c, e, ground arith)

  entries-Declares : (x : Entry) → In x m.entries ↔ Declares parse_prefix views x
  entries-Declares x =
      let (c, e, sorted) = collected in
      let all = collect_views-In parse_prefix views (record { claimed = []; entries = [] }) c x e in
      let kept = In-sort_entries x c.entries in
      (
        λ i. elim (all.0 (kept.0 (subst (In x) (sym sorted) i))) [ inl p ↦ absurd p | inr q ↦ q ],
        λ d. subst (In x) sorted (kept.1 (all.1 (inr d))),
      )

  entries-IsDescending : IsDescending m.entries
  entries-IsDescending =
      let (c, e, sorted) = collected in
      subst IsDescending sorted (sort_entries-IsDescending c.entries)

  Finds-ViewOf :
      (a : Addr) (view : Bytes) → Finds m.entries a view → ViewOf parse_prefix views a view
  Finds-ViewOf a view (inl (e, l, p)) = inl (
    e,
    (entries-Declares e).0 l.listed,
    l.covers,
    λ f d c. l.longest f ((entries-Declares f).1 d) c,
    p,
  )
  Finds-ViewOf a view (inr (n, p)) = inr (λ f d. n f ((entries-Declares f).1 d), p)

-- A matcher built without an error answers for every valid address with the view of a longest
-- declared subnet that contains it, after the v4-in-v6 form is taken off, and with "" where there is
-- none; an invalid address is in no view. The parser of prefixes is any function.
pub match_view-ViewOf :
    (parse_prefix : Bytes → Option Prefix) (views : List View) (m : Matcher) (a : Addr)
    → new_matcher parse_prefix views ≡ ok m
    → (is_valid a ≡ true → ViewOf parse_prefix views (unmap a) (match_view m a))
      × (is_valid a ≡ false → match_view m a ≡ [])
unfolding match_view
match_view-ViewOf parse_prefix views m a built = (
  λ valid.
      rw (valid, match_view)
        (Finds-ViewOf parse_prefix views m built (unmap a) _
          (first_view-Finds m.entries (unmap a) (entries-IsDescending parse_prefix views m built))),
  λ invalid. ground arith,
)
