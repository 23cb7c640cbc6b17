-- ===== src/Policy/Refresher/Safety.antt =====
-- What a round of internal/policy/refresher.go can do to the snapshots in the store.
use kydns_server.Prelude.{
  some, ℕ, ◌≤◌, ◌<◌, ◌≡◌, ◌⊎◌, inl, inr, refl, sym, ◌∙◌, subst, Bool, true, false, ◌||◌, List, [],
  ◌∷◌, nat_eq, string_eq, if◌then◌else◌, length, is_empty, arith, Bool-cases, Option-cases,
}
use kydns_server.Text.{Bytes, bytes_eq, bytes}
use kydns_server.Policy.Normalize.{Names}
use kydns_server.Policy.Parse.{ParseResult, parse, max_entries}
use kydns_server.Policy.Parse.Listed.{AllListed, parse_limit-AllListed}
use kydns_server.Policy.Refresher.{
  ListRow, update_row, row_by_id, with_snapshot, with_error, with_touch, Fetched, fetch_failed,
  not_modified, downloaded, fail, install, refresh_body, refresh, due, refresh_lists, Refresher,
  rebuild_policy, refresh_due, no_usable_domains,
}

-- A snapshot that may be installed: not empty, within the ceiling, of canonical names.
abbrev pub IsInstallable : Names → List Bytes → Type 0
IsInstallable names domains =
    (0 < length domains) × (length domains ≤ max_entries) × AllListed names domains

-- The list was downloaded, and its body parses to the domains.
abbrev pub Brings : Names → (ListRow → Fetched) → ListRow → List Bytes → Type 0
Brings names fetch l domains =
    (body : Bytes) × (etag : Bytes) × (last_modified : Bytes) × (res : ParseResult) × (fetch l
      ≡ downloaded body etag last_modified)
    × (parse names l.format body ≡ some res)
    × (res.domains ≡ domains)

-- A row afterwards: what an administrator sets stays, and its snapshot is the old one, or a new one
-- that the row may get.
abbrev pub RowKept : Names → (ℕ → List Bytes → Type 0) → ListRow → ListRow → Type 0
RowKept names May old new =
    (new.id ≡ old.id)
    × (new.name ≡ old.name)
    × (new.url ≡ old.url)
    × (new.format ≡ old.format)
    × (new.enabled ≡ old.enabled)
    × (new.interval_seconds ≡ old.interval_seconds)
    × ((new.snapshot ≡ old.snapshot) ⊎ (May old.id new.snapshot × IsInstallable names new.snapshot))

abbrev pub RowsKept : Names → (ℕ → List Bytes → Type 0) → List ListRow → List ListRow → Type 0
RowsKept names May [] [] = Unit {0}
RowsKept names May (o ∷ os) (n ∷ ns) = RowKept names May o n × RowsKept names May os ns
RowsKept names May [] (_ ∷ _) = ⊥
RowsKept names May (_ ∷ _) [] = ⊥

abbrev pub InRows : ListRow → List ListRow → Type 0
InRows l [] = ⊥
InRows l (r ∷ rs) = (l ≡ r) ⊎ InRows l rs

Fetched-cases :
    (o : Fetched)
    → ((cause : Bytes) × (o ≡ fetch_failed cause))
      ⊎ ((o ≡ not_modified)
          ⊎ ((body : Bytes) × (etag : Bytes) × (last : Bytes) × (o ≡ downloaded body etag last)))
Fetched-cases (fetch_failed cause) = inl (cause, refl)
Fetched-cases not_modified = inr (inl refl)
Fetched-cases (downloaded body etag last) = inr (inr (body, etag, last, refl))

module _ (names : Names) (May : ℕ → List Bytes → Type 0) where
  RowKept-trans :
      (a b c : ListRow) → RowKept names May a b → RowKept names May b c → RowKept names May a c
  RowKept-trans a b c (i, n, u, f, e, s, old) (i', n', u', f', e', s', new) = (
    i' ∙ i,
    n' ∙ n,
    u' ∙ u,
    f' ∙ f,
    e' ∙ e,
    s' ∙ s,
    elim new [
      | inr (may, good) ↦ inr (subst (λ (id : ℕ). May id c.snapshot) i may, good)
      | inl same ↦ elim old [
        | inl same' ↦ inl (same ∙ same')
        | inr gained ↦
            inr (subst (λ (d : List Bytes). May a.id d × IsInstallable names d) (sym same) gained)
      ]
    ],
  )

  RowKept-same : (r : ListRow) → RowKept names May r r
  RowKept-same r = (refl, refl, refl, refl, refl, refl, inl refl)

  RowsKept-refl : (rows : List ListRow) → RowsKept names May rows rows
  RowsKept-refl [] = tt
  RowsKept-refl (r ∷ rs) = (RowKept-same r, RowsKept-refl rs)

  RowsKept-trans :
      (os bs cs : List ListRow)
      → RowsKept names May os bs
      → RowsKept names May bs cs
      → RowsKept names May os cs
  RowsKept-trans [] [] cs h k = k
  RowsKept-trans [] (b ∷ bs) cs h k = absurd h
  RowsKept-trans (a ∷ os) [] cs h k = absurd h
  RowsKept-trans (a ∷ os) (b ∷ bs) [] h k = absurd k
  RowsKept-trans (a ∷ os) (b ∷ bs) (c ∷ cs) h k =
      (RowKept-trans a b c h.0 k.0, RowsKept-trans os bs cs h.1 k.1)

  update_row-RowsKept :
      (f : ListRow → ListRow) (id : ℕ) (rows : List ListRow)
      → ((r : ListRow) → r.id ≡ id → RowKept names May r (f r))
      → RowsKept names May rows (update_row f id rows)
  unfolding update_row
  update_row-RowsKept f id [] h = tt
  update_row-RowsKept f id (r ∷ rs) h =
      elim (nat_eq.dec r.id id)
        as (λ d. RowsKept names May (r ∷ rs) (
          if elim d [ yes _ ↦ true | no _ ↦ false ]
          then f r ∷ update_row f id rs
          else r ∷ update_row f id rs)) [
            | yes p ↦ (h r p, update_row-RowsKept f id rs h)
            | no _ ↦ (RowKept-same r, update_row-RowsKept f id rs h)
          ]

  module _ (parse_error : Bytes) (fetch : ListRow → Fetched) (clock : ListRow → ℕ) where
    fail-RowsKept :
        (l : ListRow) (cause : Bytes) (rows : List ListRow)
        → RowsKept names May rows (fail names parse_error fetch clock l cause rows).rows
    unfolding fail with_error
    fail-RowsKept l cause rows =
        update_row-RowsKept (with_error cause (clock l)) l.id rows
          λ r h. (refl, refl, refl, refl, refl, refl, inl refl)

    install-RowsKept :
        (l : ListRow) (res : ParseResult) (etag last_modified : Bytes) (rows : List ListRow)
        → May l.id res.domains
        → IsInstallable names res.domains
        → RowsKept names May rows
            (install names parse_error fetch clock l res etag last_modified rows).rows
    unfolding install with_snapshot
    install-RowsKept l res etag last_modified rows may good =
        elim (Option-cases (row_by_id l.id rows)) [
          | inl e ↦ rw (e, install) (fail-RowsKept l (bytes "not found") rows)
          | inr (r, e) ↦
              rw (e, install)
                (update_row-RowsKept (with_snapshot res etag last_modified (clock l)) l.id rows
                  λ r h. (
                    refl,
                    refl,
                    refl,
                    refl,
                    refl,
                    refl,
                    inr (subst (λ (id : ℕ). May id res.domains) (sym h) may, good),
                  ))
        ]

    refresh_body-RowsKept :
        (l : ListRow) (body etag last_modified : Bytes) (rows : List ListRow)
        → ((res : ParseResult) → parse names l.format body ≡ some res → May l.id res.domains)
        → RowsKept names May rows
            (refresh_body names parse_error fetch clock l body etag last_modified rows).rows
    unfolding refresh_body parse
    refresh_body-RowsKept l body etag last_modified rows may =
        elim (Option-cases (parse names l.format body)) [
          | inl e ↦ rw (e, refresh_body) (fail-RowsKept l parse_error rows)
          | inr (res, e) ↦ elim (Bool-cases (is_empty res.domains)) [
            | inl nothing ↦ rw (e, nothing, refresh_body) (fail-RowsKept l no_usable_domains rows)
            | inr listed ↦
                let (all, few) = parse_limit-AllListed names l.format max_entries body res e in
                rw (e, listed, refresh_body)
                  (install-RowsKept l res etag last_modified rows (may res e)
                    (is_empty-length res.domains listed, few, all))
          ]
        ]
      where
        is_empty-length : (xs : List Bytes) → is_empty xs ≡ false → 0 < length xs
        is_empty-length [] h = absurd (ground arith)
        is_empty-length (x ∷ xs) h = omega arith

    refresh-RowsKept :
        (l : ListRow) (rows : List ListRow)
        → ((domains : List Bytes) → Brings names fetch l domains → May l.id domains)
        → RowsKept names May rows (refresh names parse_error fetch clock l rows).rows
    unfolding refresh with_touch
    refresh-RowsKept l rows may = elim (Fetched-cases (fetch l)) [
      | inl (cause, e) ↦ rw (e, refresh) (fail-RowsKept l cause rows)
      | inr answered ↦ elim answered [
        | inl e ↦
            rw (e, refresh)
              (update_row-RowsKept (with_touch (clock l)) l.id rows
                λ r h. (refl, refl, refl, refl, refl, refl, inl refl))
        | inr (body, etag, last_modified, e) ↦
            rw (e, refresh)
              (refresh_body-RowsKept l body etag last_modified rows
                λ res p. may res.domains (body, etag, last_modified, res, e, p, refl))
      ]
    ]

    refresh_lists-RowsKept :
        (pick : ListRow → Bool) (ls rows : List ListRow) (changed : Bool)
        → ((l : ListRow) (domains : List Bytes)
            → InRows l ls
            → pick l ≡ true
            → Brings names fetch l domains
            → May l.id domains)
        → RowsKept names May rows
            (refresh_lists names parse_error fetch clock pick ls rows changed).0
    unfolding refresh_lists
    refresh_lists-RowsKept pick [] rows changed may = RowsKept-refl rows
    refresh_lists-RowsKept pick (l ∷ ls) rows changed may = elim (Bool-cases (pick l)) [
      | inr left ↦
          rw (left, refresh_lists)
            (refresh_lists-RowsKept pick ls rows changed λ k d here p b. may k d (inr here) p b)
      | inl picked ↦
          let r = refresh names parse_error fetch clock l rows in
          rw (picked, refresh_lists)
            (RowsKept-trans rows r.rows
              (refresh_lists names parse_error fetch clock pick ls r.rows (changed || r.changed)).0
              (refresh-RowsKept l rows λ d b. may l d (inl refl) picked b)
              (refresh_lists-RowsKept pick ls r.rows (changed || r.changed)
                λ k d here p b. may k d (inr here) p b))
    ]

-- Some list of the rows with the id is due, and its download brings the domains.
abbrev pub IsDue :
    Names → Bytes → (ListRow → Fetched) → (ListRow → ℕ) → ℕ → List ListRow → ℕ → List Bytes → Type 0
IsDue names parse_error fetch clock now rows id domains =
    (l : ListRow) × InRows l rows
    × (due names parse_error fetch clock now l ≡ true)
    × (l.id ≡ id)
    × Brings names fetch l domains

-- A round of refreshes never loses a snapshot to a bad source. Whatever the downloads bring, each row
-- keeps its id, name, URL, format, interval and whether it is enabled; and its snapshot is the old
-- one, unless a list of that id is enabled, its interval has elapsed, and its download succeeded with
-- a body that parses. Then a new snapshot holds the domains of that body, and it is not empty, within
-- the ceiling and of canonical names.
pub refresh_due-RowsKept :
    (names : Names) (parse_error : Bytes) (fetch : ListRow → Fetched) (clock : ListRow → ℕ)
    (now : ℕ) (r : Refresher)
    → RowsKept names
        (IsDue names parse_error fetch clock now r.rows)
        r.rows
        (refresh_due names parse_error fetch clock now r).rows
unfolding refresh_due rebuild_policy
refresh_due-RowsKept names parse_error fetch clock now r =
    let pick = due names parse_error fetch clock now in
    let out = refresh_lists names parse_error fetch clock pick r.rows r.rows false in
    let kept =
      refresh_lists-RowsKept names (IsDue names parse_error fetch clock now r.rows) parse_error
        fetch clock pick r.rows r.rows false (λ l d here p b. (l, here, p, refl, b)) in
    elim (Bool-cases out.1) [
      | inl changed ↦ rw (changed, refresh_due) kept
      | inr same ↦ rw (same, refresh_due) kept
    ]
