-- ===== src/Zone/Snapshot/Answers.antt =====
-- From which index a snapshot of internal/zone/snapshot.go answers.
use kydns_server.Prelude.{
  ◌≡◌, ◌⊎◌, inl, inr, subst, sym, ap, ◌∙◌, refl, true, false, some, List, [], ◌∷◌, if◌then◌else◌,
  Map, lookup, insert, lookup-insert, arith, Bool-cases, Option-cases, none, ltb, length,
}
use kydns_server.Text.{Bytes, bytes_eq, to_lower}
use kydns_server.Zone.Matcher.{Matcher, MatcherError, Result, ok, err, new_matcher}
use kydns_server.Zone.Index.{
  Rr, Index, Input, Parsers, BuildError, built, failed, known, build_index, records_at,
}
use kydns_server.Zone.Snapshot.{
  Snapshot, build_views, build, index_of, lookup_records, lookup_ptr, has_name,
}

-- An index that the view builds to.
abbrev pub IndexFor : Parsers → Input → Bytes → Bytes → Index → Type 0
IndexFor parsers i view zone idx = build_index parsers i view zone ≡ built idx

Built-cases :
    {A : Type 0} (r : kydns_server.Zone.Index.Result A)
    → ((e : BuildError) × (r ≡ failed e)) ⊎ ((a : A) × (r ≡ built a))
Built-cases (failed e) = inl (e, refl)
Built-cases (built a) = inr (a, refl)

build_views_other :
    (parsers : Parsers) (i : Input) (zone : Bytes) (vs : List Bytes) (m out : Map Bytes Index)
    (v : Bytes)
    → build_views parsers i zone vs m ≡ built out
    → known v vs ≡ false
    → lookup v out ≡ lookup v m
unfolding build_views known
build_views_other parsers i zone [] m out v h k = ground arith
build_views_other parsers i zone (w ∷ ws) m out v h k =
    elim (Built-cases (build_index parsers i w zone)) [
      | inl (e, p) ↦ absurd (ground arith)
      | inr (idx, p) ↦
          build_views_other parsers i zone ws (insert w idx m) out v (ground arith) (ground arith)
          ∙ ground (arith, lookup-insert v w idx m)
    ]

build_views_own :
    (parsers : Parsers) (i : Input) (zone : Bytes) (vs : List Bytes) (m out : Map Bytes Index)
    (v : Bytes)
    → build_views parsers i zone vs m ≡ built out
    → known v vs ≡ true
    → (idx : Index) × IndexFor parsers i v zone idx × (lookup v out ≡ some idx)
unfolding build_views known
build_views_own parsers i zone [] m out v h k = absurd (ground arith)
build_views_own parsers i zone (w ∷ ws) m out v h k =
    elim (Built-cases (build_index parsers i w zone)) [
      | inl (e, p) ↦ absurd (ground arith)
      | inr (idx, p) ↦ elim (Bool-cases (known v ws)) [
        | inl later ↦ build_views_own parsers i zone ws (insert w idx m) out v (ground arith) later
        | inr last ↦
            let same : w ≡ v = ground arith in
            (
              idx,
              subst (λ (x : Bytes). IndexFor parsers i x zone idx) same p,
              build_views_other parsers i zone ws (insert w idx m) out v (ground arith) last
                  ∙ ground (arith, lookup-insert v w idx m),
            )
      ]
    ]

pub Matched-cases :
    (r : Result Matcher) → ((e : MatcherError) × (r ≡ err e)) ⊎ ((m : Matcher) × (r ≡ ok m))
Matched-cases (err e) = inl (e, refl)
Matched-cases (ok m) = inr (m, refl)

pub Viewed-cases :
    (r : kydns_server.Zone.Index.Result (Map Bytes Index))
    → ((e : BuildError) × (r ≡ failed e)) ⊎ ((m : Map Bytes Index) × (r ≡ built m))
Viewed-cases r = Built-cases r

-- The view whose index answers.
abbrev pub serving_view : List Bytes → Bytes → Bytes
serving_view names view = if known view names then view else []

index_of-IndexFor :
    (parsers : Parsers) (i : Input) (s : Snapshot) (view : Bytes)
    → build_views parsers i s.zone ([] ∷ s.matcher.names) [] ≡ built s.views
    → (idx : Index) × IndexFor parsers i (serving_view s.matcher.names view) s.zone idx
      × (index_of s view ≡ some idx)
unfolding index_of known lookup
index_of-IndexFor parsers i s view h =
    let names = s.matcher.names in
    let own = λ (v : Bytes). build_views_own parsers i s.zone ([] ∷ names) [] s.views v h in
    elim (Bool-cases (known view names)) [
      | inl here ↦
          let (idx, p, q) = own view (ground arith) in
          rw (here, serving_view) (idx, p, ground arith)
      | inr away ↦
          let (idx, p, q) = own [] (ground arith) in
          elim (bytes_eq.dec [] view) [
            | yes same ↦
                let found : lookup view s.views ≡ some idx =
                  ap (λ (v : Bytes). lookup v s.views) (sym same) ∙ q in
                rw (away, serving_view) (idx, p, ground arith)
            | no other ↦
                let missing =
                  build_views_other parsers i s.zone ([] ∷ names) [] s.views view h
                    (ground arith) in
                rw (away, serving_view) (idx, p, ground arith)
          ]
    ]

-- `Reverse[arpa]`, where a missing key reads as "".
abbrev pub target_at : Bytes → Map Bytes Bytes → Bytes
target_at arpa m = elim (lookup arpa m) [ none ↦ [] | some name ↦ name ]

found_ptr :
    (s : Snapshot) (view name : Bytes) (idx : Index)
    → index_of s view ≡ some idx
    → lookup_ptr s view name ≡ some (target_at (to_lower name) idx.reverse)
unfolding lookup_ptr
found_ptr s view name idx h = elim (Option-cases (lookup (to_lower name) idx.reverse)) [
  | inl e ↦ ground arith
  | inr (target, e) ↦ ground arith
]

-- A snapshot that builds answers every look-up, of a name's records, of a reverse name's target, and of
-- whether a name exists, from an index that was built for its view, or for the default view where the
-- client's view has none; it never reads a missing index. The queried name is read in lower case, and
-- a reverse name without a target reads as empty.
pub lookup_records-IndexFor :
    (parsers : Parsers) (i : Input) (s : Snapshot) (view name : Bytes)
    → build parsers i ≡ built s
    → (idx : Index) × IndexFor parsers i (serving_view s.matcher.names view) s.zone idx
      × (lookup_records s view name ≡ some (records_at (to_lower name) idx.forward))
      × (lookup_ptr s view name ≡ some (target_at (to_lower name) idx.reverse))
      × (has_name s view name ≡ some (ltb 0 (length (records_at (to_lower name) idx.forward))))
unfolding build lookup_records lookup_ptr has_name
lookup_records-IndexFor parsers i s view name h =
    elim (Matched-cases (new_matcher parsers.parse_prefix i.views)) [
      | inl (e, p) ↦ absurd (ground arith)
      | inr (m, p) ↦
          elim (Viewed-cases (build_views parsers i (to_lower i.zone) ([] ∷ m.names) [])) [
            | inl (e, q) ↦ absurd (ground arith)
            | inr (views, q) ↦
                let from : build_views parsers i s.zone ([] ∷ s.matcher.names) [] ≡ built s.views =
                  ground arith in
                let (idx, made, read) = index_of-IndexFor parsers i s view from in
                (idx, made, ground arith, found_ptr s view name idx read, ground arith)
          ]
    ]
