-- ===== src/Registry/Writes/Records.antt =====
-- The views and records of a document that internal/registry/registry.go accepts.
use kydns_server.Prelude.{
  some, ◌≡◌, ◌≢◌, ◌⊎◌, inl, inr, refl, subst, true, false, ◌||◌, none, List, [], ◌∷◌, ◌==◌, nat_eq,
  string_eq, is_empty, arith, Bool-cases, Option-cases,
}
use kydns_server.Text.{Bytes, bytes_eq, bytes, has_suffix, to_upper, trim_space}
use kydns_server.Registry.Validate.{validate_name, validate_label, normalize_fqdn}
use kydns_server.Registry.Writes.{
  WriteError, Checked, ok, err, Parsers, Record, View, is_known, lowered, check_views,
  check_records, check_subnets, validate_view, record_type, check_value, validate_record,
}

pub Checked-cases :
    {A : Type 0} (r : Checked A) → ((e : WriteError) × (r ≡ err e)) ⊎ ((a : A) × (r ≡ ok a))
Checked-cases (err e) = inl (e, refl)
Checked-cases (ok a) = inr (a, refl)

-- A view of a document: its name is a label, and it has subnets, which parsed.
abbrev pub AllSubnets : Parsers → List Bytes → Type 0
AllSubnets parsers [] = Unit {0}
AllSubnets parsers (c ∷ cs) =
    ((text : Bytes) × (parsers.parse_cidr text ≡ some c)) × AllSubnets parsers cs

abbrev pub IsView : Parsers → View → Type 0
IsView parsers v = (validate_label v.name ≡ none) × (v.subnets ≢ []) × AllSubnets parsers v.subnets

abbrev pub AllViews : Parsers → List View → Type 0
AllViews parsers [] = Unit {0}
AllViews parsers (v ∷ vs) = IsView parsers v × AllViews parsers vs

abbrev pub IsArpa : Bytes → Type 0
IsArpa name =
    (has_suffix name (bytes ".in-addr.arpa.") || has_suffix name (bytes ".ip6.arpa.")) ≡ true

-- The name and the value suit the type: an address record has a name of the zone and an address, an
-- alias has a name of the zone and a normalized target, and a PTR has a reverse name and a
-- normalized target.
abbrev pub Suits : Parsers → Bytes → Bytes → Bytes → Bytes → Type 0
Suits parsers zone name rrtype value =
    ((((rrtype ≡ bytes "A") ⊎ (rrtype ≡ bytes "AAAA"))
      × (validate_name name zone ≡ none)
      × (parsers.is_address value ≡ true)))
    ⊎ (((rrtype ≡ bytes "CNAME")
          × (validate_name name zone ≡ none)
          × ((target : Bytes) × (value ≡ normalize_fqdn target)))
        ⊎ ((rrtype ≡ bytes "PTR")
            × IsArpa name
            × ((target : Bytes) × (value ≡ normalize_fqdn target))))

-- A record of a document.
abbrev pub IsRecord : Parsers → List Bytes → Bytes → Record → Type 0
IsRecord parsers known zone r =
    Suits parsers zone r.name r.rrtype r.value
    × ((name : Bytes) × (r.name ≡ normalize_fqdn name))
    × ((r.view == [] || is_known r.view known) ≡ true)

abbrev pub AllRecords : Parsers → List Bytes → Bytes → List Record → Type 0
AllRecords parsers known zone [] = Unit {0}
AllRecords parsers known zone (r ∷ rs) =
    IsRecord parsers known zone r × AllRecords parsers known zone rs

module _ (parsers : Parsers) where
  check_subnets-AllSubnets :
      (cs out : List Bytes)
      → check_subnets parsers cs ≡ ok out
      → AllSubnets parsers out × (is_empty out ≡ is_empty cs)
  unfolding check_subnets
  check_subnets-AllSubnets [] out h =
      let same : [] ≡ out = ground arith in
      subst (λ (o : List Bytes). AllSubnets parsers o × (is_empty o ≡ true)) same (tt, refl)
  check_subnets-AllSubnets (c ∷ cs) out h = elim (Option-cases (parsers.parse_cidr c)) [
    | inl e ↦ absurd (ground arith)
    | inr (text, e) ↦ elim (Checked-cases (check_subnets parsers cs)) [
      | inl (failed, q) ↦ absurd (ground arith)
      | inr (rest, q) ↦
          let same : text ∷ rest ≡ out = ground arith in
          subst (λ (o : List Bytes). AllSubnets parsers o × (is_empty o ≡ false)) same
            (((c, e), (check_subnets-AllSubnets cs rest q).0), refl)
    ]
  ]

  validate_view-IsView : (v out : View) → validate_view parsers v ≡ ok out → IsView parsers out
  unfolding validate_view
  validate_view-IsView v out h = elim (Option-cases (validate_label (lowered v.name))) [
    | inr (e, p) ↦ absurd (ground arith)
    | inl p ↦ elim (Bool-cases (is_empty v.subnets)) [
      | inl nothing ↦ absurd (ground arith)
      | inr given ↦ elim (Checked-cases (check_subnets parsers v.subnets)) [
        | inl (e, q) ↦ absurd (ground arith)
        | inr (subnets, q) ↦
            let made : View = record { name = lowered v.name; subnets = subnets } in
            let same : made ≡ out = ground arith in
            let (all, size) = check_subnets-AllSubnets v.subnets subnets q in
            subst (IsView parsers) same (p, (λ z. absurd (ground (arith, size, given))), all)
      ]
    ]
  ]

  pub check_views-AllViews :
      (vs out : List View) → check_views parsers vs ≡ ok out → AllViews parsers out
  unfolding check_views
  check_views-AllViews [] out h =
      let same : [] ≡ out = ground arith in subst (AllViews parsers) same tt
  check_views-AllViews (v ∷ vs) out h = elim (Checked-cases (validate_view parsers v)) [
    | inl (e, p) ↦ absurd (ground arith)
    | inr (checked, p) ↦ elim (Checked-cases (check_views parsers vs)) [
      | inl (e, q) ↦ absurd (ground arith)
      | inr (rest, q) ↦
          let same : checked ∷ rest ≡ out = ground arith in
          subst (AllViews parsers) same
            (validate_view-IsView v checked p, check_views-AllViews vs rest q)
    ]
  ]

module _ (parsers : Parsers) (zone name rrtype value : Bytes) where
  check_value-Suits :
      (out : Bytes)
      → record_type parsers rrtype ≡ true
      → check_value parsers zone name rrtype value ≡ ok out
      → Suits parsers zone name rrtype out
  unfolding check_value
  check_value-Suits out typed h =
      elim (Bool-cases (rrtype == bytes "A" || rrtype == bytes "AAAA")) [
        | inl address ↦ elim (Option-cases (validate_name name zone)) [
          | inr (e, p) ↦ absurd (ground arith)
          | inl p ↦ elim (Bool-cases (parsers.is_address value)) [
            | inr bad ↦ absurd (ground arith)
            | inl good ↦
                let same : value ≡ out = ground arith in
                inl
                  ((ground arith, p, subst (λ (x : Bytes). parsers.is_address x ≡ true) same good))
          ]
        ]
        | inr no_address ↦ elim (Bool-cases (rrtype == bytes "CNAME")) [
          | inl alias ↦ elim (Option-cases (validate_name name zone)) [
            | inr (e, p) ↦ absurd (ground arith)
            | inl p ↦ inr (inl (ground arith, p, (value, ground arith)))
          ]
          | inr no_alias ↦
              elim (Bool-cases (
                has_suffix name (bytes ".in-addr.arpa.") || has_suffix name (bytes ".ip6.arpa."))) [
                  | inr foreign ↦ absurd (ground arith)
                  | inl reverse ↦ inr (inr (ground arith, reverse, (value, ground arith)))
                ]
        ]
      ]

module _ (parsers : Parsers) (known : List Bytes) (zone : Bytes) where
  validate_record-IsRecord :
      (r out : Record)
      → validate_record parsers known zone r ≡ ok out
      → IsRecord parsers known zone out
  unfolding validate_record
  validate_record-IsRecord r out h =
      let name = normalize_fqdn r.name in
      let rrtype = to_upper (trim_space r.rrtype) in
      elim (Bool-cases (record_type parsers rrtype)) [
        | inr odd ↦ absurd (ground arith)
        | inl typed ↦ elim (Checked-cases (check_value parsers zone name rrtype r.value)) [
          | inl (e, q) ↦ absurd (ground arith)
          | inr (value, q) ↦ elim (Bool-cases (r.view == [] || is_known r.view known)) [
            | inr strange ↦ absurd (ground arith)
            | inl seen ↦
                let made : Record = record {
                  name = name;
                  rrtype = rrtype;
                  value = value;
                  view = r.view;
                } in
                let same : made ≡ out = ground arith in
                subst (IsRecord parsers known zone) same (
                  check_value-Suits parsers zone name rrtype r.value value typed q,
                  (r.name, refl),
                  seen,
                )
          ]
        ]
      ]

  pub check_records-AllRecords :
      (rs out : List Record)
      → check_records parsers known zone rs ≡ ok out
      → AllRecords parsers known zone out
  unfolding check_records
  check_records-AllRecords [] out h =
      let same : [] ≡ out = ground arith in subst (AllRecords parsers known zone) same tt
  check_records-AllRecords (r ∷ rs) out h =
      elim (Checked-cases (validate_record parsers known zone r)) [
        | inl (e, p) ↦ absurd (ground arith)
        | inr (checked, p) ↦ elim (Checked-cases (check_records parsers known zone rs)) [
          | inl (e, q) ↦ absurd (ground arith)
          | inr (rest, q) ↦
              let same : checked ∷ rest ≡ out = ground arith in
              subst (AllRecords parsers known zone) same
                (validate_record-IsRecord r checked p, check_records-AllRecords rs rest q)
        ]
      ]
