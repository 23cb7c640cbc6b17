-- ===== src/Registry/Writes/Unique.antt =====
-- What a document that internal/registry/registry.go accepts holds.
use kydns_server.Prelude.{
  some, ◌≡◌, ◌≢◌, ◌⊎◌, inl, inr, refl, ap, ◌∙◌, subst, true, false, ◌||◌, none, List, [], ◌∷◌, ◌++◌,
  ◌==◌, nat_eq, string_eq, is_empty, arith, Bool-cases, Option-cases,
}
use kydns_server.Text.{Bytes, bytes_eq, trim_space}
use kydns_server.Registry.Validate.{validate_name}
use kydns_server.Registry.Writes.Records.{
  Checked-cases, AllViews, check_views-AllViews, AllRecords, check_records-AllRecords,
}
use kydns_server.Text.{to_lower, trim_left, trim_right}
use kydns_server.Registry.Writes.{
  valid_mac, ok, Parsers, Address, Service, Record, View, is_known, lowered, check_name,
  check_aliases, check_addresses, canonical_mac, check_proxy, validate_service, mac_taken,
  mac_clashes, check_views, check_services, check_records, names_of, check_all,
}

-- The label is a name of the zone.
abbrev pub InZone : Bytes → Bytes → Type 0
InZone zone name = validate_name (name ++ b'.' ∷ zone) zone ≡ none

abbrev pub AllInZone : Bytes → List Bytes → Type 0
AllInZone zone [] = Unit {0}
AllInZone zone (n ∷ ns) = InZone zone n × AllInZone zone ns

-- The addresses parse, and their views are known.
abbrev pub AllAddresses : Parsers → List Bytes → List Address → Type 0
AllAddresses parsers known [] = Unit {0}
AllAddresses parsers known (a ∷ as') =
    (parsers.is_address a.address ≡ true)
    × ((a.view == [] || is_known a.view known) ≡ true)
    × AllAddresses parsers known as'

pub record IsService (parsers : Parsers) (known : List Bytes) (zone : Bytes) (s : Service)
    : Type 0 where
  pub named : InZone zone s.name
  pub addressed : s.addresses ≢ []
  pub addresses : AllAddresses parsers known s.addresses
  pub aliases : AllInZone zone s.aliases
  pub proxied : s.route_via_proxy ≡ true → s.proxy_address ≢ []
  pub proxy : s.proxy_address ≢ [] → parsers.is_address s.proxy_address ≡ true
  pub reserved :
      (s.mac ≡ canonical_mac parsers [])
      ⊎ ((text : Bytes) × (parsers.parse_mac text ≡ some (s.mac, 6)))

check_name-InZone : (name zone out : Bytes) → check_name name zone ≡ ok out → InZone zone out
unfolding check_name
check_name-InZone name zone out h = elim (Option-cases (validate_name (name ++ b'.' ∷ zone) zone)) [
  | inr (e, p) ↦ absurd (ground arith)
  | inl p ↦ let same : name ≡ out = ground arith in subst (λ (n : Bytes). InZone zone n) same p
]

check_aliases-AllInZone :
    (zone : Bytes) (as' out : List Bytes) → check_aliases zone as' ≡ ok out → AllInZone zone out
unfolding check_aliases
check_aliases-AllInZone zone [] out h =
    let p : [] ≡ out = ground arith in subst (AllInZone zone) p tt
check_aliases-AllInZone zone (a ∷ as') out h = elim (Checked-cases (check_name (lowered a) zone)) [
  | inl (e, p) ↦ absurd (ground arith)
  | inr (alias, p) ↦ elim (Checked-cases (check_aliases zone as')) [
    | inl (e, q) ↦ absurd (ground arith)
    | inr (aliases, q) ↦
        let same : alias ∷ aliases ≡ out = ground arith in
        subst (AllInZone zone) same
          (check_name-InZone (lowered a) zone alias p, check_aliases-AllInZone zone as' aliases q)
  ]
]

module _ (parsers : Parsers) (known : List Bytes) (zone : Bytes) where
  check_addresses-AllAddresses :
      (as' out : List Address)
      → check_addresses parsers known as' ≡ ok out
      → AllAddresses parsers known out × (out ≡ as')
  unfolding check_addresses
  check_addresses-AllAddresses [] out h =
      let p : [] ≡ out = ground arith in
      subst (λ (o : List Address). AllAddresses parsers known o × (o ≡ [])) p (tt, refl)
  check_addresses-AllAddresses (a ∷ as') out h = elim (Bool-cases (parsers.is_address a.address)) [
    | inr bad ↦ absurd (ground arith)
    | inl good ↦ elim (Bool-cases (a.view == [] || is_known a.view known)) [
      | inr strange ↦ absurd (ground arith)
      | inl seen ↦ elim (Checked-cases (check_addresses parsers known as')) [
        | inl (e, q) ↦ absurd (ground arith)
        | inr (rest, q) ↦
            let (all, same) = check_addresses-AllAddresses as' rest q in
            let p : a ∷ rest ≡ out = ground arith in
            subst (λ (o : List Address). AllAddresses parsers known o × (o ≡ a ∷ as')) p
              ((good, seen, all), ap (◌∷◌ a) same)
      ]
    ]
  ]

  trim_space-nil : trim_space [] ≡ []
  unfolding trim_space trim_left trim_right
  trim_space-nil = refl

  check_proxy-needed :
      (svc : Service) (proxy : Bytes)
      → check_proxy parsers svc ≡ ok proxy
      → svc.route_via_proxy ≡ true
      → proxy ≢ []
  unfolding check_proxy
  check_proxy-needed svc proxy h routed empty = ground arith

  check_proxy-parses :
      (svc : Service) (proxy : Bytes)
      → check_proxy parsers svc ≡ ok proxy
      → proxy ≢ []
      → parsers.is_address proxy ≡ true
  unfolding check_proxy
  check_proxy-parses svc proxy h given =
      elim (Bool-cases
        (trim_space svc.proxy_address == [] || parsers.is_address (trim_space svc.proxy_address))) [
          | inr bad ↦ absurd (ground arith)
          | inl good ↦
              let same : trim_space svc.proxy_address ≡ proxy = ground arith in ground arith
        ]

  canonical_mac-reserved :
      (mac : Bytes)
      → valid_mac parsers mac ≡ true
      → (canonical_mac parsers mac ≡ canonical_mac parsers [])
        ⊎ ((text : Bytes) × (parsers.parse_mac text ≡ some (canonical_mac parsers mac, 6)))
  unfolding valid_mac canonical_mac
  canonical_mac-reserved mac h = elim (Bool-cases (trim_space mac == [])) [
    | inl blank ↦
        let same : trim_space mac ≡ trim_space [] = ground (arith, trim_space-nil) in
        inl (
          ap (λ (t : Bytes). elim (parsers.parse_mac t) [ some (x, _) ↦ x | none ↦ to_lower t ])
            same)
    | inr given ↦ elim (Option-cases (parsers.parse_mac (trim_space mac))) [
      | inl e ↦ absurd (ground arith)
      | inr ((x, octets), e) ↦ inr (trim_space mac, ground arith)
    ]
  ]

  validate_service-IsService :
      (svc out : Service)
      → validate_service parsers known zone svc ≡ ok out
      → IsService parsers known zone out × (out.id ≡ svc.id)
  unfolding validate_service
  validate_service-IsService svc out h = elim (Checked-cases (check_name (lowered svc.name) zone)) [
    | inl (e, p) ↦ absurd (ground arith)
    | inr (name, p) ↦ elim (Bool-cases (is_empty svc.addresses)) [
      | inl none_there ↦ absurd (ground arith)
      | inr given ↦ elim (Checked-cases (check_addresses parsers known svc.addresses)) [
        | inl (e, q) ↦ absurd (ground arith)
        | inr (addresses, q) ↦ elim (Checked-cases (check_proxy parsers svc)) [
          | inl (e, r) ↦ absurd (ground arith)
          | inr (proxy, r) ↦ elim (Checked-cases (check_aliases zone svc.aliases)) [
            | inl (e, s) ↦ absurd (ground arith)
            | inr (aliases, s) ↦ elim (Bool-cases (valid_mac parsers svc.mac)) [
              | inr malformed ↦ absurd (ground arith)
              | inl formed ↦
                  let made : Service = record svc {
                    name = name;
                    addresses = addresses;
                    proxy_address = proxy;
                    aliases = aliases;
                    mac = canonical_mac parsers svc.mac;
                  } in
                  let same : made ≡ out = ground arith in
                  let (all, as_given) = check_addresses-AllAddresses svc.addresses addresses q in
                  subst (λ (o : Service). IsService parsers known zone o × (o.id ≡ svc.id)) same
                    (
                      record {
                        named = check_name-InZone (lowered svc.name) zone name p;
                        addressed = λ z. absurd (ground (arith, as_given, given));
                        addresses = all;
                        aliases = check_aliases-AllInZone zone svc.aliases aliases s;
                        proxied = check_proxy-needed svc proxy r;
                        proxy = check_proxy-parses svc proxy r;
                        reserved = canonical_mac-reserved svc.mac formed;
                      },
                      refl,
                    )
            ]
          ]
        ]
      ]
    ]
  ]

abbrev pub AllServices : Parsers → List Bytes → Bytes → List Service → Type 0
AllServices parsers known zone [] = Unit {0}
AllServices parsers known zone (s ∷ ss) =
    IsService parsers known zone s × AllServices parsers known zone ss

-- Nobody in the list has the reservation of the service, if it has one.
abbrev pub NobodyHas : Service → List Service → Type 0
NobodyHas s [] = Unit {0}
NobodyHas s (t ∷ ts) = (s.mac ≢ [] → s.mac ≢ t.mac) × NobodyHas s ts

abbrev pub MacsDistinct : List Service → Type 0
MacsDistinct [] = Unit {0}
MacsDistinct (s ∷ ss) = NobodyHas s ss × MacsDistinct ss

-- The services come without an id, as in a document.
abbrev pub AllNew : List Service → Type 0
AllNew [] = Unit {0}
AllNew (s ∷ ss) = (s.id ≡ 0) × AllNew ss

module _ (parsers : Parsers) (known : List Bytes) (zone : Bytes) where
  AllServices-append :
      (done : List Service) (s : Service)
      → AllServices parsers known zone done
      → IsService parsers known zone s
      → AllServices parsers known zone (done ++ s ∷ [])
  AllServices-append [] s h k = (k, tt)
  AllServices-append (d ∷ ds) s h k = (h.0, AllServices-append ds s h.1 k)

  NobodyHas-append :
      (t : Service) (done : List Service) (s : Service)
      → NobodyHas t done
      → (t.mac ≢ [] → t.mac ≢ s.mac)
      → NobodyHas t (done ++ s ∷ [])
  NobodyHas-append t [] s h k = (k, tt)
  NobodyHas-append t (d ∷ ds) s h k = (h.0, NobodyHas-append t ds s h.1 k)

  MacsDistinct-append :
      (done : List Service) (s : Service)
      → s.id ≡ 0
      → MacsDistinct done
      → mac_clashes parsers s done ≡ false
      → MacsDistinct (done ++ s ∷ [])
  unfolding mac_clashes mac_taken
  MacsDistinct-append [] s new h k = (tt, tt)
  MacsDistinct-append (d ∷ ds) s new h k = (
    NobodyHas-append d ds s h.0 (λ given same. ground arith),
    MacsDistinct-append ds s new h.1 (ground arith),
  )

  check_services-Distinct :
      (done svcs out : List Service)
      → AllNew svcs
      → AllServices parsers known zone done
      → MacsDistinct done
      → check_services parsers known zone done svcs ≡ ok out
      → AllServices parsers known zone out × MacsDistinct out
  unfolding check_services
  check_services-Distinct done [] out new v d h =
      let p : done ≡ out = ground arith in
      subst (λ (o : List Service). AllServices parsers known zone o × MacsDistinct o) p (v, d)
  check_services-Distinct done (svc ∷ svcs) out new v d h =
      elim (Checked-cases (validate_service parsers known zone svc)) [
        | inl (e, p) ↦ absurd (ground arith)
        | inr (checked, p) ↦ elim (Bool-cases (mac_clashes parsers checked done)) [
          | inl taken ↦ absurd (ground arith)
          | inr free ↦
              let (good, same) = validate_service-IsService parsers known zone svc checked p in
              check_services-Distinct (done ++ checked ∷ []) svcs out new.1
                (AllServices-append done checked v good)
                (MacsDistinct-append done checked (same ∙ new.0) d free) (ground arith)
        ]
      ]

-- A document that is accepted, whose services come without an id, is valid. Each view has a label
-- for its name and subnets that parsed. Each service has names and aliases in the zone, addresses
-- that parse and views that the document holds, a proxy address that parses, if any, and one if it is
-- routed through it, and a hardware address of six octets that parsed, if any; and no two services
-- reserve one hardware address. Each record is of one of the four types, with a name
-- and a value that suit it, and its view is one that the document holds or none.
pub check_all-MacsDistinct :
    (parsers : Parsers) (zone : Bytes) (views : List View) (services : List Service)
    (records : List Record) (vs : List View) (ss : List Service) (rs : List Record)
    → AllNew services
    → check_all parsers zone views services records ≡ ok (vs, ss, rs)
    → AllViews parsers vs
      × AllServices parsers (names_of parsers vs) zone ss
      × MacsDistinct ss
      × AllRecords parsers (names_of parsers vs) zone rs
unfolding check_all
check_all-MacsDistinct parsers zone views services records vs ss rs new h =
    elim (Checked-cases (check_views parsers views)) [
      | inl (e, p) ↦ absurd (ground arith)
      | inr (vs', p) ↦
          let known = names_of parsers vs' in
          elim (Checked-cases (check_services parsers known zone [] services)) [
            | inl (e, q) ↦ absurd (ground arith)
            | inr (ss', q) ↦ elim (Checked-cases (check_records parsers known zone records)) [
              | inl (e, r) ↦ absurd (ground arith)
              | inr (rs', r) ↦
                  let same_views : vs' ≡ vs = ground arith in
                  let same : ss' ≡ ss = ground arith in
                  let same_records : rs' ≡ rs = ground arith in
                  let (valid, distinct) =
                    check_services-Distinct parsers known zone [] services ss' new tt tt q in
                  let names : known ≡ names_of parsers vs = ap (names_of parsers) same_views in
                  (
                    subst (AllViews parsers) same_views (check_views-AllViews parsers views vs' p),
                    subst (λ (k : List Bytes). AllServices parsers k zone ss) names
                        (subst (AllServices parsers known zone) same valid),
                    subst MacsDistinct same distinct,
                    subst (λ (k : List Bytes). AllRecords parsers k zone rs) names
                        (subst (AllRecords parsers known zone) same_records
                          (check_records-AllRecords parsers known zone records rs' r)),
                  )
            ]
          ]
    ]
