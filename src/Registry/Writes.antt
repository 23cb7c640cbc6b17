-- ===== src/Registry/Writes.antt =====
-- internal/registry: what PutService, PutRecord, PutView and ReplaceAll let through to the store.
pub mod Records
pub mod Unique
mod Tests
use kydns_server.Prelude.{
  ℕ, zero, suc, ◌+◌, ◌-◌, ◌*◌, ◌/◌, ◌%◌, ◌^◌, ◌≤◌, ◌<◌, ◌≡◌, ◌≢◌, ◌↔◌, ◌⊎◌, inl, inr, refl, sym, ap,
  ◌∙◌, subst, String, Bool, true, false, ◌||◌, ◌&&◌, not, Option, none, some, List, [], ◌∷◌, ◌++◌,
  map, ◌==◌, Eq, nat_eq, string_eq, same_text, leb, ltb, if◌then◌else◌, length, is_empty, Map,
  lookup, insert, delete, size, lookup-insert, lookup-delete, arith, Bool-cases, Option-cases,
}
use kydns_server.Text.{
  Bytes, bytes_eq, bytes, to_lower, trim_space, trim_last, has_prefix, has_suffix, contains_byte,
  split, join, trim_suffix,
}
use kydns_server.Text.{to_upper}
use kydns_server.Registry.Validate.{ValidationError, normalize_fqdn, validate_label, validate_name}

pub data WriteError : Type 0 where
  bad_name : ValidationError → WriteError
  addresses_required view_unknown address_invalid proxy_address_invalid proxy_address_required :
      WriteError
  mac_malformed mac_duplicate type_unsupported ptr_not_arpa view_name_invalid subnets_required
        cidr_invalid :
      WriteError

pub data Checked (A : Type 0) : Type 0 where
  ok : A → Checked A
  err : WriteError → Checked A

infixl 5 ◌>>=◌
abbrev pub ◌>>=◌ : {A B : Type 0} → Checked A → (A → Checked B) → Checked B
ok a >>= f = f a
err e >>= f = err e

-- `if` a rule fails, its error.
abbrev pub require : {A : Type 0} → Bool → WriteError → Checked A → Checked A
require b e r = if b then r else err e

-- Code that is not the program's: `netip.ParseAddr`, `net.ParseMAC` with the text and the length of
-- what it gives, and `netip.ParsePrefix` with the text of the masked prefix.
pub record Parsers : Type 0 where
  pub is_address : Bytes → Bool
  pub parse_mac : Bytes → Option (Bytes × ℕ)
  pub parse_cidr : Bytes → Option Bytes

pub record Address : Type 0 where
  pub address : Bytes
  pub view : Bytes

pub record Service : Type 0 where
  pub id : ℕ
  pub name : Bytes
  pub addresses : List Address
  pub aliases : List Bytes
  pub check_url : Bytes
  pub check_insecure : Bool
  pub proxy_address : Bytes
  pub route_via_proxy : Bool
  pub mac : Bytes

pub record Record : Type 0 where
  pub name : Bytes
  pub rrtype : Bytes
  pub value : Bytes
  pub view : Bytes

pub record View : Type 0 where
  pub name : Bytes
  pub subnets : List Bytes

-- `known[name]`
unfoldable pub is_known : Bytes → List Bytes → Bool
is_known v [] = false
is_known v (k ∷ ks) = k == v || is_known v ks

abbrev pub lowered : Bytes → Bytes
lowered s = to_lower (trim_space s)

-- ValidateName of a label in the zone.
unfoldable pub check_name : Bytes → Bytes → Checked Bytes
check_name name zone = elim (validate_name (name ++ b'.' ∷ zone) zone) [
  | some e ↦ err (bad_name e)
  | none ↦ ok name
]

unfoldable pub check_aliases : Bytes → List Bytes → Checked (List Bytes)
check_aliases zone [] = ok []
check_aliases zone (a ∷ as') =
    let rest = check_aliases zone as' in
    check_name (lowered a) zone >>= λ alias. rest >>= λ aliases. ok (alias ∷ aliases)

module _ (parsers : Parsers) where
  unfoldable pub check_addresses : List Bytes → List Address → Checked (List Address)
  check_addresses known [] = ok []
  check_addresses known (a ∷ as') =
      let rest = check_addresses known as' in
      require (parsers.is_address a.address) address_invalid (
        require (a.view == [] || is_known a.view known) view_unknown
          (rest >>= λ addresses. ok (a ∷ addresses)))

  -- ValidateMAC
  unfoldable pub valid_mac : Bytes → Bool
  valid_mac s =
      let t = trim_space s in
      if t == []
      then true
      else elim (parsers.parse_mac t) [ none ↦ false | some (_, octets) ↦ octets == 6 ]

  -- NormalizeMAC
  unfoldable pub canonical_mac : Bytes → Bytes
  canonical_mac s =
      let t = trim_space s in
      elim (parsers.parse_mac t) [ some (text, _) ↦ text | none ↦ to_lower t ]

  -- What of a service is checked after its addresses.
  unfoldable pub check_proxy : Service → Checked Bytes
  check_proxy svc =
      let proxy = trim_space svc.proxy_address in
      require (proxy == [] || parsers.is_address proxy) proxy_address_invalid
        (require (not (svc.route_via_proxy && proxy == [])) proxy_address_required (ok proxy))

  unfoldable pub validate_service : List Bytes → Bytes → Service → Checked Service
  validate_service known zone svc = check_name (lowered svc.name) zone >>= λ name.
      require (not (is_empty svc.addresses)) addresses_required (
        check_addresses known svc.addresses >>= λ addresses. check_proxy svc >>= λ proxy.
        check_aliases zone svc.aliases >>= λ aliases. require (valid_mac svc.mac) mac_malformed (
          ok (record svc {
            name = name;
            addresses = addresses;
            proxy_address = proxy;
            aliases = aliases;
            mac = canonical_mac svc.mac;
          })))

  -- The switch of validateRecord: the value of the record.
  unfoldable pub check_value : Bytes → Bytes → Bytes → Bytes → Checked Bytes
  check_value zone name rrtype value =
      if rrtype == bytes "A" || rrtype == bytes "AAAA"
      then elim (validate_name name zone) [
        | some e ↦ err (bad_name e)
        | none ↦ require (parsers.is_address value) address_invalid (ok value)
      ]
      else if rrtype == bytes "CNAME"
      then elim (validate_name name zone) [
        | some e ↦ err (bad_name e)
        | none ↦ ok (normalize_fqdn value)
      ]
      else require
          (has_suffix name (bytes ".in-addr.arpa.") || has_suffix name (bytes ".ip6.arpa."))
          ptr_not_arpa (ok (normalize_fqdn value))

  abbrev pub record_type : Bytes → Bool
  record_type t = t == bytes "A" || t == bytes "AAAA" || t == bytes "CNAME" || t == bytes "PTR"

  unfoldable pub validate_record : List Bytes → Bytes → Record → Checked Record
  validate_record known zone rec =
      let name = normalize_fqdn rec.name in
      let rrtype = to_upper (trim_space rec.rrtype) in
      require (record_type rrtype) type_unsupported (
        check_value zone name rrtype rec.value >>= λ value.
        require (rec.view == [] || is_known rec.view known) view_unknown
          (ok (record { name = name; rrtype = rrtype; value = value; view = rec.view })))

  unfoldable pub check_subnets : List Bytes → Checked (List Bytes)
  check_subnets [] = ok []
  check_subnets (c ∷ cs) =
      let rest = check_subnets cs in
      elim (parsers.parse_cidr c) [
        | none ↦ err cidr_invalid
        | some text ↦ rest >>= λ subnets. ok (text ∷ subnets)
      ]

  unfoldable pub validate_view : View → Checked View
  validate_view v =
      let name = lowered v.name in
      elim (validate_label name) [
        | some e ↦ err view_name_invalid
        | none ↦
            require (not (is_empty v.subnets)) subnets_required (
              check_subnets v.subnets >>= λ subnets. ok (record { name = name; subnets = subnets }))
      ]

  -- The loop of macUnique.
  unfoldable pub mac_taken : Service → List Service → Bool
  mac_taken svc [] = false
  mac_taken svc (o ∷ os) =
      (o.mac == svc.mac && (svc.id == 0 || not (o.id == svc.id))) || mac_taken svc os

  -- macUnique
  unfoldable pub mac_clashes : Service → List Service → Bool
  mac_clashes svc others = not (svc.mac == []) && mac_taken svc others

  -- What PutService hands to the store, whose services are the last argument.
  unfoldable pub put_service : List Bytes → Bytes → Service → List Service → Checked Service
  put_service known zone svc stored = validate_service known zone svc >>= λ checked.
      require (not (mac_clashes checked stored)) mac_duplicate (ok checked)

  -- The loops of ReplaceAll, with what they have collected.
  unfoldable pub check_views : List View → Checked (List View)
  check_views [] = ok []
  check_views (v ∷ vs) =
      let rest = check_views vs in
      validate_view v >>= λ checked. rest >>= λ views. ok (checked ∷ views)

  unfoldable pub check_services :
      List Bytes → Bytes → List Service → List Service → Checked (List Service)
  check_services known zone done [] = ok done
  check_services known zone done (svc ∷ svcs) = validate_service known zone svc >>= λ checked.
      require (not (mac_clashes checked done)) mac_duplicate
        (check_services known zone (done ++ checked ∷ []) svcs)

  unfoldable pub check_records : List Bytes → Bytes → List Record → Checked (List Record)
  check_records known zone [] = ok []
  check_records known zone (r ∷ rs) =
      let rest = check_records known zone rs in
      validate_record known zone r >>= λ checked. rest >>= λ records. ok (checked ∷ records)

  abbrev pub names_of : List View → List Bytes
  names_of [] = []
  names_of (v ∷ vs) = v.name ∷ names_of vs

  -- What ReplaceAll hands to the store.
  unfoldable pub check_all :
      Bytes
      → List View
      → List Service
      → List Record
      → Checked (List View × List Service × List Record)
  check_all zone views services records = check_views views >>= λ vs.
      check_services (names_of vs) zone [] services >>= λ ss.
      check_records (names_of vs) zone records >>= λ rs. ok (vs, ss, rs)
