-- ===== src/Settings/Service/Accepted.antt =====
-- A change of settings by Set of internal/settings/settings.go on a node that is no replica.
use kydns_server.Prelude.{
  [], ◌∷◌, ◌≢◌, map, ◌≡◌, ◌⊎◌, inl, inr, refl, sym, subst, Bool, true, false, Option, none, some,
  List, nat_eq, string_eq, arith, Bool-cases, Option-cases,
}
use kydns_server.Text.{Bytes, bytes_eq, bytes}
use kydns_server.Net.{Prefix}
use kydns_server.Upstream.Parse.{parse_all}
use kydns_server.Upstream.Parse.Specs.{Result-cases}
use kydns_server.Settings.Model.{Settings}
use kydns_server.Settings.Rename.{zone_suffix, or_same, rename_in_zone, rename_record}
use kydns_server.Settings.Rename.Moves.{Moves, rename_in_zone-Moves}
use kydns_server.Zone.Index.{Record}
use kydns_server.Settings.Validate.{Library, canonicalize, validate_write, public_prefixes}
use kydns_server.Settings.Validate.Sound.{IsSound, AllConfirmed, validate_write-AllConfirmed}
use kydns_server.Settings.Service.{
  Snapshot, SetError, bad_field, not_written, Service, Built, rejected, built, parse_prefixes,
  build_upstreams, allowed_texts, build, running, write_row, publish, set_checked, set,
}

-- A record afterwards: its name has moved, and its value too if it is a name.
abbrev pub RecordMoved : Bytes → Bytes → Record → Record → Type 0
RecordMoved from to old new =
    Moves from to old.name new.name
    × (((old.rrtype ≡ bytes "CNAME") ⊎ (old.rrtype ≡ bytes "PTR"))
        → Moves from to old.value new.value)
    × ((old.rrtype ≢ bytes "CNAME") → (old.rrtype ≢ bytes "PTR") → new.value ≡ old.value)
    × (new.rrtype ≡ old.rrtype)
    × (new.view ≡ old.view)

abbrev pub AllMoved : Bytes → Bytes → List Record → List Record → Type 0
AllMoved from to [] [] = Unit {0}
AllMoved from to (o ∷ os) (n ∷ ns) = RecordMoved from to o n × AllMoved from to os ns
AllMoved from to [] (_ ∷ _) = ⊥
AllMoved from to (_ ∷ _) [] = ⊥

-- The change has been made everywhere: the canonical form of it is in the row, the running snapshot
-- is built from that and was handed on, the settings are sound and confirmed, and where the private
-- zone has changed the manual records have moved to the new one.
pub record IsAccepted (lib : Library) (writes : Bool) (v : Settings) (confirm : Bytes) (s : Service)
    (out : Service × Option SetError) : Type 0 where
  pub succeeded : out.1 ≡ none
  pub written : writes ≡ true
  pub row : out.0.row ≡ some (canonicalize lib v)
  pub snap : Snapshot
  pub from : build lib (canonicalize lib v) ≡ built snap
  pub raw : snap.raw ≡ canonicalize lib v
  pub runs : out.0.cur ≡ some snap
  pub applied : out.0.applied ≡ some snap
  pub moved :
      (zone_suffix (running lib s).private_domain ≢ [])
      → (zone_suffix (running lib s).private_domain
          ≢ zone_suffix (canonicalize lib v).private_domain)
      → AllMoved
          (zone_suffix (zone_suffix (running lib s).private_domain))
          (zone_suffix (zone_suffix (canonicalize lib v).private_domain))
          s.records
          out.0.records
  pub stayed :
      ((zone_suffix (running lib s).private_domain ≡ [])
        ⊎ (zone_suffix (running lib s).private_domain
            ≡ zone_suffix (canonicalize lib v).private_domain))
      → out.0.records ≡ s.records
  pub sound : IsSound lib v
  pub confirmed :
      AllConfirmed
        (public_prefixes lib (running lib s).allow_query)
        confirm
        (public_prefixes lib v.allow_query)

Built-cases :
    (b : Built) → ((field : Bytes) × (b ≡ rejected field)) ⊎ ((snap : Snapshot) × (b ≡ built snap))
Built-cases (rejected field) = inl (field, refl)
Built-cases (built snap) = inr (snap, refl)

module _ (lib : Library) where
  build_upstreams-raw :
      (v : Settings) (allow reverse : List Prefix) (snap : Snapshot)
      → build_upstreams lib v allow reverse ≡ built snap
      → snap.raw ≡ v
  unfolding build_upstreams
  build_upstreams-raw v allow reverse snap h = elim (Result-cases (parse_all lib.net v.upstreams)) [
    | inl (e, p) ↦ absurd (ground arith)
    | inr (specs, p) ↦ ground arith
  ]

  pub build-raw : (v : Settings) (snap : Snapshot) → build lib v ≡ built snap → snap.raw ≡ v
  unfolding build
  build-raw v snap h = elim (Option-cases (parse_prefixes lib.parse_prefix (allowed_texts lib v))) [
    | inl e ↦ absurd (ground arith)
    | inr (allow, e) ↦ elim (Option-cases (parse_prefixes lib.parse_prefix v.reverse_zones)) [
      | inl e' ↦ absurd (ground arith)
      | inr (reverse, e') ↦ build_upstreams-raw v allow reverse snap (ground arith)
    ]
  ]

  publish-row :
      (snap : Snapshot) (v : Settings) (s : Service)
      → ((publish lib snap (write_row lib v s)).row ≡ some v)
        × ((publish lib snap (write_row lib v s)).cur ≡ some snap)
        × ((publish lib snap (write_row lib v s)).applied ≡ some snap)
  unfolding publish write_row
  publish-row snap v s = (ground arith, refl, refl)

rename_record-RecordMoved :
    (from to : Bytes) (r : Record) → RecordMoved from to r (rename_record from to r)
unfolding rename_record
rename_record-RecordMoved from to r =
    let moved = or_same r.value (rename_in_zone r.value from to) in
    (
      rename_in_zone-Moves r.name from to,
      (λ h.
          let same : (rename_record from to r).value ≡ moved = ground arith in
          subst (Moves from to r.value) (sym same) (rename_in_zone-Moves r.value from to)),
      (λ h k. ground arith),
      refl,
      refl,
    )

map-AllMoved :
    (from to : Bytes) (rs : List Record) → AllMoved from to rs (map (rename_record from to) rs)
map-AllMoved from to [] = tt
map-AllMoved from to (r ∷ rs) = (rename_record-RecordMoved from to r, map-AllMoved from to rs)

module _ (lib : Library) (v : Settings) (s : Service) (snap : Snapshot) where
  abbrev old_zone : Bytes
  old_zone = zone_suffix (running lib s).private_domain

  abbrev new_zone : Bytes
  new_zone = zone_suffix v.private_domain

  write_row-moved :
      old_zone ≢ []
      → old_zone ≢ new_zone
      → AllMoved
          (zone_suffix old_zone)
          (zone_suffix new_zone)
          s.records
          (publish lib snap (write_row lib v s)).records
  unfolding write_row publish
  write_row-moved named changed =
      let step : (publish lib snap (write_row lib v s)).records
          ≡ map (rename_record (zone_suffix old_zone) (zone_suffix new_zone)) s.records =
        ground arith in
      subst (AllMoved (zone_suffix old_zone) (zone_suffix new_zone) s.records) (sym step)
        (map-AllMoved (zone_suffix old_zone) (zone_suffix new_zone) s.records)

  write_row-stayed :
      ((old_zone ≡ []) ⊎ (old_zone ≡ new_zone))
      → (publish lib snap (write_row lib v s)).records ≡ s.records
  unfolding write_row publish
  write_row-stayed (inl unnamed) = ground arith
  write_row-stayed (inr same) = ground arith

-- Set on a node that is no replica does all or nothing. Either it returns an error and changes
-- nothing at all, or it returns none, and then the database took the write, the canonical form of the
-- settings is in the row, the running snapshot is built from it and was handed on, the settings are
-- sound, and each prefix beyond the private ranges was retyped or ran before. The manual records
-- stay if the running private zone is empty or the same; otherwise each name of a record, and each
-- value that is a name, has moved: the old zone itself is now the new one, what was below it keeps
-- what stands before the zone, and any other name and all else is as it was.
pub set-IsAccepted :
    (lib : Library) (writes : Bool) (v : Settings) (confirm : Bytes) (s : Service)
    → ((e : SetError) × (set lib false writes v confirm s ≡ (s, some e)))
      ⊎ IsAccepted lib writes v confirm s (set lib false writes v confirm s)
unfolding set set_checked
set-IsAccepted lib writes v confirm s =
    let c = canonicalize lib v in
    elim (Option-cases (validate_write lib v (running lib s) confirm)) [
      | inr (field, e) ↦ inl (bad_field field, ground arith)
      | inl e ↦ elim (Built-cases (build lib c)) [
        | inl (field, b) ↦ inl (bad_field field, ground arith)
        | inr (snap, b) ↦ elim (Bool-cases writes) [
          | inr down ↦ inl (not_written, ground arith)
          | inl up ↦
              let (sound, confirmed) =
                validate_write-AllConfirmed lib v (running lib s) confirm e in
              let (row, runs, applied) = publish-row lib snap c s in
              let step : set lib false writes v confirm s
                  ≡ (publish lib snap (write_row lib c s), none) =
                ground arith in
              inr (
                subst (IsAccepted lib writes v confirm s) (sym step) (record {
                  succeeded = refl;
                  written = up;
                  row = row;
                  snap = snap;
                  from = b;
                  raw = build-raw lib c snap b;
                  runs = runs;
                  applied = applied;
                  moved = write_row-moved lib c s snap;
                  stayed = write_row-stayed lib c s snap;
                  sound = sound;
                  confirmed = confirmed;
                }))
        ]
      ]
    ]
