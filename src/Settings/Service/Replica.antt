-- ===== src/Settings/Service/Replica.antt =====
-- What Set of internal/settings/settings.go may change on a replica.
use kydns_server.Prelude.{
  ◌≡◌, inl, inr, refl, sym, ap, ◌∙◌, subst, Bool, true, none, some, ◌==◌, nat_eq, string_eq, arith,
  Bool-cases, Option-cases,
}
use kydns_server.Text.{Bytes, bytes_eq}
use kydns_server.Settings.Model.{Settings, settings_eq, with_dhcp_of, without_dhcp}
use kydns_server.Settings.Validate.{Library, validate_write}
use kydns_server.Settings.Service.{
  Service, rebuild, running, apply_rebuilt, put_dhcp, set_dhcp_only, set,
}

-- The rows agree outside the DHCP fields, and the records are the same.
abbrev pub KeepsShared : Service → Service → Type 0
KeepsShared s t =
    ((s.row ≡ none) → t.row ≡ none)
    × ((r : Settings)
        → s.row ≡ some r
        → (r' : Settings) × (t.row ≡ some r') × (without_dhcp r' ≡ without_dhcp r))
    × (t.records ≡ s.records)

KeepsShared-refl : (s : Service) → KeepsShared s s
KeepsShared-refl s = ((λ h. h), (λ r h. (r, h, refl)), refl)

rebuild-row :
    (lib : Library) (s : Service)
    → ((rebuild lib s).0.row ≡ s.row) × ((rebuild lib s).0.records ≡ s.records)
unfolding rebuild
rebuild-row lib s = (ground arith, ground arith)

apply_rebuilt-row :
    (lib : Library) (s : Service)
    → ((apply_rebuilt lib s).0.row ≡ s.row) × ((apply_rebuilt lib s).0.records ≡ s.records)
unfolding apply_rebuilt
apply_rebuilt-row lib s =
    let (row, records) = rebuild-row lib s in
    elim (Option-cases (rebuild lib s).1) [
      | inl e ↦ (ground (arith, row), ground (arith, records))
      | inr (failed, e) ↦ (ground (arith, row), ground (arith, records))
    ]

with_dhcp_of-without_dhcp : (v r : Settings) → without_dhcp (with_dhcp_of v r) ≡ without_dhcp r
unfolding without_dhcp with_dhcp_of
with_dhcp_of-without_dhcp v r = refl

put_dhcp-KeepsShared :
    (lib : Library) (writes : Bool) (v : Settings) (s : Service)
    → KeepsShared s (put_dhcp lib writes v s).0
unfolding put_dhcp
put_dhcp-KeepsShared lib writes v s = elim (Option-cases s.row) [
  | inl e ↦
      let step : (put_dhcp lib writes v s).0 ≡ s = ground arith in
      subst (KeepsShared s) (sym step) (KeepsShared-refl s)
  | inr (row, e) ↦ elim (Bool-cases writes) [
    | inr down ↦
        let step : (put_dhcp lib writes v s).0 ≡ s = ground arith in
        subst (KeepsShared s) (sym step) (KeepsShared-refl s)
    | inl up ↦
        let s' = record s { row = some (with_dhcp_of v row) } in
        let (same, records) = apply_rebuilt-row lib s' in
        let step : (put_dhcp lib writes v s).0 ≡ (apply_rebuilt lib s').0 = ground arith in
        subst (KeepsShared s) (sym step) (
          (λ h. absurd (ground arith)),
          (λ r h.
              let p : row ≡ r = ground arith in
              (with_dhcp_of v row, same, with_dhcp_of-without_dhcp v row ∙ ap without_dhcp p)),
          records,
        )
  ]
]

-- On a replica no settings write, whatever it asks for and whether it succeeds, changes a field of
-- the row that is not of DHCP, or a record.
pub set-KeepsShared :
    (lib : Library) (writes : Bool) (v : Settings) (confirm : Bytes) (s : Service)
    → KeepsShared s (set lib true writes v confirm s).0
unfolding set set_dhcp_only
set-KeepsShared lib writes v confirm s =
    elim (Bool-cases (without_dhcp (running lib s) == without_dhcp v)) [
      | inr wide ↦ rw (wide, set) (KeepsShared-refl s)
      | inl narrow ↦ elim (Option-cases (validate_write lib v (running lib s) confirm)) [
        | inr (field, e) ↦ rw (narrow, e, set) (KeepsShared-refl s)
        | inl e ↦ rw (narrow, e, set) (put_dhcp-KeepsShared lib writes v s)
      ]
    ]
