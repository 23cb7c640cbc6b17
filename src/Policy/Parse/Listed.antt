-- ===== src/Policy/Parse/Listed.antt =====
-- What internal/policy/parse.go lets into a list.
use kydns_server.Prelude.{
  ℕ, suc, ◌+◌, ◌≤◌, ◌≡◌, inl, inr, refl, subst, false, ◌||◌, some, List, [], ◌∷◌, ◌==◌, nat_eq,
  string_eq, leb, ltb, length, arith, Bool-cases, Option-cases,
}
use kydns_server.Text.{Bytes, bytes_eq, bytes, trim_space, has_prefix, split}
use kydns_server.Policy.Normalize.{Names, normalize}
use kydns_server.Policy.Set.{member}
use kydns_server.Zone.Matcher.{insert_text, sort_texts}
use kydns_server.Text.{text_less}
use kydns_server.Policy.Parse.{
  ParseResult, Progress, local_names, line_domains, accept, add_names, add_line, skip, read_line,
  read_lines, parse_limit, valid_format, max_line_bytes,
}

-- The canonical form of some text, and no local name.
abbrev pub IsListed : Names → Bytes → Type 0
IsListed names n = (text : Bytes) × (normalize names text ≡ some n) × (member n local_names ≡ false)

abbrev pub AllListed : Names → List Bytes → Type 0
AllListed names [] = Unit {0}
AllListed names (n ∷ ns) = IsListed names n × AllListed names ns

insert_text-AllListed :
    (names : Names) (n : Bytes) (ns : List Bytes)
    → IsListed names n
    → AllListed names ns
    → AllListed names (insert_text n ns) × (length (insert_text n ns) ≡ suc (length ns))
unfolding insert_text
insert_text-AllListed names n [] h v = ((h, tt), refl)
insert_text-AllListed names n (m ∷ ms) h v = elim (Bool-cases (text_less m n)) [
  | inl before ↦
      let (rest, count) = insert_text-AllListed names n ms h v.1 in
      rw (before, insert_text) ((v.0, rest), omega (arith, count))
  | inr after ↦ rw (after, insert_text) ((h, v), refl)
]

sort_texts-AllListed :
    (names : Names) (ns : List Bytes)
    → AllListed names ns
    → AllListed names (sort_texts ns) × (length (sort_texts ns) ≡ length ns)
unfolding sort_texts
sort_texts-AllListed names [] v = (tt, refl)
sort_texts-AllListed names (n ∷ ns) v =
    let (rest, count) = sort_texts-AllListed names ns v.1 in
    let (all, grown) = insert_text-AllListed names n (sort_texts ns) v.0 rest in
    (all, omega (arith, grown, count))

module _ (names : Names) (format : Bytes) (max : ℕ) where
  accept-IsListed : (name n : Bytes) → accept names format max name ≡ some n → IsListed names n
  unfolding accept
  accept-IsListed name n h = (name, ground arith, ground arith)

  -- The ceiling and the names, while the list grows.
  abbrev Within : List Bytes → Type 0
  Within seen = AllListed names seen × (length seen ≤ max)

  add_names-Within :
      (found seen : List Bytes) (added : ℕ) (seen' : List Bytes) (added' : ℕ)
      → Within seen
      → add_names names format max found seen added ≡ some (seen', added')
      → Within seen'
  unfolding add_names
  add_names-Within [] seen added seen' added' v h =
      let p : seen ≡ seen' = ground arith in subst Within p v
  add_names-Within (name ∷ more) seen added seen' added' v h =
      elim (Option-cases (accept names format max name)) [
        | inl e ↦ add_names-Within more seen added seen' added' v (ground arith)
        | inr (n, e) ↦ elim (Bool-cases (member n seen)) [
          | inl old ↦ add_names-Within more seen (added + 1) seen' added' v (ground arith)
          | inr new ↦ elim (Bool-cases (ltb max (suc (length seen)))) [
            | inl full ↦ absurd (ground arith)
            | inr room ↦
                add_names-Within more (n ∷ seen) (added + 1) seen' added'
                  ((accept-IsListed name n e, v.0), ground arith) (ground arith)
          ]
        ]
      ]

  add_line-Within :
      (found : List Bytes) (p q : Progress)
      → Within p.seen
      → add_line names format max found p ≡ some q
      → Within q.seen
  unfolding add_line
  add_line-Within found p q v h = elim (Option-cases (add_names names format max found p.seen 0)) [
    | inl e ↦ absurd (ground arith)
    | inr (out, e) ↦
        let same : out.0 ≡ q.seen = ground arith in
        subst Within same (add_names-Within found p.seen 0 out.0 out.1 v e)
  ]

  kept-Within : (p q : Progress) → Within p.seen → p.seen ≡ q.seen → Within q.seen
  kept-Within p q v same = subst Within same v

  read_line-Within :
      (raw : Bytes) (p q : Progress)
      → Within p.seen
      → read_line names format max raw p ≡ some q
      → Within q.seen
  unfolding read_line
  read_line-Within raw p q v h =
      let line = trim_space raw in
      elim (Bool-cases (line == [] || has_prefix line (bytes "#") || has_prefix line (bytes "!"))) [
        | inl comment ↦ kept-Within p q v (ground arith)
        | inr told ↦ elim (Option-cases (line_domains line format)) [
          | inl e ↦ kept-Within p q v (ground arith)
          | inr (found, e) ↦ found_line found e told
        ]
      ]
    where
      found_line :
          (found : List Bytes)
          → line_domains (trim_space raw) format ≡ some found
          → (trim_space raw == []
              || has_prefix (trim_space raw) (bytes "#")
              || has_prefix (trim_space raw) (bytes "!"))
            ≡ false
          → Within q.seen
      found_line [] e told = kept-Within p q v (ground arith)
      found_line (name ∷ more) e told = add_line-Within (name ∷ more) p q v (ground arith)

  read_lines-Within :
      (lines : List Bytes) (p q : Progress)
      → Within p.seen
      → read_lines names format max lines p ≡ some q
      → Within q.seen
  unfolding read_lines
  read_lines-Within [] p q v h = kept-Within p q v (ground arith)
  read_lines-Within (raw ∷ more) p q v h = elim (Bool-cases (leb max_line_bytes (length raw))) [
    | inl long ↦ read_lines-Within more (skip names format max p) q v (ground arith)
    | inr fits ↦ elim (Option-cases (read_line names format max raw p)) [
      | inl e ↦ absurd (ground arith)
      | inr (p', e) ↦ read_lines-Within more p' q (read_line-Within raw p p' v e) (ground arith)
    ]
  ]

-- A list that parses holds at most as many domains as the ceiling allows, each the canonical form of
-- a text and none of them a name of the local host.
pub parse_limit-AllListed :
    (names : Names) (format : Bytes) (max : ℕ) (body : Bytes) (res : ParseResult)
    → parse_limit names format max body ≡ some res
    → AllListed names res.domains × (length res.domains ≤ max)
unfolding parse_limit
parse_limit-AllListed names format max body res h =
    let start : Progress = record { seen = []; skipped = 0 } in
    elim (Bool-cases (valid_format format)) [
      | inr unknown ↦ absurd (ground arith)
      | inl known ↦ elim (Option-cases (read_lines names format max (split 10 body) start)) [
        | inl e ↦ absurd (ground arith)
        | inr (p, e) ↦
            let (all, few) =
              read_lines-Within names format max (split 10 body) start p (tt, omega arith) e in
            let (sorted, count) = sort_texts-AllListed names p.seen all in
            let same : sort_texts p.seen ≡ res.domains = ground arith in
            subst (λ (ns : List Bytes). AllListed names ns × (length ns ≤ max)) same
              (sorted, omega (arith, few, count))
      ]
    ]
