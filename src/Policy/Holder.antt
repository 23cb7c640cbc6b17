-- ===== src/Policy/Holder.antt =====
-- internal/policy/holder.go: the live policy and its counters. The locks and atomics make each
-- method one step. Counters are 64-bit.
use kydns_server.Prelude.{
  ℕ, suc, ◌+◌, ◌≤◌, ◌%◌, ◌^◌, ◌≡◌, inl, inr, refl, ap, ◌∙◌, Bool, true, false, ◌||◌, ◌&&◌, Option,
  none, some, List, [], ◌∷◌, ◌==◌, arith, nat_eq, if◌then◌else◌, Option-cases, ltb, Map, lookup,
  insert, size, size-delete-le, size-delete-lt, lookup-insert,
}
use kydns_server.Text.{Bytes, bytes_eq}
use kydns_server.Policy.Normalize.{Names}
use kydns_server.Policy.Snapshot.{
  BlacklistSettings, BlacklistList, BlacklistRule, Snapshot, Decision, build, decide,
}

pub record Holder : Type 0 where
  pub cur : Option Snapshot
  pub blocked : ℕ
  pub by_list : Map Bytes ℕ
  pub by_name : Map Bytes ℕ

unfoldable pub new_holder : Holder
new_holder = record { cur = none; blocked = 0; by_list = []; by_name = [] }

abbrev pub max_tracked_names : ℕ
max_tracked_names = 2000

-- What a Source returns, or an error.
abbrev pub Inputs : Type 0
Inputs = Option (BlacklistSettings × List BlacklistList × List BlacklistRule)

-- Rebuild; the Boolean is false for an error.
unfoldable pub rebuild : Holder → Inputs → Holder × Bool
rebuild h none = (h, false)
rebuild h (some (s, lists, rules)) = (record h { cur = some (build s lists rules) }, true)

-- m[k], where a missing key reads as 0
abbrev pub count_at : Bytes → Map Bytes ℕ → ℕ
count_at k m = elim (lookup k m) [ none ↦ 0 | some n ↦ n ]

-- m[k]++
unfoldable pub bump : Bytes → Map Bytes ℕ → Map Bytes ℕ
bump k m = insert k ((count_at k m + 1) % 2 ^ 64) m

abbrev known : Bytes → Map Bytes ℕ → Bool
known k m = elim (lookup k m) [ none ↦ false | some _ ↦ true ]

unfoldable pub bump_name : Bytes → Map Bytes ℕ → Map Bytes ℕ
bump_name name m = if known name m || ltb (size m) max_tracked_names then bump name m else m

unfoldable pub record_block : Holder → Decision → Holder
record_block h d =
    if d.blocked
    then record h {
      blocked = (h.blocked + 1) % 2 ^ 64;
      by_list = bump d.policy h.by_list;
      by_name = bump_name d.name h.by_name;
    }
    else h

-- Decide
unfoldable pub decide_counted : Names → Holder → Bytes → Holder × Decision
decide_counted names h name = let d = decide names h.cur name in (record_block h d, d)

-- The queries of a period between two rebuilds.
unfoldable pub serve : Names → Holder → List Bytes → Holder
serve names h [] = h
serve names h (name ∷ rest) = serve names (decide_counted names h name).0 rest

size-insert-le : (k : Bytes) (n : ℕ) (m : Map Bytes ℕ) → size (insert k n m) ≤ suc (size m)
unfolding insert size
size-insert-le k n m = omega (arith, size-delete-le k m)

size-insert_known :
    (k : Bytes) (n v : ℕ) (m : Map Bytes ℕ) → lookup k m ≡ some v → size (insert k n m) ≤ size m
unfolding insert size
size-insert_known k n v m h = size-delete-lt k m v h

size-bump_name-le :
    (name : Bytes) (m : Map Bytes ℕ) → size m ≤ max_tracked_names → size (bump_name name m) ≤ 2000
unfolding bump_name bump
size-bump_name-le name m h = elim (Option-cases (lookup name m)) [
  | inl e ↦ ground (arith, size-insert-le name ((count_at name m + 1) % 2 ^ 64) m)
  | inr (v, e) ↦ ground (arith, size-insert_known name ((count_at name m + 1) % 2 ^ 64) v m e)
]

-- However many names are queried, at most 2000 of them are tracked.
pub serve_bounded :
    (names : Names) (h : Holder) (queries : List Bytes)
    → size h.by_name ≤ max_tracked_names
    → size (serve names h queries).by_name ≤ 2000
unfolding serve decide_counted record_block
serve_bounded names h [] b = b
serve_bounded names h (q ∷ qs) b =
    serve_bounded names (decide_counted names h q).0 qs
      (ground (arith, size-bump_name-le (decide names h.cur q).name h.by_name b))

-- How many of the queries the snapshot blocks under the policy `p`.
unfoldable pub blocked_under : Names → Option Snapshot → Bytes → List Bytes → ℕ
blocked_under names cur p [] = 0
blocked_under names cur p (q ∷ qs) =
    let rest = blocked_under names cur p qs in
    let d = decide names cur q in if d.blocked && d.policy == p then suc rest else rest

record_block_count :
    (h : Holder) (d : Decision) (p : Bytes)
    → count_at p (record_block h d).by_list ≡ (
        if d.blocked && d.policy == p
        then (count_at p h.by_list + 1) % 2 ^ 64
        else count_at p h.by_list)
unfolding record_block bump
record_block_count h d p =
    ground (arith, lookup-insert p d.policy ((count_at d.policy h.by_list + 1) % 2 ^ 64) h.by_list)

record_block_cur : (h : Holder) (d : Decision) → (record_block h d).cur ≡ h.cur
unfolding record_block
record_block_cur h d = ground arith

count_step :
    (t : Bool) (x n : ℕ)
    → ((if t then (x + 1) % 2 ^ 64 else x) + n) % 2 ^ 64 ≡ (x + (if t then suc n else n)) % 2 ^ 64
count_step true x n = omega arith
count_step false x n = refl

-- The counter of a list grows, modulo 2^64, by the number of queries that the snapshot blocks
-- under that list.
pub serve_counts :
    (names : Names) (h : Holder) (queries : List Bytes) (p : Bytes)
    → count_at p (serve names h queries).by_list % 2 ^ 64
      ≡ (count_at p h.by_list + blocked_under names h.cur p queries) % 2 ^ 64
unfolding serve decide_counted blocked_under
serve_counts names h [] p = omega arith
serve_counts names h (q ∷ qs) p =
    let d = decide names h.cur q in
    let t = d.blocked && d.policy == p in
    let rest = λ (c : Option Snapshot). blocked_under names c p qs in
    let at = record_block_count h d p in
    serve_counts names (record_block h d) qs p
    ∙ ap (λ (x : ℕ). (x + rest (record_block h d).cur) % 2 ^ 64) at
    ∙ ap
        (λ (c : Option Snapshot).
          ((if t then (count_at p h.by_list + 1) % 2 ^ 64 else count_at p h.by_list) + rest c)
          % 2 ^ 64)
        (record_block_cur h d)
    ∙ count_step t (count_at p h.by_list) (rest h.cur)
