-- ===== src/Zone/Matcher.antt =====
-- internal/zone/matcher.go: from a client's address to the name of its view.
pub mod Collect
pub mod Longest
use kydns_server.Prelude.{
  ℕ, ◌+◌, Bool, true, false, ◌||◌, ◌&&◌, not, Option, none, some, List, [], ◌∷◌, ◌++◌, ◌==◌, nat_eq,
  leb, ltb, if◌then◌else◌, Map, lookup, insert, map,
}
use kydns_server.Text.{Bytes, bytes_eq, text_less}
use kydns_server.Net.{Addr, Prefix, prefix_eq, masked, contains, is_valid, unmap}

-- store.View
pub record View : Type 0 where
  pub name : Bytes
  pub subnets : List Bytes

pub record Entry : Type 0 where
  pub prefix : Prefix
  pub view : Bytes

pub record Matcher : Type 0 where
  pub entries : List Entry
  pub names : List Bytes

pub data MatcherError : Type 0 where
  bad_cidr : Bytes → Bytes → MatcherError
  claimed_by_both : Prefix → Bytes → Bytes → MatcherError

pub data Result (A : Type 0) : Type 0 where
  ok : A → Result A
  err : MatcherError → Result A

infixl 5 ◌>>=◌
abbrev pub ◌>>=◌ : {A B : Type 0} → Result A → (A → Result B) → Result B
ok a >>= f = f a
err e >>= f = err e

-- The `claimed` map and the entries so far.
pub record Collected : Type 0 where
  pub claimed : Map Prefix Bytes
  pub entries : List Entry

-- One subnet that parses to `p`.
unfoldable pub claim : Bytes → Prefix → Collected → Result Collected
claim view p c = elim (lookup p c.claimed) [
  | some other ↦ err (claimed_by_both p other view)
  | none ↦ ok (record {
    claimed = insert p view c.claimed;
    entries = c.entries ++ record { prefix = p; view = view } ∷ [];
  })
]

module _ (parse_prefix : Bytes → Option Prefix) where
  -- The inner loop of NewMatcher. `netip.ParsePrefix` is an argument.
  unfoldable pub collect_subnets : Bytes → List Bytes → Collected → Result Collected
  collect_subnets view [] c = ok c
  collect_subnets view (cidr ∷ rest) c = elim (parse_prefix cidr) [
    | none ↦ err (bad_cidr view cidr)
    | some p ↦ claim view (masked p) c >>= collect_subnets view rest
  ]

  unfoldable pub collect_views : List View → Collected → Result Collected
  collect_views [] c = ok c
  collect_views (v ∷ vs) c = do d ← collect_subnets v.name v.subnets c; collect_views vs d

-- The order of sort.Slice: longer prefixes first, then by view.
unfoldable pub entry_less : Entry → Entry → Bool
entry_less a b =
    if a.prefix.bits == b.prefix.bits
    then text_less a.view b.view
    else ltb b.prefix.bits a.prefix.bits

unfoldable pub insert_entry : Entry → List Entry → List Entry
insert_entry e [] = e ∷ []
insert_entry e (f ∷ fs) = if entry_less f e then f ∷ insert_entry e fs else e ∷ f ∷ fs

unfoldable pub sort_entries : List Entry → List Entry
unfolding insert_entry
sort_entries [] = []
sort_entries (e ∷ es) = insert_entry e (sort_entries es)

unfoldable pub insert_text : Bytes → List Bytes → List Bytes
insert_text s [] = s ∷ []
insert_text s (t ∷ ts) = if text_less t s then t ∷ insert_text s ts else s ∷ t ∷ ts

unfoldable pub sort_texts : List Bytes → List Bytes
unfolding insert_text
sort_texts [] = []
sort_texts (s ∷ ss) = insert_text s (sort_texts ss)

unfoldable pub new_matcher : (Bytes → Option Prefix) → List View → Result Matcher
new_matcher parse_prefix views = do
  c ← collect_views parse_prefix views (record { claimed = []; entries = [] })
  ok (record { entries = sort_entries c.entries; names = sort_texts (map (λ v. v.name) views) })

-- Match's loop.
unfoldable pub first_view : List Entry → Addr → Bytes
first_view [] a = []
first_view (e ∷ es) a = if contains e.prefix a then e.view else first_view es a

unfoldable pub match_view : Matcher → Addr → Bytes
match_view m a = if not (is_valid a) then [] else first_view m.entries (unmap a)
