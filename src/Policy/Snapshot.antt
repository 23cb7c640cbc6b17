-- ===== src/Policy/Snapshot.antt =====
-- internal/policy/snapshot.go: what a set of lists and rules says of one forwarded name.
pub mod Precedence
use kydns_server.Prelude.{
  ℕ, zero, suc, ◌+◌, ◌<◌, ◌≤◌, ◌%◌, ◌^◌, ◌≡◌, ◌≢◌, ◌↔◌, ◌⊎◌, inl, inr, refl, sym, ap, ◌∙◌, Bool,
  true, false, ◌||◌, ◌&&◌, not, Option, none, some, List, [], ◌∷◌, ◌++◌, ◌==◌, arith, nat_eq,
  is_empty, if◌then◌else◌, Bool-cases, Option-cases, length, subst, leb, ltb,
}
use kydns_server.Text.{Bytes, bytes_eq, bytes}
use kydns_server.Policy.Set.{Set, new_set, matches}
use kydns_server.Policy.Normalize.{Names, normalize}

-- The fields of store.BlacklistSettings, store.BlacklistList and store.BlacklistRule that the
-- policy reads. A block TTL that is not positive is 0 here.
pub record BlacklistSettings : Type 0 where
  pub enabled : Bool
  pub block_ttl : ℕ

pub record BlacklistList : Type 0 where
  pub name : Bytes
  pub enabled : Bool
  pub snapshot : List Bytes

pub record BlacklistRule : Type 0 where
  pub kind : Bytes
  pub domain : Bytes

abbrev pub policy_forwarded : Bytes
policy_forwarded = bytes "forwarded"

abbrev pub policy_allow : Bytes
policy_allow = bytes "allow"

abbrev pub policy_deny : Bytes
policy_deny = bytes "deny"

abbrev pub default_block_ttl : ℕ
default_block_ttl = 60

pub record Decision : Type 0 where
  pub blocked : Bool
  pub policy : Bytes
  pub ttl : ℕ
  pub name : Bytes

pub record NamedSet : Type 0 where
  pub name : Bytes
  pub set : Set

pub record Snapshot : Type 0 where
  pub enabled : Bool
  pub ttl : ℕ
  pub deny : Set
  pub allow : Set
  pub lists : List NamedSet

-- The loop over the rules, for one of the two kinds.
unfoldable pub domains_of : Bytes → List BlacklistRule → List Bytes
domains_of kind [] = []
domains_of kind (r ∷ rs) =
    let rest = domains_of kind rs in if r.kind == kind then r.domain ∷ rest else rest

-- The loop over the lists: a disabled or empty list is left out.
unfoldable pub enabled_lists : List BlacklistList → List NamedSet
enabled_lists [] = []
enabled_lists (l ∷ ls) =
    let rest = enabled_lists ls in
    if not l.enabled || is_empty l.snapshot
    then rest
    else record { name = l.name; set = new_set l.snapshot } ∷ rest

unfoldable pub build : BlacklistSettings → List BlacklistList → List BlacklistRule → Snapshot
build s lists rules = record {
  enabled = s.enabled;
  ttl = (if s.block_ttl == 0 then default_block_ttl else s.block_ttl) % 2 ^ 32;
  deny = new_set (domains_of policy_deny rules);
  allow = new_set (domains_of policy_allow rules);
  lists = enabled_lists lists;
}

-- The loop of Decide over the lists: the name of the first that matches.
unfoldable pub first_match : Bytes → List NamedSet → Option Bytes
first_match n [] = none
first_match n (l ∷ ls) =
    let rest = first_match n ls in if matches l.set n then some l.name else rest

unfoldable pub decide_name : Snapshot → Bytes → Decision
decide_name s n =
    if matches s.deny n
    then record { blocked = true; policy = policy_deny; ttl = s.ttl; name = n }
    else if matches s.allow n
    then record { blocked = false; policy = policy_allow; ttl = 0; name = n }
    else elim (first_match n s.lists) [
      | some list ↦ record { blocked = true; policy = list; ttl = s.ttl; name = n }
      | none ↦ record { blocked = false; policy = policy_forwarded; ttl = 0; name = n }
    ]

abbrev pub forwarded : Decision
forwarded = record { blocked = false; policy = policy_forwarded; ttl = 0; name = [] }

-- Decide; a nil snapshot is `none`.
unfoldable pub decide : Names → Option Snapshot → Bytes → Decision
decide names none name = forwarded
decide names (some s) name =
    if not s.enabled
    then forwarded
    else elim (normalize names name) [ none ↦ forwarded | some n ↦ decide_name s n ]
