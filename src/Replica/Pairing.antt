-- ===== src/Replica/Pairing.antt =====
-- internal/replica/pairing.go: the invite codes. The random code of Mint and the clock's reading are
-- arguments, and the mutex makes each method one step.
pub mod Once
use kydns_server.Prelude.{
  ℕ, zero, suc, ◌+◌, ◌-◌, ◌*◌, ◌/◌, ◌%◌, ◌^◌, ◌≤◌, ◌<◌, ◌≡◌, ◌≢◌, ◌↔◌, ◌⊎◌, inl, inr, refl, sym, ap,
  ◌∙◌, subst, String, Bool, true, false, ◌||◌, ◌&&◌, not, Option, none, some, List, [], ◌∷◌, ◌++◌,
  map, ◌==◌, Eq, nat_eq, string_eq, same_text, leb, ltb, if◌then◌else◌, length, is_empty, Map,
  lookup, insert, delete, size, lookup-insert, lookup-delete, arith, Bool-cases, Option-cases,
}
use kydns_server.Text.{
  Bytes, bytes_eq, bytes, to_lower, trim_space, trim_last, has_prefix, has_suffix, contains_byte,
  split, join, trim_suffix,
}
use kydns_server.Text.{to_upper}

pub record InviteBook : Type 0 where
  pub ttl : ℕ
  pub out : Map Bytes ℕ

unfoldable pub new_invite_book : ℕ → InviteBook
new_invite_book ttl = record { ttl = ttl; out = [] }

-- Mint, with the code that NewPairingCode gives; the expiry is the other half of the invite.
unfoldable pub mint : Bytes → ℕ → InviteBook → InviteBook × ℕ
mint code now b = (record b { out = insert code (now + b.ttl) b.out }, now + b.ttl)

-- The loop of Redeem over the codes.
unfoldable pub redeem_from : Bytes → ℕ → Map Bytes ℕ → Map Bytes ℕ × Bool
redeem_from code now [] = ([], false)
redeem_from code now ((c, exp) ∷ m) =
    let rest = redeem_from code now m in
    if ltb exp now then rest else if c == code then (rest.0, true) else ((c, exp) ∷ rest.0, rest.1)

-- The code as it is compared.
abbrev pub typed_code : Bytes → Bytes
typed_code code = to_upper (trim_space code)

unfoldable pub redeem : Bytes → ℕ → InviteBook → InviteBook × Bool
redeem code now b =
    let (out, found) = redeem_from (typed_code code) now b.out in (record b { out = out }, found)
