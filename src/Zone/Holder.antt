-- ===== src/Zone/Holder.antt =====
-- internal/zone/holder.go: the live snapshot and the serial of the zone. Rebuild holds no lock, so it
-- is two steps, of which calls that overlap interleave theirs: what the source returns is reserved a
-- generation, and then it is built and stored. What the source returns, or its error, is an argument.
pub mod Serials
use kydns_server.Prelude.{
  ℕ, ◌+◌, ◌%◌, ◌^◌, ◌≤◌, ◌<◌, ◌≡◌, ◌⊎◌, inl, inr, refl, Bool, true, false, Option, none, some, List,
  [], ◌∷◌, zero, suc, sym, subst, Option-cases, arith,
}
use kydns_server.Text.{to_lower}
use kydns_server.Zone.Matcher.{new_matcher}
use kydns_server.Zone.Index.{Input, Parsers, BuildError, Result, built, failed}
use kydns_server.Zone.Snapshot.{Snapshot, build, build_views}
use kydns_server.Zone.Snapshot.Answers.{Matched-cases, Viewed-cases}

pub record Holder : Type 0 where
  pub cur : Option Snapshot
  pub gen : ℕ

unfoldable pub new_holder : Holder
new_holder = record { cur = none; gen = 0 }

-- `h.gen.Add(1)` on 32 bits
abbrev pub advanced : Holder → ℕ
advanced h = (h.gen + 1) % 2 ^ 32

-- Rebuild up to the reservation: the input with its generation, or the error of the source.
unfoldable pub reserve : Holder → Option Input → Holder × Option Input
reserve h none = (h, none)
reserve h (some i) = (record h { gen = advanced h }, some (record i { generation = advanced h }))

-- Rebuild from the reservation on; the Boolean is false for an error.
unfoldable pub publish : Parsers → Holder → Input → Holder × Bool
publish parsers h i = elim (build parsers i) [
  | failed e ↦ (h, false)
  | built snap ↦ (record h { cur = some snap }, true)
]

-- A Rebuild that no other one overlaps.
unfoldable pub rebuild : Parsers → Holder → Option Input → Holder × Bool
unfolding reserve
rebuild parsers h i =
    let (h', reserved) = reserve h i in
    elim reserved [ none ↦ (h', false) | some j ↦ publish parsers h' j ]

-- The holder with the calls that are between their two halves, the latest first.
pub record Calls : Type 0 where
  pub holder : Holder
  pub waiting : List Input

-- A call starts, or the call at the place goes on to its end.
pub data Step : Type 0 where
  starts : Option Input → Step
  finishes : ℕ → Step

unfoldable pub take_at : ℕ → List Input → Option (Input × List Input)
take_at n [] = none
take_at zero (i ∷ is) = some (i, is)
take_at (suc n) (i ∷ is) = elim (take_at n is) [ none ↦ none | some (j, js) ↦ some (j, i ∷ js) ]

unfoldable pub step : Parsers → Calls → Step → Calls
unfolding reserve
step parsers c (starts i) =
    let (h, reserved) = reserve c.holder i in
    elim reserved [
      | none ↦ record c { holder = h }
      | some j ↦ record { holder = h; waiting = j ∷ c.waiting }
    ]
step parsers c (finishes n) = elim (take_at n c.waiting) [
  | none ↦ c
  | some (i, rest) ↦ record { holder = (publish parsers c.holder i).0; waiting = rest }
]

unfoldable pub run : Parsers → Calls → List Step → Calls
run parsers c [] = c
run parsers c (s ∷ ss) = run parsers (step parsers c s) ss

-- How many of the calls get an input from the source.
unfoldable pub reserved_count : List Step → ℕ
reserved_count [] = 0
reserved_count (starts none ∷ ss) = reserved_count ss
reserved_count (starts (some _) ∷ ss) = reserved_count ss + 1
reserved_count (finishes _ ∷ ss) = reserved_count ss
