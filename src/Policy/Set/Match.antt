-- ===== src/Policy/Set/Match.antt =====
-- What `Set.Match` of internal/policy/set.go decides: coverage at a label boundary.
use kydns_server.Prelude.{
  ℕ, zero, suc, ◌<◌, ◌≡◌, ◌↔◌, ◌⊎◌, inl, inr, refl, sym, ap, ◌∙◌, true, some, List, [], ◌∷◌, ◌++◌,
  arith, Bool-cases, Option-cases, length, subst,
}
use mathlib.Core.List.{append_assoc}
use native.Mathlib.Decide.{ℕ_discrete}
use kydns_server.Text.{Bytes, bytes_eq, after_byte}
use kydns_server.Policy.Set.{Set, member, match_from, matches, Covers, InSet, CoveredBy}

member→InSet : (ds : List Bytes) (name : Bytes) → member name ds ≡ true → InSet ds name
unfolding member
member→InSet [] name h = absurd (ground arith)
member→InSet (d ∷ ds) name h = elim (bytes_eq.dec d name) [
  | yes p ↦ inl p
  | no n ↦ inr (member→InSet ds name (ground arith))
]

InSet→member : (ds : List Bytes) (name : Bytes) → InSet ds name → member name ds ≡ true
unfolding member
InSet→member [] name h = absurd h
InSet→member (d ∷ ds) name (inl p) = ground arith
InSet→member (d ∷ ds) name (inr h) = ground (arith, InSet→member ds name h)

InSet→CoveredBy : (ds : List Bytes) (name : Bytes) → InSet ds name → CoveredBy ds name
InSet→CoveredBy [] name h = absurd h
InSet→CoveredBy (d ∷ ds) name (inl p) = inl (inl (sym p))
InSet→CoveredBy (d ∷ ds) name (inr h) = inr (InSet→CoveredBy ds name h)

-- What follows the first dot, put back together.
after_byte-append :
    (d : ℕ) (s rest : Bytes)
    → after_byte d s ≡ some rest
    → (label : Bytes) × (s ≡ label ++ d ∷ rest) × (length rest < length s)
unfolding after_byte
after_byte-append d [] rest h = absurd (ground arith)
after_byte-append d (c ∷ s) rest h = elim (ℕ_discrete c d) [
  | yes p ↦ let e : s ≡ rest = ground arith in ([], rw (p, e), rw e (omega arith))
  | no n ↦
      let (label, e, lt) = after_byte-append d s rest (ground arith) in
      (c ∷ label, ap (◌∷◌ c) e, omega arith)
]

Covers-widen : (d rest label : Bytes) → Covers d rest → Covers d (label ++ b'.' ∷ rest)
Covers-widen d rest label (inl p) = inr (label, rw p)
Covers-widen d rest label (inr (inner, p)) =
    inr (label ++ b'.' ∷ inner, rw p (sym (append_assoc label (b'.' ∷ inner) (b'.' ∷ d))))

CoveredBy-widen :
    (ds : List Bytes) (rest label : Bytes) → CoveredBy ds rest → CoveredBy ds (label ++ b'.' ∷ rest)
CoveredBy-widen [] rest label h = h
CoveredBy-widen (d ∷ ds) rest label (inl h) = inl (Covers-widen d rest label h)
CoveredBy-widen (d ∷ ds) rest label (inr h) = inr (CoveredBy-widen ds rest label h)

match_from_sound :
    (fuel : ℕ) (ds : List Bytes) (name : Bytes) → match_from fuel ds name ≡ true → CoveredBy ds name
unfolding match_from
match_from_sound zero ds name h = absurd (ground arith)
match_from_sound (suc fuel) ds name h = elim (Bool-cases (member name ds)) [
  | inl here ↦ InSet→CoveredBy ds name (member→InSet ds name here)
  | inr away ↦ elim (Option-cases (after_byte b'.' name)) [
    | inl e ↦ absurd (ground arith)
    | inr (rest, e) ↦
        let (label, whole, _) = after_byte-append b'.' name rest e in
        subst (CoveredBy ds) (sym whole)
          (CoveredBy-widen ds rest label (match_from_sound fuel ds rest (ground arith)))
  ]
]

-- A covered name is the domain, or what follows its first dot is covered too.
Covers-step :
    (d label : Bytes)
    → (rest : Bytes) × (after_byte b'.' (label ++ b'.' ∷ d) ≡ some rest) × Covers d rest
unfolding after_byte ℕ_discrete
Covers-step d [] = (d, refl, inl refl)
Covers-step d (c ∷ label) = elim (ℕ_discrete c b'.') [
  | yes p ↦ (label ++ b'.' ∷ d, ground arith, inr (label, refl))
  | no n ↦ let (rest, e, h) = Covers-step d label in (rest, ground arith, h)
]

CoveredBy-step :
    (ds : List Bytes) (name : Bytes)
    → CoveredBy ds name
    → InSet ds name ⊎ ((rest : Bytes) × (after_byte b'.' name ≡ some rest) × CoveredBy ds rest)
CoveredBy-step [] name h = absurd h
CoveredBy-step (d ∷ ds) name (inl (inl p)) = inl (inl (sym p))
CoveredBy-step (d ∷ ds) name (inl (inr (label, p))) =
    let (rest, e, h) = Covers-step d label in inr (rest, ap (after_byte b'.') p ∙ e, inl h)
CoveredBy-step (d ∷ ds) name (inr h) = elim (CoveredBy-step ds name h) [
  | inl m ↦ inl (inr m)
  | inr (rest, e, k) ↦ inr (rest, e, inr k)
]

match_from_complete :
    (fuel : ℕ) (ds : List Bytes) (name : Bytes)
    → length name < fuel
    → CoveredBy ds name
    → match_from fuel ds name ≡ true
unfolding match_from
match_from_complete zero ds name lt h = absurd (omega arith)
match_from_complete (suc fuel) ds name lt h = elim (CoveredBy-step ds name h) [
  | inl m ↦ ground (arith, InSet→member ds name m)
  | inr (rest, e, k) ↦
      let (_, _, shorter) = after_byte-append b'.' name rest e in
      ground (arith, match_from_complete fuel ds rest (omega arith) k)
]

matches_list :
    (s : Set) (ds : List Bytes) (name : Bytes)
    → s.m ≡ ds
    → (matches s name ≡ true) ↔ CoveredBy ds name
unfolding matches
matches_list s [] name e = (λ h. absurd (ground arith), λ h. absurd h)
matches_list s (d ∷ ds) name e = (
  λ h. match_from_sound (suc (length name)) (d ∷ ds) name (ground arith),
  λ h. ground (arith, match_from_complete (suc (length name)) (d ∷ ds) name (omega arith) h),
)

-- A set matches a name exactly when some domain of it is the name or follows a dot of it: never
-- across a label boundary.
pub matches_iff : (s : Set) (name : Bytes) → (matches s name ≡ true) ↔ CoveredBy s.m name
matches_iff s name = matches_list s s.m name refl
