-- ===== src/Policy/Normalize.antt =====
-- internal/policy/normalize.go: the canonical form of a domain name.
use kydns_server.Prelude.{
  ℕ, ◌<◌, ◌≤◌, ◌≡◌, ◌⊎◌, Bool, true, false, ◌||◌, ◌&&◌, not, Option, none, some, List, [], ◌∷◌,
  ◌==◌, arith, nat_eq, if◌then◌else◌, length, leb, ltb,
}
use kydns_server.Text.{Bytes, bytes_eq, to_lower, trim_space, trim_last, contains_byte, split}

-- Code that is not the program's: `netip.ParseAddr` accepts the text; `idna.Lookup.ToASCII`.
pub record Names : Type 0 where
  pub is_address : Bytes → Bool
  pub to_ascii : Bytes → Option Bytes

abbrev pub max_name : ℕ
max_name = 253

abbrev pub max_label : ℕ
max_label = 63

unfoldable pub label_byte : ℕ → Bool
label_byte c = (leb b'a' c && leb c b'z') || (leb b'0' c && leb c b'9') || c == b'-'

unfoldable pub label_bytes : Bytes → Bool
label_bytes [] = true
label_bytes (c ∷ s) = label_byte c && label_bytes s

abbrev pub first_is : ℕ → Bytes → Bool
first_is d [] = false
first_is d (c ∷ _) = c == d

unfoldable pub last_is : ℕ → Bytes → Bool
last_is d [] = false
last_is d (c ∷ []) = c == d
last_is d (c ∷ e ∷ s) = last_is d (e ∷ s)

unfoldable pub valid_label : Bytes → Bool
valid_label s =
    not (s == [] || ltb max_label (length s))
    && not (first_is b'-' s || last_is b'-' s)
    && label_bytes s

unfoldable pub all_valid : List Bytes → Bool
all_valid [] = true
all_valid (l ∷ ls) = valid_label l && all_valid ls

-- From the ASCII form on.
unfoldable pub check_ascii : Bytes → Option Bytes
check_ascii n =
    if ltb max_name (length n) || not (contains_byte b'.' n)
    then none
    else if all_valid (split b'.' n)
    then some n
    else none

-- `none` is errNotADomain.
unfoldable pub normalize : Names → Bytes → Option Bytes
normalize names name =
    let n = trim_last b'.' (to_lower (trim_space name)) in
    if n == [] || names.is_address n
    then none
    else elim (names.to_ascii n) [ none ↦ none | some a ↦ check_ascii a ]

-- Every byte is a lower-case letter, a digit or a hyphen.
abbrev pub OnlyLabelBytes : Bytes → Type 0
OnlyLabelBytes [] = Unit {0}
OnlyLabelBytes (c ∷ s) =
    (((b'a' ≤ c) × (c ≤ b'z')) ⊎ (((b'0' ≤ c) × (c ≤ b'9')) ⊎ (c ≡ b'-'))) × OnlyLabelBytes s

-- A label of a host name, as RFC 1123 has it.
pub record IsLabel (s : Bytes) : Type 0 where
  pub nonempty : 0 < length s
  pub short : length s ≤ 63
  pub plain : OnlyLabelBytes s
  pub starts : first_is b'-' s ≡ false
  pub ends : last_is b'-' s ≡ false

abbrev pub AllLabels : List Bytes → Type 0
AllLabels [] = Unit {0}
AllLabels (l ∷ ls) = IsLabel l × AllLabels ls

label_bytes-OnlyLabelBytes : (s : Bytes) → label_bytes s ≡ true → OnlyLabelBytes s
unfolding label_bytes label_byte
label_bytes-OnlyLabelBytes [] h = tt
label_bytes-OnlyLabelBytes (c ∷ s) h = (ground arith, label_bytes-OnlyLabelBytes s (ground arith))

valid_label-IsLabel : (s : Bytes) → valid_label s ≡ true → IsLabel s
unfolding valid_label
valid_label-IsLabel [] h = absurd (ground arith)
valid_label-IsLabel (c ∷ s) h = record {
  nonempty = omega arith;
  short = ground arith;
  plain = label_bytes-OnlyLabelBytes (c ∷ s) (ground arith);
  starts = ground arith;
  ends = ground arith;
}

all_valid-AllLabels : (ls : List Bytes) → all_valid ls ≡ true → AllLabels ls
unfolding all_valid
all_valid-AllLabels [] h = tt
all_valid-AllLabels (l ∷ ls) h =
    (valid_label-IsLabel l (ground arith), all_valid-AllLabels ls (ground arith))

-- Whatever the address parser and the IDNA conversion return, a normalized name has at most 253
-- bytes and a dot, and each of its labels is a host name label.
pub normalize-AllLabels :
    (names : Names) (name : Bytes) {n : Bytes}
    → normalize names name ≡ some n
    → (length n ≤ 253) × (contains_byte b'.' n ≡ true) × AllLabels (split b'.' n)
unfolding normalize check_ascii
normalize-AllLabels names name {n} h =
    let valid : all_valid (split b'.' n) ≡ true = ground arith in
    (ground arith, ground arith, all_valid-AllLabels (split b'.' n) valid)
