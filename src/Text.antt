-- ===== src/Text.antt =====
-- Go strings as lists of bytes, for the code that looks inside them, with the functions of package
-- `strings` that it calls. Case and white space are those of ASCII.
use native.Mathlib.Decide.{ℕ_discrete}
use kydns_server.Prelude.{
  ◌-◌, ℕ, ◌+◌, Bool, true, false, ◌&&◌, ◌||◌, Option, none, some, List, [], ◌∷◌, ◌++◌, map, Eq,
  nat_eq, ◌==◌, leb, ltb, if◌then◌else◌, String,
}
use Prim.Native.Char.{code}

abbrev pub Bytes : Type 0
Bytes = List ℕ

unfoldable pub Bytes-discrete : Discrete Bytes
Bytes-discrete = hlevel ℕ_discrete

instance abbrev pub bytes_eq : Eq Bytes
bytes_eq = record { dec = Bytes-discrete }

-- The bytes of an ASCII literal.
abbrev pub bytes : String → Bytes
bytes String.[] = []
bytes (String.◌∷◌ c s) = code c ∷ bytes s

-- strings.ToLower
abbrev pub lower_byte : ℕ → ℕ
lower_byte c = if leb b'A' c && leb c b'Z' then c + 32 else c

abbrev pub to_lower : Bytes → Bytes
to_lower = map lower_byte

-- strings.ToUpper
abbrev pub upper_byte : ℕ → ℕ
upper_byte c = if leb b'a' c && leb c b'z' then c - 32 else c

abbrev pub to_upper : Bytes → Bytes
to_upper = map upper_byte

abbrev pub is_space : ℕ → Bool
is_space c = (leb 9 c && leb c 13) || c == 32

-- strings.HasPrefix, strings.HasSuffix
unfoldable pub has_prefix : Bytes → Bytes → Bool
has_prefix s [] = true
has_prefix [] (_ ∷ _) = false
has_prefix (c ∷ s) (d ∷ t) = c == d && has_prefix s t

unfoldable pub has_suffix : Bytes → Bytes → Bool
has_suffix [] t = [] == t
has_suffix (c ∷ s) t = (c ∷ s) == t || has_suffix s t

-- strings.TrimSuffix at a suffix of one byte
unfoldable pub trim_last : ℕ → Bytes → Bytes
trim_last d [] = []
trim_last d (c ∷ []) = if c == d then [] else c ∷ []
trim_last d (c ∷ e ∷ s) = c ∷ trim_last d (e ∷ s)

-- strings.TrimSpace
unfoldable pub trim_left : Bytes → Bytes
trim_left [] = []
trim_left (c ∷ s) = let rest = trim_left s in if is_space c then rest else c ∷ s

unfoldable pub trim_right : Bytes → Bytes
trim_right [] = []
trim_right (c ∷ s) = let rest = trim_right s in if rest == [] && is_space c then [] else c ∷ rest

unfoldable pub trim_space : Bytes → Bytes
unfolding trim_left trim_right
trim_space s = trim_left (trim_right s)

-- strings.Contains and strings.IndexByte at one byte
unfoldable pub contains_byte : ℕ → Bytes → Bool
contains_byte d [] = false
contains_byte d (c ∷ s) = c == d || contains_byte d s

unfoldable pub prepend : ℕ → List Bytes → List Bytes
prepend c [] = (c ∷ []) ∷ []
prepend c (p ∷ ps) = (c ∷ p) ∷ ps

-- strings.Split at one byte
unfoldable pub split : ℕ → Bytes → List Bytes
unfolding prepend
split d [] = [] ∷ []
split d (c ∷ s) = let rest = split d s in if c == d then [] ∷ rest else prepend c rest

-- name[i+1:] at the first `d`; `none` where there is none
unfoldable pub after_byte : ℕ → Bytes → Option Bytes
after_byte d [] = none
after_byte d (c ∷ s) = if c == d then some s else after_byte d s

-- s < t on strings
unfoldable pub text_less : Bytes → Bytes → Bool
text_less s [] = false
text_less [] (_ ∷ _) = true
text_less (c ∷ s) (d ∷ t) = if c == d then text_less s t else ltb c d

-- strings.TrimSuffix
unfoldable pub trim_suffix : Bytes → Bytes → Bytes
trim_suffix [] t = []
trim_suffix (c ∷ s) t = let rest = trim_suffix s t in if (c ∷ s) == t then [] else c ∷ rest

-- strings.Join
unfoldable pub join : Bytes → List Bytes → Bytes
join sep [] = []
join sep (s ∷ []) = s
join sep (s ∷ t ∷ ts) = s ++ sep ++ join sep (t ∷ ts)

-- strings.Fields
unfoldable pub split_space : Bytes → List Bytes
unfolding prepend
split_space [] = [] ∷ []
split_space (c ∷ s) = let rest = split_space s in if is_space c then [] ∷ rest else prepend c rest

unfoldable pub nonempty : List Bytes → List Bytes
nonempty [] = []
nonempty (s ∷ ss) = let rest = nonempty ss in if s == [] then rest else s ∷ rest

unfoldable pub fields : Bytes → List Bytes
unfolding split_space nonempty
fields s = nonempty (split_space s)

-- strings.ContainsAny
unfoldable pub contains_any : Bytes → Bytes → Bool
contains_any s [] = false
contains_any s (d ∷ ds) = contains_byte d s || contains_any s ds

-- strings.TrimPrefix
unfoldable pub trim_prefix : Bytes → Bytes → Bytes
trim_prefix s t = if has_prefix s t then drop t s else s
  where
    drop : Bytes → Bytes → Bytes
    drop [] s = s
    drop (_ ∷ t) [] = []
    drop (_ ∷ t) (_ ∷ s) = drop t s

-- strings.Contains
unfoldable pub has_infix : Bytes → Bytes → Bool
has_infix [] t = has_prefix [] t
has_infix (c ∷ s) t = has_prefix (c ∷ s) t || has_infix s t

-- s[i+1:] at the last `d`; `none` where there is none
unfoldable pub after_last : ℕ → Bytes → Option Bytes
after_last d [] = none
after_last d (c ∷ s) =
    let rest = after_last d s in
    elim rest [ some t ↦ some t | none ↦ if c == d then some s else none ]

-- strings.Trim at a set of bytes
unfoldable pub trim_any_left : Bytes → Bytes → Bytes
trim_any_left set [] = []
trim_any_left set (c ∷ s) =
    let rest = trim_any_left set s in if contains_byte c set then rest else c ∷ s

unfoldable pub trim_any_right : Bytes → Bytes → Bytes
trim_any_right set [] = []
trim_any_right set (c ∷ s) =
    let rest = trim_any_right set s in if rest == [] && contains_byte c set then [] else c ∷ rest

unfoldable pub trim_any : Bytes → Bytes → Bytes
unfolding trim_any_left trim_any_right
trim_any s set = trim_any_left set (trim_any_right set s)
