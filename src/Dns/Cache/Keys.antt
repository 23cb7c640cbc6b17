-- ===== src/Dns/Cache/Keys.antt =====
-- The entries of internal/dnsserver/cache.go as a list, most recent first, with no pointers.
use kydns_server.Prelude.{
  ℕ, zero, suc, ◌≤◌, ◌≡◌, ◌≢◌, ◌⊎◌, inl, inr, refl, ap, subst, some, List, [], ◌∷◌, ◌==◌, nat_eq,
  if◌then◌else◌, length, map, arith,
}
use kydns_server.Dns.Cache.{Key, key_eq, Entry, Element, remove, back}
use kydns_server.Dns.Cache.Elements.{In}

abbrev pub contents : List Element → List Entry
contents = map (λ el. el.entry)

unfoldable pub drop_key : Key → List Entry → List Entry
drop_key k [] = []
drop_key k (e ∷ es) = let rest = drop_key k es in if e.key == k then rest else e ∷ rest

unfoldable pub take : ℕ → List Entry → List Entry
take zero es = []
take (suc n) [] = []
take (suc n) (e ∷ es) = e ∷ take n es

abbrev pub LacksKey : Key → List Entry → Type 0
LacksKey k [] = Unit {0}
LacksKey k (e ∷ es) = (e.key ≢ k) × LacksKey k es

abbrev pub HasDistinctKeys : List Entry → Type 0
HasDistinctKeys [] = Unit {0}
HasDistinctKeys (e ∷ es) = LacksKey e.key es × HasDistinctKeys es

pub drop_key-LacksKey : (k : Key) (es : List Entry) → LacksKey k (drop_key k es)
unfolding drop_key
drop_key-LacksKey k [] = tt
drop_key-LacksKey k (e ∷ es) = ground (arith, drop_key-LacksKey k es)

LacksKey-drop_key : (j k : Key) (es : List Entry) → LacksKey j es → LacksKey j (drop_key k es)
unfolding drop_key
LacksKey-drop_key j k [] h = tt
LacksKey-drop_key j k (e ∷ es) h = ground (arith, LacksKey-drop_key j k es h.1)

pub drop_key-HasDistinctKeys :
    (k : Key) (es : List Entry) → HasDistinctKeys es → HasDistinctKeys (drop_key k es)
unfolding drop_key
drop_key-HasDistinctKeys k [] h = tt
drop_key-HasDistinctKeys k (e ∷ es) h =
    ground (arith, LacksKey-drop_key e.key k es h.0, drop_key-HasDistinctKeys k es h.1)

pub drop_key_lacking : (k : Key) (es : List Entry) → LacksKey k es → drop_key k es ≡ es
unfolding drop_key
drop_key_lacking k [] h = refl
drop_key_lacking k (e ∷ es) h = ground (arith, drop_key_lacking k es h.1)

pub contents-remove :
    (i : ℕ) (k : Key) (els : List Element)
    → ((y : Element) → In y els → (y.id == i) ≡ (y.entry.key == k))
    → contents (remove i els) ≡ drop_key k (contents els)
unfolding remove drop_key
contents-remove i k [] same = refl
contents-remove i k (y ∷ ys) same =
    ground (arith, same y (inl refl), contents-remove i k ys (λ z j. same z (inr j)))

pub contents-LacksKey :
    (k : Key) (els : List Element)
    → ((y : Element) → In y els → y.entry.key ≢ k)
    → LacksKey k (contents els)
contents-LacksKey k [] h = tt
contents-LacksKey k (y ∷ ys) h = (h y (inl refl), contents-LacksKey k ys (λ z j. h z (inr j)))

pub length-contents : (els : List Element) → length (contents els) ≡ length els
length-contents [] = refl
length-contents (y ∷ ys) = ap suc (length-contents ys)

pub length-take-le : (n : ℕ) (es : List Entry) → length (take n es) ≤ n
unfolding take
length-take-le zero es = omega arith
length-take-le (suc n) [] = omega arith
length-take-le (suc n) (e ∷ es) = omega (arith, length-take-le n es)

pub take_of_length-le : (n : ℕ) (es : List Entry) → length es ≤ n → take n es ≡ es
unfolding take
take_of_length-le zero [] h = refl
take_of_length-le zero (e ∷ es) h = absurd (omega arith)
take_of_length-le (suc n) [] h = refl
take_of_length-le (suc n) (e ∷ es) h = ap (◌∷◌ e) (take_of_length-le n es (omega arith))

pub take-take : (m n : ℕ) (es : List Entry) → m ≤ n → take m (take n es) ≡ take m es
unfolding take
take-take zero n es h = refl
take-take (suc m) zero es h = absurd (omega arith)
take-take (suc m) (suc n) [] h = refl
take-take (suc m) (suc n) (e ∷ es) h = ap (◌∷◌ e) (take-take m n es (omega arith))

-- The last element of a list that is not empty.
back-In :
    (el : Element) (els : List Element)
    → (last : Element) × (back (el ∷ els) ≡ some last) × In last (el ∷ els)
unfolding back
back-In el [] = (el, refl, inl refl)
back-In el (el' ∷ els) = let (last, e, i) = back-In el' els in (last, e, inr i)

pub back_of_length :
    (n : ℕ) (els : List Element)
    → length els ≡ suc n
    → (last : Element) × (back els ≡ some last) × In last els
back_of_length n [] h = absurd (omega arith)
back_of_length n (x ∷ xs) h = back-In x xs

LacksKey-back :
    (k : Key) (els : List Element) {last : Element}
    → LacksKey k (contents els)
    → back els ≡ some last
    → last.entry.key ≢ k
unfolding back
LacksKey-back k [] h e = absurd (ground arith)
LacksKey-back k (x ∷ []) {last} h e = ground arith
LacksKey-back k (x ∷ y ∷ ys) {last} h e = LacksKey-back k (y ∷ ys) {last = last} h.1 e

-- Dropping the key of the last of `n + 1` entries leaves the first `n`.
pub drop_key-back :
    (n : ℕ) (els : List Element) {last : Element}
    → HasDistinctKeys (contents els)
    → length els ≡ suc n
    → back els ≡ some last
    → drop_key last.entry.key (contents els) ≡ take n (contents els)
unfolding drop_key take back
drop_key-back n [] d l e = absurd (omega arith)
drop_key-back zero (x ∷ []) {last} d l e = ground arith
drop_key-back (suc n) (x ∷ []) {last} d l e = absurd (omega arith)
drop_key-back zero (x ∷ y ∷ ys) d l e = absurd (omega arith)
drop_key-back (suc n) (x ∷ y ∷ ys) {last} d l e = ground (
  arith,
  LacksKey-back x.entry.key (y ∷ ys) {last = last} d.0,
  drop_key-back n (y ∷ ys) {last = last} d.1,
)

abbrev pub HasEntry : Entry → List Entry → Type 0
HasEntry e [] = ⊥
HasEntry e (f ∷ fs) = (f ≡ e) ⊎ HasEntry e fs

pub contents-HasEntry :
    (el : Element) (els : List Element) → In el els → HasEntry el.entry (contents els)
contents-HasEntry el [] i = absurd i
contents-HasEntry el (x ∷ xs) (inl p) = inl (ap (λ (y : Element). y.entry) p)
contents-HasEntry el (x ∷ xs) (inr i) = inr (contents-HasEntry el xs i)

pub LacksKey-HasEntry :
    (k : Key) (es : List Entry) (e : Entry) → LacksKey k es → HasEntry e es → e.key ≢ k
LacksKey-HasEntry k [] e l h = absurd h
LacksKey-HasEntry k (f ∷ fs) e l (inl p) = subst (λ (x : Entry). x.key ≢ k) p l.0
LacksKey-HasEntry k (f ∷ fs) e l (inr h) = LacksKey-HasEntry k fs e l.1 h
