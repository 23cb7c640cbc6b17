-- ===== src/Dns/Cache/Elements.antt =====
-- How the map and the list of internal/dnsserver/cache.go fit together.
use native.Mathlib.Decide.{ℕ_discrete}
use kydns_server.Prelude.{
  ℕ, suc, ◌<◌, ◌≡◌, ◌≢◌, ◌⊎◌, inl, inr, refl, sym, ◌∙◌, subst, false, none, some, List, [], ◌∷◌,
  ◌==◌, nat_eq, Map, lookup, insert, delete, lookup-insert, lookup-delete, arith, Bool-cases,
}
use kydns_server.Dns.Cache.{Key, key_eq, Key-discrete, Entry, Element, find, remove}

abbrev pub In : Element → List Element → Type 0
In el [] = ⊥
In el (x ∷ xs) = (x ≡ el) ⊎ In el xs

pub find-In :
    (i : ℕ) (els : List Element) {el : Element} → find i els ≡ some el → In el els × (el.id ≡ i)
unfolding find
find-In i [] h = absurd (ground arith)
find-In i (x ∷ xs) {el} h = elim (ℕ_discrete x.id i) [
  | yes p ↦ (inl (ground arith), ground arith)
  | no n ↦ let (rest, e) = find-In i xs {el = el} (ground arith) in (inr rest, e)
]

In-remove_miss :
    (i : ℕ) (y : Element) (ys : List Element) (x : Element)
    → (y.id == i) ≡ false
    → In x (y ∷ remove i ys)
    → (In x (remove i ys) → In x ys × (x.id ≢ i))
    → In x (y ∷ ys) × (x.id ≢ i)
In-remove_miss i y ys x miss (inl p) ih =
    (inl p, subst (λ (z : Element). z.id ≢ i) p (λ e. ground arith))
In-remove_miss i y ys x miss (inr q) ih = (inr (ih q).0, (ih q).1)

pub In-remove :
    (i : ℕ) (els : List Element) (x : Element) → In x (remove i els) → In x els × (x.id ≢ i)
unfolding remove
In-remove i [] x h = absurd h
In-remove i (y ∷ ys) x h = elim (Bool-cases (y.id == i)) [
  | inl hit ↦ let (rest, n) = In-remove i ys x (rw (hit, remove) at h) in (inr rest, n)
  | inr miss ↦ In-remove_miss i y ys x miss (rw (miss, remove) at h) (In-remove i ys x)
]

pub find-remove_ne : (i j : ℕ) (els : List Element) → i ≢ j → find i (remove j els) ≡ find i els
unfolding find remove
find-remove_ne i j [] n = refl
find-remove_ne i j (x ∷ xs) n = ground (arith, find-remove_ne i j xs n)

-- The map points at the elements of the list by their keys, and at nothing else; the elements'
-- numbers are below `bound`.
pub record IsIndexed (entries : Map Key ℕ) (order : List Element) (bound : ℕ) : Type 0 where
  pub indexed : (el : Element) → In el order → lookup el.entry.key entries ≡ some el.id
  pub found :
      (k : Key) (i : ℕ)
      → lookup k entries ≡ some i
      → (el : Element) × (find i order ≡ some el) × (el.entry.key ≡ k)
  pub below : (el : Element) → In el order → el.id < bound

module _ (entries : Map Key ℕ) (order : List Element) (bound : ℕ)
    (x : IsIndexed entries order bound) where
  -- Two elements with one number have one key.
  pub same_key :
      (el el' : Element)
      → In el order
      → In el' order
      → el.id ≡ el'.id
      → el.entry.key ≡ el'.entry.key
  same_key el el' i i' e =
      let (f, h, p) = x.found el.entry.key el.id (x.indexed el i) in
      let (f', h', p') = x.found el'.entry.key el'.id (x.indexed el' i') in
      ground (arith, h, h', p, p')

  pub same_id :
      (el el' : Element)
      → In el order
      → In el' order
      → el.entry.key ≡ el'.entry.key
      → el.id ≡ el'.id
  same_id el el' i i' e = ground (arith, x.indexed el i, x.indexed el' i')

  module _ (el : Element) (here : In el order) where
    pub remove-IsIndexed : IsIndexed (delete el.entry.key entries) (remove el.id order) bound
    remove-IsIndexed = record {
      indexed = λ y i.
          let (j, n) = In-remove el.id order y i in
          ground (
            arith,
            lookup-delete y.entry.key el.entry.key entries,
            x.indexed y j,
            same_id el y here j,
          );
      found = λ k i h.
          let old : lookup k entries ≡ some i =
            ground (arith, lookup-delete k el.entry.key entries) in
          let (y, f, p) = x.found k i old in
          let (j, q) = find-In i order f in
          (
            y,
            find-remove_ne i el.id order
                  (λ e. ground (arith, lookup-delete k el.entry.key entries, same_key y el j here))
                ∙ f,
            p,
          );
      below = λ y i. x.below y (In-remove el.id order y i).0;
    }

    touch_found :
        (k : Key) (i : ℕ)
        → lookup k entries ≡ some i
        → (y : Element) × (find i (el ∷ remove el.id order) ≡ some y) × (y.entry.key ≡ k)
    unfolding find
    touch_found k i h =
        let (y, f, p) = x.found k i h in
        let (j, q) = find-In i order f in
        elim (ℕ_discrete el.id i) [
          | yes e ↦ (el, ground arith, same_key el y here j (e ∙ sym q) ∙ p)
          | no n ↦ (y, ground (arith, find-remove_ne i el.id order), p)
        ]

    pub touch-IsIndexed : IsIndexed entries (el ∷ remove el.id order) bound
    touch-IsIndexed = record {
      indexed = λ y i. elim i [
        | inl p ↦
            subst (λ (z : Element). lookup z.entry.key entries ≡ some z.id) p (x.indexed el here)
        | inr j ↦ x.indexed y (In-remove el.id order y j).0
      ];
      found = touch_found;
      below = λ y i. elim i [
        | inl p ↦ subst (λ (z : Element). z.id < bound) p (x.below el here)
        | inr j ↦ x.below y (In-remove el.id order y j).0
      ];
    }

  module _ (e : Entry) (absent : lookup e.key entries ≡ none) where
    abbrev pushed : Element
    pushed = record { id = bound; entry = e }

    push_indexed :
        (y : Element)
        → In y (pushed ∷ order)
        → lookup y.entry.key (insert e.key bound entries) ≡ some y.id
    push_indexed y (inl p) =
        subst (λ (z : Element). lookup z.entry.key (insert e.key bound entries) ≡ some z.id) p
          (ground (arith, lookup-insert e.key e.key bound entries))
    push_indexed y (inr j) =
        ground (arith, lookup-insert y.entry.key e.key bound entries, x.indexed y j)

    push_found :
        (k : Key) (i : ℕ)
        → lookup k (insert e.key bound entries) ≡ some i
        → (y : Element) × (find i (pushed ∷ order) ≡ some y) × (y.entry.key ≡ k)
    unfolding find
    push_found k i h = elim (Key-discrete e.key k) [
      | yes p ↦ (pushed, ground (arith, lookup-insert k e.key bound entries), p)
      | no n ↦
          let old : lookup k entries ≡ some i =
            ground (arith, lookup-insert k e.key bound entries) in
          let (y, f, p) = x.found k i old in
          let (j, q) = find-In i order f in (y, ground (arith, x.below y j), p)
    ]

    pub push-IsIndexed : IsIndexed (insert e.key bound entries) (pushed ∷ order) (suc bound)
    push-IsIndexed = record {
      indexed = push_indexed;
      found = push_found;
      below = λ y i. elim i [
        | inl p ↦ subst (λ (z : Element). z.id < suc bound) p (omega arith)
        | inr j ↦ omega (arith, x.below y j)
      ];
    }
