-- ===== src/Zone/Matcher/Longest.antt =====
-- The scan of internal/zone/matcher.go finds the longest matching prefix.
use kydns_server.Prelude.{
  ℕ, ◌≤◌, ◌≡◌, ◌⊎◌, ◌↔◌, inl, inr, refl, subst, true, false, List, [], ◌∷◌, arith, Bool-cases,
  nat_eq,
}
use kydns_server.Text.{Bytes}
use kydns_server.Net.{Addr, contains}
use kydns_server.Zone.Matcher.{Entry, entry_less, insert_entry, sort_entries, first_view}

abbrev pub In : Entry → List Entry → Type 0
In e [] = ⊥
In e (f ∷ fs) = (f ≡ e) ⊎ In e fs

-- The prefixes of the list are at most `n` bits long.
abbrev AllAtMost : ℕ → List Entry → Type 0
AllAtMost n [] = Unit {0}
AllAtMost n (e ∷ es) = (e.prefix.bits ≤ n) × AllAtMost n es

abbrev pub IsDescending : List Entry → Type 0
IsDescending [] = Unit {0}
IsDescending (e ∷ es) = AllAtMost e.prefix.bits es × IsDescending es

AllAtMost-weaken : (m n : ℕ) (es : List Entry) → m ≤ n → AllAtMost m es → AllAtMost n es
AllAtMost-weaken m n [] le h = tt
AllAtMost-weaken m n (e ∷ es) le h = (omega arith, AllAtMost-weaken m n es le h.1)

AllAtMost-insert_entry :
    (n : ℕ) (e : Entry) (es : List Entry)
    → e.prefix.bits ≤ n
    → AllAtMost n es
    → AllAtMost n (insert_entry e es)
unfolding insert_entry
AllAtMost-insert_entry n e [] le h = (le, tt)
AllAtMost-insert_entry n e (f ∷ fs) le h = ground (arith, AllAtMost-insert_entry n e fs le h.1)

entry_less-le :
    (f e : Entry)
    → (entry_less f e ≡ true → e.prefix.bits ≤ f.prefix.bits)
      × (entry_less f e ≡ false → f.prefix.bits ≤ e.prefix.bits)
unfolding entry_less
entry_less-le f e = (λ h. ground arith, λ h. ground arith)

insert_entry-IsDescending :
    (e : Entry) (es : List Entry) → IsDescending es → IsDescending (insert_entry e es)
unfolding insert_entry
insert_entry-IsDescending e [] h = (tt, tt)
insert_entry-IsDescending e (f ∷ fs) h = elim (Bool-cases (entry_less f e)) [
  | inl before ↦
      let le = (entry_less-le f e).0 before in
      rw before
        (AllAtMost-insert_entry f.prefix.bits e fs le h.0, insert_entry-IsDescending e fs h.1)
  | inr after ↦
      let le = (entry_less-le f e).1 after in
      rw after ((le, AllAtMost-weaken f.prefix.bits e.prefix.bits fs le h.0), h)
]

pub sort_entries-IsDescending : (es : List Entry) → IsDescending (sort_entries es)
unfolding sort_entries
sort_entries-IsDescending [] = tt
sort_entries-IsDescending (e ∷ es) =
    insert_entry-IsDescending e (sort_entries es) (sort_entries-IsDescending es)

In-insert_entry : (e x : Entry) (es : List Entry) → In x (insert_entry e es) ↔ ((e ≡ x) ⊎ In x es)
unfolding insert_entry
In-insert_entry e x [] = (λ h. h, λ h. h)
In-insert_entry e x (f ∷ fs) =
    let ih = In-insert_entry e x fs in
    elim (Bool-cases (entry_less f e)) [
      | inl before ↦ rw before (
        λ h. elim h [
          | inl p ↦ inr (inl p)
          | inr q ↦ elim (ih.0 q) [ inl p ↦ inl p | inr r ↦ inr (inr r) ]
        ],
        λ h. elim h [
          | inl p ↦ inr (ih.1 (inl p))
          | inr q ↦ elim q [ inl p ↦ inl p | inr r ↦ inr (ih.1 (inr r)) ]
        ],
      )
      | inr after ↦ rw after (λ h. h, λ h. h)
    ]

-- Sorting keeps the entries.
pub In-sort_entries : (x : Entry) (es : List Entry) → In x (sort_entries es) ↔ In x es
unfolding sort_entries
In-sort_entries x [] = (λ h. h, λ h. h)
In-sort_entries x (e ∷ es) =
    let ins = In-insert_entry e x (sort_entries es) in
    let ih = In-sort_entries x es in
    (
      λ h. elim (ins.0 h) [ inl p ↦ inl p | inr q ↦ inr (ih.0 q) ],
      λ h. elim h [ inl p ↦ ins.1 (inl p) | inr q ↦ ins.1 (inr (ih.1 q)) ],
    )

AllAtMost-In : (n : ℕ) (es : List Entry) (x : Entry) → AllAtMost n es → In x es → x.prefix.bits ≤ n
AllAtMost-In n [] x h i = absurd i
AllAtMost-In n (e ∷ es) x h (inl p) = rw (← p) h.0
AllAtMost-In n (e ∷ es) x h (inr i) = AllAtMost-In n es x h.1 i

-- `e` is one of the entries that contain the address, and none of them is longer.
pub record IsLongest (es : List Entry) (a : Addr) (e : Entry) : Type 0 where
  pub listed : In e es
  pub covers : contains e.prefix a ≡ true
  pub longest : (f : Entry) → In f es → contains f.prefix a ≡ true → f.prefix.bits ≤ e.prefix.bits

-- What the scan of a list returns: the view of a longest match, or "" where nothing matches.
abbrev pub Finds : List Entry → Addr → Bytes → Type 0
Finds es a view =
    ((e : Entry) × IsLongest es a e × (view ≡ e.view))
    ⊎ (((f : Entry) → In f es → contains f.prefix a ≡ false) × (view ≡ []))

Finds-cons :
    (e : Entry) (es : List Entry) (a : Addr) {view : Bytes}
    → contains e.prefix a ≡ false
    → Finds es a view
    → Finds (e ∷ es) a view
Finds-cons e es a miss (inl (f, l, p)) = inl (
  f,
  record {
    listed = inr l.listed;
    covers = l.covers;
    longest = λ g i c. elim i [
      | inl q ↦ absurd (ground (arith, subst (λ (x : Entry). contains x.prefix a ≡ false) q miss))
      | inr j ↦ l.longest g j c
    ];
  },
  p,
)
Finds-cons e es a miss (inr (none_covers, p)) = inr (
  λ g i. elim i [
    | inl q ↦ subst (λ (x : Entry). contains x.prefix a ≡ false) q miss
    | inr j ↦ none_covers g j
  ],
  p,
)

pub first_view-Finds : (es : List Entry) (a : Addr) → IsDescending es → Finds es a (first_view es a)
unfolding first_view
first_view-Finds [] a d = inr (λ f i. absurd i, refl)
first_view-Finds (e ∷ es) a d = elim (Bool-cases (contains e.prefix a)) [
  | inl hit ↦
      rw (hit, first_view)
        (inl (
          e,
          record {
            listed = inl refl;
            covers = hit;
            longest = λ f i c. elim i [
              | inl p ↦ rw p (omega arith)
              | inr j ↦ AllAtMost-In e.prefix.bits es f d.0 j
            ];
          },
          refl,
        ))
  | inr miss ↦ rw (miss, first_view) (Finds-cons e es a miss (first_view-Finds es a d.1))
]
