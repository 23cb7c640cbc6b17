-- ===== src/Replica/Pairing/Once.antt =====
-- How often, and how long, a code of internal/replica/pairing.go is good.
use kydns_server.Prelude.{
  ℕ, ◌+◌, ◌≤◌, ◌≡◌, ◌≢◌, ◌⊎◌, inl, inr, refl, sym, ap, subst, true, false, List, [], ◌∷◌, nat_eq,
  string_eq, ltb, Map, insert, delete, arith, Bool-cases,
}
use kydns_server.Text.{Bytes, bytes_eq}
use kydns_server.Replica.Pairing.{
  InviteBook, new_invite_book, mint, redeem_from, typed_code, redeem,
}

pub data Call : Type 0 where
  mints : Bytes → ℕ → Call
  redeems : Bytes → ℕ → Call

unfoldable pub step : InviteBook → Call → InviteBook
step b (mints code now) = (mint code now b).0
step b (redeems code now) = (redeem code now b).0

-- The book after the calls, the latest first.
unfoldable pub replay : InviteBook → List Call → InviteBook
replay b [] = b
replay b (c ∷ cs) = step (replay b cs) c

-- The code was minted, in one of the calls, so that it is good until then.
abbrev pub Minted : ℕ → Bytes → ℕ → List Call → Type 0
Minted ttl code exp [] = ⊥
Minted ttl code exp (mints c now ∷ cs) = ((c ≡ code) × (now + ttl ≡ exp)) ⊎ Minted ttl code exp cs
Minted ttl code exp (redeems c now ∷ cs) = Minted ttl code exp cs

-- No call mints the code.
abbrev pub NotMinted : Bytes → List Call → Type 0
NotMinted code [] = Unit {0}
NotMinted code (mints c now ∷ cs) = (c ≢ code) × NotMinted code cs
NotMinted code (redeems c now ∷ cs) = NotMinted code cs

abbrev AllMinted : ℕ → List Call → Map Bytes ℕ → Type 0
AllMinted ttl cs [] = Unit {0}
AllMinted ttl cs ((c, exp) ∷ m) = Minted ttl c exp cs × AllMinted ttl cs m

abbrev Absent : Bytes → Map Bytes ℕ → Type 0
Absent code [] = Unit {0}
Absent code ((c, exp) ∷ m) = (c ≢ code) × Absent code m

AllMinted-later :
    (ttl : ℕ) (call : Call) (cs : List Call) (m : Map Bytes ℕ)
    → AllMinted ttl cs m
    → AllMinted ttl (call ∷ cs) m
AllMinted-later ttl call cs [] h = tt
AllMinted-later ttl (mints c now) cs ((k, exp) ∷ m) h =
    (inr h.0, AllMinted-later ttl (mints c now) cs m h.1)
AllMinted-later ttl (redeems c now) cs ((k, exp) ∷ m) h =
    (h.0, AllMinted-later ttl (redeems c now) cs m h.1)

delete-AllMinted :
    (ttl : ℕ) (code : Bytes) (cs : List Call) (m : Map Bytes ℕ)
    → AllMinted ttl cs m
    → AllMinted ttl cs (delete code m)
unfolding delete
delete-AllMinted ttl code cs [] h = tt
delete-AllMinted ttl code cs ((c, exp) ∷ m) h = ground (arith, delete-AllMinted ttl code cs m h.1)

delete-Absent :
    (code other : Bytes) (m : Map Bytes ℕ) → Absent code m → Absent code (delete other m)
unfolding delete
delete-Absent code other [] h = tt
delete-Absent code other ((c, exp) ∷ m) h = ground (arith, delete-Absent code other m h.1)

redeem_from-AllMinted :
    (ttl : ℕ) (code : Bytes) (now : ℕ) (cs : List Call) (m : Map Bytes ℕ)
    → AllMinted ttl cs m
    → AllMinted ttl cs (redeem_from code now m).0
unfolding redeem_from
redeem_from-AllMinted ttl code now cs [] h = tt
redeem_from-AllMinted ttl code now cs ((c, exp) ∷ m) h =
    ground (arith, redeem_from-AllMinted ttl code now cs m h.1)

redeem_from-Absent :
    (code other : Bytes) (now : ℕ) (m : Map Bytes ℕ)
    → Absent code m
    → Absent code (redeem_from other now m).0
unfolding redeem_from
redeem_from-Absent code other now [] h = tt
redeem_from-Absent code other now ((c, exp) ∷ m) h =
    ground (arith, redeem_from-Absent code other now m h.1)

-- A code that is redeemed is gone, expired or not.
redeem_from-spent :
    (code : Bytes) (now : ℕ) (m : Map Bytes ℕ) → Absent code (redeem_from code now m).0
unfolding redeem_from
redeem_from-spent code now [] = tt
redeem_from-spent code now ((c, exp) ∷ m) = ground (arith, redeem_from-spent code now m)

redeem_from_unknown :
    (code : Bytes) (now : ℕ) (m : Map Bytes ℕ) → Absent code m → (redeem_from code now m).1 ≡ false
unfolding redeem_from
redeem_from_unknown code now [] h = refl
redeem_from_unknown code now ((c, exp) ∷ m) h = ground (arith, redeem_from_unknown code now m h.1)

redeem_from-Minted :
    (ttl : ℕ) (code : Bytes) (now : ℕ) (cs : List Call) (m : Map Bytes ℕ)
    → AllMinted ttl cs m
    → (redeem_from code now m).1 ≡ true
    → (exp : ℕ) × Minted ttl code exp cs × (now ≤ exp)
unfolding redeem_from
redeem_from-Minted ttl code now cs [] h found = absurd (ground arith)
redeem_from-Minted ttl code now cs ((c, exp) ∷ m) h found = elim (Bool-cases (ltb exp now)) [
  | inl late ↦ redeem_from-Minted ttl code now cs m h.1 (ground arith)
  | inr early ↦ elim (bytes_eq.dec c code) [
    | yes p ↦ (exp, subst (λ (k : Bytes). Minted ttl k exp cs) p h.0, ground (arith, early))
    | no n ↦ redeem_from-Minted ttl code now cs m h.1 (ground arith)
  ]
]

replay-ttl : (b : InviteBook) (cs : List Call) → (replay b cs).ttl ≡ b.ttl
unfolding replay step mint redeem
replay-ttl b [] = refl
replay-ttl b (mints c now ∷ cs) = replay-ttl b cs
replay-ttl b (redeems c now ∷ cs) = replay-ttl b cs

replay-AllMinted :
    (ttl : ℕ) (cs : List Call) → AllMinted ttl cs (replay (new_invite_book ttl) cs).out
unfolding replay step mint redeem new_invite_book insert
replay-AllMinted ttl [] = tt
replay-AllMinted ttl (mints c now ∷ cs) =
    let b = replay (new_invite_book ttl) cs in
    (
      inl (refl, ap (λ (t : ℕ). now + t) (sym (replay-ttl (new_invite_book ttl) cs))),
      AllMinted-later ttl (mints c now) cs (delete c b.out)
          (delete-AllMinted ttl c cs b.out (replay-AllMinted ttl cs)),
    )
replay-AllMinted ttl (redeems c now ∷ cs) =
    let b = replay (new_invite_book ttl) cs in
    AllMinted-later ttl (redeems c now) cs (redeem_from (typed_code c) now b.out).0
      (redeem_from-AllMinted ttl (typed_code c) now cs b.out (replay-AllMinted ttl cs))

replay-Absent :
    (code : Bytes) (b : InviteBook) (cs : List Call)
    → NotMinted code cs
    → Absent code b.out
    → Absent code (replay b cs).out
unfolding replay step mint redeem insert
replay-Absent code b [] n h = h
replay-Absent code b (mints c now ∷ cs) n h =
    (n.0, delete-Absent code c (replay b cs).out (replay-Absent code b cs n.1 h))
replay-Absent code b (redeems c now ∷ cs) n h =
    redeem_from-Absent code (typed_code c) now (replay b cs).out (replay-Absent code b cs n h)

-- A code that is accepted was minted by the book, and its time to live has not run out. Afterwards it
-- is not accepted again, in whatever case or between whatever white space it is typed, unless it is
-- minted again, whatever other calls there are.
pub redeem_once :
    (ttl : ℕ) (before after : List Call) (code again : Bytes) (now later : ℕ)
    → (redeem code now (replay (new_invite_book ttl) before)).1 ≡ true
    → typed_code again ≡ typed_code code
    → NotMinted (typed_code code) after
    → ((exp : ℕ) × Minted ttl (typed_code code) exp before × (now ≤ exp))
      × ((redeem again later
            (replay (redeem code now (replay (new_invite_book ttl) before)).0 after)).1
          ≡ false)
unfolding redeem
redeem_once ttl before after code again now later good same n =
    let b = replay (new_invite_book ttl) before in
    let spent = (redeem code now b).0 in
    let gone =
      replay-Absent (typed_code code) spent after n
        (redeem_from-spent (typed_code code) now b.out) in
    (
      redeem_from-Minted ttl (typed_code code) now before b.out (replay-AllMinted ttl before) good,
      subst (λ (k : Bytes). (redeem_from k later (replay spent after).out).1 ≡ false) (sym same)
          (redeem_from_unknown (typed_code code) later (replay spent after).out gone),
    )
