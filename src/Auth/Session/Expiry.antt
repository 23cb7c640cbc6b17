-- ===== src/Auth/Session/Expiry.antt =====
-- When a session of internal/auth/session.go is live.
use kydns_server.Prelude.{
  ℕ, ◌+◌, ◌≤◌, ◌<◌, ◌≡◌, ◌≢◌, ◌⊎◌, ◌↔◌, inl, inr, refl, ◌∙◌, String, true, none, some, List, [],
  ◌∷◌, string_eq, lookup, lookup-insert, lookup-delete, arith, Option-cases, Bool-cases,
}
use kydns_server.Auth.Session.{
  Session, Sessions, create, expired, get, destroy, valid_csrf, Call, creates, gets, destroys,
  checks, step, run,
}

-- Within both deadlines.
pub record IsLive (s : Sessions) (sess : Session) (now : ℕ) : Type 0 where
  pub recent : now ≤ sess.last_seen + s.idle
  pub young : now ≤ sess.created + s.absolute

-- `Get` returns a session exactly when the store has it within both deadlines, and then only the
-- idle window slides: the answer is the stored session, seen now, and is what the store keeps. An
-- expired session is dropped. No other session is touched.
pub get_exact :
    (s : Sessions) (id : String) (now : ℕ)
    → (((sess : Session) × (lookup id s.by_id ≡ some sess)
          × IsLive s sess now
          × ((get s id now).1 ≡ some (record sess { last_seen = now }))
          × (lookup id (get s id now).0.by_id ≡ some (record sess { last_seen = now })))
        ⊎ (((sess : Session) → lookup id s.by_id ≡ some sess → ¬ IsLive s sess now)
            × ((get s id now).1 ≡ none)
            × (lookup id (get s id now).0.by_id ≡ none)))
      × ((other : String) → other ≢ id → lookup other (get s id now).0.by_id ≡ lookup other s.by_id)
unfolding get expired
get_exact s id now = elim (Option-cases (lookup id s.by_id)) [
  | inl e ↦
      (inr (λ sess h. absurd (ground arith), ground arith, ground arith), λ other n. ground arith)
  | inr (sess, e) ↦ elim (Bool-cases (expired s sess now)) [
    | inl old ↦ (
      inr (λ k h live. ground arith, ground arith, ground (arith, lookup-delete id id s.by_id)),
      λ other n. ground (arith, lookup-delete other id s.by_id),
    )
    | inr fresh ↦ (
      inl (
        sess,
        e,
        ground arith,
        ground arith,
        ground (arith, lookup-insert id id (record sess { last_seen = now }) s.by_id),
      ),
      λ other n. ground (arith, lookup-insert other id (record sess { last_seen = now }) s.by_id),
    )
  ]
]

-- The store's session under `id`, if it has one, was created at `born`.
abbrev BornAt : Sessions → String → ℕ → Type 0
BornAt s id born = (sess : Session) → lookup id s.by_id ≡ some sess → sess.created ≡ born

-- The call does not create a session under `id`.
abbrev pub NotCreating : String → Call → Type 0
NotCreating id (creates other csrf now) = other ≢ id
NotCreating id (gets other now) = Unit {0}
NotCreating id (destroys other) = Unit {0}
NotCreating id (checks other token now) = Unit {0}

abbrev pub NoneCreating : String → List Call → Type 0
NoneCreating id [] = Unit {0}
NoneCreating id (c ∷ cs) = NotCreating id c × NoneCreating id cs

get-BornAt :
    (s : Sessions) (id other : String) (now born : ℕ)
    → BornAt s id born
    → BornAt (get s other now).0 id born
unfolding get
get-BornAt s id other now born b sess h = elim (Option-cases (lookup other s.by_id)) [
  | inl e ↦ ground (arith, b sess)
  | inr (old, e) ↦ ground (
    arith,
    b sess,
    b old,
    lookup-delete id other s.by_id,
    lookup-insert id other (record old { last_seen = now }) s.by_id,
  )
]

step-BornAt :
    (s : Sessions) (id : String) (c : Call) (born : ℕ)
    → NotCreating id c
    → BornAt s id born
    → BornAt (step s c) id born
unfolding step create destroy valid_csrf
step-BornAt s id (creates other csrf now) born n b sess h = ground (
  arith,
  b sess,
  lookup-insert id other (record { id = other; csrf = csrf; created = now; last_seen = now })
      s.by_id,
)
step-BornAt s id (gets other now) born n b sess h = get-BornAt s id other now born b sess h
step-BornAt s id (destroys other) born n b sess h =
    ground (arith, b sess, lookup-delete id other s.by_id)
step-BornAt s id (checks other token now) born n b sess h = get-BornAt s id other now born b sess h

run-BornAt :
    (s : Sessions) (id : String) (cs : List Call) (born : ℕ)
    → NoneCreating id cs
    → BornAt s id born
    → BornAt (run s cs) id born
unfolding run
run-BornAt s id [] born n b = b
run-BornAt s id (c ∷ cs) born n b =
    run-BornAt (step s c) id cs born n.1 (step-BornAt s id c born n.0 b)

step-absolute : (s : Sessions) (c : Call) → (step s c).absolute ≡ s.absolute
unfolding step create get destroy valid_csrf
step-absolute s (creates id csrf now) = refl
step-absolute s (gets id now) = ground arith
step-absolute s (destroys id) = refl
step-absolute s (checks id token now) = ground arith

run-absolute : (s : Sessions) (cs : List Call) → (run s cs).absolute ≡ s.absolute
unfolding run
run-absolute s [] = refl
run-absolute s (c ∷ cs) = run-absolute (step s c) cs ∙ step-absolute s c

created-BornAt :
    (s : Sessions) (id csrf : String) (born : ℕ) → BornAt (create s id csrf born).0 id born
unfolding create
created-BornAt s id csrf born sess h = ground (
  arith,
  lookup-insert id id (record { id = id; csrf = csrf; created = born; last_seen = born }) s.by_id,
)

create-absolute :
    (s : Sessions) (id csrf : String) (born : ℕ) → (create s id csrf born).0.absolute ≡ s.absolute
unfolding create
create-absolute s id csrf born = refl

-- No use of a session keeps it past its absolute deadline: after any calls that do not create it
-- anew, a `Get` later than `absolute` after its creation returns nothing.
pub get_after_absolute :
    (s : Sessions) (id csrf : String) (born now : ℕ) (cs : List Call)
    → NoneCreating id cs
    → born + s.absolute < now
    → (get (run (create s id csrf born).0 cs) id now).1 ≡ none
get_after_absolute s id csrf born now cs n late =
    let first = (create s id csrf born).0 in
    let t = run first cs in
    let same = run-absolute first cs ∙ create-absolute s id csrf born in
    let b = run-BornAt first id cs born n (created-BornAt s id csrf born) in
    elim (get_exact t id now).0 [
      | inl (sess, e, live, _, _) ↦ absurd (omega (arith, live.young, b sess e, same))
      | inr (_, gone, _) ↦ gone
    ]

-- A form token passes exactly when it is not empty and is the token of a live session of that id.
pub valid_csrf_exact :
    (s : Sessions) (id token : String) (now : ℕ)
    → ((valid_csrf s id token now).1 ≡ true) ↔ (
        (sess : Session) × (lookup id s.by_id ≡ some sess)
        × IsLive s sess now
        × (token ≢ "")
        × (sess.csrf ≡ token))
unfolding valid_csrf
valid_csrf_exact s id token now = elim (get_exact s id now).0 [
  | inl (sess, e, live, got, _) ↦
      (λ h. (sess, e, live, ground arith, ground arith), λ h. ground arith)
  | inr (dead, gone, _) ↦ (λ h. absurd (ground arith), λ h. absurd (dead h.0 h.1 h.2))
]
