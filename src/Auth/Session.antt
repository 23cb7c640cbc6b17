-- ===== src/Auth/Session.antt =====
-- internal/auth/session.go: the in-memory session store. The mutex makes each method one step; the
-- clock's reading and the random identifiers are arguments; times are nanoseconds.
pub mod Expiry
use kydns_server.Prelude.{
  ℕ, ◌+◌, String, Bool, true, false, ◌||◌, ◌&&◌, not, Option, none, some, List, [], ◌∷◌, ◌==◌,
  string_eq, same_text, ltb, if◌then◌else◌, Map, lookup, insert, delete,
}

pub record Session : Type 0 where
  pub id : String
  pub csrf : String
  pub created : ℕ
  pub last_seen : ℕ

pub record Sessions : Type 0 where
  pub by_id : Map String Session
  pub idle : ℕ
  pub absolute : ℕ

unfoldable pub new_sessions : ℕ → ℕ → Sessions
new_sessions idle absolute = record { by_id = []; idle = idle; absolute = absolute }

-- Create, with the two random strings
unfoldable pub create : Sessions → String → String → ℕ → Sessions × Session
create s id csrf now =
    let sess : Session = record { id = id; csrf = csrf; created = now; last_seen = now } in
    (record s { by_id = insert id sess s.by_id }, sess)

-- now - last_seen > idle || now - created > absolute
unfoldable pub expired : Sessions → Session → ℕ → Bool
expired s sess now = ltb (sess.last_seen + s.idle) now || ltb (sess.created + s.absolute) now

unfoldable pub get : Sessions → String → ℕ → Sessions × Option Session
get s id now = elim (lookup id s.by_id) [
  | none ↦ (s, none)
  | some sess ↦
      if expired s sess now
      then (record s { by_id = delete id s.by_id }, none)
      else let seen = record sess { last_seen = now } in
        (record s { by_id = insert id seen s.by_id }, some seen)
]

unfoldable pub destroy : Sessions → String → Sessions
destroy s id = record s { by_id = delete id s.by_id }

unfoldable pub valid_csrf : Sessions → String → String → ℕ → Sessions × Bool
valid_csrf s id token now =
    let (s', found) = get s id now in
    (s', elim found [ none ↦ false | some sess ↦ not (same_text token "") && sess.csrf == token ])

-- The calls that a client can cause; only `creates` needs a password.
pub data Call : Type 0 where
  creates : String → String → ℕ → Call
  gets : String → ℕ → Call
  destroys : String → Call
  checks : String → String → ℕ → Call

unfoldable pub step : Sessions → Call → Sessions
step s (creates id csrf now) = (create s id csrf now).0
step s (gets id now) = (get s id now).0
step s (destroys id) = destroy s id
step s (checks id token now) = (valid_csrf s id token now).0

unfoldable pub run : Sessions → List Call → Sessions
run s [] = s
run s (c ∷ cs) = run (step s c) cs
