-- ===== src/Auth/Tests.antt =====
-- The back-off and the session store of internal/auth at concrete inputs: one session, created at 100,
-- idle after 50 and gone after 200.
use kydns_server.Prelude.{
  ◌≡◌, refl, none, some, List, [], ◌∷◌, string_eq, string_discrete, lookup, insert, delete, arith,
}
use kydns_server.Text.{bytes}
use kydns_server.Auth.Backoff.{delay}
use kydns_server.Auth.Backoff.Doubling.{
  Call as Tries, fails, resets, replay, streak, doubled, delay_exact,
}
use kydns_server.Auth.Session.{
  Sessions, new_sessions, create, expired, get, destroy, valid_csrf, Call, gets, checks, step, run,
}
use kydns_server.Auth.Session.Expiry.{get_after_absolute}

abbrev one_session : Sessions
one_session = (create (new_sessions 50 200) "id" "token" 100).0

program : Unit {0}
unfolding new_sessions create expired get destroy valid_csrf step run lookup insert delete
    string_discrete
program = tt

seen :
    (get one_session "id" 130).1
    ≡ some (record { id = "id"; csrf = "token"; created = 100; last_seen = 130 })
unfolding program
seen = refl

abbrev some_calls : List Call
some_calls = gets "id" 140 ∷ checks "id" "token" 180 ∷ gets "id" 220 ∷ gets "id" 260 ∷ []

get_after_absolute_example : (get (run one_session some_calls) "id" 301).1 ≡ none
unfolding program
get_after_absolute_example =
    get_after_absolute (new_sessions 50 200) "id" "token" 100 301 some_calls
      (tt, (tt, (tt, (tt, tt)))) (omega arith)

-- Three failures and another source's success.
abbrev tries : List Tries
tries = fails (bytes "a") ∷ resets (bytes "b") ∷ fails (bytes "a") ∷ fails (bytes "a") ∷ []

delay_exact_example : delay (bytes "a") (replay tries) ≡ doubled (streak (bytes "a") tries)
delay_exact_example = delay_exact (bytes "a") tries
