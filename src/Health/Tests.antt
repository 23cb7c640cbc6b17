-- ===== src/Health/Tests.antt =====
-- The health checker of internal/health at concrete inputs.
use kydns_server.Prelude.{◌≡◌, refl, none, some, [], ◌∷◌, nat_eq, string_eq, lookup}
use kydns_server.Text.{bytes_eq, bytes}
use native.Mathlib.Decide.{ℕ_discrete}
use kydns_server.Health.Checker.{down, Entry, Service, new_checker}
use kydns_server.Health.Checker.Hysteresis.{Log, replay, verdict, streak, replay-verdict}

program : Unit {0}
unfolding verdict streak new_checker lookup ℕ_discrete
program = tt

abbrev web : Service
web = record { id = 4; name = bytes "web"; check_url = bytes "http://10.0.0.4/" }

-- Healthy, then two timeouts.
abbrev log : Log
log = (some (bytes "timeout"), 20) ∷ (none, 10) ∷ []

is_down : verdict ((some (bytes "timeout"), 30) ∷ log) ≡ down
unfolding program
is_down = refl

replay-verdict_example :
    (e : Entry) × (lookup 4
        (replay web ((some (bytes "timeout"), 30) ∷ log) (new_checker 0 5 0)).entries
      ≡ some e)
    × (e.status.state ≡ verdict ((some (bytes "timeout"), 30) ∷ log))
unfolding program
replay-verdict_example = replay-verdict web (some (bytes "timeout")) 30 log (new_checker 0 5 0) refl
