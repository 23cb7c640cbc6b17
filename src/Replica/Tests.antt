-- ===== src/Replica/Tests.antt =====
-- The invite codes and the loop of internal/replica at concrete inputs.
use kydns_server.Prelude.{ℕ, ◌≤◌, ◌≡◌, refl, false, [], ◌∷◌, nat_eq, string_eq, insert, delete}
use kydns_server.Text.{bytes_eq, bytes, trim_space}
use native.Mathlib.Decide.{ℕ_discrete}
use kydns_server.Text.{Bytes-discrete, trim_left, trim_right}
use kydns_server.Replica.Pairing.{new_invite_book, mint, redeem_from, redeem}
use kydns_server.Replica.Pairing.Once.{mints, step, replay, Minted, redeem_once}
use kydns_server.Prelude.{none, some}
use kydns_server.Replica.Puller.{
  got, lost, Puller, World, new_puller, poll, ask_version, follow, pull, take_document,
  apply_document, poll_health, reachable, synced, health_unknown,
}
use kydns_server.Replica.Puller.Follows.{Follows, poll-Follows}

program : Unit {0}
unfolding new_puller poll ask_version follow pull take_document apply_document poll_health reachable
    synced health_unknown new_invite_book mint redeem_from redeem step replay insert delete
    trim_space trim_left trim_right Bytes-discrete ℕ_discrete
program = tt

-- Minted at 5 for 10, typed in lower case at 15, and again at 16.
redeem_once_example :
    ((exp : ℕ) × Minted 10 (bytes "AB2") exp (mints (bytes "AB2") 5 ∷ []) × (15 ≤ exp))
    × ((redeem (bytes "AB2") 16 (
          replay
            (redeem (bytes " ab2 ") 15 (replay (new_invite_book 10) (mints (bytes "AB2") 5 ∷ []))).0
            [])).1
        ≡ false)
unfolding program
redeem_once_example =
    redeem_once 10 (mints (bytes "AB2") 5 ∷ []) [] (bytes " ab2 ") (bytes "AB2") 15 16 refl refl tt

-- A primary that answers with a newer document of the key that is pinned.
abbrev primary : World
primary = record {
  dial = none;
  version = λ held. got (record { node_id = bytes "k"; schema_version = 3; config_version = 8 });
  health_status = lost (bytes "timeout");
  document =
      got (record {
        node_id = bytes "k";
        schema_version = 3;
        config_version = 8;
        config = bytes "{}";
      });
  apply = λ c. none;
  set_state = none;
  wrong_node = λ n. n;
  wrong_schema = λ n. [];
  now = 100;
}

abbrev start : Puller
start = new_puller 3 (bytes "k") 5 60 (got (bytes "k", 7))

follows_primary : (poll 3 primary start).config ≡ some (bytes "{}")
unfolding program
follows_primary = refl

poll-Follows_example : Follows 3 primary start (poll 3 primary start)
poll-Follows_example = poll-Follows 3 primary start
