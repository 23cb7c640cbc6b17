-- ===== src/Policy/Refresher/Tests.antt =====
-- The lists of internal/policy at concrete inputs: a list in the hosts format, and its download.
use kydns_server.Prelude.{◌≤◌, refl, true, false, some, [], ◌∷◌, ◌++◌, nat_eq, string_eq, length}
use kydns_server.Text.{
  Bytes, bytes_eq, bytes, to_lower, trim_space, trim_last, has_prefix, contains_byte, split,
}
use native.Mathlib.Decide.{ℕ_discrete}
use kydns_server.Text.{
  Bytes-discrete, trim_left, trim_right, prepend, fields, split_space, nonempty, contains_any,
}
use kydns_server.Policy.Normalize.{
  Names, normalize, check_ascii, all_valid, valid_label, label_bytes, label_byte, last_is,
}
use kydns_server.Policy.Set.{member}
use kydns_server.Policy.Holder.{new_holder}
use kydns_server.Policy.Parse.{
  ParseResult, format_hosts, parse_limit, valid_format, line_domains, hosts_names, accept,
  add_names, add_line, read_line, read_lines,
}
use kydns_server.Policy.Parse.Listed.{AllListed, parse_limit-AllListed}
use kydns_server.Policy.Refresher.{ListRow, Fetched, downloaded, Refresher, refresh_due}
use kydns_server.Policy.Refresher.Safety.{RowsKept, IsDue, refresh_due-RowsKept}
use kydns_server.Zone.Matcher.{sort_texts, insert_text}

abbrev plain : Names
plain = record { is_address = λ s. false; to_ascii = λ s. some s }

-- A comment, a name of the local host, a name, and the same again.
abbrev body : Bytes
body =
    bytes "# ads"
    ++ 10 ∷ bytes "0.0.0.0 localhost"
    ++ 10 ∷ bytes "0.0.0.0 A.example"
    ++ 10 ∷ bytes "0.0.0.0 a.example."

abbrev result : ParseResult
result = record { domains = bytes "a.example" ∷ []; skipped = 1 }

program : Unit {0}
unfolding parse_limit valid_format line_domains hosts_names accept add_names add_line read_line
    read_lines sort_texts insert_text member normalize check_ascii all_valid valid_label label_bytes
    label_byte last_is to_lower trim_space trim_left trim_right trim_last contains_byte split
    prepend fields split_space nonempty contains_any has_prefix Bytes-discrete ℕ_discrete
program = tt

parse_limit-AllListed_example :
    AllListed plain (bytes "a.example" ∷ []) × (length (bytes "a.example" ∷ []) ≤ 5)
unfolding program
parse_limit-AllListed_example = parse_limit-AllListed plain format_hosts 5 body result refl

abbrev row : ListRow
row = record {
  id = 1;
  name = bytes "ads";
  url = bytes "https://ads.example/";
  format = format_hosts;
  enabled = true;
  interval_seconds = 3600;
  last_attempt_at = 0;
  last_ok_at = 0;
  last_error = [];
  etag = [];
  last_modified = [];
  entry_count = 0;
  skipped_count = 0;
  snapshot = bytes "old.example" ∷ [];
}

abbrev refresher : Refresher
refresher = record {
  rows = row ∷ [];
  holder = new_holder;
  settings = record { enabled = true; block_ttl = 0 };
  rules = [];
}

abbrev fetch : ListRow → Fetched
fetch l = downloaded body [] []

-- The refresh starts a second after the round.
refresh_due-RowsKept_example :
    RowsKept plain
      (IsDue plain [] fetch (λ l. 4001) 4000 (row ∷ []))
      (row ∷ [])
      (refresh_due plain [] fetch (λ l. 4001) 4000 refresher).rows
refresh_due-RowsKept_example = refresh_due-RowsKept plain [] fetch (λ l. 4001) 4000 refresher
