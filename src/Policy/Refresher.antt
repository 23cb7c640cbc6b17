-- ===== src/Policy/Refresher.antt =====
-- internal/policy/refresher.go, with the rows of internal/store/blacklist.go that it writes. The
-- download is an argument, and a query to the database does not fail. Times are Unix seconds.
pub mod Safety
mod Tests
use kydns_server.Prelude.{
  ℕ, zero, suc, ◌+◌, ◌-◌, ◌*◌, ◌/◌, ◌%◌, ◌^◌, ◌≤◌, ◌<◌, ◌≡◌, ◌≢◌, ◌↔◌, ◌⊎◌, inl, inr, refl, sym, ap,
  ◌∙◌, subst, String, Bool, true, false, ◌||◌, ◌&&◌, not, Option, none, some, List, [], ◌∷◌, ◌++◌,
  map, ◌==◌, Eq, nat_eq, string_eq, same_text, leb, ltb, if◌then◌else◌, length, is_empty, Map,
  lookup, insert, delete, size, lookup-insert, lookup-delete, arith, Bool-cases, Option-cases,
}
use kydns_server.Text.{
  Bytes, bytes_eq, bytes, to_lower, trim_space, trim_last, has_prefix, has_suffix, contains_byte,
  split, join, trim_suffix,
}
use kydns_server.Policy.Normalize.{Names}
use kydns_server.Policy.Snapshot.{BlacklistSettings, BlacklistList, BlacklistRule}
use kydns_server.Policy.Holder.{Holder, rebuild}
use kydns_server.Policy.Parse.{ParseResult, parse}

-- A row of blacklist_lists; the snapshot is the list that its text joins by line breaks.
pub record ListRow : Type 0 where
  pub id : ℕ
  pub name : Bytes
  pub url : Bytes
  pub format : Bytes
  pub enabled : Bool
  pub interval_seconds : ℕ
  pub last_attempt_at : ℕ
  pub last_ok_at : ℕ
  pub last_error : Bytes
  pub etag : Bytes
  pub last_modified : Bytes
  pub entry_count : ℕ
  pub skipped_count : ℕ
  pub snapshot : List Bytes

-- UPDATE blacklist_lists SET … WHERE id = ?
unfoldable pub update_row : (ListRow → ListRow) → ℕ → List ListRow → List ListRow
update_row f id [] = []
update_row f id (r ∷ rs) =
    let rest = update_row f id rs in if r.id == id then f r ∷ rest else r ∷ rest

unfoldable pub row_by_id : ℕ → List ListRow → Option ListRow
row_by_id id [] = none
row_by_id id (r ∷ rs) = let rest = row_by_id id rs in if r.id == id then some r else rest

unfoldable pub with_snapshot : ParseResult → Bytes → Bytes → ℕ → ListRow → ListRow
with_snapshot res etag last_modified at r = record r {
  snapshot = res.domains;
  entry_count = length res.domains;
  skipped_count = res.skipped;
  etag = etag;
  last_modified = last_modified;
  last_ok_at = at;
  last_attempt_at = at;
  last_error = [];
}

unfoldable pub with_error : Bytes → ℕ → ListRow → ListRow
with_error msg at r = record r { last_error = msg; last_attempt_at = at }

unfoldable pub with_touch : ℕ → ListRow → ListRow
with_touch at r = record r { last_attempt_at = at; last_ok_at = at; last_error = [] }

-- What Fetch gives.
pub data Fetched : Type 0 where
  fetch_failed : Bytes → Fetched
  not_modified : Fetched
  downloaded : Bytes → Bytes → Bytes → Fetched

-- The rows after refresh, whether the attempt succeeded, and whether the snapshot changed.
pub record Refreshed : Type 0 where
  pub rows : List ListRow
  pub ok : Bool
  pub changed : Bool

abbrev pub no_usable_domains : Bytes
no_usable_domains = bytes "no usable domains in the downloaded body"

-- `clock l` is the reading of the clock at which the refresh of the list starts.
module _ (names : Names) (parse_error : Bytes) (fetch : ListRow → Fetched)
    (clock : ListRow → ℕ) where
  unfoldable pub fail : ListRow → Bytes → List ListRow → Refreshed
  unfolding with_error
  fail l cause rows = record {
    rows = update_row (with_error cause (clock l)) l.id rows;
    ok = false;
    changed = false;
  }

  -- SetBlacklistSnapshot, which refuses a list that is gone
  unfoldable pub install : ListRow → ParseResult → Bytes → Bytes → List ListRow → Refreshed
  unfolding with_snapshot
  install l res etag last_modified rows = elim (row_by_id l.id rows) [
    | none ↦ fail l (bytes "not found") rows
    | some _ ↦ record {
      rows = update_row (with_snapshot res etag last_modified (clock l)) l.id rows;
      ok = true;
      changed = true;
    }
  ]

  unfoldable pub refresh_body : ListRow → Bytes → Bytes → Bytes → List ListRow → Refreshed
  refresh_body l body etag last_modified rows = elim (parse names l.format body) [
    | none ↦ fail l parse_error rows
    | some res ↦
        if is_empty res.domains
        then fail l no_usable_domains rows
        else install l res etag last_modified rows
  ]

  unfoldable pub refresh : ListRow → List ListRow → Refreshed
  unfolding with_touch
  refresh l rows = elim (fetch l) [
    | fetch_failed cause ↦ fail l cause rows
    | not_modified ↦ record {
      rows = update_row (with_touch (clock l)) l.id rows;
      ok = true;
      changed = false;
    }
    | downloaded body etag last_modified ↦ refresh_body l body etag last_modified rows
  ]

  -- The list is enabled and its interval has elapsed.
  unfoldable pub due : ℕ → ListRow → Bool
  due now l = l.enabled && not (ltb now (l.last_attempt_at + l.interval_seconds))

  -- The loop over the lists that were read at the start, for those that the test picks.
  unfoldable pub refresh_lists :
      (ListRow → Bool) → List ListRow → List ListRow → Bool → List ListRow × Bool
  refresh_lists pick [] rows changed = (rows, changed)
  refresh_lists pick (l ∷ ls) rows changed =
      let r = refresh l rows in
      if pick l
      then refresh_lists pick ls r.rows (changed || r.changed)
      else refresh_lists pick ls rows changed

-- The refresher's store and holder, with the settings and rules that a rebuild reads.
pub record Refresher : Type 0 where
  pub rows : List ListRow
  pub holder : Holder
  pub settings : BlacklistSettings
  pub rules : List BlacklistRule

abbrev pub to_list : ListRow → BlacklistList
to_list r = record { name = r.name; enabled = r.enabled; snapshot = r.snapshot }

unfoldable pub rebuild_policy : Refresher → Refresher
rebuild_policy r = record r {
  holder = (rebuild r.holder (some (r.settings, map to_list r.rows, r.rules))).0;
}

unfoldable pub refresh_due :
    Names → Bytes → (ListRow → Fetched) → (ListRow → ℕ) → ℕ → Refresher → Refresher
refresh_due names parse_error fetch clock now r =
    let (rows, changed) =
      refresh_lists names parse_error fetch clock (due names parse_error fetch clock now) r.rows
        r.rows false in
    if changed then rebuild_policy (record r { rows = rows }) else record r { rows = rows }

unfoldable pub refresh_all :
    Names → Bytes → (ListRow → Fetched) → (ListRow → ℕ) → Refresher → Refresher
refresh_all names parse_error fetch clock r =
    let (rows, changed) =
      refresh_lists names parse_error fetch clock (λ l. l.enabled) r.rows r.rows false in
    rebuild_policy (record r { rows = rows })
