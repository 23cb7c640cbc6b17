-- ===== src/Replica/Puller.antt =====
-- internal/replica/puller.go: one tick of the loop that follows a primary. What the primary answers,
-- and whether the writes to the local store succeed, are arguments; the log is left out.
pub mod Follows
use kydns_server.Prelude.{
  ℕ, zero, suc, ◌+◌, ◌-◌, ◌*◌, ◌/◌, ◌%◌, ◌^◌, ◌≤◌, ◌<◌, ◌≡◌, ◌≢◌, ◌↔◌, ◌⊎◌, inl, inr, refl, sym, ap,
  ◌∙◌, subst, String, Bool, true, false, ◌||◌, ◌&&◌, not, Option, none, some, List, [], ◌∷◌, ◌++◌,
  map, ◌==◌, Eq, nat_eq, string_eq, same_text, leb, ltb, if◌then◌else◌, length, is_empty, Map,
  lookup, insert, delete, size, lookup-insert, lookup-delete, arith, Bool-cases, Option-cases,
}
use kydns_server.Text.{
  Bytes, bytes_eq, bytes, to_lower, trim_space, trim_last, has_prefix, has_suffix, contains_byte,
  split, join, trim_suffix,
}

-- A result of a call, or the text of its error.
pub data Got (A : Type 0) : Type 0 where
  got : A → Got A
  lost : Bytes → Got A

-- VersionReply and Snapshot, whose document is opaque.
pub record VersionReply : Type 0 where
  pub node_id : Bytes
  pub schema_version : ℕ
  pub config_version : ℕ

pub record Document : Type 0 where
  pub node_id : Bytes
  pub schema_version : ℕ
  pub config_version : ℕ
  pub config : Bytes

-- The state of the loop, with the configuration and the row that it has written last.
pub record Puller : Type 0 where
  pub pinned : Bytes
  pub interval : ℕ
  pub ceiling : ℕ
  pub connected : Bool
  pub last_version : ℕ
  pub last_sync_at : ℕ
  pub last_err : Bytes
  pub backoff : ℕ
  pub health : Map Bytes Bytes
  pub health_known : Bool
  pub config : Option Bytes
  pub row : Bytes × ℕ

-- What a tick meets: Dial, the three requests, Apply and SetReplicaState with their errors, the
-- texts of the errors of the loop itself, and the clock.
pub record World : Type 0 where
  pub dial : Option Bytes
  pub version : ℕ → Got VersionReply
  pub health_status : Got (Map Bytes Bytes)
  pub document : Got Document
  pub apply : Bytes → Option Bytes
  pub set_state : Option Bytes
  pub wrong_node : Bytes → Bytes
  pub wrong_schema : ℕ → Bytes
  pub now : ℕ

-- SchemaVersion is the one that this node speaks.
module _ (schema : ℕ) where
  unfoldable pub new_puller : Bytes → ℕ → ℕ → Got (Bytes × ℕ) → Puller
  new_puller pinned interval ceiling stored =
      let p : Puller = record {
        pinned = pinned;
        interval = interval;
        ceiling = ceiling;
        connected = false;
        last_version = 0;
        last_sync_at = 0;
        last_err = [];
        backoff = interval;
        health = [];
        health_known = false;
        config = none;
        row = ([], 0);
      } in
      elim stored [
        | lost e ↦ record p { last_err = e }
        | got (node, version) ↦
            if node == pinned
            then record p { last_version = version; row = (node, version) }
            else record p { row = (node, version) }
      ]

  unfoldable pub drop : Puller → Puller
  drop p = record p { connected = false }

  unfoldable pub health_unknown : Puller → Puller
  health_unknown p = record p { health_known = false }

  abbrev pub doubled_backoff : Puller → ℕ
  doubled_backoff p = if ltb p.ceiling (p.backoff * 2) then p.ceiling else p.backoff * 2

  -- unreachable, and reject, which differs in the level of the log
  unfoldable pub back_off : Bytes → Puller → Puller
  back_off e p = record p { last_err = e; backoff = doubled_backoff p }

  unfoldable pub reachable : Puller → Puller
  reachable p = record p { backoff = p.interval }

  unfoldable pub fail : Bytes → Puller → Puller
  fail e p = record p { last_err = e }

  unfoldable pub synced : ℕ → ℕ → Puller → Puller
  synced version now p = record p { last_version = version; last_sync_at = now; last_err = [] }

  unfoldable pub poll_health : World → Puller → Puller
  poll_health w p = elim w.health_status [
    | lost _ ↦ health_unknown p
    | got statuses ↦ record p { health = statuses; health_known = true }
  ]

  -- Health: what the operator sees.
  unfoldable pub shown_health : Puller → Map Bytes Bytes
  shown_health p = if p.health_known then p.health else map (λ e. (e.0, bytes "unknown")) p.health

  -- The write of a document, and of the row.
  unfoldable pub apply_document : World → Document → Puller → Puller
  apply_document w d p = elim (w.apply d.config) [
    | some e ↦ fail e p
    | none ↦
        let p' = record p { config = some d.config } in
        elim w.set_state [
          | some e ↦ fail e p'
          | none ↦ synced d.config_version w.now (record p' { row = (p.pinned, d.config_version) })
        ]
  ]

  unfoldable pub take_document : World → Document → Puller → Puller
  take_document w d p =
      if not (d.node_id == p.pinned)
      then fail (w.wrong_node d.node_id) (drop p)
      else if not (d.schema_version == schema)
      then fail (w.wrong_schema d.schema_version) p
      else apply_document w d p

  -- What follows the request for health.
  unfoldable pub pull : World → VersionReply → Puller → Puller
  pull w v p =
      if v.config_version == p.last_version
      then synced v.config_version w.now p
      else elim w.document [ lost e ↦ fail e (drop p) | got d ↦ take_document w d p ]

  unfoldable pub follow : World → VersionReply → Puller → Puller
  follow w v p =
      if not (v.node_id == p.pinned)
      then health_unknown (back_off (w.wrong_node v.node_id) (drop p))
      else if not (v.schema_version == schema)
      then health_unknown (fail (w.wrong_schema v.schema_version) (reachable p))
      else pull w v (poll_health w (reachable p))

  -- The request for the version, over a connection that is there.
  unfoldable pub ask_version : World → Puller → Puller
  ask_version w p = elim (w.version p.last_version) [
    | lost e ↦ health_unknown (back_off e (drop p))
    | got v ↦ follow w v p
  ]

  unfoldable pub poll : World → Puller → Puller
  poll w p = if p.connected then ask_version w p else elim w.dial [
    | some e ↦ health_unknown (back_off e p)
    | none ↦ ask_version w (record p { connected = true })
  ]
