-- ===== src/Replica/Puller/Follows.antt =====
-- Whom a replica of internal/replica/puller.go follows.
use kydns_server.Prelude.{
  ℕ, ◌≤◌, ◌≡◌, ◌⊎◌, inl, inr, refl, sym, ap, ◌∙◌, subst, true, none, some, ◌==◌, nat_eq, string_eq,
  arith, Bool-cases, Option-cases,
}
use kydns_server.Text.{Bytes, bytes_eq}
use kydns_server.Replica.Puller.{
  Got, got, lost, VersionReply, Document, Puller, World, drop, health_unknown, back_off, reachable,
  fail, synced, poll_health, apply_document, take_document, pull, follow, ask_version, poll,
}

Got-cases : {A : Type 0} (g : Got A) → ((e : Bytes) × (g ≡ lost e)) ⊎ ((a : A) × (g ≡ got a))
Got-cases (lost e) = inl (e, refl)
Got-cases (got a) = inr (a, refl)

-- The configuration that the node serves is the old one, or that of a document which names the pinned
-- key and speaks the schema of the node, and which the store took.
abbrev pub ConfigFrom : ℕ → World → Puller → Puller → Type 0
ConfigFrom schema w p p' =
    (p'.config ≡ p.config)
    ⊎ ((d : Document) × (w.document ≡ got d)
        × (d.node_id ≡ p.pinned)
        × (d.schema_version ≡ schema)
        × (w.apply d.config ≡ none)
        × (p'.config ≡ some d.config))

-- The version that the node holds is the old one, with the old row, or that of a document that was
-- written, with the row of the pinned key.
abbrev pub VersionFrom : World → Puller → Puller → Type 0
VersionFrom w p p' =
    ((p'.last_version ≡ p.last_version) × (p'.row ≡ p.row))
    ⊎ ((d : Document) × (w.document ≡ got d)
        × (p'.last_version ≡ d.config_version)
        × (p'.config ≡ some d.config)
        × (p'.row ≡ (p.pinned, d.config_version)))

-- The health that is shown as known is that of this tick.
abbrev pub HealthFrom : World → Puller → Type 0
HealthFrom w p' = p'.health_known ≡ true → w.health_status ≡ got p'.health

-- The wait stays between the interval and the ceiling.
abbrev pub IsWaiting : Puller → Type 0
IsWaiting p = (p.interval ≤ p.backoff) × (p.backoff ≤ p.ceiling)

pub record Follows (schema : ℕ) (w : World) (p p' : Puller) : Type 0 where
  pub pin : p'.pinned ≡ p.pinned
  pub config : ConfigFrom schema w p p'
  pub version : VersionFrom w p p'
  pub health : HealthFrom w p'
  pub waiting : IsWaiting p → IsWaiting p'

-- What a tick has when it asks for the document: nothing but the wait and the health has changed.
record Ready (w : World) (p q : Puller) : Type 0 where
  pin : q.pinned ≡ p.pinned
  config : q.config ≡ p.config
  version : q.last_version ≡ p.last_version
  row : q.row ≡ p.row
  health : HealthFrom w q
  waiting : IsWaiting p → IsWaiting q

module _ (schema : ℕ) (w : World) (p : Puller) where
  Ready-Follows : (q : Puller) → Ready w p q → Follows schema w p q
  Ready-Follows q r = record {
    pin = r.pin;
    config = inl r.config;
    version = inl (r.version, r.row);
    health = r.health;
    waiting = r.waiting;
  }

  fail-Ready : (e : Bytes) (q : Puller) → Ready w p q → Ready w p (fail schema e q)
  unfolding fail
  fail-Ready e q r = record {
    pin = r.pin;
    config = r.config;
    version = r.version;
    row = r.row;
    health = r.health;
    waiting = r.waiting;
  }

  drop-Ready : (q : Puller) → Ready w p q → Ready w p (drop schema q)
  unfolding drop
  drop-Ready q r = record {
    pin = r.pin;
    config = r.config;
    version = r.version;
    row = r.row;
    health = r.health;
    waiting = r.waiting;
  }

  apply_document-Follows :
      (d : Document) (q : Puller)
      → Ready w p q
      → w.document ≡ got d
      → d.node_id ≡ p.pinned
      → d.schema_version ≡ schema
      → Follows schema w p (apply_document schema w d q)
  unfolding apply_document synced fail
  apply_document-Follows d q r here named speaks = elim (Option-cases (w.apply d.config)) [
    | inr (e, a) ↦ rw (a, apply_document) (Ready-Follows (fail schema e q) (fail-Ready e q r))
    | inl a ↦ elim (Option-cases w.set_state) [
      | inr (e, s) ↦
          rw (a, s, apply_document)
            (record {
              pin = r.pin;
              config = inr (d, here, named, speaks, a, refl);
              version = inl (r.version, r.row);
              health = r.health;
              waiting = r.waiting;
            })
      | inl s ↦
          rw (a, s, apply_document)
            (record {
              pin = r.pin;
              config = inr (d, here, named, speaks, a, refl);
              version = inr (d, here, refl, refl, ap (λ (n : Bytes). (n, d.config_version)) r.pin);
              health = r.health;
              waiting = r.waiting;
            })
    ]
  ]

  take_document-Follows :
      (d : Document) (q : Puller)
      → Ready w p q
      → w.document ≡ got d
      → Follows schema w p (take_document schema w d q)
  unfolding take_document
  take_document-Follows d q r here = elim (Bool-cases (d.node_id == q.pinned)) [
    | inr other ↦
        rw (other, take_document)
          (Ready-Follows _ (fail-Ready (w.wrong_node d.node_id) _ (drop-Ready q r)))
    | inl named ↦ elim (Bool-cases (d.schema_version == schema)) [
      | inr other ↦
          rw (named, other, take_document)
            (Ready-Follows _ (fail-Ready (w.wrong_schema d.schema_version) q r))
      | inl speaks ↦
          rw (named, speaks, take_document)
            (apply_document-Follows d q r here (ground (arith, named, r.pin))
              (ground (arith, speaks)))
    ]
  ]

  pull-Follows :
      (v : VersionReply) (q : Puller) → Ready w p q → Follows schema w p (pull schema w v q)
  unfolding pull synced
  pull-Follows v q r = elim (Bool-cases (v.config_version == q.last_version)) [
    | inl held ↦
        let same : v.config_version ≡ q.last_version = ground arith in
        rw (held, pull)
          (record {
            pin = r.pin;
            config = inl r.config;
            version = inl (same ∙ r.version, r.row);
            health = r.health;
            waiting = r.waiting;
          })
    | inr new ↦ elim (Got-cases w.document) [
      | inl (e, g) ↦
          let step : pull schema w v q ≡ fail schema e (drop schema q) = ground arith in
          subst (Follows schema w p) (sym step)
            (Ready-Follows _ (fail-Ready e (drop schema q) (drop-Ready q r)))
      | inr (d, g) ↦
          let step : pull schema w v q ≡ take_document schema w d q = ground arith in
          subst (Follows schema w p) (sym step) (take_document-Follows d q r g)
    ]
  ]

  -- A tick that gets no further than the version.
  refused-Follows :
      (e : Bytes) (q : Puller)
      → (q.pinned ≡ p.pinned)
        × (q.config ≡ p.config)
        × (q.last_version ≡ p.last_version)
        × (q.row ≡ p.row)
        × (IsWaiting p → IsWaiting q)
      → Follows schema w p (health_unknown schema (back_off schema e q))
  unfolding health_unknown back_off
  refused-Follows e q (pin, config, version, row, waiting) = record {
    pin = pin;
    config = inl config;
    version = inl (version, row);
    health = λ h. absurd (ground arith);
    waiting = λ h. ground (arith, waiting h);
  }

  reached-Ready :
      (q : Puller)
      → (q.pinned ≡ p.pinned)
        × (q.config ≡ p.config)
        × (q.last_version ≡ p.last_version)
        × (q.row ≡ p.row)
        × (q.interval ≡ p.interval)
        × (q.ceiling ≡ p.ceiling)
      → Ready w p (poll_health schema w (reachable schema q))
  unfolding poll_health reachable health_unknown
  reached-Ready q (pin, config, version, row, interval, ceiling) =
      elim (Got-cases w.health_status) [
        | inl (e, g) ↦
            rw (g, poll_health)
              (record {
                pin = pin;
                config = config;
                version = version;
                row = row;
                health = λ h. absurd (ground arith);
                waiting = λ h. (omega arith, omega (arith, h.0, h.1, interval, ceiling));
              })
        | inr (statuses, g) ↦
            rw (g, poll_health)
              (record {
                pin = pin;
                config = config;
                version = version;
                row = row;
                health = λ h. refl;
                waiting = λ h. (omega arith, omega (arith, h.0, h.1, interval, ceiling));
              })
      ]

  -- Nothing of what a tick may change has changed yet.
  abbrev Untouched : Puller → Type 0
  Untouched q =
      (q.pinned ≡ p.pinned)
      × (q.config ≡ p.config)
      × (q.last_version ≡ p.last_version)
      × (q.row ≡ p.row)
      × (q.interval ≡ p.interval)
      × (q.ceiling ≡ p.ceiling)
      × (q.backoff ≡ p.backoff)

  follow-Follows :
      (v : VersionReply) (q : Puller) → Untouched q → Follows schema w p (follow schema w v q)
  unfolding follow drop reachable fail health_unknown
  follow-Follows v q (pin, config, version, row, interval, ceiling, backoff) =
      elim (Bool-cases (v.node_id == q.pinned)) [
        | inr other ↦
            rw (other, follow)
              (refused-Follows (w.wrong_node v.node_id) (drop schema q) (
                pin,
                config,
                version,
                row,
                λ h. (omega (arith, h.0, interval, backoff), omega (arith, h.1, ceiling, backoff)),
              ))
        | inl named ↦ elim (Bool-cases (v.schema_version == schema)) [
          | inr other ↦
              rw (named, other, follow)
                (record {
                  pin = pin;
                  config = inl config;
                  version = inl (version, row);
                  health = λ h. absurd (ground arith);
                  waiting = λ h. (omega arith, omega (arith, h.0, h.1, interval, ceiling));
                })
          | inl speaks ↦
              rw (named, speaks, follow)
                (pull-Follows v (poll_health schema w (reachable schema q))
                  (reached-Ready q (pin, config, version, row, interval, ceiling)))
        ]
      ]

  ask_version-Follows : (q : Puller) → Untouched q → Follows schema w p (ask_version schema w q)
  unfolding ask_version drop
  ask_version-Follows q u = elim (Got-cases (w.version q.last_version)) [
    | inl (e, g) ↦
        let step : ask_version schema w q
            ≡ health_unknown schema (back_off schema e (drop schema q)) =
          ground arith in
        let (pin, config, version, row, interval, ceiling, backoff) = u in
        subst (Follows schema w p) (sym step) (
          refused-Follows e (drop schema q) (
            pin,
            config,
            version,
            row,
            λ h. (omega (arith, h.0, interval, backoff), omega (arith, h.1, ceiling, backoff)),
          ))
    | inr (v, g) ↦
        let step : ask_version schema w q ≡ follow schema w v q = ground arith in
        subst (Follows schema w p) (sym step) (follow-Follows v q u)
  ]

-- One tick, whatever the primary answers and whatever fails. The key that is pinned stays. The
-- configuration changes only to that of a document which names the pinned key, speaks the schema of
-- the node and was taken by the store; the version held changes only with it, once the row is
-- written. Health that is shown as known is what the primary answered in this tick. And the wait
-- stays between the interval and the ceiling.
pub poll-Follows : (schema : ℕ) (w : World) (p : Puller) → Follows schema w p (poll schema w p)
unfolding poll
poll-Follows schema w p = elim (Bool-cases p.connected) [
  | inl there ↦
      let step : poll schema w p ≡ ask_version schema w p = ground arith in
      subst (Follows schema w p) (sym step)
        (ask_version-Follows schema w p p (refl, refl, refl, refl, refl, refl, refl))
  | inr none_there ↦ elim (Option-cases w.dial) [
    | inr (e, d) ↦
        let step : poll schema w p ≡ health_unknown schema (back_off schema e p) = ground arith in
        subst (Follows schema w p) (sym step)
          (refused-Follows schema w p e p (refl, refl, refl, refl, λ h. h))
    | inl d ↦
        let q = record p { connected = true } in
        let step : poll schema w p ≡ ask_version schema w q = ground arith in
        subst (Follows schema w p) (sym step)
          (ask_version-Follows schema w p q (refl, refl, refl, refl, refl, refl, refl))
  ]
]
