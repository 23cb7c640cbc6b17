-- ===== src/Dns/Server/Asked.antt =====
-- When the upstreams' answers can matter to ServeDNS of internal/dnsserver/server.go.
use kydns_server.Prelude.{
  ap, Bool, ◌≡◌, ◌≢◌, ◌⊎◌, inl, inr, refl, sym, ◌∙◌, subst, true, Option, none, some, [], ◌==◌,
  nat_eq, string_eq, arith, Bool-cases, Option-cases,
}
use kydns_server.Text.{Bytes, bytes_eq}
use kydns_server.Net.{Addr}
use kydns_server.Policy.Snapshot.{decide}
use kydns_server.Policy.Holder.{decide_counted}
use kydns_server.Dns.Acl.{allow}
use kydns_server.Dns.Message.{Question, Msg, opcode_query, class_inet}
use kydns_server.Dns.Authoritative.{answer}
use kydns_server.Dns.Cache.{get, key_for}
use kydns_server.Dns.Forwarder.{Upstream, Exchange, Forwarder, resolve}
use kydns_server.Dns.Server.{
  Server, Request, World, send, fail, serve_forward, serve_unblocked, serve_blocked, serve_declined,
  view_of, serve_allowed, serve_question, serve_dns, wants_dnssec,
}
use kydns_server.Dns.Server.Forwarded.{
  Unblocked, IsForeign, Leaves, Answered-cases, answer-declined, List-cases,
}

-- The same surroundings, but for what the upstreams answer.
abbrev pub with_answers : World → (Question → Bool → Upstream → Exchange) → World
with_answers w ask = record w { out = record w.out { ask = ask } }

-- The cache of the forwarder has no response for the question.
abbrev pub Uncached : World → Request → Server → Question → Type 0
Uncached w r s q =
    (f : Forwarder)
    → s.forwarder ≡ some f
    → (get f.cache (key_for w.out.fqdn q (wants_dnssec r)) w.out.now).1 ≡ none

module _ (w : World) (r : Request) (ask : Question → Bool → Upstream → Exchange) where
  resolve-cached :
      (f : Forwarder) (q : Question) (d : Bool) (m : Msg)
      → (get f.cache (key_for w.out.fqdn q d) w.out.now).1 ≡ some m
      → resolve (with_answers w ask).out f q d ≡ resolve w.out f q d
  unfolding resolve
  resolve-cached f q d m h = rw (h, resolve) refl

  serve_forward-cached :
      (s : Server) (view policy : Bytes) (q : Question) (f : Forwarder) (m : Msg)
      → (get f.cache (key_for w.out.fqdn q (wants_dnssec r)) w.out.now).1 ≡ some m
      → serve_forward (with_answers w ask) r s view policy q f ≡ serve_forward w r s view policy q f
  unfolding serve_forward resolve send
  serve_forward-cached s view policy q f m h =
      let same = resolve-cached f q (wants_dnssec r) m h in
      rw (h, resolve, serve_forward) (ground (arith, ap (λ (x : Forwarder × Option Msg). x.0) same))

  serve_unblocked-asks :
      (s : Server) (view policy : Bytes) (q : Question)
      → (serve_unblocked (with_answers w ask) r s view policy q
          ≡ serve_unblocked w r s view policy q)
        ⊎ ((s.forwarder ≢ none) × Uncached w r s q)
  unfolding serve_unblocked serve_forward fail send
  serve_unblocked-asks s view policy q = elim (Option-cases s.forwarder) [
    | inl e ↦ inl (rw (e, serve_unblocked) refl)
    | inr (f, e) ↦
        elim (Option-cases (get f.cache (key_for w.out.fqdn q (wants_dnssec r)) w.out.now).1) [
          | inr (m, hit) ↦
              inl (rw (e, serve_unblocked) (serve_forward-cached s view policy q f m hit))
          | inl miss ↦ inr (
            (λ n. absurd (ground arith)),
            λ g p.
                let same : f ≡ g = ground arith in
                subst
                  (λ (x : Forwarder).
                    (get x.cache (key_for w.out.fqdn q (wants_dnssec r)) w.out.now).1 ≡ none)
                  same miss,
          )
        ]
  ]

  serve_declined-asks :
      (s : Server) (view : Bytes) (q : Question)
      → (serve_declined (with_answers w ask) r s view q ≡ serve_declined w r s view q)
        ⊎ (Unblocked w s q.qname × (s.forwarder ≢ none) × Uncached w r s q)
  unfolding serve_declined decide_counted serve_blocked send
  serve_declined-asks s view q = elim (Option-cases s.policy) [
    | inl e ↦ elim (serve_unblocked-asks s view [] q) [
      | inl same ↦ inl (rw (e, serve_declined) same)
      | inr (there, miss) ↦ inr ((λ x y. absurd (ground arith)), there, miss)
    ]
    | inr (h, e) ↦
        let d = decide w.names h.cur q.qname in
        let s' = record s { policy = some (decide_counted w.names h q.qname).0 } in
        elim (Bool-cases d.blocked) [
          | inl blocked ↦ inl (rw (e, blocked, serve_declined) refl)
          | inr free ↦ elim (serve_unblocked-asks s' view d.policy q) [
            | inl same ↦
                let there : serve_declined (with_answers w ask) r s view q
                    ≡ serve_unblocked (with_answers w ask) r s' view d.policy q =
                  ground arith in
                let here : serve_declined w r s view q ≡ serve_unblocked w r s' view d.policy q =
                  ground arith in
                inl (there ∙ same ∙ sym here)
            | inr (there, miss) ↦ inr ((λ x y. ground arith), there, miss)
          ]
        ]
  ]

  serve_allowed-asks :
      (s : Server) (src : Addr) (q : Question)
      → (serve_allowed (with_answers w ask) r s src q ≡ serve_allowed w r s src q)
        ⊎ (IsForeign w s q.qname × Unblocked w s q.qname × (s.forwarder ≢ none) × Uncached w r s q)
  unfolding serve_allowed send
  serve_allowed-asks s src q =
      let view = view_of s.holder.cur src in
      elim (Answered-cases (answer w.lib s.auth s.holder.cur view q)) [
        | inl e ↦ elim (serve_declined-asks s view q) [
          | inl same ↦ inl (rw (e, serve_allowed) same)
          | inr (free, there, miss) ↦ inr ((answer-declined w s view q).0 e, free, there, miss)
        ]
        | inr local ↦ elim local [
          | inl (m, e) ↦ inl (rw (e, serve_allowed) refl)
          | inr e ↦ inl (rw (e, serve_allowed) refl)
        ]
      ]

  serve_question-asks :
      (s : Server) (src : Addr) (q : Question)
      → (serve_question (with_answers w ask) r s src q ≡ serve_question w r s src q)
        ⊎ ((q.qclass ≡ class_inet)
            × ((allow s.acl src w.out.now).1 ≡ true)
            × IsForeign w s q.qname
            × Unblocked w s q.qname
            × (s.forwarder ≢ none)
            × Uncached w r s q)
  unfolding serve_question fail send
  serve_question-asks s src q =
      let s' = record s { acl = (allow s.acl src w.out.now).0 } in
      elim (Bool-cases (q.qclass == class_inet)) [
        | inr odd ↦ inl (rw (odd, serve_question) refl)
        | inl inet ↦ elim (Bool-cases (allow s.acl src w.out.now).1) [
          | inr refused ↦ inl (rw (inet, refused, serve_question) refl)
          | inl admitted ↦ elim (serve_allowed-asks s' src q) [
            | inl same ↦ inl (rw (inet, admitted, serve_question) same)
            | inr (foreign, free, there, miss) ↦
                inr (ground arith, admitted, foreign, free, there, miss)
          ]
        ]
      ]

  pub serve_dns-asks :
      (s : Server) (src : Addr)
      → (serve_dns (with_answers w ask) r s src ≡ serve_dns w r s src)
        ⊎ ((q : Question) × Leaves w r s src q × Uncached w r s q)
  unfolding serve_dns fail send
  serve_dns-asks s src = elim (Bool-cases (r.opcode == opcode_query)) [
    | inr other ↦ inl (rw (other, serve_dns) refl)
    | inl queried ↦ elim (List-cases r.questions) [
      | inl e ↦ inl (rw (queried, e, serve_dns) refl)
      | inr (q, more, e) ↦ elim (List-cases more) [
        | inr (p, more', e') ↦ inl (rw (queried, e, e', serve_dns) refl)
        | inl e' ↦ elim (serve_question-asks s src q) [
          | inl same ↦ inl (rw (queried, e, e', serve_dns) same)
          | inr (inet, admitted, foreign, free, configured, miss) ↦ inr (
            q,
            record {
              queried = ground arith;
              single = ground arith;
              inet = inet;
              admitted = admitted;
              foreign = foreign;
              unblocked = free;
              configured = configured;
            },
            miss,
          )
        ]
      ]
    ]
  ]
