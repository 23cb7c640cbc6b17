-- ===== src/Dns/Server/Forwarded.antt =====
-- Which questions ServeDNS of internal/dnsserver/server.go hands to Resolve.
use kydns_server.Prelude.{
  ℕ, ◌≡◌, ◌≢◌, ◌↔◌, ◌⊎◌, inl, inr, refl, sym, ◌∙◌, subst, true, false, Option, none, some, List, [],
  ◌∷◌, ◌==◌, nat_eq, string_eq, arith, Bool-cases, Option-cases,
}
use kydns_server.Text.{Bytes, bytes_eq}
use kydns_server.Net.{Addr}
use kydns_server.Policy.Snapshot.{decide}
use kydns_server.Policy.Holder.{Holder as PolicyHolder, decide_counted}
use kydns_server.Dns.Acl.{allow}
use kydns_server.Dns.Message.{Question, Msg, opcode_query, class_inet}
use kydns_server.Dns.Authoritative.{
  owns, answer_owned, answer, Answered, declined, answered, panicked,
}
use kydns_server.Dns.Forwarder.{Forwarder, resolve}
use kydns_server.Dns.Server.{
  Server, Request, World, Reply, send, fail, serve_forward, serve_unblocked, serve_blocked,
  serve_declined, view_of, serve_allowed, serve_question, serve_dns, wants_dnssec,
}

-- The policy does not block the name, or there is none.
abbrev pub Unblocked : World → Server → Bytes → Type 0
Unblocked w s name =
    (h : PolicyHolder) → s.policy ≡ some h → (decide w.names h.cur name).blocked ≡ false

-- The zone does not own the name, or there is no snapshot of it yet.
abbrev pub IsForeign : World → Server → Bytes → Type 0
IsForeign w s name = (s.holder.cur ≡ none) ⊎ (owns w.lib s.auth name ≡ false)

-- What a question must pass before it reaches Resolve.
pub record Leaves (w : World) (r : Request) (s : Server) (src : Addr) (q : Question) : Type 0 where
  pub queried : r.opcode ≡ opcode_query
  pub single : r.questions ≡ q ∷ []
  pub inet : q.qclass ≡ class_inet
  pub admitted : (allow s.acl src w.out.now).1 ≡ true
  pub foreign : IsForeign w s q.qname
  pub unblocked : Unblocked w s q.qname
  pub configured : s.forwarder ≢ none

pub Answered-cases :
    (o : Answered) → (o ≡ declined) ⊎ (((m : Msg) × (o ≡ answered m)) ⊎ (o ≡ panicked))
Answered-cases declined = inl refl
Answered-cases (answered m) = inr (inl (m, refl))
Answered-cases panicked = inr (inr refl)

pub answer-declined :
    (w : World) (s : Server) (view : Bytes) (q : Question)
    → (answer w.lib s.auth s.holder.cur view q ≡ declined) ↔ IsForeign w s q.qname
unfolding answer
answer-declined w s view q = elim (Option-cases s.holder.cur) [
  | inl e ↦ (λ h. inl e, λ h. ground arith)
  | inr (snap, e) ↦ elim (Bool-cases (owns w.lib s.auth q.qname)) [
    | inr other ↦ (λ h. inr other, λ h. ground arith)
    | inl ours ↦ (
      λ h. elim (Option-cases (answer_owned w.lib s.auth snap view q)) [
        | inl p ↦ absurd (ground arith)
        | inr (m, p) ↦ absurd (ground arith)
      ],
      λ h. elim h [ inl none_there ↦ absurd (ground arith) | inr other ↦ absurd (ground arith) ],
    )
  ]
]

pub List-cases {ℓ} :
    {A : Type ℓ} (xs : List A) → (xs ≡ []) ⊎ ((x : A) × (ys : List A) × (xs ≡ x ∷ ys))
List-cases [] = inl refl
List-cases (x ∷ ys) = inr (x, ys, refl)

send-forwarded :
    (w : World) (r : Request) (s : Server) (reply : Reply) (o : Option Question)
    → (send w r s reply o).forwarded ≡ o
unfolding send
send-forwarded w r s reply o = refl

fail-forwarded :
    (w : World) (r : Request) (s : Server) (rcode : ℕ) (source : Bytes) (o : Option Question)
    → (fail w r s rcode source o).forwarded ≡ o
unfolding fail send
fail-forwarded w r s rcode source o = refl

serve_forward-forwarded :
    (w : World) (r : Request) (s : Server) (view policy : Bytes) (q : Question) (f : Forwarder)
    → (serve_forward w r s view policy q f).forwarded ≡ some q
unfolding serve_forward fail send
serve_forward-forwarded w r s view policy q f =
    elim (Option-cases (resolve w.out f q (wants_dnssec r)).1) [
      | inl e ↦ rw (e, serve_forward) refl
      | inr (m, e) ↦ rw (e, serve_forward) refl
    ]

serve_unblocked-forwarded :
    (w : World) (r : Request) (s : Server) (view policy : Bytes) (q p : Question)
    → ((serve_unblocked w r s view policy q).forwarded ≡ some p) ↔ ((q ≡ p) × (s.forwarder ≢ none))
unfolding serve_unblocked fail send
serve_unblocked-forwarded w r s view policy q p = elim (Option-cases s.forwarder) [
  | inl e ↦ (λ h. absurd (ground arith), λ h. absurd (h.1 e))
  | inr (f, e) ↦
      let sent = serve_forward-forwarded w r s view policy q f in
      (λ h. (ground arith, λ n. ground arith), λ h. ground arith)
]

serve_declined-forwarded :
    (w : World) (r : Request) (s : Server) (view : Bytes) (q p : Question)
    → ((serve_declined w r s view q).forwarded ≡ some p)
      ↔ ((q ≡ p) × Unblocked w s q.qname × (s.forwarder ≢ none))
unfolding serve_declined decide_counted serve_blocked send
serve_declined-forwarded w r s view q p = elim (Option-cases s.policy) [
  | inl e ↦
      let plain = serve_unblocked-forwarded w r s view [] q p in
      rw (e, serve_declined)
        (λ h. ((plain.0 h).0, λ x y. absurd (ground arith), (plain.0 h).1), λ h. plain.1 (h.0, h.2))
  | inr (h, e) ↦
      let d = decide w.names h.cur q.qname in
      let s' = record s { policy = some (decide_counted w.names h q.qname).0 } in
      let passed = serve_unblocked-forwarded w r s' view d.policy q p in
      elim (Bool-cases d.blocked) [
        | inl blocked ↦ (λ k. absurd (ground arith), λ k. absurd (ground (arith, k.1 h e)))
        | inr free ↦
            let step : (serve_declined w r s view q).forwarded
                ≡ (serve_unblocked w r s' view d.policy q).forwarded =
              ground arith in
            (
              λ k.
                  let (same, configured) = passed.0 (sym step ∙ k) in
                  (same, λ x y. ground arith, configured),
              λ k. step ∙ passed.1 (k.0, k.2),
            )
      ]
]

serve_allowed-forwarded :
    (w : World) (r : Request) (s : Server) (src : Addr) (q p : Question)
    → ((serve_allowed w r s src q).forwarded ≡ some p) ↔ (
        (q ≡ p)
        × (answer w.lib s.auth s.holder.cur (view_of s.holder.cur src) q ≡ declined)
        × Unblocked w s q.qname
        × (s.forwarder ≢ none))
unfolding serve_allowed send
serve_allowed-forwarded w r s src q p =
    let view = view_of s.holder.cur src in
    elim (Answered-cases (answer w.lib s.auth s.holder.cur view q)) [
      | inl e ↦
          let onward = serve_declined-forwarded w r s view q p in
          let step : (serve_allowed w r s src q).forwarded
              ≡ (serve_declined w r s view q).forwarded =
            ground arith in
          (
            λ h.
                let (same, free, configured) = onward.0 (sym step ∙ h) in
                (same, e, free, configured),
            λ h. step ∙ onward.1 (h.0, h.2, h.3),
          )
      | inr local ↦ elim local [
        | inl (m, e) ↦ (λ h. absurd (ground arith), λ h. absurd (ground (arith, h.1)))
        | inr e ↦ (λ h. absurd (ground arith), λ h. absurd (ground (arith, h.1)))
      ]
    ]

serve_question-forwarded :
    (w : World) (r : Request) (s : Server) (src : Addr) (q p : Question)
    → ((serve_question w r s src q).forwarded ≡ some p) ↔ (
        (q ≡ p)
        × (q.qclass ≡ class_inet)
        × ((allow s.acl src w.out.now).1 ≡ true)
        × (answer w.lib s.auth s.holder.cur (view_of s.holder.cur src) q ≡ declined)
        × Unblocked w s q.qname
        × (s.forwarder ≢ none))
unfolding serve_question fail send
serve_question-forwarded w r s src q p =
    let s' = record s { acl = (allow s.acl src w.out.now).0 } in
    let onward = serve_allowed-forwarded w r s' src q p in
    elim (Bool-cases (q.qclass == class_inet)) [
      | inr odd ↦ (λ h. absurd (ground arith), λ h. absurd (ground (arith, h.1)))
      | inl inet ↦ elim (Bool-cases (allow s.acl src w.out.now).1) [
        | inr refused ↦ (λ h. absurd (ground arith), λ h. absurd (ground (arith, h.2)))
        | inl admitted ↦
            let step : (serve_question w r s src q).forwarded
                ≡ (serve_allowed w r s' src q).forwarded =
              ground arith in
            (
              λ h.
                  let (same, foreign, free, configured) = onward.0 (sym step ∙ h) in
                  (same, ground arith, admitted, foreign, free, configured),
              λ h. step ∙ onward.1 (h.0, h.3, h.4, h.5),
            )
      ]
    ]

pub serve_dns-forwarded :
    (w : World) (r : Request) (s : Server) (src : Addr) (q : Question)
    → ((serve_dns w r s src).forwarded ≡ some q) ↔ Leaves w r s src q
unfolding serve_dns fail send
serve_dns-forwarded w r s src q = elim (Bool-cases (r.opcode == opcode_query)) [
  | inr other ↦ (λ h. absurd (ground arith), λ h. absurd (ground (arith, h.queried)))
  | inl queried ↦ elim (List-cases r.questions) [
    | inl e ↦ (λ h. absurd (ground arith), λ h. absurd (ground (arith, h.single)))
    | inr (p, more, e) ↦ elim (List-cases more) [
      | inr (p', more', e') ↦ (λ h. absurd (ground arith), λ h. absurd (ground (arith, h.single)))
      | inl e' ↦
          let onward = serve_question-forwarded w r s src p q in
          let step : (serve_dns w r s src).forwarded ≡ (serve_question w r s src p).forwarded =
            ground arith in
          (
            λ h.
                let (same, inet, admitted, foreign, free, configured) = onward.0 (sym step ∙ h) in
                subst (Leaves w r s src) same (record {
                  queried = ground arith;
                  single = ground arith;
                  inet = inet;
                  admitted = admitted;
                  foreign = (answer-declined w s (view_of s.holder.cur src) p).0 foreign;
                  unblocked = free;
                  configured = configured;
                }),
            λ h.
                let same : q ≡ p = ground (arith, h.single) in
                step
                ∙ onward.1 (
                    subst
                      (λ (x : Question).
                        (x ≡ q)
                        × (x.qclass ≡ class_inet)
                        × ((allow s.acl src w.out.now).1 ≡ true)
                        × (answer w.lib s.auth s.holder.cur (view_of s.holder.cur src) x ≡ declined)
                        × Unblocked w s x.qname
                        × (s.forwarder ≢ none))
                      same
                      (
                        refl,
                        h.inet,
                        h.admitted,
                        (answer-declined w s (view_of s.holder.cur src) q).1 h.foreign,
                        h.unblocked,
                        h.configured,
                      )),
          )
    ]
  ]
]
