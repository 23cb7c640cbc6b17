-- ===== src/Dns/Authoritative/Replies.antt =====
-- What Answer of internal/dnsserver/auth.go puts in a reply.
use kydns_server.Prelude.{
  ℕ, ◌<◌, ◌≡◌, ◌⊎◌, inl, inr, refl, subst, true, Option, none, some, List, [], ◌∷◌, ◌==◌, nat_eq,
  string_eq, length, arith, Bool-cases, Option-cases,
}
use kydns_server.Text.{Bytes, bytes_eq, to_lower}
use kydns_server.Zone.Index.{Rr as ZoneRr}
use kydns_server.Zone.Snapshot.{Snapshot, lookup_records, lookup_ptr}
use kydns_server.Dns.Message.{Rr, Question, Msg, rcode_name_error, type_soa, type_ns, type_ptr}
use kydns_server.Dns.Authoritative.{
  DnsLib, Authoritative, apex_soa, is_cname, chase, cname_chase_depth, answer_apex, answer_ptr,
  answer_records, answer_name, answer_owned, answered, answer, name_error, no_data, with_answer,
}
use kydns_server.Dns.Authoritative.Chase.{AllTtl, convert-AllTtl, chase-IsChased}

-- A positive reply, or a negative one with the SOA of the zone.
abbrev pub IsReply : Authoritative → ℕ → Msg → Type 0
IsReply a serial m =
    (m.authoritative ≡ true)
    × AllTtl a.ttl m.answer
    × AllTtl a.ttl m.ns
    × (((0 < length m.answer) × (m.ns ≡ []) × (m.rcode ≡ 0))
        ⊎ ((m.answer ≡ [])
            × (m.ns ≡ apex_soa a serial ∷ [])
            × ((m.rcode ≡ 0) ⊎ (m.rcode ≡ rcode_name_error))))

module _ (lib : DnsLib) (a : Authoritative) (snap : Snapshot) (view : Bytes) where
  -- The message is a reply, if there is one.
  abbrev pub Replies : Option Msg → Type 0
  Replies o = (m : Msg) → o ≡ some m → IsReply a snap.generation m

  name_error-IsReply : IsReply a snap.generation (name_error a snap)
  unfolding apex_soa
  name_error-IsReply = (refl, tt, (refl, tt), inr (refl, refl, inr refl))

  no_data-IsReply : IsReply a snap.generation (no_data a snap)
  unfolding apex_soa
  no_data-IsReply = (refl, tt, (refl, tt), inr (refl, refl, inl refl))

  with_answer-IsReply :
      (rs : List Rr) → AllTtl a.ttl rs → 0 < length rs → IsReply a snap.generation (with_answer rs)
  with_answer-IsReply rs t h = (refl, t, tt, inl (h, refl, refl))

  answer_apex-IsReply : (qtype : ℕ) → IsReply a snap.generation (answer_apex a snap qtype)
  unfolding answer_apex apex_soa
  answer_apex-IsReply qtype = elim (Bool-cases (qtype == type_soa)) [
    | inl e ↦ rw (e, answer_apex) (refl, (refl, tt), tt, inl (omega arith, refl, refl))
    | inr e ↦ elim (Bool-cases (qtype == type_ns)) [
      | inl e' ↦ rw (e, e', answer_apex) (refl, (refl, tt), tt, inl (omega arith, refl, refl))
      | inr e' ↦ rw (e, e', answer_apex) no_data-IsReply
    ]
  ]

  some-Replies : (m : Msg) → IsReply a snap.generation m → Replies (some m)
  some-Replies m v m' h = let p : m ≡ m' = ground arith in subst (IsReply a snap.generation) p v

  none-Replies : Replies none
  none-Replies m h = absurd (ground arith)

  answer_ptr-Replies : (name : Bytes) → Replies (answer_ptr lib a snap view name)
  unfolding answer_ptr
  answer_ptr-Replies name = elim (Option-cases (lookup_ptr snap view name)) [
    | inl e ↦ rw (e, answer_ptr) none-Replies
    | inr (host, e) ↦ elim (Bool-cases (host == [])) [
      | inl none_there ↦ rw (e, none_there, answer_ptr) (some-Replies _ name_error-IsReply)
      | inr found ↦
          rw (e, found, answer_ptr)
            (some-Replies _ (with_answer-IsReply _ (refl, tt) (omega arith)))
    ]
  ]

  converted-Replies :
      (rs : List Rr)
      → AllTtl a.ttl rs
      → Replies (elim rs [ [] ↦ some (no_data a snap) | r ∷ rest ↦ some (with_answer (r ∷ rest)) ])
  converted-Replies [] t = some-Replies _ no_data-IsReply
  converted-Replies (r ∷ rest) t = some-Replies _ (with_answer-IsReply (r ∷ rest) t (omega arith))

  answer_records-Replies :
      (name : Bytes) (qtype : ℕ) (rr : ZoneRr) (rrs : List ZoneRr)
      → Replies (answer_records lib a snap view name qtype rr rrs)
  unfolding answer_records
  answer_records-Replies name qtype rr rrs = elim (Bool-cases (is_cname rr)) [
    | inr plain ↦
        rw (plain, answer_records) (converted-Replies _ (convert-AllTtl lib qtype a.ttl (rr ∷ rrs)))
    | inl alias ↦
        elim (Option-cases (chase lib a snap view qtype cname_chase_depth name rr.value)) [
          | inl e ↦ rw (alias, e, answer_records) none-Replies
          | inr (out, e) ↦
              let (chased, some_there) =
                chase-IsChased lib a snap view qtype cname_chase_depth name rr.value out e in
              rw (alias, e, answer_records)
                (some-Replies _ (with_answer-IsReply out chased.0 some_there))
        ]
  ]

  listed-Replies :
      (name : Bytes) (qtype : ℕ) (rrs : List ZoneRr)
      → lookup_records snap view name ≡ some rrs
      → Replies (answer_name lib a snap view name qtype)
  unfolding answer_name
  listed-Replies name qtype [] e = rw (e, answer_name) (some-Replies _ name_error-IsReply)
  listed-Replies name qtype (rr ∷ rrs) e =
      rw (e, answer_name) (answer_records-Replies name qtype rr rrs)

  answer_name-Replies :
      (name : Bytes) (qtype : ℕ) → Replies (answer_name lib a snap view name qtype)
  unfolding answer_name
  answer_name-Replies name qtype = elim (Option-cases (lookup_records snap view name)) [
    | inl e ↦ rw (e, answer_name) none-Replies
    | inr (rrs, e) ↦ listed-Replies name qtype rrs e
  ]

  pub answer_owned-IsReply : (q : Question) → Replies (answer_owned lib a snap view q)
  unfolding answer_owned
  answer_owned-IsReply q =
      let name = to_lower (lib.fqdn q.qname) in
      elim (Bool-cases (name == a.zone)) [
        | inl apex ↦ rw (apex, answer_owned) (some-Replies _ (answer_apex-IsReply q.qtype))
        | inr below ↦ elim (Bool-cases (q.qtype == type_ptr)) [
          | inl p ↦ rw (below, p, answer_owned) (answer_ptr-Replies name)
          | inr n ↦ rw (below, n, answer_owned) (answer_name-Replies name q.qtype)
        ]
      ]

-- An authoritative reply has one TTL in all its records, and either answers, or has no answer but the
-- SOA of the zone with the serial of the snapshot, so that a client may cache it.
pub answer-IsReply :
    (lib : DnsLib) (a : Authoritative) (snap : Snapshot) (view : Bytes) (q : Question) (m : Msg)
    → answer lib a (some snap) view q ≡ answered m
    → IsReply a snap.generation m
unfolding answer
answer-IsReply lib a snap view q m h = elim (Option-cases (answer_owned lib a snap view q)) [
  | inl e ↦ absurd (ground arith)
  | inr (m', e) ↦
      let p : m' ≡ m = ground arith in
      subst (IsReply a snap.generation) p (answer_owned-IsReply lib a snap view q m' e)
]
