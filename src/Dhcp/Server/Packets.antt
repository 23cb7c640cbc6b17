-- ===== src/Dhcp/Server/Packets.antt =====
-- What the packets of internal/dhcpd/server.go do to the allocator, and what a REQUEST is told.
use kydns_server.Prelude.{
  Map, ◌/◌, ◌^◌, ◌≡◌, inl, inr, refl, sym, ap, ◌∙◌, subst, String, ◌||◌, ◌&&◌, not, some, List, [],
  ◌∷◌, ◌++◌, ◌==◌, nat_eq, string_eq, lookup, arith, Bool-cases, Option-cases,
}
use kydns_server.Text.{bytes_eq}
use kydns_server.Net.{Addr, addr_eq, invalid, is_valid, unmap, contains}
use kydns_server.Dhcp.Alloc.{
  Allocator, Lease, allocate, offer_request, release, decline, set_reservations,
}
use kydns_server.Dhcp.Alloc.History.{
  Call, allocates, releases, declines, quarantines, reserves, step, run, RowsDistinct, run_keeps,
  load-IsConsistent,
}
use kydns_server.Dhcp.Server.{
  offer_hold, MessageType, discover, request, decline_type, release_type, inform, other_type,
  Packet, Server, World, is_ignored, asked_for, requested_of, offer_again, offer_address,
  ack_request, serve_offer, grant, serve_ack, released_ip, serve_release, serve_decline, serve_kind,
  handle, restore, parse_rows, unexpired_rows,
}
use kydns_server.Dhcp.Alloc.Invariant.{IsConsistent}
use kydns_server.Dhcp.Reserve.{normalize_mac}

-- The second allocator comes from the first by calls of its methods.
abbrev pub Reaches : Allocator → Allocator → Type 0
Reaches a b = (calls : List Call) × (run a calls ≡ b)

Reaches-refl : (a : Allocator) → Reaches a a
unfolding run
Reaches-refl a = ([], refl)

Reaches-step : (a : Allocator) (c : Call) → Reaches a (step a c)
unfolding run
Reaches-step a c = (c ∷ [], refl)

run-append : (a : Allocator) (cs ds : List Call) → run a (cs ++ ds) ≡ run (run a cs) ds
unfolding run
run-append a [] ds = refl
run-append a (c ∷ cs) ds = run-append (step a c) cs ds

Reaches-trans : (a b c : Allocator) → Reaches a b → Reaches b c → Reaches a c
Reaches-trans a b c (cs, p) (ds, q) =
    (cs ++ ds, run-append a cs ds ∙ ap (λ (x : Allocator). run x ds) p ∙ q)

module _ (w : World) (s : Server) (mac : String) (m : Packet) where
  offer_again-Reaches : (taken : Addr) → Reaches s.alloc (offer_again w s mac taken).0.alloc
  unfolding offer_again run step
  offer_again-Reaches taken = (
    quarantines taken w.later
        ∷ releases mac taken
        ∷ allocates (offer_request mac invalid offer_hold w.later)
        ∷ [],
    refl,
  )

module _ (w : World) (s : Server) (mac : String) (m : Packet) where
  offer_address-Reaches : Reaches s.alloc (offer_address w s mac m).0.alloc
  unfolding offer_address step
  offer_address-Reaches =
      let r = offer_request mac (requested_of m) offer_hold w.now in
      let first = Reaches-step s.alloc (allocates r) in
      elim (Option-cases (allocate s.alloc r).1) [
        | inl e ↦ rw (e, offer_address) first
        | inr ((l, fresh), e) ↦ elim (Bool-cases (fresh && w.in_use l.ip)) [
          | inr clear ↦ rw (e, clear, offer_address) first
          | inl taken ↦
              rw (e, taken, offer_address)
                (Reaches-trans s.alloc (allocate s.alloc r).0 _ first
                  (offer_again-Reaches w (record s { alloc = (allocate s.alloc r).0 }) mac m l.ip))
        ]
      ]

  serve_offer-Reaches : Reaches s.alloc (serve_offer w s mac m).server.alloc
  unfolding serve_offer
  serve_offer-Reaches = elim (Option-cases (offer_address w s mac m).1) [
    | inl e ↦ rw (e, serve_offer) offer_address-Reaches
    | inr (l, e) ↦ rw (e, serve_offer) offer_address-Reaches
  ]

  grant-alloc : (asked : Addr) (l : Lease) → (grant w s asked l).server.alloc ≡ s.alloc
  unfolding grant
  grant-alloc asked l = ground arith

  serve_release-Reaches : Reaches s.alloc (serve_release w s mac m).server.alloc
  unfolding serve_release step
  serve_release-Reaches = elim (Option-cases (released_ip s m)) [
    | inl e ↦ rw (e, serve_release) (Reaches-refl s.alloc)
    | inr (ip, e) ↦ elim (Bool-cases (release s.alloc mac ip).1) [
      | inl done ↦ rw (e, done, serve_release) (Reaches-step s.alloc (releases mac ip))
      | inr undone ↦ rw (e, undone, serve_release) (Reaches-refl s.alloc)
    ]
  ]

  serve_decline-Reaches : Reaches s.alloc (serve_decline w s mac m).server.alloc
  unfolding serve_decline step
  serve_decline-Reaches = elim (Option-cases m.requested_ip) [
    | inl e ↦ rw (e, serve_decline) (Reaches-refl s.alloc)
    | inr (ip, e) ↦ elim (Bool-cases (decline s.alloc mac (unmap ip) w.now).1) [
      | inl done ↦
          rw (e, done, serve_decline) (Reaches-step s.alloc (declines mac (unmap ip) w.now))
      | inr undone ↦ rw (e, undone, serve_decline) (Reaches-refl s.alloc)
    ]
  ]

module _ (w : World) (s : Server) (mac : String) (m : Packet) where
  serve_ack-Reaches : Reaches s.alloc (serve_ack w s mac m).server.alloc
  unfolding serve_ack step
  serve_ack-Reaches =
      let asked = asked_for m in
      let r = ack_request w s mac m in
      let asks = Reaches-step s.alloc (allocates r) in
      elim (Bool-cases (is_valid asked && not (contains s.cfg.subnet asked))) [
        | inl foreign ↦ rw (foreign, serve_ack) (Reaches-refl s.alloc)
        | inr ours ↦ elim (Option-cases (allocate s.alloc r).1) [
          | inl e ↦ rw (ours, e, serve_ack) asks
          | inr ((l, fresh), e) ↦
              let s' = record s { alloc = (allocate s.alloc r).0 } in
              rw (ours, e, serve_ack)
                (subst (Reaches s.alloc) (sym (grant-alloc w s' mac m asked l)) asks)
        ]
      ]

  serve_kind-Reaches :
      (kind : MessageType) → Reaches s.alloc (serve_kind w s mac m kind).server.alloc
  unfolding serve_kind
  serve_kind-Reaches discover = serve_offer-Reaches w s mac m
  serve_kind-Reaches request = serve_ack-Reaches
  serve_kind-Reaches release_type = serve_release-Reaches w s mac m
  serve_kind-Reaches decline_type = serve_decline-Reaches w s mac m
  serve_kind-Reaches inform = Reaches-refl s.alloc
  serve_kind-Reaches other_type = Reaches-refl s.alloc

handle-Reaches : (w : World) (s : Server) (m : Packet) → Reaches s.alloc (handle w s m).server.alloc
unfolding handle
handle-Reaches w s m =
    let mac = normalize_mac w.macs m.chaddr in
    elim (Bool-cases (mac == [] || is_ignored m.xid s.ignored)) [
      | inl silent ↦ rw (silent, handle) (Reaches-refl s.alloc)
      | inr served ↦ rw (served, handle) (serve_kind-Reaches w s (w.text mac) m m.kind)
    ]

-- What happens to a running server: a packet with what it meets outside, or a refresh of the
-- reservations by SetReservations.
pub data Event : Type 0 where
  arrives : World → Packet → Event
  refreshes : Map String Addr → Event

unfoldable pub handle_event : Server → Event → Server
handle_event s (arrives w m) = (handle w s m).server
handle_event s (refreshes r) = record s { alloc = set_reservations r s.alloc }

unfoldable pub handle_all : Server → List Event → Server
handle_all s [] = s
handle_all s (e ∷ es) = handle_all (handle_event s e) es

handle_event-Reaches : (s : Server) (e : Event) → Reaches s.alloc (handle_event s e).alloc
unfolding handle_event step
handle_event-Reaches s (arrives w m) = handle-Reaches w s m
handle_event-Reaches s (refreshes r) = Reaches-step s.alloc (reserves r)

handle_all-Reaches :
    (s : Server) (events : List Event) → Reaches s.alloc (handle_all s events).alloc
unfolding handle_all
handle_all-Reaches s [] = Reaches-refl s.alloc
handle_all-Reaches s (e ∷ es) =
    let s' = handle_event s e in
    Reaches-trans s.alloc s'.alloc (handle_all s' es).alloc (handle_event-Reaches s e)
      (handle_all-Reaches s' es)

-- From any server, with whatever reservations, a restore of leases that name no client and no address
-- twice and then any packets and refreshes of the reservations, in whatever order, bind no address to
-- two clients: also a client that takes the address reserved to it from a live holder.
pub handle_all-exclusive :
    (w : World) (s : Server) (events : List Event) (m n : String) (k l : Lease)
    → RowsDistinct (parse_rows w.parse (unexpired_rows (w.now / 10 ^ 9) s.rows))
    → lookup m (handle_all (restore w s) events).alloc.by_mac ≡ some k
    → lookup n (handle_all (restore w s) events).alloc.by_mac ≡ some l
    → k.ip ≡ l.ip
    → m ≡ n
unfolding restore
handle_all-exclusive w s events m n k l d hm hn same =
    let (calls, p) = handle_all-Reaches (restore w s) events in
    let c =
      subst IsConsistent p (run_keeps (restore w s).alloc calls (load-IsConsistent _ s.alloc d)) in
    ground (arith, c.forward m k hm, c.forward n l hn)
