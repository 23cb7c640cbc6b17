-- ===== src/Zone/Index/Manual.antt =====
-- The manual records of internal/zone/snapshot.go over what the services and leases put at a name.
use kydns_server.Prelude.{Bool, ◌&&◌, not, Option, some, List, [], ◌∷◌, ◌==◌, nat_eq, if◌then◌else◌}
use kydns_server.Text.{Bytes, bytes_eq, to_lower}
use kydns_server.Zone.Index.{Rr, Index, Record, manual_rr, is_ptr}

-- The records that the operator authored at a name, in their order.
unfoldable pub manual_at : Bytes → List Record → List Rr
manual_at n [] = []
manual_at n (r ∷ rs) =
    let rest = manual_at n rs in
    if not (is_ptr r) && to_lower r.name == n then manual_rr r ∷ rest else rest

-- Whether the record is one of those.
abbrev concerns : Bytes → Record → Bool
concerns n r = not (is_ptr r) && to_lower r.name == n

-- What a client finds: the operator's records where there are any, or else what was there.
abbrev pub displaced : List Rr → Option (List Rr) → Option (List Rr)
displaced [] old = old
displaced (rr ∷ rrs) old = some (rr ∷ rrs)
