-- ===== src/Zone/Index/Exclusive.antt =====
-- CNAME records in an index of internal/zone/snapshot.go.
use kydns_server.Prelude.{
  ◌≡◌, ◌≢◌, ◌⊎◌, inl, inr, subst, false, ◌||◌, ◌&&◌, none, some, List, [], ◌∷◌, nat_eq, ltb, Map,
  lookup, length, arith, Option-cases, Bool-cases,
}
use kydns_server.Text.{Bytes, bytes_eq, bytes}
use kydns_server.Zone.Index.{
  Rr, Index, Record, Input, Parsers, built, pick, discovered, write_records, has_cname, has_addr,
  conflict, build_index,
}

-- No record is a CNAME, or the only one is.
abbrev pub NoCname : List Rr → Type 0
NoCname [] = Unit {0}
NoCname (rr ∷ rrs) = (rr.rrtype ≢ bytes "CNAME") × NoCname rrs

abbrev pub IsExclusive : List Rr → Type 0
IsExclusive rrs = NoCname rrs ⊎ (length rrs ≡ 1)

has_cname-NoCname : (rrs : List Rr) → has_cname rrs ≡ false → NoCname rrs
unfolding has_cname
has_cname-NoCname [] h = tt
has_cname-NoCname (rr ∷ rrs) h = (λ p. ground arith, has_cname-NoCname rrs (ground arith))

checked-IsExclusive :
    (rrs : List Rr)
    → (has_cname rrs && (has_addr rrs || ltb 1 (length rrs))) ≡ false
    → IsExclusive rrs
unfolding has_cname
checked-IsExclusive [] h = inl tt
checked-IsExclusive (rr ∷ rrs) h = elim (Bool-cases (has_cname (rr ∷ rrs))) [
  | inl some_cname ↦ inr (ground arith)
  | inr no_cname ↦ inl (has_cname-NoCname (rr ∷ rrs) no_cname)
]

conflict-IsExclusive :
    (m : Map Bytes (List Rr)) (n : Bytes) (rrs : List Rr)
    → conflict m ≡ none
    → lookup n m ≡ some rrs
    → IsExclusive rrs
unfolding conflict lookup
conflict-IsExclusive [] n rrs h e = absurd (ground arith)
conflict-IsExclusive ((k, here) ∷ m) n rrs h e = elim (bytes_eq.dec k n) [
  | yes p ↦
      let same : here ≡ rrs = ground arith in
      subst IsExclusive same (checked-IsExclusive here (ground arith))
  | no differs ↦ conflict-IsExclusive m n rrs (ground arith) (ground arith)
]

-- In an index that builds without an error a CNAME is the only record of its name, whatever the
-- layers and the parsers are.
pub build_index-IsExclusive :
    (parsers : Parsers) (i : Input) (view zone : Bytes) (idx : Index) (n : Bytes) (rrs : List Rr)
    → build_index parsers i view zone ≡ built idx
    → lookup n idx.forward ≡ some rrs
    → IsExclusive rrs
unfolding build_index
build_index-IsExclusive parsers i view zone idx n rrs h e =
    let out =
      write_records (pick (λ (r : Record). r.view) view i.records)
        ([], discovered parsers i view zone) in
    elim (Option-cases (conflict out.forward)) [
      | inr (bad, c) ↦ absurd (ground arith)
      | inl clear ↦
          let same : out ≡ idx = ground arith in
          conflict-IsExclusive idx.forward n rrs
            (subst (λ (x : Index). conflict x.forward ≡ none) same clear) e
    ]
