-- ===== src/Zone/Holder/Serials.antt =====
-- The serials that calls of Rebuild of internal/zone/holder.go show, overlapping or not.
use kydns_server.Prelude.{
  ℕ, ◌+◌, ◌^◌, ◌≤◌, ◌<◌, ◌≡◌, ◌⊎◌, inl, inr, refl, true, Option, none, some, List, [], ◌∷◌, zero,
  suc, sym, subst, Option-cases, arith,
}
use kydns_server.Text.{to_lower}
use kydns_server.Zone.Matcher.{new_matcher}
use kydns_server.Zone.Index.{Input, Parsers, BuildError, Result, built, failed}
use kydns_server.Zone.Snapshot.{Snapshot, build, build_views}
use kydns_server.Zone.Snapshot.Answers.{Matched-cases, Viewed-cases}
use kydns_server.Zone.Holder.{
  Holder, advanced, reserve, publish, rebuild, Calls, Step, starts, finishes, take_at, step, run,
  reserved_count,
}

build-generation :
    (parsers : Parsers) (i : Input) (s : Snapshot)
    → build parsers i ≡ built s
    → s.generation ≡ i.generation
unfolding build
build-generation parsers i s h = elim (Matched-cases (new_matcher parsers.parse_prefix i.views)) [
  | inl (e, p) ↦ absurd (ground arith)
  | inr (m, p) ↦ elim (Viewed-cases (build_views parsers i (to_lower i.zone) ([] ∷ m.names) [])) [
    | inl (e, q) ↦ absurd (ground arith)
    | inr (views, q) ↦ ground arith
  ]
]

build-cases :
    (r : Result Snapshot) → ((e : BuildError) × (r ≡ failed e)) ⊎ ((s : Snapshot) × (r ≡ built s))
build-cases (failed e) = inl (e, refl)
build-cases (built s) = inr (s, refl)

-- A generation that was reserved after the serial was `floor`.
abbrev pub Reserved : ℕ → ℕ → ℕ → Type 0
Reserved floor gen g = (floor < g) × (g ≤ gen)

abbrev AllReserved : ℕ → ℕ → List Input → Type 0
AllReserved floor gen [] = Unit {0}
AllReserved floor gen (i ∷ is) = Reserved floor gen i.generation × AllReserved floor gen is

-- The live snapshot is still `old`, or one with a generation that was reserved since.
abbrev pub Shows : Option Snapshot → ℕ → Holder → Type 0
Shows old floor h =
    (h.cur ≡ old) ⊎ ((t : Snapshot) × (h.cur ≡ some t) × Reserved floor h.gen t.generation)

record IsRunning (old : Option Snapshot) (floor : ℕ) (c : Calls) : Type 0 where
  room : floor ≤ c.holder.gen
  shows : Shows old floor c.holder
  waiting : AllReserved floor c.holder.gen c.waiting

AllReserved-later :
    (floor gen : ℕ) (is : List Input) → AllReserved floor gen is → AllReserved floor (gen + 1) is
AllReserved-later floor gen [] v = tt
AllReserved-later floor gen (i ∷ is) v =
    ((v.0.0, omega (arith, v.0.1)), AllReserved-later floor gen is v.1)

take_at-Reserved :
    (floor gen n : ℕ) (is : List Input) (i : Input) (rest : List Input)
    → AllReserved floor gen is
    → take_at n is ≡ some (i, rest)
    → Reserved floor gen i.generation × AllReserved floor gen rest
unfolding take_at
take_at-Reserved floor gen n [] i rest v h = absurd (ground arith)
take_at-Reserved floor gen zero (j ∷ js) i rest v h =
    let same : j ≡ i = ground arith in
    let same_rest : js ≡ rest = ground arith in
    (
      subst (λ (x : Input). Reserved floor gen x.generation) same v.0,
      subst (AllReserved floor gen) same_rest v.1,
    )
take_at-Reserved floor gen (suc n) (j ∷ js) i rest v h = elim (Option-cases (take_at n js)) [
  | inl e ↦ absurd (ground arith)
  | inr ((k, ks), e) ↦
      let (first, others) = take_at-Reserved floor gen n js k ks v.1 e in
      let same : k ≡ i = ground arith in
      let same_rest : j ∷ ks ≡ rest = ground arith in
      (
        subst (λ (x : Input). Reserved floor gen x.generation) same first,
        subst (AllReserved floor gen) same_rest (v.0, others),
      )
]

module _ (parsers : Parsers) (old : Option Snapshot) (floor : ℕ) where
  publish-Shows :
      (h : Holder) (i : Input)
      → Reserved floor h.gen i.generation
      → Shows old floor h
      → Shows old floor (publish parsers h i).0 × ((publish parsers h i).0.gen ≡ h.gen)
  unfolding publish
  publish-Shows h i r v = elim (build-cases (build parsers i)) [
    | inl (e, p) ↦ rw (p, publish) (v, refl)
    | inr (snap, p) ↦
        rw (p, publish)
          (
            inr (
              snap,
              refl,
              (
                omega (arith, r, build-generation parsers i snap p),
                omega (arith, r, build-generation parsers i snap p),
              ),
            ),
            refl,
          )
  ]

  starts-IsRunning :
      (c : Calls) (i : Input)
      → c.holder.gen + 1 < 2 ^ 32
      → IsRunning old floor c
      → IsRunning old floor (step parsers c (starts (some i)))
        × ((step parsers c (starts (some i))).holder.gen ≡ c.holder.gen + 1)
  unfolding step reserve
  starts-IsRunning c i small v =
      let up : advanced c.holder ≡ c.holder.gen + 1 = omega arith in
      (
        record {
          room = omega (arith, v.room, up);
          shows = elim v.shows [
            | inl same ↦ inl same
            | inr (t, e, r) ↦ inr (t, e, (r.0, omega (arith, r.1, up)))
          ];
          waiting = (
            (omega (arith, v.room, up), omega arith),
            subst (λ (g : ℕ). AllReserved floor g c.waiting) (sym up)
                (AllReserved-later floor c.holder.gen c.waiting v.waiting),
          );
        },
        up,
      )

  finishes-IsRunning :
      (c : Calls) (n : ℕ)
      → IsRunning old floor c
      → IsRunning old floor (step parsers c (finishes n))
        × ((step parsers c (finishes n)).holder.gen ≡ c.holder.gen)
  unfolding step
  finishes-IsRunning c n v = elim (Option-cases (take_at n c.waiting)) [
    | inl e ↦ rw (e, step) (v, refl)
    | inr ((i, rest), e) ↦
        let (first, others) = take_at-Reserved floor c.holder.gen n c.waiting i rest v.waiting e in
        let (shown, same) = publish-Shows c.holder i first v.shows in
        rw (e, step)
          (
            record {
              room = omega (arith, v.room, same);
              shows = shown;
              waiting = subst (λ (g : ℕ). AllReserved floor g rest) (sym same) others;
            },
            same,
          )
  ]

  run-IsRunning :
      (c : Calls) (ss : List Step)
      → c.holder.gen + reserved_count ss < 2 ^ 32
      → IsRunning old floor c
      → IsRunning old floor (run parsers c ss)
        × ((run parsers c ss).holder.gen ≡ c.holder.gen + reserved_count ss)
  unfolding run reserved_count step reserve
  run-IsRunning c [] small v = (v, omega arith)
  run-IsRunning c (starts none ∷ ss) small v = run-IsRunning c ss small v
  run-IsRunning c (starts (some i) ∷ ss) small v =
      let (w, up) = starts-IsRunning c i (omega arith) v in
      let (out, total) =
        run-IsRunning (step parsers c (starts (some i))) ss (omega (arith, up)) w in
      (out, omega (arith, up, total))
  run-IsRunning c (finishes n ∷ ss) small v =
      let (w, same) = finishes-IsRunning c n v in
      let (out, total) = run-IsRunning (step parsers c (finishes n)) ss (omega (arith, same)) w in
      (out, omega (arith, same, total))

-- The serial always advances, and never goes backwards across a moment at which no Rebuild is under
-- way. From such a moment, whatever Rebuilds start and end in whatever order, overlapping or not, the
-- serial has advanced by one for each call whose source gave an input, also where its build failed;
-- and the live snapshot is the old one, or one whose generation is beyond the old serial and within
-- the new one. Then a Rebuild that runs alone and builds shows its snapshot under the next serial. The
-- 32-bit serial must not wrap meanwhile.
pub run-generation :
    (parsers : Parsers) (h : Holder) (ss : List Step) (i : Input) (t : Snapshot)
    → h.gen + reserved_count ss + 1 < 2 ^ 32
    → build parsers (record i { generation = h.gen + reserved_count ss + 1 }) ≡ built t
    → let c = run parsers (record { holder = h; waiting = [] }) ss in
      (c.holder.gen ≡ h.gen + reserved_count ss)
      × Shows h.cur h.gen c.holder
      × (rebuild parsers c.holder (some i)
          ≡ (record { cur = some t; gen = h.gen + reserved_count ss + 1 }, true))
unfolding rebuild publish reserve
run-generation parsers h ss i t small builds =
    let start : Calls = record { holder = h; waiting = [] } in
    let (out, total) =
      run-IsRunning parsers h.cur h.gen start ss (omega arith)
        (record { room = omega arith; shows = inl refl; waiting = tt }) in
    let c = run parsers start ss in
    let next : advanced c.holder ≡ h.gen + reserved_count ss + 1 = omega (arith, total) in
    (total, out.shows, ground (arith, next))
