-- ===== src/Objstore/Files/Walk.antt =====
-- On the loops over a chain in Assn4/objstore.c, with the blocks as an array.
use gem_os_cs330a.Prelude.{
  ℕ, suc, ◌+◌, ◌≡◌, refl, subst, false, ◌==◌, arith, List, [], ◌∷◌, length, some, Bool-cases,
  Option-cases, inl, inr,
}
use gem_os_cs330a.Objstore.{hash}
use gem_os_cs330a.Objstore.Blocks.{Block, Device, Store}
use gem_os_cs330a.Objstore.Names.{find_loop, find_object_id}
use gem_os_cs330a.Objstore.World.{Supply, World}
use gem_os_cs330a.Objstore.View.{SupplyLaws, IsView}
use gem_os_cs330a.Objstore.Files.{Files, get_next, find_next, scan_chain}
use gem_os_cs330a.Objstore.Files.Lookup.{
  object_of, get-IsView, scan_of, find_of, AreIds, IsView-weaken,
}

module _ (D : Device) (S : Supply) (laws : SupplyLaws D S) (stack : Block)
    (strcmp : (ℕ → ℕ) → (ℕ → ℕ) → ℕ) (key : ℕ → ℕ) (view : ℕ → Block) where
  -- The outcome of a scan of a chain.
  abbrev pub Scanned : (room : ℕ) → List ℕ → World D → Type 0
  Scanned room chain w =
      (w' : World D) × (scan_chain D S stack strcmp key chain w
        ≡ some (scan_of strcmp key view chain, w'))
      × IsView D S room view w'

  weaker : (room more : ℕ) (w : World D) → IsView D S (more + room) view w → IsView D S room view w
  weaker room more w h = IsView-weaken D S (more + room) room w.calls view w h (omega arith)

  pub scan-Scanned :
      (room : ℕ) (chain : List ℕ) (w : World D)
      → AreIds chain
      → IsView D S (length chain + room) view w
      → Scanned room chain w
  unfolding scan_chain get_next
  scan-Scanned room [] w ids h = (w, refl, weaker room 0 w h)
  scan-Scanned room (id ∷ chain) w (is_id, ids) h =
      let (s', run, after) = get-IsView D S laws stack (length chain + room) id view w is_id (
        IsView-weaken D S (length (id ∷ chain) + room) (suc (length chain + room)) w.calls view w h
          (omega arith)) in
      let w' : World D = record { store = s'; calls = w.calls + 1 } in
      let (w'', rest, after') = scan-Scanned room chain w' ids after in
      let nonzero : (id == 0) ≡ false = let lo = is_id.0 in ground arith in
      elim (Option-cases (object_of view id)) [
        | inl e ↦ (w', rw (run, e, scan_of) refl, weaker room (length chain) w' after)
        | inr (o, e) ↦ elim (Bool-cases (strcmp o.key key == 0)) [
          | inl same ↦
              (w', rw (run, e, nonzero, same, scan_of) refl, weaker room (length chain) w' after)
          | inr other ↦ (w'', rw (run, e, nonzero, other, scan_of) rest, after')
        ]
      ]

  module _ (n : ℕ) where
    find-IsView_loop :
        (room i : ℕ) (chain : List ℕ) (s : Store D)
        → AreIds chain
        → IsView D S (length chain + room) view (record { store = s; calls = n + i })
        → (s' : Store D) × (find_loop D strcmp S.fuel
              (λ i. S.calloc (n + i))
              (λ i. S.got (n + i))
              (λ i. S.evicts (n + i))
              stack
              key
              chain
              i
              s
            ≡ some (find_of strcmp key view chain, s'))
          × IsView D S room view (record { store = s'; calls = n + i + length chain })
    unfolding find_loop
    find-IsView_loop room i [] s ids h = (
      s,
      refl,
      IsView-weaken D S (0 + room) room (n + i + 0) view (record { store = s; calls = n + i }) h
          (omega arith),
    )
    find-IsView_loop room i (id ∷ chain) s (is_id, ids) h =
        let w : World D = record { store = s; calls = n + i } in
        let (s', run, after) = get-IsView D S laws stack (length chain + room) id view w is_id (
          IsView-weaken D S (length (id ∷ chain) + room) (suc (length chain + room)) w.calls view w
            h (omega arith)) in
        let calls : n + i + 1 ≡ n + (i + 1) = omega arith in
        let later : IsView D S (length chain + room) view
            (record { store = s'; calls = n + (i + 1) }) =
          subst (λ k. IsView D S (length chain + room) view (record { store = s'; calls = k }))
            calls after in
        let (s'', rest, after') = find-IsView_loop room (i + 1) chain s' ids later in
        let nonzero : (id == 0) ≡ false = let lo = is_id.0 in ground arith in
        let early : IsView D S room view
            (record { store = s'; calls = n + i + length (id ∷ chain) }) =
          IsView-weaken D S (length chain + room) room (n + i + length (id ∷ chain)) view
            (record { store = s'; calls = n + i + 1 }) after (omega arith) in
        let late : IsView D S room view
            (record { store = s''; calls = n + i + length (id ∷ chain) }) =
          IsView-weaken D S room room (n + i + length (id ∷ chain)) view
            (record { store = s''; calls = n + (i + 1) + length chain }) after' (omega arith) in
        elim (Option-cases (object_of view id)) [
          | inl e ↦ (s', rw (run, e, find_of) refl, early)
          | inr (o, e) ↦ elim (Bool-cases (strcmp o.key key == 0)) [
            | inl same ↦ (s', rw (run, e, nonzero, same, find_of) refl, early)
            | inr other ↦ (s'', rw (run, e, nonzero, other, find_of) rest, late)
          ]
        ]

  -- `find_object_id`.
  pub find-IsView :
      (room : ℕ) (f : Files D)
      → AreIds (f.hash_table (hash key))
      → IsView D S (length (f.hash_table (hash key)) + room) view f.world
      → (w' : World D) × (find_next D S stack strcmp key f
          ≡ some (find_of strcmp key view (f.hash_table (hash key)), record f { world = w' }))
        × IsView D S room view w'
  unfolding find_next find_object_id
  find-IsView room f ids h =
      let n = f.world.calls in
      let chain = f.hash_table (hash key) in
      let start : IsView D S (length (f.hash_table (hash key)) + room) view
          (record { store = f.world.store; calls = f.world.calls + 0 }) =
        subst
          (λ k. IsView D S (length chain + room) view (record { store = f.world.store; calls = k }))
          (omega arith) h in
      let (s', run, after) = find-IsView_loop n room 0 chain f.world.store ids start in
      let calls : n + 0 + length chain ≡ n + length chain = omega arith in
      (
        record { store = s'; calls = n + length chain },
        rw run refl,
        subst (λ k. IsView D S room view (record { store = s'; calls = k })) calls after,
      )
