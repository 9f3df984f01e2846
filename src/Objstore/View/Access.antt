-- ===== src/Objstore/View/Access.antt =====
-- On `read_block_modified` and `write_block_modified` in Assn4/objstore.c as accesses of an array of blocks.
use gem_os_cs330a.Prelude.{
  ℕ, suc, ◌+◌, ◌^◌, ◌<◌, ◌≤◌, ◌≡◌, ◌≢◌, refl, sym, ap, subst, ◌∙◌, true, false, not, ◌==◌, arith,
  [], ◌∷◌, length, ◌⊎◌, none, some, Bool-cases, inl, inr,
}
use mathlib.Core.Path.{fun_ext}
use gem_os_cs330a.Process.{update}
use gem_os_cs330a.Objstore.Cache.{
  CacheObj, cache_hash, check_disk_block_in_cache, free_node, retrieve_block_from_cache,
}
use gem_os_cs330a.Objstore.Cache.Chain.{Chain, lacks, check_lem}
use gem_os_cs330a.Objstore.Blocks.{
  Block, Device, Store, read_block_modified, write_block_modified, set_dirty,
}
use gem_os_cs330a.Objstore.Blocks.Run.{entered, read_run, write_run, read_hit, write_hit}
use gem_os_cs330a.Objstore.World.{Supply, World, read_next, write_next}
use gem_os_cs330a.Objstore.View.{single, AllocLaws, SupplyLaws, IsView, fresh_now}
use gem_os_cs330a.Objstore.View.Enter.{Entered, entered-IsView, dirty-Entered}
use gem_os_cs330a.Objstore.View.Hit.{cache_hash_low, found, hit-Entered, unhashed}
use gem_os_cs330a.Objstore.View.Miss.{miss-Entered, chain_here, room_left}

-- Writing what stands there already changes nothing.
update_same : (view : ℕ → Block) (v : ℕ) → update view v (view v) ≡ view
update_same view v = fun_ext λ u. elim (Bool-cases (u == v)) [
  | inl e ↦ let k : u ≡ v = ground arith in rw (e, k) refl
  | inr off ↦ rw off refl
]

module _ (D : Device) (S : Supply) (laws : AllocLaws S) (room v : ℕ) (view : ℕ → Block)
    (any : Block) (w : World D) (old : IsView D S (suc room) view w) (low : v < 2 ^ 15) where
  abbrev p : ℕ
  p = S.calloc w.calls w.store.cache

  abbrev s : Store D
  s = w.store

  next-IsView :
      (buf : Block) (s' : Store D)
      → Entered D p v buf old.order old.slot s s'
      → IsView D S room (update view v buf) (record { store = s'; calls = w.calls + 1 })
  next-IsView buf s' e = entered-IsView D S laws room v view buf w s' old e

  -- The outcomes of a read and a write.
  abbrev pub Read : Type 0
  Read =
      (r : ℕ) × (s' : Store D) × (read_block_modified D S.fuel p (S.got w.calls) (S.evicts w.calls)
          v any s
        ≡ some (r, view v, s'))
      × IsView D S room view (record { store = s'; calls = w.calls + 1 })

  abbrev pub Write : Block → Type 0
  Write buf =
      (s' : Store D) × (write_block_modified D S.fuel p (S.evicts w.calls) v buf s ≡ some (0, s'))
      × IsView D S room (update view v buf) (record { store = s'; calls = w.calls + 1 })

  read_lem :
      (r : ℕ) (s' : Store D)
      → read_block_modified D S.fuel p (S.got w.calls) (S.evicts w.calls) v any s
        ≡ some (r, view v, s')
      → Entered D p v (view v) old.order old.slot s s'
      → Read
  read_lem r s' run e = (
    r,
    s',
    run,
    subst (λ m. IsView D S room m (record { store = s'; calls = w.calls + 1 })) (update_same view v)
        (next-IsView (view v) s' e),
  )

  write_lem :
      (buf : Block) (s' : Store D)
      → write_block_modified D S.fuel p (S.evicts w.calls) v buf s ≡ some (0, s')
      → Entered D p v buf old.order old.slot s s'
      → Write buf
  write_lem buf s' run e = (s', run, next-IsView buf s' e)

  module _ (miss : old.slot v ≡ 0) where
    missing : lacks s.cache.nodes v (single (old.slot (cache_hash v))) ≡ true
    missing = ap (lacks s.cache.nodes v) (chain_here D S laws room v view any w old low miss)

    small : length (single (old.slot (cache_hash v))) ≤ S.fuel
    small =
        subst (λ l. length l ≤ S.fuel) (sym (chain_here D S laws room v view any w old low miss))
          (omega arith)

    Read-uncached : Read
    Read-uncached =
        let run =
          read_run D S.fuel p v (view v) s old.order (λ u. single (old.slot u)) old.lru old.hashed
            small missing (room_left D S laws room v view any w old low miss)
            (laws.some_pointer w.calls w.store.cache) (fresh_now D S laws (suc room) view w old)
            (unhashed D S laws (suc room) view w old) (S.evicts w.calls) any
            (old.uncached v miss low) in
        read_lem (D.read_block v s.disk).0 (entered D S.fuel p v (view v) s)
          (subst
            (λ g.
              read_block_modified D S.fuel p g (S.evicts w.calls) v any s
              ≡ some ((D.read_block v s.disk).0, view v, entered D S.fuel p v (view v) s))
            (sym (laws.enough w.calls)) run)
          (miss-Entered D S laws room v view (view v) w old low miss)

    Write-uncached : (buf : Block) → Write buf
    Write-uncached buf =
        write_lem buf (set_dirty D p (entered D S.fuel p v buf s))
          (write_run D S.fuel p v buf s old.order (λ u. single (old.slot u)) old.lru old.hashed
            small missing (room_left D S laws room v view any w old low miss)
            (laws.some_pointer w.calls w.store.cache) (fresh_now D S laws (suc room) view w old)
            (unhashed D S laws (suc room) view w old) (S.evicts w.calls))
          (dirty-Entered D p v buf old.order old.slot s (entered D S.fuel p v buf s)
            (miss-Entered D S laws room v view buf w old low miss))

module _ (D : Device) (S : Supply) (laws : SupplyLaws D S) (room v : ℕ) (view : ℕ → Block)
    (any : Block) (w : World D) (old : IsView D S (suc room) view w) (low : v < 2 ^ 15) where
  abbrev node : ℕ
  node = S.calloc w.calls w.store.cache

  Read-cached : old.slot v ≢ 0 → Read D S laws.alloc room v view any w old low
  Read-cached hit =
      let (c, run, r) = found D S laws room v view w old low hit in
      let page : w.store.pages (c.nodes node).cache_addr ≡ view v =
        ap w.store.pages r.cache_addr ∙ old.cached v hit in
      read_lem D S laws.alloc room v view any w old low (2 ^ 12) (record w.store { cache = c })
        (read_hit D S.fuel node v any w.store c run (laws.alloc.some_pointer w.calls w.store.cache)
            (S.got w.calls) (S.evicts w.calls)
          ∙ ap (λ b. some (2 ^ 12, b, record w.store { cache = c })) page)
        (hit-Entered D S laws room v view w old low hit c r w.store.pages (view v)
          (old.cached v hit) (λ a ne. refl))

  Write-cached : (buf : Block) → old.slot v ≢ 0 → Write D S laws.alloc room v view any w old low buf
  Write-cached buf hit =
      let (c, run, r) = found D S laws room v view w old low hit in
      let addr = (w.store.cache.nodes (old.slot v)).cache_addr in
      let pages = update w.store.pages (c.nodes node).cache_addr buf in
      write_lem D S laws.alloc room v view any w old low buf
        (set_dirty D node (record w.store { cache = c; pages = pages }))
        (write_hit D S.fuel node v buf w.store c run (laws.alloc.some_pointer w.calls w.store.cache)
          (S.evicts w.calls))
        (dirty-Entered D node v buf old.order old.slot w.store
          (record w.store { cache = c; pages = pages })
          (hit-Entered D S laws room v view w old low hit c r pages buf
            (let e = r.cache_addr in ground arith) (λ a ne. let e = r.cache_addr in ground arith)))

  pub Read-view : Read D S laws.alloc room v view any w old low
  Read-view = elim (Bool-cases (old.slot v == 0)) [
    | inl e ↦
        let miss : old.slot v ≡ 0 = ground arith in
        Read-uncached D S laws.alloc room v view any w old low miss
    | inr e ↦ Read-cached (λ z. ground arith)
  ]

  pub Write-view : (buf : Block) → Write D S laws.alloc room v view any w old low buf
  Write-view buf = elim (Bool-cases (old.slot v == 0)) [
    | inl e ↦
        let miss : old.slot v ≡ 0 = ground arith in
        Write-uncached D S laws.alloc room v view any w old low miss buf
    | inr e ↦ let hit : old.slot v ≢ 0 = λ z. ground arith in Write-cached buf hit
  ]

  pub access-IsView :
      (buf : Block)
      → ((r : ℕ) × (w' : World D) × (read_next D S v any w ≡ some (r, view v, w'))
          × IsView D S room view w')
        × ((w' : World D) × (write_next D S v buf w ≡ some (0, w'))
            × IsView D S room (update view v buf) w')
  unfolding read_next write_next
  access-IsView buf =
      let (r, s', run, after) = Read-view in
      let (t', run', after') = Write-view buf in
      (
        (r, record { store = s'; calls = w.calls + 1 }, rw run refl, after),
        (record { store = t'; calls = w.calls + 1 }, rw run' refl, after'),
      )

module _ (D : Device) (S : Supply) (laws : AllocLaws S) (room v : ℕ) (view : ℕ → Block)
    (any : Block) (w : World D) (old : IsView D S (suc room) view w) (low : v < 2 ^ 15)
    (undefined : (n : CacheObj) → D.freed n ≡ none) where
  is_hit : old.slot v ≢ 0 → check_disk_block_in_cache S.fuel v w.store.cache ≡ true
  is_hit hit =
      let held : (old.slot v == 0) ≡ false = ground arith in
      let at : single (old.slot (cache_hash v)) ≡ old.slot v ∷ [] =
        ap (λ n. single (old.slot n)) (cache_hash_low v low) ∙ rw held refl in
      let chain =
        subst (Chain w.store.cache.nodes (w.store.cache.table (cache_hash v))) at
          (old.hashed.chain (cache_hash v)) in
      let block = old.block v hit in
      let here : lacks w.store.cache.nodes v (old.slot v ∷ []) ≡ false = ground arith in
      (check_lem S.fuel v w.store.cache (old.slot v ∷ []) chain laws.some_fuel).0 ∙ ap not here

  read_undefined : old.slot v ≢ 0 → read_next D S v any w ≡ none
  unfolding read_next read_block_modified retrieve_block_from_cache free_node
  read_undefined hit = rw (is_hit hit, undefined) refl

  write_undefined : (buf : Block) → old.slot v ≢ 0 → write_next D S v buf w ≡ none
  unfolding write_next write_block_modified retrieve_block_from_cache free_node
  write_undefined buf hit = rw (is_hit hit, undefined) refl

  read_defined :
      old.slot v ≡ 0
      → (r : ℕ) × (w' : World D) × (read_next D S v any w ≡ some (r, view v, w'))
        × IsView D S room view w'
  unfolding read_next
  read_defined miss =
      let (r, s', run, after) = Read-uncached D S laws room v view any w old low miss in
      (r, record { store = s'; calls = w.calls + 1 }, rw run refl, after)

  write_defined :
      (buf : Block)
      → old.slot v ≡ 0
      → (w' : World D) × (write_next D S v buf w ≡ some (0, w'))
        × IsView D S room (update view v buf) w'
  unfolding write_next
  write_defined buf miss =
      let (t', run, after) = Write-uncached D S laws room v view any w old low miss buf in
      (record { store = t'; calls = w.calls + 1 }, rw run refl, after)

  is_miss : old.slot v ≡ 0 → check_disk_block_in_cache S.fuel v w.store.cache ≡ false
  is_miss miss =
      (check_lem S.fuel v w.store.cache (single (old.slot (cache_hash v)))
        (old.hashed.chain (cache_hash v)) (small D S laws room v view any w old low miss)).0
      ∙ ap not (missing D S laws room v view any w old low miss)

  pub access_defined :
      (buf : Block)
      → ((check_disk_block_in_cache S.fuel v w.store.cache ≡ false)
          × ((r : ℕ) × (w' : World D) × (read_next D S v any w ≡ some (r, view v, w'))
              × IsView D S room view w')
          × ((w' : World D) × (write_next D S v buf w ≡ some (0, w'))
              × IsView D S room (update view v buf) w'))
        ⊎ ((check_disk_block_in_cache S.fuel v w.store.cache ≡ true)
            × (read_next D S v any w ≡ none)
            × (write_next D S v buf w ≡ none))
  access_defined buf = elim (Bool-cases (old.slot v == 0)) [
    | inl e ↦
        let miss : old.slot v ≡ 0 = ground arith in
        inl (is_miss miss, read_defined miss, write_defined buf miss)
    | inr e ↦
        let hit : old.slot v ≢ 0 = λ z. ground arith in
        inr (is_hit hit, read_undefined hit, write_undefined buf hit)
  ]
