-- ===== src/Objstore/Blocks/Coherent.antt =====
-- On writes, reads and `obj_sync` one after the other in Assn4/objstore.c.
use gem_os_cs330a.Prelude.{
  ℕ, ◌-◌, ◌^◌, ◌<◌, ◌≤◌, ◌≡◌, ◌≢◌, refl, sym, ap, subst, ◌∙◌, Bool, true, false, not, ◌==◌, arith,
  List, [], ◌∷◌, ◌++◌, length, length-append, none, some, Bool-cases, inl, inr,
}
use gem_os_cs330a.Objstore.{cache_htsize}
use gem_os_cs330a.Objstore.Cache.{CacheObj, Nodes, cache_hash, free_node, retrieve_block_from_cache}
use gem_os_cs330a.Objstore.Cache.Lru.{has, has-append, IsLru}
use gem_os_cs330a.Objstore.Cache.Chain.{Chain, lacks, check_lem}
use gem_os_cs330a.Objstore.Cache.Hashed.{IsHashed, chains_with}
use gem_os_cs330a.Objstore.Blocks.{
  Block, Device, DeviceLaws, Store, read_block_modified, write_block_modified, obj_sync,
}
use gem_os_cs330a.Objstore.Blocks.Run.{Written, write-Written}
use gem_os_cs330a.Objstore.Blocks.Sync.{all_got, obj_sync_lem}

-- The cache is well formed, has no node of the block, and has room for one.
pub record IsReady (D : Device) (fuel block : ℕ) (order : List ℕ) (chains : ℕ → List ℕ)
    (s : Store D) : Type 0 where
  pub lru : IsLru s.cache order
  pub hashed : IsHashed s.cache chains
  pub enough : (v : ℕ) → length (chains v) < fuel
  pub absent : (v j : ℕ) → has j (chains v) ≡ true → (s.cache.nodes j).disk_addr ≢ block
  pub room : s.cache.cache_size < 2 ^ 15 - 1

-- A pointer that `calloc` may return.
abbrev pub IsFresh : (p : ℕ) → List ℕ → (ℕ → List ℕ) → Type 0
IsFresh p order chains = (p ≢ 0) × (has p order ≡ false) × ((v : ℕ) → has p (chains v) ≡ false)

cache_hash_bound : (b : ℕ) → cache_hash b < cache_htsize
unfolding cache_hash
cache_hash_bound b = omega arith

pub lacks_of :
    (nodes : Nodes) (block : ℕ) (l : List ℕ)
    → ((j : ℕ) → has j l ≡ true → (nodes j).disk_addr ≢ block)
    → lacks nodes block l ≡ true
lacks_of nodes block [] h = refl
lacks_of nodes block (q ∷ l) h =
    let rest = lacks_of nodes block l (λ j i. h j (ground arith)) in
    let ne = h q (ground arith) in ground arith

-- A chain that ends with a node of the block.
lacks_at :
    (nodes : Nodes) (block p : ℕ) (l : List ℕ)
    → lacks nodes block l ≡ true
    → (nodes p).disk_addr ≡ block
    → lacks nodes block (l ++ p ∷ []) ≡ false
lacks_at nodes block p [] h at = ground arith
lacks_at nodes block p (q ∷ l) h at =
    let rest = lacks_at nodes block p l (ground arith) at in ground arith

module _ (D : Device) (fuel p block : ℕ) (buf : Block) (s : Store D) (order : List ℕ)
    (chains : ℕ → List ℕ) (ready : IsReady D fuel block order chains s)
    (fresh : IsFresh p order chains) (evicts : Bool) where
  abbrev v0 : ℕ
  v0 = cache_hash block

  abbrev grown : ℕ → List ℕ
  grown = chains_with chains v0 (chains v0 ++ p ∷ [])

  write_ready :
      (s' : Store D) × (write_block_modified D fuel p evicts block buf s ≡ some (0, s'))
      × Written D p block buf order chains s s'
  write_ready =
      write-Written D fuel p block buf s order chains ready.lru ready.hashed
        (let h = ready.enough v0 in omega (arith, h))
        (lacks_of s.cache.nodes block (chains v0) (ready.absent v0)) ready.room fresh.0 fresh.1
        fresh.2 evicts

  grown_enough : (v : ℕ) → length (grown v) ≤ fuel
  grown_enough v =
      let h = ready.enough v in
      let h0 = ready.enough v0 in
      elim (Bool-cases (v == v0)) [
        | inl e ↦ rw e (omega (arith, h0, length-append (chains v0) (p ∷ [])))
        | inr off ↦ rw off (omega (arith, h))
      ]

  grown_at : grown v0 ≡ chains v0 ++ p ∷ []
  grown_at = let e : (v0 == v0) ≡ true = ground arith in rw e refl

  -- A node of the new chains is the new one, or it was in the old ones.
  grown-has : (v j : ℕ) → has j (grown v) ≡ true → j ≢ p → has j (chains v) ≡ true
  grown-has v j h ne = elim (Bool-cases (v == v0)) [
    | inl e ↦
        let same : v ≡ v0 = ground arith in
        let k : has j (chains v0 ++ p ∷ []) ≡ true = rw e at h in
        rw same (ground (arith, has-append j (chains v0) (p ∷ [])))
    | inr off ↦ rw off at h
  ]

  -- Where the cache of blocks is well formed, has no node of a block and has room, calloc returns a
  -- pointer that is not in use, all allocations of obj_sync succeed, and the disk keeps what is
  -- written to it, a write of the block followed by obj_sync leaves the bytes that were written on
  -- the disk.
  pub write-obj_sync :
      (laws : DeviceLaws D)
      → (s' : Store D) × (disk' : D.Disk) × (write_block_modified D fuel p evicts block buf s
          ≡ some (0, s'))
        × (obj_sync D fuel all_got s' ≡ some disk')
        × ((D.read_block block disk').1 ≡ buf)
  write-obj_sync laws =
      let (s', run, w) = write_ready in
      let only : (v j : ℕ) → has j (grown v) ≡ true → (s'.cache.nodes j).disk_addr ≡ block → j ≡ p =
        λ v j i at. elim (Bool-cases (j == p)) [
          | inl e ↦ ground arith
          | inr off ↦
              let ne : j ≢ p = λ e. ground arith in
              absurd (ready.absent v j (grown-has v j i ne) (sym (w.spared j ne).disk_addr ∙ at))
        ] in
      let (disk', sync, _, sets) =
        obj_sync_lem D s' laws fuel grown block buf (λ v lt. (w.hashed.chain v, grown_enough v))
          (λ v lt j i (d, at).
            subst (λ n. s'.pages (s'.cache.nodes n).cache_addr ≡ buf) (sym (only v j i at))
              w.bytes) in
      let is_in : has p (grown v0) ≡ true =
        rw grown_at (ground (arith, has-append p (chains v0) (p ∷ []))) in
      (
        s',
        disk',
        run,
        sync,
        sets v0 p (cache_hash_bound block) is_in (λ z. ground (arith, w.dirty), w.disk_addr),
      )

  pub write-read_undefined :
      (undefined : (n : CacheObj) → D.freed n ≡ none)
      → (s' : Store D) × (write_block_modified D fuel p evicts block buf s ≡ some (0, s'))
        × ((p' : ℕ) (got evicts' : Bool) (any : Block)
            → read_block_modified D fuel p' got evicts' block any s' ≡ none)
        × ((p' : ℕ) (evicts' : Bool) (any : Block)
            → write_block_modified D fuel p' evicts' block any s' ≡ none)
  unfolding read_block_modified write_block_modified retrieve_block_from_cache free_node
  write-read_undefined undefined =
      let (s', run, w) = write_ready in
      let off : (j : ℕ) → has j (chains v0) ≡ true → j ≢ p =
        λ j i e. let f = fresh.2 v0 in absurd (cc) in
      let chain = subst (Chain s'.cache.nodes (s'.cache.table v0)) grown_at (w.hashed.chain v0) in
      let len = subst (λ l. length l ≤ fuel) grown_at (grown_enough v0) in
      let first =
        lacks_of s'.cache.nodes block (chains v0)
          (λ j i at. ready.absent v0 j i (sym (w.spared j (off j i)).disk_addr ∙ at)) in
      let here : lacks s'.cache.nodes block (chains v0 ++ p ∷ []) ≡ false =
        lacks_at s'.cache.nodes block p (chains v0) first w.disk_addr in
      let hit = (check_lem fuel block s'.cache (chains v0 ++ p ∷ []) chain len).0 ∙ ap not here in
      (
        s',
        run,
        (λ p' got evicts' any. rw (hit, undefined) refl),
        (λ p' evicts' any. rw (hit, undefined) refl),
      )
