-- ===== src/Objstore/Blocks/Sync.antt =====
-- On `obj_sync` in Assn4/objstore.c: what stands on the disk behind it.
use gem_os_cs330a.Prelude.{
  ℕ, zero, suc, ◌+◌, ◌<◌, ◌≤◌, ◌≡◌, ◌≢◌, refl, ap, subst, ◌∙◌, Bool, true, false, ◌==◌, arith, List,
  [], ◌∷◌, ◌++◌, length, some, Bool-cases, inl, inr,
}
use gem_os_cs330a.Objstore.{cache_htsize}
use gem_os_cs330a.Objstore.Cache.Lru.{has, has-append}
use gem_os_cs330a.Objstore.Cache.Chain.{Chain}
use gem_os_cs330a.Objstore.Blocks.{
  Block, Device, DeviceLaws, Store, sync_node, sync_chain, sync_loop, obj_sync,
}

-- All allocations succeed.
abbrev pub all_got : ℕ → Bool
all_got p = true

module _ (D : Device) (s : Store D) where
  -- Node `j` is dirty and has block `d`.
  abbrev pub IsPending : (d j : ℕ) → Type 0
  IsPending d j = ((s.cache.nodes j).dirty ≢ 0) × ((s.cache.nodes j).disk_addr ≡ d)

  -- The dirty nodes of a list that have block `d` agree on its bytes.
  abbrev pub Agree : (d : ℕ) → Block → List ℕ → Type 0
  Agree d bytes l =
      (j : ℕ) → has j l ≡ true → IsPending d j → s.pages (s.cache.nodes j).cache_addr ≡ bytes

  -- What the nodes of a list leave in place, and what they write.
  abbrev Synced : List ℕ → (disk disk' : D.Disk) → Type 0
  Synced l disk disk' =
      (d : ℕ) (bytes : Block)
      → Agree d bytes l
      → ((D.read_block d disk).1 ≡ bytes → (D.read_block d disk').1 ≡ bytes)
        × ((j : ℕ) → has j l ≡ true → IsPending d j → (D.read_block d disk').1 ≡ bytes)

  module _ (laws : DeviceLaws D) where
    node_Synced :
        (j : ℕ) (disk : D.Disk)
        → (disk' : D.Disk) × (sync_node D all_got s j disk ≡ some disk')
          × Synced (j ∷ []) disk disk'
    unfolding sync_node
    node_Synced j disk = elim (Bool-cases ((s.cache.nodes j).dirty == 0)) [
      | inl clean ↦
          (disk, rw clean refl, λ d bytes agree. (λ h. h, λ k i (dirty, at). absurd (grind arith)))
      | inr dirty ↦
          let n = s.cache.nodes j in
          (
            D.write_block n.disk_addr (s.pages n.cache_addr) disk,
            rw dirty refl,
            λ d bytes agree. elim (Bool-cases (n.disk_addr == d)) [
              | inl here ↦
                  let e : n.disk_addr ≡ d = ground arith in
                  let done =
                    subst
                      (λ x.
                        (D.read_block x (D.write_block n.disk_addr (s.pages n.cache_addr) disk)).1
                        ≡ bytes)
                      e
                      (laws.written n.disk_addr (s.pages n.cache_addr) disk
                        ∙ agree j (ground arith) (λ z. ground arith, e)) in
                  (λ h. done, λ k i p. done)
              | inr off ↦
                  let ne : d ≢ n.disk_addr = λ e. ground arith in
                  (
                    λ h.
                        ap (λ x. x.1) (laws.others d n.disk_addr (s.pages n.cache_addr) disk ne)
                        ∙ h,
                    λ k i (z, at). absurd (grind arith),
                  )
            ],
          )
    ]

    Synced-append :
        (l m : List ℕ) (disk disk' disk'' : D.Disk)
        → Synced l disk disk'
        → Synced m disk' disk''
        → Synced (l ++ m) disk disk''
    Synced-append l m disk disk' disk'' f g = λ d bytes agree.
        let (fk, fs) = f d bytes (λ j i. agree j (ground (arith, has-append j l m))) in
        let (gk, gs) = g d bytes (λ j i. agree j (ground (arith, has-append j l m))) in
        (
          λ h. gk (fk h),
          λ j i p. elim (Bool-cases (has j l)) [
            | inl here ↦ gk (fs j here p)
            | inr off ↦ gs j (ground (arith, has-append j l m)) p
          ],
        )

    Chain-Synced :
        (fuel p : ℕ) (l : List ℕ) (disk : D.Disk)
        → Chain s.cache.nodes p l
        → length l ≤ fuel
        → (disk' : D.Disk) × (sync_chain D fuel all_got s p disk ≡ some disk') × Synced l disk disk'
    unfolding sync_chain
    Chain-Synced zero p [] disk c h = (disk, refl, λ d bytes agree. (λ h. h, λ k i. absurd (cc)))
    Chain-Synced zero p (q ∷ l) disk c h = absurd (omega arith)
    Chain-Synced (suc fuel) p [] disk c h =
        (disk, ground arith, λ d bytes agree. (λ h. h, λ k i. absurd (cc)))
    Chain-Synced (suc fuel) p (q ∷ l) disk (e, qz, c) h =
        let (disk', run, f) = node_Synced q disk in
        let (disk'', rest, g) = Chain-Synced fuel (s.cache.nodes q).next l disk' c (omega arith) in
        let some_node : (q == 0) ≡ false = ground arith in
        (disk'', rw (e, some_node, run, rest) refl, Synced-append (q ∷ []) l disk disk' disk'' f g)

    module _ (fuel : ℕ) (chains : ℕ → List ℕ) where
      -- The nodes of some chains in a row.
      abbrev row : (rounds i : ℕ) → List ℕ
      row zero i = []
      row (suc rounds) i = chains i ++ row rounds (i + 1)

      loop_Synced :
          (rounds i : ℕ) (disk : D.Disk)
          → ((v : ℕ)
              → i ≤ v
              → v < i + rounds
              → Chain s.cache.nodes (s.cache.table v) (chains v) × (length (chains v) ≤ fuel))
          → (disk' : D.Disk) × (sync_loop D fuel all_got s rounds i disk ≡ some disk')
            × Synced (row rounds i) disk disk'
      unfolding sync_loop
      loop_Synced zero i disk h = (disk, refl, λ d bytes agree. (λ h. h, λ k i. absurd (cc)))
      loop_Synced (suc rounds) i disk h =
          let (chain, enough) = h i (omega arith) (omega arith) in
          let (disk', run, f) = Chain-Synced fuel (s.cache.table i) (chains i) disk chain enough in
          let (disk'', rest, g) =
            loop_Synced rounds (i + 1) disk' (λ v lo hi. h v (omega arith) (omega arith)) in
          (
            disk'',
            rw (run, rest) refl,
            Synced-append (chains i) (row rounds (i + 1)) disk disk' disk'' f g,
          )

      row-has :
          (rounds i v j : ℕ)
          → i ≤ v
          → v < i + rounds
          → has j (chains v) ≡ true
          → has j (row rounds i) ≡ true
      row-has zero i v j lo hi h = absurd (omega arith)
      row-has (suc rounds) i v j lo hi h = elim (Bool-cases (v == i)) [
        | inl here ↦
            let e : v ≡ i = ground arith in
            let k : has j (chains i) ≡ true = rw e at h in
            ground (arith, has-append j (chains i) (row rounds (i + 1)))
        | inr off ↦
            let rest = row-has rounds (i + 1) v j (ground arith) (omega arith) h in
            ground (arith, has-append j (chains i) (row rounds (i + 1)))
      ]

      row_index :
          (rounds i j : ℕ)
          → has j (row rounds i) ≡ true
          → (v : ℕ) × (v < i + rounds) × (has j (chains v) ≡ true)
      row_index zero i j h = absurd (cc)
      row_index (suc rounds) i j h = elim (Bool-cases (has j (chains i))) [
        | inl here ↦ (i, omega arith, here)
        | inr off ↦
            let (v, lt, k) =
              row_index rounds (i + 1) j
                (ground (arith, has-append j (chains i) (row rounds (i + 1)))) in
            (v, omega arith, k)
      ]

      -- What the chains below `n` leave on the disk, and what they write.
      abbrev SyncedBelow : (n : ℕ) (disk disk' : D.Disk) → Type 0
      SyncedBelow n disk disk' =
          (d : ℕ) (bytes : Block)
          → ((v : ℕ) → v < n → Agree d bytes (chains v))
          → ((D.read_block d disk).1 ≡ bytes → (D.read_block d disk').1 ≡ bytes)
            × ((v j : ℕ)
                → v < n
                → has j (chains v) ≡ true
                → IsPending d j
                → (D.read_block d disk').1 ≡ bytes)

      loop_lem :
          (rounds : ℕ) (disk : D.Disk)
          → ((v : ℕ)
              → v < rounds
              → Chain s.cache.nodes (s.cache.table v) (chains v) × (length (chains v) ≤ fuel))
          → (disk' : D.Disk) × (sync_loop D fuel all_got s rounds 0 disk ≡ some disk')
            × SyncedBelow rounds disk disk'
      loop_lem rounds disk h =
          let (disk', run, f) = loop_Synced rounds 0 disk (λ v lo hi. h v (omega arith)) in
          (
            disk',
            run,
            λ d bytes agree.
                let (keeps, sets) = f d bytes (λ j i p.
                  let (v, lt, k) = row_index rounds 0 j i in agree v (omega arith) j k p) in
                (
                  keeps,
                  λ v j lt i p. sets j (row-has rounds 0 v j (omega arith) (omega arith) i) p,
                ),
          )

      -- Where the chains of the cache are well formed and no longer than the fuel, all allocations
      -- succeed, the disk keeps what is written to it, and the dirty nodes that hold a block agree
      -- on its bytes, obj_sync comes to its end; a block that had these bytes on the disk has them
      -- still, and a block with a dirty node has them now.
      pub obj_sync_lem :
          (d : ℕ) (bytes : Block)
          → ((v : ℕ)
              → v < cache_htsize
              → Chain s.cache.nodes (s.cache.table v) (chains v) × (length (chains v) ≤ fuel))
          → ((v : ℕ) → v < cache_htsize → Agree d bytes (chains v))
          → (disk' : D.Disk) × (obj_sync D fuel all_got s ≡ some disk')
            × ((D.read_block d s.disk).1 ≡ bytes → (D.read_block d disk').1 ≡ bytes)
            × ((v j : ℕ)
                → v < cache_htsize
                → has j (chains v) ≡ true
                → IsPending d j
                → (D.read_block d disk').1 ≡ bytes)
      unfolding obj_sync
      obj_sync_lem d bytes h agree =
          let (disk', run, f) = loop_lem cache_htsize s.disk h in
          let (keeps, sets) = f d bytes agree in (disk', run, keeps, sets)
