-- ===== src/Objstore/Blocks/Run.antt =====
-- On `write_block_modified` and `read_block_modified` in Assn4/objstore.c: a block that is not in the
-- cache is written while there is room, and a block that is in the cache is read.
use gem_os_cs330a.Prelude.{
  ℕ, ◌-◌, ◌^◌, ◌<◌, ◌≤◌, ◌≡◌, ◌≢◌, refl, sym, ap, subst, ◌∙◌, Bool, true, false, not, ◌==◌, leb,
  arith, List, [], ◌∷◌, ◌++◌, length, some,
}
use gem_os_cs330a.Process.{update}
use gem_os_cs330a.Objstore.{cache_htsize}
use gem_os_cs330a.Objstore.Bitmap.{get_block_for_cache}
use gem_os_cs330a.Objstore.Cache.{
  Cache, cache_hash, check_disk_block_in_cache, retrieve_block_from_cache, new_node,
}
use gem_os_cs330a.Objstore.Cache.Lru.{has, Seg-frame, IsLru}
use gem_os_cs330a.Objstore.Cache.Chain.{Chain-frame, lacks, check_lem}
use gem_os_cs330a.Objstore.Cache.Hash.{SameBlock}
use gem_os_cs330a.Objstore.Cache.Hashed.{IsHashed, chains_with}
use gem_os_cs330a.Objstore.Cache.Insert.{placed, placed-Placed}
use gem_os_cs330a.Objstore.Blocks.{
  Block, Device, Store, insert_block_to_cache, place, read_block_modified, set_dirty,
  write_block_modified,
}

-- The store behind a write: the node last used is dirty and has the bytes, and the disk is as it was.
pub record Written (D : Device) (p block : ℕ) (buf : Block) (order : List ℕ) (chains : ℕ → List ℕ)
    (s s' : Store D) : Type 0 where
  pub lru : IsLru s'.cache (p ∷ order)
  pub hashed :
      IsHashed s'.cache
        (chains_with chains (cache_hash block) (chains (cache_hash block) ++ p ∷ []))
  pub disk_addr : (s'.cache.nodes p).disk_addr ≡ block
  pub dirty : (s'.cache.nodes p).dirty ≡ 1
  pub bytes : s'.pages (s'.cache.nodes p).cache_addr ≡ buf
  pub disk : s'.disk ≡ s.disk
  pub spared : (j : ℕ) → j ≢ p → SameBlock (s'.cache.nodes j) (s.cache.nodes j)

module _ (D : Device) (p : ℕ) (s : Store D) where
  pub set_dirty-IsLru : (l : List ℕ) → IsLru s.cache l → IsLru (set_dirty D p s).cache l
  unfolding set_dirty
  set_dirty-IsLru l h = record {
    first = h.first;
    last = h.last;
    links =
        Seg-frame s.cache.nodes (set_dirty D p s).cache.nodes 0 0 l
          (λ a i. (ground arith, ground arith)) h.links;
    distinct = h.distinct;
    size = h.size;
  }

  pub set_dirty-IsHashed :
      (chains : ℕ → List ℕ) → IsHashed s.cache chains → IsHashed (set_dirty D p s).cache chains
  unfolding set_dirty
  set_dirty-IsHashed chains h = record {
    chain = λ v.
        Chain-frame s.cache.nodes (set_dirty D p s).cache.nodes (s.cache.table v) (chains v)
          (λ a i. ground arith) (h.chain v);
    distinct = h.distinct;
    apart = h.apart;
  }

  pub set_dirty-others : (j : ℕ) → j ≢ p → (set_dirty D p s).cache.nodes j ≡ s.cache.nodes j
  unfolding set_dirty
  set_dirty-others j ne = ground arith

  pub set_dirty_at :
      let n = (set_dirty D p s).cache.nodes p in
      (n.dirty ≡ 1)
      × (n.disk_addr ≡ (s.cache.nodes p).disk_addr)
      × (n.cache_addr ≡ (s.cache.nodes p).cache_addr)
      × ((set_dirty D p s).pages ≡ s.pages)
      × ((set_dirty D p s).disk ≡ s.disk)
  unfolding set_dirty
  set_dirty_at = (ground arith, ground arith, ground arith, refl, refl)

  pub set_dirty_map : (set_dirty D p s).cache_map ≡ s.cache_map
  unfolding set_dirty
  set_dirty_map = refl

-- The store behind the entry of a block that was not in the cache, with its bytes.
abbrev pub entered : (D : Device) (fuel p block : ℕ) (buf : Block) → Store D → Store D
entered D fuel p block buf s =
    let (id, map) = get_block_for_cache s.cache_map in
    record s {
      cache_map = map;
      pages = update s.pages id buf;
      cache = placed fuel p block id s.cache;
    }

-- A block that is not in the cache, a node for it, and room.
module _ (D : Device) (fuel p block : ℕ) (buf : Block) (s : Store D) (order : List ℕ)
    (chains : ℕ → List ℕ) (lru : IsLru s.cache order) (hashed : IsHashed s.cache chains)
    (enough : length (chains (cache_hash block)) ≤ fuel)
    (absent : lacks s.cache.nodes block (chains (cache_hash block)) ≡ true)
    (room : s.cache.cache_size < 2 ^ 15 - 1) (pz : p ≢ 0) (fresh : has p order ≡ false)
    (unhashed : (v : ℕ) → has p (chains v) ≡ false) where
  missing : check_disk_block_in_cache fuel block s.cache ≡ false
  missing =
      (check_lem fuel block s.cache (chains (cache_hash block)) (hashed.chain (cache_hash block))
        enough).0
      ∙ ap not absent

  retrieve_miss : retrieve_block_from_cache D.freed fuel p block s.cache ≡ some (0, s.cache)
  unfolding retrieve_block_from_cache
  retrieve_miss = rw missing refl

  abbrev id : ℕ
  id = (get_block_for_cache s.cache_map).0

  -- The store behind `place` and behind the insertion.
  abbrev stored : Store D
  stored = record s {
    cache_map = (get_block_for_cache s.cache_map).1;
    pages = update s.pages id buf;
  }

  insert_run :
      (evicts : Bool)
      → insert_block_to_cache D fuel p evicts block id stored
        ≡ some (p, (entered D fuel p block buf s))
  unfolding insert_block_to_cache new_node
  insert_run evicts =
      let small : leb (cache_htsize - 1) s.cache.cache_size ≡ false = ground arith in
      rw (missing, small) refl

  pub write_run :
      (evicts : Bool)
      → write_block_modified D fuel p evicts block buf s
        ≡ some (0, set_dirty D p (entered D fuel p block buf s))
  unfolding write_block_modified place
  write_run evicts =
      let some_node : (p == 0) ≡ false = ground arith in
      rw (retrieve_miss, insert_run evicts, some_node) refl

  -- A read that gets these bytes from the disk.
  pub read_run :
      (evicts : Bool) (any : Block)
      → (D.read_block block s.disk).1 ≡ buf
      → read_block_modified D fuel p true evicts block any s
        ≡ some ((D.read_block block s.disk).0, buf, (entered D fuel p block buf s))
  unfolding read_block_modified place
  read_run evicts any bytes = rw (retrieve_miss, bytes, insert_run evicts) refl

  pub write-Written :
      (evicts : Bool)
      → (s' : Store D) × (write_block_modified D fuel p evicts block buf s ≡ some (0, s'))
        × Written D p block buf order chains s s'
  write-Written evicts =
      let r =
        placed-Placed fuel p block id s.cache order chains lru hashed enough pz fresh unhashed in
      let (dirty, disk_addr, cache_addr, pages, disk) =
        set_dirty_at D p (entered D fuel p block buf s) in
      let at : (set_dirty D p (entered D fuel p block buf s)).pages
            ((set_dirty D p (entered D fuel p block buf s)).cache.nodes p).cache_addr
          ≡ update s.pages id buf id =
        ap (λ f. f ((set_dirty D p (entered D fuel p block buf s)).cache.nodes p).cache_addr) pages
        ∙ ap (update s.pages id buf) (cache_addr ∙ r.cache_addr) in
      (
        set_dirty D p (entered D fuel p block buf s),
        write_run evicts,
        record {
          lru = set_dirty-IsLru D p (entered D fuel p block buf s) (p ∷ order) r.lru;
          hashed = set_dirty-IsHashed D p (entered D fuel p block buf s) _ r.hashed;
          disk_addr = disk_addr ∙ r.disk_addr;
          dirty = dirty;
          bytes = at ∙ ground arith;
          disk = disk;
          spared = λ j ne.
              let e = set_dirty-others D p (entered D fuel p block buf s) j ne in
              subst (λ n. SameBlock n (s.cache.nodes j)) (sym e) (r.spared j ne);
        },
      )

module _ (D : Device) (fuel p block : ℕ) (buf : Block) (s : Store D) (c : Cache)
    (run : retrieve_block_from_cache D.freed fuel p block s.cache ≡ some (p, c)) (pz : p ≢ 0) where
  -- A block that is in the cache is read from its page.
  pub read_hit :
      (got evicts : Bool)
      → read_block_modified D fuel p got evicts block buf s
        ≡ some (2 ^ 12, s.pages (c.nodes p).cache_addr, record s { cache = c })
  unfolding read_block_modified
  read_hit got evicts = let some_node : (p == 0) ≡ false = ground arith in rw (run, some_node) refl

  -- A block that is in the cache is written to its page.
  pub write_hit :
      (evicts : Bool)
      → write_block_modified D fuel p evicts block buf s
        ≡ some (
          0,
          set_dirty D p (record s { cache = c; pages = update s.pages (c.nodes p).cache_addr buf }),
        )
  unfolding write_block_modified
  write_hit evicts = let some_node : (p == 0) ≡ false = ground arith in rw (run, some_node) refl
