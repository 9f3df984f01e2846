-- ===== src/Objstore/Blocks.antt =====
-- Assn4/objstore.c: reading and writing disk blocks through the cache, as it is built with CACHE.
-- The block device of lib.h is a parameter. `fuel`, `p` and `freed` are as for the cache; the Boolean
-- arguments say whether `malloc_4k` got its page.
pub mod Run
pub mod Sync
pub mod Coherent
use gem_os_cs330a.Prelude.{
  ℕ, zero, suc, ◌+◌, ◌-◌, ◌%◌, ◌^◌, ◌≡◌, ◌≢◌, Bool, true, false, not, Option, none, some, ◌==◌, leb,
  if◌then◌else◌, ◌>>=◌,
}
use gem_os_cs330a.Process.{update}
use gem_os_cs330a.Objstore.{cache_htsize}
use gem_os_cs330a.Objstore.Bitmap.{Bitmap, get_block_for_cache, free_cache_id}
use gem_os_cs330a.Objstore.Cache.{
  CacheObj, Nodes, Cache, check_disk_block_in_cache, new_node, add_at_top_of_cache,
  remove_object_from_cache_dont_write_back, insert_block_in_cache_hash_table,
  remove_block_from_cache_hash_table, retrieve_block_from_cache,
}

-- The bytes of a block.
abbrev pub Block : Type 0
Block = ℕ → ℕ

-- `read_block` and `write_block`: the result of the former as a `u32`, with what it leaves in the
-- buffer. `freed` is what is read from a node of the cache that was freed, by what it held: none if that
-- is undefined.
pub record Device : Type 1 where
  pub Disk : Type 0
  pub read_block : ℕ → Disk → ℕ × Block
  pub write_block : ℕ → Block → Disk → Disk
  pub freed : CacheObj → Option CacheObj

-- What a disk does: a block holds what was written to it last.
pub record DeviceLaws (D : Device) : Type 0 where
  pub written : (b : ℕ) (v : Block) (d : D.Disk) → (D.read_block b (D.write_block b v d)).1 ≡ v
  pub others :
      (a b : ℕ) (v : Block) (d : D.Disk)
      → a ≢ b
      → D.read_block a (D.write_block b v d) ≡ D.read_block a d

-- The globals of the cache, the pages of `objfs->cache` by id, and the disk.
pub record Store (D : Device) : Type 0 where
  pub cache : Cache
  pub cache_map : Bitmap
  pub pages : ℕ → Block
  pub disk : D.Disk

module _ (D : Device) where
  -- Where the page is not got, the node stays.
  unfoldable pub remove_object_from_cache_and_write_back :
      (got : Bool) (node : ℕ) → Store D → Store D
  remove_object_from_cache_and_write_back got node s =
      let n = s.cache.nodes node in
      let s₁ : Store D = record s {
        cache = remove_object_from_cache_dont_write_back node s.cache;
      } in
      if n.dirty == 0
      then s₁
      else if got
      then record s₁ { disk = D.write_block n.disk_addr (s.pages n.cache_addr) s.disk }
      else s

  -- The block whose use is the longest ago leaves the cache.
  unfoldable pub evict : (fuel : ℕ) (got : Bool) → Store D → Option (Store D)
  evict fuel got s = if s.cache.cache_right == 0 then none else (do
    c ← remove_block_from_cache_hash_table fuel s.cache.cache_right s.cache
    let id = (c.nodes c.cache_right).cache_addr % 2 ^ 32
    let s₁ : Store D = record s { cache = c; cache_map = free_cache_id id s.cache_map }
    some (remove_object_from_cache_and_write_back got c.cache_right s₁))

  unfoldable pub insert_block_to_cache :
      (fuel p : ℕ) (got : Bool) (disk_block cache_block : ℕ) → Store D → Option (ℕ × Store D)
  insert_block_to_cache fuel p got disk_block cache_block s =
      if check_disk_block_in_cache fuel disk_block s.cache then some (0, s) else (do
        let s₁ : Store D = record s { cache = new_node p disk_block cache_block s.cache }
        s₂ ← if leb (cache_htsize - 1) s₁.cache.cache_size then evict fuel got s₁ else some s₁
        let c = add_at_top_of_cache p s₂.cache
        some (p, record s₂ { cache = insert_block_in_cache_hash_table fuel disk_block p c }))

  -- A block that was not in the cache: the page that it gets, with its bytes.
  unfoldable pub place : Block → Store D → ℕ × Store D
  place buf s =
      let (id, map) = get_block_for_cache s.cache_map in
      (id, record s { cache_map = map; pages = update s.pages id buf })

  -- The result, the bytes in the buffer, and the store. A negative result of `read_block` is none as
  -- a `u32`, so no branch looks at it.
  unfoldable pub read_block_modified :
      (fuel p : ℕ) (got evicts : Bool) (block_no : ℕ)
      → Block
      → Store D
      → Option (ℕ × Block × Store D)
  read_block_modified fuel p got evicts block_no buf s = do
    (node, c) ← retrieve_block_from_cache D.freed fuel p block_no s.cache
    let s₁ : Store D = record s { cache = c }
    if node == 0
        then (if got
            then (do
              let (obtained_id, ptr) = D.read_block block_no s.disk
              let (c_id, s₂) = place ptr s₁
              (_, s₃) ← insert_block_to_cache fuel p evicts block_no c_id s₂
              some (obtained_id, ptr, s₃))
            else some (2 ^ 32 - 1, buf, s₁))
        else some (2 ^ 12, s.pages (c.nodes node).cache_addr, s₁)

  -- `node->dirty = 1`.
  unfoldable pub set_dirty : (node : ℕ) → Store D → Store D
  set_dirty node s = record s {
    cache = record s.cache {
      nodes = update s.cache.nodes node (record (s.cache.nodes node) { dirty = 1 });
    };
  }

  unfoldable pub write_block_modified :
      (fuel p : ℕ) (evicts : Bool) (block_no : ℕ) → Block → Store D → Option (ℕ × Store D)
  write_block_modified fuel p evicts block_no buf s = do
    (node, c) ← retrieve_block_from_cache D.freed fuel p block_no s.cache
    let s₁ : Store D = record s { cache = c }
    if node == 0
        then (do
          let (cache_id, s₂) = place buf s₁
          (new_node, s₃) ← insert_block_to_cache fuel p evicts block_no cache_id s₂
          if new_node == 0 then none else some (0, set_dirty new_node s₃))
        else (let s₂ : Store D = record s₁ {
          pages = update s.pages (c.nodes node).cache_addr buf;
        } in
            some (0, set_dirty node s₂))

  -- The body of the loops of `obj_sync`. `none` is the early return.
  unfoldable pub sync_node : (got : ℕ → Bool) → Store D → (itr : ℕ) → D.Disk → Option D.Disk
  sync_node got s itr disk =
      let n = s.cache.nodes itr in
      if n.dirty == 0
      then some disk
      else if got itr
      then some (D.write_block n.disk_addr (s.pages n.cache_addr) disk)
      else none

  -- The inner loop, over a chain.
  unfoldable pub sync_chain :
      (fuel : ℕ) (got : ℕ → Bool) → Store D → (itr : ℕ) → D.Disk → Option D.Disk
  sync_chain zero got s itr disk = some disk
  sync_chain (suc fuel) got s itr disk =
      let n = s.cache.nodes itr in
      let written = sync_node got s itr disk in
      let rest = written >>= (λ disk'. sync_chain fuel got s n.next disk') in
      if itr == 0 then some disk else rest

  -- The outer loop, by the chains that are left, from index `i` on.
  unfoldable pub sync_loop :
      (fuel : ℕ) (got : ℕ → Bool) → Store D → (rounds i : ℕ) → D.Disk → Option D.Disk
  sync_loop fuel got s zero i disk = some disk
  sync_loop fuel got s (suc rounds) i disk = do
    disk' ← sync_chain fuel got s (s.cache.table i) disk
    sync_loop fuel got s rounds (i + 1) disk'

  unfoldable pub obj_sync : (fuel : ℕ) (got : ℕ → Bool) → Store D → Option D.Disk
  obj_sync fuel got s = sync_loop fuel got s cache_htsize 0 s.disk
