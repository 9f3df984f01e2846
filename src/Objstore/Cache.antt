-- ===== src/Objstore/Cache.antt =====
-- Assn4/objstore.c: the cache of disk blocks, as it is built with CACHE. Its nodes are cells at
-- pointers, 0 is NULL: they are linked by `left` and `right` in the order of their use, from
-- `cache_left` to `cache_right`, and by `next` in the chains of `cacheHashTable`. `p` is the pointer that `calloc`
-- returned. `freed` is what is read from a cell that was freed, by what it held: none where such a read
-- is undefined, as the C standard has it. A chain is walked for `fuel` nodes at most.
pub mod Lru
pub mod Chain
pub mod Hash
pub mod Hashed
pub mod Insert
pub mod Retrieve
use gem_os_cs330a.Prelude.{
  ℕ, zero, suc, ◌+◌, ◌-◌, ◌%◌, ◌^◌, Bool, true, false, not, ◌&&◌, Option, none, some, ◌==◌,
  if◌then◌else◌, ◌>>=◌,
}
use gem_os_cs330a.Process.{update}
use gem_os_cs330a.Objstore.{cache_htsize}

-- `struct cache_obj`.
pub record CacheObj : Type 0 where
  pub cache_addr : ℕ
  pub disk_addr : ℕ
  pub dirty : ℕ
  pub left : ℕ
  pub right : ℕ
  pub next : ℕ

abbrev pub Nodes : Type 0
Nodes = ℕ → CacheObj

pub record Cache : Type 0 where
  pub nodes : Nodes
  pub table : ℕ → ℕ
  pub cache_left : ℕ
  pub cache_right : ℕ
  pub cache_size : ℕ

-- `p->left = v`, `p->right = v` and `p->next = v`.
unfoldable pub set_left : Nodes → (p v : ℕ) → Nodes
set_left nodes p v = update nodes p (record (nodes p) { left = v })

unfoldable pub set_right : Nodes → (p v : ℕ) → Nodes
set_right nodes p v = update nodes p (record (nodes p) { right = v })

unfoldable pub set_next : Nodes → (p v : ℕ) → Nodes
set_next nodes p v = update nodes p (record (nodes p) { next = v })

unfoldable pub cache_hash : ℕ → ℕ
cache_hash disk_block = disk_block % cache_htsize

unfoldable pub add_at_top_of_cache : (p : ℕ) → Cache → Cache
add_at_top_of_cache p c =
    let nodes₁ = set_left (set_right c.nodes p c.cache_left) p 0 in
    record c {
      nodes = if not (c.cache_left == 0) then set_left nodes₁ c.cache_left p else nodes₁;
      cache_left = p;
      cache_right = if c.cache_right == 0 then p else c.cache_right;
      cache_size = (c.cache_size + 1) % 2 ^ 32;
    }

-- The body of `remove_object_from_cache_dont_write_back`, and the end of its twin that writes back,
-- up to `free(node)`: the caller that reads the node afterwards has it in `free_node`.
unfoldable pub remove_object_from_cache_dont_write_back : (p : ℕ) → Cache → Cache
remove_object_from_cache_dont_write_back p c =
    let before = (c.nodes p).left in
    let nodes₁ : Nodes =
      if not (before == 0) then set_right c.nodes before (c.nodes p).right else c.nodes in
    let after = (nodes₁ p).right in
    record c {
      cache_left = if not (before == 0) then c.cache_left else (c.nodes p).right;
      nodes = if not (after == 0) then set_left nodes₁ after (nodes₁ p).left else nodes₁;
      cache_right = if not (after == 0) then c.cache_right else (nodes₁ p).left;
      cache_size = (c.cache_size + 2 ^ 32 - 1) % 2 ^ 32;
    }

-- The loops over a chain: to the node of `disk_block`, and to the end. The result is the node and
-- its parent, and the last node.
unfoldable pub find_in_chain : (fuel : ℕ) → Nodes → (disk_block itr par : ℕ) → ℕ × ℕ
find_in_chain zero nodes disk_block itr par = (itr, par)
find_in_chain (suc fuel) nodes disk_block itr par =
    let rest = find_in_chain fuel nodes disk_block (nodes itr).next itr in
    if not (itr == 0) && not ((nodes itr).disk_addr == disk_block) then rest else (itr, par)

unfoldable pub end_of_chain : (fuel : ℕ) → Nodes → (itr par : ℕ) → ℕ
end_of_chain zero nodes itr par = par
end_of_chain (suc fuel) nodes itr par =
    let rest = end_of_chain fuel nodes (nodes itr).next itr in if not (itr == 0) then rest else par

unfoldable pub get_cache_obj : (fuel disk_addr : ℕ) → Cache → ℕ
get_cache_obj fuel disk_addr c =
    let itr = c.table (cache_hash disk_addr) in (find_in_chain fuel c.nodes disk_addr itr itr).0

unfoldable pub check_disk_block_in_cache : (fuel disk_block : ℕ) → Cache → Bool
check_disk_block_in_cache fuel disk_block c =
    let itr = c.table (cache_hash disk_block) in
    not ((find_in_chain fuel c.nodes disk_block itr itr).0 == 0)

unfoldable pub insert_block_in_cache_hash_table : (fuel disk_block p : ℕ) → Cache → Cache
insert_block_in_cache_hash_table fuel disk_block p c =
    let itr = c.table (cache_hash disk_block) in
    let parent = end_of_chain fuel c.nodes itr itr in
    if parent == 0
    then record c { table = update c.table (cache_hash disk_block) p }
    else record c { nodes = set_next c.nodes parent p }

-- Where the block is not in a chain that has nodes, NULL is followed: `none`.
unfoldable pub remove_block_from_cache_hash_table : (fuel p : ℕ) → Cache → Option Cache
remove_block_from_cache_hash_table fuel p c =
    let val = cache_hash (c.nodes p).disk_addr in
    let (itr, par) = find_in_chain fuel c.nodes (c.nodes p).disk_addr (c.table val) (c.table val) in
    if par == itr
    then some (record c { table = update c.table val 0 })
    else if itr == 0
    then none
    else some (record c { nodes = set_next c.nodes par (c.nodes itr).next })

-- `calloc` of a node, with its two addresses.
unfoldable pub new_node : (p disk_addr cache_addr : ℕ) → Cache → Cache
new_node p disk_addr cache_addr c = record c {
  nodes = update c.nodes p (record {
    cache_addr = cache_addr;
    disk_addr = disk_addr;
    dirty = 0;
    left = 0;
    right = 0;
    next = 0;
  });
}

-- `free(node)` where the node is still in its chain, and will be read by the walk over the chain.
unfoldable pub free_node : (freed : CacheObj → Option CacheObj) (node : ℕ) → Cache → Option Cache
free_node freed node c = do
  cell ← freed (c.nodes node)
  some (record c { nodes = update c.nodes node cell })

-- The node that was made for the block, or NULL where it is not in the cache. The walk over the chain
-- of the block comes to the node that was freed, whatever the chain is: it is the first of the block.
unfoldable pub retrieve_block_from_cache :
    (freed : CacheObj → Option CacheObj) (fuel p disk_block : ℕ) → Cache → Option (ℕ × Cache)
retrieve_block_from_cache freed fuel p disk_block c =
    if check_disk_block_in_cache fuel disk_block c
    then (do
      let c_node = get_cache_obj fuel disk_block c
      let c₁ = new_node p disk_block (c.nodes c_node).cache_addr c
      c₂ ← free_node freed c_node (remove_object_from_cache_dont_write_back c_node c₁)
      c₃ ← remove_block_from_cache_hash_table fuel p (add_at_top_of_cache p c₂)
      some (p, insert_block_in_cache_hash_table fuel (c₃.nodes p).disk_addr p c₃))
    else some (0, c)
