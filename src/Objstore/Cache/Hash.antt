-- ===== src/Objstore/Cache/Hash.antt =====
-- On the functions of Assn4/objstore.c that change a chain of the hash table: what they do to the
-- chains, and that they leave the list of the cache as it is.
pub mod Remove
use gem_os_cs330a.Prelude.{
  ℕ, zero, suc, ◌+◌, ◌-◌, ◌%◌, ◌^◌, ◌<◌, ◌≤◌, ◌≡◌, ◌≢◌, refl, sym, ap, subst, ◌∙◌, Bool, true,
  false, not, ◌&&◌, ◌||◌, ◌==◌, arith, if◌then◌else◌, List, [], ◌∷◌, ◌++◌, length, Option, none,
  some, Bool-cases, inl, inr,
}
use gem_os_cs330a.Process.{update}
use gem_os_cs330a.Objstore.Cache.{
  CacheObj, Nodes, Cache, set_left, set_right, set_next, cache_hash, find_in_chain, end_of_chain,
  get_cache_obj, check_disk_block_in_cache, insert_block_in_cache_hash_table,
  remove_block_from_cache_hash_table, add_at_top_of_cache, remove_object_from_cache_dont_write_back,
  new_node, retrieve_block_from_cache,
}
use gem_os_cs330a.Objstore.Cache.Lru.{
  has, head_or, last_or, Distinct, Seg, Seg-frame, IsLru, last_some, last-has, has-append,
  Distinct-split,
}
use gem_os_cs330a.Objstore.Cache.Lru.Top.{add_at_top-IsLru}
use gem_os_cs330a.Objstore.Cache.Lru.Unlink.{unlink-IsLru}
use gem_os_cs330a.Objstore.Cache.Chain.{
  Chain, find, find_in_chain_lem, end_of_chain_lem, Chain-frame, Chain-append, Chain-remove, lacks,
  find_found, find_missing, Chain-head, check_lem,
}

-- What the links of the list are not.
pub record Same (m n : CacheObj) : Type 0 where
  pub next : m.next ≡ n.next
  pub disk_addr : m.disk_addr ≡ n.disk_addr
  pub cache_addr : m.cache_addr ≡ n.cache_addr
  pub dirty : m.dirty ≡ n.dirty

-- What of a node neither the list nor a chain uses.
pub record SameBlock (m n : CacheObj) : Type 0 where
  pub disk_addr : m.disk_addr ≡ n.disk_addr
  pub cache_addr : m.cache_addr ≡ n.cache_addr
  pub dirty : m.dirty ≡ n.dirty

-- The two changes of the list leave the table and the rest of every node as they are.
pub add_keeps :
    (p j : ℕ) (c : Cache)
    → Same ((add_at_top_of_cache p c).nodes j) (c.nodes j)
      × ((add_at_top_of_cache p c).table ≡ c.table)
unfolding add_at_top_of_cache set_left set_right
add_keeps p j c = (
  record {
    next = ground arith;
    disk_addr = ground arith;
    cache_addr = ground arith;
    dirty = ground arith;
  },
  refl,
)

pub unlink_keeps :
    (p j : ℕ) (c : Cache)
    → Same ((remove_object_from_cache_dont_write_back p c).nodes j) (c.nodes j)
      × ((remove_object_from_cache_dont_write_back p c).table ≡ c.table)
unfolding remove_object_from_cache_dont_write_back set_left set_right
unlink_keeps p j c = (
  record {
    next = ground arith;
    disk_addr = ground arith;
    cache_addr = ground arith;
    dirty = ground arith;
  },
  refl,
)

pub new_others :
    (p disk addr j : ℕ) (c : Cache) → j ≢ p → (new_node p disk addr c).nodes j ≡ c.nodes j
unfolding new_node
new_others p disk addr j c ne = ground arith

-- A change of the `next` of one node leaves the list as it is.
pub set_next-IsLru :
    (q v : ℕ) (c : Cache) (l : List ℕ)
    → IsLru c l
    → IsLru (record c { nodes = set_next c.nodes q v }) l
unfolding set_next
set_next-IsLru q v c l h = record {
  first = h.first;
  last = h.last;
  links =
      Seg-frame c.nodes (set_next c.nodes q v) 0 0 l (λ a i. (ground arith, ground arith)) h.links;
  distinct = h.distinct;
  size = h.size;
}

pub insert_keeps :
    (fuel disk p j : ℕ) (c : Cache)
    → SameBlock ((insert_block_in_cache_hash_table fuel disk p c).nodes j) (c.nodes j)
unfolding insert_block_in_cache_hash_table set_next
insert_keeps fuel disk p j c = record {
  disk_addr = ground arith;
  cache_addr = ground arith;
  dirty = ground arith;
}

pub insert-IsLru :
    (fuel disk p : ℕ) (c : Cache) (l : List ℕ)
    → IsLru c l
    → IsLru (insert_block_in_cache_hash_table fuel disk p c) l
unfolding insert_block_in_cache_hash_table
insert-IsLru fuel disk p c l h =
    let parent =
      end_of_chain fuel c.nodes (c.table (cache_hash disk)) (c.table (cache_hash disk)) in
    elim (Bool-cases (parent == 0)) [
      | inl e ↦
          rw (e, insert_block_in_cache_hash_table)
            (record {
              first = h.first;
              last = h.last;
              links = h.links;
              distinct = h.distinct;
              size = h.size;
            })
      | inr e ↦ rw (e, insert_block_in_cache_hash_table) (set_next-IsLru parent p c l h)
    ]

-- Where a node that gets another successor is outside of a list.
pub set_next_other :
    (nodes : Nodes) (x v k : ℕ) (m : List ℕ)
    → has x m ≡ false
    → has k m ≡ true
    → (set_next nodes x v k).next ≡ (nodes k).next
unfolding set_next
set_next_other nodes x v k m out i = elim (Bool-cases (k == x)) [
  | inl here ↦ let same : k ≡ x = ground arith in absurd (cc)
  | inr off ↦ rw off refl
]

module _ (fuel disk p : ℕ) (c : Cache) where
  insert_behind :
      (q : ℕ) (l : List ℕ)
      → Chain c.nodes (c.table (cache_hash disk)) (q ∷ l)
      → Distinct (q ∷ l)
      → length (q ∷ l) ≤ fuel
      → insert_block_in_cache_hash_table fuel disk p c
        ≡ record c { nodes = set_next c.nodes (last_or q l) p }
  unfolding insert_block_in_cache_hash_table
  insert_behind q l chain d enough =
      let itr = c.table (cache_hash disk) in
      let walk = end_of_chain_lem c.nodes itr itr fuel (q ∷ l) chain enough in
      let ends = last_some q l d in
      let found : (last_or q l == 0) ≡ false = ground arith in
      rw (walk, found, insert_block_in_cache_hash_table) refl

  pub insert_here :
      (l : List ℕ)
      → Chain c.nodes (c.table (cache_hash disk)) l
      → Distinct l
      → length l ≤ fuel
      → p ≢ 0
      → has p l ≡ false
      → (c.nodes p).next ≡ 0
      → let c' = insert_block_in_cache_hash_table fuel disk p c in
        Chain c'.nodes (c'.table (cache_hash disk)) (l ++ p ∷ [])
  unfolding insert_block_in_cache_hash_table
  insert_here [] chain d enough pz fresh end =
      let itr = c.table (cache_hash disk) in
      let walk = end_of_chain_lem c.nodes itr itr fuel [] chain enough ∙ chain in
      let none_yet : (end_of_chain fuel c.nodes itr itr == 0) ≡ true = rw walk refl in
      rw (none_yet, insert_block_in_cache_hash_table) (ground arith, pz, end)
  insert_here (q ∷ l) (e, qz, rest) (z, h, d) enough pz fresh end =
      let c' : Cache = record c { nodes = set_next c.nodes (last_or q l) p } in
      let eq = insert_behind q l (e, qz, rest) (z, h, d) enough in
      let done = Chain-append c.nodes q p l (z, h, d) pz fresh end (refl, qz, rest) in
      subst (λ x. Chain x.nodes (x.table (cache_hash disk)) (q ∷ l ++ p ∷ [])) (sym eq)
        (subst (λ y. Chain c'.nodes y (q ∷ l ++ p ∷ [])) (sym e) done)

  pub insert_there :
      (l m : List ℕ) (v : ℕ)
      → Chain c.nodes (c.table (cache_hash disk)) l
      → Distinct l
      → length l ≤ fuel
      → v ≢ cache_hash disk
      → Chain c.nodes (c.table v) m
      → ((q : ℕ) → has q l ≡ true → has q m ≡ false)
      → let c' = insert_block_in_cache_hash_table fuel disk p c in Chain c'.nodes (c'.table v) m
  unfolding insert_block_in_cache_hash_table set_next
  insert_there [] m v chain d enough ne other apart =
      let itr = c.table (cache_hash disk) in
      let walk = end_of_chain_lem c.nodes itr itr fuel [] chain enough ∙ chain in
      let none_yet : (end_of_chain fuel c.nodes itr itr == 0) ≡ true = rw walk refl in
      let off : (v == cache_hash disk) ≡ false = ground arith in
      rw (none_yet, insert_block_in_cache_hash_table, off) other
  insert_there (q ∷ l) m v (e, qz, rest) (z, h, d) enough ne other apart =
      let out = apart (last_or q l) (last-has q l) in
      rw (insert_behind q l (e, qz, rest) (z, h, d) enough) (
        Chain-frame c.nodes (set_next c.nodes (last_or q l) p) (c.table v) m
          (λ a i. set_next_other c.nodes (last_or q l) p a m out i) other)
