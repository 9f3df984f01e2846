-- ===== src/Objstore/Cache/Hash/Remove.antt =====
-- On `remove_block_from_cache_hash_table` in Assn4/objstore.c: the chain that it leaves, and what it spares.
use gem_os_cs330a.Prelude.{
  ℕ, ◌≤◌, ◌≡◌, ◌≢◌, refl, sym, subst, ◌∙◌, true, false, ◌==◌, arith, List, [], ◌∷◌, ◌++◌, length,
  some, Bool-cases, inl, inr,
}
use gem_os_cs330a.Process.{update}
use gem_os_cs330a.Objstore.Cache.{
  Cache, set_next, cache_hash, find_in_chain, remove_block_from_cache_hash_table,
}
use gem_os_cs330a.Objstore.Cache.Lru.{has, last_or, Distinct, IsLru, last-has, Distinct-split}
use gem_os_cs330a.Objstore.Cache.Chain.{
  Chain, find_in_chain_lem, Chain-frame, Chain-remove, lacks, find_found,
}
use gem_os_cs330a.Objstore.Cache.Hash.{SameBlock, set_next-IsLru, set_next_other}

-- What the removal of the block leaves of its chain: nothing where the block was at its head.
abbrev pub kept : (before after : List ℕ) → List ℕ
kept [] b = []
kept (x ∷ a) b = x ∷ a ++ b

-- The cache behind the removal of node `q` behind the nodes of a list, by the two branches.
abbrev pub removed : (p q : ℕ) → Cache → List ℕ → Cache
removed p q c [] = record c { table = update c.table (cache_hash (c.nodes p).disk_addr) 0 }
removed p q c (x ∷ a) = record c { nodes = set_next c.nodes (last_or x a) (c.nodes q).next }

module _ (fuel p q : ℕ) (c : Cache) (a b : List ℕ)
    (chain : Chain c.nodes (c.table (cache_hash (c.nodes p).disk_addr)) (a ++ q ∷ b))
    (distinct : Distinct (a ++ q ∷ b)) (enough : length (a ++ q ∷ b) ≤ fuel)
    (first : lacks c.nodes (c.nodes p).disk_addr a ≡ true)
    (here : (c.nodes q).disk_addr ≡ (c.nodes p).disk_addr) where
  walk :
      find_in_chain fuel c.nodes
        (c.nodes p).disk_addr
        (c.table (cache_hash (c.nodes p).disk_addr))
        (c.table (cache_hash (c.nodes p).disk_addr))
      ≡ (q, last_or (c.table (cache_hash (c.nodes p).disk_addr)) a)
  walk =
      find_in_chain_lem c.nodes (c.nodes p).disk_addr (c.table (cache_hash (c.nodes p).disk_addr))
        (c.table (cache_hash (c.nodes p).disk_addr)) fuel (a ++ q ∷ b) chain enough
      ∙ find_found c.nodes (c.nodes p).disk_addr (c.table (cache_hash (c.nodes p).disk_addr)) q a b
          first here

pub remove_lem :
    (fuel p q : ℕ) (c : Cache) (a b : List ℕ)
    (chain : Chain c.nodes (c.table (cache_hash (c.nodes p).disk_addr)) (a ++ q ∷ b))
    (distinct : Distinct (a ++ q ∷ b)) (enough : length (a ++ q ∷ b) ≤ fuel)
    (first : lacks c.nodes (c.nodes p).disk_addr a ≡ true)
    (here : (c.nodes q).disk_addr ≡ (c.nodes p).disk_addr)
    → remove_block_from_cache_hash_table fuel p c ≡ some (removed p q c a)
unfolding remove_block_from_cache_hash_table
remove_lem fuel p q c [] b chain distinct enough first here =
    let e = walk fuel p q c [] b chain distinct enough first here in
    let head : c.table (cache_hash (c.nodes p).disk_addr) ≡ q = chain.0 in
    let same : (c.table (cache_hash (c.nodes p).disk_addr) == q) ≡ true = rw head (ground arith) in
    rw (e, same, remove_block_from_cache_hash_table) refl
remove_lem fuel p q c (x ∷ a) b chain (z, h, d) enough first here =
    let e = walk fuel p q c (x ∷ a) b chain (z, h, d) enough first here in
    let (_, pa, _, qz, _) = Distinct-split (x ∷ a) b q (z, h, d) in
    let m = last-has x a in
    let ne : (last_or x a == q) ≡ false = elim (Bool-cases (last_or x a == q)) [
      | inl same ↦ let k : last_or x a ≡ q = ground arith in absurd (cc)
      | inr off ↦ off
    ] in
    let some : (q == 0) ≡ false = ground arith in
    rw (e, ne, some, remove_block_from_cache_hash_table) refl

module _ (fuel p q : ℕ) (c : Cache) (b : List ℕ) where
  pub removed_at :
      (a : List ℕ) (chain : Chain c.nodes (c.table (cache_hash (c.nodes p).disk_addr)) (a ++ q ∷ b))
      (distinct : Distinct (a ++ q ∷ b)) (enough : length (a ++ q ∷ b) ≤ fuel)
      (first : lacks c.nodes (c.nodes p).disk_addr a ≡ true)
      (here : (c.nodes q).disk_addr ≡ (c.nodes p).disk_addr)
      → let c' = removed p q c a in
        Chain c'.nodes (c'.table (cache_hash (c.nodes p).disk_addr)) (kept a b)
  removed_at [] chain distinct enough first here = ground arith
  removed_at (x ∷ a) (e, xz, rest) distinct enough first here =
      let nodes' = set_next c.nodes (last_or x a) (c.nodes q).next in
      subst (λ y. Chain nodes' y (x ∷ a ++ b)) (sym e)
        (Chain-remove c.nodes x q a b distinct (refl, xz, rest))

  pub removed_others :
      (a : List ℕ) (chain : Chain c.nodes (c.table (cache_hash (c.nodes p).disk_addr)) (a ++ q ∷ b))
      (distinct : Distinct (a ++ q ∷ b)) (enough : length (a ++ q ∷ b) ≤ fuel)
      (first : lacks c.nodes (c.nodes p).disk_addr a ≡ true)
      (here : (c.nodes q).disk_addr ≡ (c.nodes p).disk_addr) (v : ℕ) (m : List ℕ)
      → v ≢ cache_hash (c.nodes p).disk_addr
      → Chain c.nodes (c.table v) m
      → ((q' : ℕ) → has q' a ≡ true → has q' m ≡ false)
      → let c' = removed p q c a in Chain c'.nodes (c'.table v) m
  removed_others [] chain distinct enough first here v m ne other apart =
      let off : (v == cache_hash (c.nodes p).disk_addr) ≡ false = ground arith in rw off other
  removed_others (x ∷ a) chain distinct enough first here v m ne other apart =
      let out = apart (last_or x a) (last-has x a) in
      Chain-frame c.nodes (set_next c.nodes (last_or x a) (c.nodes q).next) (c.table v) m
        (λ k i. set_next_other c.nodes (last_or x a) (c.nodes q).next k m out i) other

  pub removed-IsLru :
      (a l : List ℕ)
      (chain : Chain c.nodes (c.table (cache_hash (c.nodes p).disk_addr)) (a ++ q ∷ b))
      (distinct : Distinct (a ++ q ∷ b)) (enough : length (a ++ q ∷ b) ≤ fuel)
      (first : lacks c.nodes (c.nodes p).disk_addr a ≡ true)
      (here : (c.nodes q).disk_addr ≡ (c.nodes p).disk_addr)
      → IsLru c l
      → IsLru (removed p q c a) l
  removed-IsLru [] l chain distinct enough first here h = record {
    first = h.first;
    last = h.last;
    links = h.links;
    distinct = h.distinct;
    size = h.size;
  }
  removed-IsLru (x ∷ a) l chain distinct enough first here h =
      set_next-IsLru (last_or x a) (c.nodes q).next c l h

  -- A node outside the chain is spared.
  pub removed_node :
      (a : List ℕ) (k : ℕ)
      (chain : Chain c.nodes (c.table (cache_hash (c.nodes p).disk_addr)) (a ++ q ∷ b))
      (distinct : Distinct (a ++ q ∷ b)) (enough : length (a ++ q ∷ b) ≤ fuel)
      (first : lacks c.nodes (c.nodes p).disk_addr a ≡ true)
      (here : (c.nodes q).disk_addr ≡ (c.nodes p).disk_addr)
      → has k a ≡ false
      → (removed p q c a).nodes k ≡ c.nodes k
  unfolding set_next
  removed_node [] k chain distinct enough first here h = refl
  removed_node (x ∷ a) k chain distinct enough first here h =
      let m = last-has x a in
      elim (Bool-cases (k == last_or x a)) [
        | inl same ↦ let e : k ≡ last_or x a = ground arith in absurd (cc)
        | inr off ↦ rw off refl
      ]

pub removed_keeps :
    (p q : ℕ) (c : Cache) (a : List ℕ) (j : ℕ) → SameBlock ((removed p q c a).nodes j) (c.nodes j)
unfolding set_next
removed_keeps p q c [] j = record { disk_addr = refl; cache_addr = refl; dirty = refl }
removed_keeps p q c (x ∷ a) j = record {
  disk_addr = ground arith;
  cache_addr = ground arith;
  dirty = ground arith;
}
