-- ===== src/Objstore/Cache/Insert.antt =====
-- On `insert_block_to_cache` in Assn4/objstore.c where no block has to leave the cache: the steps that
-- enter a node.
use gem_os_cs330a.Prelude.{
  ℕ, ◌≤◌, ◌≡◌, ◌≢◌, sym, ap, ◌∙◌, true, false, arith, List, [], ◌∷◌, ◌++◌, length,
}
use gem_os_cs330a.Objstore.Cache.{
  Cache, cache_hash, new_node, add_at_top_of_cache, insert_block_in_cache_hash_table,
}
use gem_os_cs330a.Objstore.Cache.Lru.{has, Seg-frame, IsLru}
use gem_os_cs330a.Objstore.Cache.Lru.Top.{add_at_top-IsLru}
use gem_os_cs330a.Objstore.Cache.Chain.{Chain, Chain-frame}
use gem_os_cs330a.Objstore.Cache.Hash.{
  SameBlock, add_keeps, new_others, insert_keeps, insert-IsLru, insert_here, insert_there,
}
use gem_os_cs330a.Objstore.Cache.Hashed.{IsHashed, chains_with, with-IsHashed}

-- A node for a block enters the list and a chain.
abbrev pub placed : (fuel p disk addr : ℕ) → Cache → Cache
placed fuel p disk addr c =
    insert_block_in_cache_hash_table fuel disk p (add_at_top_of_cache p (new_node p disk addr c))

-- The cache behind it.
pub record Placed (p disk addr : ℕ) (order : List ℕ) (chains : ℕ → List ℕ) (c c' : Cache)
    : Type 0 where
  pub lru : IsLru c' (p ∷ order)
  pub hashed :
      IsHashed c' (chains_with chains (cache_hash disk) (chains (cache_hash disk) ++ p ∷ []))
  pub disk_addr : (c'.nodes p).disk_addr ≡ disk
  pub cache_addr : (c'.nodes p).cache_addr ≡ addr
  pub clean : (c'.nodes p).dirty ≡ 0
  pub spared : (j : ℕ) → j ≢ p → SameBlock (c'.nodes j) (c.nodes j)

module _ (fuel p disk addr : ℕ) (c : Cache) (order : List ℕ) (chains : ℕ → List ℕ)
    (lru : IsLru c order) (hashed : IsHashed c chains)
    (enough : length (chains (cache_hash disk)) ≤ fuel) (pz : p ≢ 0) (fresh : has p order ≡ false)
    (unhashed : (v : ℕ) → has p (chains v) ≡ false) where
  abbrev c₁ : Cache
  c₁ = new_node p disk addr c

  abbrev c₂ : Cache
  c₂ = add_at_top_of_cache p c₁

  ne_of : (l : List ℕ) (j : ℕ) → has p l ≡ false → has j l ≡ true → j ≢ p
  ne_of l j h i e = absurd (cc)

  new-IsLru : IsLru c₁ order
  unfolding new_node
  new-IsLru = record {
    first = lru.first;
    last = lru.last;
    links =
        Seg-frame c.nodes c₁.nodes 0 0 order
          (λ j i.
            let e = new_others p disk addr j c (ne_of order j fresh i) in
            (ap (λ n. n.left) e, ap (λ n. n.right) e))
          lru.links;
    distinct = lru.distinct;
    size = lru.size;
  }

  new_at :
      ((c₂.nodes p).next ≡ 0)
      × ((c₂.nodes p).disk_addr ≡ disk)
      × ((c₂.nodes p).dirty ≡ 0)
      × ((c₂.nodes p).cache_addr ≡ addr)
      × (c₂.table ≡ c.table)
  unfolding new_node
  new_at =
      let (s, t) = add_keeps p p c₁ in
      (
        s.next ∙ ground arith,
        s.disk_addr ∙ ground arith,
        s.dirty ∙ ground arith,
        s.cache_addr ∙ ground arith,
        t,
      )

  Chain-at : (v : ℕ) → Chain c₂.nodes (c₂.table v) (chains v)
  Chain-at v = rw (new_at.4) (
      Chain-frame c.nodes c₂.nodes (c.table v) (chains v)
        (λ j i.
          (add_keeps p j c₁).0.next
          ∙ ap (λ n. n.next) (new_others p disk addr j c (ne_of (chains v) j (unhashed v) i)))
        (hashed.chain v))

  pub placed-Placed : Placed p disk addr order chains c (placed fuel p disk addr c)
  placed-Placed =
      let v0 = cache_hash disk in
      let k = insert_keeps fuel disk p p c₂ in
      let (end, d, z, a, _) = new_at in
      record {
        lru =
            insert-IsLru fuel disk p c₂ (p ∷ order)
              (add_at_top-IsLru p c₁ order new-IsLru pz fresh);
        hashed =
            with-IsHashed c (placed fuel p disk addr c) chains v0 p (chains v0) hashed pz unhashed
              (λ j i. i) (hashed.distinct v0)
              (λ v ne.
                insert_there fuel disk p c₂ (chains v0) (chains v) v (Chain-at v0)
                  (hashed.distinct v0) enough ne (Chain-at v)
                  (λ j i. hashed.apart v0 v j (λ e. ne (sym e)) i))
              (insert_here fuel disk p c₂ (chains v0) (Chain-at v0) (hashed.distinct v0) enough pz
                (unhashed v0) end);
        disk_addr = k.disk_addr ∙ d;
        cache_addr = k.cache_addr ∙ a;
        clean = k.dirty ∙ z;
        spared = λ j ne.
            let i = insert_keeps fuel disk p j c₂ in
            let s = (add_keeps p j c₁).0 in
            let o = new_others p disk addr j c ne in
            record {
              disk_addr = i.disk_addr ∙ (s.disk_addr ∙ ap (λ n. n.disk_addr) o);
              cache_addr = i.cache_addr ∙ (s.cache_addr ∙ ap (λ n. n.cache_addr) o);
              dirty = i.dirty ∙ (s.dirty ∙ ap (λ n. n.dirty) o);
            };
      }
