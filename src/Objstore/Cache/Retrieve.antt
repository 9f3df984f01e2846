-- ===== src/Objstore/Cache/Retrieve.antt =====
-- On `retrieve_block_from_cache` in Assn4/objstore.c: what becomes of the node, of the list and of the
-- chain of the block.
use gem_os_cs330a.Prelude.{
  ℕ, ◌≤◌, ◌≡◌, ◌≢◌, refl, sym, ap, subst, ◌∙◌, true, false, not, arith, List, [], ◌∷◌, ◌++◌, length,
  length-append, Option, some, ◌==◌, Bool-cases, inl, inr,
}
use mathlib.Core.Path.{fun_ext}
use gem_os_cs330a.Process.{update}
use gem_os_cs330a.Objstore.Cache.{
  CacheObj, Cache, free_node, cache_hash, get_cache_obj, check_disk_block_in_cache,
  insert_block_in_cache_hash_table, add_at_top_of_cache, remove_object_from_cache_dont_write_back,
  new_node, retrieve_block_from_cache,
}
use gem_os_cs330a.Objstore.Cache.Lru.{has, Distinct, Seg-frame, IsLru, has-append, Distinct-split}
use gem_os_cs330a.Objstore.Cache.Lru.Top.{add_at_top-IsLru}
use gem_os_cs330a.Objstore.Cache.Lru.Unlink.{unlink-IsLru}
use gem_os_cs330a.Objstore.Cache.Chain.{
  Chain, Chain-frame, lacks, lacks-frame, find_found, check_lem,
}
use gem_os_cs330a.Objstore.Cache.Hashed.{IsHashed, chains_with, with-IsHashed}
use gem_os_cs330a.Objstore.Cache.Hash.{
  Same, SameBlock, add_keeps, unlink_keeps, new_others, insert-IsLru, insert_keeps, insert_here,
  insert_there,
}
use gem_os_cs330a.Objstore.Cache.Hash.Remove.{
  kept, removed, remove_lem, removed_at, removed_others, removed-IsLru, removed_node, removed_keeps,
}

-- The cache behind a retrieval: node `p` holds what `q` held, and is the one used last. It is not
-- dirty, and of the chain of `q` the nodes `rest` are left.
pub record Retrieved (p q disk : ℕ) (order : List ℕ) (chains : ℕ → List ℕ) (rest : List ℕ)
    (c c' : Cache) : Type 0 where
  pub lru : IsLru c' (p ∷ order)
  pub clean : (c'.nodes p).dirty ≡ 0
  pub cache_addr : (c'.nodes p).cache_addr ≡ (c.nodes q).cache_addr
  pub disk_addr : (c'.nodes p).disk_addr ≡ disk
  pub hashed : IsHashed c' (chains_with chains (cache_hash disk) (rest ++ p ∷ []))
  pub spared : (j : ℕ) → j ≢ p → SameBlock (c'.nodes j) (c.nodes j)

-- Where free keeps what a cell holds, freeing a node changes nothing.
free_node-keeps :
    (freed : CacheObj → Option CacheObj) (q : ℕ) (c : Cache)
    → ((n : CacheObj) → freed n ≡ some n)
    → free_node freed q c ≡ some c
unfolding free_node
free_node-keeps freed q c keeps =
    let same : update c.nodes q (c.nodes q) ≡ c.nodes = fun_ext λ u. elim (Bool-cases (u == q)) [
      | inl e ↦ let k : u ≡ q = ground arith in rw (e, k) refl
      | inr off ↦ rw off refl
    ] in
    rw (keeps (c.nodes q), same) refl

module _ (freed : CacheObj → Option CacheObj) (keeps : (n : CacheObj) → freed n ≡ some n)
    (fuel p q disk : ℕ) (c : Cache) (x y a b : List ℕ) (chains : ℕ → List ℕ)
    (lru : IsLru c (x ++ q ∷ y)) (hashed : IsHashed c chains)
    (at : chains (cache_hash disk) ≡ a ++ q ∷ b) (enough : length (a ++ q ∷ b) ≤ fuel)
    (first : lacks c.nodes disk a ≡ true) (holds : (c.nodes q).disk_addr ≡ disk) (pz : p ≢ 0)
    (fresh : has p (x ++ q ∷ y) ≡ false) (unhashed : (v : ℕ) → has p (chains v) ≡ false) where
  abbrev c₁ : Cache
  c₁ = new_node p disk (c.nodes q).cache_addr c

  abbrev moved : Cache
  moved = add_at_top_of_cache p (remove_object_from_cache_dont_write_back q c₁)

  moved_Same : (j : ℕ) → Same (moved.nodes j) (c₁.nodes j)
  moved_Same j =
      let s = (add_keeps p j (remove_object_from_cache_dont_write_back q c₁)).0 in
      let t = (unlink_keeps q j c₁).0 in
      record {
        next = s.next ∙ t.next;
        disk_addr = s.disk_addr ∙ t.disk_addr;
        cache_addr = s.cache_addr ∙ t.cache_addr;
        dirty = s.dirty ∙ t.dirty;
      }

  new_at :
      ((c₁.nodes p).next ≡ 0)
      × ((c₁.nodes p).disk_addr ≡ disk)
      × ((c₁.nodes p).dirty ≡ 0)
      × ((c₁.nodes p).cache_addr ≡ (c.nodes q).cache_addr)
      × (c₁.table ≡ c.table)
  unfolding new_node
  new_at = (ground arith, ground arith, ground arith, ground arith, refl)

  moved_table : moved.table ≡ c.table
  moved_table =
      (add_keeps p 0 (remove_object_from_cache_dont_write_back q c₁)).1
      ∙ ((unlink_keeps q 0 c₁).1 ∙ new_at.4)

  node_ne : (l : List ℕ) (j : ℕ) → has p l ≡ false → has j l ≡ true → j ≢ p
  node_ne l j h i e = absurd (cc)

  moved_at :
      (l : List ℕ) (j : ℕ) → has p l ≡ false → has j l ≡ true → Same (moved.nodes j) (c.nodes j)
  moved_at l j h i =
      let e = new_others p disk (c.nodes q).cache_addr j c (node_ne l j h i) in
      subst (λ n. Same (moved.nodes j) n) e (moved_Same j)

  new-IsLru : IsLru c₁ (x ++ q ∷ y)
  unfolding new_node
  new-IsLru = record {
    first = lru.first;
    last = lru.last;
    links =
        Seg-frame c.nodes c₁.nodes 0 0 (x ++ q ∷ y)
          (λ j i.
            let e = new_others p disk (c.nodes q).cache_addr j c (node_ne (x ++ q ∷ y) j fresh i) in
            (ap (λ n. n.left) e, ap (λ n. n.right) e))
          lru.links;
    distinct = lru.distinct;
    size = lru.size;
  }

  moved-IsLru : IsLru moved (p ∷ x ++ y)
  moved-IsLru =
      add_at_top-IsLru p (remove_object_from_cache_dont_write_back q c₁) (x ++ y)
        (unlink-IsLru q c₁ x y new-IsLru) pz
        (ground (arith, has-append p x (q ∷ y), has-append p x y))

  moved-Chain : (v : ℕ) → Chain moved.nodes (moved.table v) (chains v)
  moved-Chain v = rw moved_table (
      Chain-frame c.nodes moved.nodes (c.table v) (chains v)
        (λ j i. (moved_at (chains v) j (unhashed v) i).next) (hashed.chain v))

  moved_disk : (moved.nodes p).disk_addr ≡ disk
  moved_disk = (moved_Same p).disk_addr ∙ new_at.1

  old_fresh : has p (a ++ q ∷ b) ≡ false
  old_fresh = rw at at (unhashed (cache_hash disk))

  -- The hypotheses of the removal, at the cache behind the moves.
  Chain-there : Chain moved.nodes (moved.table (cache_hash (moved.nodes p).disk_addr)) (a ++ q ∷ b)
  Chain-there =
      subst (λ d. Chain moved.nodes (moved.table (cache_hash d)) (a ++ q ∷ b)) (sym moved_disk)
        (subst (λ l. Chain moved.nodes (moved.table (cache_hash disk)) l) at
          (moved-Chain (cache_hash disk)))

  Distinct-there : Distinct (a ++ q ∷ b)
  Distinct-there = subst Distinct at (hashed.distinct (cache_hash disk))

  first_there : lacks moved.nodes (moved.nodes p).disk_addr a ≡ true
  first_there =
      subst (λ d. lacks moved.nodes d a ≡ true) (sym moved_disk)
        (lacks-frame a c.nodes moved.nodes disk
          (λ j i.
            (moved_at (a ++ q ∷ b) j old_fresh (ground (arith, has-append j a (q ∷ b)))).disk_addr)
          first)

  here_there : (moved.nodes q).disk_addr ≡ (moved.nodes p).disk_addr
  here_there =
      (moved_at (a ++ q ∷ b) q old_fresh (ground (arith, has-append q a (q ∷ b)))).disk_addr
      ∙ (holds ∙ sym moved_disk)

  abbrev c₃ : Cache
  c₃ = removed p q moved a

  node_there : c₃.nodes p ≡ moved.nodes p
  node_there =
      removed_node fuel p q moved b a p Chain-there Distinct-there enough first_there here_there
        (ground (arith, old_fresh, has-append p a (q ∷ b)))

  hit : check_disk_block_in_cache fuel disk c ≡ true
  hit =
      let chain =
        subst (λ l. Chain c.nodes (c.table (cache_hash disk)) l) at
          (hashed.chain (cache_hash disk)) in
      (check_lem fuel disk c (a ++ q ∷ b) chain enough).0 ∙ ap not (holds_block a)
    where
      holds_block : (a : List ℕ) → lacks c.nodes disk (a ++ q ∷ b) ≡ false
      holds_block [] = ground arith
      holds_block (j ∷ a) = let rest = holds_block a in ground arith

  node_found : get_cache_obj fuel disk c ≡ q
  node_found =
      let chain =
        subst (λ l. Chain c.nodes (c.table (cache_hash disk)) l) at
          (hashed.chain (cache_hash disk)) in
      (check_lem fuel disk c (a ++ q ∷ b) chain enough).1
      ∙ ap (λ r. r.0) (find_found c.nodes disk 0 q a b first holds)

  retrieve_run :
      retrieve_block_from_cache freed fuel p disk c
      ≡ some (p, insert_block_in_cache_hash_table fuel (c₃.nodes p).disk_addr p c₃)
  unfolding retrieve_block_from_cache
  retrieve_run =
      let done =
        remove_lem fuel p q moved a b Chain-there Distinct-there enough first_there here_there in
      let kept_cell =
        free_node-keeps freed q (remove_object_from_cache_dont_write_back q c₁) keeps in
      rw (hit, node_found, kept_cell, done) refl

  kept_sub : (a b : List ℕ) (j : ℕ) → has j (kept a b) ≡ true → has j (a ++ q ∷ b) ≡ true
  kept_sub [] b j h = absurd (cc)
  kept_sub (x ∷ a) b j h = ground (arith, has-append j a b, has-append j a (q ∷ b))

  kept-Distinct : (a b : List ℕ) → Distinct (a ++ q ∷ b) → Distinct (kept a b)
  kept-Distinct [] b d = tt
  kept-Distinct (x ∷ a) b d = (Distinct-split (x ∷ a) b q d).0

  kept-length : (a b : List ℕ) → length (a ++ q ∷ b) ≤ fuel → length (kept a b) ≤ fuel
  kept-length [] b h = omega arith
  kept-length (x ∷ a) b h = omega (arith, length-append a b, length-append a (q ∷ b))

  absent_of :
      (l : List ℕ) (j : ℕ)
      → ((k : ℕ) → has k l ≡ true → has k (a ++ q ∷ b) ≡ true)
      → has j (a ++ q ∷ b) ≡ false
      → has j l ≡ false
  absent_of l j sub h = elim (Bool-cases (has j l)) [ inl i ↦ absurd (cc (sub j i)) | inr o ↦ o ]

  c₃_here : Chain c₃.nodes (c₃.table (cache_hash disk)) (kept a b)
  c₃_here =
      subst (λ d. Chain c₃.nodes (c₃.table (cache_hash d)) (kept a b)) moved_disk
        (removed_at fuel p q moved b a Chain-there Distinct-there enough first_there here_there)

  -- The chains of other indices have no node of this one.
  elsewhere : (v j : ℕ) → v ≢ cache_hash disk → has j (a ++ q ∷ b) ≡ true → has j (chains v) ≡ false
  elsewhere v j ne h = hashed.apart (cache_hash disk) v j (λ e. ne (sym e)) (rw at h)

  c₃_others : (v : ℕ) → v ≢ cache_hash disk → Chain c₃.nodes (c₃.table v) (chains v)
  c₃_others v ne =
      removed_others fuel p q moved b a Chain-there Distinct-there enough first_there here_there v
        (chains v) (λ e. ne (e ∙ ap cache_hash moved_disk)) (moved-Chain v)
        (λ j i. elsewhere v j ne (ground (arith, has-append j a (q ∷ b))))

  -- Where free keeps what a cell holds, the list of the cache and its chains are well formed, node q is the first in its chain
  -- that holds a block, and the fuel is at least the length of the chain, retrieve_block_from_cache
  -- returns the node that calloc returned, where that pointer is not in use. The list is then that
  -- node, followed by the other nodes in their order; the node has the block and the page of q and
  -- is not dirty; the other chains are as they were, and the chain of the block has the nodes that
  -- were in it without q, or none of them where q was its head, and then the new node. The other
  -- nodes keep block, page and dirty.
  pub retrieve-Retrieved :
      (c' : Cache) × (retrieve_block_from_cache freed fuel p disk c ≡ some (p, c'))
      × Retrieved p q disk (x ++ y) chains (kept a b) c c'
  retrieve-Retrieved =
      let d : (c₃.nodes p).disk_addr ≡ disk = ap (λ n. n.disk_addr) node_there ∙ moved_disk in
      let fields = insert_keeps fuel disk p p c₃ in
      let m = moved_Same p in
      let end : (c₃.nodes p).next ≡ 0 = ap (λ n. n.next) node_there ∙ (m.next ∙ new_at.0) in
      let dist = kept-Distinct a b Distinct-there in
      let len = kept-length a b enough in
      (
        insert_block_in_cache_hash_table fuel disk p c₃,
        retrieve_run ∙ ap (λ z. some (p, insert_block_in_cache_hash_table fuel z p c₃)) d,
        record {
          lru = insert-IsLru fuel disk p c₃ (p ∷ x ++ y) (
              removed-IsLru fuel p q moved b a (p ∷ x ++ y) Chain-there Distinct-there enough
                first_there here_there moved-IsLru);
          clean = fields.dirty ∙ (ap (λ n. n.dirty) node_there ∙ (m.dirty ∙ new_at.2));
          cache_addr =
              fields.cache_addr ∙ (ap (λ n. n.cache_addr) node_there ∙ (m.cache_addr ∙ new_at.3));
          disk_addr = fields.disk_addr ∙ d;
          hashed =
              with-IsHashed c (insert_block_in_cache_hash_table fuel disk p c₃) chains
                (cache_hash disk) p (kept a b) hashed pz unhashed (λ j i. rw at (kept_sub a b j i))
                dist
                (λ v ne.
                  insert_there fuel disk p c₃ (kept a b) (chains v) v c₃_here dist len ne
                    (c₃_others v ne) (λ j i. elsewhere v j ne (kept_sub a b j i)))
                (insert_here fuel disk p c₃ (kept a b) c₃_here dist len pz
                  (absent_of (kept a b) p (kept_sub a b) old_fresh) end);
          spared = λ j ne.
              let k = insert_keeps fuel disk p j c₃ in
              let r = removed_keeps p q moved a j in
              let m = moved_Same j in
              let o = new_others p disk (c.nodes q).cache_addr j c ne in
              record {
                disk_addr = k.disk_addr ∙ (r.disk_addr ∙ (m.disk_addr ∙ ap (λ n. n.disk_addr) o));
                cache_addr =
                    k.cache_addr ∙ (r.cache_addr ∙ (m.cache_addr ∙ ap (λ n. n.cache_addr) o));
                dirty = k.dirty ∙ (r.dirty ∙ (m.dirty ∙ ap (λ n. n.dirty) o));
              };
        },
      )
