-- ===== src/Objstore/Cache/Chain.antt =====
-- On the chains of `cacheHashTable` in Assn4/objstore.c: a chain as the list of its nodes, and what
-- the functions find there and do to it. The walks end where the fuel is as long as the chain.
use gem_os_cs330a.Prelude.{
  ℕ, zero, suc, ◌≤◌, ◌≡◌, ◌≢◌, refl, sym, ap, subst, ◌∙◌, Bool, true, false, not, ◌&&◌, ◌==◌, arith,
  if◌then◌else◌, List, [], ◌∷◌, ◌++◌, length,
}
use gem_os_cs330a.Objstore.Cache.{
  Nodes, Cache, set_next, cache_hash, find_in_chain, end_of_chain, get_cache_obj,
  check_disk_block_in_cache,
}
use gem_os_cs330a.Objstore.Cache.Lru.{has, head_or, last_or, Distinct}

-- From `p` the `next` pointers lead through `l` to NULL.
abbrev pub Chain : Nodes → ℕ → List ℕ → Type 0
Chain nodes p [] = p ≡ 0
Chain nodes p (q ∷ l) = (p ≡ q) × (q ≢ 0) × Chain nodes (nodes q).next l

-- The first node of a list that holds the block, and the node before it: NULL and the last one where
-- there is none.
abbrev pub find : Nodes → (disk par : ℕ) → List ℕ → ℕ × ℕ
find nodes disk par [] = (0, par)
find nodes disk par (q ∷ l) = if (nodes q).disk_addr == disk then (q, par) else find nodes disk q l

pub find_in_chain_lem :
    (nodes : Nodes) (disk p par fuel : ℕ) (l : List ℕ)
    → Chain nodes p l
    → length l ≤ fuel
    → find_in_chain fuel nodes disk p par ≡ find nodes disk par l
unfolding find_in_chain
find_in_chain_lem nodes disk p par zero [] c h = ground arith
find_in_chain_lem nodes disk p par zero (q ∷ l) c h = absurd (omega arith)
find_in_chain_lem nodes disk p par (suc fuel) [] c h = ground arith
find_in_chain_lem nodes disk p par (suc fuel) (q ∷ l) (e, qz, c) h =
    let rest = find_in_chain_lem nodes disk (nodes q).next q fuel l c (omega arith) in
    rw e (ground (arith, rest))

pub end_of_chain_lem :
    (nodes : Nodes) (p par fuel : ℕ) (l : List ℕ)
    → Chain nodes p l
    → length l ≤ fuel
    → end_of_chain fuel nodes p par ≡ last_or par l
unfolding end_of_chain
end_of_chain_lem nodes p par zero [] c h = ground arith
end_of_chain_lem nodes p par zero (q ∷ l) c h = absurd (omega arith)
end_of_chain_lem nodes p par (suc fuel) [] c h = ground arith
end_of_chain_lem nodes p par (suc fuel) (q ∷ l) (e, qz, c) h =
    let rest = end_of_chain_lem nodes (nodes q).next q fuel l c (omega arith) in
    rw e (ground (arith, rest))

pub Chain-frame :
    (nodes nodes' : Nodes) (p : ℕ) (l : List ℕ)
    → ((a : ℕ) → has a l ≡ true → (nodes' a).next ≡ (nodes a).next)
    → Chain nodes p l
    → Chain nodes' p l
Chain-frame nodes nodes' p [] same c = c
Chain-frame nodes nodes' p (q ∷ l) same (e, qz, c) =
    let k = same q (ground arith) in
    (
      e,
      qz,
      subst (λ x. Chain nodes' x l) (sym k)
          (Chain-frame nodes nodes' (nodes q).next l (λ a h. same a (ground arith)) c),
    )

-- A node with no successor is hung behind the last one.
pub Chain-append :
    (nodes : Nodes) (q p : ℕ) (l : List ℕ)
    → Distinct (q ∷ l)
    → p ≢ 0
    → has p (q ∷ l) ≡ false
    → (nodes p).next ≡ 0
    → Chain nodes q (q ∷ l)
    → Chain (set_next nodes (last_or q l) p) q ((q ∷ l) ++ p ∷ [])
unfolding set_next
Chain-append nodes q p [] (z, h, d) pz fresh end (e, qz, c) =
    (refl, qz, (ground arith, pz, ground (arith, end)))
Chain-append nodes q p (r ∷ l) (z, h, d) pz fresh end (e, qz, (er, rz, c)) =
    let nodes' : Nodes = set_next nodes (last_or r l) p in
    let rest = Chain-append nodes r p l d pz (ground arith) end (refl, rz, c) in
    let ne : (q == last_or r l) ≡ false = last_ne q r l h in
    let same : (nodes' q).next ≡ r = ground (arith, er) in
    (refl, qz, subst (λ x. Chain nodes' x ((r ∷ l) ++ p ∷ [])) (sym same) rest)
  where
    last_ne : (q r : ℕ) (l : List ℕ) → has q (r ∷ l) ≡ false → (q == last_or r l) ≡ false
    last_ne q r [] h = ground arith
    last_ne q r (x ∷ l) h = last_ne q x l (ground arith)

-- A node behind another one is taken out.
pub Chain-remove :
    (nodes : Nodes) (x q : ℕ) (a b : List ℕ)
    → Distinct (x ∷ a ++ q ∷ b)
    → Chain nodes x (x ∷ a ++ q ∷ b)
    → Chain (set_next nodes (last_or x a) (nodes q).next) x (x ∷ a ++ b)
unfolding set_next
Chain-remove nodes x q [] b (z, h, d) (e, xz, (eq, qz, c)) =
    let nodes' = set_next nodes x (nodes q).next in
    let same : (nodes' x).next ≡ (nodes q).next = ground arith in
    (
      refl,
      xz,
      subst (λ y. Chain nodes' y b) (sym same)
          (Chain-frame nodes nodes' (nodes q).next b (λ a i. ground arith) c),
    )
Chain-remove nodes x q (y ∷ a) b (z, h, d) (e, xz, (ey, yz, c)) =
    let nodes' = set_next nodes (last_or y a) (nodes q).next in
    let rest = Chain-remove nodes y q a b d (refl, yz, c) in
    let ne = last_apart x y a (q ∷ b) h in
    let same : (nodes' x).next ≡ y = ground (arith, ey) in
    (refl, xz, subst (λ w. Chain nodes' w (y ∷ a ++ b)) (sym same) rest)
  where
    last_apart : (x y : ℕ) (a b : List ℕ) → has x (y ∷ a ++ b) ≡ false → (x == last_or y a) ≡ false
    last_apart x y [] b h = ground arith
    last_apart x y (w ∷ a) b h = last_apart x w a b (ground arith)

-- No node of a list holds the block.
abbrev pub lacks : Nodes → ℕ → List ℕ → Bool
lacks nodes disk [] = true
lacks nodes disk (q ∷ l) = not ((nodes q).disk_addr == disk) && lacks nodes disk l

pub lacks-frame :
    (l : List ℕ) (m n : Nodes) (d : ℕ)
    → ((j : ℕ) → has j l ≡ true → (n j).disk_addr ≡ (m j).disk_addr)
    → lacks m d l ≡ true
    → lacks n d l ≡ true
lacks-frame [] m n d same h = refl
lacks-frame (j ∷ l) m n d same h =
    let e = same j (ground arith) in
    let rest = lacks-frame l m n d (λ k i. same k (ground arith)) (ground arith) in ground arith

pub find_found :
    (nodes : Nodes) (disk par q : ℕ) (a b : List ℕ)
    → lacks nodes disk a ≡ true
    → (nodes q).disk_addr ≡ disk
    → find nodes disk par (a ++ q ∷ b) ≡ (q, last_or par a)
find_found nodes disk par q [] b h e = ground arith
find_found nodes disk par q (x ∷ a) b h e =
    let rest = find_found nodes disk x q a b (ground arith) e in ground arith

pub find_missing :
    (nodes : Nodes) (disk par : ℕ) (l : List ℕ)
    → lacks nodes disk l ≡ true
    → find nodes disk par l ≡ (0, last_or par l)
find_missing nodes disk par [] h = refl
find_missing nodes disk par (x ∷ l) h =
    let rest = find_missing nodes disk x l (ground arith) in ground arith

pub Chain-head : (nodes : Nodes) (p : ℕ) (l : List ℕ) → Chain nodes p l → p ≡ head_or 0 l
Chain-head nodes p [] c = c
Chain-head nodes p (q ∷ l) (e, _, _) = e

-- Whether the cache has a block, and where, read off the chain of its hash.
find_some :
    (nodes : Nodes) (disk par p : ℕ) (l : List ℕ)
    → Chain nodes p l
    → ((find nodes disk par l).0 == 0) ≡ lacks nodes disk l
find_some nodes disk par p [] c = refl
find_some nodes disk par p (q ∷ l) (e, qz, c) =
    let rest = find_some nodes disk q (nodes q).next l c in ground arith

module _ (fuel disk : ℕ) (c : Cache) (l : List ℕ)
    (chain : Chain c.nodes (c.table (cache_hash disk)) l) (enough : length l ≤ fuel) where
  pub check_lem :
      (check_disk_block_in_cache fuel disk c ≡ not (lacks c.nodes disk l))
      × (get_cache_obj fuel disk c ≡ (find c.nodes disk 0 l).0)
  unfolding check_disk_block_in_cache get_cache_obj
  check_lem =
      let itr = c.table (cache_hash disk) in
      let walk = find_in_chain_lem c.nodes disk itr itr fuel l chain enough in
      (
        rw walk (rw (find_some c.nodes disk itr itr l chain) refl),
        ap (λ x. x.0) walk ∙ first itr 0 l,
      )
    where
      first : (x y : ℕ) (l : List ℕ) → (find c.nodes disk x l).0 ≡ (find c.nodes disk y l).0
      first x y [] = refl
      first x y (q ∷ l) = ground arith
