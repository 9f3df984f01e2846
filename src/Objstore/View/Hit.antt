-- ===== src/Objstore/View/Hit.antt =====
-- On blocks as an array: a block that is in the cache of Assn4/objstore.c.
use gem_os_cs330a.Prelude.{
  ℕ, suc, ◌^◌, ◌<◌, ◌≡◌, ◌≢◌, refl, sym, ap, subst, ◌∙◌, true, false, ◌==◌, arith, List, [], ◌∷◌,
  ◌++◌, length, length-append, some, Bool-cases, inl, inr,
}
use mathlib.Core.Path.{fun_ext}
use gem_os_cs330a.Process.{update}
use gem_os_cs330a.Objstore.Bitmap.Ids.{is_used}
use gem_os_cs330a.Objstore.Cache.{Cache, cache_hash, retrieve_block_from_cache}
use gem_os_cs330a.Objstore.Cache.Lru.{has, has-append, IsLru}
use gem_os_cs330a.Objstore.Cache.Hashed.{IsHashed, chains_with}
use gem_os_cs330a.Objstore.Cache.Retrieve.{Retrieved, retrieve-Retrieved}
use gem_os_cs330a.Objstore.Blocks.{Block, Device}
use gem_os_cs330a.Objstore.World.{Supply, World}
use gem_os_cs330a.Objstore.View.{single, AllocLaws, SupplyLaws, IsView, fresh_now}
use gem_os_cs330a.Objstore.View.Enter.{Entered}

-- Below CACHE_HTSIZE, the number of a block is its index.
pub cache_hash_low : (v : ℕ) → v < 2 ^ 15 → cache_hash v ≡ v
unfolding cache_hash
cache_hash_low v h = omega arith

pub chains_with-single :
    (slot : ℕ → ℕ) (v p : ℕ)
    → p ≢ 0
    → chains_with (λ u. single (slot u)) v (p ∷ []) ≡ (λ u. single (update slot v p u))
chains_with-single slot v p pz = fun_ext λ u.
    let held : (p == 0) ≡ false = ground arith in
    elim (Bool-cases (u == v)) [ inl e ↦ rw (e, held) refl | inr off ↦ rw off refl ]

-- A list around one of its nodes.
pub has_split :
    (q : ℕ) (l : List ℕ) → has q l ≡ true → (x : List ℕ) × (y : List ℕ) × (l ≡ x ++ q ∷ y)
has_split q [] h = absurd (cc)
has_split q (z ∷ l) h = elim (Bool-cases (q == z)) [
  | inl e ↦ let k : q ≡ z = ground arith in ([], l, ap (λ n. n ∷ l) (sym k))
  | inr off ↦ let (x, y, e) = has_split q l (ground arith) in (z ∷ x, y, ap (λ m. z ∷ m) e)
]

has-around : (j q : ℕ) (x y : List ℕ) → has j (x ++ y) ≡ true → has j (x ++ q ∷ y) ≡ true
has-around j q x y h = ground (arith, has-append j x y, has-append j x (q ∷ y))

has-between : (j q : ℕ) (x y : List ℕ) → j ≢ q → has j (x ++ q ∷ y) ≡ true → has j (x ++ y) ≡ true
has-between j q x y ne h = ground (arith, has-append j x y, has-append j x (q ∷ y))

behind_head : (j p : ℕ) (l : List ℕ) → j ≢ p → has j (p ∷ l) ≡ true → has j l ≡ true
behind_head j p l ne h = ground arith

in_tail : (j p : ℕ) (l : List ℕ) → has j l ≡ true → has j (p ∷ l) ≡ true
in_tail j p l h = ground arith

lone_lacks : (p q : ℕ) (l : List ℕ) → has q l ≡ true → has p l ≡ false → has p (q ∷ []) ≡ false
lone_lacks p q l i f = elim (Bool-cases (p == q)) [
  | inl e ↦ let k : p ≡ q = ground arith in absurd (cc)
  | inr off ↦ ground arith
]

-- The pointer of the next call is in no chain.
module _ (D : Device) (S : Supply) (laws : AllocLaws S) (room : ℕ) (view : ℕ → Block) (w : World D)
    (old : IsView D S room view w) where
  pub unhashed : (u : ℕ) → has (S.calloc w.calls w.store.cache) (single (old.slot u)) ≡ false
  unhashed u = elim (Bool-cases (old.slot u == 0)) [
    | inl e ↦ rw e refl
    | inr held ↦
        let i = old.listed u (λ e. ground arith) in
        let f = fresh_now D S laws room view w old in
        rw held (lone_lacks (S.calloc w.calls w.store.cache) (old.slot u) old.order i f)
  ]

module _ (D : Device) (S : Supply) (laws : SupplyLaws D S) (room v : ℕ) (view : ℕ → Block)
    (w : World D) (old : IsView D S (suc room) view w) (low : v < 2 ^ 15)
    (hit : old.slot v ≢ 0) where
  abbrev p : ℕ
  p = S.calloc w.calls w.store.cache

  abbrev q : ℕ
  q = old.slot v

  abbrev chains : ℕ → List ℕ
  chains u = single (old.slot u)

  pz : p ≢ 0
  pz = laws.alloc.some_pointer w.calls w.store.cache

  -- Where the node stands in the list.
  abbrev before : List ℕ
  before = (has_split q old.order (old.listed v hit)).0

  abbrev behind : List ℕ
  behind = (has_split q old.order (old.listed v hit)).1

  order_split : old.order ≡ before ++ q ∷ behind
  order_split = (has_split q old.order (old.listed v hit)).2

  pub found :
      (c : Cache) × (retrieve_block_from_cache D.freed S.fuel p v w.store.cache ≡ some (p, c))
      × Retrieved p q v (before ++ behind) chains [] w.store.cache c
  found =
      let held : (q == 0) ≡ false = ground arith in
      let at : chains (cache_hash v) ≡ q ∷ [] = ap chains (cache_hash_low v low) ∙ (rw held refl) in
      retrieve-Retrieved D.freed laws.keeps S.fuel p q v w.store.cache before behind [] [] chains
        (subst (IsLru w.store.cache) order_split old.lru) old.hashed at laws.alloc.some_fuel refl
        (old.block v hit) pz
        (ap (has p) (sym order_split) ∙ fresh_now D S laws.alloc (suc room) view w old)
        (unhashed D S laws.alloc (suc room) view w old)

  -- The node of another block is another one.
  slot_ne : (u : ℕ) → u ≢ v → old.slot u ≢ 0 → old.slot u ≢ q
  slot_ne u ne held e = old.apart u v ne held hit (ap (λ n. (w.store.cache.nodes n).cache_addr) e)

  module _ (c : Cache) (r : Retrieved p q v (before ++ behind) chains [] w.store.cache c)
      (pages : ℕ → Block) (buf : Block) (bytes : pages (w.store.cache.nodes q).cache_addr ≡ buf)
      (rest : (a : ℕ) → a ≢ (w.store.cache.nodes q).cache_addr → pages a ≡ w.store.pages a) where
    pub hit-Entered :
        Entered D p v buf old.order old.slot w.store (record w.store { cache = c; pages = pages })
    hit-Entered =
        let split = order_split in
        record {
          order' = p ∷ before ++ behind;
          lru = r.lru;
          longer =
              let e = ap length split in
              omega (arith, e, length-append before behind, length-append before (q ∷ behind));
          newest = ground arith;
          from = λ j i ne.
              ap (has j) split
              ∙ has-around j q before behind (behind_head j p (before ++ behind) ne i);
          kept = λ u ne held.
              let i = sym (ap (has (old.slot u)) split) ∙ old.listed u held in
              in_tail (old.slot u) p (before ++ behind)
                (has-between (old.slot u) q before behind (slot_ne u ne held) i);
          hashed = subst (IsHashed c) (chains_with-single old.slot v p pz) (
              subst (λ n. IsHashed c (chains_with chains n (p ∷ []))) (cache_hash_low v low)
                r.hashed);
          block = r.disk_addr;
          bytes = ap pages r.cache_addr ∙ bytes;
          spared = r.spared;
          still = λ id h. h;
          in_use = ap (is_used w.store.cache_map) r.cache_addr ∙ old.in_use v hit;
          apart = λ u ne held e. old.apart v u (λ n. ne (sym n)) hit held (sym r.cache_addr ∙ e);
          pages = λ u ne held.
              rest (w.store.cache.nodes (old.slot u)).cache_addr (old.apart u v ne held hit);
          disk = refl;
          itr = old.itr;
          taken = 0;
          free = λ id ne h. h;
        }
