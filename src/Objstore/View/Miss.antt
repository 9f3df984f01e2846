-- ===== src/Objstore/View/Miss.antt =====
-- On blocks as an array: a block that is not in the cache of Assn4/objstore.c.
use gem_os_cs330a.Prelude.{
  ℕ, suc, ◌-◌, ◌^◌, ◌<◌, ◌≤◌, ◌≡◌, ◌≢◌, refl, sym, ap, subst, ◌∙◌, true, arith, List, [], ◌∷◌, ◌++◌,
  length,
}
use gem_os_cs330a.Process.{update}
use gem_os_cs330a.Objstore.Bitmap.{get_block_for_cache}
use gem_os_cs330a.Objstore.Bitmap.Ids.{is_used, Granted, fetch_free-Granted}
use gem_os_cs330a.Objstore.Cache.{cache_hash}
use gem_os_cs330a.Objstore.Cache.Lru.{has}
use gem_os_cs330a.Objstore.Cache.Hashed.{IsHashed, chains_with}
use gem_os_cs330a.Objstore.Cache.Insert.{placed, Placed, placed-Placed}
use gem_os_cs330a.Objstore.Blocks.{Block, Device}
use gem_os_cs330a.Objstore.Blocks.Run.{entered}
use gem_os_cs330a.Objstore.World.{Supply, World}
use gem_os_cs330a.Objstore.View.{single, AllocLaws, IsView, fresh_now}
use gem_os_cs330a.Objstore.View.Enter.{Entered}
use gem_os_cs330a.Objstore.View.Hit.{cache_hash_low, chains_with-single, unhashed}

module _ (D : Device) (S : Supply) (laws : AllocLaws S) (room v : ℕ) (view : ℕ → Block)
    (buf : Block) (w : World D) (old : IsView D S (suc room) view w) (low : v < 2 ^ 15)
    (miss : old.slot v ≡ 0) where
  abbrev p : ℕ
  p = S.calloc w.calls w.store.cache

  abbrev chains : ℕ → List ℕ
  chains u = single (old.slot u)

  pub chain_here : chains (cache_hash v) ≡ []
  chain_here = ap chains (cache_hash_low v low) ∙ (rw miss refl)

  pub room_left : w.store.cache.cache_size < 2 ^ 15 - 1
  room_left = let h = old.small in let e = old.lru.size in omega (arith, h, e)

  -- One of the cache blocks that are not in use.
  one_spare : (l : List ℕ) → suc room ≤ length l → (id : ℕ) × (has id l ≡ true)
  one_spare [] h = absurd (omega arith)
  one_spare (id ∷ l) h = (id, ground arith)

  granted : Granted (2 ^ 15) w.store.cache_map (get_block_for_cache w.store.cache_map)
  unfolding get_block_for_cache
  granted =
      let (id, i) = one_spare old.spare old.enough in
      let (lo, hi, unused) = old.free id i in
      fetch_free-Granted (2 ^ 12) id w.store.cache_map old.itr lo hi unused

  -- The page that is taken is no page of the cache.
  page_ne :
      (u : ℕ)
      → old.slot u ≢ 0
      → (w.store.cache.nodes (old.slot u)).cache_addr ≢ (get_block_for_cache w.store.cache_map).0
  page_ne u held e = let h = old.in_use u held in let g = granted.unused in absurd (cc)

  placed_lem :
      Placed p v
        (get_block_for_cache w.store.cache_map).0
        old.order
        chains
        w.store.cache
        (placed S.fuel p v (get_block_for_cache w.store.cache_map).0 w.store.cache)
  placed_lem =
      placed-Placed S.fuel p v (get_block_for_cache w.store.cache_map).0 w.store.cache old.order
        chains old.lru old.hashed (subst (λ l. length l ≤ S.fuel) (sym chain_here) (omega arith))
        (laws.some_pointer w.calls w.store.cache) (fresh_now D S laws (suc room) view w old)
        (unhashed D S laws (suc room) view w old)

  pub miss-Entered : Entered D p v buf old.order old.slot w.store (entered D S.fuel p v buf w.store)
  miss-Entered =
      let r = placed_lem in
      let g = granted in
      let id = (get_block_for_cache w.store.cache_map).0 in
      let map = (get_block_for_cache w.store.cache_map).1 in
      record {
        order' = p ∷ old.order;
        lru = r.lru;
        longer = omega arith;
        newest = ground arith;
        from = λ j i ne. ground arith;
        kept = λ u ne held. let i = old.listed u held in ground arith;
        hashed =
            subst (IsHashed (placed S.fuel p v id w.store.cache))
              (ap (λ l. chains_with chains (cache_hash v) (l ++ p ∷ [])) chain_here
                ∙ (ap (λ n. chains_with chains n (p ∷ [])) (cache_hash_low v low)
                    ∙ chains_with-single old.slot v p (laws.some_pointer w.calls w.store.cache)))
              r.hashed;
        block = r.disk_addr;
        bytes = ap (update w.store.pages id buf) r.cache_addr ∙ ground arith;
        spared = r.spared;
        still = λ k h. g.now k ∙ (ground arith);
        in_use = ap (is_used map) r.cache_addr ∙ (g.now id ∙ ground arith);
        apart = λ u ne held e. page_ne u held (sym e ∙ r.cache_addr);
        pages = λ u ne held. let off = page_ne u held in ground arith;
        disk = refl;
        itr = let e = g.itr in let h = g.high in omega (arith, e, h);
        taken = id;
        free = λ k ne h. g.now k ∙ ground arith;
      }
