-- ===== src/Tests/Cache.antt =====
-- The results on the cache of the object store, at a cache of two blocks that are in one chain.
use gem_os_cs330a.Prelude.{
  ℕ, ◌+◌, ◌^◌, ◌≡◌, refl, true, ◌==◌, arith, if◌then◌else◌, List, [], ◌∷◌, Bool-cases, inl, inr,
}
use gem_os_cs330a.Objstore.Cache.{
  CacheObj, Cache, cache_hash, check_disk_block_in_cache, get_cache_obj,
  remove_object_from_cache_dont_write_back,
}
use gem_os_cs330a.Objstore.Cache.Lru.{IsLru}
use gem_os_cs330a.Objstore.Cache.Lru.Unlink.{unlink-IsLru}
use gem_os_cs330a.Objstore.Cache.Chain.{check_lem}
use gem_os_cs330a.Objstore.Cache.Hashed.{IsHashed}

-- Node 10 has block 7 and is dirty, node 20 has block 7 + 2 ^ 15 and was used last.
abbrev cells : ℕ → CacheObj
cells a =
    if a == 10
    then record { cache_addr = 2; disk_addr = 7; dirty = 1; left = 20; right = 0; next = 20 }
    else if a == 20
    then record {
      cache_addr = 3;
      disk_addr = 7 + 2 ^ 15;
      dirty = 0;
      left = 0;
      right = 10;
      next = 0;
    }
    else record { cache_addr = 0; disk_addr = 0; dirty = 0; left = 0; right = 0; next = 0 }

abbrev pub two : Cache
two = record {
  nodes = cells;
  table = λ v. if v == 7 then 10 else 0;
  cache_left = 20;
  cache_right = 10;
  cache_size = 2;
}

abbrev pub pair : ℕ → List ℕ
pair v = if v == 7 then 10 ∷ 20 ∷ [] else []

pub two-IsLru : IsLru two (20 ∷ 10 ∷ [])
two-IsLru = record {
  first = refl;
  last = refl;
  links = (refl, refl, (refl, refl, tt));
  distinct = (λ e. omega (arith, e), refl, (λ e. omega (arith, e), refl, tt));
  size = refl;
}

pub two-IsHashed : IsHashed two pair
two-IsHashed = record {
  chain = λ v. elim (Bool-cases (v == 7)) [
    | inl h ↦ rw h (refl, λ e. omega (arith, e), (refl, λ e. omega (arith, e), refl))
    | inr h ↦ rw h refl
  ];
  distinct = λ v. elim (Bool-cases (v == 7)) [
    | inl h ↦ rw h (λ e. omega (arith, e), refl, (λ e. omega (arith, e), refl, tt))
    | inr h ↦ rw h tt
  ];
  apart = λ v w q ne h. ground arith;
}

unlink-IsLru_example : IsLru (remove_object_from_cache_dont_write_back 10 two) (20 ∷ [])
unlink-IsLru_example = unlink-IsLru 10 two (20 ∷ []) [] two-IsLru

check_lem_example :
    (check_disk_block_in_cache 2 (7 + 2 ^ 15) two ≡ true) × (get_cache_obj 2 (7 + 2 ^ 15) two ≡ 20)
unfolding cache_hash
check_lem_example = check_lem 2 (7 + 2 ^ 15) two (10 ∷ 20 ∷ []) (two-IsHashed.chain 7) (omega arith)
