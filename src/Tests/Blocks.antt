-- ===== src/Tests/Blocks.antt =====
-- The results on disk blocks that are read and written through the cache, at a disk that is an array
-- and the cache of two blocks.
use gem_os_cs330a.Prelude.{
  Option, ℕ, ◌^◌, ◌<◌, ◌≡◌, refl, true, false, ◌||◌, ◌==◌, arith, if◌then◌else◌, [], ◌∷◌, length,
  Bool, none, some, Bool-cases, inl, inr,
}
use gem_os_cs330a.Process.{update}
use gem_os_cs330a.Objstore.Cache.{CacheObj}
use gem_os_cs330a.Objstore.Cache.Lru.{has}
use gem_os_cs330a.Objstore.Blocks.{
  Block, Device, DeviceLaws, Store, read_block_modified, write_block_modified, obj_sync,
}
use gem_os_cs330a.Objstore.Blocks.Coherent.{IsReady, IsFresh, write-obj_sync, write-read_undefined}
use gem_os_cs330a.Objstore.Blocks.Sync.{all_got}
use gem_os_cs330a.Tests.Cache.{two, pair, two-IsLru, two-IsHashed}

-- A disk that is an array, by what is read from a cell that was freed.
abbrev pub array_with : (CacheObj → Option CacheObj) → Device
array_with freed = record {
  Disk = ℕ → Block;
  read_block = λ b d. (2 ^ 12, d b);
  write_block = λ b v d. update d b v;
  freed = freed;
}

-- A cell that was freed holds what it held.
abbrev pub array : Device
array = array_with (λ n. some n)

-- A read of a cell that was freed is undefined.
abbrev pub strict : Device
strict = array_with (λ n. none)

array_laws : DeviceLaws array
array_laws = record { written = λ b v d. ground arith; others = λ a b v d ne. ground arith }

-- Byte `i` of block `b` is `b` on the disk, and 100 in the cache.
abbrev store : Store array
store = record {
  cache = two;
  cache_map = record { map = λ i. if i == 0 then 12 else 0; itr = 0 };
  pages = λ id i. 100;
  disk = λ b i. b;
}

abbrev pub bytes : Block
bytes i = i

pair_enough : (v : ℕ) → length (pair v) < 3
pair_enough v = elim (Bool-cases (v == 7)) [
  | inl e ↦ rw e (omega arith)
  | inr e ↦ rw e (omega arith)
]

pair_node : (v j : ℕ) → has j (pair v) ≡ true → ((j == 10) || (j == 20)) ≡ true
pair_node v j h = elim (Bool-cases (v == 7)) [
  | inl e ↦ let k : has j (10 ∷ 20 ∷ []) ≡ true = rw e at h in ground arith
  | inr e ↦ let k : false ≡ true = rw e at h in absurd (cc)
]

store-IsReady : IsReady array 3 9 (20 ∷ 10 ∷ []) pair store
store-IsReady = record {
  lru = two-IsLru;
  hashed = two-IsHashed;
  enough = pair_enough;
  absent = λ v j h at. let k = pair_node v j h in absurd (ground arith);
  room = omega arith;
}

thirty-IsFresh : IsFresh 30 (20 ∷ 10 ∷ []) pair
thirty-IsFresh = (λ e. omega (arith, e), refl, λ v. ground arith)

write-obj_sync_example :
    (s' : Store array) × (disk' : ℕ → Block) × (write_block_modified array 3 30 true 9 bytes store
      ≡ some (0, s'))
    × (obj_sync array 3 all_got s' ≡ some disk')
    × (disk' 9 ≡ bytes)
write-obj_sync_example =
    write-obj_sync array 3 30 9 bytes store (20 ∷ 10 ∷ []) pair store-IsReady thirty-IsFresh true
      array_laws

abbrev strict_store : Store strict
strict_store = record {
  cache = store.cache;
  cache_map = store.cache_map;
  pages = store.pages;
  disk = store.disk;
}

strict-IsReady : IsReady strict 3 9 (20 ∷ 10 ∷ []) pair strict_store
strict-IsReady = record {
  lru = two-IsLru;
  hashed = two-IsHashed;
  enough = pair_enough;
  absent = λ v j h at. let k = pair_node v j h in absurd (ground arith);
  room = omega arith;
}

write-read_undefined_example :
    (s' : Store strict) × (write_block_modified strict 3 30 true 9 bytes strict_store
      ≡ some (0, s'))
    × ((p' : ℕ) (got evicts' : Bool) (any : Block)
        → read_block_modified strict 3 p' got evicts' 9 any s' ≡ none)
    × ((p' : ℕ) (evicts' : Bool) (any : Block)
        → write_block_modified strict 3 p' evicts' 9 any s' ≡ none)
write-read_undefined_example =
    write-read_undefined strict 3 30 9 bytes strict_store (20 ∷ 10 ∷ []) pair strict-IsReady
      thirty-IsFresh true (λ n. refl)
