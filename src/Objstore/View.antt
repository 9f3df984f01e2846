-- ===== src/Objstore/View.antt =====
-- The blocks of Assn4/objstore.c as one array of bytes, which the cache stands before: what the cache
-- must be for that. Blocks have numbers below CACHE_HTSIZE here, so that each has a chain of its own.
pub mod Enter
pub mod Hit
pub mod Miss
pub mod Access
use gem_os_cs330a.Prelude.{
  ℕ, ◌+◌, ◌-◌, ◌/◌, ◌^◌, ◌<◌, ◌≤◌, ◌≡◌, ◌≢◌, refl, Bool, true, false, ◌==◌, if◌then◌else◌, List, [],
  ◌∷◌, length, some, arith,
}
use gem_os_cs330a.Objstore.Bitmap.Ids.{is_used}
use gem_os_cs330a.Objstore.Cache.{CacheObj, Cache}
use gem_os_cs330a.Objstore.Cache.Lru.{has, Distinct, IsLru}
use gem_os_cs330a.Objstore.Cache.Hashed.{IsHashed}
use gem_os_cs330a.Objstore.Blocks.{Block, Device, Store}
use gem_os_cs330a.Objstore.World.{Supply, World}

-- A chain of at most one node.
abbrev pub single : ℕ → List ℕ
single q = if q == 0 then [] else q ∷ []

-- What the allocation is assumed to do: `calloc` returns neither NULL nor a node that the cache has, and
-- memory is never short.
pub record AllocLaws (S : Supply) : Type 0 where
  pub some_fuel : 1 ≤ S.fuel
  pub some_pointer : (n : ℕ) (c : Cache) → S.calloc n c ≢ 0
  pub fresh :
      (n : ℕ) (c : Cache) (order : List ℕ)
      → IsLru c order
      → length order < 2 ^ 32
      → has (S.calloc n c) order ≡ false
  pub enough : (n : ℕ) → S.got n ≡ true

-- Besides, a cell that was freed still holds what it held, which the code relies on and C does not
-- promise.
pub record SupplyLaws (D : Device) (S : Supply) : Type 0 where
  pub alloc : AllocLaws S
  pub keeps : (n : CacheObj) → D.freed n ≡ some n

-- The blocks hold `view`, and the cache has room for `room` calls. `slot v` is the node of block `v`, 0
-- where it is not in the cache; `spare` are cache blocks that are not in use.
pub record IsView (D : Device) (S : Supply) (room : ℕ) (view : ℕ → Block) (w : World D)
    : Type 0 where
  pub order : List ℕ
  pub slot : ℕ → ℕ
  pub spare : List ℕ
  pub lru : IsLru w.store.cache order
  pub hashed : IsHashed w.store.cache (λ v. single (slot v))
  pub listed : (v : ℕ) → slot v ≢ 0 → has (slot v) order ≡ true
  pub block : (v : ℕ) → slot v ≢ 0 → (w.store.cache.nodes (slot v)).disk_addr ≡ v
  pub in_use :
      (v : ℕ)
      → slot v ≢ 0
      → is_used w.store.cache_map (w.store.cache.nodes (slot v)).cache_addr ≡ true
  pub apart :
      (u v : ℕ)
      → u ≢ v
      → slot u ≢ 0
      → slot v ≢ 0
      → (w.store.cache.nodes (slot u)).cache_addr ≢ (w.store.cache.nodes (slot v)).cache_addr
  pub cached :
      (v : ℕ) → slot v ≢ 0 → w.store.pages (w.store.cache.nodes (slot v)).cache_addr ≡ view v
  pub uncached : (v : ℕ) → slot v ≡ 0 → v < 2 ^ 15 → (D.read_block v w.store.disk).1 ≡ view v
  pub itr : w.store.cache_map.itr < 2 ^ 12
  pub free :
      (id : ℕ)
      → has id spare ≡ true
      → (2 ≤ id) × (id < 2 ^ 15) × (is_used w.store.cache_map id ≡ false)
  pub different : Distinct spare
  pub enough : room ≤ length spare
  pub small : length order + room ≤ 2 ^ 15 - 1

-- The pointer of the next call is none of the cache.
pub fresh_now :
    (D : Device) (S : Supply) (laws : AllocLaws S) (room : ℕ) (view : ℕ → Block) (w : World D)
    (h : IsView D S room view w)
    → has (S.calloc w.calls w.store.cache) h.order ≡ false
fresh_now D S laws room view w h =
    let small = h.small in laws.fresh w.calls w.store.cache h.order h.lru (omega (arith, small))
