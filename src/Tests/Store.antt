-- ===== src/Tests/Store.antt =====
-- The results on the hash table of the object store, at two keys and at one chain, and on the
-- bitmaps, at one whose first byte is full.
use gem_os_cs330a.Prelude.{ℕ, ◌<◌, ◌≤◌, ◌≡◌, ◌^◌, refl, ltb, if◌then◌else◌, [], ◌∷◌, ◌==◌, arith}
use gem_os_cs330a.Objstore.{hash}
use gem_os_cs330a.Objstore.Bitmap.{
  Bitmap, get_block_for_cache, fetch_free_id, fetch_free_block, free_cache_id, free_inode_id,
  free_block,
}
use gem_os_cs330a.Objstore.Bitmap.Ids.{IsAllocator, bitmaps-IsAllocator}
use gem_os_cs330a.Objstore.Chains.{hash_bounds, insert_all, insert_all-last}

-- Thirty letters and thirty-one.
abbrev thirty : ℕ → ℕ
thirty i = if ltb i 30 then 97 else 0

abbrev thirty_one : ℕ → ℕ
thirty_one i = if ltb i 31 then 97 else 0

hash_bounds_example : (1 ≤ hash thirty) × (hash thirty < 2 ^ 15) × (hash thirty ≡ hash thirty_one)
hash_bounds_example = hash_bounds thirty thirty_one (λ i h. ground arith)

-- Ids 2, 3 and 4, in this order.
insert_all-last_example : insert_all 7 (4 ∷ 3 ∷ 2 ∷ []) (λ i. []) 7 ≡ 4 ∷ []
insert_all-last_example = insert_all-last 7 4 (3 ∷ 2 ∷ []) (λ i. []) refl

abbrev bits : Bitmap
bits = record { map = λ i. if i == 0 then 255 else 0; itr = 0 }

bitmaps-IsAllocator_example :
    IsAllocator (2 ^ 15) get_block_for_cache free_cache_id bits
    × IsAllocator (2 ^ 20) fetch_free_id free_inode_id bits
    × IsAllocator (2 ^ 23) fetch_free_block free_block bits
bitmaps-IsAllocator_example =
    bitmaps-IsAllocator bits bits bits (omega arith) (omega arith) (omega arith)
