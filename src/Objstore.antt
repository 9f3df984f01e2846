-- ===== src/Objstore.antt =====
-- Assn4/objstore.c: the hash table of the keys of objects. A chain of `struct hashobj` is the list
-- of its ids. A key is its characters as bytes; `char` is signed, as on the processors that the
-- assignment is for. The modules below have the bitmaps, the cache, the blocks and the objects.
pub mod Bitmap
pub mod Blocks
pub mod Cache
pub mod Chains
pub mod Files
pub mod Contents
pub mod Names
pub mod Objects
pub mod World
pub mod View
use gem_os_cs330a.Prelude.{
  ℕ, zero, suc, ◌+◌, ◌-◌, ◌*◌, ◌%◌, ◌^◌, List, [], ◌∷◌, ◌==◌, ltb, if◌then◌else◌,
}
use gem_os_cs330a.Process.{update}

-- `CACHE_HTSIZE` and `MAX_OBJECT`.
abbrev pub cache_htsize : ℕ
cache_htsize = 2 ^ 15

abbrev pub max_object : ℕ
max_object = 2 ^ 20

-- A `char` in a sum of 32-bit numbers.
unfoldable pub char_value : ℕ → ℕ
char_value c = if ltb c 128 then c else 2 ^ 32 - 256 + c

-- The loop of `hash`, by the rounds that are left.
unfoldable pub hash_loop : (key : ℕ → ℕ) (rounds i hashval : ℕ) → ℕ
hash_loop key zero i hashval = hashval
hash_loop key (suc rounds) i hashval =
    let next = (hashval * 39 % 2 ^ 32 + char_value (key i)) % 2 ^ 32 % (cache_htsize - 1) in
    let rest = hash_loop key rounds (i + 1) next in if key i == 0 then hashval else rest

unfoldable pub hash : (key : ℕ → ℕ) → ℕ
hash key = hash_loop key 29 0 0 % max_object + 1

-- The new chain: `par` is the last node, and the first branch is taken where it is the head, be
-- that NULL or the only node.
unfoldable pub add_id : (id : ℕ) → List ℕ → List ℕ
add_id id [] = id ∷ []
add_id id (x ∷ []) = id ∷ []
add_id id (x ∷ y ∷ chain) = x ∷ append id y chain
  where
    append : ℕ → ℕ → List ℕ → List ℕ
    append id y [] = y ∷ id ∷ []
    append id y (z ∷ chain) = y ∷ append id z chain

unfoldable pub insert_to_hash_table : (id index : ℕ) → (ℕ → List ℕ) → ℕ → List ℕ
insert_to_hash_table id index table = update table index (add_id id (table index))
