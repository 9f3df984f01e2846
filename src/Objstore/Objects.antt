-- ===== src/Objstore/Objects.antt =====
-- Assn4/objstore.c: objects on the disk, 64 in a block, behind the blocks of the bitmaps and of the
-- hash table. `struct object` is laid out in 64 bytes, the lowest byte of a word first.
pub mod Layout
pub mod Stored
use gem_os_cs330a.Prelude.{
  ℕ, ◌+◌, ◌-◌, ◌*◌, ◌/◌, ◌%◌, ◌^◌, Bool, Option, none, some, ◌==◌, ltb, if◌then◌else◌, ◌>>=◌,
}
use gem_os_cs330a.Objstore.Cache.{Cache}
use gem_os_cs330a.Objstore.Blocks.{Block, Device, Store, read_block_modified, write_block_modified}

-- `struct object`. `cache_index` is an `int`, as the number that its 32 bits are.
pub record Object : Type 0 where
  pub id : ℕ
  pub size : ℕ
  pub cache_index : ℕ
  pub blocknum : ℕ
  pub key : ℕ → ℕ
  pub level1 : ℕ → ℕ

-- `OBJECTS_PER_BLOCK`, and the blocks before the objects: `B_BLOCKS`, `I_BLOCKS` and `ID_BLOCKS`.
abbrev pub objects_per_block : ℕ
objects_per_block = 2 ^ 6

abbrev pub first_block : ℕ
first_block = 2 ^ 8 + 2 ^ 5 + 2 ^ 10

-- The word at byte `i`, and byte `k` of a word.
unfoldable pub word : Block → (i : ℕ) → ℕ
word b i = b i + 2 ^ 8 * b (i + 1) + 2 ^ 16 * b (i + 2) + 2 ^ 24 * b (i + 3)

unfoldable pub word_byte : (w k : ℕ) → ℕ
word_byte w k = w / 2 ^ (8 * k) % 2 ^ 8

unfoldable pub object_byte : Object → (k : ℕ) → ℕ
object_byte o k =
    if ltb k 4
    then word_byte o.id k
    else if ltb k 8
    then word_byte o.size (k - 4)
    else if ltb k 12
    then word_byte o.cache_index (k - 8)
    else if ltb k 16
    then word_byte o.blocknum (k - 12)
    else if ltb k 48
    then o.key (k - 16)
    else word_byte (o.level1 ((k - 48) / 4)) ((k - 48) % 4)

-- `buf[i]` and `buf[i] = o` of an array of objects.
unfoldable pub object_at : Block → (i : ℕ) → Object
object_at b i = record {
  id = word b (i * 64);
  size = word b (i * 64 + 4);
  cache_index = word b (i * 64 + 8);
  blocknum = word b (i * 64 + 12);
  key = λ k. b (i * 64 + 16 + k);
  level1 = λ k. word b (i * 64 + 48 + 4 * k);
}

unfoldable pub put_object : Block → (i : ℕ) → Object → Block
put_object b i o k = if k / 64 == i then object_byte o (k % 64) else b k

module _ (D : Device) where
  -- The numbers of the block are a `u64` cut to a `u32` here, and a `u32` in `insert_to_disk`. No
  -- result of a read is negative.
  unfoldable pub get_object_by_id :
      (fuel p : ℕ) (got evicts : Bool) (objid : ℕ) (buf : Block)
      → Store D
      → Option (Option Object × Store D)
  get_object_by_id fuel p got evicts objid buf s = do
    let offset = (objid + 2 ^ 64 - 2) % 2 ^ 64
    let block_no = (offset / objects_per_block + first_block) % 2 ^ 32
    let block_off = offset % objects_per_block * 64
    (_, buf', s') ← read_block_modified D fuel p got evicts block_no buf s
    let node = object_at buf' (block_off / 64)
    some (if node.id == objid then some node else none, s')

  -- `p` and `p'` are the pointers for the read and, by the cache behind the read, for the write.
  unfoldable pub insert_to_disk :
      (fuel p : ℕ) (p' : Cache → ℕ) (got evicts evicts' : Bool)
      → Object
      → Block
      → Store D
      → Option (Store D)
  insert_to_disk fuel p p' got evicts evicts' obj buf s = do
    let offset = (obj.id + 2 ^ 32 - 2) % 2 ^ 32
    let block_no = (first_block + offset / objects_per_block) % 2 ^ 32
    (_, buf', s') ← read_block_modified D fuel p got evicts block_no buf s
    (_, s'') ←
        write_block_modified D fuel (p' s'.cache) evicts' block_no
          (put_object buf' (offset % objects_per_block) obj) s'
    some s''
