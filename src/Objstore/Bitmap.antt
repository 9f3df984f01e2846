-- ===== src/Objstore/Bitmap.antt =====
-- Assn4/objstore.c: the bitmaps that hand out ids of objects, disk blocks and cache blocks. The three
-- arrays and their iterators are three values of one record; `bytes` is the length of the array that
-- the loop of the function covers.
pub mod Scan
pub mod Ids
use gem_os_cs330a.Prelude.{
  ℕ, zero, suc, ◌+◌, ◌*◌, ◌/◌, ◌%◌, ◌^◌, Bool, not, ◌&&◌, ◌||◌, Option, none, some, ◌==◌,
  if◌then◌else◌, bit_and, bit_or, bit_xor,
}
use gem_os_cs330a.Process.{update}

-- `inodemap` and `inode_bit_itr`, and so on.
pub record Bitmap : Type 0 where
  pub map : ℕ → ℕ
  pub itr : ℕ

-- The inner loop, over the bits of one byte, by the rounds that are left: the first bit that is
-- clear, without bits 0 and 1 of byte 0.
unfoldable pub scan_byte : (byte index rounds j : ℕ) → Option ℕ
scan_byte byte index zero j = none
scan_byte byte index (suc rounds) j =
    let rest = scan_byte byte index rounds (j + 1) in
    if index == 0 && (j == 0 || j == 1)
    then rest
    else if bit_and byte (2 ^ j) == 0
    then some j
    else rest

-- The outer loop, from byte `i` on and around the end of the array.
unfoldable pub scan_map : (map : ℕ → ℕ) (bytes rounds i : ℕ) → Option (ℕ × ℕ)
scan_map map bytes zero i = none
scan_map map bytes (suc rounds) i = elim (scan_byte (map (i % bytes)) (i % bytes) 8 0) [
  | some j ↦ some (i % bytes, j)
  | none ↦ scan_map map bytes rounds (i + 1)
]

-- The body that the three functions share.
unfoldable pub fetch_free : (bytes : ℕ) → Bitmap → ℕ × Bitmap
fetch_free bytes b = elim (scan_map b.map bytes bytes b.itr) [
  | none ↦ (0, b)
  | some (index, j) ↦ (
    index * 8 + j,
    record { map = update b.map index (bit_or (b.map index) (2 ^ j)); itr = index },
  )
]

unfoldable pub get_block_for_cache : Bitmap → ℕ × Bitmap
get_block_for_cache = fetch_free (2 ^ 12)

unfoldable pub fetch_free_id : Bitmap → ℕ × Bitmap
fetch_free_id = fetch_free (2 ^ 20 / 8)

unfoldable pub fetch_free_block : Bitmap → ℕ × Bitmap
fetch_free_block = fetch_free (2 ^ 23 / 8)

-- The body of `free_cache_id`, `free_inode_id` and `free_block`.
unfoldable pub clear_bit : (id : ℕ) → Bitmap → Bitmap
clear_bit id b = record b {
  map = update b.map (id / 8) (bit_and (b.map (id / 8)) (bit_xor (2 ^ (id % 8)) 0xff));
}

unfoldable pub free_cache_id : (cache_id : ℕ) → Bitmap → Bitmap
free_cache_id = clear_bit

unfoldable pub free_inode_id : (inode_id : ℕ) → Bitmap → Bitmap
free_inode_id = clear_bit

unfoldable pub free_block : (block_no : ℕ) → Bitmap → Bitmap
free_block = clear_bit
