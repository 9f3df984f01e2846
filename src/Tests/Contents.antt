-- ===== src/Tests/Contents.antt =====
-- The results on the contents of objects, at a disk with one object and a cache that is empty.
use gem_os_cs330a.Prelude.{
  ℕ, ◌+◌, ◌*◌, ◌/◌, ◌%◌, ◌^◌, ◌≡◌, ◌≢◌, ◌<◌, refl, digit-ones, true, false, ◌==◌, ltb, arith,
  if◌then◌else◌, [], some,
}
use gem_os_cs330a.Process.{update}
use gem_os_cs330a.Objstore.Bitmap.{Bitmap, scan_byte, scan_map, fetch_free, fetch_free_block}
use gem_os_cs330a.Objstore.Bitmap.Ids.{is_used}
use gem_os_cs330a.Objstore.Blocks.{Block}
use gem_os_cs330a.Objstore.Objects.{Object, word, word_byte, object_byte, put_object, object_at}
use gem_os_cs330a.Objstore.Objects.Layout.{SameObject, IsObject}
use gem_os_cs330a.Objstore.Objects.Stored.{object_block}
use gem_os_cs330a.Objstore.World.{World}
use gem_os_cs330a.Objstore.View.{IsView}
use gem_os_cs330a.Objstore.Files.{Files}
use gem_os_cs330a.Objstore.Files.Lookup.{stored_at, object_of, with_object}
use gem_os_cs330a.Objstore.Files.Keys.{stored_at-same}
use gem_os_cs330a.Objstore.Contents.{
  finished, level_of, put_word, copy_bytes, zeros, objstore_write, objstore_read,
}
use gem_os_cs330a.Objstore.Contents.First.{first_written, write-read, write-second}
use gem_os_cs330a.Objstore.Contents.Over.{over-read}
use gem_os_cs330a.Objstore.Contents.Rounds.{
  entry, filled, is_finished, objstore_read-rounds, read-other,
}
use gem_os_cs330a.Tests.Blocks.{array}
use gem_os_cs330a.Tests.Files.{supply, supply_laws, start, start-IsView}

abbrev pub reserved_map : Bitmap
reserved_map = record { map = λ i. if ltb i 2212 then 255 else 0; itr = 2212 }

pub reserved : (k : ℕ) → k < 17696 → is_used reserved_map k ≡ true
unfolding is_used
reserved k lt =
    let low : ltb (k / 8) 2212 ≡ true = ground arith in
    let one = digit-ones (k % 8) (omega arith) in rw (low, one) refl

first_grant : (fetch_free_block reserved_map).0 ≡ 17696
unfolding fetch_free_block fetch_free scan_map scan_byte
first_grant = refl

second_grant : (fetch_free_block (fetch_free_block reserved_map).1).0 ≡ 17697
unfolding fetch_free_block fetch_free scan_map scan_byte
second_grant = refl

-- A file of one letter without contents, on a disk of zeros.
abbrev empty_file : Object
empty_file = record {
  id = 3;
  size = 0;
  cache_index = 0;
  blocknum = 0;
  key = λ k. if k == 0 then 97 else 0;
  level1 = λ k. 0;
}

abbrev disk : ℕ → Block
disk = with_object (λ b i. 0) empty_file

disk_bytes : (b k : ℕ) → disk b k < 2 ^ 8
unfolding put_object object_byte word_byte
disk_bytes b k = ground arith

words : (b i : ℕ) → word (disk b) i < 2 ^ 32
unfolding word
words b i =
    omega (arith, disk_bytes b i, disk_bytes b (i + 1), disk_bytes b (i + 2), disk_bytes b (i + 3))

empty_file-IsObject : IsObject empty_file
empty_file-IsObject = record {
  id = omega arith;
  size = omega arith;
  cache_index = omega arith;
  blocknum = omega arith;
  level1 = λ k lt. omega arith;
}

empty_file_stored : SameObject (stored_at disk 3) empty_file
empty_file_stored = stored_at-same (λ b i. 0) empty_file empty_file-IsObject

stored-IsObject : IsObject (stored_at disk 3)
unfolding object_at
stored-IsObject = record {
  id = words 1312 (1 * 64);
  size = words 1312 (1 * 64 + 4);
  cache_index = words 1312 (1 * 64 + 8);
  blocknum = words 1312 (1 * 64 + 12);
  level1 = λ k lt. words 1312 (1 * 64 + 48 + 4 * k);
}

abbrev files : Files array
files = record {
  world = start disk;
  hash_table = λ i. [];
  inode_map = record { map = λ i. 8; itr = 0 };
  block_map = reserved_map;
}

abbrev pub letters : Block
letters k = 98

abbrev table : ℕ
table = (fetch_free_block reserved_map).0

abbrev content : ℕ
content = (fetch_free_block (fetch_free_block reserved_map).1).0

pub table_low : table < 2 ^ 15
table_low = let g = first_grant in omega (arith, g)

pub content_low : content < 2 ^ 15
content_low = let g = second_grant in omega (arith, g)

pub table_some : table ≢ 0
table_some e = let g = first_grant in omega (arith, g, e)

pub content_some : content ≢ 0
content_some e = let g = second_grant in omega (arith, g, e)

-- The blocks behind a write of five letters.
abbrev written : ℕ → Block
written =
    with_object
      (update (update disk table (put_word (disk table) 0 content)) content
        (copy_bytes letters 5 0 zeros))
      (first_written (stored_at disk 3) 5 table)

write-read_example :
    (f' : Files array) × (out : Block) × (w : World array) × (objstore_write array supply zeros 3
        letters 5 100 files
      ≡ some (some 5, f'))
    × SameObject (stored_at written 3) (first_written (stored_at disk 3) 5 table)
    × ((v : ℕ) → v ≢ table → v ≢ content → v ≢ object_block 3 → written v ≡ disk v)
    × (objstore_read array supply zeros 1 3 zeros (2 ^ 12) 40 f'.world ≡ some (finished, out, w))
    × ((k : ℕ) → k < 2 ^ 12 → out (40 + k) ≡ (if ltb k 5 then 98 else 0))
    × IsView array supply 3 written w
write-read_example =
    write-read array supply zeros supply_laws 3 5 100 letters disk files 3
      (omega arith, omega arith) empty_file_stored.id stored-IsObject empty_file_stored.blocknum
      (omega arith) (omega arith) (omega arith) reserved table_some content_some table_low
      content_low (start-IsView 12 disk (omega arith)) 40 zeros (omega arith)

unset : word (disk table) 4 ≡ 0
unfolding word
unset = let g = first_grant in rw g refl

write-second_example :
    (f' : Files array) × (f'' : Files array) × (objstore_write array supply zeros 3 letters 5 100
        files
      ≡ some (some 5, f'))
    × (objstore_write array supply zeros 3 letters 4096 4096 f' ≡ some (some 4096, f''))
    × (f''.block_map ≡ f'.block_map)
    × IsView array supply 3
        (update written (word (disk table) 4) (copy_bytes letters 4096 0 zeros))
        f''.world
write-second_example =
    write-second array supply zeros supply_laws 3 5 100 letters disk files 3
      (omega arith, omega arith) empty_file_stored.id stored-IsObject empty_file_stored.blocknum
      (omega arith) (omega arith) (omega arith) reserved table_some content_some table_low
      content_low (start-IsView 12 disk (omega arith)) 4096 4096 letters (omega arith) (omega arith)
      (omega arith) (let u = unset in omega (arith, u))

-- A file with one block of contents, 20001, numbered in block 20000.
abbrev file : Object
file = record empty_file { size = 4096; blocknum = 1; level1 = λ k. 20000 }

abbrev blocks : ℕ → Block
blocks b =
    if b == 20000
    then put_word zeros 0 20001
    else if b == 20001
    then letters
    else with_object (λ v i. 0) file b

file-IsObject : IsObject file
file-IsObject = record {
  id = omega arith;
  size = omega arith;
  cache_index = omega arith;
  blocknum = omega arith;
  level1 = λ k lt. omega arith;
}

file_stored : SameObject (stored_at blocks 3) file
file_stored = stored_at-same (λ b i. 0) file file-IsObject

abbrev o : Object
o = stored_at blocks 3

o_is : object_of blocks 3 ≡ some o
o_is =
    let e : ((stored_at blocks 3).id == 3) ≡ true = let i = file_stored.id in ground arith in
    rw e refl

o_table : o.level1 0 ≡ 20000
o_table = file_stored.level1 0 (omega arith)

o_level : o.level1 (level_of (0 / 2 ^ 12)) ≡ 20000
unfolding level_of
o_level = o_table

o_block : entry blocks o 0 ≡ 20001
unfolding level_of word put_word word_byte
o_block = let t = o_table in rw t refl

objstore_read-rounds_example :
    (out : Block) × (w : World array) × (objstore_read array supply zeros 2 3 zeros
        (2 * 2 ^ 12)
        0
        (start blocks)
      ≡ some (finished, out, w))
    × ((k : ℕ) → out k ≡ filled (blocks (entry blocks o 0)) 2 0 zeros k)
    × IsView array supply 3 blocks w
objstore_read-rounds_example =
    objstore_read-rounds array supply zeros supply_laws blocks o 0 (omega arith)
      (let l = o_level in omega (arith, l)) (let b = o_block in omega (arith, b)) 2 3 3 zeros
      (start blocks) (omega arith, omega arith) o_is (omega arith)
      (start-IsView 8 blocks (omega arith))

read-other_example :
    is_finished (objstore_read array supply zeros 3 3 zeros 5 0 (start blocks)) ≡ false
read-other_example =
    read-other array supply zeros 3 3 zeros 5 0 (start blocks) (omega arith) (λ e. omega (arith, e))

over-read_example :
    (f' : Files array) × (out : Block) × (w : World array) × (objstore_write array supply zeros 3
        letters 7 100
        (record files { world = start blocks })
      ≡ some (some 7, f'))
    × (f'.block_map ≡ reserved_map)
    × (objstore_read array supply zeros 1 3 zeros (2 ^ 12) 40 f'.world ≡ some (finished, out, w))
    × ((k : ℕ) → k < 2 ^ 12 → out (40 + k) ≡ (if ltb k 7 then 98 else 0))
    × IsView array supply 3 (update blocks (entry blocks o 0) (copy_bytes letters 7 0 zeros)) w
over-read_example =
    over-read array supply zeros supply_laws 3 7 100 letters blocks o
      (record files { world = start blocks }) (omega arith, omega arith) o_is
      (let b = file_stored.blocknum in omega (arith, b)) (omega arith) (omega arith)
      (let t = o_table in omega (arith, t)) (let b = o_block in omega (arith, b))
      (λ e. let t = o_table in let b = o_block in omega (arith, t, b, e))
      (λ e. let b = o_block in omega (arith, b, e)) 3 40 zeros refl
      (start-IsView 9 blocks (omega arith))
