-- ===== src/Objstore/Contents.antt =====
-- Assn4/objstore.c: the contents of objects. The words of `level1` number blocks of 1024 words, each the
-- number of a block of the contents. `size` is an `int`, as the number that its 32 bits are. The buffers
-- of the callers are as long as they need to be, and those of a block are not.
pub mod Rounds
pub mod Grants
pub mod First
pub mod Over
use gem_os_cs330a.Prelude.{
  ℕ, zero, suc, ◌+◌, ◌-◌, ◌*◌, ◌/◌, ◌%◌, ◌^◌, Bool, true, false, not, ◌&&◌, ◌||◌, Option, none,
  some, ◌==◌, ltb, if◌then◌else◌, ◌>>=◌,
}
use gem_os_cs330a.Process.{update}
use gem_os_cs330a.Objstore.Bitmap.{fetch_free_block}
use gem_os_cs330a.Objstore.Blocks.{Block, Device}
use gem_os_cs330a.Objstore.Objects.{Object, word, word_byte}
use gem_os_cs330a.Objstore.World.{Supply, World, read_next, write_next}
use gem_os_cs330a.Objstore.Files.{Files, get_next, insert_next}

-- The word of `level1` for block `n` of an object, and whether the code asks for a new block there.
unfoldable pub level_of : (n : ℕ) → ℕ
level_of n = if ltb n 1024 then 0 else if ltb n 2048 then 1 else if ltb n 3072 then 2 else 3

unfoldable pub opens : (n blocknum : ℕ) → Bool
opens n blocknum =
    if ltb n 1024
    then false
    else if ltb n 2048
    then n == 1024 && blocknum == 1023
    else if ltb n 3072
    then n == 2048 && blocknum == 2047
    else n == 3072 && blocknum == 3071

-- `a[n] = x` of an array of words in a block.
unfoldable pub put_word : Block → (n x : ℕ) → Block
put_word b n x k = if k / 4 == n then word_byte x (k % 4) else b k

-- The outcome of the loop of `objstore_read`: the rounds are used up, an error, or the end.
pub data ReadEnd : Type 0 where
  unfinished failed finished : ReadEnd

-- `memcpy` of `size` bytes of `from`.
unfoldable pub copy_bytes : (from : Block) (size at : ℕ) → Block → Block
copy_bytes from size at to k =
    if ltb k at then to k else if ltb (k - at) size then from (k - at) else to k

abbrev pub zeros : Block
zeros k = 0

module _ (D : Device) (S : Supply) (stack : Block) where
  -- A new block for word `i` of `level1`, if it is `needed`; `none` for the object if there is no block.
  unfoldable pub grow : (needed : Bool) (i : ℕ) → Object → Files D → Option Object × Files D
  grow needed i obj f =
      let (new_block, map) = fetch_free_block f.block_map in
      if not needed
      then (some obj, f)
      else if new_block == 0
      then (none, record f { block_map = map })
      else (
        some (record obj { level1 = update obj.level1 i new_block }),
        record f { block_map = map },
      )

  -- The write to a block that the object has. More than a block overruns `write_buf`: `none`.
  unfoldable pub overwrite :
      (n size : ℕ) (user_buf ptrs : Block) → Files D → Option (Option ℕ × Files D)
  overwrite n size user_buf ptrs f = do
    (r, w) ← write_next D S (word ptrs (4 * (n % 1024))) (copy_bytes user_buf size 0 zeros) f.world
    let f₁ : Files D = record f { world = w }
    if ltb (2 ^ 12) size then none else some (if r == 0 then some size else none, f₁)

  -- The size that the object gets with a new block; `blocknum` counts the new block.
  unfoldable pub new_size : (n blocknum size old : ℕ) → ℕ
  new_size n blocknum size old =
      if ltb n blocknum
      then size
      else if n == blocknum
      then (size + old / 2 ^ 12 * 2 ^ 12) % 2 ^ 32
      else (old + size) % 2 ^ 32

  -- The write to a new block. No result of a write is negative.
  unfoldable pub append :
      (n size : ℕ) (user_buf ptrs : Block) → Object → Files D → Option (Option ℕ × Files D)
  append n size user_buf ptrs obj f = do
    let (new_block_id, map) = fetch_free_block f.block_map
    let count = (obj.blocknum + 1) % 2 ^ 32
    let obj' : Object = record obj {
      size = new_size n count size obj.size;
      blocknum = (count + 1) % 2 ^ 32;
    }
    (_, w₁) ←
        write_next D S (obj.level1 0) (put_word ptrs (obj.blocknum % 1024) new_block_id) f.world
    (_, w₂) ← write_next D S new_block_id (copy_bytes user_buf size 0 zeros) w₁
    w₃ ← insert_next D S stack obj' w₂
    if ltb (2 ^ 12) size then none else some (some size, record f { world = w₃; block_map = map })

  -- The rest of `find_write_cached`, behind the two places that ask for a block for a word of `level1`.
  unfoldable pub write_grown :
      (n size : ℕ) (user_buf : Block) → Option Object × Files D → Option (Option ℕ × Files D)
  write_grown n size user_buf (none, f) = some (none, f)
  write_grown n size user_buf (some obj, f) = do
    (_, ptrs, w) ← read_next D S (obj.level1 (level_of n)) zeros f.world
    let f₁ : Files D = record f { world = w }
    if ltb n obj.blocknum
        then overwrite n size user_buf ptrs f₁
        else append n size user_buf ptrs obj f₁

  unfoldable pub write_begun :
      (n size : ℕ) (user_buf : Block) → Option Object × Files D → Option (Option ℕ × Files D)
  write_begun n size user_buf (none, f) = some (none, f)
  write_begun n size user_buf (some obj, f) =
      write_grown n size user_buf (grow (opens n obj.blocknum) (level_of n) obj f)

  -- The result is `none` for -1.
  unfoldable pub find_write_cached :
      Object → (user_buf : Block) (size offset : ℕ) → Files D → Option (Option ℕ × Files D)
  find_write_cached obj user_buf size offset f =
      if not (ltb size (2 ^ 31))
      then some (none, f)
      else write_begun (offset / 2 ^ 12) size user_buf (grow (obj.blocknum == 0) 0 obj f)

  -- `size` is not set on the disk here: the object is not written again.
  unfoldable pub objstore_write :
      (objid : ℕ) (buf : Block) (size offset : ℕ) → Files D → Option (Option ℕ × Files D)
  objstore_write objid buf size offset f = do
    (obj, w) ← get_next D S stack objid f.world
    let f₁ : Files D = record f { world = w }
    elim obj [
      | none ↦ some (none, f₁)
      | some o ↦
          if ltb objid 2 then some (none, f₁) else find_write_cached o buf size (offset % 2 ^ 32) f₁
    ]

  -- `none` for -1. `size` is at most a block here, and `user_buf` is a buffer of a block.
  unfoldable pub find_read_cached :
      Object → (user_buf : Block) (size offset : ℕ) → World D → Option (Option Block × World D)
  find_read_cached obj user_buf size offset w = do
    let n = offset / 2 ^ 12
    if ltb obj.blocknum n then some (none, w) else (do
      (_, ptrs, w₁) ← read_next D S (obj.level1 (level_of n)) zeros w
      (_, ans, w₂) ← read_next D S (word ptrs (4 * (n % 1024))) zeros w₁
      some (some (copy_bytes ans size 0 user_buf), w₂))

  -- The loop of `objstore_read`, for at most `rounds` rounds. `sizecheck` goes down from a number below
  -- a block to a large one.
  unfoldable pub read_loop :
      (rounds : ℕ)
      → Object
      → (buffer : Block) (sizecheck offcheck offset : ℕ) (buf : Block) → World D
      → Option (ReadEnd × Block × World D)
  read_loop zero obj buffer sizecheck offcheck offset buf w =
      some (if sizecheck == 0 then finished else unfinished, buf, w)
  read_loop (suc rounds) obj buffer sizecheck offcheck offset buf w = do
    let part = if ltb (2 ^ 12) sizecheck then 2 ^ 12 else sizecheck
    if sizecheck == 0 then some (finished, buf, w) else (do
      (got, w') ← find_read_cached obj buffer part offset w
      elim got [
        | none ↦ some (failed, buf, w')
        | some buffer' ↦
            read_loop rounds obj buffer' ((sizecheck + 2 ^ 32 - 2 ^ 12) % 2 ^ 32)
              ((offcheck + 2 ^ 12) % 2 ^ 32) offset (copy_bytes buffer' part offcheck buf) w'
      ])

  unfoldable pub objstore_read :
      (rounds objid : ℕ) (buf : Block) (size offset : ℕ)
      → World D
      → Option (ReadEnd × Block × World D)
  objstore_read rounds objid buf size offset w = do
    (obj, w') ← get_next D S stack objid w
    elim obj [
      | none ↦ some (failed, buf, w')
      | some o ↦
          if ltb objid 2
          then some (failed, buf, w')
          else read_loop rounds o stack size (offset % 2 ^ 32) (offset % 2 ^ 32) buf w'
    ]
