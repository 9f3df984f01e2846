-- ===== src/Objstore/Bitmap/Ids.antt =====
-- On the functions of Assn4/objstore.c that hand out and take back ids: the bitmap as a set of ids.
use gem_os_cs330a.Prelude.{
  ℕ, ◌+◌, ◌*◌, ◌/◌, ◌%◌, ◌^◌, ◌<◌, ◌≤◌, ◌≡◌, ◌≢◌, refl, sym, inl, inr, Bool, true, false, none,
  some, ◌==◌, arith, if◌then◌else◌, bit_or, bit_xor, digit, digit_bound, digit-bit_or,
  digit-bit_and, digit-pow, digit-mask, Bool-cases, Option-cases,
}
use gem_os_cs330a.Process.{update}
use gem_os_cs330a.Objstore.Bitmap.{
  Bitmap, scan_map, fetch_free, get_block_for_cache, fetch_free_id, fetch_free_block, clear_bit,
  free_cache_id, free_inode_id, free_block,
}
use gem_os_cs330a.Objstore.Bitmap.Scan.{is_open, scan_all, scan_some}

-- The set of ids that a bitmap stands for.
unfoldable pub is_used : Bitmap → ℕ → Bool
is_used b id = digit (b.map (id / 8)) (id % 8) == 1

-- The id of bit `j` of byte `index`, taken apart again.
id_div : (index j : ℕ) → j < 8 → (index * 8 + j) / 8 ≡ index
id_div index j h = omega arith

id_mod : (index j : ℕ) → j < 8 → (index * 8 + j) % 8 ≡ j
id_mod index j h = omega arith

-- Bit `j` of byte `index` is set.
used_set :
    (b : Bitmap) (index j itr k : ℕ)
    → j < 8
    → is_used (record { map = update b.map index (bit_or (b.map index) (2 ^ j)); itr = itr }) k
      ≡ (if k == index * 8 + j then true else is_used b k)
unfolding is_used
used_set b index j itr k h = elim (Bool-cases (k / 8 == index)) [
  | inl here ↦
      let e : k / 8 ≡ index = ground arith in
      rw here (
        ground (
          arith,
          digit-bit_or (b.map index) (2 ^ j) (k % 8),
          digit-pow j (k % 8),
          digit_bound (b.map index) (k % 8),
        ))
  | inr there ↦ let e : (k == index * 8 + j) ≡ false = ground arith in rw (there, e) refl
]

-- Bit `id % 8` of byte `id / 8` is cleared.
pub clear_bit-used :
    (id k : ℕ) (b : Bitmap) → is_used (clear_bit id b) k ≡ (if k == id then false else is_used b k)
unfolding is_used clear_bit
clear_bit-used id k b = elim (Bool-cases (k / 8 == id / 8)) [
  | inl here ↦
      let e : k / 8 ≡ id / 8 = ground arith in
      let m : (k == id) ≡ (k % 8 == id % 8) = ground arith in
      rw here (
        ground (
          arith,
          e,
          m,
          digit-bit_and (b.map (id / 8)) (bit_xor (2 ^ (id % 8)) 0xff) (k % 8),
          digit-mask (id % 8) (k % 8) (omega arith) (omega arith),
          digit_bound (b.map (id / 8)) (k % 8),
        ))
  | inr there ↦ let e : (k == id) ≡ false = ground arith in rw (there, e) refl
]

-- What a call that asks for an id below `n` does to the set `b` of ids in use.
pub data Fetched (n : ℕ) (b : Bitmap) : ℕ × Bitmap → Type 0 where
  fetched :
      (id : ℕ) (b' : Bitmap)
      → 2 ≤ id
      → id < n
      → is_used b id ≡ false
      → ((k : ℕ) → is_used b' k ≡ (if k == id then true else is_used b k))
      → b'.itr ≡ id / 8
      → Fetched n b (id, b')
  full : ((id : ℕ) → 2 ≤ id → id < n → is_used b id ≡ true) → Fetched n b (0, b)

-- A set of ids below `n`, of which 0 and 1 are reserved: what `fetch` and `free` do to it.
pub record IsAllocator (n : ℕ) (fetch : Bitmap → ℕ × Bitmap) (free : ℕ → Bitmap → Bitmap)
    (b : Bitmap) : Type 0 where
  pub fetches : Fetched n b (fetch b)
  pub frees : (id k : ℕ) → is_used (free id b) k ≡ (if k == id then false else is_used b k)
  pub itr_free : (id : ℕ) → (free id b).itr ≡ b.itr

open_id :
    (byte index j : ℕ) → is_open byte index j ≡ true → (2 ≤ index * 8 + j) × (digit byte j ≡ 0)
open_id byte index j h = ground arith

closed_id :
    (byte index j : ℕ)
    → is_open byte index j ≡ false
    → 2 ≤ index * 8 + j
    → (digit byte j == 1) ≡ true
closed_id byte index j h le = ground (arith, digit_bound byte j)

fetch_some :
    (bytes index j : ℕ) (b : Bitmap)
    → 0 < bytes
    → scan_map b.map bytes bytes b.itr ≡ some (index, j)
    → Fetched (bytes * 8) b (fetch_free bytes b)
unfolding fetch_free
fetch_some bytes index j b pos h =
    let (lt, small, o) = scan_some b.map bytes pos b.itr index j h in
    let (big, clear) = open_id (b.map index) index j o in
    let d = id_div index j small in
    let free : is_used b (index * 8 + j) ≡ false =
      unfold is_used in rw (d, id_mod index j small, clear) refl in
    rw (h, fetch_free)
      (fetched (index * 8 + j) _ big (omega arith) free (λ k. used_set b index j index k small)
        (sym d))

fetch_none :
    (bytes : ℕ) (b : Bitmap)
    → 0 < bytes
    → b.itr < bytes
    → scan_map b.map bytes bytes b.itr ≡ none
    → Fetched (bytes * 8) b (fetch_free bytes b)
unfolding fetch_free is_used
fetch_none bytes b pos at h =
    rw (h, fetch_free)
      (full λ id le lt.
        closed_id (b.map (id / 8)) (id / 8) (id % 8)
          (scan_all b.map bytes pos b.itr (id / 8) (id % 8) at h (omega arith) (omega arith))
          (omega arith))

fetch_free-Fetched :
    (bytes : ℕ) (b : Bitmap) → b.itr < bytes → Fetched (bytes * 8) b (fetch_free bytes b)
fetch_free-Fetched bytes b at = elim (Option-cases (scan_map b.map bytes bytes b.itr)) [
  | inl h ↦ fetch_none bytes b (omega arith) at h
  | inr ((index, j), h) ↦ fetch_some bytes index j b (omega arith) h
]

-- A request that is granted: an id that was not in use, which is in use now with all others.
pub record Granted (n : ℕ) (b : Bitmap) (r : ℕ × Bitmap) : Type 0 where
  pub low : 2 ≤ r.0
  pub high : r.0 < n
  pub unused : is_used b r.0 ≡ false
  pub now : (k : ℕ) → is_used r.1 k ≡ (if k == r.0 then true else is_used b k)
  pub itr : r.1.itr ≡ r.0 / 8

Granted-of :
    (n id : ℕ) (b : Bitmap) (r : ℕ × Bitmap)
    → Fetched n b r
    → 2 ≤ id
    → id < n
    → is_used b id ≡ false
    → Granted n b r
Granted-of n id b _ (fetched i b' low high unused now itr) le lt h = record {
  low = low;
  high = high;
  unused = unused;
  now = now;
  itr = itr;
}
Granted-of n id b _ (full all) le lt h = absurd (cc (all id le lt))

Granted-nonzero : (n : ℕ) (b : Bitmap) (r : ℕ × Bitmap) → Fetched n b r → r.0 ≢ 0 → Granted n b r
Granted-nonzero n b _ (fetched i b' low high unused now itr) h = record {
  low = low;
  high = high;
  unused = unused;
  now = now;
  itr = itr;
}
Granted-nonzero n b _ (full all) h = absurd (h refl)

-- A request is granted while there is an id to give.
pub fetch_free-Granted :
    (bytes id : ℕ) (b : Bitmap)
    → b.itr < bytes
    → 2 ≤ id
    → id < bytes * 8
    → is_used b id ≡ false
    → Granted (bytes * 8) b (fetch_free bytes b)
fetch_free-Granted bytes id b at le lt h =
    Granted-of (bytes * 8) id b (fetch_free bytes b) (fetch_free-Fetched bytes b at) le lt h

-- A result that is not 0 was granted.
pub fetch_free-nonzero :
    (bytes : ℕ) (b : Bitmap)
    → b.itr < bytes
    → (fetch_free bytes b).0 ≢ 0
    → Granted (bytes * 8) b (fetch_free bytes b)
fetch_free-nonzero bytes b at h =
    Granted-nonzero (bytes * 8) b (fetch_free bytes b) (fetch_free-Fetched bytes b at) h

-- Where the iterators lie within their maps, the three pairs of functions on bitmaps implement sets
-- of ids below 2 ^ 15, 2 ^ 20 and 2 ^ 23: a request returns an id of at least 2 that was not in use
-- and adds it and nothing else, or it returns 0 and changes nothing, and then all ids from 2 on are
-- in use; giving an id back removes it and nothing else and leaves the iterator.
pub bitmaps-IsAllocator :
    (cache_map inode_map block_map : Bitmap)
    → cache_map.itr < 2 ^ 12
    → inode_map.itr < 2 ^ 17
    → block_map.itr < 2 ^ 20
    → IsAllocator (2 ^ 15) get_block_for_cache free_cache_id cache_map
      × IsAllocator (2 ^ 20) fetch_free_id free_inode_id inode_map
      × IsAllocator (2 ^ 23) fetch_free_block free_block block_map
unfolding get_block_for_cache fetch_free_id fetch_free_block free_cache_id free_inode_id free_block
    clear_bit
bitmaps-IsAllocator c i b hc hi hb = (
  record {
    fetches = fetch_free-Fetched (2 ^ 12) c hc;
    frees = λ id k. clear_bit-used id k c;
    itr_free = λ id. refl;
  },
  record {
    fetches = fetch_free-Fetched (2 ^ 20 / 8) i hi;
    frees = λ id k. clear_bit-used id k i;
    itr_free = λ id. refl;
  },
  record {
    fetches = fetch_free-Fetched (2 ^ 23 / 8) b hb;
    frees = λ id k. clear_bit-used id k b;
    itr_free = λ id. refl;
  },
)
