-- ===== src/Tests/Files.antt =====
-- The results on the blocks as an array and on objects by their keys, at a cache that is empty.
use gem_os_cs330a.Prelude.{
  Option, none, ◌⊎◌, sym, ap, subst, ◌∙◌, Bool-cases, inl, inr, ltb, length, ◌+◌, ℕ, zero, suc, ◌^◌,
  ◌≡◌, ◌≢◌, ◌≤◌, ◌<◌, refl, zero-digit, ◌/◌, ◌%◌, true, false, ◌==◌, arith, if◌then◌else◌, List, [],
  ◌∷◌, some,
}
use native.Mathlib.Nat.{mod-eq_of_lt}
use gem_os_cs330a.Process.{update}
use gem_os_cs330a.Objstore.{hash, hash_loop, char_value}
use gem_os_cs330a.Objstore.Bitmap.{Bitmap, fetch_free_id}
use gem_os_cs330a.Objstore.Bitmap.Ids.{is_used, Granted}
use gem_os_cs330a.Objstore.Cache.{CacheObj, Nodes, Cache, check_disk_block_in_cache}
use gem_os_cs330a.Objstore.Cache.Lru.{has, head_or, Seg, IsLru}
use gem_os_cs330a.Objstore.Blocks.{Block}
use gem_os_cs330a.Objstore.World.{Supply, World, read_next, write_next}
use gem_os_cs330a.Objstore.View.{SupplyLaws, IsView}
use gem_os_cs330a.Objstore.View.Access.{access-IsView, access_defined}
use gem_os_cs330a.Objstore.Bitmap.Ids.{fetch_free-Granted}
use gem_os_cs330a.Objstore.Objects.{Object}
use gem_os_cs330a.Objstore.Objects.Layout.{SameObject, IsObject, SameObject-IsObject}
use gem_os_cs330a.Objstore.Files.{Files, new_object, find_next, create_object, destroy_object}
use gem_os_cs330a.Objstore.Files.Lookup.{stored_at, with_object}
use gem_os_cs330a.Objstore.Files.Keys.{IsKey, StrcmpLaws, stored_at-same}
use gem_os_cs330a.Objstore.Files.Others.{AllOther}
use gem_os_cs330a.Objstore.Files.Rename.{rename_object}
use gem_os_cs330a.Objstore.Files.Rename.Found.{rename-find}
use gem_os_cs330a.Objstore.Files.Create.{create-find}
use gem_os_cs330a.Objstore.Files.Destroy.{destroy_object_lem}
use gem_os_cs330a.Tests.Blocks.{array_with, array, strict, bytes}

-- The greatest of the nodes of the cache's list, from node `p` on.
abbrev top : (nodes : Nodes) (rounds p : ℕ) → ℕ
top nodes zero p = p
top nodes (suc rounds) p =
    let rest = top nodes rounds (nodes p).right in if ltb rest p then p else rest

-- No node of a list is greater.
top_bound :
    (nodes : Nodes) (prev : ℕ) (l : List ℕ) (j : ℕ)
    → Seg nodes prev 0 l
    → has j l ≡ true
    → j ≤ top nodes (length l) (head_or 0 l)
top_bound nodes prev [] j s h = absurd (cc)
top_bound nodes prev (p ∷ l) j (_, right, s) h =
    rw right (elim (Bool-cases (ltb (top nodes (length l) (head_or 0 l)) p)) [
      | inl lt ↦ rw lt (elim (Bool-cases (j == p)) [
        | inl e ↦ ground arith
        | inr off ↦
            let rest = top_bound nodes p l j s (ground arith) in
            (let low : top nodes (length l) (head_or 0 l) < p = ground arith in omega arith)
      ])
      | inr ge ↦ rw ge (elim (Bool-cases (j == p)) [
        | inl e ↦ ground arith
        | inr off ↦ top_bound nodes p l j s (ground arith)
      ])
    ])

-- `calloc` gives the pointer behind the nodes of the cache.
abbrev pub supply : Supply
supply = record {
  fuel = 1;
  calloc = λ n c. suc (top c.nodes c.cache_size c.cache_left);
  got = λ n. true;
  evicts = λ n. true;
}

supply_fresh :
    (n : ℕ) (c : Cache) (order : List ℕ)
    → IsLru c order
    → length order < 2 ^ 32
    → has (supply.calloc n c) order ≡ false
supply_fresh n c order h lt = elim (Bool-cases (has (supply.calloc n c) order)) [
  | inl i ↦
      let size : c.cache_size ≡ length order = h.size ∙ mod-eq_of_lt lt in
      let bound = top_bound c.nodes 0 order (supply.calloc n c) h.links i in
      let same : top c.nodes c.cache_size c.cache_left
          ≡ top c.nodes (length order) (head_or 0 order) =
        ap (λ k. top c.nodes k c.cache_left) size ∙ ap (top c.nodes (length order)) h.first in
      absurd (omega (arith, bound, same))
  | inr o ↦ o
]

pub supply_laws : SupplyLaws array supply
supply_laws = record {
  alloc = record {
    some_fuel = omega arith;
    some_pointer = λ n c e. omega (arith, e);
    fresh = supply_fresh;
    enough = λ n. refl;
  };
  keeps = λ n. refl;
}

-- Nothing is in the cache, and no block of it is in use.
abbrev start_with : (freed : CacheObj → Option CacheObj) → (ℕ → Block) → World (array_with freed)
start_with freed disk = record {
  store = record {
    cache = record {
      nodes =
          λ a. record { cache_addr = 0; disk_addr = 0; dirty = 0; left = 0; right = 0; next = 0 };
      table = λ v. 0;
      cache_left = 0;
      cache_right = 0;
      cache_size = 0;
    };
    cache_map = record { map = λ i. 0; itr = 0 };
    pages = λ id i. 0;
    disk = disk;
  };
  calls = 0;
}

abbrev pub start : (ℕ → Block) → World array
start disk = start_with (λ n. some n) disk

abbrev spares : List ℕ
spares = 2 ∷ 3 ∷ 4 ∷ 5 ∷ 6 ∷ 7 ∷ 8 ∷ 9 ∷ 10 ∷ 11 ∷ 12 ∷ 13 ∷ 14 ∷ []

spares_bound : (id : ℕ) → has id spares ≡ true → (2 ≤ id) × (id < 15)
spares_bound id h = (ground arith, ground arith)

start_with-IsView :
    (freed : CacheObj → Option CacheObj) (room : ℕ) (disk : ℕ → Block)
    → room ≤ 13
    → IsView (array_with freed) supply room disk (start_with freed disk)
unfolding is_used
start_with-IsView freed room disk le = record {
  order = [];
  slot = λ v. 0;
  spare = spares;
  lru = record { first = refl; last = refl; links = tt; distinct = tt; size = refl };
  hashed = record { chain = λ v. refl; distinct = λ v. tt; apart = λ v w q ne h. ground arith };
  listed = λ v h. absurd (h refl);
  block = λ v h. absurd (h refl);
  in_use = λ v h. absurd (h refl);
  apart = λ u v ne h. absurd (h refl);
  cached = λ v h. absurd (h refl);
  uncached = λ v h lt. refl;
  itr = omega arith;
  free = λ id h.
      let (lo, hi) = spares_bound id h in
      (lo, omega arith, let z = zero-digit (id % 8) in rw z refl);
  different = (
    (λ e. omega (arith, e)),
    refl,
    (
      (λ e. omega (arith, e)),
      refl,
      (
        (λ e. omega (arith, e)),
        refl,
        (
          (λ e. omega (arith, e)),
          refl,
          (
            (λ e. omega (arith, e)),
            refl,
            (
              (λ e. omega (arith, e)),
              refl,
              (
                (λ e. omega (arith, e)),
                refl,
                (
                  (λ e. omega (arith, e)),
                  refl,
                  (
                    (λ e. omega (arith, e)),
                    refl,
                    (
                      (λ e. omega (arith, e)),
                      refl,
                      (
                        (λ e. omega (arith, e)),
                        refl,
                        ((λ e. omega (arith, e)), refl, ((λ e. omega (arith, e)), refl, tt)),
                      ),
                    ),
                  ),
                ),
              ),
            ),
          ),
        ),
      ),
    ),
  );
  enough = omega arith;
  small = omega arith;
}

pub start-IsView :
    (room : ℕ) (disk : ℕ → Block) → room ≤ 13 → IsView array supply room disk (start disk)
start-IsView room disk le = start_with-IsView (λ n. some n) room disk le

abbrev numbers : ℕ → Block
numbers b i = b

access-IsView_example :
    ((r : ℕ) × (w' : World array) × (read_next array supply 7 (λ i. 0) (start numbers)
        ≡ some (r, (λ i. 7), w'))
      × IsView array supply 3 numbers w')
    × ((w' : World array) × (write_next array supply 7 bytes (start numbers) ≡ some (0, w'))
        × IsView array supply 3 (update numbers 7 bytes) w')
access-IsView_example =
    access-IsView array supply supply_laws 3 7 numbers (λ i. 0) (start numbers)
      (start-IsView 4 numbers (omega arith)) (omega arith) bytes

access_defined_example :
    ((check_disk_block_in_cache 1 7 (start_with (λ n. none) numbers).store.cache ≡ false)
      × ((r : ℕ) × (w' : World strict) × (read_next strict supply 7
              (λ i. 0)
              (start_with (λ n. none) numbers)
            ≡ some (r, (λ i. 7), w'))
          × IsView strict supply 3 numbers w')
      × ((w' : World strict) × (write_next strict supply 7 bytes (start_with (λ n. none) numbers)
            ≡ some (0, w'))
          × IsView strict supply 3 (update numbers 7 bytes) w'))
    ⊎ ((check_disk_block_in_cache 1 7 (start_with (λ n. none) numbers).store.cache ≡ true)
        × (read_next strict supply 7 (λ i. 0) (start_with (λ n. none) numbers) ≡ none)
        × (write_next strict supply 7 bytes (start_with (λ n. none) numbers) ≡ none))
access_defined_example =
    access_defined strict supply supply_laws.alloc 3 7 numbers (λ i. 0)
      (start_with (λ n. none) numbers) (start_with-IsView (λ n. none) 4 numbers (omega arith))
      (omega arith) (λ n. refl) bytes

-- A comparison of the first characters, and a key of one character.
abbrev pub compare : (ℕ → ℕ) → (ℕ → ℕ) → ℕ
compare k key = if k 0 == key 0 then 0 else 1

pub compare-StrcmpLaws : StrcmpLaws compare
compare-StrcmpLaws = record {
  ends = λ k k' key n end h. let e = h 0 (omega arith) in ground arith;
  same = λ key. ground arith;
}

abbrev letter : ℕ → ℕ
letter k = if k == 0 then 97 else 0

letter-IsKey : IsKey letter 1
letter-IsKey = record { short = omega arith; end = refl; more = λ i lt. ground arith }

abbrev pub no_ids : Bitmap
no_ids = record { map = λ i. 0; itr = 0 }

pub no_ids_used : (id : ℕ) → is_used no_ids id ≡ false
unfolding is_used
no_ids_used id = let z = zero-digit (id % 8) in rw z refl

-- No object, and one object with its id in the chain of its key.
abbrev no_files : Files array
no_files = record {
  world = start numbers;
  hash_table = λ i. [];
  inode_map = no_ids;
  block_map = no_ids;
}

pub no_files_grant : Granted (2 ^ 20) no_ids (fetch_free_id no_ids)
unfolding fetch_free_id
no_files_grant =
    fetch_free-Granted (2 ^ 20 / 8) 2 no_ids (omega arith) (omega arith) (omega arith)
      (no_ids_used 2)

abbrev first : ℕ
first = (fetch_free_id no_ids).0

create-find_example :
    (f' : Files array) × (f'' : Files array) × (create_object array supply
        (λ i. 0)
        compare
        letter
        no_files
      ≡ some (some first, f'))
    × (find_next array supply (λ i. 0) compare letter f' ≡ some (some first, f''))
    × Granted (2 ^ 20) no_ids (first, f'.inode_map)
    × SameObject
        (stored_at (with_object numbers (new_object first letter)) first)
        (new_object first letter)
    × IsView array supply 3 (with_object numbers (new_object first letter)) f''.world
create-find_example =
    create-find array supply supply_laws (λ i. 0) compare compare-StrcmpLaws letter 1 letter-IsKey
      no_files numbers 3 tt (omega arith)
      (let low = no_files_grant.low in λ z. omega (arith, low, z))
      (start-IsView 7 numbers (omega arith))

abbrev file : Object
file = record { id = 3; size = 0; cache_index = 0; blocknum = 0; key = letter; level1 = λ k. 0 }

file-IsObject : IsObject file
file-IsObject = record {
  id = omega arith;
  size = omega arith;
  cache_index = omega arith;
  blocknum = omega arith;
  level1 = λ k lt. omega arith;
}

file_stored : SameObject (stored_at (with_object numbers file) 3) file
file_stored = stored_at-same numbers file file-IsObject

abbrev one_file : Files array
one_file = record {
  world = start (with_object numbers file);
  hash_table = λ i. if i == hash letter then 3 ∷ [] else [];
  inode_map = record { map = λ i. 8; itr = 0 };
  block_map = no_ids;
}

file_chain : one_file.hash_table (hash letter) ≡ 3 ∷ []
file_chain = ground arith

destroy_object_lem_example :
    (f' : Files array) × (destroy_object array supply
        (λ i. 0)
        compare
        (λ id rest. [])
        letter
        one_file
      ≡ some (true, f'))
    × (is_used f'.inode_map 3 ≡ false)
    × ((k : ℕ) → k ≢ 3 → is_used f'.inode_map k ≡ is_used one_file.inode_map k)
    × (f'.hash_table (hash letter) ≡ [])
    × ((i : ℕ) → i ≢ hash letter → f'.hash_table i ≡ one_file.hash_table i)
    × IsView array supply 3 (with_object numbers file) f'.world
destroy_object_lem_example =
    destroy_object_lem array supply supply_laws (λ i. 0) compare letter one_file
      (with_object numbers file) 3 3 [] [] (λ id rest. []) file_chain tt
      (rw file_chain ((omega arith, omega arith), tt)) file_stored.id
      (let k = file_stored.key 0 (omega arith) in ground arith) file_stored.blocknum
      (rw file_chain (start-IsView 4 (with_object numbers file) (omega arith)))

-- The object behind a change of its name.
abbrev renamed : (ℕ → ℕ) → Object
renamed newname = record (stored_at (with_object numbers file) 3) {
  key = λ k. if ltb k 32 then newname k else (stored_at (with_object numbers file) 3).key k;
}

-- The key of one other character.
abbrev other : ℕ → ℕ
other k = if k == 0 then 98 else 0

other-IsKey : IsKey other 1
other-IsKey = record { short = omega arith; end = refl; more = λ i lt. ground arith }

names_apart : hash other ≢ hash letter
unfolding hash hash_loop char_value
names_apart e = omega (arith, e)

other_chain : one_file.hash_table (hash other) ≡ []
other_chain = let ne = names_apart in ground arith

rename-find_example :
    (f' : Files array) × (f'' : Files array) × (rename_object array supply
        (λ i. 0)
        compare
        letter
        other
        one_file
      ≡ some (true, f'))
    × (find_next array supply (λ i. 0) compare other f' ≡ some (some 3, f''))
    × (f'.hash_table (hash letter) ≡ [])
    × SameObject
        (stored_at (with_object (with_object numbers file) (renamed other)) 3)
        (renamed other)
    × IsView array supply 3 (with_object (with_object numbers file) (renamed other)) f''.world
rename-find_example =
    rename-find array supply supply_laws (λ i. 0) compare compare-StrcmpLaws letter other 1
      other-IsKey one_file (with_object numbers file) no_ids 3 3 [] file_chain
      (omega arith, omega arith) file_stored.id
      (SameObject-IsObject (stored_at (with_object numbers file) 3) file file_stored file-IsObject)
      (let k = file_stored.key 0 (omega arith) in ground arith) names_apart (no_ids_used 3)
      (subst (AllOther compare other (with_object numbers file) no_ids) (sym other_chain) tt)
      (subst (λ l. IsView array supply (length l + 4 + 3) (with_object numbers file) one_file.world)
        (sym other_chain) (start-IsView 7 (with_object numbers file) (omega arith)))
