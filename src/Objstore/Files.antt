-- ===== src/Objstore/Files.antt =====
-- Assn4/objstore.c: the operations on objects by their keys. A chain is the list of the ids of its
-- nodes. `strcmp` is a parameter, and `stack` is what a buffer of the
-- stack holds before it is filled.
pub mod Lookup
pub mod Walk
pub mod Keys
pub mod Others
pub mod Create
pub mod Destroy
pub mod Rename
use gem_os_cs330a.Prelude.{
  ℕ, zero, suc, ◌+◌, ◌-◌, ◌*◌, ◌^◌, Bool, true, false, not, ◌&&◌, ◌||◌, Option, none, some, List,
  [], ◌∷◌, ◌++◌, length, ◌==◌, ltb, if◌then◌else◌, ◌>>=◌,
}
use gem_os_cs330a.Process.{update}
use gem_os_cs330a.Objstore.{hash, insert_to_hash_table}
use gem_os_cs330a.Objstore.Bitmap.{Bitmap, fetch_free_id, free_inode_id}
use gem_os_cs330a.Objstore.Blocks.{Block, Device, Store}
use gem_os_cs330a.Objstore.Objects.{Object, word, get_object_by_id, insert_to_disk}
use gem_os_cs330a.Objstore.Names.{find_object_id}
use gem_os_cs330a.Objstore.World.{Supply, World}

-- The globals of the store of objects.
pub record Files (D : Device) : Type 0 where
  pub world : World D
  pub hash_table : ℕ → List ℕ
  pub inode_map : Bitmap
  pub block_map : Bitmap

-- The outcome of a loop over a chain: an object that is not on the disk, one that has the key, or none.
pub data Scan : Type 0 where
  broken absent : Scan
  found : Object → Scan

-- What `strcpy` leaves in fresh memory: the characters up to the end, and zeros.
unfoldable pub has_end : (key : ℕ → ℕ) (i : ℕ) → Bool
has_end key zero = false
has_end key (suc i) = has_end key i || key i == 0

unfoldable pub copied : (key : ℕ → ℕ) → Block
copied key i = if has_end key i then 0 else key i

-- The object of `create_object`. A key of 32 characters and more runs into `level1`, and what is
-- behind that is left out.
unfoldable pub new_object : (id : ℕ) (key : ℕ → ℕ) → Object
new_object id key = record {
  id = id;
  size = 0;
  cache_index = 2 ^ 32 - 1;
  blocknum = 0;
  key = copied key;
  level1 = λ k. word (copied key) (32 + 4 * k);
}

-- `free(itr)`: the chain still leads to the node that was freed. What a walk meets from there on is
-- `left`, by the id of the node and the ids behind it: both fields of the node are lost.
unfoldable pub free_hashobj : (left : ℕ → List ℕ → List ℕ) (id : ℕ) → List ℕ → List ℕ
free_hashobj left id [] = []
free_hashobj left id (itr ∷ chain) =
    if itr == id then left id chain else itr ∷ free_hashobj left id chain

module _ (D : Device) (S : Supply) (stack : Block) where
  unfoldable pub get_next : (id : ℕ) → World D → Option (Option Object × World D)
  get_next id w = do
    let n = w.calls
    (obj, s) ←
        get_object_by_id D S.fuel (S.calloc n w.store.cache) (S.got n) (S.evicts n) id stack w.store
    some (obj, record { store = s; calls = n + 1 })

  unfoldable pub insert_next : Object → World D → Option (World D)
  insert_next obj w = do
    let n = w.calls
    s ←
        insert_to_disk D S.fuel (S.calloc n w.store.cache) (S.calloc (n + 1)) (S.got n) (S.evicts n)
          (S.evicts (n + 1)) obj stack w.store
    some (record { store = s; calls = n + 2 })

  unfoldable pub fillup_size_details : (st_ino : ℕ) → World D → Option (Option (ℕ × ℕ) × World D)
  fillup_size_details st_ino w = do
    (obj, w') ← get_next st_ino w
    elim obj [
      | none ↦ some (none, w')
      | some o ↦ some (if ltb st_ino 2 then none else some (o.size, o.blocknum), w')
    ]

  module _ (strcmp : (ℕ → ℕ) → (ℕ → ℕ) → ℕ) where
    unfoldable pub find_next : (key : ℕ → ℕ) → Files D → Option (Option ℕ × Files D)
    find_next key f = do
      let n = f.world.calls
      (id, s) ←
          find_object_id D strcmp S.fuel (λ i. S.calloc (n + i)) (λ i. S.got (n + i))
            (λ i. S.evicts (n + i)) stack key f.hash_table f.world.store
      let w : World D = record { store = s; calls = n + length (f.hash_table (hash key)) }
      some (id, record f { world = w })

    -- The loops over a chain in `create_object` and `destroy_object`.
    unfoldable pub scan_chain : (key : ℕ → ℕ) → List ℕ → World D → Option (Scan × World D)
    scan_chain key [] w = some (absent, w)
    scan_chain key (id ∷ chain) w = do
      (obj, w') ← get_next id w
      elim obj [
        | none ↦ some (broken, w')
        | some o ↦
            let rest = scan_chain key chain w' in
            if not (id == 0) && strcmp o.key key == 0 then some (found o, w') else rest
      ]

    -- What `create_object` does for a key that is new: the node is put at the end of its chain, and
    -- `insert_to_hash_table` makes another one.
    unfoldable pub add_object : (key : ℕ → ℕ) → Files D → Option (Option ℕ × Files D)
    add_object key f = do
      let (new_id, map) = fetch_free_id f.inode_map
      let val = hash key
      let obj = new_object new_id key
      let table = update f.hash_table val (f.hash_table val ++ new_id ∷ [])
      if new_id == 0 then some (none, record f { inode_map = map }) else (do
        w ← insert_next obj f.world
        some (
          some new_id,
          record f {
            world = w;
            hash_table = insert_to_hash_table new_id (hash obj.key) table;
            inode_map = map;
          },
        ))

    -- The result is the id, or `none` for -1.
    unfoldable pub create_object : (key : ℕ → ℕ) → Files D → Option (Option ℕ × Files D)
    create_object key f = do
      (same, w) ← scan_chain key (f.hash_table (hash key)) f.world
      let f₁ : Files D = record f { world = w }
      elim same [
        | broken ↦ some (none, f₁)
        | found o ↦ some (none, f₁)
        | absent ↦ add_object key f₁
      ]

    -- With a block, `free_object_blocks` is called with its arguments in the wrong order, so a number
    -- is followed as a pointer: `none`.
    unfoldable pub remove_object_cached : Object → Files D → Option (Files D)
    remove_object_cached obj f =
        if obj.blocknum == 0
        then some (record f { inode_map = free_inode_id obj.id f.inode_map })
        else none

    -- `true` for 0, and `false` for -1.
    unfoldable pub destroy_object :
        (left : ℕ → List ℕ → List ℕ) (key : ℕ → ℕ) → Files D → Option (Bool × Files D)
    destroy_object left key f = do
      (same, w) ← scan_chain key (f.hash_table (hash key)) f.world
      let f₁ : Files D = record f { world = w }
      elim same [
        | broken ↦ some (false, f₁)
        | absent ↦ some (false, f₁)
        | found o ↦ (do
          f₂ ← remove_object_cached o f₁
          let chain = free_hashobj left o.id (f₂.hash_table (hash key))
          some (true, record f₂ { hash_table = update f₂.hash_table (hash key) chain }))
      ]
