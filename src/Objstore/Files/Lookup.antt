-- ===== src/Objstore/Files/Lookup.antt =====
-- On objects in Assn4/objstore.c, with the blocks as an array: `get_object_by_id`, `insert_to_disk`, and
-- the loops over a chain.
use gem_os_cs330a.Prelude.{
  ℕ, suc, ◌+◌, ◌-◌, ◌*◌, ◌/◌, ◌%◌, ◌^◌, ◌<◌, ◌≤◌, ◌≡◌, ◌≢◌, refl, ap, subst, ◌==◌, arith,
  if◌then◌else◌, List, [], ◌∷◌, Option, none, some,
}
use gem_os_cs330a.Process.{update}
use gem_os_cs330a.Objstore.Blocks.{Block, Device, Store}
use gem_os_cs330a.Objstore.Objects.{
  Object, objects_per_block, first_block, object_at, put_object, get_object_by_id, insert_to_disk,
}
use gem_os_cs330a.Objstore.Objects.Stored.{object_block, object_place}
use gem_os_cs330a.Objstore.World.{Supply, World}
use gem_os_cs330a.Objstore.View.{SupplyLaws, IsView}
use gem_os_cs330a.Objstore.View.Access.{Read-view, Write-view}
use gem_os_cs330a.Objstore.Files.{Scan, broken, absent, found, insert_next}

-- An id that the map of ids can give.
abbrev pub IsId : ℕ → Type 0
IsId id = (2 ≤ id) × (id < 2 ^ 20)

-- The object of an id, read off the blocks.
abbrev pub stored_at : (ℕ → Block) → (id : ℕ) → Object
stored_at view id = object_at (view (object_block id)) (object_place id)

abbrev pub object_of : (ℕ → Block) → (id : ℕ) → Option Object
object_of view id = if (stored_at view id).id == id then some (stored_at view id) else none

-- The blocks behind `insert_to_disk`.
abbrev pub with_object : (ℕ → Block) → Object → ℕ → Block
with_object view o =
    update view (object_block o.id) (put_object (view (object_block o.id)) (object_place o.id) o)

pub object_block_bound : (id : ℕ) → IsId id → object_block id < 17696
object_block_bound id h = omega (arith, h)

-- Different ids have different places.
pub places_apart :
    (id id' : ℕ)
    → IsId id
    → IsId id'
    → id ≢ id'
    → object_block id ≡ object_block id'
    → object_place id ≢ object_place id'
places_apart id id' h h' ne e p = ne (omega (arith, h, h', e, p))

module _ (D : Device) (S : Supply) where
  -- Fewer calls, from any number on.
  pub IsView-weaken :
      (room room' calls : ℕ) (view : ℕ → Block) (w : World D)
      → IsView D S room view w
      → room' ≤ room
      → IsView D S room' view (record { store = w.store; calls = calls })
  IsView-weaken room room' calls view w h le = record {
    order = h.order;
    slot = h.slot;
    spare = h.spare;
    lru = h.lru;
    hashed = h.hashed;
    listed = h.listed;
    block = h.block;
    in_use = h.in_use;
    apart = h.apart;
    cached = h.cached;
    uncached = h.uncached;
    itr = h.itr;
    free = h.free;
    different = h.different;
    enough = let e = h.enough in omega (arith, e);
    small = let e = h.small in omega (arith, e);
  }

module _ (D : Device) (S : Supply) (laws : SupplyLaws D S) (stack : Block) where
  -- `get_object_by_id`.
  pub get-IsView :
      (room id : ℕ) (view : ℕ → Block) (w : World D)
      → IsId id
      → IsView D S (suc room) view w
      → (s' : Store D) × (get_object_by_id D S.fuel
            (S.calloc w.calls w.store.cache)
            (S.got w.calls)
            (S.evicts w.calls)
            id
            stack
            w.store
          ≡ some (object_of view id, s'))
        × IsView D S room view (record { store = s'; calls = w.calls + 1 })
  unfolding get_object_by_id
  get-IsView room id view w (lo, hi) h =
      let (r, s', run, after) =
        Read-view D S laws room (object_block id) view stack w h
          (omega (arith, object_block_bound id (lo, hi))) in
      let offset : (id + 2 ^ 64 - 2) % 2 ^ 64 ≡ id - 2 = omega arith in
      let place : object_place id * 64 / 64 ≡ object_place id = omega arith in
      (s', rw (offset, place, run) refl, after)

  -- `insert_to_disk`.
  pub insert-IsView :
      (room : ℕ) (o : Object) (view : ℕ → Block) (w : World D)
      → IsId o.id
      → IsView D S (suc (suc room)) view w
      → (w' : World D) × (insert_next D S stack o w ≡ some w')
        × IsView D S room (with_object view o) w'
  unfolding insert_next insert_to_disk
  insert-IsView room o view w (lo, hi) h =
      let bound : object_block o.id < 2 ^ 15 = omega (arith, object_block_bound o.id (lo, hi)) in
      let (r, s₁, run, after) =
        Read-view D S laws (suc room) (object_block o.id) view stack w h bound in
      let page = put_object (view (object_block o.id)) (object_place o.id) o in
      let w₁ : World D = record { store = s₁; calls = w.calls + 1 } in
      let (s₂, run', after') =
        Write-view D S laws room (object_block o.id) view stack w₁ after bound page in
      let offset : (o.id + 2 ^ 32 - 2) % 2 ^ 32 ≡ o.id - 2 = omega arith in
      let at : (first_block + (o.id - 2) / objects_per_block) % 2 ^ 32 ≡ object_block o.id =
        ap (λ n. n % 2 ^ 32) (omega arith) in
      let calls : w.calls + 1 + 1 ≡ w.calls + 2 = omega arith in
      (
        record { store = s₂; calls = w.calls + 2 },
        rw (offset, at, run, run') refl,
        subst (λ n. IsView D S room (with_object view o) (record { store = s₂; calls = n })) calls
            after',
      )

abbrev pub AreIds : List ℕ → Type 0
AreIds [] = Unit
AreIds (id ∷ chain) = IsId id × AreIds chain

module _ (strcmp : (ℕ → ℕ) → (ℕ → ℕ) → ℕ) (key : ℕ → ℕ) (view : ℕ → Block) where
  -- What the loops find, read off the blocks.
  abbrev pub scan_of : List ℕ → Scan
  scan_of [] = absent
  scan_of (id ∷ chain) = elim (object_of view id) [
    | none ↦ broken
    | some o ↦ if strcmp o.key key == 0 then found o else scan_of chain
  ]

  abbrev pub find_of : List ℕ → Option ℕ
  find_of [] = none
  find_of (id ∷ chain) = elim (object_of view id) [
    | none ↦ none
    | some o ↦ if strcmp o.key key == 0 then some id else find_of chain
  ]
