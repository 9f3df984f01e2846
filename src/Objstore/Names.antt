-- ===== src/Objstore/Names.antt =====
-- Assn4/objstore.c: looking up an object by its key. `strcmp` is a parameter, and `pointers i c` is
-- what `calloc` returns in round `i` with cache `c`, and so on. The result -1 is `none`.
use gem_os_cs330a.Prelude.{
  ℕ, ◌+◌, not, ◌&&◌, Option, none, some, List, [], ◌∷◌, ◌==◌, if◌then◌else◌, ◌>>=◌, Bool,
}
use gem_os_cs330a.Objstore.{hash}
use gem_os_cs330a.Objstore.Cache.{Cache}
use gem_os_cs330a.Objstore.Blocks.{Block, Device, Store}
use gem_os_cs330a.Objstore.Objects.{get_object_by_id}

module _ (D : Device) (strcmp : (ℕ → ℕ) → (ℕ → ℕ) → ℕ) (fuel : ℕ) (pointers : ℕ → Cache → ℕ)
    (got evicts : ℕ → Bool) (buf : Block) (key : ℕ → ℕ) where
  -- The loop over a chain, from round `i` on.
  unfoldable pub find_loop : List ℕ → (i : ℕ) → Store D → Option (Option ℕ × Store D)
  find_loop [] i s = some (none, s)
  find_loop (id ∷ chain) i s = do
    (obj, s') ← get_object_by_id D fuel (pointers i s.cache) (got i) (evicts i) id buf s
    elim obj [
      | none ↦ some (none, s')
      | some o ↦
          let rest = find_loop chain (i + 1) s' in
          if not (id == 0) && strcmp o.key key == 0 then some (some id, s') else rest
    ]

  unfoldable pub find_object_id : (hash_table : ℕ → List ℕ) → Store D → Option (Option ℕ × Store D)
  find_object_id hash_table s = find_loop (hash_table (hash key)) 0 s
