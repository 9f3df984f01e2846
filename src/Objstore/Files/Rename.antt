-- ===== src/Objstore/Files/Rename.antt =====
-- Assn4/objstore.c: `rename_object`.
pub mod Found
use gem_os_cs330a.Prelude.{
  ℕ, zero, suc, ◌+◌, Bool, true, false, not, ◌&&◌, Option, none, some, List, [], ◌∷◌, ◌==◌, ltb,
  if◌then◌else◌, ◌>>=◌,
}
use gem_os_cs330a.Process.{update}
use gem_os_cs330a.Objstore.{hash, insert_to_hash_table}
use gem_os_cs330a.Objstore.Blocks.{Block, Device}
use gem_os_cs330a.Objstore.Objects.{Object}
use gem_os_cs330a.Objstore.World.{Supply}
use gem_os_cs330a.Objstore.Files.{Files, get_next, insert_next}

-- A chain without its node at place `i`.
unfoldable pub remove_at : (i : ℕ) → List ℕ → List ℕ
remove_at i [] = []
remove_at zero (id ∷ chain) = chain
remove_at (suc i) (id ∷ chain) = id ∷ remove_at i chain

module _ (D : Device) (S : Supply) (stack : Block) where
  -- The new key of `rename_object`, in the table and on the disk.
  unfoldable pub rename_found : (newname : ℕ → ℕ) → Object → Files D → Option (Files D)
  rename_found newname obj f = do
    w ←
        insert_next D S stack (record obj { key = λ k. if ltb k 32 then newname k else obj.key k })
          f.world
    some (record f {
      world = w;
      hash_table = insert_to_hash_table obj.id (hash newname) f.hash_table;
    })

  module _ (strcmp : (ℕ → ℕ) → (ℕ → ℕ) → ℕ) where
    -- The loop of `rename_object`, from place `i` of the chain on. At place 0, where `itr` is `temp`
    -- itself, the node stays in its chain.
    unfoldable pub rename_loop :
        (key newname : ℕ → ℕ) (i : ℕ) → List ℕ → Files D → Option (Bool × Files D)
    rename_loop key newname i [] f = some (false, f)
    rename_loop key newname i (id ∷ chain) f = do
      (obj, w) ← get_next D S stack id f.world
      let f₁ : Files D = record f { world = w }
      let val = hash key
      elim obj [
        | none ↦ some (false, f₁)
        | some o ↦
            let rest = rename_loop key newname (i + 1) chain f₁ in
            let found_here = (do
              f₂ ← rename_found newname o f₁
              let unlinked = update f₂.hash_table val (remove_at i (f₂.hash_table val))
              some (true, if i == 0 then f₂ else record f₂ { hash_table = unlinked })) in
            if not (id == 0) && strcmp o.key key == 0 then found_here else rest
      ]

    -- The look at the first node. The key of an object that is not there is read: `none`.
    unfoldable pub rename_first : (key newname : ℕ → ℕ) → List ℕ → Files D → Option (Bool × Files D)
    rename_first key newname [] f = some (false, f)
    rename_first key newname (id ∷ chain) f = do
      (obj, w) ← get_next D S stack id f.world
      let f₁ : Files D = record f { world = w }
      let val = hash key
      let again = rename_loop key newname 0 (id ∷ chain) f₁
      elim obj [
        | none ↦ if id == 0 then again else none
        | some o ↦
            let found_here = (do
              f₂ ← rename_found newname o f₁
              some (
                true,
                record f₂ {
                  hash_table = update f₂.hash_table val (remove_at 0 (f₂.hash_table val));
                },
              )) in
            if not (id == 0) && strcmp o.key key == 0 then found_here else again
      ]

    -- `true` for 0, and `false` for -1.
    unfoldable pub rename_object : (key newname : ℕ → ℕ) → Files D → Option (Bool × Files D)
    rename_object key newname f = rename_first key newname (f.hash_table (hash key)) f
