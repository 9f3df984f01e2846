-- ===== src/Objstore/World.antt =====
-- Assn4/objstore.c: calls of the cache one after the other. In call `n`, with cache `c`, `calloc`
-- returns `calloc n c`, and `got n` and `evicts n` say whether `malloc_4k` gets its pages in it.
use gem_os_cs330a.Prelude.{ℕ, ◌+◌, Bool, Option, some, ◌>>=◌}
use gem_os_cs330a.Objstore.Cache.{Cache}
use gem_os_cs330a.Objstore.Blocks.{Block, Device, Store, read_block_modified, write_block_modified}

-- What the memory allocation does, and the fuel for chains.
pub record Supply : Type 0 where
  pub fuel : ℕ
  pub calloc : ℕ → Cache → ℕ
  pub got : ℕ → Bool
  pub evicts : ℕ → Bool

-- The store, and the number of calls so far.
pub record World (D : Device) : Type 0 where
  pub store : Store D
  pub calls : ℕ

module _ (D : Device) (S : Supply) where
  unfoldable pub read_next : (block_no : ℕ) → Block → World D → Option (ℕ × Block × World D)
  read_next block_no buf w = do
    let n = w.calls
    (r, buf', s) ←
        read_block_modified D S.fuel (S.calloc n w.store.cache) (S.got n) (S.evicts n) block_no buf
          w.store
    some (r, buf', record { store = s; calls = n + 1 })

  unfoldable pub write_next : (block_no : ℕ) → Block → World D → Option (ℕ × World D)
  write_next block_no buf w = do
    let n = w.calls
    (r, s) ←
        write_block_modified D S.fuel (S.calloc n w.store.cache) (S.evicts n) block_no buf w.store
    some (r, record { store = s; calls = n + 1 })
