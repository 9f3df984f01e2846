-- ===== src/Objstore/Contents/Grants.antt =====
-- On requests for blocks for the contents of objects in Assn4/objstore.c.
use gem_os_cs330a.Prelude.{ℕ, ◌/◌, ◌^◌, ◌<◌, ◌≤◌, ◌≡◌, ◌≢◌, true, arith, ltb, Bool-cases, inl, inr}
use gem_os_cs330a.Objstore.Bitmap.{Bitmap, fetch_free_block}
use gem_os_cs330a.Objstore.Bitmap.Ids.{is_used, Granted, fetch_free-nonzero}

-- A request for a block, where the blocks before the end of the objects are reserved.
module _ (map : Bitmap) (at : map.itr < 2 ^ 20)
    (reserved : (k : ℕ) → k < 17696 → is_used map k ≡ true)
    (granted : (fetch_free_block map).0 ≢ 0) where
  abbrev map' : Bitmap
  map' = (fetch_free_block map).1

  block-Granted : Granted (2 ^ 23) map (fetch_free_block map)
  unfolding fetch_free_block
  block-Granted = fetch_free-nonzero (2 ^ 23 / 8) map at granted

  pub block_behind : 17696 ≤ (fetch_free_block map).0
  block_behind = elim (Bool-cases (ltb (fetch_free_block map).0 17696)) [
    | inl e ↦
        let lt : (fetch_free_block map).0 < 17696 = ground arith in
        absurd (ground (arith, reserved (fetch_free_block map).0 lt, block-Granted.unused))
    | inr e ↦ ground arith
  ]

  kept_reserved : (k : ℕ) → k < 17696 → is_used map' k ≡ true
  kept_reserved k lt = let now = block-Granted.now k in let r = reserved k lt in ground arith

  kept_itr : map'.itr < 2 ^ 20
  kept_itr = let h = block-Granted.high in let i = block-Granted.itr in omega (arith, h, i)

-- Two requests for blocks.
module _ (map : Bitmap) (at : map.itr < 2 ^ 20)
    (reserved : (k : ℕ) → k < 17696 → is_used map k ≡ true) (granted : (fetch_free_block map).0 ≢ 0)
    (granted' : (fetch_free_block (fetch_free_block map).1).0 ≢ 0) where
  abbrev first : ℕ
  first = (fetch_free_block map).0

  abbrev second : ℕ
  second = (fetch_free_block (fetch_free_block map).1).0

  pub second_behind : 17696 ≤ second
  second_behind =
      block_behind (fetch_free_block map).1 (kept_itr map at reserved granted)
        (kept_reserved map at reserved granted) granted'

  pub blocks_apart : second ≢ first
  blocks_apart e =
      let g =
        block-Granted (fetch_free_block map).1 (kept_itr map at reserved granted)
          (kept_reserved map at reserved granted) granted' in
      let now = (block-Granted map at reserved granted).now second in
      let unused = g.unused in ground arith
