-- ===== src/Tests/Session.antt =====
-- The result on a new file in the mounted file system, on a disk of zeros.
use gem_os_cs330a.Prelude.{ℕ, ◌+◌, ◌^◌, ◌<◌, ◌≡◌, refl, ◌==◌, ltb, arith, if◌then◌else◌, [], some}
use gem_os_cs330a.Objstore.Bitmap.{fetch_free_id}
use gem_os_cs330a.Objstore.Blocks.{Block}
use gem_os_cs330a.Objstore.Files.{Files}
use gem_os_cs330a.Objstore.Files.Keys.{IsKey}
use gem_os_cs330a.Objstore.Contents.{zeros}
use gem_os_cs330a.Objfs.{ok, behind, objfs_create, objfs_open, objfs_write, objfs_read}
use gem_os_cs330a.Objfs.Session.{create-write-read}
use gem_os_cs330a.Tests.Blocks.{array}
use gem_os_cs330a.Tests.Contents.{
  reserved_map, reserved, table_some, content_some, table_low, content_low, letters,
}
use gem_os_cs330a.Tests.Files.{
  supply, supply_laws, start, start-IsView, compare, compare-StrcmpLaws, no_ids, no_files_grant,
}

-- "/a".
abbrev path : ℕ → ℕ
path k = if k == 0 then 47 else if k == 1 then 97 else 0

path-IsKey : IsKey (behind path) 1
path-IsKey = record { short = omega arith; end = refl; more = λ i lt. ground arith }

abbrev mounted : Files array
mounted = record {
  world = start (λ b i. 0);
  hash_table = λ i. [];
  inode_map = no_ids;
  block_map = reserved_map;
}

abbrev fh : ℕ
fh = (fetch_free_id no_ids).0

create-write-read_example :
    (f₁ f₂ f₃ f₄ : Files array) × (out : Block) × (objfs_create array supply zeros compare path
        mounted
      ≡ some (ok fh, f₁))
    × (objfs_open array supply zeros compare path f₁ ≡ some (ok fh, f₂))
    × (objfs_write array supply zeros compare fh letters 5 0 f₂ ≡ some (ok 5, f₃))
    × (objfs_read array supply zeros compare 1 fh zeros (2 ^ 12) 0 f₃ ≡ some (ok (2 ^ 12), out, f₄))
    × ((k : ℕ) → k < 2 ^ 12 → out (0 + k) ≡ (if ltb k 5 then 98 else 0))
create-write-read_example =
    create-write-read array supply supply_laws zeros compare compare-StrcmpLaws path 1 path-IsKey
      mounted (λ b i. 0) 0 tt (omega arith)
      (let low = no_files_grant.low in λ z. omega (arith, low, z))
      (start-IsView 13 (λ b i. 0) (omega arith)) 5 0 letters (omega arith) (omega arith)
      (omega arith) reserved table_some content_some table_low content_low 0 zeros (omega arith)
