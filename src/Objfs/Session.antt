-- ===== src/Objfs/Session.antt =====
-- On the life of a new file in Assn4/objfs.c: it is created, opened, written and read.
use gem_os_cs330a.Prelude.{
  ℕ, ◌+◌, ◌%◌, ◌^◌, ◌<◌, ◌≤◌, ◌≡◌, ◌≢◌, refl, true, arith, ltb, if◌then◌else◌, length, some,
}
use gem_os_cs330a.Objstore.{hash}
use gem_os_cs330a.Objstore.Bitmap.{fetch_free_id, fetch_free_block}
use gem_os_cs330a.Objstore.Bitmap.Ids.{is_used}
use gem_os_cs330a.Objstore.Blocks.{Block, Device}
use gem_os_cs330a.Objstore.Objects.Layout.{SameObject, SameObject-IsObject}
use gem_os_cs330a.Objstore.World.{Supply}
use gem_os_cs330a.Objstore.View.{SupplyLaws, IsView}
use gem_os_cs330a.Objstore.Files.{Files, new_object}
use gem_os_cs330a.Objstore.Files.Lookup.{IsId, stored_at, with_object}
use gem_os_cs330a.Objstore.Files.Keys.{IsKey, StrcmpLaws, new_object-IsObject}
use gem_os_cs330a.Objstore.Files.Others.{AllOther}
use gem_os_cs330a.Objstore.Files.Create.{after, created, is_id}
use gem_os_cs330a.Objstore.Contents.First.{write-read}
use gem_os_cs330a.Objfs.{ok, behind, objfs_create, objfs_open, objfs_write, objfs_read}

module _ (D : Device) (S : Supply) (laws : SupplyLaws D S) (stack : Block)
    (strcmp : (ℕ → ℕ) → (ℕ → ℕ) → ℕ) (compares : StrcmpLaws strcmp) (path : ℕ → ℕ) (n : ℕ)
    (is_key : IsKey (behind path) n) (f : Files D) (view : ℕ → Block) (room : ℕ)
    (others : AllOther strcmp (behind path) view f.inode_map (f.hash_table (hash (behind path))))
    (at_id : f.inode_map.itr < 2 ^ 17) (granted_id : (fetch_free_id f.inode_map).0 ≢ 0)
    (blocks : IsView D S
      (length (f.hash_table (hash (behind path)))
        + (2 + (length (f.hash_table (hash (behind path))) + 2 + (9 + room))))
      view
      f.world)
    (size offset : ℕ) (buf : Block) (short : size ≤ 2 ^ 12) (inside : offset < 2 ^ 12)
    (at_block : f.block_map.itr < 2 ^ 20)
    (reserved : (k : ℕ) → k < 17696 → is_used f.block_map k ≡ true)
    (granted : (fetch_free_block f.block_map).0 ≢ 0)
    (granted' : (fetch_free_block (fetch_free_block f.block_map).1).0 ≢ 0)
    (low : (fetch_free_block f.block_map).0 < 2 ^ 15)
    (low' : (fetch_free_block (fetch_free_block f.block_map).1).0 < 2 ^ 15) (at : ℕ) (any : Block)
    (here : at < 2 ^ 12) where
  abbrev fh : ℕ
  fh = (fetch_free_id f.inode_map).0

  abbrev key : ℕ → ℕ
  key = behind path

  fh-IsId : IsId fh
  fh-IsId =
      is_id D S laws stack strcmp compares key n is_key f view (9 + room) others at_id granted_id
        blocks

  stored_id :
      SameObject (stored_at (with_object view (new_object fh key)) fh) (new_object fh key)
      → (stored_at (with_object view (new_object fh key)) fh).id ≡ fh
  unfolding new_object
  stored_id same = same.id

  stored_empty :
      SameObject (stored_at (with_object view (new_object fh key)) fh) (new_object fh key)
      → (stored_at (with_object view (new_object fh key)) fh).blocknum ≡ 0
  unfolding new_object
  stored_empty same = same.blocknum

  pub create-write-read :
      (f₁ f₂ f₃ f₄ : Files D) × (out : Block) × (objfs_create D S stack strcmp path f
        ≡ some (ok fh, f₁))
      × (objfs_open D S stack strcmp path f₁ ≡ some (ok fh, f₂))
      × (objfs_write D S stack strcmp fh buf size offset f₂ ≡ some (ok size, f₃))
      × (objfs_read D S stack strcmp 1 fh any (2 ^ 12) at f₃ ≡ some (ok (2 ^ 12), out, f₄))
      × ((k : ℕ) → k < 2 ^ 12 → out (at + k) ≡ (if ltb k size then buf k else 0))
  unfolding objfs_create objfs_open objfs_write objfs_read
  create-write-read =
      let (w₁, w₂, create, find, same, h) =
        created D S laws stack strcmp compares key n is_key f view (9 + room) others at_id
          granted_id blocks in
      let f₂ =
        after D S laws stack strcmp compares key n is_key f view (9 + room) others at_id granted_id
          blocks w₂ in
      let valid =
        SameObject-IsObject (stored_at (with_object view (new_object fh key)) fh)
          (new_object fh key) same
          (new_object-IsObject key fh n is_key (let i = fh-IsId in omega (arith, i))) in
      let (f₃, out, w₄, write, _, _, read, bytes, _) =
        write-read D S stack laws fh size offset buf (with_object view (new_object fh key)) f₂ room
          fh-IsId (stored_id same) valid (stored_empty same) short inside at_block reserved granted
          granted' low low' h at any here in
      let whole : size % 2 ^ 32 ≡ size = omega arith in
      (
        after D S laws stack strcmp compares key n is_key f view (9 + room) others at_id granted_id
            blocks w₁,
        f₂,
        f₃,
        record f₃ { world = w₄ },
        out,
        rw create refl,
        rw find refl,
        rw (whole, write) refl,
        rw read refl,
        bytes,
      )
