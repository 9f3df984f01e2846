-- ===== src/Objfs.antt =====
-- Assn4/objfs.c: the operations of the mounted file system, which call the object store. A path is a
-- string that starts with '/', and `key+1` is the string behind that. Handles are the ids of objects. The
-- fields of `struct stat` that are the same for all objects are left out.
pub mod Session
use gem_os_cs330a.Prelude.{
  ℕ, ◌+◌, ◌%◌, ◌^◌, Bool, true, false, Option, none, some, List, ◌==◌, ltb, if◌then◌else◌, ◌>>=◌,
}
use gem_os_cs330a.Objstore.Blocks.{Block, Device}
use gem_os_cs330a.Objstore.World.{Supply, World}
use gem_os_cs330a.Objstore.Files.{
  Files, find_next, fillup_size_details, create_object, destroy_object,
}
use gem_os_cs330a.Objstore.Files.Rename.{rename_object}
use gem_os_cs330a.Objstore.Contents.{
  ReadEnd, unfinished, failed, finished, objstore_read, objstore_write,
}

-- The numbers of errno.h that are returned, negated.
pub data Errno : Type 0 where
  enoent eexist einval ebadf : Errno

pub data Reply (A : Type 0) : Type 0 where
  ok : A → Reply A
  error : Errno → Reply A

-- `struct stat`.
pub record Stat : Type 0 where
  pub st_ino : ℕ
  pub st_size : ℕ
  pub st_blocks : ℕ

-- `ROOT_OBJID`, and the string "/".
abbrev pub root_objid : ℕ
root_objid = 1

abbrev pub slash : ℕ → ℕ
slash k = if k == 0 then 47 else 0

-- `key+1`.
abbrev pub behind : (ℕ → ℕ) → ℕ → ℕ
behind key k = key (k + 1)

module _ (D : Device) (S : Supply) (stack : Block) (strcmp : (ℕ → ℕ) → (ℕ → ℕ) → ℕ) where
  -- `def_dirstat` and `def_fstat` are the defaults.
  unfoldable pub objfs_getattr :
      (def_dirstat def_fstat : Stat) (key : ℕ → ℕ) → Files D → Option (Reply Stat × Files D)
  objfs_getattr def_dirstat def_fstat key f =
      if strcmp key slash == 0
      then some (ok (record def_dirstat { st_ino = root_objid }), f)
      else (do
        (id, f₁) ← find_next D S stack strcmp (behind key) f
        elim id [
          | none ↦ some (error enoent, f₁)
          | some ino ↦ (do
            (details, w) ← fillup_size_details D S stack ino f₁.world
            let f₂ : Files D = record f₁ { world = w }
            elim details [
              | none ↦ some (error ebadf, f₂)
              | some (size, blocks) ↦
                  some (ok (record { st_ino = ino; st_size = size; st_blocks = blocks }), f₂)
            ])
        ])

  -- `left` is what the nodes of chains that were freed lead to.
  unfoldable pub objfs_unlink :
      (left : ℕ → List ℕ → List ℕ) (key : ℕ → ℕ) → Files D → Option (Reply Unit × Files D)
  objfs_unlink left key f = do
    (_, f₁) ← destroy_object D S stack strcmp left (behind key) f
    some (ok tt, f₁)

  unfoldable pub objfs_rename_key :
      (oldkey newkey : ℕ → ℕ) → Files D → Option (Reply Unit × Files D)
  objfs_rename_key oldkey newkey f = do
    (_, f₁) ← rename_object D S stack strcmp oldkey newkey f
    some (error einval, f₁)

  -- The result of `objfs_create` and of `objfs_open` is the handle.
  unfoldable pub objfs_create : (key : ℕ → ℕ) → Files D → Option (Reply ℕ × Files D)
  objfs_create key f = do
    (id, f₁) ← create_object D S stack strcmp (behind key) f
    elim id [ none ↦ some (error eexist, f₁) | some fh ↦ some (ok fh, f₁) ]

  unfoldable pub objfs_open : (key : ℕ → ℕ) → Files D → Option (Reply ℕ × Files D)
  objfs_open key f = do
    (id, f₁) ← find_next D S stack strcmp (behind key) f
    elim id [ none ↦ some (error enoent, f₁) | some fh ↦ some (ok fh, f₁) ]

  -- A read that is not at its end within `rounds` rounds has no result here: `none`.
  unfoldable pub objfs_read :
      (rounds fh : ℕ) (buf : Block) (size offset : ℕ) → Files D → Option (Reply ℕ × Block × Files D)
  objfs_read rounds fh buf size offset f = do
    (end, out, w) ← objstore_read D S stack rounds fh buf (size % 2 ^ 32) offset f.world
    let f₁ : Files D = record f { world = w }
    elim end [
      | unfinished ↦ none
      | failed ↦ some (error einval, out, f₁)
      | finished ↦
          some (if ltb (size % 2 ^ 32) (2 ^ 31) then ok (size % 2 ^ 32) else error einval, out, f₁)
    ]

  unfoldable pub objfs_write :
      (fh : ℕ) (buf : Block) (size offset : ℕ) → Files D → Option (Reply ℕ × Files D)
  objfs_write fh buf size offset f = do
    (written, f₁) ← objstore_write D S stack fh buf (size % 2 ^ 32) offset f
    elim written [ none ↦ some (error einval, f₁) | some n ↦ some (ok n, f₁) ]

  -- `release_object` does nothing.
  unfoldable pub objfs_release : (fh : ℕ) → Files D → Reply Unit × Files D
  objfs_release fh f = (error einval, f)
