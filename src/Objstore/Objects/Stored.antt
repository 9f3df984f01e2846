-- ===== src/Objstore/Objects/Stored.antt =====
-- Where the objects are on the disk, in Assn4/objstore.c.
use gem_os_cs330a.Prelude.{ℕ, ◌+◌, ◌-◌, ◌/◌, ◌%◌, ◌^◌}
use gem_os_cs330a.Objstore.Objects.{objects_per_block, first_block}

-- Where the object of an id is: its block, and its place there.
abbrev pub object_block : (id : ℕ) → ℕ
object_block id = ((id - 2) / objects_per_block + first_block) % 2 ^ 32

abbrev pub object_place : (id : ℕ) → ℕ
object_place id = (id - 2) % objects_per_block
