-- ===== src/Objstore/Chains.antt =====
-- On `hash` and `insert_to_hash_table` in Assn4/objstore.c.
use gem_os_cs330a.Prelude.{
  ℕ, zero, suc, ◌+◌, ◌-◌, ◌*◌, ◌%◌, ◌^◌, ◌<◌, ◌≤◌, ◌≡◌, refl, inl, inr, List, [], ◌∷◌, ◌==◌, arith,
  Bool-cases,
}
use native.Mathlib.Nat.{mod-lt}
use gem_os_cs330a.Objstore.{cache_htsize, char_value, hash_loop, hash, add_id, insert_to_hash_table}

hash_loop_bound :
    (key : ℕ → ℕ) (rounds i hashval : ℕ)
    → hashval < 2 ^ 15 - 1
    → hash_loop key rounds i hashval < 2 ^ 15 - 1
unfolding hash_loop
hash_loop_bound key zero i hashval h = h
hash_loop_bound key (suc rounds) i hashval h = elim (Bool-cases (key i == 0)) [
  | inl end ↦ rw end h
  | inr more ↦ rw more (
      hash_loop_bound key rounds (i + 1)
        ((hashval * 39 % 2 ^ 32 + char_value (key i)) % 2 ^ 32 % (cache_htsize - 1))
        (mod-lt ((hashval * 39 % 2 ^ 32 + char_value (key i)) % 2 ^ 32) (omega arith)))
]

-- Two keys that agree in their first `rounds` characters from `i` on.
hash_loop_same :
    (key key' : ℕ → ℕ) (rounds i hashval : ℕ)
    → ((j : ℕ) → j < i + rounds → key j ≡ key' j)
    → hash_loop key rounds i hashval ≡ hash_loop key' rounds i hashval
unfolding hash_loop
hash_loop_same key key' zero i hashval h = refl
hash_loop_same key key' (suc rounds) i hashval h =
    let next = (hashval * 39 % 2 ^ 32 + char_value (key i)) % 2 ^ 32 % (cache_htsize - 1) in
    let rest = hash_loop_same key key' rounds (i + 1) next (λ j lt. h j (omega arith)) in
    rw (rest, h i (omega arith)) refl

-- The hash of a key is at least 1 and below 2 ^ 15, so it is an index of the table, and keys that
-- agree in their first 29 characters have the same hash.
pub hash_bounds :
    (key key' : ℕ → ℕ)
    → ((i : ℕ) → i < 29 → key i ≡ key' i)
    → (1 ≤ hash key) × (hash key < 2 ^ 15) × (hash key ≡ hash key')
unfolding hash
hash_bounds key key' h =
    let b = hash_loop_bound key 29 0 0 (omega arith) in
    (omega arith, omega (arith, b), rw (hash_loop_same key key' 29 0 0 h) refl)

-- Ids inserted at one index, the first of the list last.
unfoldable pub insert_all : (index : ℕ) → List ℕ → (ℕ → List ℕ) → ℕ → List ℕ
insert_all index [] table = table
insert_all index (id ∷ ids) table = insert_to_hash_table id index (insert_all index ids table)

insert_single :
    (id x index : ℕ) (table : ℕ → List ℕ)
    → table index ≡ x ∷ []
    → insert_to_hash_table id index table index ≡ id ∷ []
unfolding insert_to_hash_table add_id
insert_single id x index table h = ground (arith, h)

insert_first :
    (id index : ℕ) (table : ℕ → List ℕ)
    → table index ≡ []
    → insert_to_hash_table id index table index ≡ id ∷ []
unfolding insert_to_hash_table add_id
insert_first id index table h = ground (arith, h)

-- Where ids are inserted one after the other at one index whose chain is empty, by
-- insert_to_hash_table alone, the chain holds the last of them only.
pub insert_all-last :
    (index id : ℕ) (ids : List ℕ) (table : ℕ → List ℕ)
    → table index ≡ []
    → insert_all index (id ∷ ids) table index ≡ id ∷ []
unfolding insert_all
insert_all-last index id [] table h = insert_first id index table h
insert_all-last index id (x ∷ ids) table h =
    insert_single id x index (insert_all index (x ∷ ids) table)
      (insert_all-last index x ids table h)
