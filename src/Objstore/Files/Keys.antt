-- ===== src/Objstore/Files/Keys.antt =====
-- On keys in Assn4/objstore.c: copies, hashes and comparisons, and the objects of a chain that have other keys.
use gem_os_cs330a.Prelude.{
  ℕ, zero, suc, ◌+◌, ◌-◌, ◌*◌, ◌%◌, ◌^◌, ◌<◌, ◌≤◌, ◌≡◌, ◌≢◌, refl, sym, subst, true, false, ◌==◌,
  arith, Bool-cases, inl, inr,
}
use gem_os_cs330a.Objstore.{cache_htsize, char_value, hash, hash_loop}
use gem_os_cs330a.Objstore.Blocks.{Block}
use gem_os_cs330a.Objstore.Objects.{Object, object_at, put_object, word}
use gem_os_cs330a.Objstore.Objects.Layout.{
  SameObject, IsObject, object_at-put_object, object_at-other,
}
use gem_os_cs330a.Objstore.Objects.Stored.{object_block, object_place}
use gem_os_cs330a.Objstore.Files.{has_end, copied, new_object}
use gem_os_cs330a.Objstore.Files.Lookup.{IsId, stored_at, with_object, places_apart}

-- `n` is the length of a key, which ends within 32 characters.
pub record IsKey (key : ℕ → ℕ) (n : ℕ) : Type 0 where
  pub short : n < 32
  pub end : key n ≡ 0
  pub more : (i : ℕ) → i < n → key i ≢ 0

-- `strcmp` looks at a key up to its end, and a key is equal to itself.
pub record StrcmpLaws (strcmp : (ℕ → ℕ) → (ℕ → ℕ) → ℕ) : Type 0 where
  pub ends :
      (k k' key : ℕ → ℕ) (n : ℕ)
      → k' n ≡ 0
      → ((i : ℕ) → i ≤ n → k i ≡ k' i)
      → strcmp k key ≡ strcmp k' key
  pub same : (key : ℕ → ℕ) → strcmp key key ≡ 0

module _ (key : ℕ → ℕ) where
  has_end_before : (n i : ℕ) → ((j : ℕ) → j < n → key j ≢ 0) → i ≤ n → has_end key i ≡ false
  unfolding has_end
  has_end_before n zero more h = refl
  has_end_before n (suc i) more h =
      let rest = has_end_before n i more (omega arith) in
      let ne = more i (omega arith) in ground arith

  has_end_behind : (n d : ℕ) → key n ≡ 0 → has_end key (suc (d + n)) ≡ true
  unfolding has_end
  has_end_behind n zero z = let e : zero + n ≡ n = omega arith in rw e (ground arith)
  has_end_behind n (suc d) z =
      let rest = has_end_behind n d z in
      let e : suc d + n ≡ suc (d + n) = omega arith in rw e (ground arith)

  pub copied-same : (n i : ℕ) → IsKey key n → i ≤ n → copied key i ≡ key i
  unfolding copied
  copied-same n i k h = rw (has_end_before n i k.more h) refl

  pub copied-behind : (n i : ℕ) → IsKey key n → n < i → copied key i ≡ 0
  unfolding copied
  copied-behind n i k h =
      let e : suc (i - n - 1 + n) ≡ i = omega arith in
      let end = has_end_behind n (i - n - 1) k.end in
      let at : has_end key i ≡ true = rw e at end in rw at refl

  hash_loop-copied :
      (rounds i hashval : ℕ)
      → has_end key i ≡ false
      → hash_loop (copied key) rounds i hashval ≡ hash_loop key rounds i hashval
  unfolding hash_loop copied
  hash_loop-copied zero i hashval h = refl
  hash_loop-copied (suc rounds) i hashval h = elim (Bool-cases (key i == 0)) [
    | inl end ↦ rw (h, end) refl
    | inr more ↦
        let e : suc i ≡ i + 1 = omega arith in
        let next : has_end key (suc i) ≡ false = unfold has_end in rw (h, more) refl in
        let next' : has_end key (i + 1) ≡ false = rw e at next in
        let rest =
          hash_loop-copied rounds (i + 1)
            ((hashval * 39 % 2 ^ 32 + char_value (key i)) % 2 ^ 32 % (cache_htsize - 1)) next' in
        rw (h, more) rest
  ]

  pub hash-copied : hash (copied key) ≡ hash key
  unfolding hash has_end
  hash-copied = rw (hash_loop-copied 29 0 0 refl) refl

  pub new_object-IsObject : (id n : ℕ) → IsKey key n → id < 2 ^ 32 → IsObject (new_object id key)
  unfolding new_object word
  new_object-IsObject id n k h = record {
    id = h;
    size = omega arith;
    cache_index = omega arith;
    blocknum = omega arith;
    level1 = λ j lt.
        let s = k.short in
        let b0 = copied-behind n (32 + 4 * j) k (omega arith) in
        let b1 = copied-behind n (32 + 4 * j + 1) k (omega arith) in
        let b2 = copied-behind n (32 + 4 * j + 2) k (omega arith) in
        let b3 = copied-behind n (32 + 4 * j + 3) k (omega arith) in omega (arith, b0, b1, b2, b3);
  }

-- The objects behind `insert_to_disk`: the one that was inserted, and the others.
pub stored_at-other :
    (view : ℕ → Block) (o : Object) (id : ℕ)
    → IsId o.id
    → IsId id
    → id ≢ o.id
    → SameObject (stored_at (with_object view o) id) (stored_at view id)
stored_at-other view o id is_o is_id ne = elim (Bool-cases (object_block id == object_block o.id)) [
  | inl e ↦
      let b : object_block id ≡ object_block o.id = ground arith in
      let p = places_apart id o.id is_id is_o ne b in
      let page = put_object (view (object_block o.id)) (object_place o.id) o in
      let at : with_object view o (object_block id) ≡ page = rw e refl in
      subst (λ m. SameObject (object_at m (object_place id)) (stored_at view id)) (sym at)
        (subst
          (λ m.
            SameObject (object_at page (object_place id)) (object_at (view m) (object_place id)))
          (sym b)
          (object_at-other (view (object_block o.id)) (object_place o.id) o (object_place id) p))
  | inr off ↦
      let at : with_object view o (object_block id) ≡ view (object_block id) = rw off refl in
      subst (λ m. SameObject (object_at m (object_place id)) (stored_at view id)) (sym at)
        (record {
          id = refl;
          size = refl;
          cache_index = refl;
          blocknum = refl;
          key = λ k h. refl;
          level1 = λ k h. refl;
        })
]

pub stored_at-same :
    (view : ℕ → Block) (o : Object)
    → IsObject o
    → SameObject (stored_at (with_object view o) o.id) o
stored_at-same view o valid =
    let page = put_object (view (object_block o.id)) (object_place o.id) o in
    let here : (object_block o.id == object_block o.id) ≡ true = ground arith in
    let at : with_object view o (object_block o.id) ≡ page = rw here refl in
    subst (λ m. SameObject (object_at m (object_place o.id)) o) (sym at)
      (object_at-put_object (view (object_block o.id)) (object_place o.id) o valid)
