-- ===== src/Objstore/Objects/Layout.antt =====
-- On arrays of `struct object` in Assn4/objstore.c: an object that is put into a block is found there.
use gem_os_cs330a.Prelude.{
  ℕ, ◌+◌, ◌-◌, ◌*◌, ◌/◌, ◌%◌, ◌^◌, ◌<◌, ◌≡◌, ◌≢◌, refl, ap, sym, ◌∙◌, true, false, ◌==◌, ltb, arith,
}
use gem_os_cs330a.Objstore.Blocks.{Block}
use gem_os_cs330a.Objstore.Objects.{Object, word, word_byte, object_byte, object_at, put_object}

-- The fields of two objects agree, the arrays within their bounds.
pub record SameObject (o o' : Object) : Type 0 where
  pub id : o.id ≡ o'.id
  pub size : o.size ≡ o'.size
  pub cache_index : o.cache_index ≡ o'.cache_index
  pub blocknum : o.blocknum ≡ o'.blocknum
  pub key : (k : ℕ) → k < 32 → o.key k ≡ o'.key k
  pub level1 : (k : ℕ) → k < 4 → o.level1 k ≡ o'.level1 k

-- The words of an object have 32 bits.
pub record IsObject (o : Object) : Type 0 where
  pub id : o.id < 2 ^ 32
  pub size : o.size < 2 ^ 32
  pub cache_index : o.cache_index < 2 ^ 32
  pub blocknum : o.blocknum < 2 ^ 32
  pub level1 : (k : ℕ) → k < 4 → o.level1 k < 2 ^ 32

-- The words of an object with the same fields have 32 bits too.
pub SameObject-IsObject : (o o' : Object) → SameObject o o' → IsObject o' → IsObject o
SameObject-IsObject o o' same valid = record {
  id = let e = same.id in let h = valid.id in omega (arith, e, h);
  size = let e = same.size in let h = valid.size in omega (arith, e, h);
  cache_index = let e = same.cache_index in let h = valid.cache_index in omega (arith, e, h);
  blocknum = let e = same.blocknum in let h = valid.blocknum in omega (arith, e, h);
  level1 = λ k lt. let e = same.level1 k lt in let h = valid.level1 k lt in omega (arith, e, h);
}

module _ (b : Block) (i : ℕ) (o : Object) where
  put_byte : (n j : ℕ) → n ≡ i * 64 + j → j < 64 → put_object b i o n ≡ object_byte o j
  unfolding put_object
  put_byte n j e h =
      let here : (n / 64 == i) ≡ true = ground arith in
      let at : n % 64 ≡ j = omega arith in rw (here, at) refl

  put_other : (n m j : ℕ) → n ≡ m * 64 + j → j < 64 → m ≢ i → put_object b i o n ≡ b n
  unfolding put_object
  put_other n m j e h ne = let off : (n / 64 == i) ≡ false = ground arith in rw off refl

  word_put :
      (j w : ℕ)
      → j + 3 < 64
      → w < 2 ^ 32
      → object_byte o j ≡ w % 2 ^ 8
      → object_byte o (j + 1) ≡ w / 2 ^ 8 % 2 ^ 8
      → object_byte o (j + 2) ≡ w / 2 ^ 16 % 2 ^ 8
      → object_byte o (j + 3) ≡ w / 2 ^ 24 % 2 ^ 8
      → word (put_object b i o) (i * 64 + j) ≡ w
  unfolding word
  word_put j w h bound e0 e1 e2 e3 = omega (
    arith,
    put_byte (i * 64 + j) j (omega arith) (omega arith),
    put_byte (i * 64 + j + 1) (j + 1) (omega arith) (omega arith),
    put_byte (i * 64 + j + 2) (j + 2) (omega arith) (omega arith),
    put_byte (i * 64 + j + 3) (j + 3) (omega arith) (omega arith),
  )

  module _ (valid : IsObject o) where
    level1_put : (k : ℕ) → k < 4 → word (put_object b i o) (i * 64 + (48 + 4 * k)) ≡ o.level1 k
    unfolding object_byte word_byte
    level1_put k h =
        let at : (n : ℕ) → n < 4 → object_byte o (48 + 4 * k + n) ≡ word_byte (o.level1 k) n =
          λ n l.
            let d : (48 + 4 * k + n - 48) / 4 ≡ k = omega arith in
            let m : (48 + 4 * k + n - 48) % 4 ≡ n = omega arith in
            let far : ltb (48 + 4 * k + n) 48 ≡ false = ground arith in
            let a : ltb (48 + 4 * k + n) 4 ≡ false = ground arith in
            let b : ltb (48 + 4 * k + n) 8 ≡ false = ground arith in
            let c : ltb (48 + 4 * k + n) 12 ≡ false = ground arith in
            let e : ltb (48 + 4 * k + n) 16 ≡ false = ground arith in
            rw (a, b, c, e, far, d, m) refl in
        let zero_off : 48 + 4 * k + 0 ≡ 48 + 4 * k = omega arith in
        word_put (48 + 4 * k) (o.level1 k) (omega arith) (valid.level1 k h)
          (ap (object_byte o) (sym zero_off) ∙ (at 0 (omega arith) ∙ omega arith))
          (at 1 (omega arith)) (at 2 (omega arith)) (at 3 (omega arith))

    pub object_at-put_object : SameObject (object_at (put_object b i o) i) o
    unfolding object_at object_byte word_byte
    object_at-put_object = record {
      id =
          let e : i * 64 ≡ i * 64 + 0 = omega arith in
          ap (word (put_object b i o)) e
          ∙ word_put 0 o.id (omega arith) valid.id (omega arith) refl refl refl;
      size = word_put 4 o.size (omega arith) valid.size (omega arith) refl refl refl;
      cache_index =
          word_put 8 o.cache_index (omega arith) valid.cache_index (omega arith) refl refl refl;
      blocknum = word_put 12 o.blocknum (omega arith) valid.blocknum (omega arith) refl refl refl;
      key = λ k h.
          put_byte (i * 64 + 16 + k) (16 + k) (omega arith) (omega arith)
          ∙ (let e : 16 + k - 16 ≡ k = omega arith in
              let a : ltb (16 + k) 4 ≡ false = ground arith in
              let b : ltb (16 + k) 8 ≡ false = ground arith in
              let c : ltb (16 + k) 12 ≡ false = ground arith in
              let d : ltb (16 + k) 16 ≡ false = ground arith in
              let f : ltb (16 + k) 48 ≡ true = ground arith in rw (a, b, c, d, f, e) refl);
      level1 = λ k h.
          let e : i * 64 + 48 + 4 * k ≡ i * 64 + (48 + 4 * k) = omega arith in
          ap (word (put_object b i o)) e ∙ level1_put k h;
    }

  -- The objects at other places.
  word_other :
      (m n j : ℕ) → n ≡ m * 64 + j → j + 3 < 64 → m ≢ i → word (put_object b i o) n ≡ word b n
  unfolding word
  word_other m n j e h ne = omega (
    arith,
    put_other n m j (omega arith) (omega arith) ne,
    put_other (n + 1) m (j + 1) (omega arith) (omega arith) ne,
    put_other (n + 2) m (j + 2) (omega arith) (omega arith) ne,
    put_other (n + 3) m (j + 3) (omega arith) (omega arith) ne,
  )

  pub object_at-other :
      (m : ℕ) → m ≢ i → SameObject (object_at (put_object b i o) m) (object_at b m)
  unfolding object_at
  object_at-other m ne = record {
    id = word_other m (m * 64) 0 (omega arith) (omega arith) ne;
    size = word_other m (m * 64 + 4) 4 (omega arith) (omega arith) ne;
    cache_index = word_other m (m * 64 + 8) 8 (omega arith) (omega arith) ne;
    blocknum = word_other m (m * 64 + 12) 12 (omega arith) (omega arith) ne;
    key = λ k h. put_other (m * 64 + 16 + k) m (16 + k) (omega arith) (omega arith) ne;
    level1 = λ k h. word_other m (m * 64 + 48 + 4 * k) (48 + 4 * k) (omega arith) (omega arith) ne;
  }
