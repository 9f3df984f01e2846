-- ===== src/Objstore/Bitmap/Scan.antt =====
-- On the loops of the bitmap functions in Assn4/objstore.c: what they find, and when they find nothing.
use gem_os_cs330a.Prelude.{
  ℕ, zero, suc, ◌+◌, ◌-◌, ◌%◌, ◌^◌, ◌<◌, ◌≤◌, ◌≡◌, inl, inr, Bool, true, false, not, ◌&&◌, ◌||◌,
  Option, none, some, ◌==◌, ltb, arith, if◌then◌else◌, bit_and, digit, bit_and-pow, Bool-cases,
}
use native.Mathlib.Nat.{mod-eq_of_lt, mod-lt}
use gem_os_cs330a.Objstore.Bitmap.{scan_byte, scan_map}

-- Bit `j` of byte `index` may be handed out.
abbrev pub is_open : (byte index j : ℕ) → Bool
is_open byte index j = not (index == 0 && (j == 0 || j == 1)) && digit byte j == 0

-- The outcome of the inner loop over bits `j` to `j + rounds - 1`.
abbrev pub ByteFound : (byte index rounds j : ℕ) → Option ℕ → Type 0
ByteFound byte index rounds j none = (k : ℕ) → j ≤ k → k < j + rounds → is_open byte index k ≡ false
ByteFound byte index rounds j (some k) = (j ≤ k) × (k < j + rounds) × (is_open byte index k ≡ true)

module _ (byte index : ℕ) where
  byte_step :
      (j : ℕ) (rest : Option ℕ)
      → (if index == 0 && (j == 0 || j == 1)
          then rest
          else if bit_and byte (2 ^ j) == 0
          then some j
          else rest)
        ≡ (if is_open byte index j then some j else rest)
  byte_step j rest = rw bit_and-pow (ground arith)

  byte_later :
      (rounds j : ℕ) (r : Option ℕ)
      → is_open byte index j ≡ false
      → ByteFound byte index rounds (j + 1) r
      → ByteFound byte index (suc rounds) j r
  byte_later rounds j none h f = λ k lo hi. elim (Bool-cases (k == j)) [
    | inl here ↦ let e : k ≡ j = ground arith in rw e h
    | inr later ↦ f k (ground arith) (omega arith)
  ]
  byte_later rounds j (some k) h (lo, hi, o) = (omega arith, omega arith, o)

  pub scan_byte_lem : (rounds j : ℕ) → ByteFound byte index rounds j (scan_byte byte index rounds j)
  unfolding scan_byte
  scan_byte_lem zero j = λ k lo hi. absurd (omega arith)
  scan_byte_lem (suc rounds) j =
      rw (byte_step j (scan_byte byte index rounds (j + 1)))
        (elim (Bool-cases (is_open byte index j)) [
          | inl h ↦ rw h (omega arith, omega arith, h)
          | inr h ↦ rw h (
              byte_later rounds j (scan_byte byte index rounds (j + 1)) h
                (scan_byte_lem rounds (j + 1)))
        ])

-- The outcome of the outer loop over `rounds` bytes from `i` on.
abbrev pub MapFound : (map : ℕ → ℕ) (bytes rounds i : ℕ) → Option (ℕ × ℕ) → Type 0
MapFound map bytes rounds i none =
    (k j : ℕ) → k < rounds → j < 8 → is_open (map ((i + k) % bytes)) ((i + k) % bytes) j ≡ false
MapFound map bytes rounds i (some (index, j)) =
    (index < bytes) × (j < 8) × (is_open (map index) index j ≡ true)

module _ (map : ℕ → ℕ) (bytes : ℕ) (some_bytes : 0 < bytes) where
  map_shift :
      (rounds i : ℕ)
      → ((j : ℕ) → j < 8 → is_open (map (i % bytes)) (i % bytes) j ≡ false)
      → MapFound map bytes rounds (i + 1) none
      → MapFound map bytes (suc rounds) i none
  map_shift rounds i h f zero j lt small = let e : i + 0 ≡ i = omega arith in rw e (h j small)
  map_shift rounds i h f (suc k) j lt small =
      let e : i + suc k ≡ i + 1 + k = omega arith in rw e (f k j (omega arith) small)

  map_later :
      (rounds i : ℕ) (r : Option (ℕ × ℕ))
      → ((j : ℕ) → j < 8 → is_open (map (i % bytes)) (i % bytes) j ≡ false)
      → MapFound map bytes rounds (i + 1) r
      → MapFound map bytes (suc rounds) i r
  map_later rounds i none h f = map_shift rounds i h f
  map_later rounds i (some x) h f = f

  map_here :
      (rounds i : ℕ) (o : Option ℕ)
      → ByteFound (map (i % bytes)) (i % bytes) 8 0 o
      → MapFound map bytes rounds (i + 1) (scan_map map bytes rounds (i + 1))
      → MapFound map bytes
          (suc rounds)
          i
          (elim o [ some j ↦ some (i % bytes, j) | none ↦ scan_map map bytes rounds (i + 1) ])
  map_here rounds i none f rest =
      map_later rounds i (scan_map map bytes rounds (i + 1))
        (λ j lt. f j (omega arith) (omega arith)) rest
  map_here rounds i (some j) (lo, hi, o) rest = (mod-lt i some_bytes, omega arith, o)

  scan_map_lem : (rounds i : ℕ) → MapFound map bytes rounds i (scan_map map bytes rounds i)
  unfolding scan_map
  scan_map_lem zero i = λ k j lt small. absurd (omega arith)
  scan_map_lem (suc rounds) i =
      map_here rounds i (scan_byte (map (i % bytes)) (i % bytes) 8 0)
        (scan_byte_lem (map (i % bytes)) (i % bytes) 8 0) (scan_map_lem rounds (i + 1))

  -- A turn of `bytes` rounds comes to every byte.
  turn :
      (i index : ℕ) → i < bytes → index < bytes → (k : ℕ) × (k < bytes) × ((i + k) % bytes ≡ index)
  turn i index hi h = elim (Bool-cases (ltb index i)) [
    | inl below ↦
        let e : i + (bytes - i + index) ≡ index + bytes = ground arith in
        (bytes - i + index, ground arith, rw e (grind arith))
    | inr above ↦
        let e : i + (index - i) ≡ index = ground arith in
        (index - i, ground arith, rw e (mod-eq_of_lt h))
  ]

  pub scan_all :
      (i index j : ℕ)
      → i < bytes
      → scan_map map bytes bytes i ≡ none
      → index < bytes
      → j < 8
      → is_open (map index) index j ≡ false
  scan_all i index j hi h lt small =
      let (k, less, at) = turn i index hi lt in
      let found = scan_map_lem bytes i in
      let f : MapFound map bytes bytes i none = rw h at found in rw (← at) (f k j less small)

  pub scan_some :
      (i index j : ℕ)
      → scan_map map bytes bytes i ≡ some (index, j)
      → (index < bytes) × (j < 8) × (is_open (map index) index j ≡ true)
  scan_some i index j h = let f = scan_map_lem bytes i in rw h at f
