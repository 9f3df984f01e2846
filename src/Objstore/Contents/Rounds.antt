-- ===== src/Objstore/Contents/Rounds.antt =====
-- On `objstore_read` in Assn4/objstore.c: what the rounds of its loop read, and when it ends.
use gem_os_cs330a.Prelude.{
  ℕ, zero, suc, ◌+◌, ◌-◌, ◌*◌, ◌/◌, ◌%◌, ◌^◌, ◌<◌, ◌≤◌, ◌≡◌, ◌≢◌, refl, sym, ap, ◌∙◌, Bool, true,
  false, arith, ◌==◌, ltb, if◌then◌else◌, Option, none, some, Bool-cases, Option-cases, inl, inr,
}
use gem_os_cs330a.Objstore.Blocks.{Block, Device}
use gem_os_cs330a.Objstore.Objects.{Object, word}
use gem_os_cs330a.Objstore.World.{Supply, World}
use gem_os_cs330a.Objstore.View.{SupplyLaws, IsView}
use gem_os_cs330a.Objstore.View.Access.{access-IsView}
use gem_os_cs330a.Objstore.Files.{get_next}
use gem_os_cs330a.Objstore.Files.Lookup.{IsId, object_of, get-IsView, IsView-weaken}
use gem_os_cs330a.Objstore.Contents.{
  ReadEnd, unfinished, failed, finished, level_of, copy_bytes, zeros, find_read_cached, read_loop,
  objstore_read,
}

-- The pages of a buffer from `at` on, each the same.
abbrev pub filled : (page : Block) (rounds at : ℕ) → Block → Block
filled page rounds at buf k =
    if ltb k at
    then buf k
    else if ltb (k - at) (rounds * 2 ^ 12)
    then page ((k - at) % 2 ^ 12)
    else buf k

-- The block that holds block `n` of an object.
abbrev pub entry : (ℕ → Block) → Object → (n : ℕ) → ℕ
entry view o n = word (view (o.level1 (level_of n))) (4 * (n % 1024))

pub filled_page :
    (page any : Block) (at k : ℕ) → k < 2 ^ 12 → filled page 1 at any (at + k) ≡ page k
filled_page page any at k lt =
    let low : ltb (at + k) at ≡ false = ground arith in
    let high : ltb (at + k - at) (1 * 2 ^ 12) ≡ true = ground arith in
    let place : (at + k - at) % 2 ^ 12 ≡ k = omega arith in rw (low, high) (ap page place)

pub copied_byte :
    (buf : Block) (size k : ℕ) → copy_bytes buf size 0 zeros k ≡ (if ltb k size then buf k else 0)
unfolding copy_bytes
copied_byte buf size k =
    let low : ltb k 0 ≡ false = ground arith in
    let same : k - 0 ≡ k = omega arith in rw (low, same) refl

filled_zero : (page : Block) (at k : ℕ) (buf : Block) → filled page 0 at buf k ≡ buf k
filled_zero page at k buf = ground arith

filled-suc :
    (page buffer : Block) (rounds at k : ℕ) (buf : Block)
    → filled page rounds
        (at + 2 ^ 12)
        (copy_bytes (copy_bytes page (2 ^ 12) 0 buffer) (2 ^ 12) at buf)
        k
      ≡ filled page (suc rounds) at buf k
unfolding copy_bytes
filled-suc page buffer rounds at k buf = elim (Bool-cases (ltb k at)) [
  | inl low ↦ let a : ltb k (at + 2 ^ 12) ≡ true = ground arith in rw (low, a) refl
  | inr high ↦ elim (Bool-cases (ltb k (at + 2 ^ 12))) [
    | inl here ↦
        let inner : ltb (k - at) (2 ^ 12) ≡ true = ground arith in
        let outer : ltb (k - at) (suc rounds * 2 ^ 12) ≡ true = ground arith in
        let low : ltb (k - at) 0 ≡ false = ground arith in
        let same : k - at - 0 ≡ (k - at) % 2 ^ 12 = ground arith in
        let again : ltb (k - at - 0) (2 ^ 12) ≡ true = ground arith in
        rw (here, high, inner, outer, low, again) (ap page same)
    | inr behind ↦
        let inner : ltb (k - at) (2 ^ 12) ≡ false = ground arith in
        let same : ltb (k - (at + 2 ^ 12)) (rounds * 2 ^ 12) ≡ ltb (k - at) (suc rounds * 2 ^ 12) =
          ground arith in
        let place : (k - (at + 2 ^ 12)) % 2 ^ 12 ≡ (k - at) % 2 ^ 12 = ground arith in
        rw (behind, high, inner, same, place) refl
  ]
]

-- The loop came to its end.
abbrev pub is_finished : {D : Device} → Option (ReadEnd × Block × World D) → Bool
is_finished none = false
is_finished (some (unfinished, buf, w)) = false
is_finished (some (failed, buf, w)) = false
is_finished (some (finished, buf, w)) = true

module _ (D : Device) (S : Supply) (stack : Block) where
  -- Each round takes a block off `sizecheck`, so 0 is reached from multiples of a block only.
  loop_other :
      (rounds : ℕ) (o : Object) (buffer : Block) (sizecheck offcheck offset : ℕ) (buf : Block)
      (w : World D)
      → sizecheck % 2 ^ 12 ≢ 0
      → is_finished (read_loop D S stack rounds o buffer sizecheck offcheck offset buf w) ≡ false
  unfolding read_loop
  loop_other zero o buffer sizecheck offcheck offset buf w h =
      let e : (sizecheck == 0) ≡ false = ground arith in rw e refl
  loop_other (suc rounds) o buffer sizecheck offcheck offset buf w h =
      let e : (sizecheck == 0) ≡ false = ground arith in
      let next : (sizecheck + 2 ^ 32 - 2 ^ 12) % 2 ^ 32 % 2 ^ 12 ≢ 0 = λ z. h (omega (arith, z)) in
      let part = if ltb (2 ^ 12) sizecheck then 2 ^ 12 else sizecheck in
      elim (Option-cases (find_read_cached D S stack o buffer part offset w)) [
        | inl k ↦ rw (e, k) refl
        | inr ((got, w'), k) ↦ elim (Option-cases got) [
          | inl g ↦ rw (e, k, g) refl
          | inr (buffer', g) ↦
              let rest =
                loop_other rounds o buffer' ((sizecheck + 2 ^ 32 - 2 ^ 12) % 2 ^ 32)
                  ((offcheck + 2 ^ 12) % 2 ^ 32) offset (copy_bytes buffer' part offcheck buf) w'
                  next in
              rw (e, k, g) rest
        ]
      ]

  -- The loop of objstore_read does not come to its end, within any number of rounds, for a 32-bit
  -- size that is not a multiple of 4096.
  pub read-other :
      (rounds objid : ℕ) (buf : Block) (size offset : ℕ) (w : World D)
      → size < 2 ^ 32
      → size % 2 ^ 12 ≢ 0
      → is_finished (objstore_read D S stack rounds objid buf size offset w) ≡ false
  unfolding objstore_read
  read-other rounds objid buf size offset w lt h =
      elim (Option-cases (get_next D S stack objid w)) [
        | inl k ↦ rw k refl
        | inr ((obj, w'), k) ↦ elim (Option-cases obj) [
          | inl g ↦ rw (k, g) refl
          | inr (o, g) ↦ elim (Bool-cases (ltb objid 2)) [
            | inl low ↦ rw (k, g, low) refl
            | inr high ↦
                let rest =
                  loop_other rounds o stack size (offset % 2 ^ 32) (offset % 2 ^ 32) buf w' h in
                rw (k, g, high) rest
          ]
        ]
      ]

  module _ (laws : SupplyLaws D S) (view : ℕ → Block) (o : Object) (offset : ℕ)
      (begins : offset / 2 ^ 12 ≤ o.blocknum)
      (table : o.level1 (level_of (offset / 2 ^ 12)) < 2 ^ 15)
      (here : entry view o (offset / 2 ^ 12) < 2 ^ 15) where
    abbrev page : Block
    page = view (entry view o (offset / 2 ^ 12))

    find_read-IsView :
        (room size : ℕ) (user_buf : Block) (w : World D)
        → IsView D S (suc (suc room)) view w
        → (w' : World D) × (find_read_cached D S stack o user_buf size offset w
            ≡ some (some (copy_bytes page size 0 user_buf), w'))
          × IsView D S room view w'
    unfolding find_read_cached
    find_read-IsView room size user_buf w h =
        let level = o.level1 (level_of (offset / 2 ^ 12)) in
        let ((r, w₁, run, h₁), unused) =
          access-IsView D S laws (suc room) level view zeros w h table zeros in
        let ((r', w₂, run', h₂), unused') =
          access-IsView D S laws room (entry view o (offset / 2 ^ 12)) view zeros w₁ h₁ here
            zeros in
        let e : ltb o.blocknum (offset / 2 ^ 12) ≡ false = ground arith in
        (w₂, rw (e, run, run') refl, h₂)

    read_loop-IsView :
        (rounds room offcheck : ℕ) (buffer buf : Block) (w : World D)
        → offcheck + rounds * 2 ^ 12 < 2 ^ 32
        → IsView D S (rounds * 2 + room) view w
        → (out : Block) × (w' : World D) × (read_loop D S stack rounds o buffer
              (rounds * 2 ^ 12)
              offcheck
              offset
              buf
              w
            ≡ some (finished, out, w'))
          × ((k : ℕ) → out k ≡ filled page rounds offcheck buf k)
          × IsView D S room view w'
    unfolding read_loop
    read_loop-IsView zero room offcheck buffer buf w lt h = (
      buf,
      w,
      refl,
      (λ k. sym (filled_zero page offcheck k buf)),
      IsView-weaken D S (0 * 2 + room) room w.calls view w h (omega arith),
    )
    read_loop-IsView (suc rounds) room offcheck buffer buf w lt h =
        let (w₁, run, h₁) = find_read-IsView (rounds * 2 + room) (2 ^ 12) buffer w (
          IsView-weaken D S (suc rounds * 2 + room) (suc (suc (rounds * 2 + room))) w.calls view w h
            (omega arith)) in
        let buffer' = copy_bytes page (2 ^ 12) 0 buffer in
        let buf' = copy_bytes buffer' (2 ^ 12) offcheck buf in
        let (out, w₂, rest, same, h₂) =
          read_loop-IsView rounds room (offcheck + 2 ^ 12) buffer' buf' w₁ (omega arith) h₁ in
        let off : (offcheck + 2 ^ 12) % 2 ^ 32 ≡ offcheck + 2 ^ 12 = omega arith in
        let more : (suc rounds * 2 ^ 12 == 0) ≡ false = ground arith in
        let left : (suc rounds * 2 ^ 12 + 2 ^ 32 - 2 ^ 12) % 2 ^ 32 ≡ rounds * 2 ^ 12 =
          omega arith in
        let part : (if ltb (2 ^ 12) (suc rounds * 2 ^ 12) then 2 ^ 12 else suc rounds * 2 ^ 12)
            ≡ 2 ^ 12 =
          ground arith in
        (
          out,
          w₂,
          rw (more, part, run, part, off, left) rest,
          (λ k. same k ∙ filled-suc page buffer rounds offcheck k buf),
          h₂,
        )

    pub objstore_read-rounds :
        (rounds objid room : ℕ) (buf : Block) (w : World D)
        → IsId objid
        → object_of view objid ≡ some o
        → offset + rounds * 2 ^ 12 < 2 ^ 32
        → IsView D S (1 + (rounds * 2 + room)) view w
        → (out : Block) × (w' : World D) × (objstore_read D S stack rounds objid buf
              (rounds * 2 ^ 12)
              offset
              w
            ≡ some (finished, out, w'))
          × ((k : ℕ) → out k ≡ filled page rounds offset buf k)
          × IsView D S room view w'
    unfolding objstore_read get_next
    objstore_read-rounds rounds objid room buf w is_id stored lt h =
        let (s', get, h₁) = get-IsView D S laws stack (rounds * 2 + room) objid view w is_id (
          IsView-weaken D S (1 + (rounds * 2 + room)) (suc (rounds * 2 + room)) w.calls view w h
            (omega arith)) in
        let w₁ : World D = record { store = s'; calls = w.calls + 1 } in
        let (out, w₂, run, same, h₂) = read_loop-IsView rounds room offset stack buf w₁ lt h₁ in
        let low : ltb objid 2 ≡ false = let b = is_id.0 in ground arith in
        let off : offset % 2 ^ 32 ≡ offset = omega arith in
        (out, w₂, rw (get, stored, low, off) run, same, h₂)
