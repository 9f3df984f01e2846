-- ===== src/Objstore/Contents/Over.antt =====
-- On writes to blocks that an object has in Assn4/objstore.c.
use gem_os_cs330a.Prelude.{
  ℕ, suc, ◌+◌, ◌*◌, ◌/◌, ◌%◌, ◌^◌, ◌<◌, ◌≤◌, ◌≡◌, ◌≢◌, refl, sym, ap, subst, ◌∙◌, true, false,
  arith, ◌==◌, ltb, if◌then◌else◌, some,
}
use gem_os_cs330a.Process.{update}
use gem_os_cs330a.Objstore.Blocks.{Block, Device}
use gem_os_cs330a.Objstore.Objects.{Object, word}
use gem_os_cs330a.Objstore.Objects.Stored.{object_block}
use gem_os_cs330a.Objstore.World.{Supply, World}
use gem_os_cs330a.Objstore.View.{SupplyLaws, IsView}
use gem_os_cs330a.Objstore.View.Access.{access-IsView}
use gem_os_cs330a.Objstore.Files.{Files, get_next}
use gem_os_cs330a.Objstore.Files.Lookup.{IsId, object_of, get-IsView, IsView-weaken}
use gem_os_cs330a.Objstore.Contents.{
  finished, level_of, opens, copy_bytes, zeros, grow, overwrite, write_begun, write_grown,
  find_write_cached, objstore_write, objstore_read,
}
use gem_os_cs330a.Objstore.Contents.Rounds.{entry, filled_page, copied_byte, objstore_read-rounds}

module _ (D : Device) (S : Supply) (stack : Block) (laws : SupplyLaws D S) (objid size offset : ℕ)
    (buf : Block) (view : ℕ → Block) (o : Object) (f : Files D) (is_id : IsId objid)
    (stored : object_of view objid ≡ some o) (within : offset / 2 ^ 12 < o.blocknum)
    (first_level : offset / 2 ^ 12 < 1024) (short : size ≤ 2 ^ 12) (low : o.level1 0 < 2 ^ 15)
    (low' : entry view o (offset / 2 ^ 12) < 2 ^ 15) where
  abbrev n : ℕ
  n = offset / 2 ^ 12

  abbrev pub over : ℕ → Block
  over = update view (entry view o n) (copy_bytes buf size 0 zeros)

  level_zero : level_of n ≡ 0
  unfolding level_of
  level_zero = let e : ltb n 1024 ≡ true = ground arith in rw e refl

  closed : opens n o.blocknum ≡ false
  unfolding opens
  closed = let e : ltb n 1024 ≡ true = ground arith in rw e refl

  grow_nothing : (i : ℕ) (f' : Files D) → grow D S stack false i o f' ≡ (some o, f')
  unfolding grow
  grow_nothing i f' = refl

  begun : (f' : Files D) → grow D S stack (o.blocknum == 0) 0 o f' ≡ (some o, f')
  begun f' = let e : (o.blocknum == 0) ≡ false = ground arith in rw e (grow_nothing 0 f')

  grown : (f' : Files D) → grow D S stack (opens n o.blocknum) (level_of n) o f' ≡ (some o, f')
  grown f' = let e = closed in rw e (grow_nothing (level_of n) f')

  pub write_over :
      (room : ℕ)
      → IsView D S (3 + room) view f.world
      → (w : World D) × (objstore_write D S stack objid buf size offset f
          ≡ some (some size, record f { world = w }))
        × IsView D S room over w
  unfolding objstore_write find_write_cached write_begun write_grown overwrite get_next
  write_over room h =
      let start =
        IsView-weaken D S (3 + room) (suc (2 + room)) f.world.calls view f.world h (omega arith) in
      let (s', get, h₁) = get-IsView D S laws stack (2 + room) objid view f.world is_id start in
      let w₁ : World D = record { store = s'; calls = f.world.calls + 1 } in
      let next = IsView-weaken D S (2 + room) (suc (1 + room)) w₁.calls view w₁ h₁ (omega arith) in
      let level = level_zero in
      let ((r, w₂, run, h₂), _) =
        access-IsView D S laws (1 + room) (o.level1 (level_of n)) view zeros w₁ next
          (subst (λ l. o.level1 l < 2 ^ 15) (sym level) low) zeros in
      let last = IsView-weaken D S (1 + room) (suc room) w₂.calls view w₂ h₂ (omega arith) in
      let (_, (w₃, run', h₃)) =
        access-IsView D S laws room (entry view o n) view zeros w₂ last low'
          (copy_bytes buf size 0 zeros) in
      let begins = begun (record f { world = w₁ }) in
      let grows = grown (record f { world = w₁ }) in
      let big : ltb objid 2 ≡ false = let b = is_id.0 in ground arith in
      let off : offset % 2 ^ 32 ≡ offset = omega arith in
      let positive : ltb size (2 ^ 31) ≡ true = ground arith in
      let inside : ltb n o.blocknum ≡ true = ground arith in
      let fits : ltb (2 ^ 12) size ≡ false = ground arith in
      (w₃, rw (get, stored, big, off, positive, begins, grows, run, inside, run', fits) refl, h₃)

  module _ (apart : entry view o n ≢ o.level1 0) (away : entry view o n ≢ object_block objid) where
    over_stored : object_of over objid ≡ some o
    over_stored =
        let here : over (object_block objid) ≡ view (object_block objid) = ground arith in
        rw here stored

    over_entry : entry over o n ≡ entry view o n
    over_entry =
        let level = ap o.level1 level_zero in
        let same : over (o.level1 (level_of n)) ≡ view (o.level1 (level_of n)) = ground arith in
        ap (λ b. word b (4 * (n % 1024))) same

    page_here : over (entry over o n) ≡ copy_bytes buf size 0 zeros
    page_here = ap over over_entry ∙ (ground arith)

    pub over-read :
        (room at : ℕ) (any : Block)
        → at / 2 ^ 12 ≡ offset / 2 ^ 12
        → IsView D S (6 + room) view f.world
        → (f' : Files D) × (out : Block) × (w : World D) × (objstore_write D S stack objid buf size
              offset f
            ≡ some (some size, f'))
          × (f'.block_map ≡ f.block_map)
          × (objstore_read D S stack 1 objid any (2 ^ 12) at f'.world ≡ some (finished, out, w))
          × ((k : ℕ) → k < 2 ^ 12 → out (at + k) ≡ (if ltb k size then buf k else 0))
          × IsView D S room over w
    over-read room at any same h =
        let start =
          IsView-weaken D S (6 + room) (3 + (3 + room)) f.world.calls view f.world h
            (omega arith) in
        let (w, run, h₁) = write_over (3 + room) start in
        let h₂ =
          IsView-weaken D S (3 + room) (1 + (1 * 2 + room)) w.calls over w h₁ (omega arith) in
        let begins : at / 2 ^ 12 ≤ o.blocknum = omega arith in
        let entry_lem : entry over o (at / 2 ^ 12) ≡ entry view o n =
          ap (entry over o) same ∙ over_entry in
        let (out, w', run', filled_lem, h₃) =
          objstore_read-rounds D S stack laws over o at begins
            (subst (λ l. o.level1 l < 2 ^ 15) (sym (ap level_of same ∙ level_zero)) low)
            (subst (λ b. b < 2 ^ 15) (sym entry_lem) low') 1 objid room any w is_id over_stored
            (omega arith) h₂ in
        let page = ap (λ b. over b) (ap (entry over o) same) ∙ page_here in
        (
          record f { world = w },
          out,
          w',
          run,
          refl,
          run',
          (λ k lt.
              filled_lem (at + k)
              ∙ (filled_page (over (entry over o (at / 2 ^ 12))) any at k lt
                  ∙ (ap (λ b. b k) page ∙ copied_byte buf size k))),
          h₃,
        )
