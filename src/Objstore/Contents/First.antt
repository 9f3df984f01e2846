-- ===== src/Objstore/Contents/First.antt =====
-- On the first write to an object and a read behind it in Assn4/objstore.c.
use gem_os_cs330a.Prelude.{
  ℕ, suc, ◌+◌, ◌*◌, ◌/◌, ◌%◌, ◌^◌, ◌<◌, ◌≤◌, ◌≡◌, ◌≢◌, refl, sym, ap, subst, ◌∙◌, true, false,
  arith, ◌==◌, ltb, if◌then◌else◌, Option, some,
}
use gem_os_cs330a.Process.{update}
use gem_os_cs330a.Objstore.Bitmap.{fetch_free_block}
use gem_os_cs330a.Objstore.Bitmap.Ids.{is_used}
use gem_os_cs330a.Objstore.Blocks.{Block, Device}
use gem_os_cs330a.Objstore.Objects.{Object, word, word_byte}
use gem_os_cs330a.Objstore.Objects.Layout.{SameObject, IsObject}
use gem_os_cs330a.Objstore.Objects.Stored.{object_block}
use gem_os_cs330a.Objstore.World.{Supply, World}
use gem_os_cs330a.Objstore.View.{SupplyLaws, IsView}
use gem_os_cs330a.Objstore.View.Access.{access-IsView}
use gem_os_cs330a.Objstore.Files.{Files, get_next}
use gem_os_cs330a.Objstore.Files.Lookup.{
  IsId, stored_at, object_of, with_object, object_block_bound, get-IsView, insert-IsView,
  IsView-weaken,
}
use gem_os_cs330a.Objstore.Files.Keys.{stored_at-same}
use gem_os_cs330a.Objstore.Contents.Grants.{block_behind, second_behind, blocks_apart}
use gem_os_cs330a.Objstore.Contents.{
  finished, level_of, opens, put_word, copy_bytes, zeros, grow, new_size, append, write_begun,
  write_grown, find_write_cached, objstore_write, objstore_read,
}
use gem_os_cs330a.Objstore.Contents.Over.{write_over}
use gem_os_cs330a.Objstore.Contents.Rounds.{entry, filled_page, copied_byte, objstore_read-rounds}

word-put_word : (b : Block) (x : ℕ) → x < 2 ^ 32 → word (put_word b 0 x) 0 ≡ x
unfolding word put_word word_byte
word-put_word b x lt = omega arith

-- The next word.
word-next : (b : Block) (x : ℕ) → word (put_word b 0 x) 4 ≡ word b 4
unfolding word put_word
word-next b x = refl

-- The object behind its first write.
abbrev pub first_written : Object → (size new_block : ℕ) → Object
first_written o size new_block = record o {
  size = size;
  blocknum = 2;
  level1 = update o.level1 0 new_block;
}

module _ (D : Device) (S : Supply) (stack : Block) (laws : SupplyLaws D S) (objid size offset : ℕ)
    (buf : Block) (view : ℕ → Block) (f : Files D) (room : ℕ) (is_id : IsId objid)
    (stored : (stored_at view objid).id ≡ objid) (valid : IsObject (stored_at view objid))
    (empty : (stored_at view objid).blocknum ≡ 0) (short : size ≤ 2 ^ 12) (inside : offset < 2 ^ 12)
    (at : f.block_map.itr < 2 ^ 20) (reserved : (k : ℕ) → k < 17696 → is_used f.block_map k ≡ true)
    (granted : (fetch_free_block f.block_map).0 ≢ 0)
    (granted' : (fetch_free_block (fetch_free_block f.block_map).1).0 ≢ 0)
    (low : (fetch_free_block f.block_map).0 < 2 ^ 15)
    (low' : (fetch_free_block (fetch_free_block f.block_map).1).0 < 2 ^ 15)
    (blocks : IsView D S (9 + room) view f.world) where
  abbrev table : ℕ
  table = (fetch_free_block f.block_map).0

  abbrev content : ℕ
  content = (fetch_free_block (fetch_free_block f.block_map).1).0

  abbrev o : Object
  o = stored_at view objid

  abbrev o' : Object
  o' = first_written o size table

  abbrev view₁ : ℕ → Block
  view₁ = update view table (put_word (view table) 0 content)

  abbrev view₂ : ℕ → Block
  view₂ = update view₁ content (copy_bytes buf size 0 zeros)

  abbrev view' : ℕ → Block
  view' = with_object view₂ o'

  append-IsView :
      (w : World D)
      → IsView D S (7 + room) view w
      → (w' : World D) × (append D S stack 0 size buf
            (view table)
            (record o { level1 = update o.level1 0 table })
            (record f { world = w; block_map = (fetch_free_block f.block_map).1 })
          ≡ some (
            some size,
            record f {
              world = w';
              block_map = (fetch_free_block (fetch_free_block f.block_map).1).1;
            },
          ))
        × IsView D S (3 + room) view' w'
  unfolding append new_size
  append-IsView w h =
      let start = IsView-weaken D S (7 + room) (suc (6 + room)) w.calls view w h (omega arith) in
      let (_, (w₁, run₁, h₁)) =
        access-IsView D S laws (6 + room) table view zeros w start low
          (put_word (view table) 0 content) in
      let next = IsView-weaken D S (6 + room) (suc (5 + room)) w₁.calls view₁ w₁ h₁ (omega arith) in
      let (_, (w₂, run₂, h₂)) =
        access-IsView D S laws (5 + room) content view₁ zeros w₁ next low'
          (copy_bytes buf size 0 zeros) in
      let last =
        IsView-weaken D S (5 + room) (suc (suc (3 + room))) w₂.calls view₂ w₂ h₂ (omega arith) in
      let (w₃, run₃, h₃) =
        insert-IsView D S laws stack (3 + room) o' view₂ w₂ (subst IsId (sym stored) is_id) last in
      let fits : ltb (2 ^ 12) size ≡ false = ground arith in
      (w₃, rw (empty, run₁, run₂, run₃, fits) refl, h₃)

  o_stored : object_of view objid ≡ some o
  o_stored = let e : ((stored_at view objid).id == objid) ≡ true = ground arith in rw e refl

  -- The maps and the outcome of the write.
  abbrev written : World D → Option (Option ℕ × Files D)
  written w = some (
    some size,
    record f { world = w; block_map = (fetch_free_block (fetch_free_block f.block_map).1).1 },
  )

  abbrev o₁ : Object
  o₁ = record o { level1 = update o.level1 0 table }

  abbrev taken : World D → Files D
  taken w = record f { world = w; block_map = (fetch_free_block f.block_map).1 }

  first_block : offset / 2 ^ 12 ≡ 0
  first_block = omega arith

  grow_table :
      (w : World D)
      → grow D S stack (o.blocknum == 0) 0 o (record f { world = w }) ≡ (some o₁, taken w)
  unfolding grow
  grow_table w =
      let zero_blocks : (o.blocknum == 0) ≡ true = ap (λ b. b == 0) empty in
      let some_block : (table == 0) ≡ false = ground arith in rw (zero_blocks, some_block) refl

  grow_nothing :
      (w : World D)
      → grow D S stack
          (opens (offset / 2 ^ 12) o₁.blocknum)
          (level_of (offset / 2 ^ 12))
          o₁
          (taken w)
        ≡ (some o₁, taken w)
  unfolding grow opens
  grow_nothing w = let n = first_block in rw n refl

  level_zero : level_of (offset / 2 ^ 12) ≡ 0
  unfolding level_of
  level_zero = let n = first_block in rw n refl

  find_write-IsView :
      (w : World D)
      → IsView D S (8 + room) view w
      → (w' : World D) × (find_write_cached D S stack o buf size offset (record f { world = w })
          ≡ written w')
        × IsView D S (3 + room) view' w'
  unfolding find_write_cached write_begun write_grown
  find_write-IsView w h =
      let next = IsView-weaken D S (8 + room) (suc (7 + room)) w.calls view w h (omega arith) in
      let ((r, w₁, run, h₁), _) =
        access-IsView D S laws (7 + room) table view zeros w next low zeros in
      let (w₂, run', h₂) = append-IsView w₁ h₁ in
      let n = first_block in
      let level = level_zero in
      let grown = grow_table w in
      let kept = grow_nothing w in
      let positive : ltb size (2 ^ 31) ≡ true = ground arith in
      let behind : ltb 0 o.blocknum ≡ false = ap (λ b. ltb 0 b) empty in
      (w₂, rw (positive, grown, kept, level, run, n, behind) run', h₂)

  write-IsView :
      (w' : World D) × (objstore_write D S stack objid buf size offset f ≡ written w')
      × IsView D S (3 + room) view' w'
  unfolding objstore_write get_next
  write-IsView =
      let start =
        IsView-weaken D S (9 + room) (suc (8 + room)) f.world.calls view f.world blocks
          (omega arith) in
      let (s', get, h₁) = get-IsView D S laws stack (8 + room) objid view f.world is_id start in
      let (w₂, run, h₂) = find_write-IsView (record { store = s'; calls = f.world.calls + 1 }) h₁ in
      let is_o = o_stored in
      let big : ltb objid 2 ≡ false = let b = is_id.0 in ground arith in
      let off : offset % 2 ^ 32 ≡ offset = omega arith in (w₂, rw (get, is_o, big, off) run, h₂)

  behind_table : 17696 ≤ table
  behind_table = block_behind f.block_map at reserved granted

  behind_content : 17696 ≤ content
  behind_content = second_behind f.block_map at reserved granted granted'

  apart : content ≢ table
  apart = blocks_apart f.block_map at reserved granted granted'

  before : object_block o.id < 17696
  before = object_block_bound o.id (subst IsId (sym stored) is_id)

  others : (v : ℕ) → v ≢ table → v ≢ content → v ≢ object_block o.id → view' v ≡ view v
  others v a b c = ground arith

  table_here : view' table ≡ put_word (view table) 0 content
  table_here = let a = behind_table in let b = before in let c = apart in ground arith

  content_here : view' content ≡ copy_bytes buf size 0 zeros
  content_here = let a = behind_content in let b = before in ground arith

  here : SameObject (stored_at view' objid) o'
  here =
      subst (λ i. SameObject (stored_at view' i) o') stored
        (stored_at-same view₂ o' (record {
          id = valid.id;
          size = omega arith;
          cache_index = valid.cache_index;
          blocknum = omega arith;
          level1 = λ k lt. let l = valid.level1 k lt in ground arith;
        }))

  -- The object that a read gets, its table and its page.
  abbrev q : Object
  q = stored_at view' objid

  q_stored : object_of view' objid ≡ some q
  q_stored =
      let e : ((stored_at view' objid).id == objid) ≡ true = let h = here.id in ground arith in
      rw e refl

  q_table : (at : ℕ) → at < 2 ^ 12 → q.level1 (level_of (at / 2 ^ 12)) ≡ table
  unfolding level_of
  q_table at lt = let n : at / 2 ^ 12 ≡ 0 = omega arith in rw n (here.level1 0 (omega arith))

  q_entry : (at : ℕ) → at < 2 ^ 12 → entry view' q (at / 2 ^ 12) ≡ content
  q_entry at lt =
      let n : 4 * (at / 2 ^ 12 % 1024) ≡ 0 = omega arith in
      ap (λ b. word (view' b) (4 * (at / 2 ^ 12 % 1024))) (q_table at lt)
      ∙ (ap (word (view' table)) n
          ∙ (ap (λ b. word b 0) table_here ∙ word-put_word (view table) content (omega arith)))

  pub write-read :
      (at : ℕ) (any : Block)
      → at < 2 ^ 12
      → (f' : Files D) × (out : Block) × (w : World D) × (objstore_write D S stack objid buf size
            offset f
          ≡ some (some size, f'))
        × SameObject (stored_at view' objid) o'
        × ((v : ℕ) → v ≢ table → v ≢ content → v ≢ object_block objid → view' v ≡ view v)
        × (objstore_read D S stack 1 objid any (2 ^ 12) at f'.world ≡ some (finished, out, w))
        × ((k : ℕ) → k < 2 ^ 12 → out (at + k) ≡ (if ltb k size then buf k else 0))
        × IsView D S room view' w
  write-read at any lt =
      let (w, run, h) = write-IsView in
      let begins : at / 2 ^ 12 ≤ q.blocknum = omega arith in
      let h' = IsView-weaken D S (3 + room) (1 + (1 * 2 + room)) w.calls view' w h (omega arith) in
      let (out, w', run', filled_lem, h'') =
        objstore_read-rounds D S stack laws view' q at begins
          (subst (λ b. b < 2 ^ 15) (sym (q_table at lt)) low)
          (subst (λ b. b < 2 ^ 15) (sym (q_entry at lt)) low') 1 objid room any w is_id q_stored
          (omega arith) h' in
      let page = ap view' (q_entry at lt) ∙ content_here in
      (
        record f { world = w; block_map = (fetch_free_block (fetch_free_block f.block_map).1).1 },
        out,
        w',
        run,
        here,
        (λ v a b c. others v a b (λ e. c (e ∙ ap object_block stored))),
        run',
        (λ k lt'.
            filled_lem (at + k)
            ∙ (filled_page (view' (entry view' q (at / 2 ^ 12))) any at k lt'
                ∙ (ap (λ b. b k) page ∙ copied_byte buf size k))),
        h'',
      )

  -- A write to the second block of the object, behind the first one.
  module _ (size' offset' : ℕ) (buf' : Block) (above : 2 ^ 12 ≤ offset') (below : offset' < 2 ^ 13)
      (short' : size' ≤ 2 ^ 12) (unset : word (view table) 4 < 2 ^ 15) where
    q_level : q.level1 0 ≡ table
    q_level = here.level1 0 (omega arith)

    q_second : entry view' q (offset' / 2 ^ 12) ≡ word (view table) 4
    unfolding level_of
    q_second =
        let n : offset' / 2 ^ 12 ≡ 1 = omega arith in
        let level = q_level in rw (n, level, table_here) (word-next (view table) content)

    pub write-second :
        (f' : Files D) × (f'' : Files D) × (objstore_write D S stack objid buf size offset f
          ≡ some (some size, f'))
        × (objstore_write D S stack objid buf' size' offset' f' ≡ some (some size', f''))
        × (f''.block_map ≡ f'.block_map)
        × IsView D S room
            (update view' (word (view table) 4) (copy_bytes buf' size' 0 zeros))
            f''.world
    write-second =
        let (w, run, h) = write-IsView in
        let f' : Files D = record f {
          world = w;
          block_map = (fetch_free_block (fetch_free_block f.block_map).1).1;
        } in
        let b = here.blocknum in
        let (w', run', h') =
          write_over D S stack laws objid size' offset' buf' view' q f' is_id q_stored
            (omega (arith, b)) (omega arith) short' (subst (λ l. l < 2 ^ 15) (sym q_level) low)
            (subst (λ l. l < 2 ^ 15) (sym q_second) unset) room h in
        (
          f',
          record f' { world = w' },
          run,
          run',
          refl,
          subst (λ v. IsView D S room (update view' v (copy_bytes buf' size' 0 zeros)) w') q_second
              h',
        )
