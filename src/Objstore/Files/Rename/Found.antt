-- ===== src/Objstore/Files/Rename/Found.antt =====
-- On `rename_object` and look-ups behind it in Assn4/objstore.c.
use gem_os_cs330a.Prelude.{
  ℕ, suc, ◌+◌, ◌<◌, ◌≤◌, ◌≡◌, ◌≢◌, refl, sym, ap, subst, ◌∙◌, true, false, ltb, ◌==◌, arith,
  if◌then◌else◌, List, [], ◌∷◌, ◌++◌, length, length-append, some,
}
use gem_os_cs330a.Process.{update}
use gem_os_cs330a.Objstore.{hash, add_id, insert_to_hash_table}
use gem_os_cs330a.Objstore.Bitmap.{Bitmap}
use gem_os_cs330a.Objstore.Bitmap.Ids.{is_used}
use gem_os_cs330a.Objstore.Blocks.{Block, Device}
use gem_os_cs330a.Objstore.Objects.{Object}
use gem_os_cs330a.Objstore.Objects.Layout.{SameObject, IsObject}
use gem_os_cs330a.Objstore.World.{Supply, World}
use gem_os_cs330a.Objstore.View.{SupplyLaws, IsView}
use gem_os_cs330a.Objstore.Files.{Files, find_next, get_next}
use gem_os_cs330a.Objstore.Files.Lookup.{
  IsId, stored_at, with_object, get-IsView, insert-IsView, find_of, AreIds, IsView-weaken,
}
use gem_os_cs330a.Objstore.Files.Walk.{find-IsView}
use gem_os_cs330a.Objstore.Files.Keys.{IsKey, StrcmpLaws, stored_at-same}
use gem_os_cs330a.Objstore.Files.Others.{
  AllOther, AreIds-of, object_of-stored, find_of-others, AllOther-kept,
}
use gem_os_cs330a.Objstore.Files.Create.{AreIds-append}
use gem_os_cs330a.Objstore.Files.Rename.{remove_at, rename_found, rename_first, rename_object}

-- The chain that gets the id: behind two nodes and more, the id is at its end, and otherwise alone.
abbrev kept_nodes : List ℕ → List ℕ
kept_nodes [] = []
kept_nodes (x ∷ []) = []
kept_nodes (x ∷ y ∷ chain) = x ∷ y ∷ chain

snoc_two : (id x y : ℕ) (chain : List ℕ) → add_id id (x ∷ y ∷ chain) ≡ x ∷ y ∷ chain ++ id ∷ []
unfolding add_id
snoc_two id x y [] = refl
snoc_two id x y (z ∷ chain) = ap (λ l. x ∷ l) (snoc_two id y z chain)

add_id-kept : (id : ℕ) (chain : List ℕ) → add_id id chain ≡ kept_nodes chain ++ id ∷ []
unfolding add_id
add_id-kept id [] = refl
add_id-kept id (x ∷ []) = refl
add_id-kept id (x ∷ y ∷ chain) = snoc_two id x y chain

kept_length : (chain : List ℕ) → length (kept_nodes chain) ≤ length chain
kept_length [] = omega arith
kept_length (x ∷ []) = omega arith
kept_length (x ∷ y ∷ chain) = omega arith

module _ (D : Device) (S : Supply) (laws : SupplyLaws D S) (stack : Block)
    (strcmp : (ℕ → ℕ) → (ℕ → ℕ) → ℕ) (compares : StrcmpLaws strcmp) (key newname : ℕ → ℕ) (n : ℕ)
    (is_key : IsKey newname n) (f : Files D) (view : ℕ → Block) (map : Bitmap) (id room : ℕ)
    (behind : List ℕ) (at : f.hash_table (hash key) ≡ id ∷ behind) (is_id : IsId id)
    (stored : (stored_at view id).id ≡ id) (valid : IsObject (stored_at view id))
    (same : strcmp (stored_at view id).key key ≡ 0) (apart : hash newname ≢ hash key)
    (unused : is_used map id ≡ false)
    (others : AllOther strcmp newname view map (f.hash_table (hash newname)))
    (blocks : IsView D S (length (f.hash_table (hash newname)) + 4 + room) view f.world) where
  abbrev chain : List ℕ
  chain = f.hash_table (hash newname)

  abbrev o : Object
  o = stored_at view id

  abbrev o' : Object
  o' = record o { key = λ k. if ltb k 32 then newname k else o.key k }

  abbrev view' : ℕ → Block
  view' = with_object view o'

  abbrev inserted : ℕ → List ℕ
  inserted = insert_to_hash_table o.id (hash newname) f.hash_table

  abbrev table' : ℕ → List ℕ
  table' = update inserted (hash key) (remove_at 0 (inserted (hash key)))

  abbrev after : World D → Files D
  after w = record f { world = w; hash_table = table' }

  first_renamed :
      (w : World D) × (rename_first D S stack strcmp key newname (id ∷ behind) f
        ≡ some (true, after w))
      × IsView D S (length chain + 1 + room) view' w
  unfolding rename_first rename_found get_next
  first_renamed =
      let start =
        IsView-weaken D S (length chain + 4 + room) (suc (suc (suc (length chain + 1 + room))))
          f.world.calls view f.world blocks (omega arith) in
      let (s', get, h₁) =
        get-IsView D S laws stack (suc (suc (length chain + 1 + room))) id view f.world is_id
          start in
      let w₁ : World D = record { store = s'; calls = f.world.calls + 1 } in
      let (w₂, insert, h₂) =
        insert-IsView D S laws stack (length chain + 1 + room) o' view w₁
          (subst IsId (sym stored) is_id) h₁ in
      let here = object_of-stored strcmp key view id stored in
      let equal : (strcmp o.key key == 0) ≡ true = ap (λ c. c == 0) same in
      let nonzero : (id == 0) ≡ false = let lo = is_id.0 in ground arith in
      (w₂, rw (get, here, nonzero, equal, insert) refl, h₂)

  new_chain : table' (hash newname) ≡ kept_nodes chain ++ id ∷ []
  unfolding insert_to_hash_table
  new_chain =
      let here : (hash newname == hash newname) ≡ true = ground arith in
      let off : (hash newname == hash key) ≡ false = ground arith in
      rw (off, here) (ap (λ i. add_id i chain) stored ∙ add_id-kept id chain)

  old_chain : table' (hash key) ≡ behind
  unfolding insert_to_hash_table remove_at
  old_chain =
      let here : (hash key == hash key) ≡ true = ground arith in
      let off : (hash key == hash newname) ≡ false = ground arith in rw (here, off, at) refl

  object_here : SameObject (stored_at view' id) o'
  object_here =
      subst (λ i. SameObject (stored_at view' i) o') stored
        (stored_at-same view o' (record {
          id = valid.id;
          size = valid.size;
          cache_index = valid.cache_index;
          blocknum = valid.blocknum;
          level1 = valid.level1;
        }))

  found_new : find_of strcmp newname view' (id ∷ []) ≡ some id
  found_new =
      let h = object_here in
      let s = object_of-stored strcmp newname view' id (h.id ∙ stored) in
      let k = compares.ends (stored_at view' id).key newname newname n is_key.end (λ i le.
        let lt : i < 32 = let b = is_key.short in omega (arith, b) in
        let short : ltb i 32 ≡ true = ground arith in h.key i lt ∙ rw short refl) in
      let d : (strcmp (stored_at view' id).key newname == 0) ≡ true =
        ap (λ c. c == 0) (k ∙ compares.same newname) in
      rw (s, d, find_of) refl

  AllOther-kept_nodes :
      (l : List ℕ)
      → AllOther strcmp newname view map l
      → AllOther strcmp newname view map (kept_nodes l)
  AllOther-kept_nodes [] h = tt
  AllOther-kept_nodes (x ∷ []) h = tt
  AllOther-kept_nodes (x ∷ y ∷ l) h = h

  pub rename-find :
      (f' : Files D) × (f'' : Files D) × (rename_object D S stack strcmp key newname f
        ≡ some (true, f'))
      × (find_next D S stack strcmp newname f' ≡ some (some id, f''))
      × (f'.hash_table (hash key) ≡ behind)
      × SameObject (stored_at view' id) o'
      × IsView D S room view' f''.world
  unfolding rename_object
  rename-find =
      let (w, run, h) = first_renamed in
      let before = AllOther-kept_nodes chain others in
      let ids : AreIds (kept_nodes chain ++ id ∷ []) =
        AreIds-append (kept_nodes chain) (id ∷ [])
          (AreIds-of strcmp newname view map (kept_nodes chain) before) (is_id, tt) in
      let h' =
        IsView-weaken D S (length chain + 1 + room) (length (kept_nodes chain ++ id ∷ []) + room)
          w.calls view' w h
          (omega (arith, kept_length chain, length-append (kept_nodes chain) (id ∷ []))) in
      let (w', find, h'') =
        find-IsView D S laws stack strcmp newname view' room (after w)
          (subst AreIds (sym new_chain) ids)
          (subst (λ l. IsView D S (length l + room) view' w) (sym new_chain) h') in
      let kept =
        AllOther-kept strcmp newname compares view map o' (subst IsId (sym stored) is_id)
          (ap (is_used map) stored ∙ unused) (kept_nodes chain) before in
      let found_lem : find_of strcmp newname view' (table' (hash newname)) ≡ some id =
        ap (find_of strcmp newname view') new_chain
        ∙ (find_of-others strcmp newname view' map (kept_nodes chain) (id ∷ []) kept ∙ found_new) in
      (
        after w,
        after w',
        ap (λ l. rename_first D S stack strcmp key newname l f) at ∙ run,
        find ∙ ap (λ r. some (r, after w')) found_lem,
        old_chain,
        object_here,
        h'',
      )
