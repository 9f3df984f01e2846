-- ===== src/Objstore/Files/Create.antt =====
-- On `create_object` and a look-up behind it in Assn4/objstore.c.
use gem_os_cs330a.Prelude.{
  ℕ, suc, ◌+◌, ◌/◌, ◌^◌, ◌<◌, ◌≤◌, ◌≡◌, ◌≢◌, refl, sym, ap, subst, ◌∙◌, true, false, ◌==◌, arith,
  List, [], ◌∷◌, ◌++◌, length, length-append, some,
}
use gem_os_cs330a.Process.{update}
use gem_os_cs330a.Objstore.{hash, add_id, insert_to_hash_table}
use gem_os_cs330a.Objstore.Bitmap.{fetch_free_id}
use gem_os_cs330a.Objstore.Bitmap.Ids.{is_used, Granted, fetch_free-nonzero}
use gem_os_cs330a.Objstore.Blocks.{Block, Device}
use gem_os_cs330a.Objstore.Objects.{Object}
use gem_os_cs330a.Objstore.Objects.Layout.{SameObject}
use gem_os_cs330a.Objstore.World.{Supply, World}
use gem_os_cs330a.Objstore.View.{SupplyLaws, IsView}
use gem_os_cs330a.Objstore.Files.{
  Files, absent, copied, new_object, find_next, add_object, create_object,
}
use gem_os_cs330a.Objstore.Files.Lookup.{
  IsId, stored_at, with_object, insert-IsView, scan_of, find_of, AreIds, IsView-weaken,
}
use gem_os_cs330a.Objstore.Files.Walk.{scan-Scanned, find-IsView}
use gem_os_cs330a.Objstore.Files.Others.{
  AllOther, AreIds-of, object_of-stored, find_of-others, scan_of-others, AllOther-kept,
}
use gem_os_cs330a.Objstore.Files.Keys.{
  IsKey, StrcmpLaws, copied-same, hash-copied, new_object-IsObject, stored_at-same,
}

-- The chain behind `create_object`: the id comes twice where there were others.
add_two : (id x y : ℕ) (chain : List ℕ) → add_id id (x ∷ y ∷ chain) ≡ (x ∷ y ∷ chain) ++ id ∷ []
unfolding add_id
add_two id x y [] = refl
add_two id x y (z ∷ chain) = ap (λ l. x ∷ l) (add_two id y z chain)

snoc_two : (id : ℕ) (l : List ℕ) → (l ++ id ∷ []) ++ id ∷ [] ≡ l ++ id ∷ id ∷ []
snoc_two id [] = refl
snoc_two id (x ∷ l) = ap (λ m. x ∷ m) (snoc_two id l)

add_id_lem :
    (id : ℕ) (chain : List ℕ)
    → IsId id
    → (rest : List ℕ) × (add_id id (chain ++ id ∷ []) ≡ chain ++ id ∷ rest)
      × (length rest ≤ 1)
      × AreIds rest
unfolding add_id
add_id_lem id [] is_id = ([], refl, omega arith, tt)
add_id_lem id (x ∷ []) is_id = (id ∷ [], refl, omega arith, (is_id, tt))
add_id_lem id (x ∷ y ∷ chain) is_id = (
  id ∷ [],
  add_two id x y (chain ++ id ∷ []) ∙ snoc_two id (x ∷ y ∷ chain),
  omega arith,
  (is_id, tt),
)

pub AreIds-append : (a b : List ℕ) → AreIds a → AreIds b → AreIds (a ++ b)
AreIds-append [] b h k = k
AreIds-append (x ∷ a) b (i, h) k = (i, AreIds-append a b h k)

append_nil : (l : List ℕ) → l ++ [] ≡ l
append_nil [] = refl
append_nil (x ∷ l) = ap (λ m. x ∷ m) (append_nil l)

table_lem :
    (id u v : ℕ) (table : ℕ → List ℕ)
    → u ≡ v
    → insert_to_hash_table id u (update table v (table v ++ id ∷ [])) v
      ≡ add_id id (table v ++ id ∷ [])
unfolding insert_to_hash_table
table_lem id u v table e = let same : (v == v) ≡ true = ground arith in rw (e, same) refl

module _ (D : Device) (S : Supply) (laws : SupplyLaws D S) (stack : Block)
    (strcmp : (ℕ → ℕ) → (ℕ → ℕ) → ℕ) (compares : StrcmpLaws strcmp) (key : ℕ → ℕ) (n : ℕ)
    (is_key : IsKey key n) (f : Files D) (view : ℕ → Block) (room : ℕ)
    (others : AllOther strcmp key view f.inode_map (f.hash_table (hash key)))
    (at : f.inode_map.itr < 2 ^ 17) (granted : (fetch_free_id f.inode_map).0 ≢ 0)
    (blocks : IsView D S
      (length (f.hash_table (hash key)) + (2 + (length (f.hash_table (hash key)) + 2 + room)))
      view
      f.world) where
  abbrev chain : List ℕ
  chain = f.hash_table (hash key)

  abbrev pub id : ℕ
  id = (fetch_free_id f.inode_map).0

  abbrev pub obj : Object
  obj = new_object id key

  pub new_id : Granted (2 ^ 20) f.inode_map (fetch_free_id f.inode_map)
  unfolding fetch_free_id
  new_id = fetch_free-nonzero (2 ^ 20 / 8) f.inode_map at granted

  pub is_id : IsId id
  is_id = (new_id.low, new_id.high)

  pub obj_id : obj.id ≡ id
  unfolding new_object
  obj_id = refl

  obj_key : obj.key ≡ copied key
  unfolding new_object
  obj_key = refl

  abbrev pub view' : ℕ → Block
  view' = with_object view obj

  abbrev table' : ℕ → List ℕ
  table' =
      insert_to_hash_table id (hash obj.key) (update f.hash_table (hash key) (chain ++ id ∷ []))

  nothing_else : scan_of strcmp key view chain ≡ absent
  nothing_else =
      subst (λ l. scan_of strcmp key view l ≡ absent) (append_nil chain)
        (scan_of-others strcmp key view f.inode_map chain [] others)

  self_lem : SameObject (stored_at view' id) obj
  unfolding new_object
  self_lem =
      stored_at-same view obj
        (new_object-IsObject key id n is_key (let h = new_id.high in omega (arith, h)))

  -- The new object has the key.
  found_rest : (rest : List ℕ) → find_of strcmp key view' (id ∷ rest) ≡ some id
  unfolding new_object
  found_rest rest =
      let same = self_lem in
      let s = object_of-stored strcmp key view' id (same.id ∙ obj_id) in
      let k = compares.ends (stored_at view' id).key key key n is_key.end (λ i le.
        same.key i (let h = is_key.short in omega (arith, h))
        ∙ (ap (λ m. m i) obj_key ∙ copied-same key n i is_key le)) in
      let d : (strcmp (stored_at view' id).key key == 0) ≡ true =
        ap (λ c. c == 0) (k ∙ compares.same key) in
      rw (s, d, find_of) refl

  create_run :
      (w : World D) × (create_object D S stack strcmp key f
        ≡ some (
          some id,
          record f { world = w; hash_table = table'; inode_map = (fetch_free_id f.inode_map).1 },
        ))
      × IsView D S (length chain + 2 + room) view' w
  unfolding create_object add_object
  create_run =
      let (w₁, scan, h₁) =
        scan-Scanned D S laws stack strcmp key view (2 + (length chain + 2 + room)) chain f.world
          (AreIds-of strcmp key view f.inode_map chain others) blocks in
      let h₂ =
        IsView-weaken D S (2 + (length chain + 2 + room)) (suc (suc (length chain + 2 + room)))
          w₁.calls view w₁ h₁ (omega arith) in
      let (w₂, insert, h₃) =
        insert-IsView D S laws stack (length chain + 2 + room) obj view w₁
          (subst IsId (sym obj_id) is_id) h₂ in
      let absent_lem = nothing_else in
      let nonzero : (id == 0) ≡ false = let g = new_id.low in ground arith in
      (w₂, rw (scan, absent_lem, nonzero, insert) refl, h₃)

  -- The globals behind the two calls, but for the blocks.
  abbrev pub after : World D → Files D
  after w = record f { world = w; hash_table = table'; inode_map = (fetch_free_id f.inode_map).1 }

  pub created :
      (w w' : World D) × (create_object D S stack strcmp key f ≡ some (some id, after w))
      × (find_next D S stack strcmp key (after w) ≡ some (some id, after w'))
      × SameObject (stored_at view' id) obj
      × IsView D S room view' w'
  created =
      let (w, run, h) = create_run in
      let f' = after w in
      let (rest, chain_is, short, ids) = add_id_lem id chain is_id in
      let table : table' (hash key) ≡ chain ++ id ∷ rest =
        table_lem id (hash obj.key) (hash key) f.hash_table (ap hash obj_key ∙ hash-copied key)
        ∙ chain_is in
      let ids' : AreIds (chain ++ id ∷ rest) =
        AreIds-append chain (id ∷ rest) (AreIds-of strcmp key view f.inode_map chain others)
          (is_id, ids) in
      let h' =
        IsView-weaken D S (length chain + 2 + room) (length (chain ++ id ∷ rest) + room) w.calls
          view' w h (omega (arith, short, length-append chain (id ∷ rest))) in
      let (w', find, h'') =
        find-IsView D S laws stack strcmp key view' room f' (subst AreIds (sym table) ids')
          (subst (λ l. IsView D S (length l + room) view' w) (sym table) h') in
      let kept =
        AllOther-kept strcmp key compares view f.inode_map obj (subst IsId (sym obj_id) is_id)
          (ap (is_used f.inode_map) obj_id ∙ new_id.unused) chain others in
      let found_lem : find_of strcmp key view' (table' (hash key)) ≡ some id =
        ap (find_of strcmp key view') table
        ∙ (find_of-others strcmp key view' f.inode_map chain (id ∷ rest) kept ∙ found_rest rest) in
      (w, w', run, find ∙ ap (λ r. some (r, after w')) found_lem, self_lem, h'')

  pub create-find :
      (f' : Files D) × (f'' : Files D) × (create_object D S stack strcmp key f ≡ some (some id, f'))
      × (find_next D S stack strcmp key f' ≡ some (some id, f''))
      × Granted (2 ^ 20) f.inode_map (id, f'.inode_map)
      × SameObject (stored_at view' id) obj
      × IsView D S room view' f''.world
  create-find =
      let (w, w', run, find, same, h) = created in (after w, after w', run, find, new_id, same, h)
