-- ===== src/Objstore/Files/Destroy.antt =====
-- On `destroy_object` in Assn4/objstore.c.
use gem_os_cs330a.Prelude.{
  ℕ, ◌+◌, ◌≡◌, ◌≢◌, refl, sym, ap, ◌∙◌, true, false, ◌==◌, arith, List, [], ◌∷◌, ◌++◌, length, some,
  Bool-cases, inl, inr,
}
use gem_os_cs330a.Process.{update}
use gem_os_cs330a.Objstore.{hash}
use gem_os_cs330a.Objstore.Bitmap.{free_inode_id}
use gem_os_cs330a.Objstore.Bitmap.Ids.{is_used, clear_bit-used}
use gem_os_cs330a.Objstore.Blocks.{Block, Device}
use gem_os_cs330a.Objstore.World.{Supply}
use gem_os_cs330a.Objstore.View.{SupplyLaws, IsView}
use gem_os_cs330a.Objstore.Files.{Files, found, free_hashobj, remove_object_cached, destroy_object}
use gem_os_cs330a.Objstore.Files.Lookup.{stored_at, scan_of, AreIds}
use gem_os_cs330a.Objstore.Files.Walk.{scan-Scanned}
use gem_os_cs330a.Objstore.Files.Others.{IsOther, AllOther, object_of-stored, scan_of-others}

module _ (D : Device) (S : Supply) (laws : SupplyLaws D S) (stack : Block)
    (strcmp : (ℕ → ℕ) → (ℕ → ℕ) → ℕ) (key : ℕ → ℕ) (f : Files D) (view : ℕ → Block) (id room : ℕ)
    (before behind : List ℕ) (left : ℕ → List ℕ → List ℕ)
    (at : f.hash_table (hash key) ≡ before ++ id ∷ behind)
    (others : AllOther strcmp key view f.inode_map before) (ids : AreIds (f.hash_table (hash key)))
    (stored : (stored_at view id).id ≡ id) (same : strcmp (stored_at view id).key key ≡ 0)
    (empty : (stored_at view id).blocknum ≡ 0)
    (blocks : IsView D S (length (f.hash_table (hash key)) + room) view f.world) where
  equal : (strcmp (stored_at view id).key key == 0) ≡ true
  equal = ap (λ c. c == 0) same

  scanned : scan_of strcmp key view (f.hash_table (hash key)) ≡ found (stored_at view id)
  scanned =
      ap (scan_of strcmp key view) at
      ∙ (scan_of-others strcmp key view f.inode_map before (id ∷ behind) others
          ∙ (let s = object_of-stored strcmp key view id stored in
              let e = equal in rw (s, e, scan_of) refl))

  -- The node of the object is the first with its id.
  before_ne : (j : ℕ) → IsOther strcmp key view f.inode_map j → (j == id) ≡ false
  before_ne j o = elim (Bool-cases (j == id)) [
    | inl e ↦
        let k : j ≡ id = ground arith in
        let d = o.differs in
        let other : (strcmp (stored_at view id).key key == 0) ≡ false =
          ap (λ n. strcmp (stored_at view n).key key == 0) (sym k) ∙ d in
        absurd (cc equal)
    | inr off ↦ off
  ]

  freed_lem :
      (l : List ℕ)
      → AllOther strcmp key view f.inode_map l
      → free_hashobj left id (l ++ id ∷ behind) ≡ l ++ left id behind
  unfolding free_hashobj
  freed_lem [] h = let e : (id == id) ≡ true = ground arith in rw e refl
  freed_lem (j ∷ l) (o, h) = rw (before_ne j o, freed_lem l h) refl

  pub destroy_object_lem :
      (f' : Files D) × (destroy_object D S stack strcmp left key f ≡ some (true, f'))
      × (is_used f'.inode_map id ≡ false)
      × ((k : ℕ) → k ≢ id → is_used f'.inode_map k ≡ is_used f.inode_map k)
      × (f'.hash_table (hash key) ≡ before ++ left id behind)
      × ((i : ℕ) → i ≢ hash key → f'.hash_table i ≡ f.hash_table i)
      × IsView D S room view f'.world
  unfolding destroy_object remove_object_cached free_inode_id
  destroy_object_lem =
      let chain = f.hash_table (hash key) in
      let (w, scan, h) =
        scan-Scanned D S laws stack strcmp key view room chain f.world ids blocks in
      let is_found = scanned in
      let none_left : ((stored_at view id).blocknum == 0) ≡ true = ap (λ n. n == 0) empty in
      let f' : Files D = record f {
        world = w;
        inode_map = free_inode_id id f.inode_map;
        hash_table = update f.hash_table (hash key) (free_hashobj left id chain);
      } in
      (
        f',
        rw (scan, is_found, none_left, stored) refl,
        clear_bit-used id id f.inode_map ∙ (ground arith),
        (λ k ne. clear_bit-used id k f.inode_map ∙ (ground arith)),
        (let here : (hash key == hash key) ≡ true = ground arith in
            rw here (ap (free_hashobj left id) at ∙ freed_lem before others)),
        (λ i ne. ground arith),
        h,
      )
