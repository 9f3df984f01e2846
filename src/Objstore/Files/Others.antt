-- ===== src/Objstore/Files/Others.antt =====
-- On the objects of a chain of the hash table in Assn4/objstore.c that have other keys than the one looked for.
use gem_os_cs330a.Prelude.{
  ℕ, ◌<◌, ◌≡◌, refl, ap, ◌∙◌, true, false, ◌==◌, arith, List, [], ◌∷◌, ◌++◌, some,
}
use gem_os_cs330a.Objstore.Bitmap.{Bitmap}
use gem_os_cs330a.Objstore.Bitmap.Ids.{is_used}
use gem_os_cs330a.Objstore.Blocks.{Block}
use gem_os_cs330a.Objstore.Objects.{Object}
use gem_os_cs330a.Objstore.Files.Lookup.{
  IsId, stored_at, object_of, with_object, scan_of, find_of, AreIds,
}
use gem_os_cs330a.Objstore.Files.Keys.{StrcmpLaws, stored_at-other}

-- The object of an id is on the disk and has another key.
pub record IsOther (strcmp : (ℕ → ℕ) → (ℕ → ℕ) → ℕ) (key : ℕ → ℕ) (view : ℕ → Block) (map : Bitmap)
    (id : ℕ) : Type 0 where
  pub is_id : IsId id
  pub used : is_used map id ≡ true
  pub stored : (stored_at view id).id ≡ id
  pub n : ℕ
  pub short : n < 32
  pub end : (stored_at view id).key n ≡ 0
  pub differs : (strcmp (stored_at view id).key key == 0) ≡ false

module _ (strcmp : (ℕ → ℕ) → (ℕ → ℕ) → ℕ) (key : ℕ → ℕ) where
  abbrev pub AllOther : (ℕ → Block) → Bitmap → List ℕ → Type 0
  AllOther view map [] = Unit
  AllOther view map (id ∷ chain) = IsOther strcmp key view map id × AllOther view map chain

  pub AreIds-of :
      (view : ℕ → Block) (map : Bitmap) (chain : List ℕ) → AllOther view map chain → AreIds chain
  AreIds-of view map [] h = tt
  AreIds-of view map (id ∷ chain) (o, h) = (o.is_id, AreIds-of view map chain h)

  pub object_of-stored :
      (view : ℕ → Block) (id : ℕ)
      → (stored_at view id).id ≡ id
      → object_of view id ≡ some (stored_at view id)
  object_of-stored view id h =
      let e : ((stored_at view id).id == id) ≡ true = ground arith in rw e refl

  pub find_of-others :
      (view : ℕ → Block) (map : Bitmap) (chain rest : List ℕ)
      → AllOther view map chain
      → find_of strcmp key view (chain ++ rest) ≡ find_of strcmp key view rest
  find_of-others view map [] rest h = refl
  find_of-others view map (id ∷ chain) rest (o, h) =
      let next = find_of-others view map chain rest h in
      let s = object_of-stored view id o.stored in let d = o.differs in rw (s, d, find_of) next

  pub scan_of-others :
      (view : ℕ → Block) (map : Bitmap) (chain rest : List ℕ)
      → AllOther view map chain
      → scan_of strcmp key view (chain ++ rest) ≡ scan_of strcmp key view rest
  scan_of-others view map [] rest h = refl
  scan_of-others view map (id ∷ chain) rest (o, h) =
      let next = scan_of-others view map chain rest h in
      let s = object_of-stored view id o.stored in let d = o.differs in rw (s, d, scan_of) next

  module _ (laws : StrcmpLaws strcmp) (view : ℕ → Block) (map : Bitmap) (o : Object)
      (is_o : IsId o.id) (unused : is_used map o.id ≡ false) where
    IsOther-kept :
        (id : ℕ) → IsOther strcmp key view map id → IsOther strcmp key (with_object view o) map id
    IsOther-kept id h =
        let used = h.used in
        let same = stored_at-other view o id is_o h.is_id (λ e. absurd (cc)) in
        record {
          is_id = h.is_id;
          used = h.used;
          stored = same.id ∙ h.stored;
          n = h.n;
          short = h.short;
          end = same.key h.n h.short ∙ h.end;
          differs =
              ap (λ c. c == 0)
                (laws.ends (stored_at (with_object view o) id).key (stored_at view id).key key h.n
                  h.end (λ i le. same.key i (let s = h.short in omega (arith, s))))
              ∙ h.differs;
        }

    pub AllOther-kept :
        (chain : List ℕ) → AllOther view map chain → AllOther (with_object view o) map chain
    AllOther-kept [] h = tt
    AllOther-kept (id ∷ chain) (a, h) = (IsOther-kept id a, AllOther-kept chain h)
