-- ===== src/Mem/Map.antt =====
-- On the repeated blocks of Assn1/context_mm.c and Assn2/entry.c: the three levels of tables, and a
-- page below them.
use gem_os_cs330a.Prelude.{
  ℕ, ◌+◌, ◌^◌, ◌<◌, ◌≤◌, ◌≡◌, ◌≢◌, refl, sym, ap, ◌∙◌, inl, inr, none, some, arith, List, [], ◌∷◌,
  length, shl,
}
use gem_os_cs330a.Mem.{
  os_pt_reg, user_reg, Phys, Pfns, PfnLaws, pte_pfn, table_entry, table_path, map_page, offset_l4,
  offset_l3, offset_l2, offset_l1,
}
use gem_os_cs330a.Mem.Walk.{walk, walk_root_lem, l1_path, page_path}
use gem_os_cs330a.Mem.Rights.{
  may_write, allows, all_allow, is_writable, all_allow-present, all_allow-same, is_writable-kept,
  entered-allows, entered_still,
}
use gem_os_cs330a.Mem.Entry.{IsSound, IsFlags, table_entry_lem}

-- The tables of `va` are there, and no page was mapped or unmapped.
pub record Tabled {P : Pfns} (L : PfnLaws P) (pgd flags va : ℕ) (s : Phys P.Pool)
    (r : ℕ × Phys P.Pool) : Type 0 where
  pub entry : ℕ
  pub at : walk r.1.mem pgd (l1_path va) ≡ some entry
  pub frame : pte_pfn entry ≡ r.0
  pub pages : (q : List ℕ) → length q ≡ 4 → walk r.1.mem pgd q ≡ walk s.mem pgd q
  pub allowed :
      (q : List ℕ)
      → length q ≤ 4
      → allows (may_write flags) (walk r.1.mem pgd q) ≡ allows (may_write flags) (walk s.mem pgd q)
  pub still :
      (q : List ℕ) (x : ℕ) → length q ≤ 4 → walk s.mem pgd q ≡ some x → walk r.1.mem pgd q ≡ some x
  pub beside :
      (q : List ℕ)
      → length q ≤ 4
      → q ≢ offset_l4 va ∷ []
      → q ≢ offset_l3 va ∷ offset_l4 va ∷ []
      → q ≢ l1_path va
      → walk r.1.mem pgd q ≡ walk s.mem pgd q
  pub sound : IsSound L pgd r.1
  pub spent : L.available s.pool ≤ L.available r.1.pool + 3

-- The page of `va` is mapped: by the entry it had, or by a new one with the flags. No other page
-- was mapped, unmapped or moved. It may be written if the entries that were there on the way to it
-- allow that, and the flags where there was none; the rights of the other pages stay.
pub record Mapped {P : Pfns} (L : PfnLaws P) (pgd flags va : ℕ) (s : Phys P.Pool)
    (r : ℕ × Phys P.Pool) : Type 0 where
  pub entry : ℕ
  pub at : walk r.1.mem pgd (page_path va) ≡ some entry
  pub frame : pte_pfn entry ≡ r.0
  pub kept : (x : ℕ) → walk s.mem pgd (page_path va) ≡ some x → entry ≡ x
  pub made : walk s.mem pgd (page_path va) ≡ none → entry ≡ shl r.0 0xc + flags
  pub others :
      (q : List ℕ) → length q ≡ 4 → q ≢ page_path va → walk r.1.mem pgd q ≡ walk s.mem pgd q
  pub allowed :
      (q : List ℕ)
      → length q ≤ 4
      → allows (may_write flags) (walk r.1.mem pgd q) ≡ allows (may_write flags) (walk s.mem pgd q)
  pub still :
      (q : List ℕ) (x : ℕ) → length q ≤ 4 → walk s.mem pgd q ≡ some x → walk r.1.mem pgd q ≡ some x
  pub beside :
      (q : List ℕ)
      → length q ≤ 4
      → q ≢ offset_l4 va ∷ []
      → q ≢ offset_l3 va ∷ offset_l4 va ∷ []
      → q ≢ l1_path va
      → q ≢ page_path va
      → walk r.1.mem pgd q ≡ walk s.mem pgd q
  pub writable :
      is_writable r.1.mem pgd (page_path va) ≡ all_allow (may_write flags) s.mem pgd (page_path va)
  pub other_rights :
      (q : List ℕ) (x : ℕ)
      → length q ≡ 4
      → walk s.mem pgd q ≡ some x
      → is_writable r.1.mem pgd q ≡ is_writable s.mem pgd q
  pub sound : IsSound L pgd r.1
  pub spent : L.available s.pool ≤ L.available r.1.pool + 4

shorter : (p q : List ℕ) → length q ≡ 4 → length p ≤ 3 → q ≢ p
shorter p q h k e = absurd (omega (arith, ap (length {0}) e))

module _ {P : Pfns} (L : PfnLaws P) (pgd flags va : ℕ) (s : Phys P.Pool) (small : pgd < 2 ^ 20)
    (sound : IsSound L pgd s) (ok : IsFlags flags) where
  pub table_path_lem :
      3 ≤ L.available s.pool → Tabled L pgd flags va s (table_path P flags pgd va s)
  unfolding table_path
  table_path_lem room =
      let e₁ =
        table_entry_lem L pgd flags pgd (offset_l4 va) (shl pgd 0xc) [] s sound
          (walk_root_lem s.mem pgd) (omega arith) (omega arith) ok (omega arith) os_pt_reg
          (inl refl) in
      let r₁ = table_entry P os_pt_reg flags pgd (offset_l4 va) s in
      let e₂ =
        table_entry_lem L pgd flags r₁.0 (offset_l3 va) e₁.entry (offset_l4 va ∷ []) r₁.1 e₁.sound
          e₁.at e₁.frame (omega arith) ok (omega (arith, e₁.spent)) os_pt_reg (inl refl) in
      let r₂ = table_entry P os_pt_reg flags r₁.0 (offset_l3 va) r₁.1 in
      let e₃ =
        table_entry_lem L pgd flags r₂.0 (offset_l2 va) e₂.entry (offset_l3 va ∷ offset_l4 va ∷ [])
          r₂.1 e₂.sound e₂.at e₂.frame (omega arith) ok (omega (arith, e₁.spent, e₂.spent))
          os_pt_reg (inl refl) in
      let l4 = offset_l4 va ∷ [] in
      let l3 = offset_l3 va ∷ offset_l4 va ∷ [] in
      let l2 = l1_path va in
      let r₃ = table_path P flags pgd va s in
      record {
        entry = e₃.entry;
        at = e₃.at;
        frame = e₃.frame;
        pages = λ q h.
            e₃.others q (omega arith) (shorter _ q h (omega arith))
            ∙ (e₂.others q (omega arith) (shorter _ q h (omega arith))
                ∙ e₁.others q (omega arith) (shorter _ q h (omega arith)));
        allowed = λ q le.
            entered-allows L pgd flags l2 r₂.1 r₃ ok e₃ q le
            ∙ (entered-allows L pgd flags l3 r₁.1 r₂ ok e₂ q le
                ∙ entered-allows L pgd flags l4 s r₁ ok e₁ q le);
        still = λ q x le w. entered_still L pgd flags l2 r₂.1 r₃ ok e₃ q x le (
            entered_still L pgd flags l3 r₁.1 r₂ ok e₂ q x le
              (entered_still L pgd flags l4 s r₁ ok e₁ q x le w));
        beside = λ q le a b c. e₃.others q le c ∙ (e₂.others q le b ∙ e₁.others q le a);
        sound = e₃.sound;
        spent = omega (arith, e₁.spent, e₂.spent, e₃.spent);
      }

  -- Where the root is below 2 ^ 20, the tables are a tree of frames in use, the flags are below 8
  -- with the present bit, and at least 4 frames are available, the four repeated blocks leave the
  -- page of the address mapped: by the entry that it had, or by a new frame with the flags. No
  -- other page is mapped, unmapped or moved, the tables stay a tree of frames in use, and at most 4
  -- frames are taken.
  pub map_page_lem : 4 ≤ L.available s.pool → Mapped L pgd flags va s (map_page P flags pgd va s)
  unfolding map_page
  map_page_lem room =
      let t = table_path_lem (omega arith) in
      let r = table_path P flags pgd va s in
      let e =
        table_entry_lem L pgd flags r.0 (offset_l1 va) t.entry (l1_path va) r.1 t.sound t.at t.frame
          (omega arith) ok (omega (arith, t.spent)) user_reg (inr refl) in
      let r' = map_page P flags pgd va s in
      let allowed : (q : List ℕ)
          → length q ≤ 4
          → allows (may_write flags) (walk r'.1.mem pgd q)
            ≡ allows (may_write flags) (walk s.mem pgd q) =
        λ q le. entered-allows L pgd flags (page_path va) r.1 r' ok e q le ∙ t.allowed q le in
      let still : (q : List ℕ) (x : ℕ)
          → length q ≤ 4
          → walk s.mem pgd q ≡ some x
          → walk r'.1.mem pgd q ≡ some x =
        λ q x le w.
          entered_still L pgd flags (page_path va) r.1 r' ok e q x le (t.still q x le w) in
      record {
        entry = e.entry;
        at = e.at;
        frame = e.frame;
        kept = λ x w. e.kept x (t.pages (page_path va) refl ∙ w);
        made = λ w. e.made (t.pages (page_path va) refl ∙ w);
        others = λ q h ne. e.others q (omega arith) ne ∙ t.pages q h;
        allowed = allowed;
        still = still;
        beside = λ q le a b c d. e.others q le d ∙ t.beside q le a b c;
        writable =
            sym (all_allow-present (may_write flags) r'.1.mem pgd (page_path va) e.entry e.at)
            ∙ all_allow-same (may_write flags) s.mem r'.1.mem pgd 4 allowed (page_path va)
                (omega arith);
        other_rights = λ q x h w. is_writable-kept s.mem r'.1.mem pgd 4 still q x (omega arith) w;
        sound = e.sound;
        spent = omega (arith, t.spent, e.spent);
      }
