-- ===== src/Mm/Prepare.antt =====
-- On `prepare_context_mm` in Assn1/context_mm.c: what stands in the tables behind it.
use gem_os_cs330a.Prelude.{
  ℕ, ◌+◌, ◌^◌, ◌<◌, ◌≤◌, ◌≡◌, ◌≢◌, refl, sym, ap, ◌∙◌, true, false, none, some, arith, List, [],
  ◌∷◌, length, shl, ◌==◌, get_or,
}
use gem_os_cs330a.Context.{ExecContext}
use gem_os_cs330a.Mem.{
  os_pt_reg, Mem, Phys, Pfns, PfnLaws, offset_l4, offset_l3, offset_l2, offset_l1, pr_rw_us, pr_us,
  pte_pfn, map_page,
}
use gem_os_cs330a.Mem.Walk.{
  walk, walk_parent, walk_root_lem, walk_step, walk_stop, l1_path, page_path,
}
use gem_os_cs330a.Mem.Rights.{allows, all_allow, is_writable, is_writable-kept}
use gem_os_cs330a.Mem.Entry.{IsSound}
use gem_os_cs330a.Mem.Map.{map_page_lem}
use gem_os_cs330a.Mm.{stack_va, code_va, data_va, map_data, prepare_context_mm}
use gem_os_cs330a.Mm.Data.{map_data_lem}

-- A page table that is all zeros maps nothing.
walk_empty :
    (mem : Mem) (pgd : ℕ)
    → pgd < 2 ^ 20
    → ((j : ℕ) → mem pgd j ≡ 0)
    → (i : ℕ) (q : List ℕ) → walk mem pgd (i ∷ q) ≡ none
walk_empty mem pgd h z i [] =
    let e : pte_pfn (shl pgd 0xc) ≡ pgd = omega arith in
    walk_step mem pgd i (shl pgd 0xc) [] (walk_root_lem mem pgd) ∙ rw (e, z i)
walk_empty mem pgd h z i (j ∷ q) = walk_stop mem pgd i (j ∷ q) (walk_empty mem pgd h z j q)

root_only :
    (mem : Mem) (pgd : ℕ)
    → pgd < 2 ^ 20
    → ((j : ℕ) → mem pgd j ≡ 0)
    → (q : List ℕ) (e : ℕ) → walk mem pgd q ≡ some e
    → (q ≡ []) × (e ≡ shl pgd 0xc)
root_only mem pgd h z [] e w = (refl, cc (walk_root_lem mem pgd))
root_only mem pgd h z (i ∷ q) e w = cc (walk_empty mem pgd h z i q)

-- What stands in the tables after `prepare_context_mm` turned `ctx` and `s` into `r`,
-- with the root table `pgd`.
pub record Prepared {P : Pfns} (L : PfnLaws P) (ctx : ExecContext) (s : Phys P.Pool) (pgd : ℕ)
    (r : ExecContext × Phys P.Pool) : Type 0 where
  pub new_root : L.used s.pool pgd ≡ false
  pub stack_pfn : ℕ
  pub code_pfn : ℕ
  pub stack : walk r.1.mem pgd (page_path (stack_va ctx)) ≡ some (shl stack_pfn 0xc + pr_rw_us)
  pub code : walk r.1.mem pgd (page_path (code_va ctx)) ≡ some (shl code_pfn 0xc + pr_us)
  pub data_page : walk r.1.mem pgd (page_path (data_va ctx)) ≡ some (shl ctx.arg_pfn 0xc + pr_rw_us)
  pub nothing_else :
      (q : List ℕ)
      → length q ≡ 4
      → q ≢ page_path (stack_va ctx)
      → q ≢ page_path (code_va ctx)
      → q ≢ page_path (data_va ctx)
      → walk r.1.mem pgd q ≡ none
  pub stack_writable : is_writable r.1.mem pgd (page_path (stack_va ctx)) ≡ true
  pub code_read_only : is_writable r.1.mem pgd (page_path (code_va ctx)) ≡ false
  pub data_writable : is_writable r.1.mem pgd (page_path (data_va ctx)) ≡ true
  pub same : r.0 ≡ record ctx { pgd = pgd }
  pub sound : IsSound L pgd r.1

module _ {P : Pfns} (L : PfnLaws P) (ctx : ExecContext) (s : Phys P.Pool)
    (room : 12 ≤ L.available s.pool) (arg : ctx.arg_pfn < 2 ^ 20)
    (apart_code : page_path (stack_va ctx) ≢ page_path (code_va ctx))
    (apart_data : page_path (stack_va ctx) ≢ page_path (data_va ctx))
    (apart_code_data : offset_l3 (code_va ctx) ≢ offset_l3 (data_va ctx))
    (together : offset_l4 (stack_va ctx) ≡ offset_l4 (data_va ctx)) where
  abbrev pgd : ℕ
  pgd = (P.os_pfn_alloc os_pt_reg s).0

  abbrev s₀ : Phys P.Pool
  s₀ = (P.os_pfn_alloc os_pt_reg s).1

  abbrev ctx' : ExecContext
  ctx' = record ctx { pgd = pgd }

  pgd_small : pgd < 2 ^ 20
  pgd_small = L.alloc_small os_pt_reg s (omega arith)

  root : (q : List ℕ) (e : ℕ) → walk s₀.mem pgd q ≡ some e → (q ≡ []) × (e ≡ shl pgd 0xc)
  root = root_only s₀.mem pgd pgd_small (L.alloc_zeroed s)

  start-IsSound : IsSound L pgd s₀
  start-IsSound = record {
    tree = λ a b f g wa wb la lb eq. (root a f wa).0 ∙ sym (root b g wb).0;
    owned = λ q f w h.
        let e : pte_pfn f ≡ pgd = omega (arith, (root q f w).1, pgd_small) in
        rw e (L.alloc_used os_pt_reg s (omega arith));
  }

  start_none : (q : List ℕ) → length q ≡ 4 → walk s₀.mem pgd q ≡ none
  start_none [] h = absurd (omega arith)
  start_none (i ∷ q) h = walk_empty s₀.mem pgd pgd_small (L.alloc_zeroed s) i q

  start_allows : (i : ℕ) (q : List ℕ) → allows true (walk s₀.mem pgd (i ∷ q)) ≡ true
  start_allows i q = ap (allows true) (walk_empty s₀.mem pgd pgd_small (L.alloc_zeroed s) i q)

  start_all_allow : (q : List ℕ) → all_allow true s₀.mem pgd q ≡ true
  start_all_allow [] = refl
  start_all_allow (i ∷ q) = rw (start_allows i q, start_all_allow q) refl

  code_data_pages : page_path (code_va ctx) ≢ page_path (data_va ctx)
  code_data_pages e = apart_code_data (ap (λ l. get_or l 2 0) e)

  -- The tables of the data are the stack's or new ones, none of the code's.
  data_way :
      (s₁ s₂ : Phys P.Pool) (x : ℕ)
      → walk s₁.mem pgd (page_path (stack_va ctx)) ≡ some x
      → ((i : ℕ) (q : List ℕ) → length q ≤ 3 → allows true (walk s₁.mem pgd (i ∷ q)) ≡ true)
      → ((q : List ℕ) (x : ℕ)
          → length q ≤ 4
          → walk s₁.mem pgd q ≡ some x
          → walk s₂.mem pgd q ≡ some x)
      → ((q : List ℕ)
          → length q ≤ 4
          → q ≢ offset_l4 (code_va ctx) ∷ []
          → q ≢ offset_l3 (code_va ctx) ∷ offset_l4 (code_va ctx) ∷ []
          → q ≢ l1_path (code_va ctx)
          → q ≢ page_path (code_va ctx)
          → walk s₂.mem pgd q ≡ walk s₁.mem pgd q)
      → all_allow true s₂.mem pgd (page_path (data_va ctx)) ≡ true
  data_way s₁ s₂ x at all_open still beside =
      let va = stack_va ctx in
      let (a, up₁, _, _) = walk_parent s₁.mem pgd (offset_l1 va) x (l1_path va) at in
      let (b, up₂, _, _) =
        walk_parent s₁.mem pgd (offset_l2 va) a (offset_l3 va ∷ offset_l4 va ∷ []) up₁ in
      let (c, up₃, _, _) = walk_parent s₁.mem pgd (offset_l3 va) b (offset_l4 va ∷ []) up₂ in
      let l4 : allows true (walk s₂.mem pgd (offset_l4 (data_va ctx) ∷ [])) ≡ true =
        let at₁ : walk s₁.mem pgd (offset_l4 (data_va ctx) ∷ []) ≡ some c = rw together at up₃ in
        ap (allows true) (still (offset_l4 (data_va ctx) ∷ []) c (omega arith) at₁ ∙ sym at₁)
        ∙ all_open (offset_l4 (data_va ctx)) [] (omega arith) in
      let same : (i : ℕ) (q : List ℕ)
          → length q ≤ 3
          → walk s₂.mem pgd (i ∷ q) ≡ walk s₁.mem pgd (i ∷ q)
          → allows true (walk s₂.mem pgd (i ∷ q)) ≡ true =
        λ i q le e. ap (allows true) e ∙ all_open i q le in
      let va' = data_va ctx in
      let ne : (p q : List ℕ) (i : ℕ)
          → get_or p i 0 ≡ offset_l3 (code_va ctx)
          → get_or q i 0 ≡ offset_l3 va'
          → q ≢ p =
        λ p q i a b e. apart_code_data (sym a ∙ (ap (λ l. get_or l i 0) (sym e) ∙ b)) in
      let off : (p q : List ℕ) → (length q == length p) ≡ false → q ≢ p =
        λ p q h e. let n = ap (length {0}) e in absurd (ground arith) in
      rw
        (
          same (offset_l1 va') (l1_path va') (omega arith) (
              beside (page_path va') (omega arith) (off _ _ refl) (off _ _ refl) (off _ _ refl)
                (ne _ _ 2 refl refl)),
          same (offset_l2 va') (offset_l3 va' ∷ offset_l4 va' ∷ []) (omega arith) (
              beside (l1_path va') (omega arith) (off _ _ refl) (off _ _ refl) (ne _ _ 1 refl refl)
                (off _ _ refl)),
          same (offset_l3 va') (offset_l4 va' ∷ []) (omega arith) (
              beside (offset_l3 va' ∷ offset_l4 va' ∷ []) (omega arith) (off _ _ refl)
                (ne _ _ 0 refl refl) (off _ _ refl) (off _ _ refl)),
          l4,
        )
        refl

  -- Where at least 12 frames are available, the frame of the argument is below 2 ^ 20, the stack,
  -- the code and the data segment start on different pages, the addresses of code and data differ
  -- in their index of level 3, and those of stack and data have the same index in the root,
  -- prepare_context_mm takes a frame that was not in use for the root and maps exactly three pages
  -- below it: the last one of the stack, the first one of the code, and the first one of the data
  -- segment to the frame of the argument. The entries of all levels allow writing on the way to the
  -- pages of stack and data, but not on the way to the page of the code. The process changes in its
  -- root only, and the tables are a tree of frames in use.
  pub prepare_context_mm_lem : Prepared L ctx s pgd (prepare_context_mm P ctx s)
  unfolding prepare_context_mm
  prepare_context_mm_lem =
      let st =
        map_page_lem L pgd pr_rw_us (stack_va ctx) s₀ pgd_small start-IsSound (omega arith)
          (omega (arith, L.alloc_available os_pt_reg s)) in
      let r₁ = map_page P pr_rw_us pgd (stack_va ctx) s₀ in
      let co =
        map_page_lem L pgd pr_us (code_va ctx) r₁.1 pgd_small st.sound (omega arith)
          (omega (arith, L.alloc_available os_pt_reg s, st.spent)) in
      let r₂ = map_page P pr_us pgd (code_va ctx) r₁.1 in
      let none_code =
        st.others (page_path (code_va ctx)) refl (λ e. apart_code (sym e))
        ∙ start_none (page_path (code_va ctx)) refl in
      let none_data =
        co.others (page_path (data_va ctx)) refl (λ e. code_data_pages (sym e))
        ∙ (st.others (page_path (data_va ctx)) refl (λ e. apart_data (sym e))
            ∙ start_none (page_path (data_va ctx)) refl) in
      let da =
        map_data_lem L ctx' r₂.1 pgd_small arg co.sound
          (omega (arith, L.alloc_available os_pt_reg s, st.spent, co.spent)) none_data in
      let r₃ = map_data P ctx' r₂.1 in
      let made_stack = st.made (start_none (page_path (stack_va ctx)) refl) in
      let made_code = co.made none_code in
      record {
        new_root = L.alloc_fresh os_pt_reg s (omega arith);
        stack_pfn = r₁.0;
        code_pfn = r₂.0;
        stack =
            da.others (page_path (stack_va ctx)) refl apart_data
            ∙ (co.others (page_path (stack_va ctx)) refl apart_code
                ∙ (st.at ∙ ap (λ x. some x) made_stack));
        code =
            da.others (page_path (code_va ctx)) refl code_data_pages
            ∙ (co.at ∙ ap (λ x. some x) made_code);
        data_page = da.here;
        nothing_else =
            λ q h a b c. da.others q h c ∙ (co.others q h b ∙ (st.others q h a ∙ start_none q h));
        stack_writable =
            is_writable-kept r₂.1.mem r₃.1.mem pgd 4 da.still (page_path (stack_va ctx)) st.entry
              (omega arith) (co.still (page_path (stack_va ctx)) st.entry (omega arith) st.at)
            ∙ (co.other_rights (page_path (stack_va ctx)) st.entry refl st.at
                ∙ (st.writable ∙ start_all_allow (page_path (stack_va ctx))));
        code_read_only =
            is_writable-kept r₂.1.mem r₃.1.mem pgd 4 da.still (page_path (code_va ctx)) co.entry
              (omega arith) co.at
            ∙ (co.writable ∙ rw none_code refl);
        data_writable =
            da.writable
            ∙ data_way r₁.1 r₂.1 st.entry st.at
                (λ i q le. st.allowed (i ∷ q) (omega arith) ∙ start_allows i q) co.still co.beside;
        same = da.same_ctx;
        sound = da.sound;
      }
