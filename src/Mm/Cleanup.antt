-- ===== src/Mm/Cleanup.antt =====
-- On `cleanup_context_mm` in Assn1/context_mm.c: which frames it gives back.
use gem_os_cs330a.Prelude.{
  ℕ, ◌+◌, ◌^◌, ◌<◌, ◌≤◌, ◌≡◌, ◌≢◌, refl, sym, ap, ◌∙◌, Bool, true, false, Option, none, some, ◌==◌,
  arith, List, [], ◌∷◌, ◌++◌, if◌then◌else◌, length, shl,
}
use gem_os_cs330a.Context.{ExecContext}
use gem_os_cs330a.Mem.{
  Region, os_pt_reg, user_reg, Mem, Phys, Pfns, PfnLaws, offset_l4, offset_l3, offset_l2, offset_l1,
  is_present, pte_pfn,
}
use gem_os_cs330a.Mem.Walk.{walk, IsTree, walk_root_lem, walk_parent, l1_path, page_path}
use gem_os_cs330a.Mm.{
  stack_va, code_va, data_va, Locals, cleanup_level, cleanup_segment, cleanup_context_mm,
}

-- The frame at the end of a path.
pub frame_at : Mem → ℕ → List ℕ → ℕ
frame_at mem pgd p = elim (walk mem pgd p) [ none ↦ 0 | some e ↦ pte_pfn e ]

-- Frames given back in order.
unfoldable pub free_all : (P : Pfns) → List (Region × ℕ) → Phys P.Pool → Phys P.Pool
free_all P [] s = s
free_all P ((r, q) ∷ l) s = free_all P l (P.os_pfn_free r q s)

abbrev pub l3_frame : Mem → ℕ → ℕ → Region × ℕ
l3_frame mem pgd va = (os_pt_reg, frame_at mem pgd (offset_l4 va ∷ []))

-- The tables of levels 2 and 1, and the page.
abbrev pub lower_frames : Mem → ℕ → ℕ → List (Region × ℕ)
lower_frames mem pgd va =
    (os_pt_reg, frame_at mem pgd (offset_l3 va ∷ offset_l4 va ∷ []))
    ∷ (os_pt_reg, frame_at mem pgd (l1_path va))
    ∷ (user_reg, frame_at mem pgd (page_path va))
    ∷ []

frame_at-some :
    (mem : Mem) (pgd e : ℕ) (p : List ℕ) → walk mem pgd p ≡ some e → frame_at mem pgd p ≡ pte_pfn e
unfolding frame_at
frame_at-some mem pgd e p h = rw (h, frame_at)

-- The order in which the frames go back.
abbrev pub cleanup_frames : Mem → ExecContext → List (Region × ℕ)
cleanup_frames mem ctx =
    (l3_frame mem ctx.pgd (stack_va ctx) ∷ lower_frames mem ctx.pgd (stack_va ctx))
    ++ (lower_frames mem ctx.pgd (code_va ctx)
        ++ (l3_frame mem ctx.pgd (data_va ctx) ∷ lower_frames mem ctx.pgd (data_va ctx)))

module _ {P : Pfns} (L : PfnLaws P) where
  abbrev freed : Bool → ℕ → Phys P.Pool → Phys P.Pool
  freed frees t s = if frees then P.os_pfn_free os_pt_reg t s else s

  freed-mem : (frees : Bool) (t : ℕ) (s : Phys P.Pool) → (freed frees t s).mem ≡ s.mem
  freed-mem true t s = L.free_keeps os_pt_reg t s
  freed-mem false t s = refl

  free_all-freed :
      (frees : Bool) (t : ℕ) (l : List (Region × ℕ)) (s : Phys P.Pool)
      → free_all P ((if frees then (os_pt_reg, t) ∷ [] else []) ++ l) s
        ≡ free_all P l (freed frees t s)
  unfolding free_all
  free_all-freed true t l s = refl
  free_all-freed false t l s = refl

  free_all-mem : (l : List (Region × ℕ)) (s : Phys P.Pool) → (free_all P l s).mem ≡ s.mem
  unfolding free_all
  free_all-mem [] s = refl
  free_all-mem ((r, q) ∷ l) s = free_all-mem l (P.os_pfn_free r q s) ∙ L.free_keeps r q s

  free_all-append :
      (a b : List (Region × ℕ)) (s : Phys P.Pool)
      → free_all P (a ++ b) s ≡ free_all P b (free_all P a s)
  unfolding free_all
  free_all-append [] b s = refl
  free_all-append ((r, q) ∷ a) b s = free_all-append a b (P.os_pfn_free r q s)

  level_lem :
      (frees : Bool) (t i x : ℕ) (next : Option ℕ) (mem : Mem) (s : Phys P.Pool)
      → s.mem ≡ mem
      → mem t i ≡ x
      → is_present (mem t i) ≡ true
      → cleanup_level P frees (some t) i next s ≡ some (some (pte_pfn x), freed frees t s)
  unfolding cleanup_level
  level_lem frees t i x next mem s same e h = rw (same, h, e)

  -- A segment whose page is mapped: its frames are freed, from the top.
  cleanup_segment_lem :
      (frees : Bool) (pgd va e : ℕ) (v : Locals) (mem : Mem) (s : Phys P.Pool)
      → pgd < 2 ^ 20
      → s.mem ≡ mem
      → walk mem pgd (page_path va) ≡ some e
      → (v' : Locals) × (cleanup_segment P frees pgd va v s
          ≡ some (
            v',
            free_all P
                ((if frees then l3_frame mem pgd va ∷ [] else []) ++ lower_frames mem pgd va)
                s,
          ))
  unfolding cleanup_segment free_all
  cleanup_segment_lem frees pgd va e v mem s small same h =
      let (e₁, w₁, m₁, p₁) = walk_parent mem pgd (offset_l1 va) e (l1_path va) h in
      let (e₂, w₂, m₂, p₂) =
        walk_parent mem pgd (offset_l2 va) e₁ (offset_l3 va ∷ offset_l4 va ∷ []) w₁ in
      let (e₃, w₃, m₃, p₃) = walk_parent mem pgd (offset_l3 va) e₂ (offset_l4 va ∷ []) w₂ in
      let (e₄, w₄, m₄, p₄) = walk_parent mem pgd (offset_l4 va) e₃ [] w₃ in
      let root₁ : e₄ ≡ shl pgd 0xc = cc (w₄, walk_root_lem mem pgd) in
      let root : pte_pfn e₄ ≡ pgd = omega arith in
      let s₂ = freed frees (pte_pfn e₃) s in
      let same₂ = freed-mem frees (pte_pfn e₃) s ∙ same in
      let s₃ = P.os_pfn_free os_pt_reg (pte_pfn e₂) s₂ in
      let same₃ = L.free_keeps os_pt_reg (pte_pfn e₂) s₂ ∙ same₂ in
      (
        record {
          pfn_l3 = some (pte_pfn e₃);
          pfn_l2 = some (pte_pfn e₂);
          pfn_l1 = some (pte_pfn e₁);
          data_pfn = some (pte_pfn e);
        },
        rw (
          level_lem false pgd (offset_l4 va) e₃ v.pfn_l3 mem s same (rw root at m₄) (rw root at p₄),
          level_lem frees (pte_pfn e₃) (offset_l3 va) e₂ v.pfn_l2 mem s same m₃ p₃,
          level_lem true (pte_pfn e₂) (offset_l2 va) e₁ v.pfn_l1 mem s₂ same₂ m₂ p₂,
          level_lem true (pte_pfn e₁) (offset_l1 va) e v.data_pfn mem s₃ same₃ m₁ p₁,
          free_all-freed,
          frame_at-some mem pgd e₃ _ w₃,
          frame_at-some mem pgd e₂ _ w₂,
          frame_at-some mem pgd e₁ _ w₁,
          frame_at-some mem pgd e _ h,
        ),
      )

  -- Where the root is below 2 ^ 20 and the first pages of the three segments are mapped,
  -- cleanup_context_mm reads no pointer that was not set, and gives back for each segment the
  -- tables of levels 2 and 1 and the page, and besides, for the stack and for the data segment, the
  -- table of level 3, in this order and nothing else.
  pub cleanup_context_mm_lem :
      (ctx : ExecContext) (s : Phys P.Pool) (e_stack e_code e_data : ℕ)
      → ctx.pgd < 2 ^ 20
      → walk s.mem ctx.pgd (page_path (stack_va ctx)) ≡ some e_stack
      → walk s.mem ctx.pgd (page_path (code_va ctx)) ≡ some e_code
      → walk s.mem ctx.pgd (page_path (data_va ctx)) ≡ some e_data
      → cleanup_context_mm P ctx s ≡ some (free_all P (cleanup_frames s.mem ctx) s)
  unfolding cleanup_context_mm free_all
  cleanup_context_mm_lem ctx s e_stack e_code e_data small h k l =
      let unset : Locals = record {
        pfn_l3 = none;
        pfn_l2 = none;
        pfn_l1 = none;
        data_pfn = none;
      } in
      let of_stack =
        l3_frame s.mem ctx.pgd (stack_va ctx) ∷ lower_frames s.mem ctx.pgd (stack_va ctx) in
      let of_code = lower_frames s.mem ctx.pgd (code_va ctx) in
      let s₁ = free_all P of_stack s in
      let s₂ = free_all P of_code s₁ in
      let (v₁, r₁) =
        cleanup_segment_lem true ctx.pgd (stack_va ctx) e_stack unset s.mem s small refl h in
      let (v₂, r₂) =
        cleanup_segment_lem false ctx.pgd (code_va ctx) e_code v₁ s.mem s₁ small
          (free_all-mem of_stack s) k in
      let (v₃, r₃) =
        cleanup_segment_lem true ctx.pgd (data_va ctx) e_data v₂ s.mem s₂ small
          (free_all-mem of_code s₁ ∙ free_all-mem of_stack s) l in
      rw (r₁, r₂, r₃)

-- How often a frame is given back to the pool for page tables.
pub times : ℕ → List (Region × ℕ) → ℕ
times q [] = 0
times q ((os_pt_reg, x) ∷ l) = (if x == q then 1 else 0) + times q l
times q ((user_reg, x) ∷ l) = times q l

table_ne_root :
    (mem : Mem) (pgd i f : ℕ) (p : List ℕ)
    → IsTree mem pgd
    → pgd < 2 ^ 20
    → walk mem pgd (i ∷ p) ≡ some f
    → length p ≤ 2
    → frame_at mem pgd (i ∷ p) ≢ pgd
table_ne_root mem pgd i f p tree small w h e =
    let root : pte_pfn (shl pgd 0xc) ≡ pgd = omega arith in
    let at_f = frame_at-some mem pgd f (i ∷ p) w in
    let same =
      tree (i ∷ p) [] f (shl pgd 0xc) w (walk_root_lem mem pgd) (omega arith) (omega arith)
        (sym at_f ∙ (e ∙ sym root)) in
    absurd (omega (arith, ap (length {0}) same))

-- None of a segment's tables is the root.
tables_ne_root :
    (mem : Mem) (pgd va e : ℕ)
    → IsTree mem pgd
    → pgd < 2 ^ 20
    → walk mem pgd (page_path va) ≡ some e
    → (frame_at mem pgd (offset_l4 va ∷ []) ≢ pgd)
      × (frame_at mem pgd (offset_l3 va ∷ offset_l4 va ∷ []) ≢ pgd)
      × (frame_at mem pgd (l1_path va) ≢ pgd)
tables_ne_root mem pgd va e tree small h =
    let (e₁, w₁, _, _) = walk_parent mem pgd (offset_l1 va) e (l1_path va) h in
    let (e₂, w₂, _, _) =
      walk_parent mem pgd (offset_l2 va) e₁ (offset_l3 va ∷ offset_l4 va ∷ []) w₁ in
    let (e₃, w₃, _, _) = walk_parent mem pgd (offset_l3 va) e₂ (offset_l4 va ∷ []) w₂ in
    (
      table_ne_root mem pgd (offset_l4 va) e₃ [] tree small w₃ (omega arith),
      table_ne_root mem pgd (offset_l3 va) e₂ (offset_l4 va ∷ []) tree small w₂ (omega arith),
      table_ne_root mem pgd (offset_l2 va) e₁ (offset_l3 va ∷ offset_l4 va ∷ []) tree small w₁
          (omega arith),
    )

-- Where the root is below 2 ^ 20, the tables are a tree, the first pages of the three segments are
-- mapped, and stack and data lie below one entry of the root, cleanup_context_mm gives the table
-- under that entry back at least twice, and it never gives back the root.
pub cleanup_double_free :
    {P : Pfns} (L : PfnLaws P) (ctx : ExecContext) (s : Phys P.Pool) (e_stack e_code e_data : ℕ)
    → IsTree s.mem ctx.pgd
    → ctx.pgd < 2 ^ 20
    → walk s.mem ctx.pgd (page_path (stack_va ctx)) ≡ some e_stack
    → walk s.mem ctx.pgd (page_path (code_va ctx)) ≡ some e_code
    → walk s.mem ctx.pgd (page_path (data_va ctx)) ≡ some e_data
    → offset_l4 (stack_va ctx) ≡ offset_l4 (data_va ctx)
    → (cleanup_context_mm P ctx s ≡ some (free_all P (cleanup_frames s.mem ctx) s))
      × (2
          ≤ times
              (frame_at s.mem ctx.pgd (offset_l4 (stack_va ctx) ∷ []))
              (cleanup_frames s.mem ctx))
      × (times ctx.pgd (cleanup_frames s.mem ctx) ≡ 0)
unfolding times
cleanup_double_free L ctx s e_stack e_code e_data tree small h k l shared =
    let (a₁, a₂, a₃) = tables_ne_root s.mem ctx.pgd (stack_va ctx) e_stack tree small h in
    let (b₁, b₂, b₃) = tables_ne_root s.mem ctx.pgd (code_va ctx) e_code tree small k in
    let (c₁, c₂, c₃) = tables_ne_root s.mem ctx.pgd (data_va ctx) e_data tree small l in
    (
      cleanup_context_mm_lem L ctx s e_stack e_code e_data small h k l,
      rw (← shared) (ground arith),
      ground arith,
    )
