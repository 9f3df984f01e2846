-- ===== src/Mm.antt =====
-- Assn1/context_mm.c: a new process gets its page tables, and a finished one gives them back.
pub mod Cleanup
pub mod Data
pub mod Prepare
use gem_os_cs330a.Prelude.{
  ℕ, ◌+◌, ◌-◌, ◌%◌, ◌^◌, Bool, true, false, Option, none, some, if◌then◌else◌, ◌>>=◌,
}
use gem_os_cs330a.Context.{MmSegment, ExecContext}
use gem_os_cs330a.Mem.{
  Region, os_pt_reg, user_reg, Mem, Phys, Pfns, set_entry, offset_l4, offset_l3, offset_l2,
  offset_l1, pr_rw_us, pr_us, is_present, pte_pfn, make_pte, table_entry, table_path, map_page,
}

-- The addresses that are mapped at the start: `end - 1` of the stack, as an `unsigned long`, and
-- the first address of code and data.
abbrev pub stack_va : ExecContext → ℕ
stack_va ctx = (ctx.mm_seg_stack.end + 2 ^ 64 - 1) % 2 ^ 64

abbrev pub code_va : ExecContext → ℕ
code_va ctx = ctx.mm_seg_code.start

abbrev pub data_va : ExecContext → ℕ
data_va ctx = ctx.mm_seg_data.start

unfoldable pub map_stack : (P : Pfns) → ExecContext → Phys P.Pool → Phys P.Pool
map_stack P ctx s = (map_page P pr_rw_us ctx.pgd (stack_va ctx) s).1

unfoldable pub map_code : (P : Pfns) → ExecContext → Phys P.Pool → Phys P.Pool
map_code P ctx s = (map_page P pr_us ctx.pgd (code_va ctx) s).1

-- The data segment's page is `arg_pfn`, which is there already.
unfoldable pub map_data : (P : Pfns) → ExecContext → Phys P.Pool → ExecContext × Phys P.Pool
map_data P ctx s =
    let (l1, s₁) = table_path P pr_rw_us ctx.pgd (data_va ctx) s in
    let old = s₁.mem l1 (offset_l1 (data_va ctx)) in
    if is_present old then (record ctx { arg_pfn = pte_pfn old }, s₁) else (
      ctx,
      record s₁ {
        mem = set_entry s₁.mem l1 (offset_l1 (data_va ctx)) (make_pte ctx.arg_pfn pr_rw_us);
      },
    )

unfoldable pub prepare_context_mm :
    (P : Pfns) → ExecContext → Phys P.Pool → ExecContext × Phys P.Pool
unfolding map_stack map_code map_data
prepare_context_mm P ctx s =
    let (pgd, s₀) = P.os_pfn_alloc os_pt_reg s in
    let ctx' : ExecContext = record ctx { pgd = pgd } in
    let s₁ = map_stack P ctx' s₀ in let s₂ = map_code P ctx' s₁ in map_data P ctx' s₂

-- The local variables of `cleanup_context_mm`, which are shared by the three segments: `none` is a
-- variable that was not set. (`l3addr` is `osmap(pfnL3)`, and so on.)
pub record Locals : Type 0 where
  pub pfn_l3 : Option ℕ
  pub pfn_l2 : Option ℕ
  pub pfn_l1 : Option ℕ
  pub data_pfn : Option ℕ

-- The block of one level: read entry `i` of `table`, and if it is present set the next variable
-- and, where the source does, free the table. A read through a pointer that was not set is `none`.
unfoldable pub cleanup_level :
    (P : Pfns) (frees : Bool) (table : Option ℕ) (i : ℕ) (next : Option ℕ)
    → Phys P.Pool
    → Option (Option ℕ × Phys P.Pool)
cleanup_level P frees table i next s = do
  t ← table
  some (
      if is_present (s.mem t i)
      then (some (pte_pfn (s.mem t i)), (if frees then P.os_pfn_free os_pt_reg t s else s))
      else (next, s))

unfoldable pub cleanup_segment :
    (P : Pfns) (frees_l3 : Bool) (pgd va : ℕ) → Locals → Phys P.Pool → Option (Locals × Phys P.Pool)
cleanup_segment P frees_l3 pgd va v s = do
  (l3, s₁) ← cleanup_level P false (some pgd) (offset_l4 va) v.pfn_l3 s
  (l2, s₂) ← cleanup_level P frees_l3 l3 (offset_l3 va) v.pfn_l2 s₁
  (l1, s₃) ← cleanup_level P true l2 (offset_l2 va) v.pfn_l1 s₂
  (page, s₄) ← cleanup_level P true l1 (offset_l1 va) v.data_pfn s₃
  pfn ← page
  some (
    record { pfn_l3 = l3; pfn_l2 = l2; pfn_l1 = l1; data_pfn = page },
    P.os_pfn_free user_reg pfn s₄,
  )

-- The stack's and the data segment's block free all tables but the root; the code's block keeps the
-- third level.
unfoldable pub cleanup_stack :
    (P : Pfns) → ExecContext → Locals → Phys P.Pool → Option (Locals × Phys P.Pool)
cleanup_stack P ctx = cleanup_segment P true ctx.pgd (stack_va ctx)

unfoldable pub cleanup_code :
    (P : Pfns) → ExecContext → Locals → Phys P.Pool → Option (Locals × Phys P.Pool)
cleanup_code P ctx = cleanup_segment P false ctx.pgd (code_va ctx)

unfoldable pub cleanup_data :
    (P : Pfns) → ExecContext → Locals → Phys P.Pool → Option (Locals × Phys P.Pool)
cleanup_data P ctx = cleanup_segment P true ctx.pgd (data_va ctx)

unfoldable pub cleanup_context_mm : (P : Pfns) → ExecContext → Phys P.Pool → Option (Phys P.Pool)
unfolding cleanup_stack cleanup_code cleanup_data
cleanup_context_mm P ctx s = do
  let unset : Locals = record { pfn_l3 = none; pfn_l2 = none; pfn_l1 = none; data_pfn = none }
  (v₁, s₁) ← cleanup_stack P ctx unset s
  (v₂, s₂) ← cleanup_code P ctx v₁ s₁
  (v₃, s₃) ← cleanup_data P ctx v₂ s₂
  some s₃
