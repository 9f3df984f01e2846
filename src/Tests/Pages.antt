-- ===== src/Tests/Pages.antt =====
-- The results on page tables, at the process that `prepare_context_mm` sets up.
use gem_os_cs330a.Prelude.{◌+◌, ◌≤◌, ◌≡◌, refl, some, shl, arith, [], ◌∷◌}
use gem_os_cs330a.Context.{ExecContext}
use gem_os_cs330a.Mem.{
  Phys, make_pte, set_entry, table_entry, table_path, map_page, pr_rw_us, pr_us,
}
use gem_os_cs330a.Mem.Walk.{page_path-injective}
use gem_os_cs330a.Mem.Entry.{IsSound}
use gem_os_cs330a.Mm.{
  stack_va, code_va, data_va, map_stack, map_code, map_data, prepare_context_mm, cleanup_context_mm,
}
use gem_os_cs330a.Mm.Prepare.{Prepared, prepare_context_mm_lem}
use gem_os_cs330a.Mm.Cleanup.{
  free_all, cleanup_frames, frame_at, times, cleanup_context_mm_lem, cleanup_double_free,
}
use gem_os_cs330a.Tests.Machine.{Counter, pfns, laws, process, boot}

prepare_context_mm_lem_example : Prepared laws process boot 6 (prepare_context_mm pfns process boot)
prepare_context_mm_lem_example =
    prepare_context_mm_lem laws process boot (omega arith) (omega arith)
      (λ e. absurd (omega (arith, page_path-injective (stack_va process) (code_va process) e)))
      (λ e. absurd (omega (arith, page_path-injective (stack_va process) (data_va process) e)))
      (λ e. absurd (omega (arith, e))) refl

-- The process and memory after it.
abbrev pub running_process : ExecContext
running_process = record process { pgd = 6 }

abbrev pub prepared : Phys Counter
prepared = (prepare_context_mm pfns process boot).1

pub prepared-IsSound : IsSound laws 6 prepared
prepared-IsSound = prepare_context_mm_lem_example.sound

prepared_next : prepared.pool.next ≡ 16
unfolding prepare_context_mm map_stack map_code map_data map_page table_path table_entry make_pte
    set_entry
prepared_next = refl

pub prepared_room : 100 ≤ laws.available prepared.pool
prepared_room = omega (arith, prepared_next)

cleanup_context_mm_lem_example :
    cleanup_context_mm pfns running_process prepared
    ≡ some (free_all pfns (cleanup_frames prepared.mem running_process) prepared)
cleanup_context_mm_lem_example =
    cleanup_context_mm_lem laws running_process prepared
      (shl prepare_context_mm_lem_example.stack_pfn 0xc + pr_rw_us)
      (shl prepare_context_mm_lem_example.code_pfn 0xc + pr_us) (shl 5 0xc + pr_rw_us) (omega arith)
      prepare_context_mm_lem_example.stack prepare_context_mm_lem_example.code
      prepare_context_mm_lem_example.data_page

cleanup_double_free_example :
    (cleanup_context_mm pfns running_process prepared
      ≡ some (free_all pfns (cleanup_frames prepared.mem running_process) prepared))
    × (2 ≤ times (frame_at prepared.mem 6 (0 ∷ [])) (cleanup_frames prepared.mem running_process))
    × (times 6 (cleanup_frames prepared.mem running_process) ≡ 0)
cleanup_double_free_example =
    cleanup_double_free laws running_process prepared
      (shl prepare_context_mm_lem_example.stack_pfn 0xc + pr_rw_us)
      (shl prepare_context_mm_lem_example.code_pfn 0xc + pr_us) (shl 5 0xc + pr_rw_us)
      prepared-IsSound.tree (omega arith) prepare_context_mm_lem_example.stack
      prepare_context_mm_lem_example.code prepare_context_mm_lem_example.data_page refl
