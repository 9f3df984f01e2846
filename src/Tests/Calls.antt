-- ===== src/Tests/Calls.antt =====
-- The results on system calls and page faults, at the process that `prepare_context_mm` sets up.
use gem_os_cs330a.Prelude.{some, ℕ, ◌+◌, ◌*◌, ◌^◌, ◌<◌, ◌≡◌, refl, sym, ap, subst, none, arith}
use gem_os_cs330a.Mem.{table_entry, table_path, map_page, make_pte, set_entry}
use gem_os_cs330a.Mm.{map_stack, map_code, map_data, prepare_context_mm}
use gem_os_cs330a.Mem.Walk.{walk, l1_path, page_path}
use gem_os_cs330a.Mem.Entry.{IsSound}
use gem_os_cs330a.Mem.Map.{Mapped}
use gem_os_cs330a.Syscall.{
  MapFlags, follow, shrink_loop, shrink_segment, find_l1, unmap_page, do_expand, do_shrink,
  do_write,
}
use gem_os_cs330a.Syscall.Unmap.{frame_of, find_l1-walk}
use gem_os_cs330a.Syscall.Shrink.{IsSegment, DataShrunk, Shrunk, do_shrink_data, do_shrink_wraps}
use gem_os_cs330a.Syscall.Expand.{Expands, do_expand_lem, shrink-expand}
use gem_os_cs330a.Syscall.Write.{Writes, do_write_lem}
use gem_os_cs330a.Fault.{beyond_data, resumes, exits, in_segment, handle_page_fault}
use gem_os_cs330a.Fault.Handle.{IsApart, rights, handle_page_fault-Mapped, handle_page_fault-ended}
use gem_os_cs330a.Fault.Boundary.{fault-shrink}
use gem_os_cs330a.Tests.Machine.{pfns, laws}
use gem_os_cs330a.Tests.Pages.{running_process, prepared, prepared-IsSound, prepared_room}

abbrev flags : MapFlags
flags = record { map_wr = 2; map_rd = 1 }

data-IsSegment : IsSegment running_process.mm_seg_data
data-IsSegment = record {
  high = omega arith;
  lower = omega arith;
  upper = omega arith;
  bound = omega arith;
}

rodata-IsSegment : IsSegment running_process.mm_seg_rodata
rodata-IsSegment = record {
  high = omega arith;
  lower = omega arith;
  upper = omega arith;
  bound = omega arith;
}

process-IsApart : IsApart running_process
unfolding in_segment
process-IsApart = record {
  data_rodata = λ a h. ground arith;
  data_stack = λ a h. ground arith;
  rodata_stack = λ a h. ground arith;
}

-- A write beyond what the code handed out at the start, of an absent page.
handle_page_fault-Mapped_example :
    ((handle_page_fault pfns running_process 6 0x180002008 prepared).0 ≡ resumes)
    × (pfn : ℕ) × Mapped laws 6 7 0x180002008 prepared
        (pfn, (handle_page_fault pfns running_process 6 0x180002008 prepared).1)
unfolding in_segment
handle_page_fault-Mapped_example =
    handle_page_fault-Mapped laws running_process 6 0x180002008 prepared process-IsApart
      (omega arith) prepared-IsSound (omega (arith, prepared_room)) refl refl

handle_page_fault-ended_example :
    handle_page_fault pfns running_process 6 0x180005000 prepared ≡ (exits beyond_data, prepared)
unfolding in_segment
handle_page_fault-ended_example =
    handle_page_fault-ended pfns running_process 6 0x180005000 prepared process-IsApart refl

find_l1-walk_example :
    find_l1 prepared.mem 6 0x180000000 ≡ frame_of (walk prepared.mem 6 (l1_path 0x180000000))
find_l1-walk_example = find_l1-walk prepared.mem 6 0x180000000 (omega arith)

do_shrink_data_example :
    DataShrunk pfns 4 running_process prepared (do_shrink pfns flags 4 2 running_process prepared)
do_shrink_data_example =
    do_shrink_data laws flags 4 running_process prepared (omega arith) (omega arith) data-IsSegment
      (omega arith) prepared-IsSound.tree

do_expand_lem_example : Expands flags 5 running_process
do_expand_lem_example =
    do_expand_lem flags 5 running_process (omega arith) (omega arith) (omega arith)
      (λ e. omega (arith, e)) data-IsSegment rodata-IsSegment (omega arith) (omega arith)

shrink-expand_example :
    ((do_shrink pfns flags 5 2 (do_expand flags 5 2 running_process).0 prepared).0
      ≡ running_process)
    × ((do_shrink pfns flags 5 2 (do_expand flags 5 2 running_process).0 prepared).1
        ≡ (do_expand flags 5 2 running_process).1)
    × Shrunk 6
        (0x180004000 + 4096 * 5)
        5
        prepared.mem
        (do_shrink pfns flags 5 2 (do_expand flags 5 2 running_process).0 prepared).2.mem
shrink-expand_example =
    shrink-expand laws flags 5 running_process prepared (omega arith) data-IsSegment (omega arith)
      refl (omega arith) prepared-IsSound.tree

do_write_lem_example :
    Writes
      (λ a. some 65)
      (λ a. some 3)
      (λ a. 65)
      prepared.mem
      running_process
      0x180000000
      10
      (do_write (λ a. some 65) (λ a. some 3) prepared.mem running_process 0x180000000 10)
do_write_lem_example =
    do_write_lem (λ a. some 65) (λ a. some 3) (λ a. 65) prepared.mem running_process 0x180000000 10
      (omega arith) (omega arith)

-- The data segment after a shrink by two pages.
shrunk-IsApart : IsApart (do_shrink pfns flags 2 2 running_process prepared).0
unfolding in_segment
shrunk-IsApart =
    let r =
      do_shrink_data laws flags 2 running_process prepared (omega arith) (omega arith)
        data-IsSegment (omega arith) prepared-IsSound.tree in
    rw ((r.fits (omega arith)).0) (record {
      data_rodata = process-IsApart.data_rodata;
      data_stack = process-IsApart.data_stack;
      rodata_stack = process-IsApart.rodata_stack;
    })

shrunk_same : (do_shrink pfns flags 2 2 running_process prepared).2 ≡ prepared
unfolding do_shrink shrink_segment shrink_loop unmap_page find_l1 follow prepare_context_mm
    map_stack map_code map_data map_page table_path table_entry make_pte set_entry
shrunk_same = refl

fault-shrink_example :
    let r = do_shrink pfns flags 2 2 running_process prepared in
    (walk r.2.mem 6 (page_path r.1) ≡ none)
    × ((handle_page_fault pfns r.0 4 r.1 r.2).0 ≡ resumes)
    × (pfn : ℕ) × Mapped laws 6
        (rights r.0 r.1)
        r.1
        r.2
        (pfn, (handle_page_fault pfns r.0 4 r.1 r.2).1)
fault-shrink_example =
    fault-shrink laws flags 2 4 running_process prepared (omega arith) (omega arith) (omega arith)
      data-IsSegment (omega arith) (omega arith) prepared-IsSound.tree shrunk-IsApart
      (subst (λ s. IsSound laws 6 s) (sym shrunk_same) prepared-IsSound)
      (omega (arith, prepared_room, ap (λ s. s.pool.next) shrunk_same)) refl

do_shrink_wraps_example :
    (do_shrink pfns flags (2 ^ 20 + 1) 2 running_process prepared).0.mm_seg_data.next_free
    < 0x180000000
do_shrink_wraps_example =
    do_shrink_wraps pfns flags (2 ^ 20 + 1) running_process prepared (omega arith) (omega arith)
      (omega arith) data-IsSegment (omega arith) (omega arith) (omega arith)
