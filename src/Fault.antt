-- ===== src/Fault.antt =====
-- Assn2/entry.c: the handler of page faults.
pub mod Boundary
pub mod Handle
use gem_os_cs330a.Prelude.{
  ℕ, ◌+◌, ◌%◌, Bool, true, false, ◌&&◌, ◌==◌, ltb, leb, if◌then◌else◌, shr, low_bits,
}
use gem_os_cs330a.Context.{MmSegment, ExecContext}
use gem_os_cs330a.Mem.{Phys, Pfns, pr_rw_us, pr_us, map_page}

-- Where the handler calls `do_exit`, which does not come back.
pub data Exit : Type 0 where
  protection : Exit
  beyond_data : Exit
  beyond_rodata : Exit
  rodata_write : Exit
  no_segment : Exit

pub data Outcome : Type 0 where
  resumes : Outcome
  exits : Exit → Outcome

-- `fault <= end && fault >= start`.
unfoldable pub in_segment : MmSegment → ℕ → Bool
in_segment seg fault = leb fault seg.end && leb seg.start fault

-- The three branches of the handler, one for each segment.
unfoldable pub fault_data :
    (P : Pfns) → ExecContext → (fault : ℕ) → Phys P.Pool → Outcome × Phys P.Pool
fault_data P ctx fault s =
    if ltb ctx.mm_seg_data.next_free fault
    then (exits beyond_data, s)
    else (resumes, (map_page P pr_rw_us ctx.pgd fault s).1)

unfoldable pub fault_rodata :
    (P : Pfns) → ExecContext → (write_bit fault : ℕ) → Phys P.Pool → Outcome × Phys P.Pool
fault_rodata P ctx write_bit fault s =
    if ltb ctx.mm_seg_rodata.next_free fault
    then (exits beyond_rodata, s)
    else if low_bits write_bit 1 == 1
    then (exits rodata_write, s)
    else (resumes, (map_page P pr_us ctx.pgd fault s).1)

unfoldable pub fault_stack :
    (P : Pfns) → ExecContext → (fault : ℕ) → Phys P.Pool → Outcome × Phys P.Pool
fault_stack P ctx fault s = (resumes, (map_page P pr_rw_us ctx.pgd fault s).1)

-- `error` is the error code that the processor pushed, `fault` the address in CR2.
unfoldable pub handle_page_fault :
    (P : Pfns) → ExecContext → (error fault : ℕ) → Phys P.Pool → Outcome × Phys P.Pool
handle_page_fault P ctx error fault s =
    let write_bit = low_bits (shr error 1) 1 in
    if low_bits error 1 == 1
    then (exits protection, s)
    else if in_segment ctx.mm_seg_data fault
    then fault_data P ctx fault s
    else if in_segment ctx.mm_seg_rodata fault
    then fault_rodata P ctx write_bit fault s
    else if in_segment ctx.mm_seg_stack fault
    then fault_stack P ctx fault s
    else (exits no_segment, s)
