-- ===== src/Fault/Boundary.antt =====
-- On `handle_page_fault` and `SYSCALL_SHRINK` in Assn2/entry.c: the first address behind what a
-- segment has handed out.
use gem_os_cs330a.Prelude.{ℕ, ◌+◌, ◌-◌, ◌*◌, ◌^◌, ◌<◌, ◌≤◌, ◌≡◌, refl, Bool, true, none, arith}
use gem_os_cs330a.Context.{MmSegment, ExecContext}
use gem_os_cs330a.Mem.{Phys, Pfns, PfnLaws}
use gem_os_cs330a.Mem.Walk.{walk, page_path, IsTree}
use gem_os_cs330a.Mem.Entry.{IsSound}
use gem_os_cs330a.Mem.Map.{Mapped}
use gem_os_cs330a.Syscall.{MapFlags, do_shrink}
use gem_os_cs330a.Syscall.Shrink.{IsSegment, do_shrink_data}
use gem_os_cs330a.Fault.{resumes, in_segment, handle_page_fault}
use gem_os_cs330a.Fault.Handle.{IsApart, rights, absent_of, accepts, writes_of, accepted-Mapped}

in_data : (seg : MmSegment) → IsSegment seg → in_segment seg seg.next_free ≡ true
unfolding in_segment
in_data seg valid = ground (arith, valid.lower, valid.upper)

touches :
    (ctx : ExecContext) (w : Bool)
    → IsSegment ctx.mm_seg_data
    → accepts ctx w ctx.mm_seg_data.next_free ≡ true
touches ctx w valid = ground (arith, in_data ctx.mm_seg_data valid)

-- After SYSCALL_SHRINK took at least one page and fewer than 2 ^ 20 from a well-formed data segment
-- that has handed them out, where the tables are a tree before, and sound after it with 4 frames
-- available, and the segments lie apart, the page at the address that the call returned is not
-- mapped, and a fault there is resumed with the page mapped again.
pub fault-shrink :
    {P : Pfns} (L : PfnLaws P) (m : MapFlags) (size error : ℕ) (ctx : ExecContext) (s : Phys P.Pool)
    → 0 < size
    → size < 2 ^ 20
    → m.map_wr < 2 ^ 32
    → IsSegment ctx.mm_seg_data
    → ctx.mm_seg_data.start + 4096 * size ≤ ctx.mm_seg_data.next_free
    → ctx.pgd < 2 ^ 20
    → IsTree s.mem ctx.pgd
    → IsApart (do_shrink P m size m.map_wr ctx s).0
    → IsSound L ctx.pgd (do_shrink P m size m.map_wr ctx s).2
    → 4 ≤ L.available (do_shrink P m size m.map_wr ctx s).2.pool
    → absent_of error ≡ true
    → let r = do_shrink P m size m.map_wr ctx s in
      (walk r.2.mem ctx.pgd (page_path r.1) ≡ none)
      × ((handle_page_fault P r.0 error r.1 r.2).0 ≡ resumes)
      × (pfn : ℕ) × Mapped L ctx.pgd
          (rights r.0 r.1)
          r.1
          r.2
          (pfn, (handle_page_fault P r.0 error r.1 r.2).1)
fault-shrink {P} L m size error ctx s pos count flag valid fits small tree apart sound room absent =
    let (same, result, pages) =
      (do_shrink_data L m size ctx s count flag valid small tree).fits fits in
    let ctx' : ExecContext = record ctx {
      mm_seg_data = record ctx.mm_seg_data { next_free = ctx.mm_seg_data.next_free - 4096 * size };
    } in
    let valid' : IsSegment ctx'.mm_seg_data = record {
      high = valid.high;
      lower = omega arith;
      upper = omega (arith, valid.upper);
      bound = valid.bound;
    } in
    let apart' : IsApart ctx' = rw same at apart in
    let handled =
      accepted-Mapped L ctx' error (ctx.mm_seg_data.next_free - 4096 * size)
        (do_shrink P m size m.map_wr ctx s).2 apart' small sound room absent
        (touches ctx' (writes_of error) valid') in
    let first : ctx.mm_seg_data.next_free - 4096 * (size - 1 + 1)
        ≡ ctx.mm_seg_data.next_free - 4096 * size =
      omega arith in
    rw (same, result)
      (
        pages.gone (page_path (ctx.mm_seg_data.next_free - 4096 * size))
            (size - 1, omega arith, rw first refl),
        handled.0,
        handled.1,
        handled.2,
      )
