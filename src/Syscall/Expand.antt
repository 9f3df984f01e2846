-- ===== src/Syscall/Expand.antt =====
-- On `SYSCALL_EXPAND` in Assn2/entry.c, alone and followed by `SYSCALL_SHRINK`.
use gem_os_cs330a.Prelude.{
  ℕ, ◌+◌, ◌-◌, ◌*◌, ◌%◌, ◌^◌, ◌<◌, ◌≤◌, ◌≡◌, ◌≢◌, refl, ◌∙◌, Bool, true, ◌&&◌, leb, arith,
  if◌then◌else◌,
}
use gem_os_cs330a.Context.{MmSegment, ExecContext}
use gem_os_cs330a.Mem.{Phys, Pfns, PfnLaws}
use gem_os_cs330a.Mem.Walk.{IsTree}
use gem_os_cs330a.Syscall.{MapFlags, expand_segment, do_expand, do_shrink}
use gem_os_cs330a.Syscall.Shrink.{IsSegment, Shrunk, do_shrink_data}

abbrev pub grown : ℕ → MmSegment → MmSegment
grown size seg = record seg { next_free = seg.next_free + 4096 * size }

abbrev pub room : ℕ → MmSegment → Bool
room size seg = leb size 512 && leb (seg.next_free + 4096 * size) seg.end

expand_segment_lem :
    (size : ℕ) (seg : MmSegment)
    → size ≤ 512
    → IsSegment seg
    → seg.end < 2 ^ 63
    → expand_segment size seg ≡ (
        if leb (seg.next_free + 4096 * size) seg.end
        then (grown size seg, seg.next_free)
        else (seg, 0))
unfolding expand_segment
expand_segment_lem size seg h valid small =
    let bytes : size * 4096 % 2 ^ 32 ≡ 4096 * size = omega arith in
    let sum : (seg.next_free + 4096 * size) % 2 ^ 64 ≡ seg.next_free + 4096 * size =
      omega (arith, valid.upper) in
    rw (expand_segment, bytes, sum) (ground arith)

-- The outcome of `SYSCALL_EXPAND` for both kinds of segment and for other flags.
pub record Expands (m : MapFlags) (size : ℕ) (ctx : ExecContext) : Type 0 where
  pub wr : do_expand m size m.map_wr ctx ≡ (
      if room size ctx.mm_seg_data
      then (record ctx { mm_seg_data = grown size ctx.mm_seg_data }, ctx.mm_seg_data.next_free)
      else (ctx, 0))
  pub rd : do_expand m size m.map_rd ctx ≡ (
      if room size ctx.mm_seg_rodata
      then (
        record ctx { mm_seg_rodata = grown size ctx.mm_seg_rodata },
        ctx.mm_seg_rodata.next_free,
      )
      else (ctx, 0))
  pub other :
      (flags : ℕ)
      → flags < 2 ^ 32
      → flags ≢ m.map_wr
      → flags ≢ m.map_rd
      → do_expand m size flags ctx ≡ (ctx, 0)

-- Where data and read-only data are well formed and end below 2 ^ 63, and MAP_WR and MAP_RD are
-- different 32-bit numbers, SYSCALL_EXPAND of a 32-bit size moves next_free of the segment that the
-- flags name up by that many pages and returns its old value, if there are at most 512 pages and
-- they end within the segment; otherwise, and for other flags, it returns 0 and changes nothing.
pub do_expand_lem :
    (m : MapFlags) (size : ℕ) (ctx : ExecContext)
    → size < 2 ^ 32
    → m.map_wr < 2 ^ 32
    → m.map_rd < 2 ^ 32
    → m.map_wr ≢ m.map_rd
    → IsSegment ctx.mm_seg_data
    → IsSegment ctx.mm_seg_rodata
    → ctx.mm_seg_data.end < 2 ^ 63
    → ctx.mm_seg_rodata.end < 2 ^ 63
    → Expands m size ctx
unfolding do_expand
do_expand_lem m size ctx word wr rd ne data_ok rodata_ok data_small rodata_small = record {
  wr = ground (arith, expand_segment_lem size ctx.mm_seg_data);
  rd = ground (arith, expand_segment_lem size ctx.mm_seg_rodata);
  other = λ flags h a b. ground arith;
}

do_expand_wr :
    (m : MapFlags) (size : ℕ) (ctx : ExecContext)
    → m.map_wr < 2 ^ 32
    → IsSegment ctx.mm_seg_data
    → ctx.mm_seg_data.end < 2 ^ 63
    → room size ctx.mm_seg_data ≡ true
    → do_expand m size m.map_wr ctx
      ≡ (record ctx { mm_seg_data = grown size ctx.mm_seg_data }, ctx.mm_seg_data.next_free)
unfolding do_expand
do_expand_wr m size ctx wr valid small granted =
    ground (arith, expand_segment_lem size ctx.mm_seg_data)

-- SYSCALL_SHRINK undoes SYSCALL_EXPAND: where the data segment is well formed and ends below 2 ^
-- 63, the flags are those of the data segment, the root is below 2 ^ 20 and the tables are a tree,
-- then after a growth by at most 512 pages that end within the segment, shrinking by as many pages
-- restores the process, returns the address that the growth returned, and leaves none of the new
-- pages mapped and all other pages as they were.
pub shrink-expand :
    {P : Pfns} (L : PfnLaws P) (m : MapFlags) (size : ℕ) (ctx : ExecContext) (s : Phys P.Pool)
    → m.map_wr < 2 ^ 32
    → IsSegment ctx.mm_seg_data
    → ctx.mm_seg_data.end < 2 ^ 63
    → room size ctx.mm_seg_data ≡ true
    → ctx.pgd < 2 ^ 20
    → IsTree s.mem ctx.pgd
    → ((do_shrink P m size m.map_wr (do_expand m size m.map_wr ctx).0 s).0 ≡ ctx)
      × ((do_shrink P m size m.map_wr (do_expand m size m.map_wr ctx).0 s).1
          ≡ (do_expand m size m.map_wr ctx).1)
      × Shrunk ctx.pgd
          (ctx.mm_seg_data.next_free + 4096 * size)
          size
          s.mem
          (do_shrink P m size m.map_wr (do_expand m size m.map_wr ctx).0 s).2.mem
shrink-expand {P} L m size ctx s wr valid small granted small_pgd tree =
    let count : size ≤ 512 = ground arith in
    let fits : ctx.mm_seg_data.next_free + 4096 * size ≤ ctx.mm_seg_data.end = ground arith in
    let valid' : IsSegment (grown size ctx.mm_seg_data) = record {
      high = valid.high;
      lower = omega (arith, valid.lower);
      upper = fits;
      bound = valid.bound;
    } in
    let ctx' : ExecContext = record ctx { mm_seg_data = grown size ctx.mm_seg_data } in
    let r =
      (do_shrink_data L m size ctx' s (omega arith) wr valid' small_pgd tree).fits
        (omega (arith, valid.lower)) in
    let back : ctx.mm_seg_data.next_free + 4096 * size - 4096 * size ≡ ctx.mm_seg_data.next_free =
      omega arith in
    rw (do_expand_wr m size ctx wr valid small granted) (r.0 ∙ rw back refl, r.1 ∙ back, r.2)
