-- ===== src/Syscall/Shrink.antt =====
-- On `SYSCALL_SHRINK` in Assn2/entry.c, over a whole range of pages.
use gem_os_cs330a.Prelude.{
  ℕ, zero, suc, ◌+◌, ◌-◌, ◌*◌, ◌%◌, ◌^◌, ◌<◌, ◌≤◌, ◌≡◌, refl, sym, ap, ◌∙◌, true, false, none, ◌==◌,
  ltb, arith, List, length,
}
use gem_os_cs330a.Context.{MmSegment, ExecContext}
use gem_os_cs330a.Mem.{Mem, Phys, Pfns, PfnLaws}
use gem_os_cs330a.Mem.Walk.{walk, IsTree, page_path}
use gem_os_cs330a.Mem.Fill.{path_discrete}
use gem_os_cs330a.Syscall.{MapFlags, unmap_page, shrink_loop, shrink_segment, do_shrink}
use gem_os_cs330a.Syscall.Unmap.{Unmapped, Unmapped-IsTree, unmap_page_lem}

-- One of the `n` pages below `next`.
abbrev pub InRange : (next n : ℕ) → List ℕ → Type 0
InRange next n q = (k : ℕ) × (k < n) × (q ≡ page_path (next - 4096 * (k + 1)))

-- The `n` pages below `next` are gone, and no other page changed.
pub record Shrunk (pgd next n : ℕ) (mem mem' : Mem) : Type 0 where
  pub gone : (q : List ℕ) → InRange next n q → walk mem' pgd q ≡ none
  pub others :
      (q : List ℕ) → length q ≡ 4 → (InRange next n q → ⊥) → walk mem' pgd q ≡ walk mem pgd q
  pub stays : (q : List ℕ) → length q ≡ 4 → walk mem pgd q ≡ none → walk mem' pgd q ≡ none
  pub tree : IsTree mem' pgd

Shrunk-step :
    (pgd next n : ℕ) (mem mem₁ mem₂ : Mem)
    → Unmapped pgd (next - 4096) mem mem₁
    → Shrunk pgd (next - 4096) n mem₁ mem₂
    → Shrunk pgd next (suc n) mem mem₂
Shrunk-step pgd next n mem mem₁ mem₂ u r = record {
  gone = λ q i. gone q i.0 i.1 i.2;
  others = λ q h out.
      r.others q h (λ i. out (suc i.0, omega (arith, i.1), i.2 ∙ ap (λ x. page_path x) (shift i.0)))
      ∙ u.others q (omega arith) (λ e. out (0, omega arith, e ∙ ap (λ x. page_path x) first));
  stays = λ q h w. r.stays q h (elim (path_discrete q (page_path (next - 4096))) [
    | yes hit ↦ rw hit u.gone
    | no miss ↦ u.others q (omega arith) miss ∙ w
  ]);
  tree = r.tree;
}
  where
    first : next - 4096 ≡ next - 4096 * (0 + 1)
    first = omega arith

    shift : (k : ℕ) → next - 4096 - 4096 * (k + 1) ≡ next - 4096 * (suc k + 1)
    shift k = omega arith

    gone :
        (q : List ℕ) (k : ℕ)
        → k < suc n
        → q ≡ page_path (next - 4096 * (k + 1))
        → walk mem₂ pgd q ≡ none
    gone q zero h e =
        let e' : q ≡ page_path (next - 4096) = e ∙ ap (λ x. page_path x) (sym first) in
        r.stays q (rw e' refl) (rw e' u.gone)
    gone q (suc k) h e = r.gone q (k, omega arith, e ∙ ap (λ x. page_path x) (sym (shift k)))

module _ {P : Pfns} (L : PfnLaws P) (pgd : ℕ) (small : pgd < 2 ^ 20) where
  pub shrink_loop_lem :
      (n next : ℕ) (s : Phys P.Pool)
      → next < 2 ^ 64
      → 4096 * n ≤ next
      → IsTree s.mem pgd
      → ((shrink_loop P pgd n next s).0 ≡ next - 4096 * n)
        × Shrunk pgd next n s.mem (shrink_loop P pgd n next s).1.mem
  unfolding shrink_loop
  shrink_loop_lem zero next s h k tree = (
    omega arith,
    record {
      gone = λ q i. absurd (omega (arith, i.1));
      others = λ q a b. refl;
      stays = λ q a w. w;
      tree = tree;
    },
  )
  shrink_loop_lem (suc n) next s h k tree =
      let first : (next + 2 ^ 64 - 4096) % 2 ^ 64 ≡ next - 4096 = omega arith in
      let u = (unmap_page_lem L pgd (next - 4096) s small tree).mem in
      let rest =
        shrink_loop_lem n (next - 4096) (unmap_page P pgd (next - 4096) s) (omega arith)
          (omega arith) (Unmapped-IsTree u tree) in
      rw (shrink_loop, first) (rest.0 ∙ omega arith, Shrunk-step pgd next n s.mem _ _ u rest.1)

shrink_loop-next :
    (P : Pfns) (pgd n next : ℕ) (s : Phys P.Pool)
    → next < 2 ^ 64
    → 4096 * n ≤ next
    → (shrink_loop P pgd n next s).0 ≡ next - 4096 * n
unfolding shrink_loop
shrink_loop-next P pgd zero next s h k = omega arith
shrink_loop-next P pgd (suc n) next s h k =
    let first : (next + 2 ^ 64 - 4096) % 2 ^ 64 ≡ next - 4096 = omega arith in
    rw (shrink_loop, first)
      (shrink_loop-next P pgd n (next - 4096) (unmap_page P pgd (next - 4096) s) (omega arith)
          (omega arith)
        ∙ omega arith)

-- Segments of the process lie above the first 4 GB, and hold what they have handed out.
pub record IsSegment (seg : MmSegment) : Type 0 where
  pub high : 2 ^ 32 ≤ seg.start
  pub lower : seg.start ≤ seg.next_free
  pub upper : seg.next_free ≤ seg.end
  pub bound : seg.end < 2 ^ 64

-- The result of one segment: its state, the value returned, and memory.
pub record SegmentShrunk (P : Pfns) (pgd size : ℕ) (seg : MmSegment) (s : Phys P.Pool)
    (r : MmSegment × ℕ × Phys P.Pool) : Type 0 where
  pub segment : r.0 ≡ record seg { next_free = seg.next_free - 4096 * size }
  pub result : r.1 ≡ seg.next_free - 4096 * size
  pub pages : Shrunk pgd seg.next_free size s.mem r.2.mem

module _ {P : Pfns} (L : PfnLaws P) (pgd size : ℕ) (seg : MmSegment) (s : Phys P.Pool)
    (valid : IsSegment seg) (count : size < 2 ^ 20) where
  pub shrink_segment_lem :
      pgd < 2 ^ 20
      → IsTree s.mem pgd
      → seg.start + 4096 * size ≤ seg.next_free
      → SegmentShrunk P pgd size seg s (shrink_segment P pgd size seg s)
  unfolding shrink_segment
  shrink_segment_lem small tree fits =
      let go : ltb ((seg.next_free + 2 ^ 64 - size * 4096 % 2 ^ 32) % 2 ^ 64) seg.start ≡ false =
        ground (arith, valid.bound, valid.upper, valid.lower) in
      let loop =
        shrink_loop_lem L pgd small size seg.next_free s (omega (arith, valid.bound, valid.upper))
          (omega arith) tree in
      rw (shrink_segment, go)
        (record {
          segment = ap (λ x. record seg { next_free = x }) loop.0;
          result = loop.0;
          pages = loop.1;
        })

  pub shrink_segment_refused :
      seg.next_free < seg.start + 4096 * size → shrink_segment P pgd size seg s ≡ (seg, 0, s)
  unfolding shrink_segment
  shrink_segment_refused over =
      let stop : ltb ((seg.next_free + 2 ^ 64 - size * 4096 % 2 ^ 32) % 2 ^ 64) seg.start ≡ true =
        ground (arith, valid.bound, valid.upper, valid.lower, valid.high) in
      rw (shrink_segment, stop)

-- The results of `SYSCALL_SHRINK` of the data segment for fewer than 2 ^ 20 pages.
pub record DataShrunk (P : Pfns) (size : ℕ) (ctx : ExecContext) (s : Phys P.Pool)
    (r : ExecContext × ℕ × Phys P.Pool) : Type 0 where
  pub fits :
      ctx.mm_seg_data.start + 4096 * size ≤ ctx.mm_seg_data.next_free
      → (r.0 ≡ record ctx {
        mm_seg_data = record ctx.mm_seg_data {
          next_free = ctx.mm_seg_data.next_free - 4096 * size;
        };
      })
        × (r.1 ≡ ctx.mm_seg_data.next_free - 4096 * size)
        × Shrunk ctx.pgd ctx.mm_seg_data.next_free size s.mem r.2.mem
  pub refused : ctx.mm_seg_data.next_free < ctx.mm_seg_data.start + 4096 * size → r ≡ (ctx, 0, s)

-- Where the data segment is well formed, the root is below 2 ^ 20 and the tables are a tree,
-- SYSCALL_SHRINK with MAP_WR by fewer than 2 ^ 20 pages unmaps exactly the pages asked for, and
-- lowers and returns next_free, if the segment has handed out so many; otherwise it returns 0 and
-- changes nothing.
pub do_shrink_data :
    {P : Pfns} (L : PfnLaws P) (m : MapFlags) (size : ℕ) (ctx : ExecContext) (s : Phys P.Pool)
    → size < 2 ^ 20
    → m.map_wr < 2 ^ 32
    → IsSegment ctx.mm_seg_data
    → ctx.pgd < 2 ^ 20
    → IsTree s.mem ctx.pgd
    → DataShrunk P size ctx s (do_shrink P m size m.map_wr ctx s)
unfolding do_shrink
do_shrink_data {P} L m size ctx s count flag valid small tree = record {
  fits = λ h.
      let r = shrink_segment_lem L ctx.pgd size ctx.mm_seg_data s valid count small tree h in
      rw (do_shrink, low_size, low_flag, same)
        (ap (λ x. record ctx { mm_seg_data = x }) r.segment, r.result, r.pages);
  refused = λ h. rw (
    do_shrink,
    low_size,
    low_flag,
    same,
    shrink_segment_refused {P = P} L ctx.pgd size ctx.mm_seg_data s valid count h,
  );
}
  where
    low_size : size % 2 ^ 32 ≡ size
    low_size = omega arith

    low_flag : m.map_wr % 2 ^ 32 ≡ m.map_wr
    low_flag = omega arith

    same : (m.map_wr == m.map_wr) ≡ true
    same = ground arith

-- From 2 ^ 20 pages on, below 2 ^ 32, where the data segment is well formed and has handed out less
-- than 4 GB, but no less than the 32-bit product of the size and 4096, and next_free is at least
-- the size in bytes, SYSCALL_SHRINK with MAP_WR passes its guard and lowers next_free below the
-- start of the segment.
pub do_shrink_wraps :
    (P : Pfns) (m : MapFlags) (size : ℕ) (ctx : ExecContext) (s : Phys P.Pool)
    → 2 ^ 20 ≤ size
    → size < 2 ^ 32
    → m.map_wr < 2 ^ 32
    → IsSegment ctx.mm_seg_data
    → ctx.mm_seg_data.next_free < ctx.mm_seg_data.start + 2 ^ 32
    → ctx.mm_seg_data.start + size * 4096 % 2 ^ 32 ≤ ctx.mm_seg_data.next_free
    → 4096 * size ≤ ctx.mm_seg_data.next_free
    → (do_shrink P m size m.map_wr ctx s).0.mm_seg_data.next_free < ctx.mm_seg_data.start
unfolding do_shrink shrink_segment
do_shrink_wraps P m size ctx s big word flag valid room guard low =
    let low_size : size % 2 ^ 32 ≡ size = omega arith in
    let low_flag : m.map_wr % 2 ^ 32 ≡ m.map_wr = omega arith in
    let same : (m.map_wr == m.map_wr) ≡ true = ground arith in
    let seg = ctx.mm_seg_data in
    let go : ltb ((seg.next_free + 2 ^ 64 - size * 4096 % 2 ^ 32) % 2 ^ 64) seg.start ≡ false =
      ground (arith, valid.bound, valid.upper, valid.lower) in
    rw (do_shrink, low_size, low_flag, same, shrink_segment, go)
      (omega (
        arith,
        shrink_loop-next P ctx.pgd size seg.next_free s (omega (arith, valid.bound, valid.upper))
            low,
      ))
