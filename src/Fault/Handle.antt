-- ===== src/Fault/Handle.antt =====
-- On `handle_page_fault` in Assn2/entry.c: which faults are resumed, and what is mapped then.
use gem_os_cs330a.Prelude.{
  ℕ, ◌^◌, ◌<◌, ◌≤◌, ◌≡◌, refl, Bool, true, false, ◌&&◌, ◌||◌, ◌==◌, not, leb, ltb, arith,
  if◌then◌else◌, shr, low_bits,
}
use gem_os_cs330a.Context.{ExecContext}
use gem_os_cs330a.Mem.{Phys, Pfns, PfnLaws, pr_rw_us, pr_us, map_page}
use gem_os_cs330a.Mem.Entry.{IsSound, IsFlags}
use gem_os_cs330a.Mem.Map.{Mapped, map_page_lem}
use gem_os_cs330a.Fault.{
  Exit, protection, beyond_data, beyond_rodata, rodata_write, no_segment, resumes, exits,
  in_segment, fault_data, fault_rodata, fault_stack, handle_page_fault,
}

-- The segments of a process lie apart: an address is in one of them at most.
pub record IsApart (ctx : ExecContext) : Type 0 where
  pub data_rodata :
      (a : ℕ) → in_segment ctx.mm_seg_data a ≡ true → in_segment ctx.mm_seg_rodata a ≡ false
  pub data_stack :
      (a : ℕ) → in_segment ctx.mm_seg_data a ≡ true → in_segment ctx.mm_seg_stack a ≡ false
  pub rodata_stack :
      (a : ℕ) → in_segment ctx.mm_seg_rodata a ≡ true → in_segment ctx.mm_seg_stack a ≡ false

-- What a process may touch: data and read-only data below `next_free`, the latter for reading only, and
-- its stack.
abbrev pub may_touch : ExecContext → (writes : Bool) → ℕ → Bool
may_touch ctx writes a =
    (in_segment ctx.mm_seg_data a && ltb a ctx.mm_seg_data.next_free)
    || ((in_segment ctx.mm_seg_rodata a && (ltb a ctx.mm_seg_rodata.next_free && not writes))
        || in_segment ctx.mm_seg_stack a)

-- What the code accepts: the same, and the address `next_free` too.
abbrev pub accepts : ExecContext → (writes : Bool) → ℕ → Bool
accepts ctx writes a =
    (in_segment ctx.mm_seg_data a && leb a ctx.mm_seg_data.next_free)
    || ((in_segment ctx.mm_seg_rodata a && (leb a ctx.mm_seg_rodata.next_free && not writes))
        || in_segment ctx.mm_seg_stack a)

-- The rights of the page: read-only data is not writable.
abbrev pub rights : ExecContext → ℕ → ℕ
rights ctx a = if in_segment ctx.mm_seg_rodata a then pr_us else pr_rw_us

abbrev pub writes_of : ℕ → Bool
writes_of error = low_bits (shr error 1) 1 == 1

abbrev pub absent_of : ℕ → Bool
absent_of error = low_bits error 1 == 0

-- Why a process is ended.
abbrev pub reason : ExecContext → (error fault : ℕ) → Exit
reason ctx error fault =
    if absent_of error
    then (if in_segment ctx.mm_seg_data fault
        then beyond_data
        else if in_segment ctx.mm_seg_rodata fault
        then (if leb fault ctx.mm_seg_rodata.next_free then rodata_write else beyond_rodata)
        else no_segment)
    else protection

module _ (P : Pfns) (ctx : ExecContext) (error fault : ℕ) (s : Phys P.Pool)
    (apart : IsApart ctx) where
  resumed_lem :
      absent_of error ≡ true
      → accepts ctx (writes_of error) fault ≡ true
      → handle_page_fault P ctx error fault s
        ≡ (resumes, (map_page P (rights ctx fault) ctx.pgd fault s).1)
  unfolding handle_page_fault fault_data fault_rodata fault_stack
  resumed_lem a b =
      ground (arith, apart.data_rodata fault, apart.data_stack fault, apart.rodata_stack fault)

  -- Where the segments lie apart, a fault on a present page, or at an address that the code does
  -- not accept, which is one outside of data, read-only data and stack, or above next_free of its
  -- segment, or one in read-only data that is written, ends the process for the reason that fits,
  -- and leaves memory and the frames as they were.
  pub handle_page_fault-ended :
      (absent_of error && accepts ctx (writes_of error) fault) ≡ false
      → handle_page_fault P ctx error fault s ≡ (exits (reason ctx error fault), s)
  unfolding handle_page_fault fault_data fault_rodata fault_stack
  handle_page_fault-ended a =
      ground (arith, apart.data_rodata fault, apart.data_stack fault, apart.rodata_stack fault)

rights-IsFlags : (ctx : ExecContext) (a : ℕ) → IsFlags (rights ctx a)
rights-IsFlags ctx a = ground arith

-- A fault at an address that the code accepts.
pub accepted-Mapped :
    {P : Pfns} (L : PfnLaws P) (ctx : ExecContext) (error fault : ℕ) (s : Phys P.Pool)
    → IsApart ctx
    → ctx.pgd < 2 ^ 20
    → IsSound L ctx.pgd s
    → 4 ≤ L.available s.pool
    → absent_of error ≡ true
    → accepts ctx (writes_of error) fault ≡ true
    → ((handle_page_fault P ctx error fault s).0 ≡ resumes)
      × (pfn : ℕ) × Mapped L ctx.pgd
          (rights ctx fault)
          fault
          s
          (pfn, (handle_page_fault P ctx error fault s).1)
accepted-Mapped {P} L ctx error fault s apart small sound room absent may =
    rw (resumed_lem P ctx error fault s apart absent may) (
      refl,
      (map_page P (rights ctx fault) ctx.pgd fault s).0,
      map_page_lem L ctx.pgd (rights ctx fault) fault s small sound (rights-IsFlags ctx fault) room,
    )

may_touch-accepts :
    (ctx : ExecContext) (writes : Bool) (a : ℕ)
    → may_touch ctx writes a ≡ true
    → accepts ctx writes a ≡ true
may_touch-accepts ctx writes a h = ground arith

-- Where the segments lie apart, the root is below 2 ^ 20, the tables are a tree of frames in use
-- and at least 4 frames are available, a fault on an absent page at an address that the process may
-- touch, below next_free in data and read-only data, is resumed with that page mapped: by the entry
-- that it had, or by a new frame, with an entry that is read-only for read-only data and writable
-- otherwise. Writing to the page is allowed if the entries that were on the way to it allow it and,
-- where there was none, the rights of the segment. No other page is mapped, unmapped or moved, or
-- changes its rights, and the tables stay a tree of frames in use.
pub handle_page_fault-Mapped :
    {P : Pfns} (L : PfnLaws P) (ctx : ExecContext) (error fault : ℕ) (s : Phys P.Pool)
    → IsApart ctx
    → ctx.pgd < 2 ^ 20
    → IsSound L ctx.pgd s
    → 4 ≤ L.available s.pool
    → absent_of error ≡ true
    → may_touch ctx (writes_of error) fault ≡ true
    → ((handle_page_fault P ctx error fault s).0 ≡ resumes)
      × (pfn : ℕ) × Mapped L ctx.pgd
          (rights ctx fault)
          fault
          s
          (pfn, (handle_page_fault P ctx error fault s).1)
handle_page_fault-Mapped L ctx error fault s apart small sound room absent may =
    accepted-Mapped L ctx error fault s apart small sound room absent
      (may_touch-accepts ctx (writes_of error) fault may)
