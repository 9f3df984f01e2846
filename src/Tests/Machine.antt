-- ===== src/Tests/Machine.antt =====
-- A frame allocator that hands out the next frame of a counter, filled with zeros, and a process
-- with its segments.
use gem_os_cs330a.Prelude.{ℕ, ◌+◌, ◌-◌, ◌^◌, refl, List, [], ◌∷◌, ◌==◌, ltb, if◌then◌else◌, arith}
use gem_os_cs330a.Context.{MmSegment, ExecContext}
use gem_os_cs330a.Mem.{Region, Mem, Phys, Pfns, PfnLaws}

pub record Counter : Type 0 where
  pub next : ℕ
  pub freed : List (Region × ℕ)

abbrev zero_page : Mem → ℕ → Mem
zero_page mem t q j = if q == t then 0 else mem q j

abbrev alloc : Region → Phys Counter → ℕ × Phys Counter
alloc r s = (
  s.pool.next,
  record { mem = zero_page s.mem s.pool.next; pool = record s.pool { next = s.pool.next + 1 } },
)

abbrev free : Region → ℕ → Phys Counter → Phys Counter
free r q s = record s { pool = record s.pool { freed = (r, q) ∷ s.pool.freed } }

abbrev pub pfns : Pfns
pfns = record { Pool = Counter; os_pfn_alloc = alloc; os_pfn_free = free }

abbrev pub laws : PfnLaws pfns
laws = record {
  used = λ p q. ltb q p.next;
  available = λ p. 2 ^ 20 - p.next;
  alloc_fresh = λ r s h. ground arith;
  alloc_small = λ r s h. omega arith;
  alloc_used = λ r s h. ground arith;
  alloc_still_used = λ r s q h. ground arith;
  alloc_keeps = λ r s q j h. ground arith;
  alloc_zeroed = λ s j. ground arith;
  alloc_available = λ r s. omega arith;
  free_keeps = λ r q s. refl;
}

abbrev segment : ℕ → ℕ → ℕ → MmSegment
segment start end next_free = record {
  start = start;
  end = end;
  next_free = next_free;
  access_flags = 3;
}

-- The argument's page is frame 5.
abbrev pub process : ExecContext
process = record {
  id = 1;
  pgd = 0;
  mm_seg_code = segment 0x100000000 0x13FFFFFFF 0x100001000;
  mm_seg_rodata = segment 0x140000000 0x17FFFFFFF 0x140001000;
  mm_seg_data = segment 0x180000000 0x1BFFFFFFF 0x180004000;
  mm_seg_stack = segment 0x7C0000000 0x800000000 0x800000000;
  arg_pfn = 5;
}

-- Frames below 6 are in use.
abbrev pub boot : Phys Counter
boot = record { mem = λ q j. 0; pool = record { next = 6; freed = [] } }
