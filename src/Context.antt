-- ===== src/Context.antt =====
-- `struct mm_segment` and the part of `struct exec_context` that describes memory
-- (Assn1/context.h). `next_free`, the first address of a segment that is not handed out yet, is in
-- the header of the later assignments, which use it.
use gem_os_cs330a.Prelude.{ℕ}

pub record MmSegment : Type 0 where
  pub start : ℕ
  pub end : ℕ
  pub next_free : ℕ
  pub access_flags : ℕ

pub record ExecContext : Type 0 where
  pub id : ℕ
  pub pgd : ℕ
  pub mm_seg_code : MmSegment
  pub mm_seg_rodata : MmSegment
  pub mm_seg_data : MmSegment
  pub mm_seg_stack : MmSegment
  pub arg_pfn : ℕ
