-- ===== src/Mem.antt =====
-- Physical memory as the page-table code of the assignments sees it: `osmap(pfn)` is the page of
-- frame `pfn`, read and written as 512 entries of 64 bits, and `os_pfn_alloc`, `os_pfn_free` are the
-- kernel's frame allocator, which is not in the repository and so is a parameter.
pub mod Entry
pub mod Fill
pub mod Map
pub mod Rights
pub mod Walk
use gem_os_cs330a.Prelude.{
  ℕ, ◌+◌, ◌-◌, ◌*◌, ◌/◌, ◌%◌, ◌^◌, ◌<◌, ◌≤◌, ◌≡◌, ◌≢◌, Bool, true, false, ◌&&◌, ◌==◌, if◌then◌else◌,
  shr, shl, low_bits, bit_or,
}

-- The two pools of page frames.
pub data Region : Type 0 where
  os_pt_reg : Region
  user_reg : Region

abbrev pub Mem : Type 0
Mem = ℕ → ℕ → ℕ

pub record Phys (Pool : Type 0) : Type 0 where
  pub mem : Mem
  pub pool : Pool

-- `*(table + i) = v`.
unfoldable pub set_entry : Mem → ℕ → ℕ → ℕ → Mem
set_entry mem t i v = λ q j. if q == t && j == i then v else mem q j

-- The frame allocator: its calls.
pub record Pfns : Type 1 where
  pub Pool : Type 0
  pub os_pfn_alloc : Region → Phys Pool → ℕ × Phys Pool
  pub os_pfn_free : Region → ℕ → Phys Pool → Phys Pool

-- What the code relies on, of the allocator, as assumptions: while frames are left, an allocation returns
-- a frame that was not in use, below 4 GB, leaves the other pages as they are, and a frame for page
-- tables comes filled with zeros. Giving a frame back writes to no page.
pub record PfnLaws (P : Pfns) : Type 0 where
  pub used : P.Pool → ℕ → Bool
  pub available : P.Pool → ℕ
  pub alloc_fresh :
      (r : Region) (s : Phys P.Pool)
      → 0 < available s.pool
      → used s.pool (P.os_pfn_alloc r s).0 ≡ false
  pub alloc_small :
      (r : Region) (s : Phys P.Pool) → 0 < available s.pool → (P.os_pfn_alloc r s).0 < 2 ^ 20
  pub alloc_used :
      (r : Region) (s : Phys P.Pool)
      → 0 < available s.pool
      → used (P.os_pfn_alloc r s).1.pool (P.os_pfn_alloc r s).0 ≡ true
  pub alloc_still_used :
      (r : Region) (s : Phys P.Pool) (q : ℕ)
      → used s.pool q ≡ true
      → used (P.os_pfn_alloc r s).1.pool q ≡ true
  pub alloc_keeps :
      (r : Region) (s : Phys P.Pool) (q j : ℕ)
      → used s.pool q ≡ true
      → (P.os_pfn_alloc r s).1.mem q j ≡ s.mem q j
  pub alloc_zeroed :
      (s : Phys P.Pool) (j : ℕ)
      → (P.os_pfn_alloc os_pt_reg s).1.mem (P.os_pfn_alloc os_pt_reg s).0 j ≡ 0
  pub alloc_available :
      (r : Region) (s : Phys P.Pool) → available s.pool ≤ available (P.os_pfn_alloc r s).1.pool + 1
  pub free_keeps : (r : Region) (q : ℕ) (s : Phys P.Pool) → (P.os_pfn_free r q s).mem ≡ s.mem

-- Bits 39, 30, 21 and 12 upwards of an address, nine of each.
abbrev pub offset_l4 : ℕ → ℕ
offset_l4 va = low_bits (shr va 0x27) 9

abbrev pub offset_l3 : ℕ → ℕ
offset_l3 va = low_bits (shr va 0x1e) 9

abbrev pub offset_l2 : ℕ → ℕ
offset_l2 va = low_bits (shr va 0x15) 9

abbrev pub offset_l1 : ℕ → ℕ
offset_l1 va = low_bits (shr va 0xc) 9

-- The bits `pr`, `rw` and `us` of an entry.
abbrev pub pr_rw_us : ℕ
pr_rw_us = 7

abbrev pub pr_us : ℕ
pr_us = 5

-- `entry & 1`.
abbrev pub is_present : ℕ → Bool
is_present e = low_bits e 1 == 1

-- `entry >> PTEoffset`, kept in a 32-bit variable.
abbrev pub pte_pfn : ℕ → ℕ
pte_pfn e = shr e 0xc % 2 ^ 32

-- `(pfn << PTEoffset) | flags`, where `pfn` is a 32-bit variable.
unfoldable pub make_pte : ℕ → ℕ → ℕ
make_pte pfn flags = bit_or (shl pfn 0xc % 2 ^ 32) flags

-- The block that is repeated for every level of every segment: follow entry `i` of table `t` if it
-- is present, and otherwise allocate a frame and enter it.
unfoldable pub table_entry : (P : Pfns) → Region → (flags t i : ℕ) → Phys P.Pool → ℕ × Phys P.Pool
table_entry P r flags t i s =
    if is_present (s.mem t i)
    then (pte_pfn (s.mem t i), s)
    else (let (pfn, s') = P.os_pfn_alloc r s in
        (pfn, record s' { mem = set_entry s'.mem t i (make_pte pfn flags) }))

-- The three levels of tables under `pgd`: the frame of the last one.
unfoldable pub table_path : (P : Pfns) → (flags pgd va : ℕ) → Phys P.Pool → ℕ × Phys P.Pool
unfolding table_entry
table_path P flags pgd va s =
    let (pfn_l3, s₁) = table_entry P os_pt_reg flags pgd (offset_l4 va) s in
    let (pfn_l2, s₂) = table_entry P os_pt_reg flags pfn_l3 (offset_l3 va) s₁ in
    table_entry P os_pt_reg flags pfn_l2 (offset_l2 va) s₂

-- The tables and the page.
unfoldable pub map_page : (P : Pfns) → (flags pgd va : ℕ) → Phys P.Pool → ℕ × Phys P.Pool
unfolding table_path
map_page P flags pgd va s =
    let (pfn_l1, s₁) = table_path P flags pgd va s in
    table_entry P user_reg flags pfn_l1 (offset_l1 va) s₁
