-- ===== src/Syscall.antt =====
-- Assn2/entry.c: the system calls that grow and shrink a segment and that write to the console.
pub mod Expand
pub mod Unmap
pub mod Write
pub mod Shrink
use gem_os_cs330a.Prelude.{
  ℕ, zero, suc, ◌+◌, ◌-◌, ◌*◌, ◌%◌, ◌^◌, Bool, true, false, ◌||◌, Option, none, some, List, [], ◌∷◌,
  ◌++◌, ◌==◌, ltb, leb, if◌then◌else◌, ◌>>=◌,
}
use gem_os_cs330a.Context.{MmSegment, ExecContext}
use gem_os_cs330a.Mem.{
  Region, os_pt_reg, user_reg, Mem, Phys, Pfns, set_entry, offset_l4, offset_l3, offset_l2,
  offset_l1, is_present, pte_pfn,
}

-- `return -1` of a function into `unsigned long`.
abbrev pub minus_one : ℕ
minus_one = 2 ^ 64 - 1

-- Follow entry `i` of table `t`, if it is present.
unfoldable pub follow : Mem → ℕ → ℕ → Option ℕ
follow mem t i = if is_present (mem t i) then some (pte_pfn (mem t i)) else none

-- The frame of the last table of `va`: the three blocks of the walk that `write` and `shrink` make.
unfoldable pub find_l1 : Mem → (pgd va : ℕ) → Option ℕ
find_l1 mem pgd va = do
  l3 ← follow mem pgd (offset_l4 va)
  l2 ← follow mem l3 (offset_l3 va)
  follow mem l2 (offset_l2 va)

-- The header's `MAP_WR` and `MAP_RD`, which is not in the repository.
pub record MapFlags : Type 0 where
  pub map_wr : ℕ
  pub map_rd : ℕ

-- One segment of `SYSCALL_EXPAND`: `size * 4096` is a product of 32-bit numbers.
unfoldable pub expand_segment : ℕ → MmSegment → MmSegment × ℕ
expand_segment size seg =
    let bytes = size * 4096 % 2 ^ 32 in
    if ltb seg.end ((seg.next_free + bytes) % 2 ^ 64)
    then (seg, 0)
    else (record seg { next_free = (seg.next_free + bytes) % 2 ^ 64 }, seg.next_free)

-- `SYSCALL_EXPAND`.
unfoldable pub do_expand : MapFlags → (param1 param2 : ℕ) → ExecContext → ExecContext × ℕ
do_expand m param1 param2 ctx =
    let size = param1 % 2 ^ 32 in
    let flags = param2 % 2 ^ 32 in
    if ltb 512 size
    then (ctx, 0)
    else if flags == m.map_wr
    then (let (seg, result) = expand_segment size ctx.mm_seg_data in
        (record ctx { mm_seg_data = seg }, result))
    else if flags == m.map_rd
    then (let (seg, result) = expand_segment size ctx.mm_seg_rodata in
        (record ctx { mm_seg_rodata = seg }, result))
    else (ctx, 0)

-- The body of the loop of `SYSCALL_SHRINK`, at the address of the page: where the walk stops the
-- source goes on to the next page. `*(l1addr + offsetL1) &= ~1` clears the lowest bit.
unfoldable pub unmap_page : (P : Pfns) → (pgd address : ℕ) → Phys P.Pool → Phys P.Pool
unmap_page P pgd address s = elim (find_l1 s.mem pgd address) [
  | none ↦ s
  | some l1 ↦
      let entry = s.mem l1 (offset_l1 address) in
      if is_present entry
      then P.os_pfn_free user_reg (pte_pfn entry)
          (record s { mem = set_entry s.mem l1 (offset_l1 address) (entry - entry % 2) })
      else s
]

-- `for (int i = 0; i < size; i++)`, by the rounds that are left: the new `next_free`, and memory.
unfoldable pub shrink_loop : (P : Pfns) → (pgd rounds next_free : ℕ) → Phys P.Pool → ℕ × Phys P.Pool
shrink_loop P pgd zero next_free s = (next_free, s)
shrink_loop P pgd (suc rounds) next_free s =
    let address = (next_free + 2 ^ 64 - 4096) % 2 ^ 64 in
    shrink_loop P pgd rounds address (unmap_page P pgd address s)

-- One segment of `SYSCALL_SHRINK`.
unfoldable pub shrink_segment :
    (P : Pfns) → (pgd size : ℕ) → MmSegment → Phys P.Pool → MmSegment × ℕ × Phys P.Pool
shrink_segment P pgd size seg s =
    let bytes = size * 4096 % 2 ^ 32 in
    if ltb ((seg.next_free + 2 ^ 64 - bytes) % 2 ^ 64) seg.start
    then (seg, 0, s)
    else (let (next, s') = shrink_loop P pgd size seg.next_free s in
        (record seg { next_free = next }, next, s'))

-- `SYSCALL_SHRINK`.
unfoldable pub do_shrink :
    (P : Pfns)
    → MapFlags
    → (param1 param2 : ℕ) → ExecContext
    → Phys P.Pool
    → ExecContext × ℕ × Phys P.Pool
do_shrink P m param1 param2 ctx s =
    let size = param1 % 2 ^ 32 in
    let flags = param2 % 2 ^ 32 in
    if flags == m.map_wr
    then (let (seg, result, s') = shrink_segment P ctx.pgd size ctx.mm_seg_data s in
        (record ctx { mm_seg_data = seg }, result, s'))
    else if flags == m.map_rd
    then (let (seg, result, s') = shrink_segment P ctx.pgd size ctx.mm_seg_rodata s in
        (record ctx { mm_seg_rodata = seg }, result, s'))
    else (ctx, 0, s)

-- The characters of a user's buffer from `i` on, `none` where a read faults.
unfoldable pub read_bytes : (user : ℕ → Option ℕ) → (count i : ℕ) → Option (List ℕ)
read_bytes user zero i = some []
read_bytes user (suc count) i = do
  byte ← user i
  rest ← read_bytes user count (i + 1)
  some (byte ∷ rest)

-- `SYSCALL_WRITE`: what is printed, and the result. `user` is what the kernel reads at an address of the
-- process, `none` where the processor faults, and `strlen` the kernel's function, which faults as well
-- where it runs into such an address. The page of the first byte is checked only, so a fault of the
-- kernel is possible: `none`.
unfoldable pub do_write :
    (user : ℕ → Option ℕ) (strlen : ℕ → Option ℕ) (mem : Mem) (ctx : ExecContext)
    (param1 param2 : ℕ)
    → Option (List ℕ × ℕ)
do_write user strlen mem ctx param1 param2 = elim (find_l1 mem ctx.pgd param1) [
  | none ↦ some ([], minus_one)
  | some l1 ↦
      if is_present (mem l1 (offset_l1 param1))
      then (let len = param2 % 2 ^ 32 in
          if len == 0 || leb (2 ^ 31) len || ltb 1024 len || param1 == 0
          then some ([], minus_one)
          else (do
            n ← strlen param1
            let len' = if ltb n len then n else len
            text ← read_bytes user len' param1
            some (text ++ 10 ∷ [], len')))
      else some ([], minus_one)
]

-- The numbers of the system calls are a header's; a number that is none of these takes the default.
pub data Syscall : Type 0 where
  syscall_exit : Syscall
  syscall_getpid : Syscall
  syscall_write : Syscall
  syscall_expand : Syscall
  syscall_shrink : Syscall
  unknown : Syscall

-- A call of `do_exit`, which is the kernel's, does not come back, nor does one that faults in the kernel.
pub data Return : Type 0 where
  returns : ℕ → Return
  exits : Return
  faults : Return

-- What the calls read and change: the process, memory and the console.
pub record Kernel (Pool : Type 0) : Type 0 where
  pub ctx : ExecContext
  pub phys : Phys Pool
  pub console : List ℕ

unfoldable pub do_syscall :
    (P : Pfns) (m : MapFlags) (user : ℕ → Option ℕ) (strlen : ℕ → Option ℕ)
    → Syscall
    → (param1 param2 : ℕ) → Kernel P.Pool
    → Return × Kernel P.Pool
do_syscall P m user strlen syscall_exit a b k = (exits, k)
do_syscall P m user strlen syscall_getpid a b k = (returns k.ctx.id, k)
do_syscall P m user strlen syscall_write a b k = elim (do_write user strlen k.phys.mem k.ctx a b) [
  | none ↦ (faults, k)
  | some (text, result) ↦ (returns result, record k { console = k.console ++ text })
]
do_syscall P m user strlen syscall_expand a b k =
    let (ctx, result) = do_expand m a b k.ctx in (returns result, record k { ctx = ctx })
do_syscall P m user strlen syscall_shrink a b k =
    let (ctx, result, phys) = do_shrink P m a b k.ctx k.phys in
    (returns result, record k { ctx = ctx; phys = phys })
do_syscall P m user strlen unknown a b k = (returns minus_one, k)
