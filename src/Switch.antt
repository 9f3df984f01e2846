-- ===== src/Switch.antt =====
-- Assn3/schedule.c: the three functions that exchange the registers of two processes on a kernel
-- stack, and what the processor takes from that stack when the handler returns.
pub mod Frames
use gem_os_cs330a.Prelude.{ℕ, ◌+◌, ◌-◌, ◌*◌, List, [], ◌∷◌, ◌==◌, if◌then◌else◌}
use gem_os_cs330a.Process.{Regs, Process, Words, word, update, store_all}

-- The registers of `current` from the stack of the timer's handler.
unfoldable pub save_timer : (current : Process) (rrsp rrbp : ℕ) → Words → Process
save_timer current rrsp rrbp mem = record current {
  regs = record {
    rdi = mem (word rrsp 0);
    rsi = mem (word rrsp 1);
    rdx = mem (word rrsp 2);
    rcx = mem (word rrsp 3);
    rbx = mem (word rrsp 4);
    rax = mem (word rrsp 5);
    r15 = mem (word rrsp 6);
    r14 = mem (word rrsp 7);
    r13 = mem (word rrsp 8);
    r12 = mem (word rrsp 9);
    r11 = mem (word rrsp 10);
    r10 = mem (word rrsp 11);
    r9 = mem (word rrsp 12);
    r8 = mem (word rrsp 13);
    rbp = mem (word rrbp 0);
    entry_rip = mem (word rrbp 1);
    entry_cs = mem (word rrbp 2);
    entry_rflags = mem (word rrbp 3);
    entry_rsp = mem (word rrbp 4);
    entry_ss = mem (word rrbp 5);
  };
}

-- The registers of `next` to the stack.
unfoldable pub load_timer : (next : Process) (rrsp rrbp : ℕ) → Words → Words
load_timer next rrsp rrbp mem = store_all mem (
    (word rrsp 0, next.regs.rdi)
    ∷ (word rrsp 1, next.regs.rsi)
    ∷ (word rrsp 2, next.regs.rdx)
    ∷ (word rrsp 3, next.regs.rcx)
    ∷ (word rrsp 4, next.regs.rbx)
    ∷ (word rrsp 5, next.regs.rax)
    ∷ (word rrsp 6, next.regs.r15)
    ∷ (word rrsp 7, next.regs.r14)
    ∷ (word rrsp 8, next.regs.r13)
    ∷ (word rrsp 9, next.regs.r12)
    ∷ (word rrsp 10, next.regs.r11)
    ∷ (word rrsp 11, next.regs.r10)
    ∷ (word rrsp 12, next.regs.r9)
    ∷ (word rrsp 13, next.regs.r8)
    ∷ (word rrbp 0, next.regs.rbp)
    ∷ (word rrbp 1, next.regs.entry_rip)
    ∷ (word rrbp 2, next.regs.entry_cs)
    ∷ (word rrbp 3, next.regs.entry_rflags)
    ∷ (word rrbp 4, next.regs.entry_rsp)
    ∷ (word rrbp 5, next.regs.entry_ss)
    ∷ [])

-- `switch_context_timer` of processes `current` and `next` of the list.
unfoldable pub switch_context_timer :
    (list : ℕ → Process) (current next rrsp rrbp : ℕ) → Words → (ℕ → Process) × Words
switch_context_timer list current next rrsp rrbp mem =
    let list' : ℕ → Process = update list current (save_timer (list current) rrsp rrbp mem) in
    (list', load_timer (list' next) rrsp rrbp mem)

-- The registers of `current` from the stack of the system call: `rax` is not saved.
unfoldable pub save_sleep : (current : Process) (rrbp : ℕ) → Words → Process
save_sleep current rrbp mem = record current {
  regs = record {
    rbp = mem (word rrbp 10);
    rdi = mem (word rrbp 11);
    rsi = mem (word rrbp 12);
    rdx = mem (word rrbp 13);
    rcx = mem (word rrbp 14);
    rbx = mem (word rrbp 15);
    rax = current.regs.rax;
    r15 = mem (word rrbp 2);
    r14 = mem (word rrbp 3);
    r13 = mem (word rrbp 4);
    r12 = mem (word rrbp 5);
    r11 = mem (word rrbp 6);
    r10 = mem (word rrbp 7);
    r9 = mem (word rrbp 8);
    r8 = mem (word rrbp 9);
    entry_rip = mem (word rrbp 16);
    entry_cs = mem (word rrbp 17);
    entry_rflags = mem (word rrbp 18);
    entry_rsp = mem (word rrbp 19);
    entry_ss = mem (word rrbp 20);
  };
}

-- The registers of `next` to the stack.
unfoldable pub load_sleep : (next : Process) (rrbp : ℕ) → Words → Words
load_sleep next rrbp mem = store_all mem (
    (word rrbp 9, next.regs.rbp)
    ∷ (word rrbp 10, next.regs.rdi)
    ∷ (word rrbp 11, next.regs.rsi)
    ∷ (word rrbp 12, next.regs.rdx)
    ∷ (word rrbp 13, next.regs.rcx)
    ∷ (word rrbp 14, next.regs.rbx)
    ∷ (word rrbp 15, next.regs.rax)
    ∷ (word rrbp 1, next.regs.r15)
    ∷ (word rrbp 2, next.regs.r14)
    ∷ (word rrbp 3, next.regs.r13)
    ∷ (word rrbp 4, next.regs.r12)
    ∷ (word rrbp 5, next.regs.r11)
    ∷ (word rrbp 6, next.regs.r10)
    ∷ (word rrbp 7, next.regs.r9)
    ∷ (word rrbp 8, next.regs.r8)
    ∷ (word rrbp 16, next.regs.entry_rip)
    ∷ (word rrbp 17, next.regs.entry_cs)
    ∷ (word rrbp 18, next.regs.entry_rflags)
    ∷ (word rrbp 19, next.regs.entry_rsp)
    ∷ (word rrbp 20, next.regs.entry_ss)
    ∷ [])

-- `switch_context_sleep` of processes `current` and `next` of the list.
unfoldable pub switch_context_sleep :
    (list : ℕ → Process) (current next rrbp : ℕ) → Words → (ℕ → Process) × Words
switch_context_sleep list current next rrbp mem =
    let list' : ℕ → Process = update list current (save_sleep (list current) rrbp mem) in
    (list', load_sleep (list' next) rrbp mem)

-- `switch_context_exit`, which nothing calls: the registers of `next` below `rrbp`, all but `rax`.
unfoldable pub switch_context_exit : (next : Process) (rrbp : ℕ) → Words → Words
switch_context_exit next rrbp mem = store_all mem (
    (rrbp, next.regs.entry_ss)
    ∷ (rrbp - 8 * 1, next.regs.entry_rsp)
    ∷ (rrbp - 8 * 2, next.regs.entry_rflags)
    ∷ (rrbp - 8 * 3, next.regs.entry_cs)
    ∷ (rrbp - 8 * 4, next.regs.entry_rip)
    ∷ (rrbp - 8 * 5, next.regs.rbx)
    ∷ (rrbp - 8 * 6, next.regs.rcx)
    ∷ (rrbp - 8 * 7, next.regs.rdx)
    ∷ (rrbp - 8 * 8, next.regs.rsi)
    ∷ (rrbp - 8 * 9, next.regs.rdi)
    ∷ (rrbp - 8 * 10, next.regs.rbp)
    ∷ (rrbp - 8 * 11, next.regs.r8)
    ∷ (rrbp - 8 * 12, next.regs.r9)
    ∷ (rrbp - 8 * 13, next.regs.r10)
    ∷ (rrbp - 8 * 14, next.regs.r11)
    ∷ (rrbp - 8 * 15, next.regs.r12)
    ∷ (rrbp - 8 * 16, next.regs.r13)
    ∷ (rrbp - 8 * 17, next.regs.r14)
    ∷ (rrbp - 8 * 18, next.regs.r15)
    ∷ [])

-- The end of `handle_timer_tick`: fourteen pops from `saved_stk`, then from the frame's base `rbp`
-- and what `iretq` takes.
unfoldable pub timer_return : (saved_stk baseptr : ℕ) → Words → Regs
timer_return saved_stk baseptr mem = record {
  rdi = mem (word saved_stk 0);
  rsi = mem (word saved_stk 1);
  rdx = mem (word saved_stk 2);
  rcx = mem (word saved_stk 3);
  rbx = mem (word saved_stk 4);
  rax = mem (word saved_stk 5);
  r15 = mem (word saved_stk 6);
  r14 = mem (word saved_stk 7);
  r13 = mem (word saved_stk 8);
  r12 = mem (word saved_stk 9);
  r11 = mem (word saved_stk 10);
  r10 = mem (word saved_stk 11);
  r9 = mem (word saved_stk 12);
  r8 = mem (word saved_stk 13);
  rbp = mem (word baseptr 0);
  entry_rip = mem (word baseptr 1);
  entry_cs = mem (word baseptr 2);
  entry_rflags = mem (word baseptr 3);
  entry_rsp = mem (word baseptr 4);
  entry_ss = mem (word baseptr 5);
}

-- The end of `do_sleep` and of `do_exit`: fifteen pops from `do_sysrbp + 1`, and `iretq`.
unfoldable pub syscall_return : (do_sysrbp : ℕ) → Words → Regs
syscall_return do_sysrbp mem = record {
  r15 = mem (word do_sysrbp 1);
  r14 = mem (word do_sysrbp 2);
  r13 = mem (word do_sysrbp 3);
  r12 = mem (word do_sysrbp 4);
  r11 = mem (word do_sysrbp 5);
  r10 = mem (word do_sysrbp 6);
  r9 = mem (word do_sysrbp 7);
  r8 = mem (word do_sysrbp 8);
  rbp = mem (word do_sysrbp 9);
  rdi = mem (word do_sysrbp 10);
  rsi = mem (word do_sysrbp 11);
  rdx = mem (word do_sysrbp 12);
  rcx = mem (word do_sysrbp 13);
  rbx = mem (word do_sysrbp 14);
  rax = mem (word do_sysrbp 15);
  entry_rip = mem (word do_sysrbp 16);
  entry_cs = mem (word do_sysrbp 17);
  entry_rflags = mem (word do_sysrbp 18);
  entry_rsp = mem (word do_sysrbp 19);
  entry_ss = mem (word do_sysrbp 20);
}
