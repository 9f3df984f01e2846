-- ===== src/Clone.antt =====
-- `do_clone` in Assn3/schedule.c. What the kernel's other files do is an argument: `strlen` of the
-- current process's name, the process that `get_new_ctx` returned, as its index `child`, the frame
-- that `os_pfn_alloc` gave for its stack, and `osmap`. `do_sysrbp` is the frame of the system call.
pub mod Child
use gem_os_cs330a.Prelude.{ℕ, ◌+◌, ◌-◌, ◌%◌, ◌^◌, ltb, if◌then◌else◌}
use gem_os_cs330a.Process.{State, ready, Regs, Process, update, word}
use gem_os_cs330a.Sched.{Sched}

-- `memcpy(to, from, n)`.
unfoldable pub copy : (n : ℕ) (from to : ℕ → ℕ) → ℕ → ℕ
copy n from to i = if ltb i n then from i else to i

-- The child's name: the parent's with the last character replaced. `name[len - 1]` of a name of
-- length 0 lies in front of the array.
unfoldable pub child_name : (len pid : ℕ) (from to : ℕ → ℕ) → ℕ → ℕ
child_name len pid from to =
    let last = (len + 2 ^ 64 - 1) % 2 ^ 64 in
    let name : ℕ → ℕ = copy last from to in
    if ltb pid 10
    then update (update name last ((48 + pid) % 2 ^ 8)) len 0
    else update (update (update name last 49) len (pid % 10)) (len + 1) 0

-- `SIGALRM` and the other signals: `sighandlers` has `max_signals` entries.
unfoldable pub child_regs : (flags th_func user_stack : ℕ) → Regs → Regs
child_regs flags th_func user_stack r = record r {
  entry_cs = 0x23;
  entry_ss = 0x2b;
  entry_rflags = flags;
  entry_rip = th_func;
  entry_rsp = user_stack;
  rbp = user_stack;
}

unfoldable pub do_clone :
    (osmap : ℕ → ℕ) (strlen : (ℕ → ℕ) → ℕ) (max_signals child pfn do_sysrbp th_func user_stack : ℕ)
    → Sched
    → Sched × ℕ
do_clone osmap strlen max_signals child pfn do_sysrbp th_func user_stack s =
    let cur = s.list s.current in
    let old = s.list child in
    let made : Process = record old {
      os_stack_pfn = pfn;
      name = child_name (strlen cur.name) old.pid cur.name old.name;
      state = ready;
      pgd = cur.pgd;
      os_rsp = osmap pfn;
      used_mem = cur.used_mem;
      ticks_to_sleep = 0;
      ticks_to_alarm = 0;
      alarm_config_time = 0;
      pending_signal_bitmap = 0;
      sighandlers = copy max_signals cur.sighandlers old.sighandlers;
      regs = child_regs (s.mem (word do_sysrbp 18)) th_func user_stack cur.regs;
      mm_seg_code = cur.mm_seg_code;
      mm_seg_data = cur.mm_seg_data;
      mm_seg_rodata = cur.mm_seg_rodata;
      mm_seg_stack = cur.mm_seg_stack;
    } in
    (record s { list = update s.list child made }, old.pid)
