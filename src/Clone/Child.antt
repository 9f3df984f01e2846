-- ===== src/Clone/Child.antt =====
-- On `do_clone` in Assn3/schedule.c: the process that it makes, and its name.
use gem_os_cs330a.Prelude.{ℕ, true, ◌<◌, ◌≡◌, ◌≢◌, refl, sym, ap, ◌∙◌, ◌==◌, arith}
use gem_os_cs330a.Process.{ready, Process}
use gem_os_cs330a.Sched.{Sched}
use gem_os_cs330a.Sched.Tick.{IsValid}
use gem_os_cs330a.Clone.{copy, child_regs, do_clone}

-- What the new process takes from the process `p` that called, and what it starts with.
pub record IsClone (max_signals th_func user_stack : ℕ) (p c : Process) : Type 0 where
  pub state : c.state ≡ ready
  pub pgd : c.pgd ≡ p.pgd
  pub code_segment : c.mm_seg_code ≡ p.mm_seg_code
  pub data_segment : c.mm_seg_data ≡ p.mm_seg_data
  pub rodata_segment : c.mm_seg_rodata ≡ p.mm_seg_rodata
  pub stack_segment : c.mm_seg_stack ≡ p.mm_seg_stack
  pub handlers : (i : ℕ) → i < max_signals → c.sighandlers i ≡ p.sighandlers i
  pub no_sleep : c.ticks_to_sleep ≡ 0
  pub no_alarm : c.ticks_to_alarm ≡ 0
  pub entry : c.regs.entry_rip ≡ th_func
  pub user_rsp : c.regs.entry_rsp ≡ user_stack
  pub argument : c.regs.rdi ≡ p.regs.rdi

module _ (osmap : ℕ → ℕ) (strlen : (ℕ → ℕ) → ℕ)
    (max_signals child pfn do_sysrbp th_func user_stack max : ℕ) (s : Sched) where
  abbrev cloned : Sched
  cloned = (do_clone osmap strlen max_signals child pfn do_sysrbp th_func user_stack s).0

  clone_others : (j : ℕ) → j ≢ child → cloned.list j ≡ s.list j
  unfolding do_clone
  clone_others j ne = ground arith

  cloned-IsClone :
      child ≢ s.current
      → IsClone max_signals th_func user_stack (s.list s.current) (cloned.list child)
  unfolding do_clone child_regs copy
  cloned-IsClone ne =
      let e : (child == child) ≡ true = ground arith in
      rw e (record {
        state = refl;
        pgd = refl;
        code_segment = refl;
        data_segment = refl;
        rodata_segment = refl;
        stack_segment = refl;
        handlers = λ i h. ground arith;
        no_sleep = refl;
        no_alarm = refl;
        entry = refl;
        user_rsp = refl;
        argument = refl;
      })

  clone_pid : (j : ℕ) → (cloned.list j).pid ≡ (s.list j).pid
  unfolding do_clone
  clone_pid j = ground arith

  -- In a valid schedule, do_clone into another process than the current one returns its pid and
  -- makes it ready, with the address space, the signal handlers and the argument register of the
  -- current process, no sleep and no alarm pending, to start at the function and on the stack that
  -- were given. The schedule stays valid and no other process changes.
  pub do_clone_lem :
      IsValid max s
      → child < max
      → child ≢ s.current
      → IsValid max cloned
        × IsClone max_signals th_func user_stack (s.list s.current) (cloned.list child)
        × ((j : ℕ) → j ≢ child → cloned.list j ≡ s.list j)
        × ((do_clone osmap strlen max_signals child pfn do_sysrbp th_func user_stack s).1 ≡ child)
  unfolding do_clone
  do_clone_lem v lt ne = (
    record {
      bound = v.bound;
      pids = λ i h. clone_pid i ∙ v.pids i h;
      runs_current = ap (λ p. p.state) (clone_others s.current (λ e. ne (sym e))) ∙ v.runs_current;
      runs_no_other = λ i h other e.
          ground (arith, clone_others i, (cloned-IsClone ne).state, v.runs_no_other i h);
    },
    cloned-IsClone ne,
    clone_others,
    v.pids child lt,
  )
