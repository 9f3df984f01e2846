-- ===== src/Sched/Leave.antt =====
-- On `do_sleep` in Assn3/schedule.c, and on the switch that `do_sleep` and `do_exit` share: a
-- process gives the processor up.
use gem_os_cs330a.Prelude.{
  ℕ, ◌%◌, ◌^◌, ◌<◌, ◌≡◌, ◌≢◌, refl, sym, ◌∙◌, ◌⊎◌, inl, inr, true, ◌==◌, arith, if◌then◌else◌,
}
use gem_os_cs330a.Process.{State, ready, running, waiting, is_ready, Process, update}
use gem_os_cs330a.Switch.{save_sleep, switch_context_sleep}
use gem_os_cs330a.Sched.{Sched, switch_to_next, do_sleep}
use gem_os_cs330a.Sched.Pick.{Ready, pick-Ready}
use gem_os_cs330a.Sched.Tick.{IsValid, save_sleep-View, picked}

module _ (max do_sysrbp : ℕ) (s : Sched) where
  switch_state :
      (j : ℕ)
      → ((switch_to_next max do_sysrbp s).list j).state
        ≡ (if j == picked max s then running else (s.list j).state)
  unfolding switch_to_next switch_context_sleep
  switch_state j = ground (arith, (save_sleep-View (s.list s.current) do_sysrbp s.mem).state)

  switch_pid : (j : ℕ) → ((switch_to_next max do_sysrbp s).list j).pid ≡ (s.list j).pid
  unfolding switch_to_next switch_context_sleep
  switch_pid j = ground (arith, (save_sleep-View (s.list s.current) do_sysrbp s.mem).pid)

  switch_current : (switch_to_next max do_sysrbp s).current ≡ picked max s
  unfolding switch_to_next
  switch_current = refl

-- The schedule after the current process of `s` went to state `left`: the process that was picked
-- is running, and it is the swapper or was ready.
pub record Left (max : ℕ) (left : State) (s t : Sched) : Type 0 where
  pub taken : (t.current ≢ 0) → is_ready (s.list t.current).state ≡ true
  pub fresh : s.current ≢ 0 → t.current ≢ s.current
  pub states :
      (j : ℕ)
      → (t.list j).state
        ≡ (if j == t.current then running else if j == s.current then left else (s.list j).state)

module _ (max do_sysrbp : ℕ) (left : State) (p : Process) (s : Sched) where
  -- `s` with `p`, which is to be the current process in state `left`.
  abbrev pub leaving : Sched
  leaving = record s { list = update s.list s.current p }

  module _ (valid : IsValid max s) (gone : p.state ≡ left) (pid : p.pid ≡ (s.list s.current).pid)
      (stops : left ≢ running) (blocks : left ≢ ready) where
    leaving_pid : (leaving.list leaving.current).pid ≡ s.current
    leaving_pid = ground (arith, valid.pids s.current valid.bound)

    leaving_pick : (picked max leaving ≡ 0) ⊎ Ready leaving.list max s.current (picked max leaving)
    leaving_pick = rw leaving_pid (pick-Ready leaving.list max s.current valid.bound)

    leaving_bound : picked max leaving < max
    leaving_bound = elim leaving_pick [
      | inl e ↦ rw e (omega (arith, valid.bound))
      | inr r ↦ r.index
    ]

    leaving_fresh : s.current ≢ 0 → picked max leaving ≢ s.current
    leaving_fresh user e = elim leaving_pick [
      | inl swapper ↦ user (sym e ∙ swapper)
      | inr r ↦ r.fresh e
    ]

    pub leave-Left : Left max left s (switch_to_next max do_sysrbp leaving)
    leave-Left = record {
      taken = λ user. elim leaving_pick [
        | inl swapper ↦ absurd (user (switch_current max do_sysrbp leaving ∙ swapper))
        | inr r ↦ rw (switch_current max do_sysrbp leaving) (ground (arith, r.state, r.fresh))
      ];
      fresh = λ user e. leaving_fresh user (sym (switch_current max do_sysrbp leaving) ∙ e);
      states = λ j.
          rw (switch_current max do_sysrbp leaving)
            (ground (arith, switch_state max do_sysrbp leaving j));
    }

    pub leave-IsValid : IsValid max (switch_to_next max do_sysrbp leaving)
    leave-IsValid = record {
      bound = rw (switch_current max do_sysrbp leaving) leaving_bound;
      pids = λ i h. switch_pid max do_sysrbp leaving i ∙ ground (arith, valid.pids i h);
      runs_current =
          rw (switch_current max do_sysrbp leaving)
            (ground (arith, switch_state max do_sysrbp leaving (picked max leaving)));
      runs_no_other = λ i h ne. ground (
        arith,
        switch_current max do_sysrbp leaving,
        leave-Left.states i,
        valid.runs_no_other i h,
      );
    }

module _ (max do_sysrbp ticks : ℕ) (s : Sched) (valid : IsValid max s) where
  abbrev sleeper : Process
  sleeper = record (s.list s.current) { ticks_to_sleep = ticks % 2 ^ 32; state = waiting }

  sleep_count : ((do_sleep max do_sysrbp ticks s).list s.current).ticks_to_sleep ≡ ticks % 2 ^ 32
  unfolding do_sleep switch_to_next switch_context_sleep save_sleep
  sleep_count = ground arith

  do_sleep_switch :
      do_sleep max do_sysrbp ticks s
      ≡ switch_to_next max do_sysrbp (leaving max do_sysrbp waiting sleeper s)
  unfolding do_sleep
  do_sleep_switch = refl

  -- In a valid schedule, do_sleep keeps the schedule valid and switches to the swapper or to a
  -- ready process, never back to the one that sleeps unless that is the swapper. The one that
  -- sleeps waits unless it runs again, with the ticks asked for as a 32-bit number, and no other
  -- state changes.
  pub do_sleep_lem :
      IsValid max (do_sleep max do_sysrbp ticks s)
      × Left max waiting s (do_sleep max do_sysrbp ticks s)
      × (((do_sleep max do_sysrbp ticks s).list s.current).ticks_to_sleep ≡ ticks % 2 ^ 32)
  do_sleep_lem = (
    rw do_sleep_switch (
        leave-IsValid max do_sysrbp waiting sleeper s valid refl refl (λ e. ground arith)
          (λ e. ground arith)),
    rw do_sleep_switch (
        leave-Left max do_sysrbp waiting sleeper s valid refl refl (λ e. ground arith)
          (λ e. ground arith)),
    sleep_count,
  )
