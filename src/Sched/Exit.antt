-- ===== src/Sched/Exit.antt =====
-- On `do_exit` in Assn3/schedule.c.
use gem_os_cs330a.Prelude.{
  ℕ, zero, suc, ◌+◌, ◌-◌, ◌<◌, ◌≤◌, ◌≡◌, ◌≢◌, refl, sym, ap, ◌∙◌, inl, inr, true, false, not, ◌&&◌,
  ◌==◌, arith, if◌then◌else◌, Bool-cases,
}
use gem_os_cs330a.Process.{unused, is_unused, Process, update}
use gem_os_cs330a.Sched.{Sched, any_alive, switch_to_next, Run, runs, halts, do_exit}
use gem_os_cs330a.Sched.Tick.{IsValid}
use gem_os_cs330a.Sched.Leave.{Left, leaving, leave-Left, leave-IsValid}

any_alive-false :
    (rounds i : ℕ) (list : ℕ → Process)
    → any_alive rounds i list ≡ false
    → (j : ℕ) → i ≤ j
    → j < i + rounds
    → (list j).pid ≢ 0
    → is_unused (list j).state ≡ true
unfolding any_alive
any_alive-false zero i list h j lo hi ne = absurd (omega arith)
any_alive-false (suc rounds) i list h j lo hi ne = elim (Bool-cases (j == i)) [
  | inl here ↦ ground arith
  | inr later ↦ any_alive-false rounds (i + 1) list (ground arith) j (ground arith) (omega arith) ne
]

any_alive-true :
    (rounds i : ℕ) (list : ℕ → Process)
    → any_alive rounds i list ≡ true
    → (j : ℕ) × (i ≤ j) × (j < i + rounds) × (is_unused (list j).state ≡ false)
unfolding any_alive
any_alive-true zero i list h = absurd (cc)
any_alive-true (suc rounds) i list h =
    elim (Bool-cases (not ((list i).pid == 0) && not (is_unused (list i).state))) [
      | inl here ↦ (i, omega arith, omega arith, ground arith)
      | inr later ↦
          let (j, lo, hi, alive) = any_alive-true rounds (i + 1) list (ground arith) in
          (j, omega arith, omega arith, alive)
    ]

-- How an exit of the current process of `s` ends: the machine halts if no other process but the
-- swapper is in use, else another one runs and the stack's frame is noted, to be freed by a tick.
pub data Exited (max : ℕ) (s : Sched) : Run → Type 0 where
  halted :
      (t : Sched)
      → ((j : ℕ) → j < max → j ≢ 0 → j ≢ s.current → is_unused (s.list j).state ≡ true)
      → Exited max s (halts t)
  ran :
      (t : Sched)
      → (j : ℕ) × (j < max) × (j ≢ 0) × (j ≢ s.current) × (is_unused (s.list j).state ≡ false)
      → IsValid max t
      → Left max unused s t
      → t.free_os_pfn s.current ≡ (s.list s.current).os_stack_pfn
      → Exited max s (runs t)

module _ (max do_sysrbp : ℕ) (s : Sched) (valid : IsValid max s) where
  abbrev exited : Process
  exited = record (s.list s.current) { state = unused }

  -- `s` with the frame of the exiting process's stack noted.
  abbrev noted : Sched
  noted = record s {
    free_os_pfn = update s.free_os_pfn (s.list s.current).pid (s.list s.current).os_stack_pfn;
  }

  noted-IsValid : IsValid max noted
  noted-IsValid = record {
    bound = valid.bound;
    pids = valid.pids;
    runs_current = valid.runs_current;
    runs_no_other = valid.runs_no_other;
  }

  exit_cases : do_exit max do_sysrbp s ≡ (
      if any_alive (max - 1) 1 (update s.list s.current exited)
      then runs (switch_to_next max do_sysrbp (leaving max do_sysrbp unused exited noted))
      else halts (leaving max do_sysrbp unused exited noted))
  unfolding do_exit
  exit_cases = refl

  exit_frame :
      (switch_to_next max do_sysrbp (leaving max do_sysrbp unused exited noted)).free_os_pfn
        s.current
      ≡ (s.list s.current).os_stack_pfn
  unfolding switch_to_next
  exit_frame = ground (arith, valid.pids s.current valid.bound)

  exit_halts :
      any_alive (max - 1) 1 (update s.list s.current exited) ≡ false
      → (j : ℕ) → j < max
      → j ≢ 0
      → j ≢ s.current
      → is_unused (s.list j).state ≡ true
  exit_halts h j lt user others =
      let l : ℕ → Process = update s.list s.current exited in
      let p : l j ≡ s.list j = ground arith in
      let q : (l j).pid ≢ 0 = ground (arith, valid.pids j lt) in
      sym (ap (λ x. is_unused x.state) p)
      ∙ any_alive-false (max - 1) 1 l h j (ground arith) (omega (arith, lt)) q

  exit_runs :
      any_alive (max - 1) 1 (update s.list s.current exited) ≡ true
      → (j : ℕ) × (j < max) × (j ≢ 0) × (j ≢ s.current) × (is_unused (s.list j).state ≡ false)
  exit_runs h =
      let l : ℕ → Process = update s.list s.current exited in
      let (j, lo, hi, alive) = any_alive-true (max - 1) 1 l h in
      let ne : j ≢ s.current = ground arith in
      (j, omega (arith, valid.bound), omega arith, ne, ground arith)

  -- In a valid schedule, do_exit halts the machine if every process but the current one and the
  -- swapper is unused. If one of them is in use, do_exit switches to the swapper or to a ready
  -- process, never back to the one that exits unless that is the swapper. The schedule stays valid,
  -- the one that exited is unused unless it runs again, no other state changes, and the frame of
  -- its stack is noted, for a tick to free.
  pub do_exit_lem : Exited max s (do_exit max do_sysrbp s)
  do_exit_lem = elim (Bool-cases (any_alive (max - 1) 1 (update s.list s.current exited))) [
    | inl h ↦
        let left =
          leave-Left max do_sysrbp unused exited noted noted-IsValid refl refl (λ e. ground arith)
            (λ e. ground arith) in
        rw (exit_cases, h)
          (ran (switch_to_next max do_sysrbp (leaving max do_sysrbp unused exited noted))
            (exit_runs h)
            (leave-IsValid max do_sysrbp unused exited noted noted-IsValid refl refl
              (λ e. ground arith) (λ e. ground arith))
            (record { taken = left.taken; fresh = left.fresh; states = left.states }) exit_frame)
    | inr h ↦ rw (exit_cases, h) (halted (leaving max do_sysrbp unused exited noted) (exit_halts h))
  ]
