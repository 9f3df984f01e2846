-- ===== src/Sched/Duration.antt =====
-- How long a process sleeps: the timer ticks of `handle_timer_tick` in Assn3/schedule.c, one after
-- the other, as they act on a process that waits.
use gem_os_cs330a.Prelude.{
  ℕ, zero, suc, ◌+◌, ◌-◌, ◌<◌, ◌≤◌, ◌≡◌, ◌≢◌, refl, sym, ap, ◌∙◌, inl, inr, true, false, ◌==◌,
  arith, if◌then◌else◌, Bool-cases,
}
use gem_os_cs330a.Process.{ready, running, waiting, is_ready, Process}
use gem_os_cs330a.Switch.{switch_context_timer}
use gem_os_cs330a.Sched.{
  Sched, wake, invoke_sync_signal, alarm_tick, tick_switch, handle_timer_tick,
}
use gem_os_cs330a.Sched.Tick.{IsValid, picked, tick_switch_current, accounted_at, alarm_current}
use gem_os_cs330a.Sched.Valid.{
  switched, stayed, before_alarm, found_one, alarmed, tick_cases, handle_timer_tick-IsValid,
  handle_timer_tick-Ticked,
}

alarm_other :
    (sigalrm max baseptr : ℕ) (s : Sched) (j : ℕ)
    → j ≢ s.current
    → (alarm_tick sigalrm max baseptr s).list j ≡ s.list j
unfolding alarm_tick invoke_sync_signal
alarm_other sigalrm max baseptr s j ne = ground arith

tick_switch_other :
    (max saved_stk baseptr : ℕ) (s : Sched) (j : ℕ)
    → j ≢ s.current
    → j ≢ picked max s
    → (tick_switch max saved_stk baseptr s).list j ≡ s.list j
unfolding tick_switch switch_context_timer
tick_switch_other max saved_stk baseptr s j ne new = ground arith

module _ (sigalrm max saved_stk baseptr : ℕ) (s : Sched) (valid : IsValid max s) (j : ℕ)
    (small : j < max) where
  abbrev after : Sched
  after = handle_timer_tick sigalrm max saved_stk baseptr s

  alarmed_other : j ≢ s.current → (alarmed sigalrm max saved_stk baseptr s).list j ≡ wake (s.list j)
  alarmed_other ne =
      alarm_other sigalrm max baseptr (before_alarm max s) j ne ∙ accounted_at max s j small

  switch_other :
      j ≢ s.current
      → j ≢ (tick_switch max saved_stk baseptr (alarmed sigalrm max saved_stk baseptr s)).current
      → (tick_switch max saved_stk baseptr (alarmed sigalrm max saved_stk baseptr s)).list j
        ≡ wake (s.list j)
  switch_other ne new =
      tick_switch_other max saved_stk baseptr (alarmed sigalrm max saved_stk baseptr s) j
        (λ e. ne (e ∙ alarm_current sigalrm max baseptr (before_alarm max s)))
        (λ e. new (
          e
          ∙ sym (
              tick_switch_current max saved_stk baseptr (alarmed sigalrm max saved_stk baseptr s))))
      ∙ alarmed_other ne

  tick_other : j ≢ s.current → j ≢ after.current → after.list j ≡ wake (s.list j)
  tick_other ne new = elim (Bool-cases (found_one max s)) [
    | inl h ↦
        let e : after
            ≡ tick_switch max saved_stk baseptr (alarmed sigalrm max saved_stk baseptr s) =
          rw (tick_cases, h) refl in
        rw e (switch_other ne (rw e at new))
    | inr h ↦ rw (tick_cases, h) (alarmed_other ne)
  ]

  module _ (waits : (s.list j).state ≡ waiting) where
    waits_other : j ≢ s.current
    waits_other e = ground (arith, valid.runs_current)

    -- A process that the tick does not wake is not touched but for its count.
    tick_asleep : is_ready (wake (s.list j)).state ≡ false → after.list j ≡ wake (s.list j)
    tick_asleep h = tick_other waits_other (λ e.
        elim (handle_timer_tick-Ticked sigalrm max saved_stk baseptr s valid) [
          | switched _ _ _ r _ ↦ cc (e, h, r)
          | stayed c _ _ ↦ waits_other (e ∙ c)
        ])

    tick_woken :
        is_ready (wake (s.list j)).state ≡ true
        → (after.list j).state ≡ (if j == after.current then running else ready)
    tick_woken h = elim (handle_timer_tick-Ticked sigalrm max saved_stk baseptr s valid) [
      | switched _ _ _ _ states ↦ ground (arith, states j small, waits_other)
      | stayed c _ states ↦ ground (arith, states j small, waits_other, c)
    ]

-- `n` ticks, each with the registers of its own interrupt, the last one first in `frames`.
unfoldable pub run_ticks : (sigalrm max n : ℕ) → (frames : ℕ → ℕ × ℕ) → Sched → Sched
run_ticks sigalrm max zero frames s = s
run_ticks sigalrm max (suc n) frames s =
    handle_timer_tick sigalrm max (frames n).0 (frames n).1 (run_ticks sigalrm max n frames s)

wake_counts :
    (p : Process) (k : ℕ)
    → p.state ≡ waiting
    → p.ticks_to_sleep ≡ k + 2
    → ((wake p).state ≡ waiting) × ((wake p).ticks_to_sleep ≡ k + 1)
unfolding wake
wake_counts p k h e = ground arith

wake_last : (p : Process) → p.state ≡ waiting → p.ticks_to_sleep ≡ 1 → (wake p).state ≡ ready
unfolding wake
wake_last p h e = ground arith

wake_never : (p : Process) → p.ticks_to_sleep ≡ 0 → wake p ≡ p
unfolding wake
wake_never p h = rw h (ground arith)

module _ (sigalrm max : ℕ) (frames : ℕ → ℕ × ℕ) (s : Sched) (valid : IsValid max s) where
  pub run_ticks-IsValid : (n : ℕ) → IsValid max (run_ticks sigalrm max n frames s)
  unfolding run_ticks
  run_ticks-IsValid zero = valid
  run_ticks-IsValid (suc n) =
      handle_timer_tick-IsValid sigalrm max (frames n).0 (frames n).1
        (run_ticks sigalrm max n frames s) (run_ticks-IsValid n)

  module _ (j : ℕ) (small : j < max) (waits : (s.list j).state ≡ waiting) where
    -- In a valid schedule, a process that waits with n + k + 1 ticks left still waits after n timer
    -- ticks, with k + 1 ticks left.
    pub asleep :
        (n k : ℕ)
        → (s.list j).ticks_to_sleep ≡ n + k + 1
        → (((run_ticks sigalrm max n frames s).list j).state ≡ waiting)
          × (((run_ticks sigalrm max n frames s).list j).ticks_to_sleep ≡ k + 1)
    unfolding run_ticks
    asleep zero k e = (waits, omega (arith, e))
    asleep (suc n) k e =
        let t = run_ticks sigalrm max n frames s in
        let (w, c) = asleep n (k + 1) (omega (arith, e)) in
        let (w', c') = wake_counts (t.list j) k w (omega (arith, c)) in
        let same =
          tick_asleep sigalrm max (frames n).0 (frames n).1 t (run_ticks-IsValid n) j small w
            (rw w' refl) in
        (ap (λ p. p.state) same ∙ w', ap (λ p. p.ticks_to_sleep) same ∙ c')

    -- In a valid schedule, a process that waits with n ticks left, n at least 1, still waits after
    -- every number of timer ticks below n, and is ready or running after n of them: running if the
    -- last of them switched to it, and ready otherwise.
    pub wakes :
        (n : ℕ)
        → (s.list j).ticks_to_sleep ≡ suc n
        → (((run_ticks sigalrm max (suc n) frames s).list j).state
            ≡ (if j == (run_ticks sigalrm max (suc n) frames s).current then running else ready))
          × ((m : ℕ) → m ≤ n → ((run_ticks sigalrm max m frames s).list j).state ≡ waiting)
    unfolding run_ticks
    wakes n e =
        let t = run_ticks sigalrm max n frames s in
        let (w, c) = asleep n 0 (omega (arith, e)) in
        (
          tick_woken sigalrm max (frames n).0 (frames n).1 t (run_ticks-IsValid n) j small w
              (rw (wake_last (t.list j) w (omega (arith, c))) refl),
          λ m le. (asleep m (n - m) (omega (arith, e))).0,
        )

    -- In a valid schedule, a process that waits with no tick left, as do_sleep(0) leaves it, still
    -- waits after any number of timer ticks.
    pub never_wakes :
        (s.list j).ticks_to_sleep ≡ 0
        → (n : ℕ)
        → (((run_ticks sigalrm max n frames s).list j).state ≡ waiting)
          × (((run_ticks sigalrm max n frames s).list j).ticks_to_sleep ≡ 0)
    unfolding run_ticks
    never_wakes e zero = (waits, e)
    never_wakes e (suc n) =
        let t = run_ticks sigalrm max n frames s in
        let (w, c) = never_wakes e n in
        let same' = wake_never (t.list j) c in
        let same =
          tick_asleep sigalrm max (frames n).0 (frames n).1 t (run_ticks-IsValid n) j small w
            (rw (same', w) refl)
          ∙ same' in
        (ap (λ p. p.state) same ∙ w, ap (λ p. p.ticks_to_sleep) same ∙ c)
