-- ===== src/Sched/Valid.antt =====
-- On `handle_timer_tick` in Assn3/schedule.c as a whole.
use gem_os_cs330a.Prelude.{
  ℕ, ◌+◌, ◌-◌, ◌%◌, ◌^◌, ◌<◌, ◌≡◌, ◌≢◌, refl, sym, ap, ◌∙◌, inl, inr, Bool, true, false, ◌==◌,
  arith, if◌then◌else◌, Bool-cases,
}
use gem_os_cs330a.Process.{ready, running, is_ready}
use gem_os_cs330a.Sched.{
  Sched, pick_next_context, wake, account_loop, free_loop, alarm_tick, tick_switch,
  handle_timer_tick,
}
use gem_os_cs330a.Sched.Pick.{Ready, pick-Ready, pick-some}
use gem_os_cs330a.Sched.Account.{account_sound, account_finds}
use gem_os_cs330a.Sched.Tick.{
  tick_switch_view, View, IsValid, alarm-View, alarm_current, picked, tick_switch_current,
  tick_switch-IsValid, accounted, accounted_at, accounted-IsValid,
}

-- The invariant reads pids, states and the current index.
View-IsValid :
    (max : ℕ) (s t : Sched)
    → s.current ≡ t.current
    → ((j : ℕ) → View (s.list j) (t.list j))
    → IsValid max t
    → IsValid max s
View-IsValid max s t e view v = record {
  bound = rw e v.bound;
  pids = λ i h. (view i).pid ∙ v.pids i h;
  runs_current = rw e ((view t.current).state ∙ v.runs_current);
  runs_no_other = λ i h ne r. v.runs_no_other i h (rw e at ne) (sym (view i).state ∙ r);
}

alarm_tick-IsValid :
    (sigalrm max baseptr : ℕ) (s : Sched)
    → IsValid max s
    → IsValid max (alarm_tick sigalrm max baseptr s)
alarm_tick-IsValid sigalrm max baseptr s v =
    View-IsValid max (alarm_tick sigalrm max baseptr s) s (alarm_current sigalrm max baseptr s)
      (alarm-View sigalrm max baseptr s) v

-- The state before the alarm, with the frames of exited processes freed.
abbrev pub before_alarm : ℕ → Sched → Sched
before_alarm max s = record (accounted max s) {
  free_os_pfn = (free_loop (max - 1) 1 s.free_os_pfn s.freed).0;
  freed = (free_loop (max - 1) 1 s.free_os_pfn s.freed).1;
  numticks = (s.numticks + 1) % 2 ^ 64;
}

abbrev pub found_one : ℕ → Sched → Bool
found_one max s = (account_loop (s.list s.current).pid max 0 s.list false).1

-- What a tick does to the schedule: another process that is ready takes the processor and the one
-- that ran is ready again, or the same process runs on, since no other process but the swapper is
-- ready.
pub data Ticked (max : ℕ) (s t : Sched) : Type 0 where
  switched :
      t.current < max
      → t.current ≢ 0
      → t.current ≢ s.current
      → is_ready (wake (s.list t.current)).state ≡ true
      → ((j : ℕ)
          → j < max
          → (t.list j).state ≡ (
              if j == t.current
              then running
              else if j == s.current
              then ready
              else (wake (s.list j)).state))
      → Ticked max s t
  stayed :
      t.current ≡ s.current
      → ((j : ℕ) → j < max → j ≢ 0 → j ≢ s.current → is_ready (wake (s.list j)).state ≡ false)
      → ((j : ℕ) → j < max → (t.list j).state ≡ (wake (s.list j)).state)
      → Ticked max s t

module _ (sigalrm max saved_stk baseptr : ℕ) (s : Sched) where
  abbrev pub alarmed : Sched
  alarmed = alarm_tick sigalrm max baseptr (before_alarm max s)

  pub tick_cases :
      handle_timer_tick sigalrm max saved_stk baseptr s
      ≡ (if found_one max s then tick_switch max saved_stk baseptr alarmed else alarmed)
  unfolding handle_timer_tick
  tick_cases = refl

  module _ (valid : IsValid max s) where
    alarmed-IsValid : IsValid max alarmed
    alarmed-IsValid =
        let v = accounted-IsValid max s valid in
        alarm_tick-IsValid sigalrm max baseptr (before_alarm max s) (
          View-IsValid max (before_alarm max s) (accounted max s) refl
            (λ j. record { pid = refl; state = refl }) v)

    alarmed_pid : (alarmed.list alarmed.current).pid ≡ s.current
    alarmed_pid =
        alarmed-IsValid.pids alarmed.current alarmed-IsValid.bound
        ∙ alarm_current sigalrm max baseptr (before_alarm max s)

    alarmed_state : (j : ℕ) → j < max → (alarmed.list j).state ≡ (wake (s.list j)).state
    alarmed_state j h =
        (alarm-View sigalrm max baseptr (before_alarm max s) j).state
        ∙ ap (λ p. p.state) (accounted_at max s j h)

    found_ready :
        found_one max s ≡ true
        → (j : ℕ) × (j < max)
          × (j ≢ 0)
          × (j ≢ s.current)
          × (is_ready (wake (s.list j)).state ≡ true)
    found_ready h = elim (account_sound (s.list s.current).pid max 0 s.list false h) [
      | inl never ↦ absurd (cc)
      | inr (j, range, run) ↦
          let e : (s.list s.current).pid ≡ s.current = valid.pids s.current valid.bound in
          (j, ground arith, ground arith, ground (arith, e), ground arith)
    ]

    none_ready :
        found_one max s ≡ false
        → (j : ℕ) → j < max
        → j ≢ 0
        → j ≢ s.current
        → is_ready (wake (s.list j)).state ≡ false
    none_ready h j lt user other = elim (Bool-cases (is_ready (wake (s.list j)).state)) [
      | inl r ↦
          let e : (s.list s.current).pid ≡ s.current = valid.pids s.current valid.bound in
          absurd (
            cc (
              account_finds (s.list s.current).pid max 0 s.list false j (ground arith)
                (ground (arith, e))))
      | inr not_ready ↦ not_ready
    ]

    picked-Ready : found_one max s ≡ true → Ready alarmed.list max s.current (picked max alarmed)
    picked-Ready h =
        let (j, lt, user, other, r) = found_ready h in
        let r' : is_ready (alarmed.list j).state ≡ true = rw alarmed_state r in
        let some : pick_next_context alarmed.list max s.current ≢ 0 =
          pick-some alarmed.list max s.current valid.bound j lt user other r' in
        let e : (alarmed.list alarmed.current).pid ≡ s.current = alarmed_pid in
        rw e (elim (pick-Ready alarmed.list max s.current valid.bound) [
          | inl gone ↦ absurd (some gone)
          | inr ok ↦ ok
        ])

    alarmed_other : found_one max s ≡ true → picked max alarmed ≢ alarmed.current
    alarmed_other h e =
        (picked-Ready h).fresh (e ∙ alarm_current sigalrm max baseptr (before_alarm max s))

    tick_switched :
        found_one max s ≡ true
        → (t : Sched) → t.current ≡ picked max alarmed
        → ((j : ℕ)
            → (t.list j).state ≡ (
                if j == picked max alarmed
                then running
                else if j == alarmed.current
                then ready
                else (alarmed.list j).state))
        → Ticked max s t
    tick_switched h t e view =
        let p = picked-Ready h in
        let c : alarmed.current ≡ s.current =
          alarm_current sigalrm max baseptr (before_alarm max s) in
        switched (rw e p.index) (rw e p.user) (rw e p.fresh)
          (rw e (ap is_ready (sym (alarmed_state (picked max alarmed) p.index)) ∙ p.state))
          (λ j lt. cc (e, c, alarmed_state j lt, view j))

    tick_stayed : found_one max s ≡ false → Ticked max s alarmed
    tick_stayed h =
        stayed (alarm_current sigalrm max baseptr (before_alarm max s)) (none_ready h) alarmed_state

    -- A timer tick keeps the schedule valid: one process runs, it is the current one, its index is
    -- below the number of processes, and the list is indexed by pid.
    pub handle_timer_tick-IsValid : IsValid max (handle_timer_tick sigalrm max saved_stk baseptr s)
    handle_timer_tick-IsValid = elim (Bool-cases (found_one max s)) [
      | inl h ↦
          rw (tick_cases, h)
            (tick_switch-IsValid max saved_stk baseptr alarmed alarmed-IsValid (alarmed_other h)
              (picked-Ready h).index)
      | inr h ↦ rw (tick_cases, h) alarmed-IsValid
    ]

    -- In a valid schedule, a timer tick gives the processor to another process than the current one
    -- and the swapper, one that is ready after the sleep counts of this tick, and makes the current
    -- one ready; or it leaves the current process running, and then no process but the current one
    -- and the swapper is ready. All other processes have the state that the count of their sleep
    -- gives.
    pub handle_timer_tick-Ticked : Ticked max s (handle_timer_tick sigalrm max saved_stk baseptr s)
    handle_timer_tick-Ticked = elim (Bool-cases (found_one max s)) [
      | inl h ↦
          rw (tick_cases, h)
            (tick_switched h (tick_switch max saved_stk baseptr alarmed)
              (tick_switch_current max saved_stk baseptr alarmed)
              (λ j. tick_switch_view max saved_stk baseptr alarmed j (alarmed_other h)))
      | inr h ↦ rw (tick_cases, h) (tick_stayed h)
    ]
