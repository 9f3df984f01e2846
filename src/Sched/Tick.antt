-- ===== src/Sched/Tick.antt =====
-- On the parts of `handle_timer_tick` in Assn3/schedule.c: the schedule as pids and states, its
-- validity, and what the alarm, the accounting and the switch do to it.
use gem_os_cs330a.Prelude.{ℕ, ◌<◌, ◌≡◌, ◌≢◌, refl, sym, ap, ◌∙◌, false, ◌==◌, arith, if◌then◌else◌}
use gem_os_cs330a.Process.{ready, running, Process}
use gem_os_cs330a.Switch.{save_timer, save_sleep, switch_context_timer}
use gem_os_cs330a.Sched.{
  Sched, pick_next_context, wake, account_loop, invoke_sync_signal, alarm_tick, tick_switch,
}
use gem_os_cs330a.Sched.Account.{account_list, wake-running, wake-not_running, wake-pid}

-- Pid and state are the list's view of a process.
pub record View (p q : Process) : Type 0 where
  pub pid : p.pid ≡ q.pid
  pub state : p.state ≡ q.state

pub record IsValid (max : ℕ) (s : Sched) : Type 0 where
  pub bound : s.current < max
  pub pids : (i : ℕ) → i < max → (s.list i).pid ≡ i
  pub runs_current : (s.list s.current).state ≡ running
  pub runs_no_other : (i : ℕ) → i < max → i ≢ s.current → (s.list i).state ≢ running

-- The alarm changes no process's pid or state, and not which one is current.
pub alarm-View :
    (sigalrm max baseptr : ℕ) (s : Sched) (j : ℕ)
    → View ((alarm_tick sigalrm max baseptr s).list j) (s.list j)
unfolding alarm_tick invoke_sync_signal
alarm-View sigalrm max baseptr s j = ground arith

pub alarm_current :
    (sigalrm max baseptr : ℕ) (s : Sched) → (alarm_tick sigalrm max baseptr s).current ≡ s.current
unfolding alarm_tick invoke_sync_signal
alarm_current sigalrm max baseptr s = ground arith

save_timer-View : (p : Process) (a b : ℕ) (m : ℕ → ℕ) → View (save_timer p a b m) p
unfolding save_timer
save_timer-View p a b m = record { pid = refl; state = refl }

pub save_sleep-View : (p : Process) (a : ℕ) (m : ℕ → ℕ) → View (save_sleep p a m) p
unfolding save_sleep
save_sleep-View p a m = record { pid = refl; state = refl }

abbrev pub picked : ℕ → Sched → ℕ
picked max s = pick_next_context s.list max (s.list s.current).pid

-- Pid and state after the switch of a tick.
pub tick_switch_view :
    (max saved_stk baseptr : ℕ) (s : Sched) (j : ℕ)
    → picked max s ≢ s.current
    → ((tick_switch max saved_stk baseptr s).list j).state
      ≡ (if j == picked max s then running else if j == s.current then ready else (s.list j).state)
unfolding tick_switch switch_context_timer
tick_switch_view max saved_stk baseptr s j ne =
    let n = picked max s in
    let p : Process = record (s.list s.current) { state = ready } in
    ground (arith, (save_timer-View p saved_stk baseptr s.mem).state)

tick_switch_pid :
    (max saved_stk baseptr : ℕ) (s : Sched) (j : ℕ)
    → picked max s ≢ s.current
    → ((tick_switch max saved_stk baseptr s).list j).pid ≡ (s.list j).pid
unfolding tick_switch switch_context_timer
tick_switch_pid max saved_stk baseptr s j ne =
    let p : Process = record (s.list s.current) { state = ready } in
    ground (arith, (save_timer-View p saved_stk baseptr s.mem).pid)

pub tick_switch_current :
    (max saved_stk baseptr : ℕ) (s : Sched)
    → (tick_switch max saved_stk baseptr s).current ≡ picked max s
unfolding tick_switch
tick_switch_current max saved_stk baseptr s = refl

pub tick_switch-IsValid :
    (max saved_stk baseptr : ℕ) (s : Sched)
    → IsValid max s
    → picked max s ≢ s.current
    → picked max s < max
    → IsValid max (tick_switch max saved_stk baseptr s)
tick_switch-IsValid max saved_stk baseptr s v ne lt = record {
  bound = rw tick_switch_current lt;
  pids = λ i h. tick_switch_pid max saved_stk baseptr s i ne ∙ v.pids i h;
  runs_current =
      rw tick_switch_current
        (ground (arith, tick_switch_view max saved_stk baseptr s (picked max s) ne));
  runs_no_other = λ i h.
      rw tick_switch_current
        (ground (arith, tick_switch_view max saved_stk baseptr s i ne, v.runs_no_other i));
}

-- The state between the accounting and the alarm.
abbrev pub accounted : ℕ → Sched → Sched
accounted max s = record s { list = (account_loop (s.list s.current).pid max 0 s.list false).0 }

pub accounted_at :
    (max : ℕ) (s : Sched) (j : ℕ) → j < max → (accounted max s).list j ≡ wake (s.list j)
accounted_at max s j h = account_list (s.list s.current).pid max 0 s.list false j ∙ ground arith

pub accounted-IsValid : (max : ℕ) (s : Sched) → IsValid max s → IsValid max (accounted max s)
accounted-IsValid max s v = record {
  bound = v.bound;
  pids = λ i h. ap (λ p. p.pid) (accounted_at max s i h) ∙ (wake-pid (s.list i) ∙ v.pids i h);
  runs_current =
      ap (λ p. p.state) (accounted_at max s s.current v.bound)
      ∙ (ap (λ p. p.state) (wake-running (s.list s.current) v.runs_current) ∙ v.runs_current);
  runs_no_other = λ i h ne e.
      wake-not_running (s.list i) (v.runs_no_other i h ne)
        (sym (ap (λ p. p.state) (accounted_at max s i h)) ∙ e);
}
