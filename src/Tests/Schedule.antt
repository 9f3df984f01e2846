-- ===== src/Tests/Schedule.antt =====
-- The results on the scheduler, at a schedule of the swapper and three processes: 1 runs, 2 is
-- ready and 3 sleeps.
use gem_os_cs330a.Prelude.{ℕ, ◌+◌, ◌*◌, ◌≤◌, ◌≡◌, ◌≢◌, refl, [], ◌==◌, if◌then◌else◌, arith}
use gem_os_cs330a.Context.{MmSegment}
use gem_os_cs330a.Process.{State, unused, ready, running, waiting, Regs, Process}
use gem_os_cs330a.Sched.{Sched, pick_next_context, handle_timer_tick, do_sleep, do_exit}
use gem_os_cs330a.Sched.Pick.{First, pick_next_context-First}
use gem_os_cs330a.Sched.Tick.{IsValid}
use gem_os_cs330a.Sched.Valid.{Ticked, handle_timer_tick-IsValid, handle_timer_tick-Ticked}
use gem_os_cs330a.Sched.Leave.{Left, do_sleep_lem}
use gem_os_cs330a.Sched.Exit.{Exited, do_exit_lem}
use gem_os_cs330a.Sched.Duration.{run_ticks, wakes, never_wakes}
use gem_os_cs330a.Clone.{do_clone}
use gem_os_cs330a.Clone.Child.{IsClone, do_clone_lem}

abbrev no_segment : MmSegment
no_segment = record { start = 0; end = 0; next_free = 0; access_flags = 0 }

abbrev pub registers : ℕ → Regs
registers k = record {
  r15 = k;
  r14 = k + 1;
  r13 = k + 2;
  r12 = k + 3;
  r11 = k + 4;
  r10 = k + 5;
  r9 = k + 6;
  r8 = k + 7;
  rbp = k + 8;
  rdi = k + 9;
  rsi = k + 10;
  rdx = k + 11;
  rcx = k + 12;
  rbx = k + 13;
  rax = k + 14;
  entry_rip = k + 15;
  entry_cs = 0x23;
  entry_rflags = k + 16;
  entry_rsp = k + 17;
  entry_ss = 0x2b;
}

abbrev pub process_at : ℕ → State → ℕ → Process
process_at i state ticks = record {
  pid = i;
  state = state;
  regs = registers (100 * i);
  ticks_to_sleep = ticks;
  ticks_to_alarm = 0;
  alarm_config_time = 0;
  pending_signal_bitmap = 0;
  sighandlers = λ j. 0;
  os_stack_pfn = 40 + i;
  os_rsp = 0;
  used_mem = 0;
  pgd = 6;
  mm_seg_code = no_segment;
  mm_seg_data = no_segment;
  mm_seg_rodata = no_segment;
  mm_seg_stack = no_segment;
  name = λ j. 0;
}

abbrev pub processes : (ticks : ℕ) → ℕ → Process
processes ticks i =
    if i == 0
    then process_at i ready 0
    else if i == 1
    then process_at i running 0
    else if i == 2
    then process_at i ready 0
    else if i == 3
    then process_at i waiting ticks
    else process_at i unused 0

abbrev schedule : ℕ → Sched
schedule ticks = record {
  list = processes ticks;
  current = 1;
  tss = 1;
  numticks = 0;
  free_os_pfn = λ i. 0;
  freed = [];
  mem = λ a. a;
}

pids : (ticks i : ℕ) → (processes ticks i).pid ≡ i
pids ticks i = ground arith

runs_alone : (ticks i : ℕ) → i ≢ 1 → (processes ticks i).state ≢ running
runs_alone ticks i ne = ground arith

schedule-IsValid : (ticks : ℕ) → IsValid 16 (schedule ticks)
schedule-IsValid ticks = record {
  bound = omega arith;
  pids = λ i h. pids ticks i;
  runs_current = refl;
  runs_no_other = λ i h ne. runs_alone ticks i ne;
}

abbrev frames : ℕ → ℕ × ℕ
frames n = (1000, 2000)

handle_timer_tick-IsValid_example : IsValid 16 (handle_timer_tick 2 16 1000 2000 (schedule 2))
handle_timer_tick-IsValid_example =
    handle_timer_tick-IsValid 2 16 1000 2000 (schedule 2) (schedule-IsValid 2)

handle_timer_tick-Ticked_example :
    Ticked 16 (schedule 2) (handle_timer_tick 2 16 1000 2000 (schedule 2))
handle_timer_tick-Ticked_example =
    handle_timer_tick-Ticked 2 16 1000 2000 (schedule 2) (schedule-IsValid 2)

do_sleep_lem_example :
    IsValid 16 (do_sleep 16 3000 5 (schedule 2))
    × Left 16 waiting (schedule 2) (do_sleep 16 3000 5 (schedule 2))
    × (((do_sleep 16 3000 5 (schedule 2)).list 1).ticks_to_sleep ≡ 5)
do_sleep_lem_example = do_sleep_lem 16 3000 5 (schedule 2) (schedule-IsValid 2)

do_exit_lem_example : Exited 16 (schedule 2) (do_exit 16 3000 (schedule 2))
do_exit_lem_example = do_exit_lem 16 3000 (schedule 2) (schedule-IsValid 2)

wakes_example :
    (((run_ticks 2 16 2 frames (schedule 2)).list 3).state
      ≡ (if 3 == (run_ticks 2 16 2 frames (schedule 2)).current then running else ready))
    × ((m : ℕ) → m ≤ 1 → ((run_ticks 2 16 m frames (schedule 2)).list 3).state ≡ waiting)
wakes_example = wakes 2 16 frames (schedule 2) (schedule-IsValid 2) 3 (omega arith) refl 1 refl

never_wakes_example :
    (((run_ticks 2 16 100 frames (schedule 0)).list 3).state ≡ waiting)
    × (((run_ticks 2 16 100 frames (schedule 0)).list 3).ticks_to_sleep ≡ 0)
never_wakes_example =
    never_wakes 2 16 frames (schedule 0) (schedule-IsValid 0) 3 (omega arith) refl refl 100

pick_next_context-First_example : First (processes 2) 16 15 2 (pick_next_context (processes 2) 16 1)
pick_next_context-First_example = pick_next_context-First (processes 2) 16 1

do_clone_lem_example :
    let r = do_clone (λ f. 4096 * f) (λ n. 5) 4 5 77 3000 0x400 0x800 (schedule 2) in
    IsValid 16 r.0
    × IsClone 4 0x400 0x800 (process_at 1 running 0) (r.0.list 5)
    × ((j : ℕ) → j ≢ 5 → r.0.list j ≡ processes 2 j)
    × (r.1 ≡ 5)
do_clone_lem_example =
    do_clone_lem (λ f. 4096 * f) (λ n. 5) 4 5 77 3000 0x400 0x800 16 (schedule 2)
      (schedule-IsValid 2) (omega arith) (λ e. omega (arith, e))
