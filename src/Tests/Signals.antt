-- ===== src/Tests/Signals.antt =====
-- The results on signals and the alarm, at a process with a handler and two ticks to its alarm.
use gem_os_cs330a.Prelude.{ℕ, ◌≡◌, refl, arith, [], some}
use gem_os_cs330a.Process.{Process, running, word}
use gem_os_cs330a.Sched.{Sched, runs, invoke_sync_signal, do_signal}
use gem_os_cs330a.Sched.Signal.{Entered, IsFrame, alarm_ticks, alarm_ticks-rings, invoke-do_signal}
use gem_os_cs330a.Tests.Schedule.{process_at}

abbrev alarmed_process : ℕ → Process
alarmed_process i = record (process_at i running 0) {
  sighandlers = λ j. 0x400;
  ticks_to_alarm = 2;
  alarm_config_time = 5;
}

abbrev alarmed_schedule : Sched
alarmed_schedule = record {
  list = alarmed_process;
  current = 1;
  tss = 1;
  numticks = 0;
  free_os_pfn = λ i. 0;
  freed = [];
  mem = λ a. a;
}

tick-IsFrame : IsFrame (word 2000 4) (word 2000 1) (λ a. a)
unfolding word
tick-IsFrame = record {
  low = omega arith;
  high = omega arith;
  apart = λ e. omega (arith, e);
  apart_sp = λ e. omega (arith, e);
  apart_ip = λ e. omega (arith, e);
  some_sp = λ e. omega (arith, e);
  some_ip = λ e. omega (arith, e);
}

alarm_ticks-rings_example :
    ((alarm_ticks 14 16 2000 1 alarmed_schedule).mem ≡ (λ a. a))
    × Entered 0x400
        (word 2000 4)
        (word 2000 1)
        (λ a. a)
        (alarm_ticks 14 16 2000 2 alarmed_schedule).mem
    × (((alarm_ticks 14 16 2000 2 alarmed_schedule).list 1).ticks_to_alarm ≡ 5)
alarm_ticks-rings_example =
    alarm_ticks-rings 14 16 2000 alarmed_schedule (λ e. omega (arith, e)) 1 refl
      (λ e. omega (arith, e)) (omega arith) tick-IsFrame

invoke-do_signal_example :
    (r : Sched) × (t : Sched) × (do_signal 16 8 0x500 alarmed_schedule ≡ some (r, 0x400))
    × (invoke_sync_signal 14 16 2000 8 (word 2000 4) (word 2000 1) r ≡ (runs t, 0))
    × Entered 0x500 (word 2000 4) (word 2000 1) (λ a. a) t.mem
invoke-do_signal_example =
    invoke-do_signal 16 14 16 2000 8 0x500 (word 2000 4) (word 2000 1) alarmed_schedule
      (omega arith) (omega arith) (λ e. omega (arith, e)) tick-IsFrame
