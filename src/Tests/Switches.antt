-- ===== src/Tests/Switches.antt =====
-- The results on context switches, at two processes and two stacks.
use gem_os_cs330a.Prelude.{ℕ, ◌*◌, ◌≡◌, refl, arith}
use gem_os_cs330a.Process.{Process, Words}
use gem_os_cs330a.Switch.{switch_context_timer, switch_context_sleep, timer_return, syscall_return}
use gem_os_cs330a.Switch.Frames.{timer-resume}
use gem_os_cs330a.Tests.Schedule.{processes}

abbrev stack : Words
stack a = a * a

-- The list that the switch left.
abbrev switched : ℕ → Process
switched = (switch_context_timer (processes 2) 1 2 1000 2000 stack).0

timer-resume_example :
    (timer_return 3000 4000 (switch_context_timer switched 2 1 3000 4000 stack).1
      ≡ timer_return 1000 2000 stack)
    × (syscall_return 4000 (switch_context_sleep switched 2 1 4000 stack).1
        ≡ timer_return 1000 2000 stack)
timer-resume_example =
    timer-resume (processes 2) switched 1 2 2 1000 2000 stack 3000 4000 stack
      (λ e. omega (arith, e)) (omega arith) refl
