-- ===== src/Sched.antt =====
-- Assn3/schedule.c: the scheduler, the timer tick, exit, sleep, signals and the alarm.
-- `list[i]` is process `i` of `max` (MAX_PROCESSES), process 0 the swapper, and `current` the index
-- of the running one. Assembler that reads a register is an argument: `saved_stk` and `baseptr` of
-- the timer's handler, and `do_sysrbp`, the frame of the system call.
pub mod Account
pub mod Pick
pub mod Tick
pub mod Valid
pub mod Leave
pub mod Exit
pub mod Signal
pub mod Duration
use gem_os_cs330a.Prelude.{
  ℕ, zero, suc, ◌+◌, ◌-◌, ◌%◌, ◌^◌, Bool, true, false, not, ◌&&◌, ◌||◌, List, [], ◌∷◌, ◌++◌, ◌==◌,
  ltb, leb, if◌then◌else◌, Option, none, some,
}
use gem_os_cs330a.Process.{
  State, unused, ready, running, waiting, is_ready, is_waiting, is_unused, Process, update, Words,
  word,
}
use gem_os_cs330a.Switch.{switch_context_timer, switch_context_sleep}

-- The kernel's state. `freed` lists the frames given to `os_pfn_free(OS_PT_REG, …)`, the last
-- first; `tss` is the process whose stack `set_tss_stack_ptr` set.
pub record Sched : Type 0 where
  pub list : ℕ → Process
  pub current : ℕ
  pub tss : ℕ
  pub numticks : ℕ
  pub free_os_pfn : ℕ → ℕ
  pub freed : List ℕ
  pub mem : Words

-- The loop of `pick_next_context`, by the rounds that are left.
unfoldable pub pick_loop : (list : ℕ → Process) (max rounds i : ℕ) → ℕ
pick_loop list max zero i = 0
pick_loop list max (suc rounds) i =
    let rest = pick_loop list max rounds (i + 1) in
    if is_ready (list (i % max)).state && not (i % max == 0) then i % max else rest

unfoldable pub pick_next_context : (list : ℕ → Process) (max curpid : ℕ) → ℕ
pick_next_context list max curpid = pick_loop list max (max - 1) (curpid + 1)

-- `for (int i = 1; i < MAX_PROCESSES; i++)` over the frames of processes that exited.
unfoldable pub free_loop : (rounds i : ℕ) → (ℕ → ℕ) → List ℕ → (ℕ → ℕ) × List ℕ
free_loop zero i pfns freed = (pfns, freed)
free_loop (suc rounds) i pfns freed =
    free_loop rounds (i + 1) (if pfns i == 0 then pfns else update pfns i 0)
      (if pfns i == 0 then freed else pfns i ∷ freed)

-- One tick of a process that sleeps.
unfoldable pub wake : Process → Process
wake p =
    if is_waiting p.state && ltb 0 p.ticks_to_sleep
    then record p {
      ticks_to_sleep = p.ticks_to_sleep - 1;
      state = if p.ticks_to_sleep - 1 == 0 then ready else p.state;
    }
    else p

-- The loop that accounts the tick: the new list, and `process_found`.
unfoldable pub account_loop : (curpid rounds i : ℕ) → (ℕ → Process) → Bool → (ℕ → Process) × Bool
account_loop curpid zero i list found = (list, found)
account_loop curpid (suc rounds) i list found =
    let list' : ℕ → Process = update list i (wake (list i)) in
    account_loop curpid rounds (i + 1) list'
      (if not (i == 0) && is_ready (list' i).state && not (i == curpid) then true else found)

-- The frame of a handler on the user's stack: the address of the instruction that was interrupted
-- is pushed there, and the handler runs next.
unfoldable pub push_handler : (handler ustackp urip : ℕ) → Words → Words
push_handler handler ustackp urip mem =
    let sp = (mem ustackp + 2 ^ 64 - 8) % 2 ^ 64 in
    let mem₁ : Words = update mem ustackp sp in
    let mem₂ : Words = update mem₁ sp (mem₁ urip) in update mem₂ urip handler

-- What a call that may end in `do_cleanup()`, which shuts the machine down, comes to.
pub data Run : Type 0 where
  runs : Sched → Run
  halts : Sched → Run

unfoldable pub any_alive : (rounds i : ℕ) → (ℕ → Process) → Bool
any_alive zero i list = false
any_alive (suc rounds) i list =
    let rest = any_alive rounds (i + 1) list in
    if not ((list i).pid == 0) && not (is_unused (list i).state) then true else rest

-- The end that `do_exit` and `do_sleep` share: switch to the process that is picked. The state of
-- `next` is set last.
unfoldable pub switch_to_next : (max do_sysrbp : ℕ) → Sched → Sched
switch_to_next max do_sysrbp s =
    let next = pick_next_context s.list max (s.list s.current).pid in
    let (list, mem) = switch_context_sleep s.list s.current next do_sysrbp s.mem in
    record s {
      list = update list next (record (list next) { state = running });
      current = next;
      tss = next;
      mem = mem;
    }

unfoldable pub do_exit : (max do_sysrbp : ℕ) → Sched → Run
do_exit max do_sysrbp s =
    let cur : Process = record (s.list s.current) { state = unused } in
    let list : ℕ → Process = update s.list s.current cur in
    let s' : Sched = record s {
      list = list;
      free_os_pfn = update s.free_os_pfn cur.pid cur.os_stack_pfn;
    } in
    if any_alive (max - 1) 1 list then runs (switch_to_next max do_sysrbp s') else halts s'

-- `ticks` is unsigned, so the source's first test never holds.
unfoldable pub do_sleep : (max do_sysrbp ticks : ℕ) → Sched → Sched
do_sleep max do_sysrbp ticks s =
    let cur : Process = record (s.list s.current) {
      ticks_to_sleep = ticks % 2 ^ 32;
      state = waiting;
    } in
    switch_to_next max do_sysrbp (record s { list = update s.list s.current cur })

-- `signo` is the bit pattern of an `int`. `sigalrm` is the header's SIGALRM.
unfoldable pub invoke_sync_signal :
    (sigalrm max do_sysrbp : ℕ) (signo ustackp urip : ℕ) → Sched → Run × ℕ
invoke_sync_signal sigalrm max do_sysrbp signo ustackp urip s =
    let handler = (s.list s.current).sighandlers signo in
    if leb (2 ^ 31) signo || (ustackp == 0 || urip == 0)
    then (runs s, 2 ^ 64 - 1)
    else if handler == 0
    then (if signo == sigalrm then (runs s, 0) else (do_exit max do_sysrbp s, 0))
    else (runs (record s { mem = push_handler handler ustackp urip s.mem }), 0)

-- `sighandlers` has `max_signals` entries, and `signo` is not compared with that: a signal that is not
-- one of them reads and writes behind the array, `none`.
unfoldable pub do_signal : (max_signals signo handler : ℕ) → Sched → Option (Sched × ℕ)
do_signal max_signals signo handler s =
    let cur = s.list s.current in
    if leb (2 ^ 31) signo || handler == 0
    then some (s, 2 ^ 64 - 1)
    else if leb max_signals signo
    then none
    else some (
      record s {
        list =
            update s.list s.current
              (record cur { sighandlers = update cur.sighandlers signo handler });
      },
      cur.sighandlers signo,
    )

unfoldable pub do_alarm : (ticks : ℕ) → Sched → Sched × ℕ
do_alarm ticks s =
    let cur = s.list s.current in
    (
      record s {
        list =
            update s.list s.current
              (record cur { alarm_config_time = ticks % 2 ^ 32; ticks_to_alarm = ticks % 2 ^ 32 });
      },
      cur.ticks_to_alarm,
    )

abbrev pub run_state : Run → Sched
run_state (runs s) = s
run_state (halts s) = s

-- The alarm's part of a tick: when the count runs out and a handler is set, the count starts again
-- and the handler is invoked, with pointers to the user's stack and instruction pointer in the frame.
unfoldable pub alarm_tick : (sigalrm max baseptr : ℕ) → Sched → Sched
alarm_tick sigalrm max baseptr s =
    let cur = s.list s.current in
    let left = cur.ticks_to_alarm - 1 in
    let rings = left == 0 && not (cur.sighandlers sigalrm == 0) in
    let s' : Sched = record s {
      list =
          update s.list s.current
            (record cur { ticks_to_alarm = if rings then cur.alarm_config_time else left });
    } in
    if not (cur.ticks_to_alarm == 0) && not (cur.alarm_config_time == 0)
    then (if rings
        then run_state
            (invoke_sync_signal sigalrm max baseptr sigalrm (word baseptr 4) (word baseptr 1) s').0
        else s')
    else s

-- The switch at the end of a tick.
unfoldable pub tick_switch : (max saved_stk baseptr : ℕ) → Sched → Sched
tick_switch max saved_stk baseptr s =
    let next = pick_next_context s.list max (s.list s.current).pid in
    let list₁ : ℕ → Process = update s.list next (record (s.list next) { state = running }) in
    let list₂ : ℕ → Process = update list₁ s.current (record (list₁ s.current) { state = ready }) in
    let (list, mem) = switch_context_timer list₂ s.current next saved_stk baseptr s.mem in
    record s { list = list; current = next; tss = next; mem = mem }

unfoldable pub handle_timer_tick : (sigalrm max saved_stk baseptr : ℕ) → Sched → Sched
handle_timer_tick sigalrm max saved_stk baseptr s =
    let (pfns, freed) = free_loop (max - 1) 1 s.free_os_pfn s.freed in
    let (list, found) = account_loop (s.list s.current).pid max 0 s.list false in
    let s₁ : Sched = record s {
      free_os_pfn = pfns;
      freed = freed;
      numticks = (s.numticks + 1) % 2 ^ 64;
      list = list;
    } in
    let s₂ = alarm_tick sigalrm max baseptr s₁ in
    if found then tick_switch max saved_stk baseptr s₂ else s₂
