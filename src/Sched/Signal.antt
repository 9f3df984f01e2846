-- ===== src/Sched/Signal.antt =====
-- On `invoke_sync_signal`, `do_signal`, `do_alarm` and the alarm of a tick in Assn3/schedule.c.
use gem_os_cs330a.Prelude.{
  ℕ, zero, suc, ◌+◌, ◌-◌, ◌%◌, ◌^◌, ◌<◌, ◌≤◌, ◌≡◌, ◌≢◌, refl, ap, false, ◌==◌, leb, arith, some,
}
use gem_os_cs330a.Process.{Process, Words, update, word}
use gem_os_cs330a.Sched.{
  Sched, runs, push_handler, invoke_sync_signal, do_signal, alarm_tick, run_state,
}

-- The frame after a handler was entered: the user's stack holds the interrupted address on top, the
-- handler is the next instruction, and no other word changes.
pub record Entered (handler ustackp urip : ℕ) (mem mem' : Words) : Type 0 where
  pub sp : mem' ustackp ≡ mem ustackp - 8
  pub saved : mem' (mem ustackp - 8) ≡ mem urip
  pub next : mem' urip ≡ handler
  pub others : (a : ℕ) → a ≢ ustackp → a ≢ urip → a ≢ mem ustackp - 8 → mem' a ≡ mem a

push_handler-Entered :
    (handler ustackp urip : ℕ) (mem : Words)
    → 8 ≤ mem ustackp
    → mem ustackp < 2 ^ 64
    → ustackp ≢ urip
    → mem ustackp - 8 ≢ ustackp
    → mem ustackp - 8 ≢ urip
    → Entered handler ustackp urip mem (push_handler handler ustackp urip mem)
unfolding push_handler
push_handler-Entered handler ustackp urip mem low high apart a b =
    let sp : (mem ustackp + 2 ^ 64 - 8) % 2 ^ 64 ≡ mem ustackp - 8 = omega arith in
    rw (push_handler, sp)
      (record {
        sp = ground arith;
        saved = ground arith;
        next = ground arith;
        others = λ x p q r. ground arith;
      })

-- Where the stack pointer and the instruction pointer of the frame stand apart from each other and
-- from the word below the user's stack.
pub record IsFrame (ustackp urip : ℕ) (mem : Words) : Type 0 where
  pub low : 8 ≤ mem ustackp
  pub high : mem ustackp < 2 ^ 64
  pub apart : ustackp ≢ urip
  pub apart_sp : mem ustackp - 8 ≢ ustackp
  pub apart_ip : mem ustackp - 8 ≢ urip
  pub some_sp : ustackp ≢ 0
  pub some_ip : urip ≢ 0

invoke_handler :
    (sigalrm max baseptr signo handler ustackp urip : ℕ) (s : Sched)
    → signo < 2 ^ 31
    → handler ≢ 0
    → ustackp ≢ 0
    → urip ≢ 0
    → (s.list s.current).sighandlers signo ≡ handler
    → invoke_sync_signal sigalrm max baseptr signo ustackp urip s
      ≡ (runs (record s { mem = push_handler handler ustackp urip s.mem }), 0)
unfolding invoke_sync_signal
invoke_handler sigalrm max baseptr signo handler ustackp urip s small handles sp ip h =
    let a : leb (2 ^ 31) signo ≡ false = ground arith in
    let b : (ustackp == 0) ≡ false = ground arith in
    let c : (urip == 0) ≡ false = ground arith in
    let d : (handler == 0) ≡ false = ground arith in rw (h, a, b, c, d) refl

module _ (max_signals sigalrm max baseptr signo handler ustackp urip : ℕ) (s : Sched)
    (known : signo < max_signals) (few : max_signals ≤ 2 ^ 31) (handles : handler ≢ 0)
    (frame : IsFrame ustackp urip s.mem) where
  -- The table of the current process with the handler.
  abbrev registered : Sched
  registered = record s {
    list = update s.list s.current (record (s.list s.current) {
      sighandlers = update (s.list s.current).sighandlers signo handler;
    });
  }

  do_signal_run :
      do_signal max_signals signo handler s
      ≡ some (registered, (s.list s.current).sighandlers signo)
  unfolding do_signal
  do_signal_run =
      let a : leb (2 ^ 31) signo ≡ false = ground arith in
      let b : (handler == 0) ≡ false = ground arith in
      let c : leb max_signals signo ≡ false = ground arith in rw (a, b, c) refl

  registered_handler : (registered.list registered.current).sighandlers signo ≡ handler
  registered_handler = ground arith

  -- For a signal number that sighandlers has an entry for, where there are at most 2 ^ 31 of them,
  -- and where the frame of the exception and the stack of the user are apart, do_signal of a
  -- handler other than NULL returns the handler that was there, and invoke_sync_signal of that
  -- signal behind it returns 0 and enters the new handler: the address that was interrupted lies on
  -- top of the stack of the user, the handler is the next instruction, and no other word changes.
  pub invoke-do_signal :
      (r : Sched) × (t : Sched) × (do_signal max_signals signo handler s
        ≡ some (r, (s.list s.current).sighandlers signo))
      × (invoke_sync_signal sigalrm max baseptr signo ustackp urip r ≡ (runs t, 0))
      × Entered handler ustackp urip s.mem t.mem
  invoke-do_signal = (
    registered,
    record registered { mem = push_handler handler ustackp urip s.mem },
    do_signal_run,
    invoke_handler sigalrm max baseptr signo handler ustackp urip registered (omega arith) handles
        frame.some_sp frame.some_ip registered_handler,
    push_handler-Entered handler ustackp urip s.mem frame.low frame.high frame.apart frame.apart_sp
        frame.apart_ip,
  )

-- `n` ticks, as far as the alarm of the current process goes, while it stays the current one.
unfoldable pub alarm_ticks : (sigalrm max baseptr n : ℕ) → Sched → Sched
alarm_ticks sigalrm max baseptr zero s = s
alarm_ticks sigalrm max baseptr (suc n) s =
    alarm_tick sigalrm max baseptr (alarm_ticks sigalrm max baseptr n s)

-- The process that runs, with `k` ticks to its alarm.
abbrev with_count : Sched → ℕ → Sched
with_count s k = record s {
  list = update s.list s.current (record (s.list s.current) { ticks_to_alarm = k });
}

module _ (sigalrm max baseptr : ℕ) (s : Sched) where
  abbrev cur : Process
  cur = s.list s.current

  alarm_step :
      (k : ℕ)
      → cur.ticks_to_alarm ≡ k + 2
      → cur.alarm_config_time ≢ 0
      → alarm_tick sigalrm max baseptr s ≡ with_count s (k + 1)
  unfolding alarm_tick
  alarm_step k e set =
      let a : (k + 2 == 0) ≡ false = ground arith in
      let b : (cur.alarm_config_time == 0) ≡ false = ground arith in
      let c : k + 2 - 1 ≡ k + 1 = omega arith in
      let d : (k + 1 == 0) ≡ false = ground arith in rw (e, a, b, c, d) refl

  alarm_last :
      cur.ticks_to_alarm ≡ 1
      → cur.alarm_config_time ≢ 0
      → cur.sighandlers sigalrm ≢ 0
      → sigalrm < 2 ^ 31
      → IsFrame (word baseptr 4) (word baseptr 1) s.mem
      → alarm_tick sigalrm max baseptr s ≡ record (with_count s cur.alarm_config_time) {
        mem = push_handler (cur.sighandlers sigalrm) (word baseptr 4) (word baseptr 1) s.mem;
      }
  unfolding alarm_tick
  alarm_last e set handled small frame =
      let b : (cur.alarm_config_time == 0) ≡ false = ground arith in
      let h : (cur.sighandlers sigalrm == 0) ≡ false = ground arith in
      let call =
        invoke_handler sigalrm max baseptr sigalrm (cur.sighandlers sigalrm) (word baseptr 4)
          (word baseptr 1) (with_count s cur.alarm_config_time) small handled frame.some_sp
          frame.some_ip (ground arith) in
      rw (e, b, h) (ap (λ r. run_state r.0) call)

-- `t` is `s` but for the count of the current process, which is `k`.
record Counting (s : Sched) (k : ℕ) (t : Sched) : Type 0 where
  current : t.current ≡ s.current
  mem : t.mem ≡ s.mem
  count : (t.list s.current).ticks_to_alarm ≡ k
  period : (t.list s.current).alarm_config_time ≡ (s.list s.current).alarm_config_time
  handlers : (t.list s.current).sighandlers ≡ (s.list s.current).sighandlers

Counting-step :
    (sigalrm max baseptr k : ℕ) (s t : Sched)
    → (s.list s.current).alarm_config_time ≢ 0
    → Counting s (k + 2) t
    → Counting s (k + 1) (alarm_tick sigalrm max baseptr t)
Counting-step sigalrm max baseptr k s t set c =
    let e : (t.list t.current).ticks_to_alarm ≡ k + 2 = rw c.current c.count in
    let p : (t.list t.current).alarm_config_time ≢ 0 = rw (c.current, c.period) set in
    rw (alarm_step sigalrm max baseptr t k e p) (record {
      current = c.current;
      mem = c.mem;
      count = ground (arith, c.current);
      period = ground (arith, c.current, c.period);
      handlers = ground (arith, c.current, c.handlers);
    })

module _ (sigalrm max baseptr : ℕ) (s : Sched)
    (set : (s.list s.current).alarm_config_time ≢ 0) where
  alarm_ticks-Counting :
      (n k : ℕ)
      → (s.list s.current).ticks_to_alarm ≡ n + k + 1
      → Counting s (k + 1) (alarm_ticks sigalrm max baseptr n s)
  unfolding alarm_ticks
  alarm_ticks-Counting zero k e = record {
    current = refl;
    mem = refl;
    count = omega (arith, e);
    period = refl;
    handlers = refl;
  }
  alarm_ticks-Counting (suc n) k e =
      let f : k + 1 + 1 ≡ k + 2 = omega arith in
      let before = alarm_ticks-Counting n (k + 1) (omega (arith, e)) in
      Counting-step sigalrm max baseptr k s (alarm_ticks sigalrm max baseptr n s) set
        (rw f at before)

  rings :
      (t : Sched)
      → Counting s 1 t
      → (s.list s.current).sighandlers sigalrm ≢ 0
      → sigalrm < 2 ^ 31
      → IsFrame (word baseptr 4) (word baseptr 1) s.mem
      → Entered
          ((s.list s.current).sighandlers sigalrm)
          (word baseptr 4)
          (word baseptr 1)
          s.mem
          (alarm_tick sigalrm max baseptr t).mem
        × (((alarm_tick sigalrm max baseptr t).list s.current).ticks_to_alarm
            ≡ (s.list s.current).alarm_config_time)
  rings t c handled small frame =
      let h : (t.list t.current).sighandlers ≡ (s.list s.current).sighandlers =
        rw c.current c.handlers in
      let p : (t.list t.current).alarm_config_time ≡ (s.list s.current).alarm_config_time =
        rw c.current c.period in
      let last =
        alarm_last sigalrm max baseptr t (rw c.current c.count) (rw p set) (rw h handled) small
          (rw (c.mem) frame) in
      rw (last, h, c.mem)
        (
          push_handler-Entered ((s.list s.current).sighandlers sigalrm) (word baseptr 4)
              (word baseptr 1) s.mem frame.low frame.high frame.apart frame.apart_sp frame.apart_ip,
          ground (arith, c.current, p),
        )

  -- Where the current process has a handler for SIGALRM, an alarm configured and n + 1 ticks to it,
  -- and the frame of the interrupt and the stack of the user are apart, the alarm leaves memory as
  -- it is for n ticks of this process, and at the next one enters the handler: the address that was
  -- interrupted lies on top of the stack of the user, the handler is the next instruction, no other
  -- word changes, and the count starts again at the configured time.
  pub alarm_ticks-rings :
      (n : ℕ)
      → (s.list s.current).ticks_to_alarm ≡ suc n
      → (s.list s.current).sighandlers sigalrm ≢ 0
      → sigalrm < 2 ^ 31
      → IsFrame (word baseptr 4) (word baseptr 1) s.mem
      → ((alarm_ticks sigalrm max baseptr n s).mem ≡ s.mem)
        × Entered
            ((s.list s.current).sighandlers sigalrm)
            (word baseptr 4)
            (word baseptr 1)
            s.mem
            (alarm_ticks sigalrm max baseptr (suc n) s).mem
        × (((alarm_ticks sigalrm max baseptr (suc n) s).list s.current).ticks_to_alarm
            ≡ (s.list s.current).alarm_config_time)
  unfolding alarm_ticks
  alarm_ticks-rings n e handled small frame =
      let c = alarm_ticks-Counting n 0 (omega (arith, e)) in
      let r = rings (alarm_ticks sigalrm max baseptr n s) c handled small frame in (c.mem, r.0, r.1)
