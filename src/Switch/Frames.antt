-- ===== src/Switch/Frames.antt =====
-- On the functions of Assn3/schedule.c that switch registers: which registers a process returns
-- with.
use gem_os_cs330a.Prelude.{
  ℕ, ◌+◌, ◌*◌, ◌<◌, ◌≤◌, ◌≡◌, ◌≢◌, refl, ◌∙◌, Bool, false, List, [], ◌∷◌, ◌==◌, if◌then◌else◌,
  arith, ap,
}
use gem_os_cs330a.Process.{Process, Words, word, update, store_all}
use gem_os_cs330a.Switch.{
  save_timer, save_sleep, load_timer, load_sleep, switch_context_timer, switch_context_sleep,
  timer_return, syscall_return,
}

-- Shut, so that the comparisons of two addresses are rewritten and not computed.
same : ℕ → ℕ → Bool
same a b = a == b

-- What the last of a row of writes to one address left there.
abbrev last_write : ℕ → List (ℕ × ℕ) → ℕ → ℕ
last_write a [] d = d
last_write a ((b, v) ∷ l) d = last_write a l (if same a b then v else d)

store_all_lem :
    (mem : Words) (l : List (ℕ × ℕ)) (a : ℕ) → store_all mem l a ≡ last_write a l (mem a)
unfolding store_all same
store_all_lem mem [] a = refl
store_all_lem mem ((b, v) ∷ l) a = store_all_lem (update mem b v) l a

same-word : (p i j : ℕ) → same (word p i) (word p j) ≡ (i == j)
unfolding same word
same-word p i j = ground arith

-- The words below `saved_stk + 14` lie apart from the frame at `rbp`.
apart_word : (p q i : ℕ) → p + 8 * 14 ≤ q → i < 14 → (j : ℕ) → same (word p i) (word q j) ≡ false
unfolding same word
apart_word p q i h k j = ground arith

-- After `load_sleep` the processor returns with exactly the registers of `next`.
syscall_return-load :
    (next : Process) (rrbp : ℕ) (mem : Words)
    → syscall_return rrbp (load_sleep next rrbp mem) ≡ next.regs
unfolding syscall_return load_sleep
syscall_return-load next rrbp mem = simp (store_all_lem, same-word)

-- After `load_timer` the processor returns with exactly the registers of `next`.
timer_return-load :
    (next : Process) (rrsp rrbp : ℕ) (mem : Words)
    → rrsp + 8 * 14 ≤ rrbp
    → timer_return rrsp rrbp (load_timer next rrsp rrbp mem) ≡ next.regs
unfolding timer_return load_timer
timer_return-load next rrsp rrbp mem apart =
    let far = λ (i : ℕ) (h : i < 14). apart_word rrsp rrbp i apart h in
    simp (
      store_all_lem,
      same-word,
      far 0 (omega arith),
      far 1 (omega arith),
      far 2 (omega arith),
      far 3 (omega arith),
      far 4 (omega arith),
      far 5 (omega arith),
      far 6 (omega arith),
      far 7 (omega arith),
      far 8 (omega arith),
      far 9 (omega arith),
      far 10 (omega arith),
      far 11 (omega arith),
      far 12 (omega arith),
      far 13 (omega arith),
    )

timer_saves :
    (a : Process) (saved_stk baseptr : ℕ) (mem : Words)
    → (save_timer a saved_stk baseptr mem).regs ≡ timer_return saved_stk baseptr mem
unfolding save_timer timer_return
timer_saves a saved_stk baseptr mem = refl

other : (list : ℕ → Process) (c n : ℕ) (p : Process) → n ≢ c → update list c p n ≡ list n
other list c n p ne = ground arith

self : (list : ℕ → Process) (c : ℕ) (p : Process) → update list c p c ≡ p
self list c p = ground arith

-- Where the next process is not the current one, and the fourteen saved registers lie below the
-- frame of the interrupt, a switch at a tick lets the processor return with exactly the registers
-- that the next process had saved, saves those that the current one was interrupted with, and
-- changes no other process.
pub switch_context_timer-returns :
    (list : ℕ → Process) (current next saved_stk baseptr : ℕ) (mem : Words)
    → next ≢ current
    → saved_stk + 8 * 14 ≤ baseptr
    → let r = switch_context_timer list current next saved_stk baseptr mem in
      (timer_return saved_stk baseptr r.1 ≡ (list next).regs)
      × ((r.0 current).regs ≡ timer_return saved_stk baseptr mem)
      × ((j : ℕ) → j ≢ current → r.0 j ≡ list j)
unfolding switch_context_timer
switch_context_timer-returns list current next saved_stk baseptr mem ne apart =
    let saved = save_timer (list current) saved_stk baseptr mem in
    (
      timer_return-load (update list current saved next) saved_stk baseptr mem apart
          ∙ ap (λ p. p.regs) (other list current next saved ne),
      ap (λ p. p.regs) (self list current saved) ∙ timer_saves (list current) saved_stk baseptr mem,
      λ j h. other list current j saved h,
    )

-- A process that a tick took the processor from returns later with exactly the registers that it
-- had, whether it is resumed by a tick or by a process that sleeps or exits, and on whichever
-- stack, if the registers in its entry of the list are still those that the switch saved, the
-- process that it takes over from is another one, and the saved registers of the tick that resumes
-- it lie below the frame of that interrupt.
pub timer-resume :
    (list list' : ℕ → Process) (a b c saved_stk baseptr : ℕ) (mem : Words) (saved_stk' baseptr' : ℕ)
    (mem' : Words)
    → a ≢ c
    → saved_stk' + 8 * 14 ≤ baseptr'
    → (list' a).regs ≡ ((switch_context_timer list a b saved_stk baseptr mem).0 a).regs
    → (timer_return saved_stk' baseptr' (switch_context_timer list' c a saved_stk' baseptr' mem').1
        ≡ timer_return saved_stk baseptr mem)
      × (syscall_return baseptr' (switch_context_sleep list' c a baseptr' mem').1
          ≡ timer_return saved_stk baseptr mem)
unfolding switch_context_timer switch_context_sleep
timer-resume list list' a b c saved_stk baseptr mem saved_stk' baseptr' mem' ne apart kept =
    let t = save_timer (list' c) saved_stk' baseptr' mem' in
    let s = save_sleep (list' c) baseptr' mem' in
    let saved : (list' a).regs ≡ timer_return saved_stk baseptr mem =
      kept
      ∙ (ap (λ p. p.regs) (self list a (save_timer (list a) saved_stk baseptr mem))
          ∙ timer_saves (list a) saved_stk baseptr mem) in
    (
      timer_return-load (update list' c t a) saved_stk' baseptr' mem' apart
          ∙ (ap (λ p. p.regs) (other list' c a t ne) ∙ saved),
      syscall_return-load (update list' c s a) baseptr' mem'
          ∙ (ap (λ p. p.regs) (other list' c a s ne) ∙ saved),
    )
