-- ===== src/Process.antt =====
-- The process as Assn3/schedule.c reads and writes it, and the words of memory that the scheduler
-- reaches through pointers. The header that declares `struct exec_context` for this assignment is
-- not in the repository: the fields are those that the code names.
use gem_os_cs330a.Prelude.{ℕ, ◌+◌, ◌*◌, Bool, true, false, List, [], ◌∷◌, ◌==◌, if◌then◌else◌}
use gem_os_cs330a.Context.{MmSegment}

-- The states that the code names, and all others.
pub data State : Type 0 where
  unused : State
  ready : State
  running : State
  waiting : State
  other : State

abbrev pub is_ready : State → Bool
is_ready ready = true
is_ready _ = false

abbrev pub is_waiting : State → Bool
is_waiting waiting = true
is_waiting _ = false

abbrev pub is_unused : State → Bool
is_unused unused = true
is_unused _ = false

-- `struct user_regs`.
pub record Regs : Type 0 where
  pub r15 : ℕ
  pub r14 : ℕ
  pub r13 : ℕ
  pub r12 : ℕ
  pub r11 : ℕ
  pub r10 : ℕ
  pub r9 : ℕ
  pub r8 : ℕ
  pub rbp : ℕ
  pub rdi : ℕ
  pub rsi : ℕ
  pub rdx : ℕ
  pub rcx : ℕ
  pub rbx : ℕ
  pub rax : ℕ
  pub entry_rip : ℕ
  pub entry_cs : ℕ
  pub entry_rflags : ℕ
  pub entry_rsp : ℕ
  pub entry_ss : ℕ

-- `sighandlers[i]` is 0 where the source has NULL; `name` is the array of characters.
pub record Process : Type 0 where
  pub pid : ℕ
  pub state : State
  pub regs : Regs
  pub ticks_to_sleep : ℕ
  pub ticks_to_alarm : ℕ
  pub alarm_config_time : ℕ
  pub pending_signal_bitmap : ℕ
  pub sighandlers : ℕ → ℕ
  pub os_stack_pfn : ℕ
  pub os_rsp : ℕ
  pub used_mem : ℕ
  pub pgd : ℕ
  pub mm_seg_code : MmSegment
  pub mm_seg_data : MmSegment
  pub mm_seg_rodata : MmSegment
  pub mm_seg_stack : MmSegment
  pub name : ℕ → ℕ

-- `a[i] = v` of an array.
abbrev pub update {ℓ} : {A : Type ℓ} → (ℕ → A) → ℕ → A → ℕ → A
update f i v j = if j == i then v else f j

-- Words of 64 bits by their address.
abbrev pub Words : Type 0
Words = ℕ → ℕ

-- `p + k` of a pointer to words.
unfoldable pub word : ℕ → ℕ → ℕ
word p k = p + 8 * k

-- Writes in order.
unfoldable pub store_all : Words → List (ℕ × ℕ) → Words
store_all mem [] = mem
store_all mem ((a, v) ∷ l) = store_all (update mem a v) l
