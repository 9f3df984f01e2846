-- ===== src/Sched/Account.antt =====
-- On the accounting of a tick in `handle_timer_tick`, Assn3/schedule.c: the sleep of every process,
-- and whether there is one to switch to.
use gem_os_cs330a.Prelude.{
  ℕ, zero, suc, ◌+◌, ◌≡◌, ◌≢◌, ◌∙◌, ◌⊎◌, inl, inr, Bool, true, false, not, ◌&&◌, ◌==◌, ltb, leb,
  arith, if◌then◌else◌, Bool-cases,
}
use gem_os_cs330a.Process.{running, is_ready, Process, update}
use gem_os_cs330a.Sched.{wake, account_loop}

-- Another process to run: what the loop looks for.
abbrev pub can_run : (curpid i : ℕ) → Process → Bool
can_run curpid i p = not (i == 0) && is_ready p.state && not (i == curpid)

abbrev pub in_range : (i rounds j : ℕ) → Bool
in_range i rounds j = leb i j && ltb j (i + rounds)

in_range_step :
    (i rounds j : ℕ) (list : ℕ → Process)
    → (if in_range (i + 1) rounds j
        then wake (update list i (wake (list i)) j)
        else update list i (wake (list i)) j)
      ≡ (if in_range i (suc rounds) j then wake (list j) else list j)
in_range_step i rounds j list = ground arith

module _ (curpid : ℕ) where
  pub account_list :
      (rounds i : ℕ) (list : ℕ → Process) (found : Bool) (j : ℕ)
      → (account_loop curpid rounds i list found).0 j
        ≡ (if in_range i rounds j then wake (list j) else list j)
  unfolding account_loop
  account_list zero i list found j = ground arith
  account_list (suc rounds) i list found j =
      account_list rounds (i + 1) (update list i (wake (list i)))
        (if can_run curpid i (update list i (wake (list i)) i) then true else found) j
      ∙ in_range_step i rounds j list

  account_found :
      (rounds i : ℕ) (list : ℕ → Process) (found : Bool)
      → found ≡ true
      → (account_loop curpid rounds i list found).1 ≡ true
  unfolding account_loop
  account_found zero i list found h = h
  account_found (suc rounds) i list found h =
      account_found rounds (i + 1) (update list i (wake (list i))) _ (ground arith)

  found_here :
      (i : ℕ) (list : ℕ → Process) (found : Bool)
      → can_run curpid i (wake (list i)) ≡ true
      → (if can_run curpid i (update list i (wake (list i)) i) then true else found) ≡ true
  found_here i list found h = ground arith

  found_split :
      (i : ℕ) (list : ℕ → Process) (found : Bool)
      → (if can_run curpid i (update list i (wake (list i)) i) then true else found) ≡ true
      → (found ≡ true) ⊎ (can_run curpid i (wake (list i)) ≡ true)
  found_split i list found h = ground arith

  pub account_finds :
      (rounds i : ℕ) (list : ℕ → Process) (found : Bool) (j : ℕ)
      → in_range i rounds j ≡ true
      → can_run curpid j (wake (list j)) ≡ true
      → (account_loop curpid rounds i list found).1 ≡ true
  unfolding account_loop
  account_finds zero i list found j h k = absurd (ground arith)
  account_finds (suc rounds) i list found j h k =
      let list' : ℕ → Process = update list i (wake (list i)) in
      elim (Bool-cases (j == i)) [
        | inl here ↦
            let e : j ≡ i = ground arith in
            account_found rounds (i + 1) list' (if can_run curpid i (list' i) then true else found)
              (found_here i list found (rw e at k))
        | inr later ↦
            account_finds rounds (i + 1) list' (if can_run curpid i (list' i) then true else found)
              j (ground arith) (rw later k)
      ]

  pub account_sound :
      (rounds i : ℕ) (list : ℕ → Process) (found : Bool)
      → (account_loop curpid rounds i list found).1 ≡ true
      → (found ≡ true)
        ⊎ ((j : ℕ) × (in_range i rounds j ≡ true) × (can_run curpid j (wake (list j)) ≡ true))
  unfolding account_loop
  account_sound zero i list found h = inl h
  account_sound (suc rounds) i list found h =
      let list' : ℕ → Process = update list i (wake (list i)) in
      elim (account_sound rounds (i + 1) list' (if can_run curpid i (list' i) then true else found)
        h) [
          | inl now ↦ elim (found_split i list found now) [
            | inl before ↦ inl before
            | inr runs ↦ inr (i, ground arith, runs)
          ]
          | inr (j, range, runs) ↦
              let ne : (j == i) ≡ false = ground arith in inr (j, ground arith, rw ne at runs)
        ]

-- What a tick does to a process's place in the schedule: a running process stays as it is, and none
-- starts to run.
pub wake-running : (p : Process) → p.state ≡ running → wake p ≡ p
unfolding wake
wake-running p h = rw h

pub wake-not_running : (p : Process) → p.state ≢ running → (wake p).state ≢ running
unfolding wake
wake-not_running p h = ground arith

pub wake-pid : (p : Process) → (wake p).pid ≡ p.pid
unfolding wake
wake-pid p = ground arith
