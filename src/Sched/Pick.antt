-- ===== src/Sched/Pick.antt =====
-- On `pick_next_context` in Assn3/schedule.c, the round robin.
use gem_os_cs330a.Prelude.{
  ℕ, zero, suc, ◌+◌, ◌-◌, ◌%◌, ◌<◌, ◌≡◌, ◌≢◌, refl, sym, ◌∙◌, ◌⊎◌, inl, inr, Bool, true, false, not,
  ◌&&◌, ◌==◌, ltb, arith, Bool-cases,
}
use native.Mathlib.Nat.{mod-eq_of_lt, mod-lt}
use gem_os_cs330a.Process.{is_ready, Process}
use gem_os_cs330a.Sched.{pick_loop, pick_next_context}

-- The test of the loop at `i`.
abbrev pub candidate : (ℕ → Process) → (max i : ℕ) → Bool
candidate list max i = is_ready (list (i % max)).state && not (i % max == 0)

-- The first of `rounds` candidates from `i` on.
pub data First (list : ℕ → Process) (max rounds i r : ℕ) : Type 0 where
  found :
      (k : ℕ)
      → k < rounds
      → r ≡ (i + k) % max
      → candidate list max (i + k) ≡ true
      → ((j : ℕ) → j < k → candidate list max (i + j) ≡ false)
      → First list max rounds i r
  missing :
      r ≡ 0
      → ((j : ℕ) → j < rounds → candidate list max (i + j) ≡ false)
      → First list max rounds i r

module _ (list : ℕ → Process) (max : ℕ) where
  at_zero : (i : ℕ) (b : Bool) → candidate list max i ≡ b → candidate list max (i + 0) ≡ b
  at_zero i b h = let e : i + 0 ≡ i = omega arith in rw e h

  later :
      (i k : ℕ)
      → candidate list max i ≡ false
      → ((j : ℕ) → j < k → candidate list max (i + 1 + j) ≡ false)
      → (j : ℕ) → j < suc k
      → candidate list max (i + j) ≡ false
  later i k h rest zero lt = at_zero i false h
  later i k h rest (suc j) lt =
      let e : i + suc j ≡ i + 1 + j = omega arith in rw e (rest j (omega arith))

  skip :
      (rounds i r : ℕ)
      → candidate list max i ≡ false
      → First list max rounds (i + 1) r
      → First list max (suc rounds) i r
  skip rounds i r h (found k lt eq hit before) =
      let e : i + suc k ≡ i + 1 + k = omega arith in
      found (suc k) (omega arith) (rw e eq) (rw e hit) (later i k h before)
  skip rounds i r h (missing eq all) = missing eq (later i rounds h all)

  pick_loop-First : (rounds i : ℕ) → First list max rounds i (pick_loop list max rounds i)
  unfolding pick_loop
  pick_loop-First zero i = missing refl (λ j h. absurd (omega arith))
  pick_loop-First (suc rounds) i = elim (Bool-cases (candidate list max i)) [
    | inl hit ↦
        let e : i + 0 ≡ i = omega arith in
        rw hit
          (found 0 (omega arith) (rw e refl) (at_zero i true hit) (λ j h. absurd (omega arith)))
    | inr miss ↦ rw miss (skip rounds i _ miss (pick_loop-First rounds (i + 1)))
  ]

  -- pick_next_context returns the first ready process other than the swapper among the max - 1
  -- processes behind the given one in cyclic order, and the swapper if there is none.
  pub pick_next_context-First :
      (curpid : ℕ) → First list max (max - 1) (curpid + 1) (pick_next_context list max curpid)
  unfolding pick_next_context
  pick_next_context-First curpid = pick_loop-First (max - 1) (curpid + 1)

  -- The process that was picked.
  pub record Ready (curpid r : ℕ) : Type 0 where
    pub state : is_ready (list r).state ≡ true
    pub index : r < max
    pub fresh : r ≢ curpid
    pub user : r ≢ 0

  candidate_ready :
      (i : ℕ)
      → candidate list max i ≡ true
      → (is_ready (list (i % max)).state ≡ true) × (i % max ≢ 0)
  candidate_ready i h = ground arith

  candidate_at :
      (i j : ℕ)
      → candidate list max i ≡ false
      → i % max ≡ j
      → j ≢ 0
      → is_ready (list j).state ≡ false
  candidate_at i j h e ne =
      let h' : (is_ready (list j).state && not (j == 0)) ≡ false = rw e at h in ground arith

  distance :
      (curpid j : ℕ)
      → j < max
      → j ≢ curpid
      → curpid < max
      → (k : ℕ) × (k < max - 1) × ((curpid + 1 + k) % max ≡ j)
  distance curpid j h ne hc = elim (Bool-cases (ltb curpid j)) [
    | inl above ↦
        let e : curpid + 1 + (j - curpid - 1) ≡ j = ground arith in
        (j - curpid - 1, ground arith, rw e (mod-eq_of_lt h))
    | inr below ↦
        let e : curpid + 1 + (max - curpid - 1 + j) ≡ j + max = ground arith in
        (max - curpid - 1 + j, ground arith, rw e (grind arith))
  ]

  wrap_ne : (curpid k : ℕ) → curpid < max → k < max - 1 → (curpid + 1 + k) % max ≢ curpid
  wrap_ne curpid k h lt e = elim (Bool-cases (ltb (curpid + 1 + k) max)) [
    | inl small ↦
        let s : curpid + 1 + k < max = ground arith in absurd (omega (arith, e, mod-eq_of_lt s))
    | inr big ↦
        let s : curpid + 1 + k - max < max = ground arith in
        let back : curpid + 1 + k ≡ curpid + 1 + k - max + max = ground arith in
        let m : (curpid + 1 + k) % max ≡ curpid + 1 + k - max = rw back (grind arith) in
        absurd (ground (arith, m))
  ]

  module _ (curpid : ℕ) (bound : curpid < max) where
    -- What is picked is the swapper or another ready process.
    pub pick-Ready :
        (pick_next_context list max curpid ≡ 0) ⊎ Ready curpid (pick_next_context list max curpid)
    pick-Ready = elim (pick_next_context-First curpid) [
      | missing eq _ ↦ inl eq
      | found k lt eq hit _ ↦
          let c = candidate_ready (curpid + 1 + k) hit in
          inr (
            rw eq (record {
              state = c.0;
              index = mod-lt (curpid + 1 + k) (omega arith);
              fresh = wrap_ne curpid k bound lt;
              user = c.1;
            }))
    ]

    -- Where the given process is below max, pick_next_context does not return the swapper while a
    -- process below max other than the swapper and the given one is ready.
    pub pick-some :
        (j : ℕ)
        → j < max
        → j ≢ 0
        → j ≢ curpid
        → is_ready (list j).state ≡ true
        → pick_next_context list max curpid ≢ 0
    pick-some j h ne other ready gone = elim (pick_next_context-First curpid) [
      | found k lt eq hit _ ↦ (candidate_ready (curpid + 1 + k) hit).1 (sym eq ∙ gone)
      | missing _ all ↦
          let (k, lt, at) = distance curpid j h other bound in
          cc (candidate_at (curpid + 1 + k) j (all k lt) at ne)
    ]
