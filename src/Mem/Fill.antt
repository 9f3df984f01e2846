-- ===== src/Mem/Fill.antt =====
-- On the tables that Assn1/context_mm.c and Assn2/entry.c fill: what one write does to the walks of
-- all paths.
use gem_os_cs330a.Prelude.{
  ℕ, ◌+◌, ◌*◌, ◌%◌, ◌^◌, ◌<◌, ◌≤◌, ◌≡◌, ◌≢◌, refl, sym, ap, ◌∙◌, ◌⊎◌, inl, inr, true, false, none,
  some, arith, List, [], ◌∷◌, length, shl, bit_or_flags, Option-cases, ℕ_discrete,
}
use gem_os_cs330a.Mem.{Mem, set_entry, is_present, pte_pfn, make_pte}
use gem_os_cs330a.Mem.Walk.{walk, walk_step, walk_stop, IsTree}

-- An entry that the code makes, for a frame below 4 GB, has the frame and the flags.
pub make_pte_lem : (c f : ℕ) → c < 2 ^ 20 → f < 8 → make_pte c f ≡ shl c 0xc + f
unfolding make_pte
make_pte_lem c f h k =
    let e : shl c 0xc % 2 ^ 32 ≡ c * 512 * 8 = omega arith in
    rw (e, bit_or_flags (c * 512) f k) (omega arith)

pub path_discrete : Discrete (List ℕ)
path_discrete = hlevel ℕ_discrete

abbrev tail : List ℕ → List ℕ
tail [] = []
tail (x ∷ xs) = xs

walk_root : (mem mem' : Mem) (pgd : ℕ) → walk mem pgd [] ≡ walk mem' pgd []
unfolding walk
walk_root mem mem' pgd = refl

-- A page that the tree does not use may change.
pub walk_keeps :
    (mem mem' : Mem) (pgd : ℕ)
    → ((p : List ℕ) (e j : ℕ)
        → walk mem pgd p ≡ some e
        → length p ≤ 3
        → mem' (pte_pfn e) j ≡ mem (pte_pfn e) j)
    → (q : List ℕ) → length q ≤ 4
    → walk mem' pgd q ≡ walk mem pgd q
unfolding walk
walk_keeps mem mem' pgd keeps [] h = refl
walk_keeps mem mem' pgd keeps (i ∷ q) h =
    let ih = walk_keeps mem mem' pgd keeps q (omega arith) in
    elim (Option-cases (walk mem pgd q)) [
      | inl w ↦ walk_stop mem' pgd i q (ih ∙ w) ∙ sym (walk_stop mem pgd i q w)
      | inr (e, w) ↦
          walk_step mem' pgd i e q (ih ∙ w)
          ∙ rw (keeps q e i w (omega arith)) (sym (walk_step mem pgd i e q w))
    ]

set_entry_ne : (mem : Mem) (t i v a b : ℕ) → (a ≡ t → b ≡ i → ⊥) → set_entry mem t i v a b ≡ mem a b
unfolding set_entry
set_entry_ne mem t i v a b ne = ground (arith, ne)

set_entry_eq : (mem : Mem) (t i v : ℕ) → set_entry mem t i v t i ≡ v
unfolding set_entry
set_entry_eq mem t i v = ground arith

-- A write into the table `t`, which `p` leads to, is seen only below the slot.
module _ (mem : Mem) (pgd t i v e : ℕ) (p : List ℕ) (tree : IsTree mem pgd)
    (at : walk mem pgd p ≡ some e) (table : pte_pfn e ≡ t) (short : length p ≤ 3) where
  step_beside :
      (j : ℕ) (r : List ℕ)
      → length r ≤ 3
      → j ∷ r ≢ i ∷ p
      → walk (set_entry mem t i v) pgd r ≡ walk mem pgd r
      → walk (set_entry mem t i v) pgd (j ∷ r) ≡ walk mem pgd (j ∷ r)
  step_beside j r h ne ih = elim (Option-cases (walk mem pgd r)) [
    | inl w ↦ walk_stop _ pgd j r (ih ∙ w) ∙ sym (walk_stop mem pgd j r w)
    | inr (f, w) ↦
        walk_step _ pgd j f r (ih ∙ w) ∙ rw (untouched f w) (sym (walk_step mem pgd j f r w))
  ]
    where
      same_slot : (f : ℕ) → walk mem pgd r ≡ some f → pte_pfn f ≡ t → j ≡ i → j ∷ r ≡ i ∷ p
      same_slot f w a b = rw (b, tree r p f e w at h short (a ∙ sym table))

      untouched :
          (f : ℕ) → walk mem pgd r ≡ some f → set_entry mem t i v (pte_pfn f) j ≡ mem (pte_pfn f) j
      untouched f w = set_entry_ne mem t i v (pte_pfn f) j (λ a b. ne (same_slot f w a b))

  -- Paths that do not pass through the slot.
  pub write_beside :
      (q : List ℕ)
      → length q ≤ length p + 1
      → q ≢ i ∷ p
      → walk (set_entry mem t i v) pgd q ≡ walk mem pgd q
  write_beside [] h ne = walk_root (set_entry mem t i v) mem pgd
  write_beside (j ∷ r) h ne =
      step_beside j r (omega arith) ne
        (write_beside r (omega arith) (λ a. absurd (omega (arith, ap (length {0}) a))))

  -- An entry without its present bit.
  pub write_absent : is_present v ≡ false → walk (set_entry mem t i v) pgd (i ∷ p) ≡ none
  write_absent off =
      let ih = write_beside p (omega arith) (λ a. absurd (omega (arith, ap (length {0}) a))) in
      walk_step _ pgd i e p (ih ∙ at) ∙ rw (table, set_entry_eq mem t i v, off)

-- A write of a present entry into a free slot of the table `t`, which `p` leads to.
module _ (mem : Mem) (pgd t i v e : ℕ) (p : List ℕ) (tree : IsTree mem pgd)
    (at : walk mem pgd p ≡ some e) (table : pte_pfn e ≡ t) (short : length p ≤ 3)
    (free : is_present (mem t i) ≡ false) (set : is_present v ≡ true)
    (below : length p ≤ 2
      → ((j : ℕ) → mem (pte_pfn v) j ≡ 0)
        × ((q : List ℕ) (f : ℕ)
            → walk mem pgd q ≡ some f
            → length q ≤ 3
            → pte_pfn f ≢ pte_pfn v)) where
  slot_none : walk mem pgd (i ∷ p) ≡ none
  slot_none = walk_step mem pgd i e p at ∙ rw (table, free)

  step_here :
      walk (set_entry mem t i v) pgd p ≡ walk mem pgd p
      → walk (set_entry mem t i v) pgd (i ∷ p) ≡ some v
  step_here ih = walk_step _ pgd i e p (ih ∙ at) ∙ rw (table, set_entry_eq mem t i v, set)

  step_below :
      (j : ℕ)
      → length p ≤ 2
      → walk (set_entry mem t i v) pgd p ≡ walk mem pgd p
      → walk (set_entry mem t i v) pgd (j ∷ i ∷ p) ≡ walk mem pgd (j ∷ i ∷ p)
  step_below j h ih =
      let clean =
        set_entry_ne mem t i v (pte_pfn v) j (λ a b. (below h).1 p e at short (table ∙ sym a))
        ∙ (below h).0 j in
      walk_step _ pgd j v (i ∷ p) (step_here ih)
      ∙ rw clean (sym (walk_stop mem pgd j (i ∷ p) slot_none))

  step_meets :
      (j k : ℕ) (r : List ℕ)
      → length r ≤ 2
      → k ∷ r ≡ i ∷ p
      → (r ≢ i ∷ p → walk (set_entry mem t i v) pgd r ≡ walk mem pgd r)
      → walk (set_entry mem t i v) pgd (j ∷ k ∷ r) ≡ walk mem pgd (j ∷ k ∷ r)
  step_meets j k r h hit ih =
      let same : r ≡ p = ap tail hit in
      let size : length r ≡ length p = ap (length {0}) same in
      let ne : r ≢ i ∷ p = λ a. absurd (omega (arith, ap (length {0}) a)) in
      rw hit (step_below j (omega arith) (rw same at (ih ne)))

  pub write_others :
      (q : List ℕ) → length q ≤ 4 → q ≢ i ∷ p → walk (set_entry mem t i v) pgd q ≡ walk mem pgd q
  write_others [] h ne = walk_root (set_entry mem t i v) mem pgd
  write_others (j ∷ []) h ne =
      step_beside mem pgd t i v e p tree at table short j [] (omega arith) ne
        (walk_root (set_entry mem t i v) mem pgd)
  write_others (j ∷ k ∷ r) h ne = elim (path_discrete (k ∷ r) (i ∷ p)) [
    | yes hit ↦ step_meets j k r (omega arith) hit (write_others r (omega arith))
    | no miss ↦
        step_beside mem pgd t i v e p tree at table short j (k ∷ r) (omega arith) ne
          (write_others (k ∷ r) (omega arith) miss)
  ]

  pub write_here : walk (set_entry mem t i v) pgd (i ∷ p) ≡ some v
  write_here =
      step_here (write_others p (omega arith) (λ a. absurd (omega (arith, ap (length {0}) a))))

  -- A table of the new tree is the new one or an old one.
  pub write_origin :
      (q : List ℕ) (f : ℕ)
      → walk (set_entry mem t i v) pgd q ≡ some f
      → length q ≤ 3
      → ((q ≡ i ∷ p) × (f ≡ v) × (length p ≤ 2)) ⊎ (walk mem pgd q ≡ some f)
  write_origin q f w h = elim (path_discrete q (i ∷ p)) [
    | yes hit ↦
        let w' : walk (set_entry mem t i v) pgd (i ∷ p) ≡ some f = rw hit at w in
        inl (hit, cc (write_here), omega (arith, ap (length {0}) hit))
    | no miss ↦ inr (sym (write_others q (omega arith) miss) ∙ w)
  ]

  pub write_IsTree : IsTree (set_entry mem t i v) pgd
  write_IsTree a b f g wa wb la lb eq = elim (write_origin a f wa la) [
    | inl (ha, fa, low) ↦ elim (write_origin b g wb lb) [
      | inl (hb, fb, _) ↦ ha ∙ sym hb
      | inr old ↦ absurd ((below low).1 b g old lb (sym eq ∙ ap (λ x. pte_pfn x) fa))
    ]
    | inr olda ↦ elim (write_origin b g wb lb) [
      | inl (hb, fb, low) ↦ absurd ((below low).1 a f olda la (eq ∙ ap (λ x. pte_pfn x) fb))
      | inr oldb ↦ tree a b f g olda oldb la lb eq
    ]
  ]
