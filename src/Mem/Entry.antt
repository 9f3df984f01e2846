-- ===== src/Mem/Entry.antt =====
-- On one level of the repeated blocks of Assn1/context_mm.c: what it does to the tree of tables.
use gem_os_cs330a.Prelude.{
  ℕ, ◌+◌, ◌%◌, ◌<◌, ◌≤◌, ◌≡◌, ◌≢◌, refl, sym, ◌∙◌, ◌⊎◌, inl, inr, true, false, none, some, arith,
  List, ◌∷◌, length, shl, Bool-cases,
}
use gem_os_cs330a.Mem.{
  Region, os_pt_reg, Phys, Pfns, PfnLaws, set_entry, is_present, pte_pfn, make_pte, table_entry,
}
use gem_os_cs330a.Mem.Walk.{walk, walk_step, IsTree, IsOwned}
use gem_os_cs330a.Mem.Fill.{
  make_pte_lem, walk_keeps, write_others, write_here, write_origin, write_IsTree,
}

pub record IsSound {P : Pfns} (L : PfnLaws P) (pgd : ℕ) (s : Phys P.Pool) : Type 0 where
  pub tree : IsTree s.mem pgd
  pub owned : IsOwned L.used s.pool s.mem pgd

-- `r` is the frame that was entered at `path` in state `s`, and the new state.
pub record Entered {P : Pfns} (L : PfnLaws P) (pgd flags : ℕ) (path : List ℕ) (s : Phys P.Pool)
    (r : ℕ × Phys P.Pool) : Type 0 where
  pub entry : ℕ
  pub at : walk r.1.mem pgd path ≡ some entry
  pub frame : pte_pfn entry ≡ r.0
  pub kept : (x : ℕ) → walk s.mem pgd path ≡ some x → entry ≡ x
  pub made : walk s.mem pgd path ≡ none → entry ≡ shl r.0 0xc + flags
  pub others : (q : List ℕ) → length q ≤ 4 → q ≢ path → walk r.1.mem pgd q ≡ walk s.mem pgd q
  pub sound : IsSound L pgd r.1
  pub spent : L.available s.pool ≤ L.available r.1.pool + 1

abbrev pub IsFlags : ℕ → Type 0
IsFlags f = (f < 8) × (f % 2 ≡ 1)

module _ {P : Pfns} (L : PfnLaws P) (pgd flags t i e : ℕ) (p : List ℕ) (s : Phys P.Pool)
    (sound : IsSound L pgd s) (at : walk s.mem pgd p ≡ some e) (table : pte_pfn e ≡ t)
    (short : length p ≤ 3) (ok : IsFlags flags) (room : 0 < L.available s.pool) where
  entry_present :
      (r : Region)
      → is_present (s.mem t i) ≡ true
      → Entered L pgd flags (i ∷ p) s (table_entry P r flags t i s)
  unfolding table_entry
  entry_present r h = rw h (record {
    entry = s.mem t i;
    at = now;
    frame = refl;
    kept = λ x w. cc (now);
    made = λ w. cc (now);
    others = λ q a b. refl;
    sound = sound;
    spent = omega arith;
  })
    where
      now : walk s.mem pgd (i ∷ p) ≡ some (s.mem t i)
      now = walk_step s.mem pgd i e p at ∙ rw (table, h)

  module _ (r : Region) (kind : (r ≡ os_pt_reg) ⊎ (length p ≡ 3))
      (absent : is_present (s.mem t i) ≡ false) where
    abbrev c : ℕ
    c = (P.os_pfn_alloc r s).0

    abbrev s₁ : Phys P.Pool
    s₁ = (P.os_pfn_alloc r s).1

    same : (q : List ℕ) → length q ≤ 4 → walk s₁.mem pgd q ≡ walk s.mem pgd q
    same =
        walk_keeps s.mem s₁.mem pgd
          λ q f j w h. L.alloc_keeps r s (pte_pfn f) j (sound.owned q f w h)

    tree₁ : IsTree s₁.mem pgd
    tree₁ a b f g wa wb la lb eq =
        sound.tree a b f g (sym (same a (omega arith)) ∙ wa) (sym (same b (omega arith)) ∙ wb) la lb
          eq

    new_pte : make_pte c flags ≡ shl c 0xc + flags
    new_pte = make_pte_lem c flags (L.alloc_small r s room) ok.0

    new_present : is_present (make_pte c flags) ≡ true
    new_present = rw new_pte (ground arith)

    new_pfn : pte_pfn (make_pte c flags) ≡ c
    new_pfn = rw new_pte (omega (arith, L.alloc_small r s room))

    still_absent : is_present (s₁.mem t i) ≡ false
    still_absent =
        rw (← table, L.alloc_keeps r s (pte_pfn e) i (sound.owned p e at short), table) absent

    -- Below the last level the new frame is an empty table that no path leads to.
    clean :
        length p ≤ 2
        → ((j : ℕ) → s₁.mem (pte_pfn (make_pte c flags)) j ≡ 0)
          × ((q : List ℕ) (f : ℕ)
              → walk s₁.mem pgd q ≡ some f
              → length q ≤ 3
              → pte_pfn f ≢ pte_pfn (make_pte c flags))
    clean h = elim kind [
      | inr three ↦ absurd (omega arith)
      | inl pt ↦ (
        λ j. rw new_pfn (zeroed r pt j),
        λ q f w l eq.
            cc
              (sound.owned q f (sym (same q (omega arith)) ∙ w) l, L.alloc_fresh r s room, new_pfn),
      )
    ]
      where
        zeroed :
            (r' : Region)
            → r' ≡ os_pt_reg
            → (j : ℕ) → (P.os_pfn_alloc r' s).1.mem (P.os_pfn_alloc r' s).0 j ≡ 0
        zeroed r' pt j = rw pt (L.alloc_zeroed s j)

    entered-IsOwned : IsOwned L.used s₁.pool (set_entry s₁.mem t i (make_pte c flags)) pgd
    entered-IsOwned q f w h =
        elim (write_origin s₁.mem pgd t i (make_pte c flags) e p tree₁ (same p (omega arith) ∙ at)
          table short still_absent new_present clean q f w h) [
            | inl (_, fv, _) ↦ rw (fv, new_pfn) (L.alloc_used r s room)
            | inr old ↦
                L.alloc_still_used r s (pte_pfn f)
                  (sound.owned q f (sym (same q (omega arith)) ∙ old) h)
          ]

    gone : walk s.mem pgd (i ∷ p) ≡ none
    gone = walk_step s.mem pgd i e p at ∙ rw (table, absent)

    entry_absent : Entered L pgd flags (i ∷ p) s (table_entry P r flags t i s)
    unfolding table_entry
    entry_absent = rw absent (record {
      entry = make_pte c flags;
      at =
          write_here s₁.mem pgd t i (make_pte c flags) e p tree₁ (same p (omega arith) ∙ at) table
            short still_absent new_present clean;
      frame = new_pfn;
      kept = λ x w. cc (gone);
      made = λ w. new_pte;
      others = λ q a b.
          write_others s₁.mem pgd t i (make_pte c flags) e p tree₁ (same p (omega arith) ∙ at) table
            short still_absent new_present clean q a b
          ∙ same q a;
      sound = record {
        tree =
            write_IsTree s₁.mem pgd t i (make_pte c flags) e p tree₁ (same p (omega arith) ∙ at)
              table short still_absent new_present clean;
        owned = entered-IsOwned;
      };
      spent = L.alloc_available r s;
    })

  pub table_entry_lem :
      (r : Region)
      → (r ≡ os_pt_reg) ⊎ (length p ≡ 3)
      → Entered L pgd flags (i ∷ p) s (table_entry P r flags t i s)
  table_entry_lem r kind = elim (Bool-cases (is_present (s.mem t i))) [
    | inl h ↦ entry_present r h
    | inr h ↦ entry_absent r kind h
  ]
