-- ===== src/Syscall/Unmap.antt =====
-- On the walk that the system calls of Assn2/entry.c make, and on one round of the loop of
-- `SYSCALL_SHRINK`.
use gem_os_cs330a.Prelude.{
  ℕ, ◌-◌, ◌%◌, ◌^◌, ◌<◌, ◌≤◌, ◌≡◌, ◌≢◌, refl, sym, ap, ◌∙◌, inl, inr, false, Option, none, some,
  arith, List, [], ◌∷◌, if◌then◌else◌, length, shl, Bool-cases, Option-cases, ◌>>=◌,
}
use gem_os_cs330a.Mem.{
  user_reg, Mem, Phys, Pfns, PfnLaws, set_entry, offset_l4, offset_l3, offset_l2, offset_l1,
  is_present, pte_pfn,
}
use gem_os_cs330a.Mem.Walk.{walk, IsTree, walk_step, walk_stop, walk_root_lem, l1_path, page_path}
use gem_os_cs330a.Mem.Fill.{write_beside, write_absent}
use gem_os_cs330a.Syscall.{follow, find_l1, unmap_page}

abbrev pub frame_of : Option ℕ → Option ℕ
frame_of none = none
frame_of (some e) = some (pte_pfn e)

follow-walk :
    (mem : Mem) (pgd i : ℕ) (p : List ℕ)
    → (frame_of (walk mem pgd p) >>= λ t. follow mem t i) ≡ frame_of (walk mem pgd (i ∷ p))
unfolding follow
follow-walk mem pgd i p = elim (Option-cases (walk mem pgd p)) [
  | inl w ↦ rw (w, walk_stop mem pgd i p w)
  | inr (e, w) ↦ rw (w, walk_step mem pgd i e p w) (ground arith)
]

root_frame : (mem : Mem) (pgd : ℕ) → pgd < 2 ^ 20 → frame_of (walk mem pgd []) ≡ some pgd
root_frame mem pgd h = let e : pte_pfn (shl pgd 0xc) ≡ pgd = omega arith in rw (walk_root_lem, e)

-- For a root below 2 ^ 20, the three blocks of the walk that the system calls make find the last
-- table exactly where the walk over the path of table indices does, and fail exactly where it
-- fails.
pub find_l1-walk :
    (mem : Mem) (pgd va : ℕ)
    → pgd < 2 ^ 20
    → find_l1 mem pgd va ≡ frame_of (walk mem pgd (l1_path va))
unfolding find_l1
find_l1-walk mem pgd va h =
    let a = follow-walk mem pgd (offset_l4 va) [] in
    let b = follow-walk mem pgd (offset_l3 va) (offset_l4 va ∷ []) in
    let c = follow-walk mem pgd (offset_l2 va) (offset_l3 va ∷ offset_l4 va ∷ []) in
    rw (← c, ← b, ← a, root_frame mem pgd h) (ground arith)

-- `s'` is `s` without the page of `va`.
pub record Unmapped (pgd va : ℕ) (mem mem' : Mem) : Type 0 where
  pub gone : walk mem' pgd (page_path va) ≡ none
  pub others : (q : List ℕ) → length q ≤ 4 → q ≢ page_path va → walk mem' pgd q ≡ walk mem pgd q

pub Unmapped-IsTree :
    {pgd va : ℕ} {mem mem' : Mem} → Unmapped pgd va mem mem' → IsTree mem pgd → IsTree mem' pgd
Unmapped-IsTree {va} u tree a b f g wa wb la lb eq =
    tree a b f g (sym (u.others a (omega arith) (low a la)) ∙ wa)
      (sym (u.others b (omega arith) (low b lb)) ∙ wb) la lb eq
  where
    low : (q : List ℕ) → length q ≤ 3 → q ≢ page_path va
    low q h e = absurd (omega (arith, ap (length {0}) e))

-- Where the page is mapped, `unmap_page` clears its entry, gives its frame back, and changes
-- nothing else; where it is not, it does nothing.
pub record Unmaps (P : Pfns) (pgd va : ℕ) (s s' : Phys P.Pool) : Type 0 where
  pub mem : Unmapped pgd va s.mem s'.mem
  pub absent : walk s.mem pgd (page_path va) ≡ none → s' ≡ s
  pub frees :
      (e : ℕ)
      → walk s.mem pgd (page_path va) ≡ some e
      → (m : Mem) × (s' ≡ P.os_pfn_free user_reg (pte_pfn e) (record s { mem = m }))

module _ {P : Pfns} (L : PfnLaws P) (pgd va : ℕ) (s : Phys P.Pool) (small : pgd < 2 ^ 20)
    (tree : IsTree s.mem pgd) where
  stay : walk s.mem pgd (page_path va) ≡ none → Unmaps P pgd va s s
  stay h = record {
    mem = record { gone = h; others = λ q a b. refl };
    absent = λ w. refl;
    frees = λ e w. cc;
  }

  module _ (f : ℕ) (w : walk s.mem pgd (l1_path va) ≡ some f) where
    abbrev l1 : ℕ
    l1 = pte_pfn f

    abbrev entry : ℕ
    entry = s.mem l1 (offset_l1 va)

    found : find_l1 s.mem pgd va ≡ some l1
    found = find_l1-walk s.mem pgd va small ∙ rw w

    step : walk s.mem pgd (page_path va) ≡ (if is_present entry then some entry else none)
    step = walk_step s.mem pgd (offset_l1 va) f (l1_path va) w

    cleared : is_present (entry - entry % 2) ≡ false
    cleared = ground arith

    abbrev mem' : Mem
    mem' = set_entry s.mem l1 (offset_l1 va) (entry - entry % 2)

    at_l1 : Unmaps P pgd va s (unmap_page P pgd va s)
    unfolding unmap_page
    at_l1 = elim (Bool-cases (is_present entry)) [
      | inr off ↦ rw (found, unmap_page, off) (stay (step ∙ rw off))
      | inl on ↦
          let kept = L.free_keeps user_reg (pte_pfn entry) (record s { mem = mem' }) in
          let here : walk s.mem pgd (page_path va) ≡ some entry = step ∙ rw on in
          rw (found, unmap_page, on)
            (record {
              mem = rw kept (record {
                gone =
                    write_absent s.mem pgd l1 (offset_l1 va) (entry - entry % 2) f (l1_path va) tree
                      w refl (omega arith) cleared;
                others = λ q a b.
                    write_beside s.mem pgd l1 (offset_l1 va) (entry - entry % 2) f (l1_path va) tree
                      w refl (omega arith) q (omega arith) b;
              });
              absent = λ a. cc (here);
              frees = λ e a. let same : e ≡ entry = cc (here) in (mem', rw same refl);
            })
    ]

  -- Where the root is below 2 ^ 20 and the tables are a tree, one round of the loop of
  -- SYSCALL_SHRINK leaves the page of its address unmapped and every other path of the tables as it
  -- was. If the page was mapped its frame, and no other, is given back, and if it was not nothing
  -- changes.
  pub unmap_page_lem : Unmaps P pgd va s (unmap_page P pgd va s)
  unfolding unmap_page
  unmap_page_lem = elim (Option-cases (walk s.mem pgd (l1_path va))) [
    | inl w ↦
        let lost : find_l1 s.mem pgd va ≡ none = find_l1-walk s.mem pgd va small ∙ rw w in
        rw (lost, unmap_page) (stay (walk_stop s.mem pgd (offset_l1 va) (l1_path va) w))
    | inr (f, w) ↦ at_l1 f w
  ]
