-- ===== src/Mem/Rights.antt =====
-- On the rights of pages in the tables of Assn1/context_mm.c: the processor lets a page be written
-- only if the entries of all levels on the way to it have the bit `rw`.
use gem_os_cs330a.Prelude.{
  ℕ, ◌+◌, ◌<◌, ◌≤◌, ◌≡◌, refl, ap, ◌∙◌, Bool, true, false, ◌&&◌, ◌==◌, Option, none, some, arith,
  List, [], ◌∷◌, length, low_bits, shl, shr,
}
use gem_os_cs330a.Mem.{Mem, Phys, Pfns, PfnLaws}
use gem_os_cs330a.Mem.Walk.{walk, walk_parent}
use gem_os_cs330a.Mem.Fill.{path_discrete}
use gem_os_cs330a.Mem.Entry.{IsFlags, Entered}

-- The bit `rw` of an entry.
abbrev pub may_write : ℕ → Bool
may_write e = low_bits (shr e 1) 1 == 1

-- The same where an entry that is absent counts as `new`.
abbrev pub allows : (new : Bool) → Option ℕ → Bool
allows new none = new
allows new (some e) = may_write e

-- All levels on the way allow it.
abbrev pub all_allow : (new : Bool) → Mem → ℕ → List ℕ → Bool
all_allow new mem pgd [] = true
all_allow new mem pgd (i ∷ path) =
    allows new (walk mem pgd (i ∷ path)) && all_allow new mem pgd path

-- The page may be written.
abbrev pub is_writable : Mem → ℕ → List ℕ → Bool
is_writable mem pgd path = all_allow false mem pgd path

-- On a way that is present, no entry is absent.
pub all_allow-present :
    (new : Bool) (mem : Mem) (pgd : ℕ) (path : List ℕ) (e : ℕ)
    → walk mem pgd path ≡ some e
    → all_allow new mem pgd path ≡ is_writable mem pgd path
all_allow-present new mem pgd [] e w = refl
all_allow-present new mem pgd (i ∷ path) e w =
    let (f, up, _, _) = walk_parent mem pgd i e path w in
    let rest = all_allow-present new mem pgd path f up in rw (w, rest) refl

pub all_allow-same :
    (new : Bool) (mem mem' : Mem) (pgd n : ℕ)
    → ((q : List ℕ) → length q ≤ n → allows new (walk mem' pgd q) ≡ allows new (walk mem pgd q))
    → (path : List ℕ) → length path ≤ n
    → all_allow new mem' pgd path ≡ all_allow new mem pgd path
all_allow-same new mem mem' pgd n h [] le = refl
all_allow-same new mem mem' pgd n h (i ∷ path) le =
    let rest = all_allow-same new mem mem' pgd n h path (omega arith) in
    rw (h (i ∷ path) le, rest) refl

-- Where entries stay, so do the rights of what is mapped.
pub is_writable-kept :
    (mem mem' : Mem) (pgd n : ℕ)
    → ((q : List ℕ) (x : ℕ) → length q ≤ n → walk mem pgd q ≡ some x → walk mem' pgd q ≡ some x)
    → (path : List ℕ) (e : ℕ) → length path ≤ n
    → walk mem pgd path ≡ some e
    → is_writable mem' pgd path ≡ is_writable mem pgd path
is_writable-kept mem mem' pgd n still [] e le w = refl
is_writable-kept mem mem' pgd n still (i ∷ path) e le w =
    let (f, up, _, _) = walk_parent mem pgd i e path w in
    let rest = is_writable-kept mem mem' pgd n still path f (omega arith) up in
    rw (w, still (i ∷ path) e le w, rest) refl

pub made_allows : (pfn flags : ℕ) → flags < 8 → may_write (shl pfn 0xc + flags) ≡ may_write flags
made_allows pfn flags h =
    let e : low_bits (shr (shl pfn 0xc + flags) 1) 1 ≡ low_bits (shr flags 1) 1 = omega arith in
    ap (λ b. b == 1) e

entered_at :
    (new : Bool) (entry : ℕ) (w' w : Option ℕ)
    → w' ≡ some entry
    → ((x : ℕ) → w ≡ some x → entry ≡ x)
    → (w ≡ none → may_write entry ≡ new)
    → allows new w' ≡ allows new w
entered_at new entry w' none at kept made = rw at (made refl)
entered_at new entry w' (some x) at kept made = rw at (ap may_write (kept x refl))

module _ {P : Pfns} (L : PfnLaws P) (pgd flags : ℕ) (path : List ℕ) (s : Phys P.Pool)
    (r : ℕ × Phys P.Pool) (ok : IsFlags flags) (e : Entered L pgd flags path s r) where
  -- A block enters an absent entry with its flags, and leaves the others.
  pub entered-allows :
      (q : List ℕ)
      → length q ≤ 4
      → allows (may_write flags) (walk r.1.mem pgd q) ≡ allows (may_write flags) (walk s.mem pgd q)
  entered-allows q le = elim (path_discrete q path) [
    | yes hit ↦ rw hit (
        entered_at (may_write flags) e.entry (walk r.1.mem pgd path) (walk s.mem pgd path) e.at
          e.kept (λ w. ap may_write (e.made w) ∙ made_allows r.0 flags ok.0))
    | no miss ↦ ap (allows (may_write flags)) (e.others q le miss)
  ]

  pub entered_still :
      (q : List ℕ) (x : ℕ) → length q ≤ 4 → walk s.mem pgd q ≡ some x → walk r.1.mem pgd q ≡ some x
  entered_still q x le w = elim (path_discrete q path) [
    | yes hit ↦
        let w' : walk s.mem pgd path ≡ some x = rw hit at w in
        rw hit (e.at ∙ ap (λ n. some n) (e.kept x w'))
    | no miss ↦ e.others q le miss ∙ w
  ]
