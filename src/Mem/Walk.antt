-- ===== src/Mem/Walk.antt =====
-- The page tables as a tree: the hardware's walk from the root along a path of indices, which is
-- independent of the code in Assn1/context_mm.c that fills the tables.
use gem_os_cs330a.Prelude.{
  ℕ, ◌+◌, ◌*◌, ◌/◌, ◌%◌, ◌^◌, ◌≤◌, ◌≡◌, Bool, true, false, Option, none, some, List, [], ◌∷◌,
  if◌then◌else◌, length, shl, shr, get_or, inl, inr, refl, ap, Option-cases, arith,
}
use gem_os_cs330a.Mem.{Mem, offset_l4, offset_l3, offset_l2, offset_l1, is_present, pte_pfn}

abbrev read : Mem → Option ℕ → ℕ → Option ℕ
read mem none i = none
read mem (some e) i = if is_present (mem (pte_pfn e) i) then some (mem (pte_pfn e) i) else none

-- The entry that is reached by the indices `path`, the last one first. Only present bits are looked at:
-- the rights of a page hang on all entries of the way, see `Mem/Rights`.
unfoldable pub walk : Mem → ℕ → List ℕ → Option ℕ
walk mem pgd [] = some (shl pgd 0xc)
walk mem pgd (i ∷ path) = read mem (walk mem pgd path) i

abbrev pub l1_path : ℕ → List ℕ
l1_path va = offset_l2 va ∷ offset_l3 va ∷ offset_l4 va ∷ []

abbrev pub page_path : ℕ → List ℕ
page_path va = offset_l1 va ∷ l1_path va

-- Two paths of tables never meet in one frame. (A path of four indices ends in a page, not in a
-- table; pages may be shared.)
abbrev pub IsTree : Mem → ℕ → Type 0
IsTree mem pgd =
    (p q : List ℕ) (e f : ℕ)
    → walk mem pgd p ≡ some e
    → walk mem pgd q ≡ some f
    → length p ≤ 3
    → length q ≤ 3
    → pte_pfn e ≡ pte_pfn f
    → p ≡ q

-- Every table of the tree is a frame in use.
abbrev pub IsOwned {ℓ} : {Pool : Type ℓ} (used : Pool → ℕ → Bool) → Pool → Mem → ℕ → Type 0
IsOwned used pool mem pgd =
    (p : List ℕ) (e : ℕ) → walk mem pgd p ≡ some e → length p ≤ 3 → used pool (pte_pfn e) ≡ true

-- A step down: the entry is present in the table that the path leads to.
pub walk_step :
    (mem : Mem) (pgd i e : ℕ) (p : List ℕ)
    → walk mem pgd p ≡ some e
    → walk mem pgd (i ∷ p)
      ≡ (if is_present (mem (pte_pfn e) i) then some (mem (pte_pfn e) i) else none)
unfolding walk
walk_step mem pgd i e p h = rw (h, read)

pub walk_stop :
    (mem : Mem) (pgd i : ℕ) (p : List ℕ) → walk mem pgd p ≡ none → walk mem pgd (i ∷ p) ≡ none
unfolding walk
walk_stop mem pgd i p h = rw (h, read)

-- Every entry that the walk returns has its present bit.
pub walk-present :
    (mem : Mem) (pgd i e : ℕ) (p : List ℕ) → walk mem pgd (i ∷ p) ≡ some e → is_present e ≡ true
unfolding walk
walk-present mem pgd i e p h = elim (Option-cases (walk mem pgd p)) [
  | inl w ↦ absurd (cc (walk_stop mem pgd i p w))
  | inr (f, w) ↦ ground (arith, walk_step mem pgd i f p w)
]

-- Bits 12 to 47 of an address.
abbrev pub page_of : ℕ → ℕ
page_of va = shr va 0xc % 2 ^ 36

page_of-offsets :
    (a : ℕ)
    → page_of a ≡ ((offset_l4 a * 512 + offset_l3 a) * 512 + offset_l2 a) * 512 + offset_l1 a
page_of-offsets a =
    let e₂ : shr a 0x15 ≡ shr a 0xc / 512 = omega arith in
    let e₃ : shr a 0x1e ≡ shr a 0xc / 512 / 512 = omega arith in
    let e₄ : shr a 0x27 ≡ shr a 0xc / 512 / 512 / 512 = omega arith in rw (e₂, e₃, e₄) (omega arith)

-- Two addresses with one path lie on one page.
pub page_path-injective : (a b : ℕ) → page_path a ≡ page_path b → page_of a ≡ page_of b
page_path-injective a b h =
    let e₁ : offset_l1 a ≡ offset_l1 b = ap (λ l. get_or l 0 0) h in
    let e₂ : offset_l2 a ≡ offset_l2 b = ap (λ l. get_or l 1 0) h in
    let e₃ : offset_l3 a ≡ offset_l3 b = ap (λ l. get_or l 2 0) h in
    let e₄ : offset_l4 a ≡ offset_l4 b = ap (λ l. get_or l 3 0) h in
    rw (page_of-offsets a, page_of-offsets b, e₁, e₂, e₃, e₄)

pub walk_root_lem : (mem : Mem) (pgd : ℕ) → walk mem pgd [] ≡ some (shl pgd 0xc)
unfolding walk
walk_root_lem mem pgd = refl

-- Where the walk stops, the slot is free.
pub absent_slot :
    (mem : Mem) (pgd i e t : ℕ) (p : List ℕ)
    → walk mem pgd p ≡ some e
    → pte_pfn e ≡ t
    → walk mem pgd (i ∷ p) ≡ none
    → is_present (mem t i) ≡ false
absent_slot mem pgd i e t p h k w =
    let step = walk_step mem pgd i e p h in
    let free : is_present (mem (pte_pfn e) i) ≡ false = ground arith in rw k at free

-- A path that is present passes through one that is, and through the entry that it reads.
pub walk_parent :
    (mem : Mem) (pgd i e : ℕ) (p : List ℕ)
    → walk mem pgd (i ∷ p) ≡ some e
    → (f : ℕ) × (walk mem pgd p ≡ some f)
      × (mem (pte_pfn f) i ≡ e)
      × (is_present (mem (pte_pfn f) i) ≡ true)
walk_parent mem pgd i e p h = elim (Option-cases (walk mem pgd p)) [
  | inl w ↦ absurd (cc (walk_stop mem pgd i p w))
  | inr (f, w) ↦ let step = walk_step mem pgd i f p w in (f, w, ground arith, ground arith)
]
