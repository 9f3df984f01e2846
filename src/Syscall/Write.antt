-- ===== src/Syscall/Write.antt =====
-- On `SYSCALL_WRITE` in Assn2/entry.c: what reaches the console.
use Prim.Native.Nat.{min}
use gem_os_cs330a.Prelude.{
  ℕ, zero, suc, ◌+◌, ◌%◌, ◌^◌, ◌<◌, ◌≤◌, ◌≡◌, ◌≢◌, refl, ap, ◌∙◌, ◌⊎◌, inl, inr, none, some, ◌||◌,
  ◌==◌, ltb, leb, arith, List, [], ◌∷◌, ◌++◌, get_or, length, length-append, if◌then◌else◌,
  Option-cases, Option, true, false, ◌>>=◌,
}
use gem_os_cs330a.Context.{ExecContext}
use gem_os_cs330a.Mem.{Mem, offset_l1, pte_pfn}
use gem_os_cs330a.Mem.Walk.{walk, walk_parent, absent_slot, l1_path, page_path}
use gem_os_cs330a.Syscall.{minus_one, find_l1, read_bytes, do_write}
use gem_os_cs330a.Syscall.Unmap.{find_l1-walk}

-- What the loop of the printing reads: `byte` where all reads succeed, a fault where one does not.
read_bytes_reads :
    (user : ℕ → Option ℕ) (byte : ℕ → ℕ) (n a : ℕ)
    → ((i : ℕ) → i < n → user (a + i) ≡ some (byte (a + i)))
    → (text : List ℕ) × (read_bytes user n a ≡ some text)
      × (length text ≡ n)
      × ((i : ℕ) (l : List ℕ) → i < n → get_or (text ++ l) i 0 ≡ byte (a + i))
unfolding read_bytes
read_bytes_reads user byte zero a h = ([], refl, refl, λ i l lt. absurd (omega arith))
read_bytes_reads user byte (suc n) a h =
    let first : user a ≡ some (byte a) =
      let z : a + 0 ≡ a = omega arith in let k = h 0 (omega arith) in rw z at k in
    let next : (i : ℕ) → i < n → user (a + 1 + i) ≡ some (byte (a + 1 + i)) = λ i lt.
      let e : a + suc i ≡ a + 1 + i = omega arith in let k = h (suc i) (omega arith) in rw e at k in
    let (text, run, len, gets) = read_bytes_reads user byte n (a + 1) next in
    (byte a ∷ text, rw (first, run) refl, ap suc len, at_place text gets)
  where
    at_place :
        (text : List ℕ)
        → ((i : ℕ) (l : List ℕ) → i < n → get_or (text ++ l) i 0 ≡ byte (a + 1 + i))
        → (i : ℕ) (l : List ℕ) → i < suc n
        → get_or (byte a ∷ text ++ l) i 0 ≡ byte (a + i)
    at_place text gets zero l lt = ap byte (omega arith)
    at_place text gets (suc i) l lt = gets i l (omega arith) ∙ ap byte (omega arith)

read_bytes_faults :
    (user : ℕ → Option ℕ) (n a i : ℕ) → i < n → user (a + i) ≡ none → read_bytes user n a ≡ none
unfolding read_bytes
read_bytes_faults user zero a i lt h = absurd (omega arith)
read_bytes_faults user (suc n) a zero lt h =
    let first : user a ≡ none = let z : a + 0 ≡ a = omega arith in rw z at h in rw first refl
read_bytes_faults user (suc n) a (suc i) lt h =
    let e : a + suc i ≡ a + 1 + i = omega arith in
    let rest = read_bytes_faults user n (a + 1) i (omega arith) (rw e at h) in
    elim (Option-cases (user a)) [
      | inl none_first ↦ rw none_first refl
      | inr (byte, first) ↦ rw (first, rest) refl
    ]

-- `SYSCALL_WRITE` on every input: its text and its result, or a fault of the kernel. `user` is what the
-- kernel reads at an address, and `byte` the bytes where it reads any.
pub record Writes (user strlen : ℕ → Option ℕ) (byte : ℕ → ℕ) (mem : Mem) (ctx : ExecContext)
    (address len : ℕ) (r : Option (List ℕ × ℕ)) : Type 0 where
  pub unmapped : walk mem ctx.pgd (page_path address) ≡ none → r ≡ some ([], minus_one)
  pub bad_args : (len ≡ 0) ⊎ (1024 < len) ⊎ (address ≡ 0) → r ≡ some ([], minus_one)
  pub prints :
      (e n : ℕ)
      → walk mem ctx.pgd (page_path address) ≡ some e
      → 0 < len
      → len ≤ 1024
      → address ≢ 0
      → strlen address ≡ some n
      → ((i : ℕ) → i < min n len → user (address + i) ≡ some (byte (address + i)))
      → (text : List ℕ) × (r ≡ some (text, min n len))
        × (length text ≡ min n len + 1)
        × ((i : ℕ) → i < min n len → get_or text i 0 ≡ byte (address + i))
  pub faults :
      (e n i : ℕ)
      → walk mem ctx.pgd (page_path address) ≡ some e
      → 0 < len
      → len ≤ 1024
      → address ≢ 0
      → strlen address ≡ some n
      → i < min n len
      → user (address + i) ≡ none
      → r ≡ none

module _ (user strlen : ℕ → Option ℕ) (byte : ℕ → ℕ) (mem : Mem) (ctx : ExecContext)
    (address len : ℕ) (small : ctx.pgd < 2 ^ 20) (word : len < 2 ^ 32) where
  unmapped_lem :
      walk mem ctx.pgd (page_path address) ≡ none
      → do_write user strlen mem ctx address len ≡ some ([], minus_one)
  unfolding do_write
  unmapped_lem w = elim (Option-cases (walk mem ctx.pgd (l1_path address))) [
    | inl none_l1 ↦
        let lost : find_l1 mem ctx.pgd address ≡ none =
          find_l1-walk mem ctx.pgd address small ∙ rw none_l1 in
        rw (lost, do_write)
    | inr (f, at_l1) ↦
        let found : find_l1 mem ctx.pgd address ≡ some (pte_pfn f) =
          find_l1-walk mem ctx.pgd address small ∙ rw at_l1 in
        rw (
          found,
          do_write,
          absent_slot mem ctx.pgd (offset_l1 address) f (pte_pfn f) (l1_path address) at_l1 refl w,
        )
  ]

  -- The result where the page is mapped.
  abbrev writing : Option (List ℕ × ℕ)
  writing =
      if len == 0 || leb (2 ^ 31) len || ltb 1024 len || address == 0
      then some ([], minus_one)
      else (do
        n ← strlen address
        let len' = if ltb n len then n else len
        text ← read_bytes user len' address
        some (text ++ 10 ∷ [], len'))

  mapped_lem :
      (e : ℕ)
      → walk mem ctx.pgd (page_path address) ≡ some e
      → do_write user strlen mem ctx address len ≡ writing
  unfolding do_write
  mapped_lem e w =
      let (f, at_l1, _, on) = walk_parent mem ctx.pgd (offset_l1 address) e (l1_path address) w in
      let found : find_l1 mem ctx.pgd address ≡ some (pte_pfn f) =
        find_l1-walk mem ctx.pgd address small ∙ rw at_l1 in
      let same : len % 2 ^ 32 ≡ len = omega arith in rw (found, do_write, on, same) refl

  bad_lem : (len ≡ 0) ⊎ (1024 < len) ⊎ (address ≡ 0) → writing ≡ some ([], minus_one)
  bad_lem bad =
      let t : (len == 0 || leb (2 ^ 31) len || ltb 1024 len || address == 0) ≡ true =
        ground arith in
      rw t refl

  good_lem :
      (n : ℕ)
      → 0 < len
      → len ≤ 1024
      → address ≢ 0
      → strlen address ≡ some n
      → writing
        ≡ (read_bytes user (min n len) address >>= (λ text. some (text ++ 10 ∷ [], min n len)))
  good_lem n pos most ne h =
      let t : (len == 0 || leb (2 ^ 31) len || ltb 1024 len || address == 0) ≡ false =
        ground arith in
      let least : (if ltb n len then n else len) ≡ min n len = ground arith in rw (t, h, least) refl

  pub do_write_lem :
      Writes user strlen byte mem ctx address len (do_write user strlen mem ctx address len)
  do_write_lem = record {
    unmapped = unmapped_lem;
    bad_args = λ bad. elim (Option-cases (walk mem ctx.pgd (page_path address))) [
      | inl w ↦ unmapped_lem w
      | inr (e, w) ↦ mapped_lem e w ∙ bad_lem bad
    ];
    prints = λ e n w pos most ne h reads.
        let (text, run, count, gets) = read_bytes_reads user byte (min n len) address reads in
        (
          text ++ 10 ∷ [],
          mapped_lem e w ∙ (good_lem n pos most ne h ∙ rw run refl),
          length-append text (10 ∷ []) ∙ omega (arith, count),
          λ i lt. gets i (10 ∷ []) lt,
        );
    faults = λ e n i w pos most ne h lt bad.
        let run = read_bytes_faults user (min n len) address i lt bad in
        mapped_lem e w ∙ (good_lem n pos most ne h ∙ rw run refl);
  }
