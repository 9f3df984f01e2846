-- ===== src/Mm/Data.antt =====
-- On the data segment in `prepare_context_mm` of Assn1/context_mm.c: the page that the process brings with it.
use gem_os_cs330a.Prelude.{
  ℕ, ◌+◌, ◌^◌, ◌<◌, ◌≤◌, ◌≡◌, ◌≢◌, refl, sym, ap, ◌∙◌, true, false, none, some, arith, List, length,
  shl,
}
use gem_os_cs330a.Context.{ExecContext}
use gem_os_cs330a.Mem.{
  Mem, Phys, Pfns, PfnLaws, set_entry, offset_l1, pr_rw_us, is_present, pte_pfn, make_pte,
  table_path,
}
use gem_os_cs330a.Mem.Walk.{walk, absent_slot, l1_path, page_path}
use gem_os_cs330a.Mem.Rights.{
  allows, all_allow, is_writable, all_allow-present, all_allow-same, made_allows,
}
use gem_os_cs330a.Mem.Fill.{path_discrete, make_pte_lem, write_others, write_here, write_IsTree}
use gem_os_cs330a.Mem.Entry.{IsSound}
use gem_os_cs330a.Mem.Map.{table_path_lem}
use gem_os_cs330a.Mm.{data_va, map_data}

-- A page that the caller owns is entered below the tables of `va`.
module _ {P : Pfns} (L : PfnLaws P) (pgd va v e t : ℕ) (s : Phys P.Pool) (sound : IsSound L pgd s)
    (at : walk s.mem pgd (l1_path va) ≡ some e) (table : pte_pfn e ≡ t)
    (free : is_present (s.mem t (offset_l1 va)) ≡ false) (set : is_present v ≡ true) where
  abbrev page_written : Mem
  page_written = set_entry s.mem t (offset_l1 va) v

  no_table : {A : Type 0} → length (l1_path va) ≤ 2 → A
  no_table h = absurd (omega arith)

  page_written_here : walk page_written pgd (page_path va) ≡ some v
  page_written_here =
      write_here s.mem pgd t (offset_l1 va) v e (l1_path va) sound.tree at table (omega arith) free
        set no_table

  page_written_others :
      (q : List ℕ) → length q ≤ 4 → q ≢ page_path va → walk page_written pgd q ≡ walk s.mem pgd q
  page_written_others =
      write_others s.mem pgd t (offset_l1 va) v e (l1_path va) sound.tree at table (omega arith)
        free set no_table

  page_written-IsSound : IsSound L pgd (record s { mem = page_written })
  page_written-IsSound = record {
    tree =
        write_IsTree s.mem pgd t (offset_l1 va) v e (l1_path va) sound.tree at table (omega arith)
          free set no_table;
    owned = λ q f w h.
        sound.owned q f
          (sym
              (page_written_others q (omega arith) (λ a. absurd (omega (arith, ap (length {0}) a))))
            ∙ w)
          h;
  }

-- `r` is the result of `map_data`.
pub record DataMapped {P : Pfns} (L : PfnLaws P) (ctx : ExecContext) (s : Phys P.Pool)
    (r : ExecContext × Phys P.Pool) : Type 0 where
  pub same_ctx : r.0 ≡ ctx
  pub here : walk r.1.mem ctx.pgd (page_path (data_va ctx)) ≡ some (shl ctx.arg_pfn 0xc + pr_rw_us)
  pub others :
      (q : List ℕ)
      → length q ≡ 4
      → q ≢ page_path (data_va ctx)
      → walk r.1.mem ctx.pgd q ≡ walk s.mem ctx.pgd q
  pub still :
      (q : List ℕ) (x : ℕ)
      → length q ≤ 4
      → walk s.mem ctx.pgd q ≡ some x
      → walk r.1.mem ctx.pgd q ≡ some x
  pub writable :
      is_writable r.1.mem ctx.pgd (page_path (data_va ctx))
      ≡ all_allow true s.mem ctx.pgd (page_path (data_va ctx))
  pub sound : IsSound L ctx.pgd r.1

pub map_data_lem :
    {P : Pfns} (L : PfnLaws P) (ctx : ExecContext) (s : Phys P.Pool)
    → ctx.pgd < 2 ^ 20
    → ctx.arg_pfn < 2 ^ 20
    → IsSound L ctx.pgd s
    → 3 ≤ L.available s.pool
    → walk s.mem ctx.pgd (page_path (data_va ctx)) ≡ none
    → DataMapped L ctx s (map_data P ctx s)
unfolding map_data
map_data_lem {P} L ctx s small arg sound room absent =
    let t = table_path_lem L ctx.pgd pr_rw_us (data_va ctx) s small sound (omega arith) room in
    let r = table_path P pr_rw_us ctx.pgd (data_va ctx) s in
    let pte : make_pte ctx.arg_pfn pr_rw_us ≡ shl ctx.arg_pfn 0xc + pr_rw_us =
      make_pte_lem ctx.arg_pfn pr_rw_us arg (omega arith) in
    let set : is_present (make_pte ctx.arg_pfn pr_rw_us) ≡ true = rw pte (ground arith) in
    let free : is_present (r.1.mem r.0 (offset_l1 (data_va ctx))) ≡ false =
      absent_slot r.1.mem ctx.pgd (offset_l1 (data_va ctx)) t.entry r.0 (l1_path (data_va ctx)) t.at
        t.frame (t.pages (page_path (data_va ctx)) refl ∙ absent) in
    let mem' = set_entry r.1.mem r.0 (offset_l1 (data_va ctx)) (make_pte ctx.arg_pfn pr_rw_us) in
    let here : walk mem' ctx.pgd (page_path (data_va ctx)) ≡ some (shl ctx.arg_pfn 0xc + pr_rw_us) =
      page_written_here L ctx.pgd (data_va ctx) (make_pte ctx.arg_pfn pr_rw_us) t.entry r.0 r.1
        t.sound t.at t.frame free set
      ∙ rw pte refl in
    let kept : (q : List ℕ)
        → length q ≤ 4
        → q ≢ page_path (data_va ctx)
        → walk mem' ctx.pgd q ≡ walk r.1.mem ctx.pgd q =
      page_written_others L ctx.pgd (data_va ctx) (make_pte ctx.arg_pfn pr_rw_us) t.entry r.0 r.1
        t.sound t.at t.frame free set in
    let allowed : (q : List ℕ)
        → length q ≤ 4
        → allows true (walk mem' ctx.pgd q) ≡ allows true (walk s.mem ctx.pgd q) =
      λ q le. elim (path_discrete q (page_path (data_va ctx))) [
        | yes hit ↦ rw (hit, here, absent) (made_allows ctx.arg_pfn pr_rw_us (omega arith))
        | no miss ↦ ap (allows true) (kept q le miss) ∙ t.allowed q le
      ] in
    rw free (record {
      same_ctx = refl;
      here = here;
      still = λ q x le w. elim (path_discrete q (page_path (data_va ctx))) [
        | yes hit ↦
            let w' : walk s.mem ctx.pgd (page_path (data_va ctx)) ≡ some x = rw hit at w in
            absurd (cc (absent))
        | no miss ↦ kept q le miss ∙ t.still q x le w
      ];
      writable =
          sym (
            all_allow-present true mem' ctx.pgd (page_path (data_va ctx))
              (shl ctx.arg_pfn 0xc + pr_rw_us) here)
          ∙ all_allow-same true s.mem mem' ctx.pgd 4 allowed (page_path (data_va ctx))
              (omega arith);
      others = λ q h ne.
          page_written_others L ctx.pgd (data_va ctx) (make_pte ctx.arg_pfn pr_rw_us) t.entry r.0
            r.1 t.sound t.at t.frame free set q (omega arith) ne
          ∙ t.pages q h;
      sound =
          page_written-IsSound L ctx.pgd (data_va ctx) (make_pte ctx.arg_pfn pr_rw_us) t.entry r.0
            r.1 t.sound t.at t.frame free set;
    })
