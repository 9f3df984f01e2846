-- ===== src/Objstore/View/Enter.antt =====
-- On blocks as an array: the node that a call of Assn4/objstore.c makes takes the place of the block's.
use gem_os_cs330a.Prelude.{
  ℕ, suc, ◌+◌, ◌^◌, ◌<◌, ◌≤◌, ◌≡◌, ◌≢◌, refl, sym, ap, subst, ◌∙◌, true, false, ◌==◌, arith,
  if◌then◌else◌, List, [], ◌∷◌, length, Bool-cases, inl, inr,
}
use gem_os_cs330a.Process.{update}
use gem_os_cs330a.Objstore.Bitmap.Ids.{is_used}
use gem_os_cs330a.Objstore.Cache.Lru.{has, Distinct, IsLru}
use gem_os_cs330a.Objstore.Cache.Hash.{SameBlock}
use gem_os_cs330a.Objstore.Cache.Hashed.{IsHashed}
use gem_os_cs330a.Objstore.Blocks.{Block, Device, Store, set_dirty}
use gem_os_cs330a.Objstore.Blocks.Run.{
  set_dirty-IsLru, set_dirty-IsHashed, set_dirty-others, set_dirty_at, set_dirty_map,
}
use gem_os_cs330a.Objstore.World.{Supply, World}
use gem_os_cs330a.Objstore.View.{single, AllocLaws, IsView, fresh_now}

-- A list without one number.
abbrev pub without : ℕ → List ℕ → List ℕ
without x [] = []
without x (y ∷ l) = if x == y then l else y ∷ without x l

pub has-without : (x y : ℕ) (l : List ℕ) → has y (without x l) ≡ true → has y l ≡ true
has-without x y [] h = h
has-without x y (z ∷ l) h = elim (Bool-cases (x == z)) [
  | inl e ↦ let k : has y l ≡ true = rw e at h in ground arith
  | inr off ↦
      let k : has y (z ∷ without x l) ≡ true = rw off at h in
      elim (Bool-cases (y == z)) [
        | inl e ↦ rw e refl
        | inr o ↦ let rest = has-without x y l (ground arith) in ground arith
      ]
]

pub without-Distinct :
    (x : ℕ) (l : List ℕ) → Distinct l → Distinct (without x l) × (has x (without x l) ≡ false)
without-Distinct x [] d = (tt, refl)
without-Distinct x (y ∷ l) (z, out, d) = elim (Bool-cases (x == y)) [
  | inl e ↦ let k : x ≡ y = ground arith in rw e (d, rw k out)
  | inr off ↦
      let (rest, gone) = without-Distinct x l d in
      rw off (
        (
          z,
          (elim (Bool-cases (has y (without x l))) [
            | inl i ↦ let h = has-without x y l i in absurd (cc)
            | inr o ↦ o
          ]),
          rest,
        ),
        ground arith,
      )
]

pub length-without : (x : ℕ) (l : List ℕ) → length l ≤ suc (length (without x l))
length-without x [] = omega arith
length-without x (y ∷ l) = elim (Bool-cases (x == y)) [
  | inl e ↦ rw e (omega arith)
  | inr off ↦ rw off (omega (arith, length-without x l))
]

-- What a call does for block `v`: node `p` holds it now, with the bytes `buf`, and all else is kept.
pub record Entered (D : Device) (p v : ℕ) (buf : Block) (order : List ℕ) (slot : ℕ → ℕ)
    (s s' : Store D) : Type 0 where
  pub order' : List ℕ
  pub lru : IsLru s'.cache order'
  pub longer : length order' ≤ suc (length order)
  pub newest : has p order' ≡ true
  pub from : (j : ℕ) → has j order' ≡ true → j ≢ p → has j order ≡ true
  pub kept : (u : ℕ) → u ≢ v → slot u ≢ 0 → has (slot u) order' ≡ true
  pub hashed : IsHashed s'.cache (λ u. single (update slot v p u))
  pub block : (s'.cache.nodes p).disk_addr ≡ v
  pub bytes : s'.pages (s'.cache.nodes p).cache_addr ≡ buf
  pub spared : (j : ℕ) → j ≢ p → SameBlock (s'.cache.nodes j) (s.cache.nodes j)
  pub still : (id : ℕ) → is_used s.cache_map id ≡ true → is_used s'.cache_map id ≡ true
  pub in_use : is_used s'.cache_map (s'.cache.nodes p).cache_addr ≡ true
  pub apart :
      (u : ℕ)
      → u ≢ v
      → slot u ≢ 0
      → (s'.cache.nodes p).cache_addr ≢ (s.cache.nodes (slot u)).cache_addr
  pub pages :
      (u : ℕ)
      → u ≢ v
      → slot u ≢ 0
      → s'.pages (s.cache.nodes (slot u)).cache_addr ≡ s.pages (s.cache.nodes (slot u)).cache_addr
  pub disk : s'.disk ≡ s.disk
  pub itr : s'.cache_map.itr < 2 ^ 12
  pub taken : ℕ
  pub free :
      (id : ℕ) → id ≢ taken → is_used s.cache_map id ≡ false → is_used s'.cache_map id ≡ false

module _ (D : Device) (S : Supply) (laws : AllocLaws S) (room v : ℕ) (view : ℕ → Block)
    (buf : Block) (w : World D) (s' : Store D) (old : IsView D S (suc room) view w)
    (new : Entered D (S.calloc w.calls w.store.cache) v buf old.order old.slot w.store s') where
  abbrev p : ℕ
  p = S.calloc w.calls w.store.cache

  abbrev slot' : ℕ → ℕ
  slot' = update old.slot v p

  pz : p ≢ 0
  pz = laws.some_pointer w.calls w.store.cache

  -- The nodes of the other blocks are not the new one.
  slot_ne : (u : ℕ) → old.slot u ≢ 0 → old.slot u ≢ p
  slot_ne u some e =
      let i = old.listed u some in let f = fresh_now D S laws (suc room) view w old in absurd (cc)

  -- For the new slots: the block itself, or another one.
  by_slot :
      (P : ℕ → ℕ → Type 0)
      → P v p
      → ((u : ℕ) → u ≢ v → old.slot u ≢ 0 → P u (old.slot u))
      → (u : ℕ) → slot' u ≢ 0
      → P u (slot' u)
  by_slot P here there u some = elim (Bool-cases (u == v)) as (λ _. P u (slot' u)) [
    | inl e ↦ let k : u ≡ v = ground arith in rw (e, k) here
    | inr off ↦
        let some' : old.slot u ≢ 0 = rw off at some in rw off (there u (λ e. ground arith) some')
  ]

  abbrev addr : ℕ → ℕ
  addr j = (s'.cache.nodes j).cache_addr

  same_addr :
      (u : ℕ) → old.slot u ≢ 0 → addr (old.slot u) ≡ (w.store.cache.nodes (old.slot u)).cache_addr
  same_addr u some = (new.spared (old.slot u) (slot_ne u some)).cache_addr

  apart_lem : (u t : ℕ) → u ≢ t → slot' u ≢ 0 → slot' t ≢ 0 → addr (slot' u) ≢ addr (slot' t)
  apart_lem u t ne some some' =
      by_slot (λ u j. (t : ℕ) → u ≢ t → slot' t ≢ 0 → addr j ≢ addr (slot' t))
        (λ t ne st.
          by_slot (λ t k. v ≢ t → addr p ≢ addr k) (λ n. absurd (n refl))
            (λ t nt st n e. new.apart t nt st (e ∙ same_addr t st)) t st ne)
        (λ u nu su t ne st.
          by_slot (λ t k. u ≢ t → addr (old.slot u) ≢ addr k)
            (λ n e. new.apart u nu su (sym e ∙ same_addr u su))
            (λ t nt st n e. old.apart u t n su st (sym (same_addr u su) ∙ (e ∙ same_addr t st))) t
            st ne)
        u some t ne some'

  uncached_lem :
      (u : ℕ) → slot' u ≡ 0 → u < 2 ^ 15 → (D.read_block u s'.disk).1 ≡ update view v buf u
  uncached_lem u empty lt = elim (Bool-cases (u == v)) [
    | inl e ↦ let k : p ≡ 0 = rw e at empty in absurd (pz k)
    | inr off ↦
        let k : old.slot u ≡ 0 = rw off at empty in
        rw off (ap (λ d. (D.read_block u d).1) new.disk ∙ old.uncached u k lt)
  ]

  pub entered-IsView :
      IsView D S room (update view v buf) (record { store = s'; calls = w.calls + 1 })
  entered-IsView =
      let (distinct, gone) = without-Distinct new.taken old.spare old.different in
      record {
        order = new.order';
        slot = slot';
        spare = without new.taken old.spare;
        lru = new.lru;
        hashed = new.hashed;
        listed = by_slot (λ u j. has j new.order' ≡ true) new.newest new.kept;
        block =
            by_slot (λ u j. (s'.cache.nodes j).disk_addr ≡ u) new.block
              (λ u ne some.
                (new.spared (old.slot u) (slot_ne u some)).disk_addr ∙ old.block u some);
        in_use =
            by_slot (λ u j. is_used s'.cache_map (s'.cache.nodes j).cache_addr ≡ true) new.in_use
              (λ u ne some.
                ap (is_used s'.cache_map) (new.spared (old.slot u) (slot_ne u some)).cache_addr
                ∙ new.still (w.store.cache.nodes (old.slot u)).cache_addr (old.in_use u some));
        apart = apart_lem;
        cached =
            by_slot (λ u j. s'.pages (s'.cache.nodes j).cache_addr ≡ update view v buf u)
              (new.bytes ∙ ground arith)
              (λ u ne some.
                ap s'.pages (new.spared (old.slot u) (slot_ne u some)).cache_addr
                ∙ (new.pages u ne some ∙ (old.cached u some ∙ ground arith)));
        uncached = uncached_lem;
        itr = new.itr;
        free = λ id i.
            let (lo, hi, unused) = old.free id (has-without new.taken id old.spare i) in
            (lo, hi, new.free id (λ e. absurd (cc)) unused);
        different = distinct;
        enough = let h = old.enough in omega (arith, h, length-without new.taken old.spare);
        small = let h = old.small in let l = new.longer in omega (arith, h, l);
      }

-- The flag of the new node is none of it.
module _ (D : Device) (p v : ℕ) (buf : Block) (order : List ℕ) (slot : ℕ → ℕ) (s s' : Store D)
    (new : Entered D p v buf order slot s s') where
  pub dirty-Entered : Entered D p v buf order slot s (set_dirty D p s')
  dirty-Entered =
      let (_, disk_addr, cache_addr, pages, disk) = set_dirty_at D p s' in
      let map = set_dirty_map D p s' in
      record {
        order' = new.order';
        lru = set_dirty-IsLru D p s' new.order' new.lru;
        longer = new.longer;
        newest = new.newest;
        from = new.from;
        kept = new.kept;
        hashed = set_dirty-IsHashed D p s' (λ u. single (update slot v p u)) new.hashed;
        block = disk_addr ∙ new.block;
        bytes =
            ap (λ f. f ((set_dirty D p s').cache.nodes p).cache_addr) pages
            ∙ (ap s'.pages cache_addr ∙ new.bytes);
        spared = λ j ne.
            subst (λ n. SameBlock n (s.cache.nodes j)) (sym (set_dirty-others D p s' j ne))
              (new.spared j ne);
        still = λ id h. ap (λ m. is_used m id) map ∙ new.still id h;
        in_use =
            ap (λ m. is_used m ((set_dirty D p s').cache.nodes p).cache_addr) map
            ∙ (ap (is_used s'.cache_map) cache_addr ∙ new.in_use);
        apart = λ u ne some e. new.apart u ne some (sym cache_addr ∙ e);
        pages = λ u ne some.
            ap (λ f. f (s.cache.nodes (slot u)).cache_addr) pages ∙ new.pages u ne some;
        disk = disk ∙ new.disk;
        itr = subst (λ m. m.itr < 2 ^ 12) (sym map) new.itr;
        taken = new.taken;
        free = λ id ne h. ap (λ m. is_used m id) map ∙ new.free id ne h;
      }
