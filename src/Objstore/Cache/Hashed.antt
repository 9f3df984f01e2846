-- ===== src/Objstore/Cache/Hashed.antt =====
-- On the hash table of the cache in Assn4/objstore.c as a whole: the chain of every index, and what it
-- is when one chain is another one.
use gem_os_cs330a.Prelude.{
  ℕ, ◌≡◌, ◌≢◌, refl, sym, ◌∙◌, true, false, ◌==◌, arith, if◌then◌else◌, List, [], ◌∷◌, ◌++◌,
  Bool-cases, inl, inr,
}
use gem_os_cs330a.Objstore.Cache.{Cache}
use gem_os_cs330a.Objstore.Cache.Lru.{has, has-append, Distinct}
use gem_os_cs330a.Objstore.Cache.Chain.{Chain}

-- The chains of a cache: `chains v` is that of index `v`.
pub record IsHashed (c : Cache) (chains : ℕ → List ℕ) : Type 0 where
  pub chain : (v : ℕ) → Chain c.nodes (c.table v) (chains v)
  pub distinct : (v : ℕ) → Distinct (chains v)
  pub apart : (v w q : ℕ) → v ≢ w → has q (chains v) ≡ true → has q (chains w) ≡ false

-- The chains with another one at index `index`.
abbrev pub chains_with : (ℕ → List ℕ) → (index : ℕ) → List ℕ → ℕ → List ℕ
chains_with chains index l v = if v == index then l else chains v

Distinct-snoc : (p : ℕ) (l : List ℕ) → p ≢ 0 → has p l ≡ false → Distinct l → Distinct (l ++ p ∷ [])
Distinct-snoc p [] pz out d = (pz, refl, tt)
Distinct-snoc p (q ∷ l) pz out (z, h, d) =
    (z, ground (arith, has-append q l (p ∷ [])), Distinct-snoc p l pz (ground arith) d)

module _ (c c' : Cache) (chains : ℕ → List ℕ) (index p : ℕ) (rest : List ℕ)
    (old : IsHashed c chains) (pz : p ≢ 0) (unhashed : (v : ℕ) → has p (chains v) ≡ false)
    (sub : (j : ℕ) → has j rest ≡ true → has j (chains index) ≡ true)
    (distinct_rest : Distinct rest) where
  abbrev now : ℕ → List ℕ
  now = chains_with chains index (rest ++ p ∷ [])

  out : has p rest ≡ false
  out = elim (Bool-cases (has p rest)) [
    | inl i ↦ let s = sub p i in let u = unhashed index in absurd (cc)
    | inr o ↦ o
  ]

  -- What the new chain has, the old one had, but for `p`.
  new_has : (j : ℕ) → has j (rest ++ p ∷ []) ≡ true → (j == p) ≡ false → has j (chains index) ≡ true
  new_has j h ne = sub j (ground (arith, has-append j rest (p ∷ [])))

  -- Chain `v` has no node of the new one.
  apart_there : (v j : ℕ) → v ≢ index → has j (rest ++ p ∷ []) ≡ true → has j (chains v) ≡ false
  apart_there v j ne h = elim (Bool-cases (j == p)) [
    | inl here ↦ let e : j ≡ p = ground arith in rw e (unhashed v)
    | inr off ↦ old.apart index v j (λ e. ne (sym e)) (new_has j h off)
  ]

  now_apart : (v w j : ℕ) → v ≢ w → has j (now v) ≡ true → has j (now w) ≡ false
  now_apart v w j ne h = elim (Bool-cases (v == index)) [
    | inl here ↦
        let e : v ≡ index = ground arith in
        let off : (w == index) ≡ false = ground arith in
        let k : has j (rest ++ p ∷ []) ≡ true = rw here at h in
        rw off (apart_there w j (λ e'. ne (e ∙ sym e')) k)
    | inr off ↦
        let k : has j (chains v) ≡ true = rw off at h in
        elim (Bool-cases (w == index)) [
          | inl here ↦
              let e : w ≡ index = ground arith in
              rw here (elim (Bool-cases (has j (rest ++ p ∷ []))) [
                | inl i ↦ let u = apart_there v j (λ e'. ne (e' ∙ sym e)) i in absurd (cc)
                | inr o ↦ o
              ])
          | inr there ↦ rw there (old.apart v w j ne k)
        ]
  ]

  pub with-IsHashed :
      ((v : ℕ) → v ≢ index → Chain c'.nodes (c'.table v) (chains v))
      → Chain c'.nodes (c'.table index) (rest ++ p ∷ [])
      → IsHashed c' now
  with-IsHashed others here = record {
    chain = λ v. elim (Bool-cases (v == index)) [
      | inl i ↦ let e : v ≡ index = ground arith in rw (i, e) here
      | inr off ↦ rw off (others v (λ e. ground arith))
    ];
    distinct = λ v. elim (Bool-cases (v == index)) [
      | inl i ↦ rw i (Distinct-snoc p rest pz out distinct_rest)
      | inr off ↦ rw off (old.distinct v)
    ];
    apart = now_apart;
  }
