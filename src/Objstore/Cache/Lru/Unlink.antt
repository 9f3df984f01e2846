-- ===== src/Objstore/Cache/Lru/Unlink.antt =====
-- On the functions of Assn4/objstore.c that take a node out of the list of the cache.
use gem_os_cs330a.Prelude.{
  ℕ, ◌+◌, ◌-◌, ◌%◌, ◌^◌, ◌≡◌, ◌≢◌, refl, sym, ap, subst, ◌∙◌, true, false, not, ◌==◌, arith,
  if◌then◌else◌, List, [], ◌∷◌, ◌++◌, length, length-append, Bool-cases, inl, inr,
}
use gem_os_cs330a.Objstore.Cache.{
  Nodes, Cache, set_left, set_right, remove_object_from_cache_dont_write_back,
}
use gem_os_cs330a.Objstore.Cache.Lru.{
  has, head_or, last_or, Distinct, Seg, IsLru, Seg-frame, has-append, Seg-split, Seg-join,
  Distinct-split, relink_right, relink_left, last_some, last-has,
}

-- The left half of a list, when its successor is unlinked.
unlink_before :
    (nodes : Nodes) (next next' : ℕ) (a : List ℕ)
    → Distinct a
    → Seg nodes 0 next a
    → let nodes' : Nodes =
        if not (last_or 0 a == 0) then set_right nodes (last_or 0 a) next' else nodes in
      Seg nodes' 0 next' a × ((x : ℕ) → has x a ≡ false → nodes' x ≡ nodes x)
unfolding set_right
unlink_before nodes next next' [] d s = (tt, λ x h. refl)
unlink_before nodes next next' (q ∷ a) d s =
    let nodes' = set_right nodes (last_or q a) next' in
    let some = last_some q a d in
    let e : (last_or q a == 0) ≡ false = ground arith in
    let pick : (if not (last_or q a == 0) then nodes' else nodes) ≡ nodes' = rw e refl in
    let member = last-has q a in
    subst (λ n. Seg n 0 next' (q ∷ a) × ((x : ℕ) → has x (q ∷ a) ≡ false → n x ≡ nodes x))
      (sym pick)
      (
        relink_right nodes 0 next next' (q ∷ a) d s (λ e. ground arith),
        λ x h.
            let ne : (x == last_or q a) ≡ false = apart x (last_or q a) (q ∷ a) h member in
            ground arith,
      )
  where
    apart : (x y : ℕ) (l : List ℕ) → has x l ≡ false → has y l ≡ true → (x == y) ≡ false
    apart x y l h k = elim (Bool-cases (x == y)) [
      | inl e ↦ let same : x ≡ y = ground arith in absurd (cc)
      | inr e ↦ e
    ]

-- The right half, when its predecessor is unlinked.
unlink_after :
    (nodes : Nodes) (prev prev' : ℕ) (b : List ℕ)
    → Distinct b
    → Seg nodes prev 0 b
    → let nodes' : Nodes =
        if not (head_or 0 b == 0) then set_left nodes (head_or 0 b) prev' else nodes in
      Seg nodes' prev' 0 b × ((x : ℕ) → has x b ≡ false → nodes' x ≡ nodes x)
unfolding set_left
unlink_after nodes prev prev' [] d s = (tt, λ x h. refl)
unlink_after nodes prev prev' (q ∷ b) (z, h, d) s =
    let nodes' = set_left nodes q prev' in
    let e : (q == 0) ≡ false = ground arith in
    let pick : (if not (q == 0) then nodes' else nodes) ≡ nodes' = rw e refl in
    subst (λ n. Seg n prev' 0 (q ∷ b) × ((x : ℕ) → has x (q ∷ b) ≡ false → n x ≡ nodes x))
      (sym pick) (relink_left nodes prev prev' 0 q b h s, λ x h. ground arith)

-- The cache without a node between `before` and `after`.
unlinked : (c : Cache) (before right' after left' : ℕ) → Cache
unlinked c before right' after left' =
    let nodes₁ : Nodes = if not (before == 0) then set_right c.nodes before right' else c.nodes in
    record c {
      cache_left = if not (before == 0) then c.cache_left else right';
      nodes = if not (after == 0) then set_left nodes₁ after left' else nodes₁;
      cache_right = if not (after == 0) then c.cache_right else left';
      cache_size = (c.cache_size + 2 ^ 32 - 1) % 2 ^ 32;
    }

relinked_keeps :
    (nodes : Nodes) (p x y : ℕ)
    → p ≢ x
    → (if not (x == 0) then set_right nodes x y else nodes) p ≡ nodes p
unfolding set_right
relinked_keeps nodes p x y h = ground arith

module _ (p : ℕ) (c : Cache) where
  abbrev relinked : Nodes
  relinked =
      if not ((c.nodes p).left == 0)
      then set_right c.nodes (c.nodes p).left (c.nodes p).right
      else c.nodes

  unlink_start :
      remove_object_from_cache_dont_write_back p c
      ≡ unlinked c (c.nodes p).left (c.nodes p).right (relinked p).right (relinked p).left
  unfolding remove_object_from_cache_dont_write_back unlinked
  unlink_start = refl

  unlinked_lem :
      (before after : ℕ)
      → (c.nodes p).left ≡ before
      → (c.nodes p).right ≡ after
      → p ≢ before
      → remove_object_from_cache_dont_write_back p c ≡ unlinked c before after after before
  unlinked_lem before after l r ne =
      let same : relinked p ≡ c.nodes p =
        relinked_keeps c.nodes p (c.nodes p).left (c.nodes p).right (λ e. ne (e ∙ l)) in
      let l' : (relinked p).left ≡ before = ap (λ n. n.left) same ∙ l in
      let r' : (relinked p).right ≡ after = ap (λ n. n.right) same ∙ r in
      unlink_start
      ∙ (ap (λ x. unlinked c x (c.nodes p).right (relinked p).right (relinked p).left) l
          ∙ (ap (λ x. unlinked c before x (relinked p).right (relinked p).left) r
              ∙ (ap (λ x. unlinked c before after x (relinked p).left) r'
                  ∙ ap (λ x. unlinked c before after after x) l')))

Distinct-halves : (a b : List ℕ) → Distinct (a ++ b) → Distinct a × Distinct b
Distinct-halves [] b d = (tt, d)
Distinct-halves (q ∷ a) b (z, h, d) =
    let (x, y) = Distinct-halves a b d in ((z, ground (arith, has-append q a b), x), y)

first_lem :
    (old p : ℕ) (a b : List ℕ)
    → old ≡ head_or 0 (a ++ p ∷ b)
    → Distinct a
    → (if not (last_or 0 a == 0) then old else head_or 0 b) ≡ head_or 0 (a ++ b)
first_lem old p [] b e d = refl
first_lem old p (q ∷ a) b e d = let some = last_some q a d in ground arith

last-append : (d p : ℕ) (a b : List ℕ) → last_or d (a ++ p ∷ b) ≡ last_or p b
last-append d p [] b = refl
last-append d p (q ∷ a) b = last-append q p a b

last-append_nil : (d : ℕ) (a : List ℕ) → last_or d (a ++ []) ≡ last_or d a
last-append_nil d [] = refl
last-append_nil d (q ∷ a) = last-append_nil q a

end_lem :
    (old p : ℕ) (a b : List ℕ)
    → old ≡ last_or 0 (a ++ p ∷ b)
    → Distinct b
    → (if not (head_or 0 b == 0) then old else last_or 0 a) ≡ last_or 0 (a ++ b)
end_lem old p a [] e d = sym (last-append_nil 0 a)
end_lem old p a (q ∷ b) e (z, h, d) =
    let f : (q == 0) ≡ false = ground arith in
    rw f (e ∙ (last-append 0 p a (q ∷ b) ∙ sym (last-append 0 q a b)))

module _ (p : ℕ) (c : Cache) (a b : List ℕ) (valid : IsLru c (a ++ p ∷ b)) where
  abbrev nodes₁ : Nodes
  nodes₁ = if not (last_or 0 a == 0) then set_right c.nodes (last_or 0 a) (head_or 0 b) else c.nodes

  abbrev nodes₂ : Nodes
  nodes₂ = if not (head_or 0 b == 0) then set_left nodes₁ (head_or 0 b) (last_or 0 a) else nodes₁

  unlinked_Seg : Seg nodes₂ 0 0 (a ++ b)
  unlinked_Seg =
      let (d, pa, pb, pz, apart) = Distinct-split a b p valid.distinct in
      let (da, db) = Distinct-halves a b d in
      let (sa, (sl, sr, sb)) = Seg-split c.nodes 0 0 a (p ∷ b) valid.links in
      let (ta, keep₁) = unlink_before c.nodes p (head_or 0 b) a da sa in
      let sb₁ =
        Seg-frame c.nodes nodes₁ p 0 b
          (λ x h. let e = keep₁ x (out x apart h) in (ap (λ n. n.left) e, ap (λ n. n.right) e))
          sb in
      let (tb, keep₂) = unlink_after nodes₁ p (last_or 0 a) b db sb₁ in
      let ta₂ =
        Seg-frame nodes₁ nodes₂ 0 (head_or 0 b) a
          (λ x h. let e = keep₂ x (apart x h) in (ap (λ n. n.left) e, ap (λ n. n.right) e)) ta in
      Seg-join nodes₂ 0 0 a b ta₂ tb
    where
      out :
          (x : ℕ) → ((x : ℕ) → has x a ≡ true → has x b ≡ false) → has x b ≡ true → has x a ≡ false
      out x apart h = elim (Bool-cases (has x a)) [ inl e ↦ absurd (cc (apart x e)) | inr e ↦ e ]

length-unlink : (a b : List ℕ) (p : ℕ) → length (a ++ p ∷ b) ≡ length (a ++ b) + 1
length-unlink a b p = omega (arith, length-append a (p ∷ b), length-append a b)

fresh_last : (p : ℕ) (a : List ℕ) → p ≢ 0 → has p a ≡ false → p ≢ last_or 0 a
fresh_last p [] z h = z
fresh_last p (q ∷ a) z h = λ e. let m = last-has q a in absurd (cc (e))

-- The node between `a` and `b` is taken out of the list.
pub unlink-IsLru :
    (p : ℕ) (c : Cache) (a b : List ℕ)
    → IsLru c (a ++ p ∷ b)
    → IsLru (remove_object_from_cache_dont_write_back p c) (a ++ b)
unfolding unlinked
unlink-IsLru p c a b valid =
    let (d, pa, pb, pz, apart) = Distinct-split a b p valid.distinct in
    let (da, db) = Distinct-halves a b d in
    let (sa, (sl, sr, sb)) = Seg-split c.nodes 0 0 a (p ∷ b) valid.links in
    let e = unlinked_lem p c (last_or 0 a) (head_or 0 b) sl sr (fresh_last p a pz pa) in
    subst (λ c'. IsLru c' (a ++ b)) (sym e)
      (record {
        first = first_lem c.cache_left p a b valid.first da;
        last = end_lem c.cache_right p a b valid.last db;
        links = unlinked_Seg p c a b valid;
        distinct = d;
        size = omega (arith, valid.size, length-unlink a b p);
      })
