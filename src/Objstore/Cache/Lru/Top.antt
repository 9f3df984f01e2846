-- ===== src/Objstore/Cache/Lru/Top.antt =====
-- On `add_at_top_of_cache` in Assn4/objstore.c.
use gem_os_cs330a.Prelude.{
  ℕ, ◌≡◌, ◌≢◌, refl, sym, ap, subst, ◌∙◌, false, not, ◌==◌, arith, if◌then◌else◌, List, [], ◌∷◌,
}
use gem_os_cs330a.Objstore.Cache.{Nodes, Cache, set_left, set_right, add_at_top_of_cache}
use gem_os_cs330a.Objstore.Cache.Lru.{
  has, head_or, last_or, Distinct, Seg, IsLru, Seg-frame, relink_left, last_some,
}

module _ (p : ℕ) (c : Cache) (l : List ℕ) (valid : IsLru c l) (some : p ≢ 0)
    (fresh : has p l ≡ false) where
  abbrev linked : Nodes
  linked = set_left (set_right c.nodes p c.cache_left) p 0

  linked_at : ((linked p).left ≡ 0) × ((linked p).right ≡ c.cache_left)
  unfolding set_left set_right
  linked_at = (ground arith, ground arith)

  linked_others : (x : ℕ) → x ≢ p → linked x ≡ c.nodes x
  unfolding set_left set_right
  linked_others x ne = ground arith

  linked-Seg : Seg linked 0 0 l
  linked-Seg =
      Seg-frame c.nodes linked 0 0 l
        (λ a h.
          let e = linked_others a (λ e. ground arith) in (ap (λ n. n.left) e, ap (λ n. n.right) e))
        valid.links

add_links :
    (p : ℕ) (nodes : Nodes) (l : List ℕ)
    → p ≢ 0
    → has p l ≡ false
    → Distinct l
    → (nodes p).left ≡ 0
    → (nodes p).right ≡ head_or 0 l
    → Seg nodes 0 0 l
    → Seg (if not (head_or 0 l == 0) then set_left nodes (head_or 0 l) p else nodes) 0 0 (p ∷ l)
unfolding set_left
add_links p nodes [] some fresh d a b s = (a, b, tt)
add_links p nodes (q ∷ l) some fresh (z, h, d) a b s =
    let nodes' = set_left nodes q p in
    let e : (q == 0) ≡ false = ground arith in
    let pick : (if not (q == 0) then nodes' else nodes) ≡ nodes' = rw e refl in
    let at : nodes' p ≡ nodes p = ground arith in
    subst (λ n. Seg n 0 0 (p ∷ q ∷ l)) (sym pick)
      (ap (λ n. n.left) at ∙ a, ap (λ n. n.right) at ∙ b, relink_left nodes 0 p 0 q l h s)

last_lem :
    (p old : ℕ) (l : List ℕ)
    → old ≡ last_or 0 l
    → Distinct l
    → (if old == 0 then p else old) ≡ last_or p l
last_lem p old [] e d = ground arith
last_lem p old (q ∷ l) e d = let ne = last_some q l d in ground arith

pub add_at_top-IsLru :
    (p : ℕ) (c : Cache) (l : List ℕ)
    → IsLru c l
    → p ≢ 0
    → has p l ≡ false
    → IsLru (add_at_top_of_cache p c) (p ∷ l)
unfolding add_at_top_of_cache
add_at_top-IsLru p c l valid some fresh = record {
  first = refl;
  last = last_lem p c.cache_right l valid.last valid.distinct;
  links =
      subst
        (λ f.
          Seg
            (if not (f == 0)
              then set_left (linked p c l valid some fresh) f p
              else linked p c l valid some fresh)
            0 0 (p ∷ l))
        (sym valid.first)
        (add_links p (linked p c l valid some fresh) l some fresh valid.distinct
          (linked_at p c l valid some fresh).0 ((linked_at p c l valid some fresh).1 ∙ valid.first)
          (linked-Seg p c l valid some fresh));
  distinct = (some, fresh, valid.distinct);
  size = omega (arith, valid.size);
}
