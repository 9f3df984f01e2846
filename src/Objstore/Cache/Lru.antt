-- ===== src/Objstore/Cache/Lru.antt =====
-- On the list of the cache in Assn4/objstore.c that is linked both ways: the order of use as a list
-- of pointers, and what `add_at_top_of_cache` and the two functions that unlink do to it.
pub mod Top
pub mod Unlink
use gem_os_cs330a.Prelude.{
  ℕ, zero, suc, ◌+◌, ◌-◌, ◌%◌, ◌^◌, ◌<◌, ◌≤◌, ◌≡◌, ◌≢◌, refl, sym, ap, subst, ◌∙◌, Bool, true,
  false, not, ◌&&◌, ◌||◌, ◌==◌, arith, if◌then◌else◌, List, [], ◌∷◌, ◌++◌, length, length-append,
  Bool-cases, inl, inr,
}
use gem_os_cs330a.Process.{update}
use gem_os_cs330a.Objstore.Cache.{
  CacheObj, Nodes, Cache, set_left, set_right, add_at_top_of_cache,
  remove_object_from_cache_dont_write_back,
}

abbrev pub has : ℕ → List ℕ → Bool
has a [] = false
has a (x ∷ xs) = (a == x) || has a xs

abbrev pub head_or : ℕ → List ℕ → ℕ
head_or d [] = d
head_or d (x ∷ xs) = x

abbrev pub last_or : ℕ → List ℕ → ℕ
last_or d [] = d
last_or d (x ∷ xs) = last_or x xs

-- The pointers of the list are no NULL and all different.
abbrev pub Distinct : List ℕ → Type 0
Distinct [] = Unit
Distinct (x ∷ xs) = (x ≢ 0) × (has x xs ≡ false) × Distinct xs

-- The links of the nodes of a list that stands between `prev` and `next`.
abbrev pub Seg : (nodes : Nodes) (prev next : ℕ) → List ℕ → Type 0
Seg nodes prev next [] = Unit
Seg nodes prev next (p ∷ l) =
    ((nodes p).left ≡ prev) × ((nodes p).right ≡ head_or next l) × Seg nodes p next l

-- The cache's list is `l`, the node used last first.
pub record IsLru (c : Cache) (l : List ℕ) : Type 0 where
  pub first : c.cache_left ≡ head_or 0 l
  pub last : c.cache_right ≡ last_or 0 l
  pub links : Seg c.nodes 0 0 l
  pub distinct : Distinct l
  pub size : c.cache_size ≡ length l % 2 ^ 32

-- Links survive where no node of the list changes.
pub Seg-frame :
    (nodes nodes' : Nodes) (prev next : ℕ) (l : List ℕ)
    → ((a : ℕ)
        → has a l ≡ true
        → ((nodes' a).left ≡ (nodes a).left) × ((nodes' a).right ≡ (nodes a).right))
    → Seg nodes prev next l
    → Seg nodes' prev next l
Seg-frame nodes nodes' prev next [] same s = s
Seg-frame nodes nodes' prev next (p ∷ l) same (a, b, rest) =
    let k = same p (ground arith) in
    (k.0 ∙ a, k.1 ∙ b, Seg-frame nodes nodes' p next l (λ x h. same x (ground arith)) rest)

pub has-append : (x : ℕ) (a b : List ℕ) → has x (a ++ b) ≡ (has x a || has x b)
has-append x [] b = refl
has-append x (y ∷ a) b = ground (arith, has-append x a b)

-- The two halves of a list.
pub Seg-split :
    (nodes : Nodes) (prev next : ℕ) (a b : List ℕ)
    → Seg nodes prev next (a ++ b)
    → Seg nodes prev (head_or next b) a × Seg nodes (last_or prev a) next b
Seg-split nodes prev next [] b s = (tt, s)
Seg-split nodes prev next (p ∷ []) b (l, r, s) = ((l, r, tt), s)
Seg-split nodes prev next (p ∷ q ∷ a) b (l, r, s) =
    let (x, y) = Seg-split nodes p next (q ∷ a) b s in ((l, r, x), y)

pub Seg-join :
    (nodes : Nodes) (prev next : ℕ) (a b : List ℕ)
    → Seg nodes prev (head_or next b) a
    → Seg nodes (last_or prev a) next b
    → Seg nodes prev next (a ++ b)
Seg-join nodes prev next [] b x y = y
Seg-join nodes prev next (p ∷ []) b (l, r, _) y = (l, r, y)
Seg-join nodes prev next (p ∷ q ∷ a) b (l, r, x) y = (l, r, Seg-join nodes p next (q ∷ a) b x y)

pub Distinct-split :
    (a b : List ℕ) (p : ℕ)
    → Distinct (a ++ p ∷ b)
    → Distinct (a ++ b)
      × (has p a ≡ false)
      × (has p b ≡ false)
      × (p ≢ 0)
      × ((x : ℕ) → has x a ≡ true → has x b ≡ false)
Distinct-split [] b p (z, h, d) = (d, refl, h, z, λ x e. ground arith)
Distinct-split (q ∷ a) b p (z, h, d) =
    let (d', pa, pb, pz, apart) = Distinct-split a b p d in
    let e = has-append q a (p ∷ b) in
    let f = has-append q a b in
    ((z, ground (arith, e, f), d'), ground (arith, e), pb, pz, λ x i. ground (arith, e, apart x))

-- The last node of a list gets a new successor.
pub relink_right :
    (nodes : Nodes) (prev next next' : ℕ) (l : List ℕ)
    → Distinct l
    → Seg nodes prev next l
    → l ≢ []
    → Seg (set_right nodes (last_or prev l) next') prev next' l
unfolding set_right
relink_right nodes prev next next' [] d s ne = tt
relink_right nodes prev next next' (p ∷ []) d (l, r, _) ne = (ground (arith, l), ground arith, tt)
relink_right nodes prev next next' (p ∷ q ∷ l) (z, h, d) (a, b, s) ne =
    let rest = relink_right nodes p next next' (q ∷ l) d s (λ e. ground arith) in
    let other : (p == last_or q l) ≡ false = last_ne p q l h in
    (ground (arith, a), ground (arith, b), rest)
  where
    last_ne : (p q : ℕ) (l : List ℕ) → has p (q ∷ l) ≡ false → (p == last_or q l) ≡ false
    last_ne p q [] h = ground arith
    last_ne p q (x ∷ l) h = last_ne p x l (ground arith)

-- The first node of a list gets a new predecessor.
pub relink_left :
    (nodes : Nodes) (prev prev' next p : ℕ) (l : List ℕ)
    → has p l ≡ false
    → Seg nodes prev next (p ∷ l)
    → Seg (set_left nodes p prev') prev' next (p ∷ l)
unfolding set_left
relink_left nodes prev prev' next p l h (a, b, s) = (
  ground arith,
  ground (arith, b),
  Seg-frame nodes (set_left nodes p prev') p next l (λ x i. ground arith) s,
)

pub last_some : (p : ℕ) (l : List ℕ) → Distinct (p ∷ l) → last_or p l ≢ 0
last_some p [] (z, h, d) = z
last_some p (q ∷ l) (z, h, d) = last_some q l d

pub last-has : (p : ℕ) (l : List ℕ) → has (last_or p l) (p ∷ l) ≡ true
last-has p [] = ground arith
last-has p (q ∷ l) = ground (arith, last-has q l)
