-- ===== src/Intern.antt =====
-- A cache that keeps one object for each value: the pattern of `lockset_cache_get` and
-- `timedlockset_cache_get` (src/cache.hpp) and of `GetBacktrace` (src/utils.hpp). The objects are
-- never freed, so an object's address is its position in the order of allocation. `find` of the
-- hash set is the search for a value that `equal_to` accepts.
use hawk_set.Prelude.{
  ℕ, zero, suc, ◌≡◌, refl, sym, ap, ◌∙◌, ◌↔◌, ◌⊎◌, inl, inr, Bool, true, false, Option, none, some,
  List, [], ◌∷◌, ◌++◌, arith, if◌then◌else◌, length, get_elem?, get_elem?-append, Bool-cases,
  Option-cases,
}

-- What the cache needs of the comparison.
pub record Comparison (A : Type 0) : Type 0 where
  pub same : A → A → Bool
  pub same_refl : (a : A) → same a a ≡ true
  pub same_sym : (a b : A) → same a b ≡ true → same b a ≡ true
  pub same_trans : (a b c : A) → same a b ≡ true → same b c ≡ true → same a c ≡ true

abbrev after_head : Option ℕ → Option ℕ
after_head none = none
after_head (some p) = some (suc p)

module _ {A : Type 0} (C : Comparison A) where
  open C use {same, same_refl, same_sym, same_trans}

  unfoldable pub index_of : A → List A → Option ℕ
  index_of a [] = none
  index_of a (x ∷ xs) = if same x a then some 0 else after_head (index_of a xs)

  -- The address of the object for the value, and the cache with that object in it.
  unfoldable pub get : List A → A → ℕ × List A
  unfolding index_of
  get pool a = elim (index_of a pool) [ none ↦ (length pool, pool ++ a ∷ []) | some p ↦ (p, pool) ]

  -- No two objects for one value.
  abbrev pub IsDistinct : List A → Type 0
  IsDistinct pool =
      (p q : ℕ) (x y : A)
      → get_elem? pool p ≡ some x
      → get_elem? pool q ≡ some y
      → same x y ≡ true
      → p ≡ q

  index_of-found :
      (a : A) (pool : List A) (p : ℕ)
      → index_of a pool ≡ some p
      → (x : A) × (get_elem? pool p ≡ some x) × (same x a ≡ true)
  unfolding index_of
  index_of-found a [] p e = cc
  index_of-found a (x ∷ xs) p e = elim (Bool-cases (same x a)) [
    | inl s ↦ let z : 0 ≡ p = ground arith in rw (← z) (x, refl, s)
    | inr s ↦ elim (Option-cases (index_of a xs)) [
      | inl n ↦ absurd (ground arith)
      | inr (q, f) ↦
          let (y, g, t) = index_of-found a xs q f in
          let z : suc q ≡ p = ground arith in rw (← z) (y, g, t)
    ]
  ]

  index_of-missing :
      (a : A) (pool : List A) (p : ℕ) (x : A)
      → index_of a pool ≡ none
      → get_elem? pool p ≡ some x
      → same x a ≡ false
  unfolding index_of
  index_of-missing a [] p x e f = cc
  index_of-missing a (y ∷ ys) zero x e f = ground (arith, ap (λ z. same z a) (the f))
    where
      the : some y ≡ some x → y ≡ x
      the h = cc
  index_of-missing a (y ∷ ys) (suc p) x e f = index_of-missing a ys p x (ground arith) f

  get_elem?-last : (xs : List A) (a : A) → get_elem? (xs ++ a ∷ []) (length xs) ≡ some a
  get_elem?-last [] a = refl
  get_elem?-last (x ∷ xs) a = get_elem?-last xs a

  append-cases :
      (xs : List A) (a : A) (p : ℕ) (x : A)
      → get_elem? (xs ++ a ∷ []) p ≡ some x
      → (get_elem? xs p ≡ some x) ⊎ ((p ≡ length xs) × (x ≡ a))
  append-cases [] a zero x e = inr (refl, cc)
  append-cases [] a (suc p) x e = cc
  append-cases (y ∷ xs) a zero x e = inl e
  append-cases (y ∷ xs) a (suc p) x e = elim (append-cases xs a p x e) [
    | inl f ↦ inl f
    | inr (f, g) ↦ inr (ap suc f, g)
  ]

  -- The object that `get` returns holds the value.
  pub get-same :
      (pool : List A) (a : A)
      → (x : A) × (get_elem? (get pool a).1 (get pool a).0 ≡ some x) × (same x a ≡ true)
  unfolding get
  get-same pool a = elim (Option-cases (index_of a pool)) [
    | inl e ↦ rw (e, get) (a, get_elem?-last pool a, same_refl a)
    | inr (p, e) ↦ rw (e, get) (index_of-found a pool p e)
  ]

  -- The objects that are there stay as they are.
  pub get-stable :
      (pool : List A) (a : A) (p : ℕ) (x : A)
      → get_elem? pool p ≡ some x
      → get_elem? (get pool a).1 p ≡ some x
  unfolding get
  get-stable pool a p x h = elim (Option-cases (index_of a pool)) [
    | inl e ↦ rw (e, get) (get_elem?-append pool (a ∷ []) p x h)
    | inr (q, e) ↦ rw (e, get) h
  ]

  pub get-IsDistinct : (pool : List A) (a : A) → IsDistinct pool → IsDistinct (get pool a).1
  unfolding get
  get-IsDistinct pool a d = elim (Option-cases (index_of a pool)) [
    | inr (q, e) ↦ rw (e, get) d
    | inl e ↦
        rw (e, get)
          (λ p q x y f g s.
            grown p q x y e (append-cases pool a p x f) (append-cases pool a q y g) s)
  ]
    where
      grown :
          (p q : ℕ) (x y : A)
          → index_of a pool ≡ none
          → (get_elem? pool p ≡ some x) ⊎ ((p ≡ length pool) × (x ≡ a))
          → (get_elem? pool q ≡ some y) ⊎ ((q ≡ length pool) × (y ≡ a))
          → same x y ≡ true
          → p ≡ q
      grown p q x y e (inl f) (inl g) s = d p q x y f g s
      grown p q x y e (inl f) (inr g) s =
          let m = index_of-missing a pool p x e f in let t = rw g.1 at s in cc
      grown p q x y e (inr f) (inl g) s =
          let m = index_of-missing a pool q y e g in let t = same_sym a y (rw f.1 at s) in cc
      grown p q x y e (inr f) (inr g) s = f.0 ∙ sym g.0

  -- Two requests give one address exactly when their values compare equal, whatever is asked for
  -- in between.
  pub get_canonical :
      (pool later : List A) (a b : A)
      → IsDistinct later
      → ((p : ℕ) (x : A) → get_elem? (get pool a).1 p ≡ some x → get_elem? later p ≡ some x)
      → ((get pool a).0 ≡ (get later b).0) ↔ (same a b ≡ true)
  get_canonical pool later a b d keeps = (there, back)
    where
      x : A
      x = (get-same pool a).0

      y : A
      y = (get-same later b).0

      mine : get_elem? (get later b).1 (get pool a).0 ≡ some x
      mine = get-stable later b (get pool a).0 x (keeps (get pool a).0 x (get-same pool a).1)

      there : (get pool a).0 ≡ (get later b).0 → same a b ≡ true
      there e =
          let one : some x ≡ some y = sym mine ∙ rw e (get-same later b).1 in
          let z : x ≡ y = cc in
          same_trans a x b (same_sym x a (get-same pool a).2) (rw z (get-same later b).2)

      back : same a b ≡ true → (get pool a).0 ≡ (get later b).0
      back s =
          get-IsDistinct later b d (get pool a).0 (get later b).0 x y mine (get-same later b).1 (
            same_trans x a y (get-same pool a).2
              (same_trans a b y s (same_sym y b (get-same later b).2)))
