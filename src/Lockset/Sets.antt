-- ===== src/Lockset/Sets.antt =====
-- The operations of a lockset on the set that it stands for.
use hawk_set.Bitset
use hawk_set.Bitset.{Bitset}
use hawk_set.Prelude.{
  ℕ, zero, suc, ◌+◌, ◌*◌, ◌/◌, ◌%◌, ◌<◌, ◌≤◌, ◌≡◌, refl, sym, ap, subst, ◌∙◌, ◌↔◌, inl, inr, Bool,
  true, false, ◌&&◌, List, [], ◌∷◌, arith, ltb, leb, ◌==◌, if◌then◌else◌, length, set, Bool-cases,
}
use hawk_set.Lockset.{
  Lockset, resize, word, set_mutex_internal, words_empty, is_empty, min_size, memcmp_eq, words_eq,
  lockset_eq, words_meet, short_intersect, and_loop, intersect, has,
}

word-resize : (n k i : ℕ) (ws : List Bitset) → length ws ≤ n → word (resize n ws) k i ≡ word ws k i
unfolding resize
word-resize zero k i [] h = refl
word-resize zero k i (w ∷ ws) h = absurd (omega arith)
word-resize (suc n) zero i [] h = refl
word-resize (suc n) (suc k) i [] h = word-resize n k i [] (omega arith)
word-resize (suc n) zero i (w ∷ ws) h = refl
word-resize (suc n) (suc k) i (w ∷ ws) h = word-resize n k i ws (omega arith)

length-resize : (n : ℕ) (ws : List Bitset) → length (resize n ws) ≡ n
unfolding resize
length-resize zero ws = refl
length-resize (suc n) [] = ap suc (length-resize n [])
length-resize (suc n) (w ∷ ws) = ap suc (length-resize n ws)

word-set :
    (ws : List Bitset) (k j : ℕ) (v : Bitset)
    → k < length ws
    → word (set ws k v) j ≡ (if j == k then v else word ws j)
word-set [] k j v h = absurd (omega arith)
word-set (w ∷ ws) zero zero v h = refl
word-set (w ∷ ws) zero (suc j) v h = ground arith
word-set (w ∷ ws) (suc k) zero v h = ground arith
word-set (w ∷ ws) (suc k) (suc j) v h = ground (arith, word-set ws k j v (omega arith))

-- The words after growing the vector, in terms of the old ones.
grown : ℕ → List Bitset → List Bitset
grown macro ws = if leb (length ws) macro then resize (macro + 1) ws else ws

length-grown : (macro : ℕ) (ws : List Bitset) → macro < length (grown macro ws)
unfolding grown
length-grown macro ws = ground (arith, length-resize (macro + 1) ws)

word-grown : (macro k i : ℕ) (ws : List Bitset) → word (grown macro ws) k i ≡ word ws k i
unfolding grown
word-grown macro k i ws = elim (Bool-cases (leb (length ws) macro)) [
  | inl e ↦ rw e (word-resize (macro + 1) k i ws (ground arith))
  | inr e ↦ rw e
]

-- Setting a lock's bit changes the membership of that lock only.
pub has-set_mutex_internal :
    (ls : Lockset) (i j : ℕ) (v : Bool)
    → has (set_mutex_internal ls i v) j ≡ (if j == i then v else has ls j)
unfolding set_mutex_internal grown
has-set_mutex_internal ls i j v =
    ap (λ (w : Bitset). w (j % 64))
      (word-set (grown (i / 64) ls.locks) (i / 64) (j / 64) new (length-grown (i / 64) ls.locks))
    ∙ rest
  where
    new : Bitset
    new = Bitset.set_bit (word (grown (i / 64) ls.locks) (i / 64)) (i % 64) v

    rest :
        (if j / 64 == i / 64 then new else word (grown (i / 64) ls.locks) (j / 64)) (j % 64)
        ≡ (if j == i then v else has ls j)
    rest = elim (Bool-cases (j / 64 == i / 64)) [
      | inl e ↦
          let p : j / 64 ≡ i / 64 = ground arith in
          rw e (ground (arith, word-grown (i / 64) (j / 64) (j % 64) ls.locks))
      | inr e ↦ rw e (ground (arith, word-grown (i / 64) (j / 64) (j % 64) ls.locks))
    ]

words_empty_sound :
    (ws : List Bitset) (k i : ℕ) → words_empty ws ≡ true → i < 64 → word ws k i ≡ false
unfolding words_empty
words_empty_sound [] k i h lt = refl
words_empty_sound (w ∷ ws) zero i h lt = Bitset.any-eq-false w i (ground arith) lt
words_empty_sound (w ∷ ws) (suc k) i h lt = words_empty_sound ws k i (ground arith) lt

words_empty_complete :
    (ws : List Bitset) → ((k i : ℕ) → i < 64 → word ws k i ≡ false) → words_empty ws ≡ true
unfolding words_empty
words_empty_complete [] h = refl
words_empty_complete (w ∷ ws) h =
    rw (Bitset.any_none w (h 0)) (words_empty_complete ws (λ k. h (suc k)))

-- A bit of the words is the membership of one lock.
pub has_at : (ls : Lockset) (k i : ℕ) → i < 64 → has ls (k * 64 + i) ≡ word ls.locks k i
has_at ls k i lt =
    let p : (k * 64 + i) / 64 ≡ k = omega arith in
    let q : (k * 64 + i) % 64 ≡ i = omega arith in rw (p, q)

-- `empty` says that no lock is held.
pub is_empty_iff : (ls : Lockset) → (is_empty ls ≡ true) ↔ ((i : ℕ) → has ls i ≡ false)
unfolding is_empty
is_empty_iff ls = (
  λ h i. words_empty_sound ls.locks (i / 64) (i % 64) h (omega arith),
  λ h. words_empty_complete ls.locks (λ k i lt. sym (has_at ls k i lt) ∙ h (k * 64 + i)),
)

-- The comparison, as a recursion on the words.
words_same : List Bitset → List Bitset → Bool
words_same [] ws = words_empty ws
words_same (v ∷ vs) [] = words_empty (v ∷ vs)
words_same (v ∷ vs) (w ∷ ws) = Bitset.word_eq v w && words_same vs ws

words_eq-words_same : (vs ws : List Bitset) → words_eq vs ws ≡ words_same vs ws
unfolding words_eq words_same memcmp_eq words_empty
words_eq-words_same [] [] = refl
words_eq-words_same [] (w ∷ ws) = ground arith
words_eq-words_same (v ∷ vs) [] = ground arith
words_eq-words_same (v ∷ vs) (w ∷ ws) = ground (arith, words_eq-words_same vs ws)

words_same_sound :
    (vs ws : List Bitset) (k i : ℕ) → words_same vs ws ≡ true → i < 64 → word vs k i ≡ word ws k i
unfolding words_same
words_same_sound [] ws k i h lt = sym (words_empty_sound ws k i h lt)
words_same_sound (v ∷ vs) [] k i h lt = words_empty_sound (v ∷ vs) k i h lt
words_same_sound (v ∷ vs) (w ∷ ws) zero i h lt = Bitset.word_eq_sound v w i (ground arith) lt
words_same_sound (v ∷ vs) (w ∷ ws) (suc k) i h lt = words_same_sound vs ws k i (ground arith) lt

words_same_complete :
    (vs ws : List Bitset)
    → ((k i : ℕ) → i < 64 → word vs k i ≡ word ws k i)
    → words_same vs ws ≡ true
unfolding words_same
words_same_complete [] ws h = words_empty_complete ws (λ k i lt. sym (h k i lt))
words_same_complete (v ∷ vs) [] h = words_empty_complete (v ∷ vs) h
words_same_complete (v ∷ vs) (w ∷ ws) h =
    rw (Bitset.word_eq_complete v w (h 0)) (words_same_complete vs ws (λ k. h (suc k)))

-- Two locksets compare equal exactly when they hold the same locks, however many words each has.
pub lockset_eq_iff : (a b : Lockset) → (lockset_eq a b ≡ true) ↔ ((i : ℕ) → has a i ≡ has b i)
unfolding lockset_eq
lockset_eq_iff a b = rw (words_eq-words_same a.locks b.locks) (
  λ h i. words_same_sound a.locks b.locks (i / 64) (i % 64) h (omega arith),
  λ h.
      words_same_complete a.locks b.locks
        (λ k i lt. sym (has_at a k i lt) ∙ h (k * 64 + i) ∙ has_at b k i lt),
)

words_meet_sound :
    (vs ws : List Bitset)
    → words_meet vs ws ≡ true
    → (k : ℕ) × (i : ℕ) × (i < 64) × (word vs k i ≡ true) × (word ws k i ≡ true)
unfolding words_meet
words_meet_sound [] ws h = cc
words_meet_sound (v ∷ vs) [] h = cc
words_meet_sound (v ∷ vs) (w ∷ ws) h = elim (Bool-cases (Bitset.any (Bitset.and v w))) [
  | inl e ↦
      let (i, lt, p) = Bitset.any_witness (Bitset.and v w) e in
      (0, i, lt, ground arith, ground arith)
  | inr e ↦ let (k, i, lt, p, q) = words_meet_sound vs ws (rw e at h) in (suc k, i, lt, p, q)
]

words_meet_complete :
    (vs ws : List Bitset) (k i : ℕ)
    → i < 64
    → word vs k i ≡ true
    → word ws k i ≡ true
    → words_meet vs ws ≡ true
unfolding words_meet
words_meet_complete [] ws k i lt p q = cc
words_meet_complete (v ∷ vs) [] k i lt p q = cc
words_meet_complete (v ∷ vs) (w ∷ ws) zero i lt p q =
    rw (Bitset.any_intro (Bitset.and v w) i lt (rw (p, q)))
words_meet_complete (v ∷ vs) (w ∷ ws) (suc k) i lt p q =
    ground (arith, words_meet_complete vs ws k i lt p q)

-- The two locksets share a lock.
abbrev pub Meet : Lockset → Lockset → Type 0
Meet a b = (i : ℕ) × (has a i ≡ true) × (has b i ≡ true)

words_not_empty :
    (ws : List Bitset)
    → words_empty ws ≡ false
    → (k : ℕ) × (i : ℕ) × (i < 64) × (word ws k i ≡ true)
unfolding words_empty
words_not_empty [] h = cc
words_not_empty (w ∷ ws) h = elim (Bool-cases (Bitset.any w)) [
  | inl e ↦ let (i, lt, p) = Bitset.any_witness w e in (0, i, lt, p)
  | inr e ↦ let (k, i, lt, p) = words_not_empty ws (rw e at h) in (suc k, i, lt, p)
]

some_lock : (ls : Lockset) → is_empty ls ≡ false → Meet ls ls
unfolding is_empty
some_lock ls h =
    let (k, i, lt, p) = words_not_empty ls.locks h in
    let q = has_at ls k i lt ∙ p in (k * 64 + i, q, q)

Meet-of_words : (a b : Lockset) → words_meet a.locks b.locks ≡ true → Meet a b
Meet-of_words a b h =
    let (k, i, lt, p, q) = words_meet_sound a.locks b.locks h in
    (k * 64 + i, has_at a k i lt ∙ p, has_at b k i lt ∙ q)

not_empty : (ls : Lockset) (i : ℕ) → has ls i ≡ true → is_empty ls ≡ false
not_empty ls i p = elim (Bool-cases (is_empty ls)) [
  | inl e ↦ let q = (is_empty_iff ls).0 e i in cc
  | inr e ↦ e
]

-- `short_intersect` finds out whether two locksets share a lock; the test on the pointers is sound
-- where equal pointers mean equal locksets.
pub short_intersect_iff :
    (same : Bool) (a b : Lockset)
    → (same ≡ true → a ≡ b)
    → (short_intersect same a b ≡ true) ↔ Meet a b
unfolding short_intersect
short_intersect_iff same a b eq = (there, back)
  where
    there : short_intersect same a b ≡ true → Meet a b
    there h = elim (Bool-cases same) [
      | inl e ↦ subst (Meet a) (eq e) (some_lock a (ground arith))
      | inr e ↦ Meet-of_words a b (ground arith)
    ]

    back : Meet a b → short_intersect same a b ≡ true
    back (i, p, q) =
        rw (not_empty a i p, not_empty b i q)
          (ground (arith, words_meet_complete a.locks b.locks (i / 64) (i % 64) (omega arith) p q))

word-and_loop :
    (vs ws : List Bitset) (k i : ℕ)
    → length vs ≤ length ws
    → word (and_loop vs ws) k i ≡ (word vs k i && word ws k i)
unfolding and_loop
word-and_loop [] ws k i h = refl
word-and_loop (v ∷ vs) [] k i h = absurd (omega arith)
word-and_loop (v ∷ vs) (w ∷ ws) zero i h = refl
word-and_loop (v ∷ vs) (w ∷ ws) (suc k) i h = word-and_loop vs ws k i (omega arith)

word-resize_cut :
    (n k i : ℕ) (ws : List Bitset)
    → n ≤ length ws
    → word (resize n ws) k i ≡ (if ltb k n then word ws k i else false)
unfolding resize
word-resize_cut zero k i ws h = ground arith
word-resize_cut (suc n) k i [] h = absurd (omega arith)
word-resize_cut (suc n) zero i (w ∷ ws) h = ground arith
word-resize_cut (suc n) (suc k) i (w ∷ ws) h =
    ground (arith, word-resize_cut n k i ws (omega arith))

word_past : (k i : ℕ) (ws : List Bitset) → length ws ≤ k → word ws k i ≡ false
word_past k i [] h = refl
word_past zero i (w ∷ ws) h = absurd (omega arith)
word_past (suc k) i (w ∷ ws) h = word_past k i ws (omega arith)

-- `intersect` keeps the locks that both hold.
pub has-intersect : (a b : Lockset) (i : ℕ) → has (intersect a b) i ≡ (has a i && has b i)
unfolding intersect
has-intersect a b i =
    word-and_loop (resize n a.locks) b.locks (i / 64) (i % 64) short
    ∙ rw (word-resize_cut n (i / 64) (i % 64) a.locks (ground arith))
        (ground (arith, word_past (i / 64) (i % 64) a.locks, word_past (i / 64) (i % 64) b.locks))
  where
    n : ℕ
    n = min_size (length a.locks) (length b.locks)

    short : length (resize n a.locks) ≤ length b.locks
    short = ground (arith, length-resize n a.locks)
