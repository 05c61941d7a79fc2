-- ===== src/Bitset.antt =====
-- `std::bitset<64>`: the value of each of the bits below 64.
use hawk_set.Prelude.{
  ℕ, zero, suc, ◌<◌, ◌≤◌, ◌≡◌, refl, ap, ◌∙◌, ◌↔◌, Bool, true, false, not, ◌&&◌, ◌||◌, arith, ◌==◌,
  if◌then◌else◌, Bool-cases, inl, inr,
}

abbrev pub Bitset : Type 0
Bitset = ℕ → Bool

abbrev pub zeros : Bitset
zeros i = false

abbrev pub test : Bitset → ℕ → Bool
test w i = w i

abbrev pub set_bit : Bitset → ℕ → Bool → Bitset
set_bit w i v j = if j == i then v else w j

abbrev pub and : Bitset → Bitset → Bitset
and v w i = v i && w i

-- Is the test true below `n`?
unfoldable pub any_below : ℕ → (ℕ → Bool) → Bool
any_below zero p = false
any_below (suc n) p = p n || any_below n p

unfoldable pub any : Bitset → Bool
unfolding any_below
any w = any_below 64 w

count_below : ℕ → (ℕ → Bool) → ℕ
count_below zero p = 0
count_below (suc n) p = if p n then suc (count_below n p) else count_below n p

unfoldable pub count : Bitset → ℕ
unfolding count_below
count w = count_below 64 w

unfoldable pub same_bit : Bool → Bool → Bool
same_bit true b = b
same_bit false b = not b

-- The two words hold the same bits, which is what `memcmp` compares.
unfoldable pub word_eq : Bitset → Bitset → Bool
unfolding any_below same_bit
word_eq v w = not (any_below 64 (λ i. not (same_bit (v i) (w i))))

any_below_witness : (n : ℕ) (p : ℕ → Bool) → any_below n p ≡ true → (i : ℕ) × (i < n) × (p i ≡ true)
unfolding any_below
any_below_witness zero p h = cc
any_below_witness (suc n) p h = elim (Bool-cases (p n)) [
  | inl e ↦ (n, omega arith, e)
  | inr e ↦ let (i, lt, q) = any_below_witness n p (ground arith) in (i, omega arith, q)
]

any_below_intro : (n i : ℕ) (p : ℕ → Bool) → i < n → p i ≡ true → any_below n p ≡ true
unfolding any_below
any_below_intro zero i p h e = absurd (omega arith)
any_below_intro (suc n) i p h e = elim (Bool-cases (i == n)) [
  | inl s ↦ let q : i ≡ n = ground arith in rw (← q, e)
  | inr s ↦ ground (arith, any_below_intro n i p (ground arith) e)
]

pub any_witness : (w : Bitset) → any w ≡ true → (i : ℕ) × (i < 64) × (w i ≡ true)
unfolding any
any_witness w h = any_below_witness 64 w h

pub any_intro : (w : Bitset) (i : ℕ) → i < 64 → w i ≡ true → any w ≡ true
unfolding any
any_intro w i h e = any_below_intro 64 i w h e

pub any-eq-false : (w : Bitset) (i : ℕ) → any w ≡ false → i < 64 → w i ≡ false
any-eq-false w i h lt = elim (Bool-cases (w i)) [
  | inl e ↦ let q = any_intro w i lt e in cc
  | inr e ↦ e
]

pub any_none : (w : Bitset) → ((i : ℕ) → i < 64 → w i ≡ false) → any w ≡ false
any_none w h = elim (Bool-cases (any w)) [
  | inl e ↦ let (i, lt, q) = any_witness w e in let r = h i lt in cc
  | inr e ↦ e
]

same_bit_iff : (a b : Bool) → (same_bit a b ≡ true) ↔ (a ≡ b)
unfolding same_bit
same_bit_iff a b = ground arith

pub word_eq_sound : (v w : Bitset) (i : ℕ) → word_eq v w ≡ true → i < 64 → v i ≡ w i
unfolding word_eq
word_eq_sound v w i h lt = elim (Bool-cases (same_bit (v i) (w i))) [
  | inl e ↦ (same_bit_iff (v i) (w i)).0 e
  | inr e ↦
      let q = any_below_intro 64 i (λ j. not (same_bit (v j) (w j))) lt (rw e) in
      absurd (ground arith)
]

pub word_eq_complete : (v w : Bitset) → ((i : ℕ) → i < 64 → v i ≡ w i) → word_eq v w ≡ true
unfolding word_eq
word_eq_complete v w h = elim (Bool-cases (any_below 64 (λ i. not (same_bit (v i) (w i))))) [
  | inl e ↦
      let (i, lt, q) = any_below_witness 64 (λ i. not (same_bit (v i) (w i))) e in
      let r = (same_bit_iff (v i) (w i)).1 (h i lt) in absurd (ground arith)
  | inr e ↦ rw e
]

count_below-set_above :
    (n i : ℕ) (w : Bitset) → n ≤ i → count_below n (set_bit w i true) ≡ count_below n w
unfolding count_below
count_below-set_above zero i w h = refl
count_below-set_above (suc n) i w h = ground (arith, count_below-set_above n i w)

count_below-set :
    (n i : ℕ) (w : Bitset)
    → i < n
    → w i ≡ false
    → count_below n (set_bit w i true) ≡ suc (count_below n w)
unfolding count_below
count_below-set zero i w h e = absurd (omega arith)
count_below-set (suc n) i w h e = elim (Bool-cases (n == i)) [
  | inl s ↦
      let p : n ≡ i = ground arith in
      rw (s, count_below-set_above n i w (omega arith)) (let q = ap w p ∙ e in rw q)
  | inr s ↦ rw (s, count_below-set n i w (ground arith) e) (ground arith)
]

-- Setting a clear bit adds one to the count.
pub count-set :
    (i : ℕ) (w : Bitset) → i < 64 → w i ≡ false → count (set_bit w i true) ≡ suc (count w)
unfolding count
count-set i w h e = count_below-set 64 i w h e

count_below-zeros : (n : ℕ) → count_below n zeros ≡ 0
unfolding count_below
count_below-zeros zero = refl
count_below-zeros (suc n) = count_below-zeros n

pub count-zeros : count zeros ≡ 0
unfolding count
count-zeros = count_below-zeros 64

pub any-zeros : any zeros ≡ false
any-zeros = any_none zeros (λ i h. refl)
