-- ===== src/Backtrace.antt =====
-- Backtraces: `BacktraceComparator` and `GetBacktrace` of src/utils.hpp.
pub mod Walk
use mathlib.Core.Path.{ap₂}
use native.Mathlib.Nat.{pow-suc}
use hawk_set.Intern
use hawk_set.Intern.{Comparison}
use hawk_set.Prelude.{
  ℕ, zero, suc, ◌/◌, ◌%◌, ◌^◌, ◌<◌, ◌↔◌, ◌≡◌, refl, sym, ◌∙◌, inl, inr, Bool, true, false, not,
  ◌&&◌, List, [], ◌∷◌, ◌++◌, arith, ltb, ◌==◌, if◌then◌else◌, length, Bool-cases,
}

-- The bytes of a pointer, least significant first.
bytes : ℕ → ℕ → List ℕ
bytes zero x = []
bytes (suc n) x = (x % 256) ∷ bytes n (x / 256)

-- The bytes of the vector's data.
all_bytes : List ℕ → List ℕ
unfolding bytes
all_bytes [] = []
all_bytes (x ∷ xs) = bytes 8 x ++ all_bytes xs

-- `memcmp(…) < 0`, at buffers of one length.
memcmp_lt : List ℕ → List ℕ → Bool
memcmp_lt [] ys = false
memcmp_lt (x ∷ xs) [] = false
memcmp_lt (x ∷ xs) (y ∷ ys) = if x == y then memcmp_lt xs ys else ltb x y

-- `BacktraceComparator`
pub trace_lt : List ℕ → List ℕ → Bool
unfolding memcmp_lt all_bytes
trace_lt r1 r2 =
    if length r1 == length r2
    then memcmp_lt (all_bytes r1) (all_bytes r2)
    else ltb (length r1) (length r2)

-- What `std::set` takes for equal.
unfoldable pub trace_eq : List ℕ → List ℕ → Bool
unfolding trace_lt
trace_eq r1 r2 = not (trace_lt r1 r2) && not (trace_lt r2 r1)

memcmp_lt_irrefl : (xs : List ℕ) → memcmp_lt xs xs ≡ false
unfolding memcmp_lt
memcmp_lt_irrefl [] = refl
memcmp_lt_irrefl (x ∷ xs) = ground (arith, memcmp_lt_irrefl xs)

memcmp-eq :
    (xs ys : List ℕ)
    → length xs ≡ length ys
    → memcmp_lt xs ys ≡ false
    → memcmp_lt ys xs ≡ false
    → xs ≡ ys
unfolding memcmp_lt
memcmp-eq [] [] e h k = refl
memcmp-eq [] (y ∷ ys) e h k = absurd (omega arith)
memcmp-eq (x ∷ xs) [] e h k = absurd (omega arith)
memcmp-eq (x ∷ xs) (y ∷ ys) e h k = ground (arith, memcmp-eq xs ys)

length-all_bytes :
    (xs ys : List ℕ) → length xs ≡ length ys → length (all_bytes xs) ≡ length (all_bytes ys)
unfolding all_bytes
length-all_bytes [] [] e = refl
length-all_bytes [] (y ∷ ys) e = absurd (omega arith)
length-all_bytes (x ∷ xs) [] e = absurd (omega arith)
length-all_bytes (x ∷ xs) (y ∷ ys) e = omega (arith, length-all_bytes xs ys (omega arith))

trace_eq_sound :
    (a b : List ℕ) → trace_eq a b ≡ true → (length a ≡ length b) × (all_bytes a ≡ all_bytes b)
unfolding trace_eq
trace_eq_sound a b h = elim (Bool-cases (length a == length b)) [
  | inl e ↦
      let p : length a ≡ length b = ground arith in
      (p, ground (arith, memcmp-eq (all_bytes a) (all_bytes b) (length-all_bytes a b p)))
  | inr e ↦ absurd (ground arith)
]

trace_eq_complete :
    (a b : List ℕ) → (length a ≡ length b) → (all_bytes a ≡ all_bytes b) → trace_eq a b ≡ true
unfolding trace_eq
trace_eq_complete a b p q = rw (p, q) (ground (arith, memcmp_lt_irrefl (all_bytes b)))

-- All frames are pointers.
abbrev pub IsTrace : List ℕ → Type 0
IsTrace [] = Unit {0}
IsTrace (x ∷ xs) = (x < 2 ^ 64) × IsTrace xs

bytes-append_injective :
    (n x y : ℕ) (r s : List ℕ)
    → x < 256 ^ n
    → y < 256 ^ n
    → bytes n x ++ r ≡ bytes n y ++ s
    → (x ≡ y) × (r ≡ s)
unfolding bytes
bytes-append_injective zero x y r s h k e = (omega arith, e)
bytes-append_injective (suc n) x y r s h k e =
    let low : x % 256 ≡ y % 256 = cc in
    let rest : bytes n (x / 256) ++ r ≡ bytes n (y / 256) ++ s = cc in
    let (p, q) =
      bytes-append_injective n (x / 256) (y / 256) r s (omega (arith, pow-suc 256 n))
        (omega (arith, pow-suc 256 n)) rest in
    (omega arith, q)

all_bytes-injective : (a b : List ℕ) → IsTrace a → IsTrace b → all_bytes a ≡ all_bytes b → a ≡ b
unfolding all_bytes
all_bytes-injective [] [] u v e = refl
all_bytes-injective [] (y ∷ ys) u v e = cc
all_bytes-injective (x ∷ xs) [] u v e = cc
all_bytes-injective (x ∷ xs) (y ∷ ys) u v e =
    let (p, q) =
      bytes-append_injective 8 x y (all_bytes xs) (all_bytes ys) (omega arith) (omega arith) e in
    ap₂ ◌∷◌ p (all_bytes-injective xs ys u.1 v.1 q)

-- The set finds a trace exactly when it holds the same frames.
pub trace_eq_iff : (a b : List ℕ) → IsTrace a → IsTrace b → (trace_eq a b ≡ true) ↔ (a ≡ b)
trace_eq_iff a b u v = (
  λ h. all_bytes-injective a b u v (trace_eq_sound a b h).1,
  λ e. rw e (trace_eq_complete b b refl refl),
)

pub trace_eq_refl : (a : List ℕ) → trace_eq a a ≡ true
trace_eq_refl a = trace_eq_complete a a refl refl

pub trace_eq_sym : (a b : List ℕ) → trace_eq a b ≡ true → trace_eq b a ≡ true
trace_eq_sym a b h = let (p, q) = trace_eq_sound a b h in trace_eq_complete b a (sym p) (sym q)

pub trace_eq_trans :
    (a b c : List ℕ) → trace_eq a b ≡ true → trace_eq b c ≡ true → trace_eq a c ≡ true
trace_eq_trans a b c h k =
    let (p, q) = trace_eq_sound a b h in
    let (r, s) = trace_eq_sound b c k in trace_eq_complete a c (p ∙ r) (q ∙ s)

unfoldable pub trace_comparison : Comparison (List ℕ)
unfolding trace_eq
trace_comparison = record {
  same = trace_eq;
  same_refl = trace_eq_refl;
  same_sym = trace_eq_sym;
  same_trans = trace_eq_trans;
}

-- `backtrace_t`: the address of an interned trace.
abbrev pub Trace : Type 0
Trace = ℕ

-- `GetBacktrace`: the instruction pointer, then the calls on the stack, the innermost first. The
-- head of `stack` is the back of the vector.
unfoldable pub get_backtrace : List (List ℕ) → ℕ → List ℕ → Trace × List (List ℕ)
unfolding trace_comparison
get_backtrace pool ip stack = Intern.get trace_comparison pool (ip ∷ stack)
