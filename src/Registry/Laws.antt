-- ===== src/Registry/Laws.antt =====
-- Every lock has its own number, and keeps it.
use hawk_set.Lockset.{Lockset, set_mutex_internal, has}
use hawk_set.Lockset.Sets.{has-set_mutex_internal}
use hawk_set.Map
use hawk_set.Map.{Map}
use hawk_set.Prelude.{
  List, [], ◌∷◌, length, ◌≤◌, ℕ, ◌+◌, ◌%◌, ◌^◌, ◌<◌, ◌≡◌, sym, ◌∙◌, ◌≢◌, Option, inl, inr, Bool,
  true, false, none, some, arith, ◌==◌, if◌then◌else◌, Bool-cases, Option-cases,
}
use hawk_set.Registry.{
  Registry, register_mutex, get_index, register_special_mutex, set_mutex, lock, unlock,
}
use native.Mathlib.Nat.{mod-eq_of_lt}

pub record IsRegistry (r : Registry) : Type 0 where
  pub below : (m i : ℕ) → Map.find m r.lock_index ≡ some i → i < r.lock_counter
  pub distinct :
      (m n i : ℕ) → Map.find m r.lock_index ≡ some i → Map.find n r.lock_index ≡ some i → m ≡ n

register_mutex_new :
    (r : Registry) (m : ℕ)
    → Map.find m r.lock_index ≡ none
    → register_mutex r m ≡ record {
      lock_index = Map.assign m r.lock_counter r.lock_index;
      lock_counter = (r.lock_counter + 1) % 2 ^ 64;
    }
unfolding register_mutex
register_mutex_new r m e = rw (Map.contains-find m r.lock_index, e)

register_mutex_old :
    (r : Registry) (m i : ℕ) → Map.find m r.lock_index ≡ some i → register_mutex r m ≡ r
unfolding register_mutex
register_mutex_old r m i e = rw (Map.contains-find m r.lock_index, e)

abbrev or_else : Option ℕ → Option ℕ → Option ℕ
or_else none b = b
or_else (some i) b = some i

-- A lock that has a number keeps it, and a new one gets the counter's value.
pub find-register_mutex :
    (r : Registry) (m n : ℕ)
    → Map.find n (register_mutex r m).lock_index
      ≡ or_else (Map.find n r.lock_index) (if n == m then some r.lock_counter else none)
find-register_mutex r m n = elim (Option-cases (Map.find m r.lock_index)) [
  | inl e ↦ rw (register_mutex_new r m e, Map.find-assign n m r.lock_counter r.lock_index) (fresh e)
  | inr (i, e) ↦ rw (register_mutex_old r m i e) (kept i e)
]
  where
    fresh :
        Map.find m r.lock_index ≡ none
        → (if n == m then some r.lock_counter else Map.find n r.lock_index)
          ≡ or_else (Map.find n r.lock_index) (if n == m then some r.lock_counter else none)
    fresh e = elim (Bool-cases (n == m)) [
      | inl s ↦ let p : n ≡ m = ground arith in rw (p, e) (ground arith)
      | inr s ↦ elim (Option-cases (Map.find n r.lock_index)) [
        | inl f ↦ rw (s, f)
        | inr (k, f) ↦ rw (s, f)
      ]
    ]

    kept :
        (i : ℕ)
        → Map.find m r.lock_index ≡ some i
        → Map.find n r.lock_index
          ≡ or_else (Map.find n r.lock_index) (if n == m then some r.lock_counter else none)
    kept i e = elim (Option-cases (Map.find n r.lock_index)) [
      | inl f ↦ elim (Bool-cases (n == m)) [
        | inl s ↦ let p : n ≡ m = ground arith in let g = rw p at f in cc
        | inr s ↦ rw (s, f)
      ]
      | inr (k, f) ↦ rw f
    ]

-- Registering a lock keeps the numbers distinct and below the counter.
pub register_mutex-IsRegistry :
    (r : Registry) (m : ℕ)
    → r.lock_counter + 1 < 2 ^ 64
    → IsRegistry r
    → IsRegistry (register_mutex r m)
register_mutex-IsRegistry r m h v = elim (Option-cases (Map.find m r.lock_index)) [
  | inr (i, e) ↦ rw (register_mutex_old r m i e) v
  | inl e ↦
      rw (register_mutex_new r m e, mod-eq_of_lt h)
        (record {
          below =
              λ n i f. below_new n i (sym (Map.find-assign n m r.lock_counter r.lock_index) ∙ f);
          distinct = λ n k i f g.
              distinct_new n k i (sym (Map.find-assign n m r.lock_counter r.lock_index) ∙ f)
                (sym (Map.find-assign k m r.lock_counter r.lock_index) ∙ g);
        })
]
  where
    New : ℕ → ℕ → Type 0
    New n i = (if n == m then some r.lock_counter else Map.find n r.lock_index) ≡ some i

    below_new : (n i : ℕ) → New n i → i < r.lock_counter + 1
    below_new n i f = ground (arith, v.below n i)

    distinct_new : (n k i : ℕ) → New n i → New k i → n ≡ k
    distinct_new n k i f g = ground (arith, v.below n i, v.below k i, v.distinct n k i)

-- Does the lockset hold the lock of this address?
abbrev pub holds : Registry → Lockset → ℕ → Bool
holds r ls m = elim (Map.find m r.lock_index) [ none ↦ false | some i ↦ has ls i ]

pub registered :
    (r : Registry) (m : ℕ) → (i : ℕ) × (Map.find m (register_mutex r m).lock_index ≡ some i)
registered r m = elim (Option-cases (Map.find m r.lock_index)) [
  | inl e ↦ (r.lock_counter, find-register_mutex r m m ∙ rw e (ground arith))
  | inr (i, e) ↦ (i, find-register_mutex r m m ∙ rw e)
]

set_mutex_found :
    (r : Registry) (ls : Lockset) (m i : ℕ) (val : Bool)
    → Map.find m r.lock_index ≡ some i
    → set_mutex r ls m val ≡ (set_mutex_internal ls i val, r)
unfolding set_mutex get_index
set_mutex_found r ls m i val e = rw (e, get_index)

holds-set :
    (r q : Registry) (ls : Lockset) (m n i : ℕ) (val : Bool)
    → IsRegistry q
    → Map.find m q.lock_index ≡ some i
    → Map.find n q.lock_index
      ≡ or_else (Map.find n r.lock_index) (if n == m then some r.lock_counter else none)
    → holds q (set_mutex_internal ls i val) n ≡ (if n == m then val else holds r ls n)
holds-set r q ls m n i val v e f = elim (Bool-cases (n == m)) [
  | inl s ↦
      let p : n ≡ m = ground arith in
      rw (s, p, e, holds) (rw (has-set_mutex_internal ls i i val) (ground arith))
  | inr s ↦ elim (Option-cases (Map.find n r.lock_index)) [
    | inl g ↦ ground arith
    | inr (j, g) ↦
        let k : Map.find n q.lock_index ≡ some j = ground arith in
        rw (s, g, k, holds)
          (rw (has-set_mutex_internal ls i j val)
            (ground (arith, λ (a : Map.find n q.lock_index ≡ some i). v.distinct n m i a e)))
  ]
]

-- After `lock` the lockset holds this lock, by its address, and every other as before; after
-- `unlock` it does not.
set_registered :
    (r : Registry) (ls : Lockset) (m n : ℕ) (val : Bool)
    → r.lock_counter + 1 < 2 ^ 64
    → IsRegistry r
    → holds
        (set_mutex (register_mutex r m) ls m val).1
        (set_mutex (register_mutex r m) ls m val).0
        n
      ≡ (if n == m then val else holds r ls n)
set_registered r ls m n val h v =
    let (i, e) = registered r m in
    rw (set_mutex_found (register_mutex r m) ls m i val e) (
      holds-set r (register_mutex r m) ls m n i val (register_mutex-IsRegistry r m h v) e
        (find-register_mutex r m n))

-- Locking and unlocking an address changes what the lockset holds at that address, and at no other.
pub holds-lock :
    (r : Registry) (ls : Lockset) (m n : ℕ)
    → r.lock_counter + 1 < 2 ^ 64
    → IsRegistry r
    → (holds (lock r ls m).1 (lock r ls m).0 n ≡ (if n == m then true else holds r ls n))
      × (holds (unlock r ls m).1 (unlock r ls m).0 n ≡ (if n == m then false else holds r ls n))
unfolding lock unlock
holds-lock r ls m n h v = (set_registered r ls m n true h v, set_registered r ls m n false h v)

-- Locks at any addresses, one after the other.
unfoldable pub register_all : Registry → List ℕ → Registry
register_all r [] = r
register_all r (m ∷ ms) = register_all (register_mutex r m) ms

lock_counter-register_mutex :
    (r : Registry) (m : ℕ)
    → r.lock_counter + 1 < 2 ^ 64
    → (r.lock_counter ≤ (register_mutex r m).lock_counter)
      × ((register_mutex r m).lock_counter ≤ r.lock_counter + 1)
lock_counter-register_mutex r m h = elim (Option-cases (Map.find m r.lock_index)) [
  | inr (i, e) ↦ rw (register_mutex_old r m i e) (omega arith, omega arith)
  | inl e ↦ rw (register_mutex_new r m e, mod-eq_of_lt h) (omega arith, omega arith)
]

-- A number that is below the counter and no address's stays so.
unused-register_all :
    (ms : List ℕ) (r : Registry) (i n : ℕ)
    → r.lock_counter + length ms < 2 ^ 64
    → IsRegistry r
    → i < r.lock_counter
    → ((k : ℕ) → Map.find k r.lock_index ≢ some i)
    → IsRegistry (register_all r ms) × (Map.find n (register_all r ms).lock_index ≢ some i)
unfolding register_all
unused-register_all [] r i n room v small unused = (v, unused n)
unused-register_all (m ∷ ms) r i n room v small unused =
    let (low, high) = lock_counter-register_mutex r m (omega (arith, room)) in
    unused-register_all ms (register_mutex r m) i n (omega (arith, room, high))
      (register_mutex-IsRegistry r m (omega (arith, room)) v) (omega (arith, low, small)) still
  where
    still : (k : ℕ) → Map.find k (register_mutex r m).lock_index ≢ some i
    still k e = ground (arith, find-register_mutex r m k, unused k, small)

-- While the counter does not wrap, the number of a special lock is that of no address, neither when
-- it is given nor after locks at any addresses have been registered.
pub special_unused :
    (r : Registry) (ms : List ℕ) (n : ℕ)
    → r.lock_counter + 1 + length ms < 2 ^ 64
    → IsRegistry r
    → let (s, q) = register_special_mutex r in
      IsRegistry (register_all q ms) × (Map.find n (register_all q ms).lock_index ≢ some s)
unfolding register_special_mutex
special_unused r ms n h v =
    let small : r.lock_counter + 1 < 2 ^ 64 = omega (arith, h) in
    let up : (r.lock_counter + 1) % 2 ^ 64 ≡ r.lock_counter + 1 = mod-eq_of_lt small in
    unused-register_all ms (register_special_mutex r).1 r.lock_counter n (omega (arith, h, up))
      (rw up (record { below = λ a i e. ground (arith, v.below a i); distinct = v.distinct }))
      (omega (arith, up)) (λ k e. ground (arith, v.below k r.lock_counter))
