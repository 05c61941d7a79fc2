-- ===== src/Lockset.antt =====
-- Locksets: src/lockset.hpp and src/lockset.cpp.
pub mod Sets
use hawk_set.Bitset
use hawk_set.Bitset.{Bitset}
use hawk_set.Map
use hawk_set.Map.{Map}
use hawk_set.Prelude.{
  ℕ, zero, suc, ◌+◌, ◌/◌, ◌%◌, ◌^◌, Bool, true, false, not, ◌&&◌, ◌||◌, Option, none, some, List,
  [], ◌∷◌, ltb, leb, ◌==◌, if◌then◌else◌, length, get_or, set, drop,
}

pub record Lockset : Type 0 where
  pub locks : List Bitset

-- `Lockset()`: one word, all clear.
abbrev pub no_locks : Lockset
no_locks = record { locks = Bitset.zeros ∷ [] }

-- `std::vector::resize(n, false)`
unfoldable pub resize : ℕ → List Bitset → List Bitset
resize zero ws = []
resize (suc n) [] = Bitset.zeros ∷ resize n []
resize (suc n) (w ∷ ws) = w ∷ resize n ws

abbrev pub word : List Bitset → ℕ → Bitset
word ws k = get_or ws k Bitset.zeros

unfoldable pub set_mutex_internal : Lockset → ℕ → Bool → Lockset
unfolding resize
set_mutex_internal ls index val =
    let macro = index / 64 in
    let micro = index % 64 in
    let locks = if leb (length ls.locks) macro then resize (macro + 1) ls.locks else ls.locks in
    record { locks = set locks macro (Bitset.set_bit (word locks macro) micro val) }

abbrev pub lock_special : Lockset → ℕ → Lockset
lock_special ls mutex = set_mutex_internal ls mutex true

abbrev pub unlock_special : Lockset → ℕ → Lockset
unlock_special ls mutex = set_mutex_internal ls mutex false

unfoldable pub clear : Lockset → Lockset
clear ls = record { locks = [] }

words_empty : List Bitset → Bool
words_empty [] = true
words_empty (v ∷ ws) = if Bitset.any v then false else words_empty ws

unfoldable pub is_empty : Lockset → Bool
unfolding words_empty
is_empty ls = words_empty ls.locks

-- `std::min`
abbrev pub min_size : ℕ → ℕ → ℕ
min_size a b = if ltb b a then b else a

-- `!memcmp(v, w, n * sizeof(std::bitset<64>))`
memcmp_eq : ℕ → List Bitset → List Bitset → Bool
memcmp_eq (suc n) (v ∷ vs) (w ∷ ws) = Bitset.word_eq v w && memcmp_eq n vs ws
memcmp_eq _ _ _ = true

-- `operator==`, over the two vectors.
words_eq : List Bitset → List Bitset → Bool
unfolding memcmp_eq words_empty
words_eq vs ws =
    if length vs == length ws
    then memcmp_eq (length vs) vs ws
    else (let min = min_size (length vs) (length ws) in
        if not (memcmp_eq min vs ws)
        then false
        else words_empty (drop min (if not (length vs == min) then vs else ws)))

unfoldable pub lockset_eq : Lockset → Lockset → Bool
unfolding words_eq
lockset_eq a b = words_eq a.locks b.locks

-- The loop of `short_intersect` over the words that both have.
words_meet : List Bitset → List Bitset → Bool
words_meet [] ws = false
words_meet (v ∷ vs) [] = false
words_meet (v ∷ vs) (w ∷ ws) = if Bitset.any (Bitset.and v w) then true else words_meet vs ws

-- `same` says that the two pointers are equal, the test `this == ls`.
unfoldable pub short_intersect : Bool → Lockset → Lockset → Bool
unfolding words_meet is_empty
short_intersect same own ls =
    if is_empty own || is_empty ls
    then false
    else if same
    then true
    else words_meet own.locks ls.locks

and_loop : List Bitset → List Bitset → List Bitset
and_loop [] ws = []
and_loop (v ∷ vs) [] = v ∷ vs
and_loop (v ∷ vs) (w ∷ ws) = Bitset.and v w ∷ and_loop vs ws

unfoldable pub intersect : Lockset → Lockset → Lockset
unfolding resize and_loop
intersect own ls =
    let min = min_size (length own.locks) (length ls.locks) in
    record { locks = and_loop (resize min own.locks) ls.locks }

-- The set that the words stand for: is the lock of this index in it?
abbrev pub has : Lockset → ℕ → Bool
has ls i = word ls.locks (i / 64) (i % 64)
