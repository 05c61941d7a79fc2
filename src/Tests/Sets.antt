-- ===== src/Tests/Sets.antt =====
-- Locksets at concrete inputs.
use hawk_set.Bitset
use hawk_set.Lockset
use hawk_set.Lockset.{
  Lockset, no_locks, lockset_eq, short_intersect, has, intersect, set_mutex_internal,
}
use hawk_set.Lockset.Sets
use hawk_set.Prelude.{ℕ, ◌≡◌, refl, ◌↔◌, true, false}

-- The locks 3 and 70: the second word is grown.
abbrev two : Lockset
two = set_mutex_internal (set_mutex_internal no_locks 3 true) 70 true

abbrev three : Lockset
three = set_mutex_internal no_locks 3 true

test_two : has two 70 ≡ true
unfolding set_mutex_internal
test_two = refl

test_unlocked : lockset_eq (set_mutex_internal two 70 false) three ≡ true
unfolding lockset_eq set_mutex_internal Bitset.word_eq Bitset.any
test_unlocked = refl

is_empty_iff_example : (Lockset.is_empty two ≡ true) ↔ ((i : ℕ) → has two i ≡ false)
is_empty_iff_example = Sets.is_empty_iff two

lockset_eq_iff_example : (lockset_eq two three ≡ true) ↔ ((i : ℕ) → has two i ≡ has three i)
lockset_eq_iff_example = Sets.lockset_eq_iff two three

short_intersect_iff_example : (short_intersect false two three ≡ true) ↔ Sets.Meet two three
short_intersect_iff_example = Sets.short_intersect_iff false two three (λ e. cc)
