-- ===== src/Cache/Hash.antt =====
-- The hash functions of locksets and of timed locksets, `std::hash<const Lockset>` and
-- `std::hash<const TimedLockset>` of src/cache.hpp.
use hawk_set.Bitset.{Bitset}
use hawk_set.Lockset.{Lockset, word, lockset_eq}
use hawk_set.Lockset.Sets.{lockset_eq_iff, has_at}
use hawk_set.Map.{Map}
use hawk_set.TimedLockset.{TimedLockset, timed_lockset_eq}
use hawk_set.TimedLockset.Sets.{timed_lockset_eq_iff}
use hawk_set.Prelude.{
  ap, ℕ, zero, suc, ◌+◌, ◌*◌, ◌/◌, ◌%◌, ◌^◌, ◌<◌, ◌≤◌, ◌≡◌, refl, sym, ◌∙◌, true, false, List, [],
  ◌∷◌, arith, if◌then◌else◌,
}
use Prim.Native.Nat.{bit_xor}

-- `macro + i + 0x9e3779b9` has 32 bits, and the sums with `seed` have 64.
mix : ℕ → ℕ → ℕ → ℕ
mix macro i seed =
    bit_xor seed (((macro + i + 0x9e3779b9) % 2 ^ 32 + seed * 64 % 2 ^ 64 + seed / 4) % 2 ^ 64)

-- The loop over the bits of a word, from bit `i` on.
hash_bits : ℕ → ℕ → ℕ → Bitset → ℕ → ℕ
unfolding mix
hash_bits zero i macro w seed = seed
hash_bits (suc rounds) i macro w seed =
    hash_bits rounds (i + 1) macro w (if w i then mix macro i seed else seed)

hash_words : ℕ → List Bitset → ℕ → ℕ
unfolding hash_bits
hash_words macro [] seed = seed
hash_words macro (w ∷ ws) seed = hash_words (macro + 1) ws (hash_bits 64 0 macro w seed)

unfoldable pub lockset_hash : Lockset → ℕ
unfolding hash_words
lockset_hash ls = hash_words 0 ls.locks 0

hash_bits-eq :
    (n i macro : ℕ) (v w : Bitset) (seed : ℕ)
    → i + n ≤ 64
    → ((j : ℕ) → j < 64 → v j ≡ w j)
    → hash_bits n i macro v seed ≡ hash_bits n i macro w seed
unfolding hash_bits
hash_bits-eq zero i macro v w seed b h = refl
hash_bits-eq (suc n) i macro v w seed b h =
    rw (h i (omega arith)) (hash_bits-eq n (i + 1) macro v w _ (omega arith) h)

hash_bits-zeros : (n i macro seed : ℕ) → hash_bits n i macro (λ j. false) seed ≡ seed
unfolding hash_bits
hash_bits-zeros zero i macro seed = refl
hash_bits-zeros (suc n) i macro seed = hash_bits-zeros n (i + 1) macro seed

hash_words-empty :
    (macro seed : ℕ) (ws : List Bitset)
    → ((k i : ℕ) → i < 64 → word ws k i ≡ false)
    → hash_words macro ws seed ≡ seed
unfolding hash_words
hash_words-empty macro seed [] h = refl
hash_words-empty macro seed (w ∷ ws) h =
    rw
      (hash_bits-eq 64 0 macro w (λ j. false) seed (omega arith) (h 0)
        ∙ hash_bits-zeros 64 0 macro seed)
      (hash_words-empty (macro + 1) seed ws (λ k. h (suc k)))

hash_words-eq :
    (macro seed : ℕ) (vs ws : List Bitset)
    → ((k i : ℕ) → i < 64 → word vs k i ≡ word ws k i)
    → hash_words macro vs seed ≡ hash_words macro ws seed
unfolding hash_words
hash_words-eq macro seed [] ws h = sym (hash_words-empty macro seed ws (λ k i lt. sym (h k i lt)))
hash_words-eq macro seed (v ∷ vs) [] h = hash_words-empty macro seed (v ∷ vs) h
hash_words-eq macro seed (v ∷ vs) (w ∷ ws) h =
    rw (hash_bits-eq 64 0 macro v w seed (omega arith) (h 0))
      (hash_words-eq (macro + 1) (hash_bits 64 0 macro w seed) vs ws (λ k. h (suc k)))

-- Locksets that compare equal have one hash, also when one has more words: the hash set finds what
-- the comparison accepts.
pub lockset_hash-eq : (a b : Lockset) → lockset_eq a b ≡ true → lockset_hash a ≡ lockset_hash b
unfolding lockset_hash
lockset_hash-eq a b h =
    hash_words-eq 0 0 a.locks b.locks
      (λ k i lt. sym (has_at a k i lt) ∙ (lockset_eq_iff a b).0 h (k * 64 + i) ∙ has_at b k i lt)

-- `macro + n + 0x9e3779b9 + …`, in 64 bits.
mix_entry : ℕ → ℕ → ℕ → ℕ
mix_entry macro n seed =
    bit_xor seed ((macro + n + 0x9e3779b9 + seed * 64 % 2 ^ 64 + seed / 4) % 2 ^ 64)

-- The loop over the entries of a timed lockset.
hash_entries : ℕ → Map ℕ → ℕ → ℕ
unfolding mix_entry
hash_entries macro [] seed = seed
hash_entries macro ((lock, timestamp) ∷ entries) seed =
    hash_entries (macro + 1) entries (mix_entry macro timestamp (mix_entry macro lock seed))

-- `std::hash<const TimedLockset>`
unfoldable pub timed_hash : TimedLockset → ℕ
unfolding hash_entries
timed_hash tls = hash_entries 0 tls.timestamps 0

-- Timed locksets that compare equal have one hash.
pub timed_hash-eq : (a b : TimedLockset) → timed_lockset_eq a b ≡ true → timed_hash a ≡ timed_hash b
timed_hash-eq a b h = ap timed_hash ((timed_lockset_eq_iff a b).0 h)
