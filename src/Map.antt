-- ===== src/Map.antt =====
-- `std::map<uint64_t, V>`, and `std::unordered_map<uint64_t, V>`: the entries in the order of their
-- keys. An unordered map promises no order, so the ascending one is as good as any.
use hawk_set.Prelude.{
  ℕ, suc, length, ◌≤◌, ◌<◌, ◌≡◌, refl, Bool, true, false, Option, none, some, List, [], ◌∷◌, arith,
  ltb, ◌==◌, if◌then◌else◌, is_some,
}

abbrev pub Map {ℓ} : Type ℓ → Type ℓ
Map V = List (ℕ × V)

module _ {ℓ} {V : Type ℓ} where
  -- `m.find(k)`, `m.at(k)`
  unfoldable pub find : ℕ → Map V → Option V
  find k [] = none
  find k ((j, w) ∷ m) = if k == j then some w else find k m

  -- `m.contains(k)`
  unfoldable pub contains : ℕ → Map V → Bool
  contains k [] = false
  contains k ((j, w) ∷ m) = if k == j then true else contains k m

  -- `m[k] = v`
  unfoldable pub assign : ℕ → V → Map V → Map V
  assign k v [] = (k, v) ∷ []
  assign k v ((j, w) ∷ m) =
      if k == j then (k, v) ∷ m else if ltb k j then (k, v) ∷ (j, w) ∷ m else (j, w) ∷ assign k v m

  -- `m.erase(k)`
  unfoldable pub erase : ℕ → Map V → Map V
  erase k [] = []
  erase k ((j, w) ∷ m) = let rest = erase k m in if k == j then rest else (j, w) ∷ rest

  pub find-assign :
      (j k : ℕ) (v : V) (m : Map V) → find j (assign k v m) ≡ (if j == k then some v else find j m)
  unfolding find assign
  find-assign j k v [] = refl
  find-assign j k v ((i, w) ∷ m) = ground (arith, find-assign j k v m)

  pub find-erase : (j k : ℕ) (m : Map V) → find j (erase k m) ≡ (if j == k then none else find j m)
  unfolding find erase
  find-erase j k [] = ground arith
  find-erase j k ((i, w) ∷ m) = ground (arith, find-erase j k m)

  -- All keys are above `k`.
  abbrev pub Above : ℕ → Map V → Type 0
  Above k [] = Unit {0}
  Above k ((j, w) ∷ m) = (k < j) × Above k m

  -- The keys ascend strictly, as in a map.
  abbrev pub IsMap : Map V → Type 0
  IsMap [] = Unit {0}
  IsMap ((j, w) ∷ m) = Above j m × IsMap m

  Above-trans : (i k : ℕ) (m : Map V) → i ≤ k → Above k m → Above i m
  Above-trans i k [] h a = tt
  Above-trans i k ((j, w) ∷ m) h a = (omega arith, Above-trans i k m h a.1)

  pub find_below : (i k : ℕ) (m : Map V) → i ≤ k → Above k m → find i m ≡ none
  unfolding find
  find_below i k [] h a = refl
  find_below i k ((j, w) ∷ m) h a = ground (arith, find_below i k m h a.1)

  assign-Above : (i k : ℕ) (v : V) (m : Map V) → i < k → Above i m → Above i (assign k v m)
  unfolding assign
  assign-Above i k v [] h a = (h, tt)
  assign-Above i k v ((j, w) ∷ m) h a = ground (arith, assign-Above i k v m h a.1)

  pub assign-IsMap : (k : ℕ) (v : V) (m : Map V) → IsMap m → IsMap (assign k v m)
  unfolding assign
  assign-IsMap k v [] s = (tt, tt)
  assign-IsMap k v ((j, w) ∷ m) s =
      ground (arith, assign-IsMap k v m s.1, assign-Above j k v m, Above-trans k j m)

  erase-Above : (i k : ℕ) (m : Map V) → Above i m → Above i (erase k m)
  unfolding erase
  erase-Above i k [] a = tt
  erase-Above i k ((j, w) ∷ m) a = ground (arith, erase-Above i k m a.1)

  pub erase-IsMap : (k : ℕ) (m : Map V) → IsMap m → IsMap (erase k m)
  unfolding erase
  erase-IsMap k [] s = tt
  erase-IsMap k ((j, w) ∷ m) s = ground (arith, erase-IsMap k m s.1, erase-Above j k m s.0)

  pub contains-find : (k : ℕ) (m : Map V) → contains k m ≡ is_some (find k m)
  unfolding contains find
  contains-find k [] = refl
  contains-find k ((j, w) ∷ m) = ground (arith, contains-find k m)

  pub length-assign :
      (k : ℕ) (v : V) (m : Map V) → find k m ≡ none → length (assign k v m) ≡ suc (length m)
  unfolding find assign
  length-assign k v [] e = refl
  length-assign k v ((j, w) ∷ m) e = ground (arith, length-assign k v m)
