-- ===== src/Memory/Recorded.antt =====
-- The records of stores that become persisted, one by one: `RegisterUnpersistedStore`'s and
-- `ProcessFence`'s `race_likely_stores.push_back` of src/hawkset.cpp.
use hawk_set.Backtrace.{Trace}
use hawk_set.Cache.{TimedPtr}
use hawk_set.Heuristic
use hawk_set.Heuristic.{Accesses}
use hawk_set.Map.{Map}
use hawk_set.Memory.{record_store}
use hawk_set.Tool.{
  StoreFenceData, StoreData, MemState, ThreadData, Tool, put_same, put_other, handle_access_byte,
  clock_index,
}
use hawk_set.Prelude.{
  ℕ, ◌≡◌, ◌≢◌, refl, sym, subst, ap, ◌∙◌, Bool, true, false, none, some, List, [], ◌∷◌, ◌++◌, ◌+◌,
  ◌-◌, ◌%◌, ◌^◌, length,
}

-- The answers of the heuristic on the bytes of a line, in their order: what is kept, and the
-- accesses before and after.
pub data Heard (n tid : ℕ) : Accesses → Map StoreData → Map StoreData → Accesses → Type 0 where
  done : {a : Accesses} → Heard n tid a [] [] a
  keep :
      {a b c : Accesses} {address : ℕ} {stored : StoreData} {rest kept : Map StoreData}
      → Heuristic.handle_access_byte n tid address a ≡ some (true, b)
      → Heard n tid b rest kept c
      → Heard n tid a ((address, stored) ∷ rest) ((address, stored) ∷ kept) c
  drop :
      {a b c : Accesses} {address : ℕ} {stored : StoreData} {rest kept : Map StoreData}
      → Heuristic.handle_access_byte n tid address a ≡ some (false, b)
      → Heard n tid b rest kept c
      → Heard n tid a ((address, stored) ∷ rest) kept c

-- The same for the lines.
pub data HeardLines (n tid : ℕ) : Accesses → MemState → Map StoreData → Accesses → Type 0 where
  done : {a : Accesses} → HeardLines n tid a [] [] a
  next :
      {a b c : Accesses} {cl : ℕ} {line kept kept' : Map StoreData} {rest : MemState}
      → Heard n tid a line kept b
      → HeardLines n tid b rest kept' c
      → HeardLines n tid a ((cl, line) ∷ rest) (kept ++ kept') c

-- The record of a persisted store, at a clock of its thread.
abbrev pub Persisted : ℕ → List StoreFenceData → Map StoreData → Type 0
Persisted clock [] [] = Unit {0}
Persisted clock [] (x ∷ xs) = ⊥
Persisted clock (r ∷ rs) [] = ⊥
Persisted clock (r ∷ rs) ((address, stored) ∷ rest) =
    ((r.address ≡ address)
      × (r.write_trace ≡ stored.backtrace)
      × (r.clock_i ≡ clock)
      × (r.persisted ≡ true)
      × (r.was_flushed ≡ true))
    × Persisted clock rs rest

pub Persisted-append :
    (clock : ℕ) (rs rs' : List StoreFenceData) (kept kept' : Map StoreData)
    → Persisted clock rs kept
    → Persisted clock rs' kept'
    → Persisted clock (rs ++ rs') (kept ++ kept')
Persisted-append clock [] rs' [] kept' h h' = h'
Persisted-append clock [] rs' (x ∷ kept) kept' h h' = absurd h
Persisted-append clock (r ∷ rs) rs' [] kept' h h' = absurd h
Persisted-append clock (r ∷ rs) rs' ((address, stored) ∷ kept) kept' h h' =
    (h.0, Persisted-append clock rs rs' kept kept' h.1 h')

-- The step from `s` to `s'` adds records for `kept` and leaves the rest of the threads alone.
abbrev pub Step : ℕ → Tool → Tool → Map StoreData → Accesses → Type 0
Step tid s s' kept a =
    (rs : List StoreFenceData) × ((s'.analysis_data_tls tid).race_likely_stores
      ≡ (s.analysis_data_tls tid).race_likely_stores ++ rs)
    × Persisted (clock_index (s.analysis_data_tls tid)) rs kept
    × ((s'.analysis_data_tls tid).vector_clocks ≡ (s.analysis_data_tls tid).vector_clocks)
    × ((s'.analysis_data_tls tid).mem_state ≡ (s.analysis_data_tls tid).mem_state)
    × ((u : ℕ) → u ≢ tid → s'.analysis_data_tls u ≡ s.analysis_data_tls u)
    × (s'.accesses ≡ a)
    × (s'.use_init_removal_heuristic_n ≡ s.use_init_removal_heuristic_n)

pub record_store-Step :
    (s : Tool) (tid address : ℕ) (stored : StoreData) (current : TimedPtr) (trace : Trace)
    → (s' : Tool) × (record_store tid address stored current (some trace) true true s
        ≡ some (tt, s'))
      × Step tid s s' ((address, stored) ∷ []) s.accesses
unfolding record_store
record_store-Step s tid address stored current trace = (
  _,
  refl,
  (
    _,
    ap (λ t. t.race_likely_stores) (put_same s.analysis_data_tls tid _),
    ((refl, refl, refl, refl, refl), tt),
    ap (λ t. t.vector_clocks) (put_same s.analysis_data_tls tid _),
    ap (λ t. t.mem_state) (put_same s.analysis_data_tls tid _),
    (λ u other. put_other s.analysis_data_tls tid u _ other),
    refl,
    refl,
  ),
)

pub append_nil {ℓ} : {A : Type ℓ} (xs : List A) → xs ++ [] ≡ xs
append_nil [] = refl
append_nil (x ∷ xs) = ap (x ∷◌) (append_nil xs)

pub append_assoc {ℓ} : {A : Type ℓ} (xs ys zs : List A) → (xs ++ ys) ++ zs ≡ xs ++ (ys ++ zs)
append_assoc [] ys zs = refl
append_assoc (x ∷ xs) ys zs = ap (x ∷◌) (append_assoc xs ys zs)

pub clock_index_same :
    (t u : ThreadData) → t.vector_clocks ≡ u.vector_clocks → clock_index t ≡ clock_index u
unfolding clock_index
clock_index_same t u h = ap (λ vcs. (length vcs + 2 ^ 64 - 1) % 2 ^ 64 % 2 ^ 16) h

pub Step-none : (tid : ℕ) (s : Tool) → Step tid s s [] s.accesses
Step-none tid s = ([], sym (append_nil _), tt, refl, refl, (λ u other. refl), refl, refl)

pub Step-trans :
    (tid : ℕ) (s s' s'' : Tool) (kept kept' : Map StoreData) (a b : Accesses)
    → Step tid s s' kept a
    → Step tid s' s'' kept' b
    → Step tid s s'' (kept ++ kept') b
Step-trans tid s s' s'' kept kept' a b (rs, r, q, v, m, o, h, n) (rs', r', q', v', m', o', h', n') =
    (
      rs ++ rs',
      r' ∙ (ap (◌++ rs') r ∙ append_assoc _ rs rs'),
      Persisted-append _ rs rs' kept kept' q
          (subst (λ t. Persisted t rs' kept') (clock_index_same _ _ v) q'),
      v' ∙ v,
      m' ∙ m,
      (λ u other. o' u other ∙ o u other),
      h',
      n' ∙ n,
    )

pub heard_value :
    (s : Tool) (tid address n : ℕ) (answer : Bool) (a b : Accesses)
    → s.use_init_removal_heuristic_n ≡ n
    → s.accesses ≡ a
    → Heuristic.handle_access_byte n tid address a ≡ some (answer, b)
    → handle_access_byte tid address s ≡ some (answer, record s { accesses = b })
unfolding handle_access_byte
heard_value s tid address n answer a b en ea answers =
    ap (λ o. elim o [ none ↦ none | some (m, c) ↦ some (m, record s { accesses = c }) ])
      (ap (λ m. Heuristic.handle_access_byte m tid address s.accesses) en
        ∙ (ap (Heuristic.handle_access_byte n tid address) ea ∙ answers))

-- A step that changes what the heuristic knows only.
pub Step-heard : (tid : ℕ) (s : Tool) (b : Accesses) → Step tid s (record s { accesses = b }) [] b
Step-heard tid s b = ([], sym (append_nil _), tt, refl, refl, (λ u other. refl), refl, refl)
