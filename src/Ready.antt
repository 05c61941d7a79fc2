-- ===== src/Ready.antt =====
-- When the routines of src/hawkset.cpp stop the process, and what keeps them from it: the numbers of
-- the threads fit in 64 bits, and a mapping that waits for its address is there.
pub mod Memory
pub mod Fence
pub mod Calls
pub mod Events
pub mod Runs
use hawk_set.Heuristic.Room.{IsSmall}
use hawk_set.PmAlloc.{PmAllocs, PmAllocation}
use hawk_set.Tool.{Tool, M, ◌>>=◌}
use hawk_set.Prelude.{
  ℕ, ◌≡◌, refl, subst, Bool, true, false, Option, none, some, List, [], ◌∷◌, if◌then◌else◌,
}

abbrev pub IsPresent : {A : Type 0} → List A → Type 0
IsPresent [] = ⊥
IsPresent (x ∷ xs) = Unit {0}

-- A mapping that waits for its address is there.
abbrev pub IsAwaited : PmAllocs → Type 0
IsAwaited p = p.found_alloc ≡ true → IsPresent p.allocs

abbrev pub IsReady : Tool → Type 0
IsReady s = IsSmall s.accesses.variable_accessed_map × IsAwaited s.pm

-- A step that returns leaves a state that is ready, and it returns if `fits` holds.
unfoldable pub Ends : {A : Type 0} → Type 0 → Option (A × Tool) → Type 0
Ends fits none = ¬ fits
Ends fits (some (a, s)) = IsReady s

pub Ends-none : (A : Type 0) (fits : Type 0) → ¬ fits → Ends {A = A} fits none
unfolding Ends
Ends-none A fits h = h

module _ {A : Type 0} (fits : Type 0) where
  pub Ends-some : (a : A) (s : Tool) → IsReady s → Ends fits (some (a, s))
  unfolding Ends
  Ends-some a s ready = ready

  pub Ends-choose :
      (s : Tool) (b : Bool) (m n : M A)
      → Ends fits (m s)
      → Ends fits (n s)
      → Ends fits ((if b then m else n) s)
  Ends-choose s true m n h k = h
  Ends-choose s false m n h k = k

  pub Ends-if :
      (b : Bool) (o p : Option (A × Tool))
      → Ends fits o
      → Ends fits p
      → Ends fits (if b then o else p)
  Ends-if true o p h k = h
  Ends-if false o p h k = k

  -- Under a stronger condition.
  pub Ends-weaken :
      (less : Type 0) (o : Option (A × Tool)) → (fits → less) → Ends less o → Ends fits o
  unfolding Ends
  Ends-weaken less none f h = λ x. h (f x)
  Ends-weaken less (some (a, s)) f h = h

  -- What it says of a result, and that there is one.
  pub Ends-inverse :
      (o : Option (A × Tool))
      → Ends fits o
      → ((a : A) (s : Tool) → o ≡ some (a, s) → IsReady s)
        × (fits → (a : A) × (s : Tool) × (o ≡ some (a, s)))
  unfolding Ends
  Ends-inverse none h = ((λ a s e. cc), λ f. absurd (h f))
  Ends-inverse (some (a, s)) h = ((λ b t e. subst (Ends fits) e h), λ f. (a, s, refl))

pub Ends-bind :
    {A B : Type 0} (fits : Type 0) (m : M A) (f : A → M B) (s : Tool)
    → Ends fits (m s)
    → ((a : A) (s' : Tool) → IsReady s' → Ends fits (f a s'))
    → Ends fits ((m >>= f) s)
unfolding Ends
Ends-bind {A} {B} fits m f s first rest = go (m s) first
  where
    go :
        (o : Option (A × Tool))
        → Ends fits o
        → Ends fits (elim o [ none ↦ none | some (a, t) ↦ f a t ])
    go none h = h
    go (some (a, t)) h = rest a t h
