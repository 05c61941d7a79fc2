-- ===== src/Images/Arguments.antt =====
-- Do the arguments that `ImageLoad` of src/hawkset.cpp passes match the parameters of the functions?
use mathlib.Core.List.{append-nil}
use mathlib.Core.Path.{ap₂}
use hawk_set.Config.{MutexFunctionInfo, MutexConfig}
use hawk_set.Images.{
  Function, try_lock_before, try_lock_after, trace_adq_rel_after, pthread_create_replacement,
  pthread_join_replacement, Insertion, instrument_lock_routine, instrument_adq_rel_routine,
  adquire_function, release_function, typed_calls, try_calls, adq_rel_calls, config_calls,
  configs_calls, replacements, image_load, ◌>>=◌,
}
use Prim.Native.String.{String}
use hawk_set.Handlers.{LockType, mutex_type, write_type, read_type}
use hawk_set.Registry.{Registry, register_special_mutex}
use hawk_set.Prelude.{
  ℕ, ◌≡◌, refl, ap, ◌∙◌, Bool, not, Option, none, some, List, [], ◌∷◌, ◌++◌, length, ◌==◌,
  if◌then◌else◌, arith,
}

-- The number of parameters of the functions of src/hawkset.cpp.
unfoldable pub parameters : Function → ℕ
parameters try_lock_before = 4
parameters try_lock_after = 6
parameters trace_adq_rel_after = 2
parameters pthread_create_replacement = 7
parameters pthread_join_replacement = 5
parameters _ = 3

-- The calls with another number of arguments: the function and their number.
unfoldable pub misfits : List Insertion → List (Function × ℕ)
unfolding parameters
misfits [] = []
misfits (i ∷ is) =
    let rest = misfits is in
    if length i.arguments == parameters i.function
    then rest
    else ((i.function, length i.arguments) ∷ rest)

-- Those of the functions that try to take a lock.
unfoldable pub try_misfits : (String → Bool) → List MutexFunctionInfo → List (Function × ℕ)
try_misfits found [] = []
try_misfits found (info ∷ infos) =
    let rest = try_misfits found infos in
    if not (found info.name)
    then rest
    else if info.use_result_arg
    then ((try_lock_after, 5) ∷ rest)
    else ((try_lock_before, 5) ∷ (try_lock_after, 5) ∷ rest)

unfoldable pub configs_misfits : (String → Bool) → List MutexConfig → List (Function × ℕ)
unfolding try_misfits
configs_misfits found [] = []
configs_misfits found (c ∷ cs) = try_misfits found c.try_adquire ++ configs_misfits found cs

-- Every function of the list has a type.
unfoldable pub AreTyped : List MutexFunctionInfo → Type 0
AreTyped [] = Unit
AreTyped (info ∷ infos) = ((t : LockType) × (info.type ≡ some t)) × AreTyped infos

unfoldable pub IsTyped : List MutexConfig → Type 0
unfolding AreTyped
IsTyped [] = Unit
IsTyped (c ∷ cs) = AreTyped c.adquire × AreTyped c.release × IsTyped cs

misfits-append : (xs ys : List Insertion) → misfits (xs ++ ys) ≡ misfits xs ++ misfits ys
unfolding misfits
misfits-append [] ys = refl
misfits-append (x ∷ xs) ys = ground (arith, misfits-append xs ys)

and_then :
    {A B : Type 0}
    → {o : Option A} → {a : A} → {r : Option B} → (f : A → Option B) → o ≡ some a
    → f a ≡ r
    → o >>= f ≡ r
and_then f e h = ap (◌>>= f) e ∙ h

module _ (found : String → Bool) where
  misfits-try_calls :
      (infos : List MutexFunctionInfo) → misfits (try_calls found infos) ≡ try_misfits found infos
  unfolding misfits try_calls try_misfits instrument_lock_routine
  misfits-try_calls [] = refl
  misfits-try_calls (info ∷ infos) = ground (arith, misfits-try_calls infos)

  misfits-adq_rel_calls :
      (special : ℕ) (names : List String) → misfits (adq_rel_calls found special names) ≡ []
  unfolding misfits adq_rel_calls instrument_adq_rel_routine
  misfits-adq_rel_calls special [] = refl
  misfits-adq_rel_calls special (name ∷ names) = ground (arith, misfits-adq_rel_calls special names)

  misfits-lock_calls :
      (f : Function)
      → parameters f ≡ 3
      → (info : MutexFunctionInfo) (calls : List Insertion)
      → misfits (instrument_lock_routine found f info none ++ calls) ≡ misfits calls
  unfolding misfits instrument_lock_routine
  misfits-lock_calls f three info calls = ground (arith, three)

  typed_calls-fit :
      (function : LockType → Function)
      → ((t : LockType) → parameters (function t) ≡ 3)
      → (infos : List MutexFunctionInfo) → AreTyped infos
      → (calls : List Insertion) × (typed_calls found function infos ≡ some calls)
        × (misfits calls ≡ [])
  unfolding typed_calls AreTyped misfits
  typed_calls-fit function three [] typed = ([], refl, refl)
  typed_calls-fit function three (info ∷ infos) typed =
      let rest = typed_calls-fit function three infos typed.1 in
      (
        instrument_lock_routine found (function typed.0.0) info none ++ rest.0,
        and_then _ typed.0.1 (and_then _ rest.1 refl),
        misfits-lock_calls (function typed.0.0) (three typed.0.0) info rest.0 ∙ rest.2,
      )

  adquire-three : (t : LockType) → parameters (adquire_function found t) ≡ 3
  unfolding parameters
  adquire-three mutex_type = refl
  adquire-three write_type = refl
  adquire-three read_type = refl

  release-three : (t : LockType) → parameters (release_function found t) ≡ 3
  unfolding parameters
  release-three mutex_type = refl
  release-three write_type = refl
  release-three read_type = refl

  config_calls-misfits :
      (c : MutexConfig)
      → AreTyped c.adquire
      → AreTyped c.release
      → (r : Registry)
      → (calls : List Insertion) × (config_calls found c r
          ≡ some (calls, (register_special_mutex r).1))
        × (misfits calls ≡ try_misfits found c.try_adquire)
  unfolding config_calls
  config_calls-misfits c a b r =
      let adquire = typed_calls-fit (adquire_function found) adquire-three c.adquire a in
      let release = typed_calls-fit (release_function found) release-three c.release b in
      let tries = try_calls found c.try_adquire in
      let rel = adq_rel_calls found r.lock_counter c.adq_rel in
      (
        adquire.0 ++ release.0 ++ tries ++ rel,
        and_then _ adquire.1 (and_then _ release.1 refl),
        misfits-append (adquire.0 ++ release.0 ++ tries) rel
            ∙ ap₂ ◌++◌
                (misfits-append (adquire.0 ++ release.0) tries
                  ∙ ap₂ ◌++◌ (misfits-append adquire.0 release.0 ∙ ap₂ ◌++◌ adquire.2 release.2)
                      (misfits-try_calls c.try_adquire))
                (misfits-adq_rel_calls r.lock_counter c.adq_rel)
            ∙ append-nil _,
      )

  configs_calls-misfits :
      (cs : List MutexConfig)
      → IsTyped cs
      → (r : Registry)
      → (out : List Insertion × Registry) × (configs_calls found cs r ≡ some out)
        × (misfits out.0 ≡ configs_misfits found cs)
  unfolding configs_calls configs_misfits IsTyped misfits
  configs_calls-misfits [] typed r = (([], r), refl, refl)
  configs_calls-misfits (c ∷ cs) typed r =
      let here = config_calls-misfits c typed.0 typed.1 r in
      let rest = configs_calls-misfits cs typed.2 (register_special_mutex r).1 in
      (
        (here.0 ++ rest.0.0, rest.0.1),
        and_then _ here.1 (and_then _ rest.1 refl),
        misfits-append here.0 rest.0.0 ∙ ap₂ ◌++◌ here.2 rest.2,
      )

  misfits-replacements : misfits (replacements found) ≡ []
  unfolding misfits replacements parameters
  misfits-replacements = ground arith

  -- When every function to acquire and to release has a type, an image is instrumented to the end,
  -- and of the calls that are inserted these have another number of arguments than their function
  -- has parameters, in this order: for each function to try that is found, `TryLockAfter` with 5 for
  -- its 6, and before it `TryLockBefore` with 5 for its 4 unless the result is an argument.
  pub image_load-misfits :
      (cs : List MutexConfig)
      → IsTyped cs
      → (r : Registry)
      → (out : List Insertion × Registry) × (image_load found cs r ≡ some out)
        × (misfits out.0 ≡ configs_misfits found cs)
  unfolding image_load
  image_load-misfits cs typed r =
      let calls = configs_calls-misfits cs typed r in
      (
        (calls.0.0 ++ replacements found, calls.0.1),
        and_then _ calls.1 refl,
        misfits-append calls.0.0 (replacements found)
            ∙ ap₂ ◌++◌ calls.2 misfits-replacements
            ∙ append-nil _,
      )
