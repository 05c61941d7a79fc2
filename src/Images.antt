-- ===== src/Images.antt =====
-- What the tool inserts into an image that is loaded: `ImageLoad` of src/hawkset.cpp, and
-- `InstrumentLockRoutine` and `InstrumentAdqRelRoutine` of src/utils.hpp. `found` says whether PIN
-- finds a routine of a name in the image (`RTN_FindByName` and `RTN_Valid`).
pub mod Arguments
use Prim.Native.String.{String}
use hawk_set.Config.{MutexFunctionInfo, MutexConfig}
use hawk_set.Handlers.{LockType, mutex_type, write_type, read_type}
use hawk_set.Registry.{Registry, register_special_mutex}
use hawk_set.Prelude.{
  ℕ, ℤ, pos, Bool, true, false, Option, none, some, List, [], ◌∷◌, ◌++◌, if◌then◌else◌, map,
}

-- The functions of the tool that are inserted (`AFUNPTR`).
pub data Function : Type 0 where
  lock_before write_lock_before read_lock_before : Function
  unlock_before rw_unlock_before : Function
  try_lock_before try_lock_after : Function
  trace_adq_rel_before trace_adq_rel_after : Function
  pthread_create_replacement pthread_join_replacement : Function

infixl 5 ◌>>=◌
abbrev pub ◌>>=◌ : {A B : Type 0} → Option A → (A → Option B) → Option B
none >>= f = none
some a >>= f = f a

-- `IARG_…`, with the value that follows; `locktype` is a value that may not be set.
pub data Argument : Type 0 where
  thread_id return_ip orig_funcptr const_context funcret_exitpoint_value : Argument
  funcarg_entrypoint_value uint64 : ℤ → Argument
  locktype : Option LockType → Argument

pub data Point : Type 0 where
  before after replace : Point

pub record Insertion : Type 0 where
  pub routine : String
  pub point : Point
  pub function : Function
  pub arguments : List Argument

abbrev flag : Bool → Argument
flag false = uint64 (pos 0)
flag true = uint64 (pos 1)

module _ (found : String → Bool) where
  abbrev pub lock_calls : Function → MutexFunctionInfo → Option Function → List Insertion
  lock_calls before_ptr info (some after_ptr) =
      record {
        routine = info.name;
        point = before;
        function = before_ptr;
        arguments =
            if info.use_result_arg
            then (thread_id
                ∷ return_ip
                ∷ funcarg_entrypoint_value info.mutex_id_arg.0
                ∷ funcarg_entrypoint_value info.result_id_arg.0
                ∷ [])
            else (thread_id
                ∷ return_ip
                ∷ funcarg_entrypoint_value info.mutex_id_arg.0
                ∷ uint64 (pos 0)
                ∷ locktype info.type
                ∷ []);
      }
      ∷ record {
        routine = info.name;
        point = after;
        function = after_ptr;
        arguments =
            thread_id
            ∷ funcret_exitpoint_value
            ∷ uint64 info.success_value.0
            ∷ flag info.success_is_failure
            ∷ flag info.use_result_arg
            ∷ [];
      }
      ∷ []
  lock_calls before_ptr info none =
      record {
        routine = info.name;
        point = before;
        function = before_ptr;
        arguments = thread_id ∷ return_ip ∷ funcarg_entrypoint_value info.mutex_id_arg.0 ∷ [];
      }
      ∷ []

  -- `InstrumentLockRoutine`
  unfoldable pub instrument_lock_routine :
      Function → MutexFunctionInfo → Option Function → List Insertion
  instrument_lock_routine before_ptr info after_ptr =
      if found info.name then lock_calls before_ptr info after_ptr else []

  -- `InstrumentAdqRelRoutine`
  unfoldable pub instrument_adq_rel_routine : String → Function → Function → ℕ → List Insertion
  instrument_adq_rel_routine name before_ptr after_ptr value =
      if found name
      then (record {
        routine = name;
        point = before;
        function = before_ptr;
        arguments = thread_id ∷ return_ip ∷ uint64 (pos value) ∷ [];
      }
          ∷ record {
            routine = name;
            point = after;
            function = after_ptr;
            arguments = thread_id ∷ uint64 (pos value) ∷ [];
          }
          ∷ [])
      else []

  abbrev pub adquire_function : LockType → Function
  adquire_function mutex_type = lock_before
  adquire_function write_type = write_lock_before
  adquire_function read_type = read_lock_before

  abbrev pub release_function : LockType → Function
  release_function mutex_type = unlock_before
  release_function _ = rw_unlock_before

  -- The loops over `adquire` and over `release`; a test of a type that is not set has no result.
  unfoldable pub typed_calls :
      (LockType → Function) → List MutexFunctionInfo → Option (List Insertion)
  unfolding instrument_lock_routine
  typed_calls function [] = some []
  typed_calls function (info ∷ infos) = do
    t ← info.type
    rest ← typed_calls function infos
    some (instrument_lock_routine (function t) info none ++ rest)

  unfoldable pub try_calls : List MutexFunctionInfo → List Insertion
  unfolding instrument_lock_routine
  try_calls [] = []
  try_calls (info ∷ infos) =
      instrument_lock_routine try_lock_before info (some try_lock_after) ++ try_calls infos

  unfoldable pub adq_rel_calls : ℕ → List String → List Insertion
  unfolding instrument_adq_rel_routine
  adq_rel_calls special [] = []
  adq_rel_calls special (name ∷ names) =
      instrument_adq_rel_routine name trace_adq_rel_before trace_adq_rel_after special
      ++ adq_rel_calls special names

  -- A turn of the loop over the configurations.
  unfoldable pub config_calls : MutexConfig → Registry → Option (List Insertion × Registry)
  unfolding typed_calls try_calls adq_rel_calls register_special_mutex
  config_calls c r = do
    adquire ← typed_calls adquire_function c.adquire
    release ← typed_calls release_function c.release
    let (special, r') = register_special_mutex r
    some (adquire ++ release ++ try_calls c.try_adquire ++ adq_rel_calls special c.adq_rel, r')

  unfoldable pub configs_calls : List MutexConfig → Registry → Option (List Insertion × Registry)
  unfolding config_calls
  configs_calls [] r = some ([], r)
  configs_calls (c ∷ cs) r = do
    here ← config_calls c r
    rest ← configs_calls cs here.1
    some (here.0 ++ rest.0, rest.1)

  unfoldable pub replacements : List Insertion
  replacements =
      (if found "pthread_create"
        then (record {
          routine = "pthread_create";
          point = replace;
          function = pthread_create_replacement;
          arguments =
              thread_id
              ∷ orig_funcptr
              ∷ const_context
              ∷ map (λ n. funcarg_entrypoint_value (pos n)) (0 ∷ 1 ∷ 2 ∷ 3 ∷ []);
        }
            ∷ [])
        else [])
      ++ (if found "pthread_join"
          then (record {
            routine = "pthread_join";
            point = replace;
            function = pthread_join_replacement;
            arguments =
                thread_id
                ∷ orig_funcptr
                ∷ const_context
                ∷ map (λ n. funcarg_entrypoint_value (pos n)) (0 ∷ 1 ∷ []);
          }
              ∷ [])
          else [])

  -- `ImageLoad`
  unfoldable pub image_load : List MutexConfig → Registry → Option (List Insertion × Registry)
  unfolding configs_calls replacements
  image_load configs r = do calls ← configs_calls configs r; some (calls.0 ++ replacements, calls.1)
