-- ===== src/Handlers/TryLock.antt =====
-- The pair of routines around a function that tries to take a lock: `TryLockBefore` and
-- `TryLockAfter` of src/hawkset.cpp.
use hawk_set.Handlers.{
  LockType, mutex_type, write_type, read_type, try_lock_before, try_lock_after, try_instruction,
  taken, try_process,
}
use hawk_set.Registry.Laws.{IsRegistry}
use hawk_set.Threads.{acquire, process_lock}
use hawk_set.Threads.Locks.{
  held, after_action, meaning, Acts, process_lock-Acts, held-same, after_action-same,
}
use hawk_set.Tool.{ThreadData, Tool, ◌>>◌, pure, put_thread, put_same, put_other}
use hawk_set.Prelude.{
  ℕ, ◌+◌, ◌^◌, ◌<◌, ◌≡◌, ◌≢◌, refl, sym, ap, subst, ◌∙◌, Bool, true, false, not, ◌&&◌, Option, none,
  some, ◌==◌, if◌then◌else◌, Bool-cases, inl, inr,
}

-- Did the call of the program succeed? `use_arg` says that the result is a `bool` in memory.
abbrev pub succeeded : (ℕ → ℕ) → ℕ → ℕ → ℕ → Bool → Bool → Bool
succeeded memory result_address result success negate true = elim negate [
  | true ↦ not ((if memory result_address == 0 then 0 else 1) == success)
  | false ↦ (if memory result_address == 0 then 0 else 1) == success
]
succeeded memory result_address result success negate false = elim negate [
  | true ↦ not (result == success)
  | false ↦ result == success
]

try_instruction-action : (locktype : LockType) → meaning (try_instruction locktype) ≡ acquire
unfolding meaning try_instruction
try_instruction-action mutex_type = refl
try_instruction-action write_type = refl
try_instruction-action read_type = refl

taken_lem :
    (memory : ℕ → ℕ) (t : ThreadData) (result success : ℕ) (negate use_arg : Bool)
    → taken memory t result success negate use_arg
      ≡ succeeded memory t.result_address result success negate use_arg
unfolding taken
taken_lem memory t result success true true = refl
taken_lem memory t result success true false = refl
taken_lem memory t result success false true = refl
taken_lem memory t result success false false = refl

-- Is it one of the enumerators?
abbrev pub is_known : Option LockType → Bool
is_known none = false
is_known (some locktype) = true

module _ (s : Tool) (memory : ℕ → ℕ) (tid ret_addr mutex result_address result success : ℕ)
    (negate use_arg : Bool) where
  abbrev t : ThreadData
  t = record (s.analysis_data_tls tid) {
    try_lock_mutex = mutex;
    result_address = result_address;
    try_lock_return_address = ret_addr;
  }

  abbrev noted : Tool
  noted = record s { analysis_data_tls = put_thread s.analysis_data_tls tid t }

  abbrev d : ThreadData
  d = noted.analysis_data_tls tid

  same : d ≡ t
  same = put_same s.analysis_data_tls tid t

  kept : d.current_timedlockset ≡ (s.analysis_data_tls tid).current_timedlockset
  kept = ap (λ (x : ThreadData). x.current_timedlockset) same

  times : d.lock_clock ≡ (s.analysis_data_tls tid).lock_clock
  times = ap (λ (x : ThreadData). x.lock_clock) same

  took :
      taken memory d result success negate use_arg
      ≡ succeeded memory result_address result success negate use_arg
  took =
      ap (λ x. taken memory x result success negate use_arg) same
      ∙ taken_lem memory t result success negate use_arg

  -- What the pair of routines returns, and what the thread holds if it has taken the lock or not.
  abbrev Result : Option LockType → Bool → Type 0
  Result locktype b =
      (s' : Tool) × ((try_lock_before tid ret_addr mutex result_address
            >> try_lock_after memory tid result success negate use_arg locktype)
          s
        ≡ some (tt, s'))
      × ((address : ℕ)
          → held s' tid address
            ≡ (if b then after_action acquire s tid mutex address else held s tid address))
      × ((u : ℕ) → u ≢ tid → s'.analysis_data_tls u ≡ s.analysis_data_tls u)

  -- Nothing is done after the call.
  not_taken :
      (locktype : Option LockType)
      → ((if taken memory d result success negate use_arg
              then try_process tid d.try_lock_mutex locktype
              else pure tt)
            noted
          ≡ some (tt, noted))
      → Result locktype false
  unfolding try_lock_before try_lock_after
  not_taken locktype run = (
    noted,
    run,
    (λ address. held-same s noted tid mutex address refl kept times),
    (λ u other. put_other s.analysis_data_tls tid u t other),
  )

  no_case : Result none false
  unfolding try_process
  no_case = not_taken none (elim (Bool-cases (taken memory d result success negate use_arg)) [
    | inl e ↦ ap (λ b. (if b then pure tt else pure tt) noted) e
    | inr e ↦ ap (λ b. (if b then pure tt else pure tt) noted) e
  ])

  some_case :
      (locktype : LockType)
      → s.registry.lock_counter + 1 < 2 ^ 64
      → IsRegistry s.registry
      → Result (some locktype) (succeeded memory result_address result success negate use_arg)
  unfolding try_lock_before try_lock_after try_process
  some_case locktype room v =
      elim (Bool-cases (succeeded memory result_address result success negate use_arg)) [
        | inr e ↦ subst (Result (some locktype)) (sym e) (
            not_taken (some locktype) (
              ap
                (λ b.
                  (if b
                      then process_lock tid (try_instruction locktype) d.try_lock_mutex false
                      else pure tt)
                    noted)
                (took ∙ e)))
        | inl e ↦
            let (s', run, holds, others) = won in
            subst (Result (some locktype)) (sym e) (
              s',
              ap
                    (λ b.
                      (if b
                          then process_lock tid (try_instruction locktype) d.try_lock_mutex false
                          else pure tt)
                        noted)
                    (took ∙ e)
                  ∙ (ap (λ m. process_lock tid (try_instruction locktype) m false noted)
                        (ap (λ (x : ThreadData). x.try_lock_mutex) same)
                      ∙ run),
              (λ address.
                  holds address
                  ∙ after_action-same s noted tid mutex address refl kept times acquire),
              (λ u other. others u other ∙ put_other s.analysis_data_tls tid u t other),
            )
      ]
    where
      won : Acts acquire tid mutex (process_lock tid (try_instruction locktype) mutex false) noted
      won =
          subst
            (λ a. Acts a tid mutex (process_lock tid (try_instruction locktype) mutex false) noted)
            (try_instruction-action locktype)
            (process_lock-Acts noted tid (try_instruction locktype) mutex room v)

-- The routines before and after a call that tries to take a lock, with nothing between them, when
-- the numbers of the locks are distinct and below their counter, which does not wrap: they return,
-- and the thread comes to hold the lock if the call succeeded and the type of the lock is one of the
-- enumerators of `LockType`, and holds what it held if not; every other lock is as before, and so are
-- the other threads.
pub try_lock_lem :
    (s : Tool) (memory : ℕ → ℕ) (tid ret_addr mutex result_address result success : ℕ)
    (negate use_arg : Bool) (locktype : Option LockType)
    → s.registry.lock_counter + 1 < 2 ^ 64
    → IsRegistry s.registry
    → (s' : Tool) × ((try_lock_before tid ret_addr mutex result_address
            >> try_lock_after memory tid result success negate use_arg locktype)
          s
        ≡ some (tt, s'))
      × ((address : ℕ)
          → held s' tid address ≡ (
              if is_known locktype && succeeded memory result_address result success negate use_arg
              then after_action acquire s tid mutex address
              else held s tid address))
      × ((u : ℕ) → u ≢ tid → s'.analysis_data_tls u ≡ s.analysis_data_tls u)
try_lock_lem s memory tid ret_addr mutex result_address result success negate use_arg none room v =
    no_case s memory tid ret_addr mutex result_address result success negate use_arg
try_lock_lem s memory tid ret_addr mutex result_address result success negate use_arg
      (some locktype) room v =
    some_case s memory tid ret_addr mutex result_address result success negate use_arg locktype room
      v
