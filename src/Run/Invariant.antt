-- ===== src/Run/Invariant.antt =====
-- What holds in every run under the tool, src/hawkset.cpp: whatever the threads do and in whatever
-- order, the pointers and indices that the tool keeps are good.
use Prim.Native.String.{String}
use hawk_set.Config.{CInt, Outcome, ok, exits, fault, ◌>>=◌, MutexConfig}
use hawk_set.PmAlloc.{Bytes}
use hawk_set.Protocol.{
  Pc, absent, born, announced, running, calling, waiting, put_pc, System, Step, enter, fail, spawn,
  announce, init, finish, join, exit, create_enter, create_finish, start_announce, start_init,
  join_finish,
}
use hawk_set.Run.{
  run_event, runs, first_start, main_start, alone, Happens, protocol, event, Run, here, next,
}
use hawk_set.Run.Sound.{run_event-After, create_enter-After, start_init-After, join_finish-After}
use hawk_set.Sound.{IsSound, IsStarted, Extends}
use hawk_set.Sound.Actions.{After, Any, After-same, After-inverse, Extends-refl, Extends-trans}
use hawk_set.Sound.Tables.{IsStarted-Extends}
use hawk_set.Sound.Threads.{process_thread_exit-After}
use hawk_set.Startup.{Knobs, initial, handle_knobs, import_configs}
use hawk_set.Threads.{process_thread_init, process_thread_exit}
use hawk_set.Tool.{Tool}
use hawk_set.Prelude.{
  ℕ, List, [], ◌≡◌, ◌⊎◌, inl, inr, refl, sym, ap, ◌∙◌, true, Option, none, some, ◌==◌, ==_iff,
  arith, Bool-cases,
}

-- The state's pointers are good, and a thread that runs has a clock.
abbrev pub IsValid : System → Type 0
IsValid s = IsSound s.tool × ((tid : ℕ) → runs (s.pc tid) ≡ true → IsStarted s.tool tid)

abbrev Follows : System → System → Type 0
Follows s s' = IsValid s' × Extends s.tool s'.tool

-- The tool's state and the places of the threads change.
follows :
    (s s' : System) (t : Tool) (pc : ℕ → Pc)
    → IsValid s
    → IsSound t × Extends s.tool t × (Unit {0})
    → ((u : ℕ) → runs (pc u) ≡ true → (runs (s.pc u) ≡ true) ⊎ IsStarted t u)
    → s'.tool ≡ t
    → s'.pc ≡ pc
    → Follows s s'
follows s s' t pc valid (sound, e, x) starts same_tool same_pc =
    rw (same_tool, same_pc) ((sound, started), e)
  where
    started : (u : ℕ) → runs (pc u) ≡ true → IsStarted t u
    started u h = elim (starts u h) [
      | inl k ↦ IsStarted-Extends s.tool t e u (valid.1 u k)
      | inr k ↦ k
    ]

-- A thread goes to another place.
put_pc-runs :
    (pc : ℕ → Pc) (p : ℕ) (y : Pc) (t : Tool)
    → (runs y ≡ true → (runs (pc p) ≡ true) ⊎ IsStarted t p)
    → (u : ℕ) → runs (put_pc pc p y u) ≡ true
    → (runs (pc u) ≡ true) ⊎ IsStarted t u
put_pc-runs pc p y t h u k = elim (Bool-cases (u == p)) [
  | inl e ↦ let same : u ≡ p = (==_iff u p).0 e in rw same (h (ground arith))
  | inr e ↦ inl (ground arith)
]

start_announce-After : (s : Tool) (tid : ℕ) → IsSound s → After s Any (start_announce tid s)
unfolding start_announce
start_announce-After s tid sound = After-same s _ Any tt refl refl refl sound tt

create_finish-After : (s : Tool) (memory : ℕ → ℕ) → IsSound s → After s Any (create_finish memory s)
unfolding create_finish
create_finish-After s memory sound = After-same s _ Any tt refl refl refl sound tt

module _ (memory : ℕ → ℕ) (s s' : System) (valid : IsValid s) where
  Step-Follows : Step memory s s' → Follows s s'
  Step-Follows (enter p pid t at_ free does e) =
      follows s s' t (put_pc s.pc p (calling pid)) valid
        (After-inverse s.tool Any (create_enter p pid s.tool) tt t
          (create_enter-After s.tool p pid valid.0) does)
        (put_pc-runs s.pc p (calling pid) t (λ h. inl (ap runs at_))) (ap (λ x. x.tool) e)
        (ap (λ x. x.pc) e)
  Step-Follows (fail p pid at_ e) =
      follows s s' s.tool (put_pc s.pc p running) valid (valid.0, Extends-refl s.tool, tt)
        (put_pc-runs s.pc p running s.tool (λ h. inl (ap runs at_))) (ap (λ x. x.tool) e)
        (ap (λ x. x.pc) e)
  Step-Follows (spawn p pid c at_ none_yet e) =
      follows s s' s.tool (put_pc (put_pc s.pc p (waiting pid c)) c born) valid
        (valid.0, Extends-refl s.tool, tt)
        (λ u h.
          put_pc-runs s.pc p (waiting pid c) s.tool (λ k. inl (ap runs at_)) u (ground (arith, h)))
        (ap (λ x. x.tool) e) (ap (λ x. x.pc) e)
  Step-Follows (announce c t at_ does e) =
      follows s s' t (put_pc s.pc c announced) valid
        (After-inverse s.tool Any (start_announce c s.tool) tt t
          (start_announce-After s.tool c valid.0) does)
        (put_pc-runs s.pc c announced t (λ h. absurd (ground arith))) (ap (λ x. x.tool) e)
        (ap (λ x. x.pc) e)
  Step-Follows (init c t at_ does e) =
      let (sound, e', started) =
        After-inverse s.tool (λ t' x. IsStarted t' c) (start_init c s.tool) tt t
          (start_init-After s.tool c valid.0) does in
      follows s s' t (put_pc s.pc c running) valid (sound, e', tt)
        (put_pc-runs s.pc c running t (λ h. inr started)) (ap (λ x. x.tool) e) (ap (λ x. x.pc) e)
  Step-Follows (finish p pid c t at_ set_ does e) =
      follows s s' t (put_pc s.pc p running) valid
        (After-inverse s.tool Any (create_finish memory s.tool) tt t
          (create_finish-After s.tool memory valid.0) does)
        (put_pc-runs s.pc p running t (λ h. inl (ap runs at_))) (ap (λ x. x.tool) e)
        (ap (λ x. x.pc) e)
  Step-Follows (join p result pid t at_ does e) =
      follows s s' t s.pc valid
        (After-inverse s.tool Any (join_finish p result pid s.tool) tt t
          (join_finish-After s.tool p result pid valid.0) does)
        (λ u h. inl h) (ap (λ x. x.tool) e) (ap (λ x. x.pc) e)
  Step-Follows (exit p t at_ does e) =
      follows s s' t (put_pc s.pc p absent) valid
        (After-inverse s.tool Any (process_thread_exit p s.tool) tt t
          (process_thread_exit-After s.tool p valid.0 (valid.1 p (ap runs at_))) does)
        (put_pc-runs s.pc p absent t (λ h. absurd (ground arith))) (ap (λ x. x.tool) e)
        (ap (λ x. x.pc) e)

  Happens-Follows : (readlink : ℕ → Option Bytes) → Happens memory readlink s s' → Follows s s'
  Happens-Follows readlink (protocol step) = Step-Follows step
  Happens-Follows readlink (event tid e t at_ does same) =
      follows s s' t s.pc valid
        (After-inverse s.tool Any (run_event readlink tid e s.tool) tt t
          (run_event-After readlink s.tool tid e valid.0 (valid.1 tid at_)) does)
        (λ u h. inl h) (ap (λ x. x.tool) same) (ap (λ x. x.pc) same)

module _ (memory : ℕ → ℕ) (readlink : ℕ → Option Bytes) where
  -- Take a run of any number of threads, in any order of their steps, from a state whose pointers are
  -- good. They are good at its end: a recorded store has a lockset of the cache or the empty one, an
  -- index of one of its thread's clocks, the trace of its write, and, if it is persisted, the trace of
  -- its fence; a recorded load has such a clock, trace and locksets; a store that is not recorded yet
  -- has a timed lockset of the cache and a trace; the pointer that a thread remembers is that of the
  -- locks that it holds; and a thread that runs has a clock. The locksets, traces and clocks of the
  -- first state are still there, in their places.
  pub Run-Follows :
      (start s : System)
      → IsValid start
      → Run memory readlink start s
      → IsValid s × Extends start.tool s.tool
  Run-Follows start s valid here = (valid, Extends-refl start.tool)
  Run-Follows start s valid (next {s = s1} run step) =
      let (valid1, e1) = Run-Follows start s1 valid run in
      let (valid2, e2) = Happens-Follows memory s1 s valid1 readlink step in
      (valid2, Extends-trans start.tool s1.tool s.tool e1 e2)

-- The start of the first thread in the tool as it is set up returns, and the pointers of the state
-- that it leaves are good, with a clock for the thread.
first_start-IsValid :
    (knobs : Knobs) → (t : Tool) × (first_start (initial knobs) ≡ some (tt, t)) × IsValid (alone t)
unfolding first_start start_announce start_init process_thread_init initial
first_start-IsValid knobs =
    let set_up : Tool = record (initial knobs) { created_thread_id = 0 } in
    let fresh : IsSound set_up =
      λ tid. record { stores = tt; loads = tt; written = tt; flushed = tt; remembered = tt } in
    let (sound, e, clock) =
      After-inverse set_up (λ s' x. IsStarted s' 0) (start_init 0 set_up) tt _
        (start_init-After set_up 0 fresh) refl in
    (
      _,
      refl,
      (sound, λ tid h. let first : tid ≡ 0 = ground (arith, ==_iff tid 0) in rw first clock),
    )

-- When the configuration files are good, the first thread starts in the state of `HandleKnobs`.
pub main_start-first :
    (atoi : String → CInt) (knobs : Knobs) (o : Option (Unit {0} × Tool))
    → main_start atoi knobs ≡ ok o
    → first_start (initial knobs) ≡ o
unfolding main_start handle_knobs
main_start-first atoi knobs o h = go (import_configs atoi knobs.config_files []) h
  where
    with_configs : List MutexConfig → Tool × List MutexConfig
    with_configs configs = (initial knobs, configs)

    go :
        (x : Outcome (List MutexConfig))
        → (x >>= λ configs. ok (with_configs configs)) >>= (λ set_up. ok (first_start set_up.0))
          ≡ ok o
        → first_start (initial knobs) ≡ o
    go (ok configs) e =
        ap (λ (y : Outcome (Option (Unit {0} × Tool))). elim y [ ok z ↦ z | exits ↦ o | fault ↦ o ])
          e
    go exits e = cc
    go fault e = cc

pub started-IsValid :
    (atoi : String → CInt) (knobs : Knobs) (t : Tool)
    → main_start atoi knobs ≡ ok (some (tt, t))
    → IsValid (alone t)
started-IsValid atoi knobs t begun =
    let started : first_start (initial knobs) ≡ some (tt, t) =
      main_start-first atoi knobs (some (tt, t)) begun in
    let (u, returned, valid) = first_start-IsValid knobs in
    let same : u ≡ t =
      ap (λ (o : Option (Unit {0} × Tool)). elim o [ none ↦ u | some (x, w) ↦ w ])
        (sym returned ∙ started) in
    rw (← same) valid
