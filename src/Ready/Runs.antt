-- ===== src/Ready/Runs.antt =====
-- In runs of at most 64 threads, no routine of src/hawkset.cpp stops the process without a cause.
use Prim.Native.String.{String}
use hawk_set.Config.{CInt, ok}
use hawk_set.Run.Invariant.{main_start-first}
use hawk_set.Map
use hawk_set.PmAlloc.{Bytes}
use hawk_set.Protocol.{
  System, Step, enter, fail, spawn, announce, init, finish, join, exit, create_enter, create_finish,
  start_announce, start_init, join_finish, tid_of,
}
use hawk_set.Races.{tls_max_size}
use hawk_set.Ready.{IsReady, Ends, Ends-some, Ends-none, Ends-choose, Ends-bind, Ends-inverse}
use hawk_set.Ready.Events.{Fits, run_event-Returns}
use hawk_set.Ready.Fence.{process_thread_exit-Ends}
use hawk_set.Run.{
  Event, run_event, runs, first_start, main_start, alone, Happens, protocol, event, Run, here, next,
}
use hawk_set.Startup.{Knobs, initial}
use hawk_set.Threads.{
  process_thread_create, process_thread_init, process_thread_join, process_thread_exit,
}
use hawk_set.Tool.{Tool, ◌>>=◌, pure}
use hawk_set.Prelude.{
  ℕ, ◌<◌, ◌≡◌, ap, sym, subst, Bool, true, false, not, Option, none, some, ltb, ◌==◌, if◌then◌else◌,
}

-- The steps of the threads' life leave a state that is ready.
module _ (s : Tool) (ready : IsReady s) where
  create_enter-Ends : (tid pid : ℕ) → Ends (Unit {0}) (create_enter tid pid s)
  unfolding create_enter process_thread_create
  create_enter-Ends tid pid = Ends-some (Unit {0}) tt _ ready

  create_finish-Ends : (memory : ℕ → ℕ) → Ends (Unit {0}) (create_finish memory s)
  unfolding create_finish
  create_finish-Ends memory = Ends-some (Unit {0}) tt _ ready

  start_announce-Ends : (tid : ℕ) → Ends (Unit {0}) (start_announce tid s)
  unfolding start_announce
  start_announce-Ends tid = Ends-some (Unit {0}) tt _ ready

  start_init-Ends : (tid : ℕ) → Ends (ltb tid tls_max_size ≡ true) (start_init tid s)
  unfolding start_init process_thread_init
  start_init-Ends tid = go (ltb tid tls_max_size) _ ready
    where
      go :
          (b : Bool) (t : Tool) → IsReady t → Ends (b ≡ true) (if not b then none else some (tt, t))
      go true t h = Ends-some (true ≡ true) tt t h
      go false t h = Ends-none (Unit {0}) (false ≡ true) (λ e. cc)

  join_finish-Ends : (tid result pid : ℕ) → Ends (Unit {0}) (join_finish tid result pid s)
  unfolding join_finish tid_of process_thread_join
  join_finish-Ends tid result pid =
      Ends-choose (Unit {0}) s (result == 0)
        (tid_of pid >>= λ exit_tid. process_thread_join tid exit_tid) (pure tt)
        (Ends-bind (Unit {0}) (tid_of pid) (λ exit_tid. process_thread_join tid exit_tid) s
          (known (Map.find pid s.pthread_id_to_tid))
          (λ exit_tid s1 ready1. Ends-some (Unit {0}) tt _ ready1))
        (Ends-some (Unit {0}) tt s ready)
    where
      known :
          (o : Option ℕ)
          → Ends {A = ℕ} (Unit {0}) (elim o [
            | none ↦ some (0, record s { pthread_id_to_tid = Map.assign pid 0 s.pthread_id_to_tid })
            | some t ↦ some (t, s)
          ])
      known none = Ends-some (Unit {0}) 0 _ ready
      known (some t) = Ends-some (Unit {0}) t s ready

-- The threads that run are below 64.
abbrev pub IsBelow : System → Type 0
IsBelow s = (tid : ℕ) → runs (s.pc tid) ≡ true → tid < 64

leaves :
    (fits : Type 0) (o : Option (Unit {0} × Tool)) (t : Tool) (s' : System)
    → Ends fits o
    → o ≡ some (tt, t)
    → s'.tool ≡ t
    → IsReady s'.tool
leaves fits o t s' h e same = subst IsReady (sym same) ((Ends-inverse fits o h).0 tt t e)

module _ (memory : ℕ → ℕ) (s s' : System) (ready : IsReady s.tool) (below : IsBelow s) where
  Step-IsReady : Step memory s s' → IsReady s'.tool
  Step-IsReady (enter p pid t at_ free does e) =
      leaves (Unit {0}) _ t s' (create_enter-Ends s.tool ready p pid) does (ap (λ x. x.tool) e)
  Step-IsReady (fail p pid at_ e) = subst IsReady (sym (ap (λ x. x.tool) e)) ready
  Step-IsReady (spawn p pid c at_ none_yet e) = subst IsReady (sym (ap (λ x. x.tool) e)) ready
  Step-IsReady (announce c t at_ does e) =
      leaves (Unit {0}) _ t s' (start_announce-Ends s.tool ready c) does (ap (λ x. x.tool) e)
  Step-IsReady (init c t at_ does e) =
      leaves (ltb c tls_max_size ≡ true) _ t s' (start_init-Ends s.tool ready c) does
        (ap (λ x. x.tool) e)
  Step-IsReady (finish p pid c t at_ set_ does e) =
      leaves (Unit {0}) _ t s' (create_finish-Ends s.tool ready memory) does (ap (λ x. x.tool) e)
  Step-IsReady (join p result pid t at_ does e) =
      leaves (Unit {0}) _ t s' (join_finish-Ends s.tool ready p result pid) does
        (ap (λ x. x.tool) e)
  Step-IsReady (exit p t at_ does e) =
      leaves (Unit {0}) _ t s'
        (process_thread_exit-Ends p (below p (ap runs at_)) (Unit {0}) s.tool ready) does
        (ap (λ x. x.tool) e)

  Happens-IsReady : (readlink : ℕ → Option Bytes) → Happens memory readlink s s' → IsReady s'.tool
  Happens-IsReady readlink (protocol step) = Step-IsReady step
  Happens-IsReady readlink (event tid e t at_ does same) =
      subst IsReady (sym (ap (λ x. x.tool) same))
        ((run_event-Returns tid (below tid at_) s.tool ready readlink e).1 t does)

first_start-IsReady :
    (knobs : Knobs) (t : Tool) → first_start (initial knobs) ≡ some (tt, t) → IsReady t
unfolding first_start start_announce start_init process_thread_init initial
first_start-IsReady knobs t e =
    (Ends-inverse (Unit {0}) (first_start (initial knobs))
        (Ends-some (Unit {0}) tt _ ((tt, tt), λ found. cc))).0
      tt t e

module _ (memory : ℕ → ℕ) (readlink : ℕ → Option Bytes) (start : System) where
  -- In each state of the run, the threads that run are below 64.
  abbrev pub AllBelow : {s : System} → Run memory readlink start s → Type 0
  AllBelow {s} here = IsBelow s
  AllBelow {s} (next run step) = AllBelow run × IsBelow s

  last-IsBelow : {s : System} (run : Run memory readlink start s) → AllBelow run → IsBelow s
  last-IsBelow here h = h
  last-IsBelow (next run step) h = h.1

  Run-IsReady :
      (s : System) (run : Run memory readlink start s)
      → IsReady start.tool
      → AllBelow run
      → IsReady s.tool
  Run-IsReady s here ready h = ready
  Run-IsReady s (next {s = s1} run step) ready h =
      Happens-IsReady memory s1 s (Run-IsReady s1 run ready h.0) (last-IsBelow run h.0) readlink
        step

-- Take a run from the start of the first thread, in each state of which the threads that run are
-- below 64. At its end, the routine of any event of such a thread returns, if the accesses of an
-- instruction have at most 64 bytes, a return from a routine has the frame of a call, and a new
-- shared mapping has a path of less than 1000 bytes that `readlink` knows. The end of the thread
-- returns in any case.
pub Run-Returns :
    (memory : ℕ → ℕ) (readlink : ℕ → Option Bytes) (atoi : String → CInt) (knobs : Knobs) (t : Tool)
    (s : System)
    → main_start atoi knobs ≡ ok (some (tt, t))
    → (run : Run memory readlink (alone t) s) → AllBelow memory readlink (alone t) run
    → (tid : ℕ) → runs (s.pc tid) ≡ true
    → ((e : Event)
        → Fits readlink s.tool tid e
        → (s' : Tool) × (run_event readlink tid e s.tool ≡ some (tt, s')))
      × ((s' : Tool) × (process_thread_exit tid s.tool ≡ some (tt, s')))
Run-Returns memory readlink atoi knobs t s started run h tid at_ =
    let ready =
      Run-IsReady memory readlink (alone t) s run
        (first_start-IsReady knobs t (main_start-first atoi knobs (some (tt, t)) started)) h in
    let small = last-IsBelow memory readlink (alone t) run h tid at_ in
    let (x, s', e) =
      (Ends-inverse (Unit {0}) (process_thread_exit tid s.tool)
          (process_thread_exit-Ends tid small (Unit {0}) s.tool ready)).1
        tt in
    (λ ev fits. (run_event-Returns tid small s.tool ready readlink ev).0 fits, (s', e))
