-- ===== src/Protocol.antt =====
-- How threads start and end: `PthreadCreateReplacement`, `TraceThreadStart`,
-- `PthreadJoinReplacement` and `TraceThreadExit` of src/hawkset.cpp, with the mutex and the semaphore
-- of a creation, as steps that the threads take in any order.
pub mod Invariant
pub mod Safety
pub mod Late
pub mod Progress
use hawk_set.Map
use hawk_set.Map.{Map}
use hawk_set.Races.{tls_max_size}
use hawk_set.Threads.{
  process_thread_create, process_thread_init, process_thread_join, process_thread_exit,
}
use hawk_set.Tool.{Tool, M, ◌>>=◌, ◌>>◌, pure, change_thread}
use hawk_set.Prelude.{
  ℕ, ◌≡◌, ◌≢◌, Bool, true, false, not, Option, none, some, ltb, ◌==◌, if◌then◌else◌,
}

-- `PthreadCreateReplacement` up to the call of the original function, with the mutex held.
unfoldable pub create_enter : ℕ → ℕ → M (Unit {0})
create_enter tid pid = do
  (λ s. some (tt, record s { creator_thread_id = some tid }))
  process_thread_create tid
  (λ s. some (tt, record s { created_pthread_id_address = pid }))

-- What it does after the semaphore: `memory` is that of the program, where the original function has
-- left the id of the new thread.
unfoldable pub create_finish : (ℕ → ℕ) → M (Unit {0})
create_finish memory s = some (
  tt,
  record s {
    pthread_id_to_tid =
        Map.assign (memory s.created_pthread_id_address) s.created_thread_id s.pthread_id_to_tid;
  },
)

-- `TraceThreadStart` up to the semaphore, and the rest.
unfoldable pub start_announce : ℕ → M (Unit {0})
start_announce tid s = some (tt, record s { created_thread_id = tid })

unfoldable pub start_init : ℕ → M (Unit {0})
start_init tid s =
    if not (ltb tid tls_max_size)
    then none
    else (change_thread tid (λ t. record t { used = true })
          >> process_thread_init tid s.creator_thread_id)
        s

-- `pthread_id_to_tid[pid]`, which makes an entry 0 if there is none.
unfoldable pub tid_of : ℕ → M ℕ
tid_of pid s = elim (Map.find pid s.pthread_id_to_tid) [
  | none ↦ some (0, record s { pthread_id_to_tid = Map.assign pid 0 s.pthread_id_to_tid })
  | some tid ↦ some (tid, s)
]

-- `PthreadJoinReplacement` after the original function has returned `result`.
unfoldable pub join_finish : ℕ → ℕ → ℕ → M (Unit {0})
unfolding tid_of
join_finish tid result pid =
    if result == 0 then (do exit_tid ← tid_of pid; process_thread_join tid exit_tid) else pure tt

-- Where a thread is. `waiting` keeps the thread that the creation started, which the code does not
-- know yet.
pub data Pc : Type 0 where
  absent born announced running : Pc
  calling : ℕ → Pc
  waiting : ℕ → ℕ → Pc

pub record System : Type 0 where
  pub tool : Tool
  pub owner : Option ℕ
  pub semaphore : Bool
  pub pc : ℕ → Pc

abbrev pub put_pc : (ℕ → Pc) → ℕ → Pc → ℕ → Pc
put_pc pcs t p u = if u == t then p else pcs u

-- A step of one of the threads; `pid` is the address at which the original function leaves the id of
-- the new thread. Thread 0 does not set the semaphore.
pub data Step (memory : ℕ → ℕ) (s : System) (s' : System) : Type 0 where
  enter :
      (p pid : ℕ) (t : Tool)
      → s.pc p ≡ running
      → s.owner ≡ none
      → create_enter p pid s.tool ≡ some (tt, t)
      → s' ≡ record s { tool = t; owner = some p; pc = put_pc s.pc p (calling pid) }
      → Step memory s s'
  fail :
      (p pid : ℕ)
      → s.pc p ≡ calling pid
      → s' ≡ record s { owner = none; pc = put_pc s.pc p running }
      → Step memory s s'
  spawn :
      (p pid c : ℕ)
      → s.pc p ≡ calling pid
      → s.pc c ≡ absent
      → s' ≡ record s { pc = put_pc (put_pc s.pc p (waiting pid c)) c born }
      → Step memory s s'
  announce :
      (c : ℕ) (t : Tool)
      → s.pc c ≡ born
      → start_announce c s.tool ≡ some (tt, t)
      → s' ≡ record s {
        tool = t;
        semaphore = if c == 0 then s.semaphore else true;
        pc = put_pc s.pc c announced;
      }
      → Step memory s s'
  init :
      (c : ℕ) (t : Tool)
      → s.pc c ≡ announced
      → start_init c s.tool ≡ some (tt, t)
      → s' ≡ record s { tool = t; pc = put_pc s.pc c running }
      → Step memory s s'
  finish :
      (p pid c : ℕ) (t : Tool)
      → s.pc p ≡ waiting pid c
      → s.semaphore ≡ true
      → create_finish memory s.tool ≡ some (tt, t)
      → s' ≡ record s { tool = t; owner = none; semaphore = false; pc = put_pc s.pc p running }
      → Step memory s s'
  join :
      (p result pid : ℕ) (t : Tool)
      → s.pc p ≡ running
      → join_finish p result pid s.tool ≡ some (tt, t)
      → s' ≡ record s { tool = t }
      → Step memory s s'
  exit :
      (p : ℕ) (t : Tool)
      → s.pc p ≡ running
      → process_thread_exit p s.tool ≡ some (tt, t)
      → s' ≡ record s { tool = t; pc = put_pc s.pc p absent }
      → Step memory s s'

pub data Reach (memory : ℕ → ℕ) (start : System) : System → Type 0 where
  here : Reach memory start start
  next : {s s' : System} → Reach memory start s → Step memory s s' → Reach memory start s'
