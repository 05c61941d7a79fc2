-- ===== src/Ready/Memory.antt =====
-- When the cache simulation of src/hawkset.cpp stops the process.
use hawk_set.Backtrace.{Trace}
use hawk_set.Bitset
use hawk_set.Bitset.{Bitset}
use hawk_set.Cache.{TimedPtr}
use hawk_set.Heuristic.Room.{handle_access-Small, handle_access_byte-Small, handle_access-wide}
use hawk_set.Map
use hawk_set.Map.{Map}
use hawk_set.Memory.{
  Which, written, flushed, state_of, with_state, line_of, put_byte, record_load, register_access,
  record_store, register_unpersisted_store, check_overwrite, store_byte, store_loop, process_store,
}
use hawk_set.Ready.{IsReady, Ends, Ends-some, Ends-none, Ends-choose, Ends-if, Ends-bind}
use hawk_set.Tool
use hawk_set.Tool.{
  StoreData, MemState, Tool, M, ◌>>=◌, ◌>>◌, pure, get_thread_data, change_thread, get_backtrace,
  get_timedlockset, cache_line,
}
use hawk_set.Prelude.{
  ℕ, zero, suc, ◌+◌, ◌-◌, ◌%◌, ◌^◌, ◌≤◌, ◌<◌, Bool, true, false, not, Option, none, some, leb,
  leb→le, if◌then◌else◌, Option-cases, Bool-cases, inl, inr, arith,
}

-- The changes of a thread's data keep the rest.
pub get_timedlockset-Ends :
    (fits : Type 0) (tid : ℕ) (s : Tool) → IsReady s → Ends fits (get_timedlockset tid s)
unfolding get_timedlockset
get_timedlockset-Ends fits tid s ready =
    elim (Option-cases (s.analysis_data_tls tid).cached_timedlockset) [
      | inl e ↦ rw (e, get_timedlockset) (Ends-some fits _ _ ready)
      | inr (p, e) ↦ rw (e, get_timedlockset) (Ends-some fits p s ready)
    ]

module _ (tid : ℕ) (small : tid < 64) where
  pub handle_access_byte-Ends :
      (fits : Type 0) (address : ℕ) (s : Tool)
      → IsReady s
      → Ends fits (Tool.handle_access_byte tid address s)
  unfolding Tool.handle_access_byte
  handle_access_byte-Ends fits address s (numbers, awaited) =
      let (b, a, e, kept) =
        handle_access_byte-Small s.use_init_removal_heuristic_n tid address small s.accesses
          numbers in
      rw (e, Tool.handle_access_byte) (Ends-some fits b (record s { accesses = a }) (kept, awaited))

  -- It stops for more than 64 bytes.
  handle_access-Ends :
      (address size : ℕ) (s : Tool)
      → IsReady s
      → Ends (size ≤ 64) (Tool.handle_access tid address size s)
  unfolding Tool.handle_access
  handle_access-Ends address size s (numbers, awaited) = elim (Bool-cases (leb size 64)) [
    | inl f ↦
        let (mask, a, e, kept) =
          handle_access-Small s.use_init_removal_heuristic_n tid address small size s.accesses
            (leb→le size 64 f) numbers in
        rw (e, Tool.handle_access)
          (Ends-some (size ≤ 64) mask (record s { accesses = a }) (kept, awaited))
    | inr f ↦
        rw
          (
            handle_access-wide s.use_init_removal_heuristic_n tid address size s.accesses f,
            Tool.handle_access,
          )
          (Ends-none Bitset (size ≤ 64) (λ h. ground arith))
  ]

  record_load-Ends :
      (fits : Type 0) (ip address : ℕ) (mask : Bitset) (s : Tool)
      → IsReady s
      → Ends fits (record_load tid ip address mask s)
  unfolding record_load get_backtrace
  record_load-Ends fits ip address mask s ready =
      Ends-bind fits (get_timedlockset tid) _ _ (get_timedlockset-Ends fits tid _ ready)
        (λ tls s1 ready1. Ends-some fits tt _ ready1)

  pub register_access-Ends :
      (ip address size : ℕ) (s : Tool)
      → IsReady s
      → Ends (size ≤ 64) (register_access tid ip address size s)
  unfolding register_access
  register_access-Ends ip address size s ready =
      Ends-bind (size ≤ 64) (Tool.handle_access tid address size)
        (λ mask. if not (Bitset.any mask) then pure tt else record_load tid ip address mask) s
        (handle_access-Ends address size s ready)
        (λ mask s1 ready1.
          Ends-choose (size ≤ 64) s1 (not (Bitset.any mask)) (pure tt)
            (record_load tid ip address mask) (Ends-some (size ≤ 64) tt s1 ready1)
            (record_load-Ends (size ≤ 64) ip address mask s1 ready1))

  pub record_store-Ends :
      (fits : Type 0) (address : ℕ) (stored : StoreData) (current : TimedPtr) (trace : Option Trace)
      (persisted was_flushed : Bool) (s : Tool)
      → IsReady s
      → Ends fits (record_store tid address stored current trace persisted was_flushed s)
  unfolding record_store
  record_store-Ends fits address stored current trace persisted was_flushed s ready =
      Ends-some fits tt _ ready

  pub register_unpersisted_store-Ends :
      (fits : Type 0) (address : ℕ) (stored : StoreData) (current : TimedPtr) (trace : Option Trace)
      (was_flushed : Bool) (s : Tool)
      → IsReady s
      → Ends fits (register_unpersisted_store tid address stored current trace was_flushed s)
  unfolding register_unpersisted_store
  register_unpersisted_store-Ends fits address stored current trace was_flushed s ready =
      let recorded = record_store tid address stored current trace false was_flushed in
      Ends-bind fits (Tool.handle_access_byte tid address)
        (λ record_it. if not record_it then pure tt else recorded) s
        (handle_access_byte-Ends fits address s ready)
        (λ record_it s1 ready1.
          Ends-choose fits s1 (not record_it) (pure tt) recorded (Ends-some fits tt s1 ready1)
            (record_store-Ends fits address stored current trace false was_flushed s1 ready1))

  check_overwrite-Ends :
      (fits : Type 0) (address : ℕ) (which : Which) (ls : TimedPtr) (trace : Trace)
      (was_flushed : Bool) (s : Tool)
      → IsReady s
      → Ends fits (check_overwrite tid address which ls trace was_flushed s)
  unfolding check_overwrite
  check_overwrite-Ends fits address which ls trace was_flushed s ready =
      go (Map.find address line) _ ready
    where
      cl : ℕ
      cl = cache_line address

      line : Map StoreData
      line = line_of cl (state_of which (s.analysis_data_tls tid))

      erased : M (Unit {0})
      erased =
          change_thread tid
            (λ t. with_state which (Map.assign cl (Map.erase address line) (state_of which t)) t)

      rest : Option StoreData → M (Unit {0})
      rest none = pure tt
      rest (some stored) =
          register_unpersisted_store tid address stored ls (some trace) was_flushed >> erased

      go : (o : Option StoreData) (s1 : Tool) → IsReady s1 → Ends fits (rest o s1)
      go none s1 ready1 = Ends-some fits tt s1 ready1
      go (some stored) s1 ready1 =
          Ends-bind fits (register_unpersisted_store tid address stored ls (some trace) was_flushed)
            (λ x. erased) s1
            (register_unpersisted_store-Ends fits address stored ls (some trace) was_flushed s1
              ready1)
            (λ x s2 ready2. Ends-some fits tt _ ready2)

  store_byte-Ends :
      (fits : Type 0) (address : ℕ) (stored : StoreData) (s : Tool)
      → IsReady s
      → Ends fits (store_byte tid address stored s)
  unfolding store_byte
  store_byte-Ends fits address stored s ready =
      Ends-bind fits overwritten (λ x. put) s checks (λ x s1 ready1. Ends-some fits tt _ ready1)
    where
      tls : TimedPtr
      tls = stored.timed_lockset

      put : M (Unit {0})
      put =
          change_thread tid
            (λ t. record t { mem_state = put_byte (cache_line address) address stored t.mem_state })

      both : M (Unit {0})
      both = do
        check_overwrite tid address written tls stored.backtrace false
        check_overwrite tid address flushed tls stored.backtrace true

      overwritten : M (Unit {0})
      overwritten s = if s.check_unpersisted_stores then both s else pure tt s

      checks : Ends fits (overwritten s)
      checks =
          Ends-if fits s.check_unpersisted_stores (both s) (pure tt s)
            (Ends-bind fits (check_overwrite tid address written tls stored.backtrace false)
              (λ x. check_overwrite tid address flushed tls stored.backtrace true) s
              (check_overwrite-Ends fits address written tls stored.backtrace false s ready)
              (λ x s1 ready1.
                check_overwrite-Ends fits address flushed tls stored.backtrace true s1 ready1))
            (Ends-some fits tt s ready)

  store_loop-Ends :
      (fits : Type 0) (rounds address : ℕ) (stored : StoreData) (s : Tool)
      → IsReady s
      → Ends fits (store_loop rounds tid address stored s)
  unfolding store_loop
  store_loop-Ends fits zero address stored s ready = Ends-some fits tt s ready
  store_loop-Ends fits (suc rounds) address stored s ready =
      Ends-bind fits (store_byte tid address stored)
        (λ x. store_loop rounds tid (address + 1) stored) s
        (store_byte-Ends fits address stored s ready)
        (λ x s1 ready1. store_loop-Ends fits rounds (address + 1) stored s1 ready1)

  pub process_store-Ends :
      (ip address size : ℕ) (s : Tool)
      → IsReady s
      → Ends (size ≤ 64) (process_store tid ip address size s)
  unfolding process_store get_backtrace
  process_store-Ends ip address size s ready =
      Ends-bind (size ≤ 64) (Tool.handle_access tid address size) _ s
        (handle_access-Ends address size s ready)
        (λ mask s1 ready1.
          Ends-bind (size ≤ 64) (get_timedlockset tid) _ _
            (get_timedlockset-Ends (size ≤ 64) tid _ ready1)
            (λ tls s2 ready2.
              store_loop-Ends (size ≤ 64) ((address + size) % 2 ^ 64 - address) address _ s2
                ready2))
