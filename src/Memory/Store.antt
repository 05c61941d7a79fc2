-- ===== src/Memory/Store.antt =====
-- A store on the bytes of the thread's memory states: `ProcessStore` of src/hawkset.cpp.
use hawk_set.Memory.{put_byte, store_byte, store_loop, process_store}
use hawk_set.Memory.Flush.{byte_at, find-put_byte}
use hawk_set.Tool.{
  StoreData, MemState, ThreadData, Tool, cache_line, put_thread, put_same, put_other, then_value,
  bind_value, get_backtrace, handle_access, get_timedlockset, get_timedlockset_lem,
}
use hawk_set.Cache.{TimedPtr}
use hawk_set.Bitset.{Bitset}
use hawk_set.Heuristic
use hawk_set.Heuristic.{Accesses}
use hawk_set.Backtrace
use hawk_set.Backtrace.{Trace}
use native.Mathlib.Nat.{mod-eq_of_lt}
use hawk_set.Prelude.{
  ℕ, zero, suc, ◌+◌, ◌<◌, ◌-◌, ◌^◌, ◌%◌, ◌≡◌, ◌≢◌, refl, ap, ◌∙◌, false, ◌&&◌, none, some, arith,
  Option, ◌==◌, ==_iff, if◌then◌else◌, leb, ltb,
}

-- The written bytes after the rounds of the loop.
put_bytes : ℕ → ℕ → StoreData → MemState → MemState
put_bytes zero a stored m = m
put_bytes (suc n) a stored m = put_bytes n (a + 1) stored (put_byte (cache_line a) a stored m)

byte_at-put_byte :
    (a b : ℕ) (stored : StoreData) (m : MemState)
    → byte_at b (put_byte (cache_line a) a stored m) ≡ (if b == a then some stored else byte_at b m)
unfolding cache_line
byte_at-put_byte a b stored m = ground (
  arith,
  find-put_byte (cache_line b) (cache_line a) a b stored m,
  ==_iff b a,
  ==_iff (cache_line b) (cache_line a),
)

byte_at-put_bytes :
    (n a b : ℕ) (stored : StoreData) (m : MemState)
    → byte_at b (put_bytes n a stored m)
      ≡ (if leb a b && ltb b (a + n) then some stored else byte_at b m)
unfolding put_bytes
byte_at-put_bytes zero a b stored m = ground arith
byte_at-put_bytes (suc n) a b stored m = ground (
  arith,
  byte_at-put_bytes n (a + 1) b stored (put_byte (cache_line a) a stored m),
  byte_at-put_byte a b stored m,
  ==_iff b a,
)

-- What a thread's store leaves alone: of its own data all but its pending bytes and the timed lockset
-- that it remembers, and the data of the other threads.
abbrev pub Same : Tool → Tool → ℕ → Type 0
Same s s' tid =
    ((m : MemState) × (p : Option TimedPtr) × (s'.analysis_data_tls tid
        ≡ record (s.analysis_data_tls tid) { mem_state = m; cached_timedlockset = p }))
    × ((u : ℕ) → u ≢ tid → s'.analysis_data_tls u ≡ s.analysis_data_tls u)
    × (s'.check_unpersisted_stores ≡ s.check_unpersisted_stores)

abbrev pub written_by : Tool → ℕ → MemState
written_by s tid = (s.analysis_data_tls tid).mem_state

-- The state after one round.
abbrev byte_stored : Tool → ℕ → ℕ → StoreData → Tool
byte_stored s tid a stored = record s {
  analysis_data_tls = put_thread s.analysis_data_tls tid (record (s.analysis_data_tls tid) {
    mem_state = put_byte (cache_line a) a stored (written_by s tid);
  });
}

store_byte_value :
    (s : Tool) (tid a : ℕ) (stored : StoreData)
    → s.check_unpersisted_stores ≡ false
    → store_byte tid a stored s ≡ some (tt, byte_stored s tid a stored)
unfolding store_byte
store_byte_value s tid a stored off = rw (off, store_byte) refl

Same-byte : (s : Tool) (tid a : ℕ) (stored : StoreData) → Same s (byte_stored s tid a stored) tid
Same-byte s tid a stored = (
  (
    put_byte (cache_line a) a stored (written_by s tid),
    (s.analysis_data_tls tid).cached_timedlockset,
    put_same s.analysis_data_tls tid _,
  ),
  λ u other. put_other s.analysis_data_tls tid u _ other,
  refl,
)

Same-trans : (s s' s'' : Tool) (tid : ℕ) → Same s s' tid → Same s' s'' tid → Same s s'' tid
Same-trans s s' s'' tid ((m, p, e), o, c) ((m', p', e'), o', c') = (
  (m', p', e' ∙ ap {B = ThreadData} (λ t. record t { mem_state = m'; cached_timedlockset = p' }) e),
  (λ u other. o' u other ∙ o u other),
  c' ∙ c,
)

store_loop_lem :
    (n : ℕ) (s : Tool) (tid a : ℕ) (stored : StoreData)
    → s.check_unpersisted_stores ≡ false
    → (s' : Tool) × (store_loop n tid a stored s ≡ some (tt, s'))
      × (written_by s' tid ≡ put_bytes n a stored (written_by s tid))
      × Same s s' tid
unfolding store_loop put_bytes
store_loop_lem zero s tid a stored off = (s, refl, refl, ((_, _, refl), (λ u other. refl), refl))
store_loop_lem (suc n) s tid a stored off =
    let (s', run, bytes, same) =
      store_loop_lem n (byte_stored s tid a stored) tid (a + 1) stored off in
    (
      s',
      then_value (store_byte tid a stored) (store_loop n tid (a + 1) stored) s
            (byte_stored s tid a stored) (store_byte_value s tid a stored off)
          ∙ run,
      bytes ∙ ap (λ t. put_bytes n (a + 1) stored t.mem_state) (put_same s.analysis_data_tls tid _),
      Same-trans s (byte_stored s tid a stored) s' tid (Same-byte s tid a stored) same,
    )

-- The steps of a store, one after the other.
steps :
    (s heard traced locked s' : Tool) (tid ip address size : ℕ) (mask : Bitset) (p : TimedPtr)
    (trace : Trace)
    → handle_access tid address size s ≡ some (mask, heard)
    → get_backtrace tid ip heard ≡ some (trace, traced)
    → get_timedlockset tid traced ≡ some (p, locked)
    → store_loop
        ((address + size) % 2 ^ 64 - address)
        tid
        address
        (record { timed_lockset = p; backtrace = trace })
        locked
      ≡ some (tt, s')
    → process_store tid ip address size s ≡ some (tt, s')
unfolding process_store
steps s heard traced locked s' tid ip address size mask p trace hear back lock run =
    bind_value (handle_access tid address size) _ s heard mask hear
    ∙ (bind_value (get_backtrace tid ip) _ heard traced trace back
        ∙ (bind_value (get_timedlockset tid) _ traced locked p lock ∙ run))

heard_value :
    (s : Tool) (tid address size : ℕ) (mask : Bitset) (a : Accesses)
    → Heuristic.handle_access s.use_init_removal_heuristic_n tid address size s.accesses
      ≡ some (mask, a)
    → handle_access tid address size s ≡ some (mask, record s { accesses = a })
unfolding handle_access
heard_value s tid address size mask a answers =
    ap (λ o. elim o [ none ↦ none | some (m, b) ↦ some (m, record s { accesses = b }) ]) answers

-- The number of rounds, when the end of the store does not wrap.
rounds_lem :
    (address size : ℕ) → address + size < 2 ^ 64 → (address + size) % 2 ^ 64 - address ≡ size
rounds_lem address size fits = omega (arith, mod-eq_of_lt {n = address + size} {m = 2 ^ 64})

-- A store of `size` bytes whose end does not wrap, when stores that are overwritten are not looked
-- for and the heuristic answers: it returns, exactly the bytes of the store are pending with one
-- record, which has the backtrace of the store, and the other bytes are as before. Of the thread's
-- data only the pending bytes and the remembered timed lockset may change; the flushed bytes, the
-- recorded stores and loads, the clocks, the locks and the calls are as before. No other thread's data
-- change.
pub process_store_lem :
    (s : Tool) (tid ip address size : ℕ) (mask : Bitset) (a : Accesses)
    → s.check_unpersisted_stores ≡ false
    → address + size < 2 ^ 64
    → Heuristic.handle_access s.use_init_removal_heuristic_n tid address size s.accesses
      ≡ some (mask, a)
    → (s' : Tool) × (stored : StoreData) × (process_store tid ip address size s ≡ some (tt, s'))
      × (stored.backtrace
          ≡ (Backtrace.get_backtrace s.backtraces ip (s.analysis_data_tls tid).stack).0)
      × ((b : ℕ)
          → byte_at b (written_by s' tid) ≡ (
              if leb address b && ltb b (address + size)
              then some stored
              else byte_at b (written_by s tid)))
      × Same s s' tid
unfolding get_backtrace
process_store_lem s tid ip address size mask a off fits answers =
    let (trace, pool) = Backtrace.get_backtrace s.backtraces ip (s.analysis_data_tls tid).stack in
    let heard : Tool = record s { accesses = a } in
    let traced : Tool = record heard { backtraces = pool } in
    let (p, locked, run_lock, own, others, checks, heard_same, rounds_same) =
      get_timedlockset_lem traced tid in
    let kept : written_by locked tid ≡ written_by traced tid = ap (λ t. t.mem_state) own in
    let same : Same traced locked tid = ((_, some p, own), others, checks) in
    let stored : StoreData = record { timed_lockset = p; backtrace = trace } in
    let (s', run, bytes, same') =
      store_loop_lem ((address + size) % 2 ^ 64 - address) locked tid address stored
        (same.2 ∙ off) in
    (
      s',
      stored,
      steps s heard traced locked s' tid ip address size mask p trace
          (heard_value s tid address size mask a answers) refl run_lock run,
      refl,
      (λ b.
          ap (byte_at b) bytes
          ∙ (byte_at-put_bytes _ address b stored (written_by locked tid)
              ∙ (ap
                    (λ n.
                      if leb address b && ltb b (address + n)
                      then some stored
                      else byte_at b (written_by locked tid))
                    (rounds_lem address size fits)
                  ∙ ap
                      (λ m.
                        if leb address b && ltb b (address + size)
                        then some stored
                        else byte_at b m)
                      kept))),
      Same-trans s locked s' tid same same',
    )
