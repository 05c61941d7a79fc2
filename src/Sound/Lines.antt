-- ===== src/Sound/Lines.antt =====
-- The lines of the simulated cache keep their pointers good: `ProcessFlush` of src/hawkset.cpp, and the
-- changes of a line that a store makes.
use hawk_set.Cache.{Caches}
use hawk_set.Map
use hawk_set.Map.{Map}
use hawk_set.Memory.{
  Which, written, flushed, state_of, with_state, line_of, put_byte, flush_loop, flush_line,
  process_flush,
}
use hawk_set.Sound.{Grows, IsStored, IsEntry, IsLine, IsKeyedLine, IsMemory, IsThread, IsSound}
use hawk_set.Sound.Actions.{After, Any, change_thread-After}
use hawk_set.Sound.Tables.{assign-All, erase-All, find-All}
use hawk_set.Tool.{StoreData, MemState, ThreadData, Tool, change_thread, cache_line}
use hawk_set.Prelude.{ℕ, List, [], ◌∷◌, Option-cases, inl, inr}

module _ (c : Caches) (pool : List (List ℕ)) where
  pub line_of-IsLine : (cl : ℕ) (m : MemState) → IsMemory c pool m → IsLine c pool (line_of cl m)
  unfolding line_of
  line_of-IsLine cl m h = elim (Option-cases (Map.find cl m)) [
    | inl e ↦ rw (e, line_of) tt
    | inr (line, e) ↦ rw (e, line_of) (find-All (IsKeyedLine c pool) cl line m e h)
  ]

  pub put_byte-IsMemory :
      (cl address : ℕ) (stored : StoreData) (m : MemState)
      → IsStored c pool stored
      → IsMemory c pool m
      → IsMemory c pool (put_byte cl address stored m)
  unfolding put_byte
  put_byte-IsMemory cl address stored m good h =
      assign-All (IsKeyedLine c pool) cl (Map.assign address stored (line_of cl m)) m
        (assign-All (IsEntry c pool) address stored (line_of cl m) good (line_of-IsLine cl m h)) h

  flush_loop-IsMemory :
      (cl : ℕ) (line : Map StoreData) (m : MemState)
      → IsLine c pool line
      → IsMemory c pool m
      → IsMemory c pool (flush_loop cl line m)
  unfolding flush_loop
  flush_loop-IsMemory cl [] m g h = h
  flush_loop-IsMemory cl ((address, stored) ∷ rest) m g h =
      flush_loop-IsMemory cl rest (put_byte cl address stored m) g.1
        (put_byte-IsMemory cl address stored m g.0 h)

  flush_line-IsThread :
      (cl : ℕ) (t : ThreadData) → IsThread c pool t → IsThread c pool (flush_line cl t)
  unfolding flush_line
  flush_line-IsThread cl t ok = elim (Option-cases (Map.find cl t.mem_state)) [
    | inl e ↦ rw (e, flush_line) ok
    | inr (line, e) ↦
        rw (e, flush_line)
          (record {
            stores = ok.stores;
            loads = ok.loads;
            written = erase-All (IsKeyedLine c pool) cl t.mem_state ok.written;
            flushed =
                flush_loop-IsMemory cl line t.flushed_mem_state
                  (find-All (IsKeyedLine c pool) cl line t.mem_state e ok.written) ok.flushed;
            remembered = ok.remembered;
          })
  ]

  pub state_of-IsMemory :
      (which : Which) (t : ThreadData) → IsThread c pool t → IsMemory c pool (state_of which t)
  state_of-IsMemory written t ok = ok.written
  state_of-IsMemory flushed t ok = ok.flushed

  with_state-IsThread :
      (which : Which) (m : MemState) (t : ThreadData)
      → IsThread c pool t
      → IsMemory c pool m
      → IsThread c pool (with_state which m t)
  with_state-IsThread written m t ok h = record {
    stores = ok.stores;
    loads = ok.loads;
    written = h;
    flushed = ok.flushed;
    remembered = ok.remembered;
  }
  with_state-IsThread flushed m t ok h = record {
    stores = ok.stores;
    loads = ok.loads;
    written = ok.written;
    flushed = h;
    remembered = ok.remembered;
  }

flush_line-Grows : (cl : ℕ) (t : ThreadData) → Grows t.vector_clocks (flush_line cl t).vector_clocks
unfolding flush_line
flush_line-Grows cl t = elim (Option-cases (Map.find cl t.mem_state)) [
  | inl e ↦ rw (e, flush_line) (λ p x h. h)
  | inr (line, e) ↦ rw (e, flush_line) (λ p x h. h)
]

with_state-Grows :
    (which : Which) (m : MemState) (t : ThreadData)
    → Grows t.vector_clocks (with_state which m t).vector_clocks
with_state-Grows written m t p x h = h
with_state-Grows flushed m t p x h = h

-- One of the memory states of the thread changes.
pub change_state-After :
    (s : Tool) (tid : ℕ) (which : Which) (f : MemState → MemState)
    → IsSound s
    → ((m : MemState) → IsMemory s.caches s.backtraces m → IsMemory s.caches s.backtraces (f m))
    → After s Any (change_thread tid (λ t. with_state which (f (state_of which t)) t) s)
change_state-After s tid which f sound h =
    let t = s.analysis_data_tls tid in
    change_thread-After s tid (λ t. with_state which (f (state_of which t)) t) sound
      (with_state-IsThread s.caches s.backtraces which (f (state_of which t)) t (sound tid)
        (h (state_of which t) (state_of-IsMemory s.caches s.backtraces which t (sound tid))))
      (with_state-Grows which (f (state_of which t)) t)

pub process_flush-After :
    (s : Tool) (tid address : ℕ) → IsSound s → After s Any (process_flush tid address s)
unfolding process_flush
process_flush-After s tid address sound =
    let t = s.analysis_data_tls tid in
    change_thread-After s tid (flush_line (cache_line address)) sound
      (flush_line-IsThread s.caches s.backtraces (cache_line address) t (sound tid))
      (flush_line-Grows (cache_line address) t)
