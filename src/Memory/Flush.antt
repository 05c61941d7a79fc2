-- ===== src/Memory/Flush.antt =====
-- A flush on the bytes of the thread's memory states: `ProcessFlush` of src/hawkset.cpp.
use hawk_set.Map
use hawk_set.Map.{Map}
use hawk_set.Memory.{line_of, put_byte, flush_loop, flush_line, process_flush}
use hawk_set.Tool.{
  StoreData, MemState, ThreadData, Tool, cache_line, put_thread, put_same, put_other,
}
use hawk_set.Prelude.{
  ℕ, ◌≡◌, ◌≢◌, refl, sym, subst, ap, ◌∙◌, Option, none, some, [], ◌∷◌, arith, ◌==◌, ==_iff, inl,
  inr, if◌then◌else◌, Option-cases, Bool-cases,
}

-- The pending store of a byte.
abbrev pub byte_at : ℕ → MemState → Option StoreData
byte_at b m = Map.find b (line_of (cache_line b) m)

abbrev pub or_else : Option StoreData → Option StoreData → Option StoreData
or_else none o = o
or_else (some x) o = some x

-- A line after a byte was put.
pub find-put_byte :
    (k cl a b : ℕ) (stored : StoreData) (m : MemState)
    → Map.find b (line_of k (put_byte cl a stored m)) ≡ (
        if k == cl
        then (if b == a then some stored else Map.find b (line_of k m))
        else Map.find b (line_of k m))
unfolding put_byte line_of
find-put_byte k cl a b stored m = ground (
  arith,
  Map.find-assign k cl (Map.assign a stored (line_of cl m)) m,
  Map.find-assign b a stored (line_of cl m),
  ==_iff k cl,
)

find-flush_loop :
    (cl k b : ℕ) (line : Map StoreData) (m : MemState)
    → Map.IsMap line
    → Map.find b (line_of k (flush_loop cl line m)) ≡ (
        if k == cl
        then or_else (Map.find b line) (Map.find b (line_of k m))
        else Map.find b (line_of k m))
unfolding flush_loop Map.find
find-flush_loop cl k b [] m h = ground arith
find-flush_loop cl k b ((a, stored) ∷ line) m h = ground (
  arith,
  find-flush_loop cl k b line (put_byte cl a stored m) h.1,
  find-put_byte k cl a b stored m,
  ==_iff b a,
  Map.find_below b a line,
  h.0,
)

line_of-erase :
    (cl k : ℕ) (m : MemState) → line_of k (Map.erase cl m) ≡ (if k == cl then [] else line_of k m)
unfolding line_of
line_of-erase cl k m = ground (arith, Map.find-erase k cl m)

line_of_missing : (cl : ℕ) (m : MemState) → Map.find cl m ≡ none → line_of cl m ≡ []
unfolding line_of
line_of_missing cl m h = rw (h, line_of) refl

line_of_there :
    (cl : ℕ) (m : MemState) (line : Map StoreData) → Map.find cl m ≡ some line → line_of cl m ≡ line
unfolding line_of
line_of_there cl m line h = rw (h, line_of) refl

flush_missing : (cl : ℕ) (t : ThreadData) → Map.find cl t.mem_state ≡ none → flush_line cl t ≡ t
unfolding flush_line
flush_missing cl t h = rw (h, flush_line) refl

flush_there :
    (cl : ℕ) (t : ThreadData) (line : Map StoreData)
    → Map.find cl t.mem_state ≡ some line
    → flush_line cl t ≡ record t {
      mem_state = Map.erase cl t.mem_state;
      flushed_mem_state = flush_loop cl line t.flushed_mem_state;
    }
unfolding flush_line
flush_there cl t line h = rw (h, flush_line) refl

-- A flush on the bytes of the line `k`: those of `cl` move, the others stay.
abbrev Moved : ThreadData → ℕ → ℕ → ℕ → ThreadData → Type 0
Moved t cl k b t' =
    (Map.find b (line_of k t'.mem_state)
      ≡ (if k == cl then none else Map.find b (line_of k t.mem_state)))
    × (Map.find b (line_of k t'.flushed_mem_state) ≡ (
        if k == cl
        then or_else (Map.find b (line_of k t.mem_state))
            (Map.find b (line_of k t.flushed_mem_state))
        else Map.find b (line_of k t.flushed_mem_state)))

Moved-missing : (t : ThreadData) (cl k b : ℕ) → line_of cl t.mem_state ≡ [] → Moved t cl k b t
unfolding Map.find
Moved-missing t cl k b e = elim (Bool-cases (k == cl)) [
  | inl same ↦
      let none_there : Map.find b (line_of k t.mem_state) ≡ none =
        ap (λ j. Map.find b (line_of j t.mem_state)) ((==_iff k cl).0 same) ∙ ap (Map.find b) e in
      ground (arith, same, none_there)
  | inr other ↦ ground (arith, other)
]

Moved-there :
    (t : ThreadData) (cl k b : ℕ) (line : Map StoreData)
    → Map.find cl t.mem_state ≡ some line
    → Map.IsMap line
    → Moved t cl k b (record t {
      mem_state = Map.erase cl t.mem_state;
      flushed_mem_state = flush_loop cl line t.flushed_mem_state;
    })
unfolding Map.find
Moved-there t cl k b line e h = elim (Bool-cases (k == cl)) [
  | inl same ↦
      let there : line_of k t.mem_state ≡ line =
        ap (λ j. line_of j t.mem_state) ((==_iff k cl).0 same)
        ∙ line_of_there cl t.mem_state line e in
      (
        ground (arith, same, line_of-erase cl k t.mem_state),
        ground (arith, same, there, find-flush_loop cl k b line t.flushed_mem_state h),
      )
  | inr other ↦ (
    ground (arith, other, line_of-erase cl k t.mem_state),
    ground (arith, other, find-flush_loop cl k b line t.flushed_mem_state h),
  )
]

flush_line-Moved :
    (t : ThreadData) (cl k b : ℕ)
    → Map.IsMap (line_of cl t.mem_state)
    → Moved t cl k b (flush_line cl t)
flush_line-Moved t cl k b h = elim (Option-cases (Map.find cl t.mem_state)) [
  | inl e ↦
      subst (Moved t cl k b) (sym (flush_missing cl t e))
        (Moved-missing t cl k b (line_of_missing cl t.mem_state e))
  | inr (line, e) ↦
      subst (Moved t cl k b) (sym (flush_there cl t line e))
        (Moved-there t cl k b line e (subst Map.IsMap (line_of_there cl t.mem_state line e) h))
]

-- A flush of a line whose written bytes are a map, with ascending keys, does not fail. The pending
-- stores of the bytes of its cache line become flushed, in place of older flushed ones, every other
-- byte of the thread keeps what it has, and so does every other thread.
pub process_flush_lem :
    (s : Tool) (tid address : ℕ)
    → Map.IsMap (line_of (cache_line address) (s.analysis_data_tls tid).mem_state)
    → (s' : Tool) × (process_flush tid address s ≡ some (tt, s'))
      × ((b : ℕ)
          → (byte_at b (s'.analysis_data_tls tid).mem_state ≡ (
              if cache_line b == cache_line address
              then none
              else byte_at b (s.analysis_data_tls tid).mem_state))
            × (byte_at b (s'.analysis_data_tls tid).flushed_mem_state ≡ (
                if cache_line b == cache_line address
                then or_else
                    (byte_at b (s.analysis_data_tls tid).mem_state)
                    (byte_at b (s.analysis_data_tls tid).flushed_mem_state)
                else byte_at b (s.analysis_data_tls tid).flushed_mem_state)))
      × ((u : ℕ) → u ≢ tid → s'.analysis_data_tls u ≡ s.analysis_data_tls u)
unfolding process_flush
process_flush_lem s tid address h = (
  record s {
    analysis_data_tls =
        put_thread s.analysis_data_tls tid
          (flush_line (cache_line address) (s.analysis_data_tls tid));
  },
  refl,
  λ b.
      subst (Moved (s.analysis_data_tls tid) (cache_line address) (cache_line b) b)
        (sym (put_same s.analysis_data_tls tid _))
        (flush_line-Moved (s.analysis_data_tls tid) (cache_line address) (cache_line b) b h),
  λ u other. put_other s.analysis_data_tls tid u _ other,
)
