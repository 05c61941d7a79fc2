-- ===== src/Handlers/Trace.antt =====
-- What the tool does with a non-temporal store: `TraceWrite` of src/hawkset.cpp.
use hawk_set.Handlers.{write}
use hawk_set.Map
use hawk_set.Memory.{line_of, flush_line, process_flush}
use hawk_set.Memory.Flush.{byte_at, or_else, process_flush_lem}
use hawk_set.PmAlloc
use hawk_set.Threads.{non_temporal_store}
use hawk_set.Tool.{StoreData, ThreadData, Tool, cache_line, put_same}
use hawk_set.Prelude.{
  ℕ, ◌≡◌, ◌≢◌, ◌⊎◌, refl, sym, ap, ◌∙◌, Bool, true, false, Option, none, some, [], ◌==◌,
  if◌then◌else◌, Option-cases, inl, inr,
}

-- A flush does not record a store for the analysis.
flush_line-stores :
    (cl : ℕ) (t : ThreadData) → (flush_line cl t).race_likely_stores ≡ t.race_likely_stores
unfolding flush_line
flush_line-stores cl t = elim (Option-cases (Map.find cl t.mem_state)) [
  | inl e ↦ rw (e, flush_line) refl
  | inr (line, e) ↦ rw (e, flush_line) refl
]

process_flush-stores :
    (s s' : Tool) (tid address : ℕ)
    → process_flush tid address s ≡ some (tt, s')
    → (s'.analysis_data_tls tid).race_likely_stores ≡ (s.analysis_data_tls tid).race_likely_stores
unfolding process_flush
process_flush-stores s s' tid address h =
    let t : ThreadData = flush_line (cache_line address) (s.analysis_data_tls tid) in
    sym (
      ap
        (λ (o : Option (Unit {0} × Tool)). elim o [
          | none ↦ []
          | some (x, q) ↦ (q.analysis_data_tls tid).race_likely_stores
        ])
        h)
    ∙ ap (λ u. u.race_likely_stores) (put_same s.analysis_data_tls tid t)
    ∙ flush_line-stores (cache_line address) (s.analysis_data_tls tid)

-- A non-temporal store to persistent memory, to a line whose written bytes are a map: it does not
-- fail, no byte is pending or flushed afterwards that was not pending or flushed before, no store is
-- recorded for the analysis, and the data of the other threads stay the same.
pub non_temporal-adds-none :
    (s : Tool) (tid ip address size : ℕ)
    → PmAlloc.is_pm_address address size s.pm ≡ true
    → Map.IsMap (line_of (cache_line address) (s.analysis_data_tls tid).mem_state)
    → (s' : Tool) × (write tid ip address size non_temporal_store s ≡ some (tt, s'))
      × ((b : ℕ) (stored : StoreData)
          → (byte_at b (s'.analysis_data_tls tid).mem_state ≡ some stored
              → byte_at b (s.analysis_data_tls tid).mem_state ≡ some stored)
            × (byte_at b (s'.analysis_data_tls tid).flushed_mem_state ≡ some stored
                → (byte_at b (s.analysis_data_tls tid).mem_state ≡ some stored)
                  ⊎ (byte_at b (s.analysis_data_tls tid).flushed_mem_state ≡ some stored)))
      × ((s'.analysis_data_tls tid).race_likely_stores
          ≡ (s.analysis_data_tls tid).race_likely_stores)
      × ((u : ℕ) → u ≢ tid → s'.analysis_data_tls u ≡ s.analysis_data_tls u)
unfolding write
non_temporal-adds-none s tid ip address size pm line =
    let (s', run, bytes, others) = process_flush_lem s tid address line in
    (
      s',
      rw pm run,
      (λ b stored. (
        written_from (cache_line b == cache_line address) _ _ stored (bytes b).0,
        flushed_from (cache_line b == cache_line address) _ _ _ stored (bytes b).1,
      )),
      process_flush-stores s s' tid address run,
      others,
    )
  where
    written_from :
        (c : Bool) (o' o : Option StoreData) (stored : StoreData)
        → o' ≡ (if c then none else o)
        → o' ≡ some stored
        → o ≡ some stored
    written_from true o' o stored h k = cc
    written_from false o' o stored h k = cc

    flushed_from :
        (c : Bool) (f' w f : Option StoreData) (stored : StoreData)
        → f' ≡ (if c then or_else w f else f)
        → f' ≡ some stored
        → (w ≡ some stored) ⊎ (f ≡ some stored)
    flushed_from true f' none f stored h k = inr (sym h ∙ k)
    flushed_from true f' (some x) f stored h k = inl (sym h ∙ k)
    flushed_from false f' w f stored h k = inr (sym h ∙ k)
