-- ===== src/Output/Complete.antt =====
-- The report of `OutputRaces` of src/hawkset.cpp is written to its end after every run.
use Prim.Native.String.{String}
use hawk_set.Backtrace.{Trace}
use hawk_set.Output.{
  Text, ◌>>=◌, symbols_loop, get_backtrace_symbols, fence_symbols, output_loads, output_race,
  ignore_symbols, output_unpersisted, output_loop, output_races,
}
use hawk_set.Output.Reported.{IsReport, IsReports, check_pm_races-Is}
use hawk_set.PmAlloc.{Bytes}
use hawk_set.Protocol.{System}
use hawk_set.Races.Reports.{ReportKey, ReportMap, Reports, check_pm_races}
use hawk_set.Config.{CInt, ok}
use hawk_set.Run.{main_start, alone, Run}
use hawk_set.Run.Invariant.{Run-Follows, started-IsValid}
use hawk_set.Sound.{Has, All, IsFenceTrace}
use hawk_set.Sound.Memory.{get_elem?-below}
use hawk_set.Startup.{Knobs}
use hawk_set.Tool.{Tool}
use hawk_set.Prelude.{
  ℕ, zero, suc, ◌+◌, ◌≤◌, ◌≡◌, refl, ap, ◌∙◌, Bool, true, false, Option, none, some, List, [], ◌∷◌,
  length, get_elem?, arith,
}

-- There is a result.
abbrev pub Returns : {A : Type 0} → Option A → Type 0
Returns {A} o = (a : A) × (o ≡ some a)

bind-Returns :
    {A B : Type 0} (o : Option A) (f : A → Option B)
    → Returns o
    → ((a : A) → Returns (f a))
    → Returns (o >>= f)
bind-Returns o f (a, e) g = let (b, h) = g a in (b, ap (λ p. p >>= f) e ∙ h)

symbols_loop-Returns :
    (rounds i : ℕ) (strings : List String)
    → i + rounds ≤ length strings
    → Returns (symbols_loop rounds i strings)
unfolding symbols_loop
symbols_loop-Returns zero i strings h = ([], refl)
symbols_loop-Returns (suc rounds) i strings h =
    let more = symbols_loop-Returns rounds (i + 1) strings (omega arith) in
    bind-Returns (get_elem? strings i) _ (get_elem?-below strings i (omega arith))
      (λ line. bind-Returns (symbols_loop rounds (i + 1) strings) _ more (λ trace. (_, refl)))

module _ (backtrace_symbols : List ℕ → Option (List String))
    (one_each : (addresses : List ℕ) (strings : List String)
      → backtrace_symbols addresses ≡ some strings
      → length strings ≡ length addresses)
    (pool : List (List ℕ)) where
  get_backtrace_symbols-Returns :
      (trace : Trace)
      → Has pool trace
      → Returns (get_backtrace_symbols backtrace_symbols pool trace)
  unfolding get_backtrace_symbols
  get_backtrace_symbols-Returns trace h =
      bind-Returns (get_elem? pool trace) _ h
        (λ addresses. lines addresses (backtrace_symbols addresses) refl)
    where
      lines :
          (addresses : List ℕ) (o : Option (List String))
          → backtrace_symbols addresses ≡ o
          → Returns {A = Text} (elim o [
            | none ↦ some ("(no symbols found)" ∷ [])
            | some strings ↦ symbols_loop (length addresses) 0 strings
          ])
      lines addresses none e = (_, refl)
      lines addresses (some strings) e =
          symbols_loop-Returns (length addresses) 0 strings
            (omega (arith, one_each addresses strings e))

  output_loads-Returns :
      (start : Bool) (loads : List Trace)
      → All (Has pool) loads
      → Returns (output_loads backtrace_symbols pool start loads)
  unfolding output_loads
  output_loads-Returns start [] a = ([], refl)
  output_loads-Returns start (t ∷ ts) a =
      let more = output_loads-Returns false ts a.1 in
      bind-Returns (get_backtrace_symbols backtrace_symbols pool t) _
        (get_backtrace_symbols-Returns t a.0)
        (λ access_symbols.
          bind-Returns (output_loads backtrace_symbols pool false ts) _ more (λ rest. (_, refl)))

  output_race-Returns :
      (key : ReportKey) (loads : List Trace)
      → IsReport pool true (key, loads)
      → Returns (output_race backtrace_symbols pool key loads)
  output_race-Returns ((write_trace, fence_trace), was_flushed) loads h =
      bind-Returns (get_backtrace_symbols backtrace_symbols pool write_trace) _
        (get_backtrace_symbols-Returns write_trace h.0.0)
        (λ write.
          bind-Returns (fence_symbols backtrace_symbols pool fence_trace) _
            (fenced fence_trace h.0.1)
            (λ fence.
              bind-Returns (output_loads backtrace_symbols pool true loads) _
                (output_loads-Returns true loads h.1) (λ text. (_, refl))))
    where
      fenced :
          (o : Option Trace)
          → IsFenceTrace pool true o
          → Returns (fence_symbols backtrace_symbols pool o)
      fenced none e = absurd (ground (arith, e))
      fenced (some trace) g = get_backtrace_symbols-Returns trace g

  output_unpersisted-Returns :
      (key : ReportKey) (loads : List Trace)
      → IsReport pool false (key, loads)
      → Returns (output_unpersisted backtrace_symbols pool key loads)
  output_unpersisted-Returns ((write_trace, ignore_trace), was_flushed) loads h =
      bind-Returns (get_backtrace_symbols backtrace_symbols pool write_trace) _
        (get_backtrace_symbols-Returns write_trace h.0.0)
        (λ write.
          bind-Returns (ignore_symbols backtrace_symbols pool ignore_trace) _
            (ignored ignore_trace h.0.1)
            (λ fence.
              bind-Returns (output_loads backtrace_symbols pool true loads) _
                (output_loads-Returns true loads h.1) (λ text. (_, refl))))
    where
      ignored :
          (o : Option Trace)
          → IsFenceTrace pool false o
          → Returns (ignore_symbols backtrace_symbols pool o)
      ignored none e = (_, refl)
      ignored (some trace) g = get_backtrace_symbols-Returns trace g

  output_loop-Returns :
      (persisted : Bool) (output : ReportKey → List Trace → Option Text) (m : ReportMap)
      → ((key : ReportKey) (loads : List Trace)
          → IsReport pool persisted (key, loads)
          → Returns (output key loads))
      → All (IsReport pool persisted) m
      → Returns (output_loop backtrace_symbols pool output m)
  unfolding output_loop
  output_loop-Returns persisted output [] h a = ([], refl)
  output_loop-Returns persisted output ((key, loads) ∷ m) h a =
      let more = output_loop-Returns persisted output m h a.1 in
      bind-Returns (output key loads) _ (h key loads a.0) (λ first.
        bind-Returns (output_loop backtrace_symbols pool output m) _ more (λ rest. (_, refl)))

  output_races-Returns :
      (r : Reports) → IsReports pool r → Returns (output_races backtrace_symbols pool r)
  unfolding output_races
  output_races-Returns r h =
      bind-Returns (output_loop backtrace_symbols pool (output_race backtrace_symbols pool) r.races)
        _ (output_loop-Returns true _ r.races output_race-Returns h.0)
        (λ races.
          bind-Returns
            (output_loop backtrace_symbols pool (output_unpersisted backtrace_symbols pool)
              r.unpersisted_races)
            _ (output_loop-Returns false _ r.unpersisted_races output_unpersisted-Returns h.1)
            (λ unpersisted. (_, refl)))

-- Let `backtrace_symbols` give one string for each address when it gives any. After every run of any
-- number of threads from the start of the first one, the analysis of the tool's state gives reports
-- that `OutputRaces` writes out to the end: no trace that it reads is null or unknown, and no string
-- is read beyond the array.
pub Run-output_races :
    (backtrace_symbols : List ℕ → Option (List String))
    → ((addresses : List ℕ) (strings : List String)
        → backtrace_symbols addresses ≡ some strings
        → length strings ≡ length addresses)
    → (memory : ℕ → ℕ) (readlink : ℕ → Option Bytes) (atoi : String → CInt) (knobs : Knobs)
      (t : Tool) (s : System)
    → main_start atoi knobs ≡ ok (some (tt, t))
    → Run memory readlink (alone t) s
    → Returns (output_races backtrace_symbols s.tool.backtraces (check_pm_races s.tool))
Run-output_races backtrace_symbols one_each memory readlink atoi knobs t s started run =
    let (sound, clocks) =
      (Run-Follows memory readlink (alone t) s (started-IsValid atoi knobs t started) run).0 in
    output_races-Returns backtrace_symbols one_each s.tool.backtraces (check_pm_races s.tool)
      (check_pm_races-Is s.tool sound)
