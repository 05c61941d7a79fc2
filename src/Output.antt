-- ===== src/Output.antt =====
-- The report: `OutputRaces` of src/hawkset.cpp, with `GetBacktraceSymbols` of src/utils.hpp, on what
-- the analysis has found. `backtrace_symbols` is that of the C library. The text is the list of what
-- is written to the stream; `none` is a read through a null pointer or outside of an array.
pub mod Loads
pub mod Groups
pub mod Reported
pub mod Complete
use Prim.Native.String.{String}
use hawk_set.Backtrace.{Trace}
use hawk_set.Races.Reports.{ReportKey, ReportMap, Reports}
use hawk_set.Prelude.{
  ℕ, zero, suc, ◌+◌, Bool, true, false, Option, none, some, List, [], ◌∷◌, ◌++◌, length, get_elem?,
  if◌then◌else◌,
}

abbrev pub Text : Type 0
Text = List String

infixl 5 ◌>>=◌
abbrev pub ◌>>=◌ : {A B : Type 0} → Option A → (A → Option B) → Option B
o >>= f = elim o [ none ↦ none | some a ↦ f a ]

-- The loop of `_GetBacktraceSymbols` from `i` on.
unfoldable pub symbols_loop : ℕ → ℕ → List String → Option Text
symbols_loop zero i strings = some []
symbols_loop (suc rounds) i strings = do
  line ← get_elem? strings i
  trace ← symbols_loop rounds (i + 1) strings
  some (line ∷ "\n" ∷ trace)

module _ (backtrace_symbols : List ℕ → Option (List String)) (pool : List (List ℕ)) where
  -- `GetBacktraceSymbols`
  unfoldable pub get_backtrace_symbols : Trace → Option Text
  unfolding symbols_loop
  get_backtrace_symbols trace = do
    addresses ← get_elem? pool trace
    elim (backtrace_symbols addresses) [
      | none ↦ some ("(no symbols found)" ∷ [])
      | some strings ↦ symbols_loop (length addresses) 0 strings
    ]

  -- The trace of a pointer, which may be null.
  abbrev pub fence_symbols : Option Trace → Option Text
  fence_symbols none = none
  fence_symbols (some trace) = get_backtrace_symbols trace

  -- The loop over the racy loads.
  unfoldable pub output_loads : Bool → List Trace → Option Text
  unfolding get_backtrace_symbols
  output_loads start [] = some []
  output_loads start (access_trace ∷ races) = do
    access_symbols ← get_backtrace_symbols access_trace
    rest ← output_loads false races
    some ((if start then [] else "---" ∷ "\n" ∷ []) ++ access_symbols ++ rest)

  abbrev pub output_race : ReportKey → List Trace → Option Text
  output_race ((write_trace, fence_trace), was_flushed) races = do
    write ← get_backtrace_symbols write_trace
    fence ← fence_symbols fence_trace
    loads ← output_loads true races
    some (
        "PM address written in:" ∷ "\n" ∷ write
        ++ "\n" ∷ "flushed in:" ∷ "\n" ∷ fence
        ++ "\n" ∷ "can be acessed concurrently in: " ∷ "\n" ∷ loads
        ++ "\n" ∷ [])

  abbrev pub ignore_symbols : Option Trace → Option Text
  ignore_symbols none = some ("<THREAD_EXIT>\n" ∷ [])
  ignore_symbols (some trace) = get_backtrace_symbols trace

  abbrev pub output_unpersisted : ReportKey → List Trace → Option Text
  output_unpersisted ((write_trace, ignore_trace), was_flushed) races = do
    write ← get_backtrace_symbols write_trace
    ignored ← ignore_symbols ignore_trace
    loads ← output_loads true races
    some (
        "PM address written in:" ∷ "\n" ∷ write
        ++ "\n"
          ∷ (if was_flushed then "ignored by (marked for flush):" else "ignored by:")
          ∷ "\n"
          ∷ ignored
        ++ "\n" ∷ "can be acessed concurrently in: " ∷ "\n" ∷ loads
        ++ "\n" ∷ [])

  -- A loop over reports.
  unfoldable pub output_loop : (ReportKey → List Trace → Option Text) → ReportMap → Option Text
  output_loop output [] = some []
  output_loop output ((traces, races) ∷ reports) = do
    first ← output traces races
    rest ← output_loop output reports
    some (first ++ rest)

  -- `OutputRaces`
  unfoldable pub output_races : Reports → Option Text
  unfolding output_loop output_loads get_backtrace_symbols
  output_races r = do
    races ← output_loop output_race r.races
    unpersisted ← output_loop output_unpersisted r.unpersisted_races
    some (races ++ unpersisted)
