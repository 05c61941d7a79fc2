-- ===== src/Races/Recorded.antt =====
-- The loads that the analysis compares a store with are those that the run recorded: the two loops of
-- `CheckPMRaces` of src/hawkset.cpp over the threads.
use hawk_set.Backtrace.{Trace}
use hawk_set.Bitset
use hawk_set.Cache.{LocksetPtr, ptr_eq}
use hawk_set.Map
use hawk_set.Map.{Map}
use hawk_set.Races.{Loads, loads_at, loads_opt, clock_at}
use hawk_set.Races.Loads.{
  in_set, in_loads, in_table, any_load, covers, ptr_eq_iff, in_table-loads_opt,
}
use hawk_set.Races.PerThread.{Among, SomeDisjoint, RacyThread}
use hawk_set.Races.Reports.{analysed}
use hawk_set.Tool.{AccessKey, LocksetSet, Tool}
use hawk_set.VectorClock.{VectorClock, is_concurrent}
use hawk_set.Prelude.{
  ℕ, zero, suc, ◌+◌, ◌%◌, ◌^◌, ◌<◌, ◌≤◌, ◌≡◌, ◌≢◌, ◌↔◌, refl, sym, ap, subst, ◌∙◌, inl, inr, Bool,
  true, false, not, ◌&&◌, ◌||◌, none, some, List, [], ◌∷◌, ◌==◌, ==_iff, if◌then◌else◌, Bool-cases,
  Option-cases, arith,
}

-- One of the 64 bits of the mask is that of the byte.
abbrev pub CoversByte : AccessKey → ℕ → Type 0
CoversByte key b =
    (i : ℕ) × (i < 64) × (Bitset.test key.mask i ≡ true) × ((key.address + i) % 2 ^ 64 ≡ b)

covers_sound :
    (n i : ℕ) (key : AccessKey) (b : ℕ) → i + n ≤ 64 → covers n i key b ≡ true → CoversByte key b
unfolding covers
covers_sound zero i key b small h = cc
covers_sound (suc n) i key b small h =
    elim (Bool-cases (Bitset.test key.mask i && ((key.address + i) % 2 ^ 64 == b))) [
      | inl e ↦ (
        i,
        omega (arith, small),
        ground (arith, e),
        (==_iff ((key.address + i) % 2 ^ 64) b).0 (ground (arith, e)),
      )
      | inr e ↦ covers_sound n (i + 1) key b (omega (arith, small)) (ground (arith, h, e))
    ]

covers_complete :
    (n i j : ℕ) (key : AccessKey) (b : ℕ)
    → i ≤ j
    → j < i + n
    → Bitset.test key.mask j ≡ true
    → (key.address + j) % 2 ^ 64 ≡ b
    → covers n i key b ≡ true
unfolding covers
covers_complete zero i j key b low high bit there = absurd (omega (arith, low, high))
covers_complete (suc n) i j key b low high bit there = elim (Bool-cases (i == j)) [
  | inl e ↦
      let same : j ≡ i = sym ((==_iff i j).0 e) in
      let bit_i : Bitset.test key.mask i ≡ true =
        subst (λ k. Bitset.test key.mask k ≡ true) same bit in
      let there_i : ((key.address + i) % 2 ^ 64 == b) ≡ true =
        (==_iff ((key.address + i) % 2 ^ 64) b).1
          (subst (λ k. (key.address + k) % 2 ^ 64 ≡ b) same there) in
      ground (arith, bit_i, there_i)
  | inr e ↦
      let rest =
        covers_complete n (i + 1) j key b (ground (arith, e, low)) (omega (arith, high)) bit
          there in
      ground (arith, rest)
]

in_set_sound : (p : LocksetPtr) (set : LocksetSet) → in_set p set ≡ true → Among p set
unfolding in_set
in_set_sound p [] h = cc
in_set_sound p (q ∷ qs) h = elim (Bool-cases (ptr_eq q p)) [
  | inl e ↦ inl (sym ((ptr_eq_iff q p).0 e))
  | inr e ↦ inr (in_set_sound p qs (ground (arith, h, e)))
]

in_set_complete : (p : LocksetPtr) (set : LocksetSet) → Among p set → in_set p set ≡ true
unfolding in_set
in_set_complete p [] a = absurd a
in_set_complete p (q ∷ qs) (inl e) =
    let there : ptr_eq q p ≡ true = (ptr_eq_iff q p).1 (sym e) in ground (arith, there)
in_set_complete p (q ∷ qs) (inr a) = ground (arith, in_set_complete p qs a)

-- A load in a row of the table, and a recorded one, with a lockset.
abbrev InRow : Trace → ℕ → LocksetPtr → Loads → Type 0
InRow t i p loads = (set : LocksetSet) × Among ((t, i), set) loads × Among p set

abbrev IsRecorded : ℕ → Trace → ℕ → LocksetPtr → List (AccessKey × LocksetSet) → Type 0
IsRecorded b t i p loads =
    (key : AccessKey) × (set : LocksetSet) × Among (key, set) loads
    × CoversByte key b
    × (key.backtrace ≡ t)
    × (key.clock_i ≡ i)
    × Among p set

in_loads_sound :
    (t i : ℕ) (p : LocksetPtr) (loads : Loads) → in_loads t i p loads ≡ true → InRow t i p loads
unfolding in_loads
in_loads_sound t i p [] h = cc
in_loads_sound t i p (((u, j), set) ∷ loads) h =
    elim (Bool-cases ((t == u && i == j) && in_set p set)) [
      | inl e ↦
          let p1 : t ≡ u = (==_iff t u).0 (ground (arith, e)) in
          let p2 : i ≡ j = (==_iff i j).0 (ground (arith, e)) in
          (set, inl (rw (p1, p2) refl), in_set_sound p set (ground (arith, e)))
      | inr e ↦ let (ls, a, m) = in_loads_sound t i p loads (ground (arith, h, e)) in (ls, inr a, m)
    ]

in_loads_complete :
    (t i : ℕ) (p : LocksetPtr) (loads : Loads) → InRow t i p loads → in_loads t i p loads ≡ true
unfolding in_loads
in_loads_complete t i p [] (set, a, m) = absurd a
in_loads_complete t i p (((u, j), set) ∷ loads) (ls, inl e, m) =
    let p1 : t ≡ u = ap (λ (x : (Trace × ℕ) × LocksetSet). x.0.0) e in
    let p2 : i ≡ j = ap (λ (x : (Trace × ℕ) × LocksetSet). x.0.1) e in
    let p3 : ls ≡ set = ap (λ (x : (Trace × ℕ) × LocksetSet). x.1) e in
    let there : in_set p set ≡ true = in_set_complete p set (subst (Among p) p3 m) in
    ground (arith, there, (==_iff t u).1 p1, (==_iff i j).1 p2)
in_loads_complete t i p (((u, j), set) ∷ loads) (ls, inr a, m) =
    ground (arith, in_loads_complete t i p loads (ls, a, m))

-- The four parts of a test, in the order of the code.
all_four :
    (a b c d : Bool)
    → (a && ((b && c) && d)) ≡ true
    → (a ≡ true) × (b ≡ true) × (c ≡ true) × (d ≡ true)
all_four a b c d h = (ground arith, ground arith, ground arith, ground arith)

four : (a b c d : Bool) → a ≡ true → b ≡ true → c ≡ true → d ≡ true → (a && ((b && c) && d)) ≡ true
four a b c d p q r s = ground arith

any_load_sound :
    (b t i : ℕ) (p : LocksetPtr) (loads : List (AccessKey × LocksetSet))
    → any_load b t i p loads ≡ true
    → IsRecorded b t i p loads
unfolding any_load
any_load_sound b t i p [] h = cc
any_load_sound b t i p ((key, ls) ∷ loads) h =
    elim (Bool-cases
      (covers 64 0 key b && ((t == key.backtrace && i == key.clock_i) && in_set p ls))) [
        | inl e ↦
            let (covered, traces, clocks, held) =
              all_four (covers 64 0 key b) (t == key.backtrace) (i == key.clock_i) (in_set p ls)
                e in
            (
              key,
              ls,
              inl refl,
              covers_sound 64 0 key b (omega arith) covered,
              sym ((==_iff t key.backtrace).0 traces),
              sym ((==_iff i key.clock_i).0 clocks),
              in_set_sound p ls held,
            )
        | inr e ↦
            let (k, set, a, c, p1, p2, m) =
              any_load_sound b t i p loads
                (ap (λ x. if x then true else any_load b t i p loads) (sym e) ∙ h) in
            (k, set, inr a, c, p1, p2, m)
      ]

or_later : (x : Bool) {y : Bool} → y ≡ true → (if x then true else y) ≡ true
or_later true h = refl
or_later false h = h

any_load_complete :
    (b t i : ℕ) (p : LocksetPtr) (loads : List (AccessKey × LocksetSet))
    → IsRecorded b t i p loads
    → any_load b t i p loads ≡ true
unfolding any_load
any_load_complete b t i p [] (k, set, a, c, p1, p2, m) = absurd a
any_load_complete b t i p ((key, ls) ∷ loads) (k, set, inr a, c, p1, p2, m) =
    or_later _ (any_load_complete b t i p loads (k, set, a, c, p1, p2, m))
any_load_complete b t i p ((key, ls) ∷ loads) (k, set, inl e, (j, small, bit, there), p1, p2, m) =
    let same : k ≡ key = ap (λ (x : AccessKey × LocksetSet). x.0) e in
    let sets : set ≡ ls = ap (λ (x : AccessKey × LocksetSet). x.1) e in
    let covered : covers 64 0 key b ≡ true =
      subst (λ x. covers 64 0 x b ≡ true) same
        (covers_complete 64 0 j k b (omega arith) small bit there) in
    let held : in_set p ls ≡ true = in_set_complete p ls (subst (Among p) sets m) in
    let traces : (t == key.backtrace) ≡ true =
      (==_iff t key.backtrace).1 (sym p1 ∙ ap (λ (x : AccessKey). x.backtrace) same) in
    let clocks : (i == key.clock_i) ≡ true =
      (==_iff i key.clock_i).1 (sym p2 ∙ ap (λ (x : AccessKey). x.clock_i) same) in
    ap (λ x. if x then true else any_load b t i p loads)
      (four (covers 64 0 key b) (t == key.backtrace) (i == key.clock_i) (in_set p ls) covered traces
        clocks held)

or_false : (x : Bool) → (x || false) ≡ x
or_false true = refl
or_false false = refl

empty_table : (b t i : ℕ) (p : LocksetPtr) → in_table b t i p [] ≡ false
unfolding in_table loads_at in_loads Map.find
empty_table b t i p = refl

loads_at-some :
    (address : ℕ) (opt : Map Loads) (loads : Loads)
    → Map.find address opt ≡ some loads
    → loads_at address opt ≡ loads
unfolding loads_at
loads_at-some address opt loads e =
    ap {B = Loads} (λ o. elim o [ none ↦ [] | some loads ↦ loads ]) e

loads_at-none :
    (address : ℕ) (opt : Map Loads) → Map.find address opt ≡ none → loads_at address opt ≡ []
unfolding loads_at
loads_at-none address opt e = ap {B = Loads} (λ o. elim o [ none ↦ [] | some loads ↦ loads ]) e

none_in : (t i : ℕ) (p : LocksetPtr) → in_loads t i p [] ≡ true → ⊥
unfolding in_loads
none_in t i p h = cc

module _ (s : Tool) (w : LocksetPtr) (clock : VectorClock) (load : Trace) (tid address : ℕ)
    (u : ℕ) where
  -- Another thread than the writer has recorded a load with the trace, of the byte, whose clock is
  -- concurrent with that of the store and one of whose locksets shares no lock with that of the store.
  abbrev pub RacyRecord : Type 0
  RacyRecord =
      ((s.analysis_data_tls u).used ≡ true)
      × (u ≢ tid)
      × (key : AccessKey) × (set : LocksetSet) × Among (key, set)
          (s.analysis_data_tls u).race_likely_loads
      × CoversByte key address
      × (key.backtrace ≡ load)
      × (is_concurrent (clock_at (s.analysis_data_tls u) key.clock_i) clock ≡ true)
      × SomeDisjoint s.caches w set

  abbrev opt : Map Loads
  opt = (analysed s u).race_likely_loads_opt

  in_analysed :
      (i : ℕ) (p : LocksetPtr)
      → (s.analysis_data_tls u).used ≡ true
      → in_loads load i p (loads_at address (analysed s u).race_likely_loads_opt)
        ≡ any_load address load i p (s.analysis_data_tls u).race_likely_loads
  unfolding analysed in_table loads_at in_loads
  in_analysed i p used =
      let kept : (analysed s u).race_likely_loads_opt
          ≡ loads_opt (s.analysis_data_tls u).race_likely_loads [] =
        ap (λ b. if not b then [] else loads_opt (s.analysis_data_tls u).race_likely_loads [])
          used in
      ap (λ m. in_loads load i p (loads_at address m)) kept
      ∙ in_table-loads_opt address load i p (s.analysis_data_tls u).race_likely_loads []
      ∙ (ap (λ x. any_load address load i p (s.analysis_data_tls u).race_likely_loads || x)
            (empty_table address load i p)
          ∙ or_false (any_load address load i p (s.analysis_data_tls u).race_likely_loads))

  pub RacyThread-iff : RacyThread s.caches w clock load (analysed s) tid address u ↔ RacyRecord
  unfolding analysed
  RacyThread-iff = (
    λ (used, other, loads, found, (i, set, a, concurrent, (p, m, disjoint))).
        let row : in_loads load i p (loads_at address (analysed s u).race_likely_loads_opt) ≡ true =
          ap (in_loads load i p) (loads_at-some address opt loads found)
          ∙ in_loads_complete load i p loads (set, a, m) in
        let (key, ls, b, covered, traces, clocks, held) =
          any_load_sound address load i p (s.analysis_data_tls u).race_likely_loads
            (sym (in_analysed i p used) ∙ row) in
        (
          used,
          other,
          key,
          ls,
          b,
          covered,
          traces,
          subst (λ k. is_concurrent (clock_at (s.analysis_data_tls u) k) clock ≡ true) (sym clocks)
              concurrent,
          (p, held, disjoint),
        ),
    λ (used, other, key, ls, b, covered, traces, concurrent, (p, held, disjoint)).
        let row : in_loads load key.clock_i p
              (loads_at address (analysed s u).race_likely_loads_opt)
            ≡ true =
          in_analysed key.clock_i p used
          ∙ any_load_complete address load key.clock_i p (s.analysis_data_tls u).race_likely_loads
              (key, ls, b, covered, traces, refl, held) in
        elim (Option-cases (Map.find address (analysed s u).race_likely_loads_opt)) [
          | inl e ↦
              let no : in_loads load key.clock_i p [] ≡ true =
                sym (ap (in_loads load key.clock_i p) (loads_at-none address opt e)) ∙ row in
              absurd (none_in load key.clock_i p no)
          | inr (loads, e) ↦
              let there : in_loads load key.clock_i p loads ≡ true =
                sym (ap (in_loads load key.clock_i p) (loads_at-some address opt loads e)) ∙ row in
              let (set, a, m) = in_loads_sound load key.clock_i p loads there in
              (used, other, loads, e, (key.clock_i, set, a, concurrent, (p, m, disjoint)))
        ],
  )
