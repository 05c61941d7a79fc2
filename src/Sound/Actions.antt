-- ===== src/Sound/Actions.antt =====
-- The actions of src/hawkset.cpp on the whole state, which keep its pointers good, and the rules
-- that put them together.
use hawk_set.Sound.{Grows, IsThread, IsSound, Extends}
use hawk_set.Tool.{ThreadData, Tool, M, ◌>>=◌, change_thread, put_thread}
use hawk_set.Prelude.{
  ℕ, ◌≡◌, subst, Bool, true, false, Option, none, some, Bool-cases, inl, inr, ◌==◌, ==_iff,
  if◌then◌else◌,
}

-- A step from the state `s` that does not stop keeps the pointers good and has the property `Q`.
unfoldable pub After : {A : Type 0} → Tool → (Tool → A → Type 0) → Option (A × Tool) → Type 0
After s Q none = Unit {0}
After s Q (some (a, s')) = IsSound s' × Extends s s' × Q s' a

-- No further property.
abbrev pub Any : {A : Type 0} → Tool → A → Type 0
Any s a = Unit {0}

pub Extends-refl : (s : Tool) → Extends s s
Extends-refl s = record {
  locksets = λ p x h. h;
  timed_locksets = λ p x h. h;
  traces = λ p x h. h;
  clocks = λ tid p x h. h;
}

pub Extends-trans : (s t u : Tool) → Extends s t → Extends t u → Extends s u
Extends-trans s t u a b = record {
  locksets = λ p x h. b.locksets p x (a.locksets p x h);
  timed_locksets = λ p x h. b.timed_locksets p x (a.timed_locksets p x h);
  traces = λ p x h. b.traces p x (a.traces p x h);
  clocks = λ tid p x h. b.clocks tid p x (a.clocks tid p x h);
}

module _ {A : Type 0} (s : Tool) (Q : Tool → A → Type 0) where
  pub After-some :
      (a : A) (s' : Tool) → IsSound s' → Extends s s' → Q s' a → After s Q (some (a, s'))
  unfolding After
  After-some a s' sound e q = (sound, e, q)

  pub After-none : After s Q none
  unfolding After
  After-none = tt

  pub After-pure : (a : A) → IsSound s → Q s a → After s Q (some (a, s))
  After-pure a sound q = After-some a s sound (Extends-refl s) q

  pub After-if :
      (b : Bool) (o p : Option (A × Tool))
      → After s Q o
      → After s Q p
      → After s Q (if b then o else p)
  After-if true o p h k = h
  After-if false o p h k = k

  pub After-choose :
      (b : Bool) (m n : M A)
      → After s Q (m s)
      → After s Q (n s)
      → After s Q ((if b then m else n) s)
  After-choose true m n h k = h
  After-choose false m n h k = k

  -- From an earlier state.
  pub After-earlier : (r : Tool) → Extends r s → (o : Option (A × Tool)) → After s Q o → After r Q o
  unfolding After
  After-earlier r e none h = tt
  After-earlier r e (some (a, t)) h = (h.0, Extends-trans r s t e h.1, h.2)

  -- Without the property.
  pub After-weaken : (o : Option (A × Tool)) → After s Q o → After s Any o
  unfolding After
  After-weaken none h = tt
  After-weaken (some (a, t)) h = (h.0, h.1, tt)

  pub After-inverse :
      (o : Option (A × Tool)) (a : A) (s' : Tool)
      → After s Q o
      → o ≡ some (a, s')
      → IsSound s' × Extends s s' × Q s' a
  unfolding After
  After-inverse o a s' h e = subst (After s Q) e h

-- The pools and the threads' data are as they were.
pub After-same :
    {A : Type 0} (s s' : Tool) (Q : Tool → A → Type 0) (a : A)
    → s'.caches ≡ s.caches
    → s'.backtraces ≡ s.backtraces
    → s'.analysis_data_tls ≡ s.analysis_data_tls
    → IsSound s
    → Q s' a
    → After s Q (some (a, s'))
After-same s s' Q a same_caches same_traces same_threads sound q =
    After-some s Q a s' (λ tid. rw (same_caches, same_traces, same_threads) (sound tid))
      (record {
        locksets = λ p x h. rw same_caches h;
        timed_locksets = λ p x h. rw same_caches h;
        traces = λ p x h. rw same_traces h;
        clocks = λ tid p x h. rw same_threads h;
      })
      q

pub After-bind :
    {A B : Type 0} (s : Tool) (Q : Tool → A → Type 0) (R : Tool → B → Type 0) (m : M A)
    (f : A → M B)
    → After s Q (m s)
    → ((a : A) (s' : Tool) → IsSound s' → Extends s s' → Q s' a → After s' R (f a s'))
    → After s R ((m >>= f) s)
unfolding After
After-bind {A} {B} s Q R m f first rest = go (m s) first
  where
    go :
        (o : Option (A × Tool))
        → After s Q o
        → After s R (elim o [ none ↦ none | some (a, t) ↦ f a t ])
    go none h = tt
    go (some (a, t)) h = After-earlier t R s h.1 (f a t) (rest a t h.0 h.1 h.2)

-- The data of a thread is replaced.
pub put-IsSound :
    (s : Tool) (tid : ℕ) (t : ThreadData)
    → IsSound s
    → IsThread s.caches s.backtraces t
    → IsSound (record s { analysis_data_tls = put_thread s.analysis_data_tls tid t })
put-IsSound s tid t sound ok u = elim (Bool-cases (u == tid)) [
  | inl e ↦ rw e ok
  | inr e ↦ rw e (sound u)
]

pub put-Extends :
    (s : Tool) (tid : ℕ) (t : ThreadData)
    → Grows (s.analysis_data_tls tid).vector_clocks t.vector_clocks
    → Extends s (record s { analysis_data_tls = put_thread s.analysis_data_tls tid t })
put-Extends s tid t g = record {
  locksets = λ p x h. h;
  timed_locksets = λ p x h. h;
  traces = λ p x h. h;
  clocks = clocks;
}
  where
    clocks :
        (u : ℕ)
        → Grows
            (s.analysis_data_tls u).vector_clocks
            (put_thread s.analysis_data_tls tid t u).vector_clocks
    clocks u = elim (Bool-cases (u == tid)) [
      | inl e ↦ let same : u ≡ tid = (==_iff u tid).0 e in rw (e, same) g
      | inr e ↦ rw e (λ p x h. h)
    ]

-- `get_thread_data(tid)->… = …`
pub change_thread-After :
    (s : Tool) (tid : ℕ) (f : ThreadData → ThreadData)
    → IsSound s
    → IsThread s.caches s.backtraces (f (s.analysis_data_tls tid))
    → Grows (s.analysis_data_tls tid).vector_clocks (f (s.analysis_data_tls tid)).vector_clocks
    → After s Any (change_thread tid f s)
change_thread-After s tid f sound ok g =
    let t = f (s.analysis_data_tls tid) in
    After-some s Any tt _ (put-IsSound s tid t sound ok) (put-Extends s tid t g) tt
