-- ===== src/Threads/Frame.antt =====
-- The end of a thread leaves the fields of a creation alone: `ProcessThreadExit` of src/hawkset.cpp.
use hawk_set.Cache
use hawk_set.Cache.{Caches, TimedPtr}
use hawk_set.Backtrace.{Trace}
use hawk_set.Heuristic
use hawk_set.Heuristic.{Accesses}
use hawk_set.Map.{Map}
use hawk_set.Memory.{record_store, register_unpersisted_store}
use hawk_set.Threads.{exit_line, exit_loop, unpersisted_at_exit, process_thread_exit}
use hawk_set.Tool.{
  StoreData, MemState, ThreadData, Tool, M, ◌>>=◌, pure, handle_access_byte, get_timedlockset,
  get_thread_data, put_thread,
}
use hawk_set.Prelude.{
  ℕ, ◌≡◌, refl, sym, ap, ◌∙◌, Bool, true, false, not, Bool-cases, Option, none, some, [], ◌∷◌,
  if◌then◌else◌, inl, inr,
}

-- An action that leaves the id of the thread that was created last.
abbrev pub Keeps : {A : Type 0} → M A → Type 0
Keeps {A} m =
    (s s' : Tool) (a : A) → m s ≡ some (a, s') → s'.created_thread_id ≡ s.created_thread_id

pub Keeps-bind :
    {A B : Type 0} (m : M A) (f : A → M B) → Keeps m → ((a : A) → Keeps (f a)) → Keeps (m >>= f)
Keeps-bind {A} {B} m f keeps_m keeps_f s s' b h = go (m s) refl h
  where
    go :
        (o : Option (A × Tool))
        → m s ≡ o
        → ◌≡◌ {A = Option (B × Tool)} (elim o [ none ↦ none | some (a, t) ↦ f a t ]) (some (b, s'))
        → s'.created_thread_id ≡ s.created_thread_id
    go none e k = cc
    go (some (a, t)) e k = keeps_f a t s' b k ∙ keeps_m s t a e

-- A result with a state that has the id.
pub same_created :
    {A : Type 0} (a b : A) (t s' : Tool)
    → ◌≡◌ {A = Option (A × Tool)} (some (a, t)) (some (b, s'))
    → s'.created_thread_id ≡ t.created_thread_id
same_created {A} a b t s' h =
    sym (ap (λ (o : Option (A × Tool)). elim o [ none ↦ 0 | some (x, q) ↦ q.created_thread_id ]) h)

pub Keeps-pure : {A : Type 0} (a : A) → Keeps (pure a)
Keeps-pure a s s' b h = same_created a b s s' h

handle_access_byte-Keeps : (tid address : ℕ) → Keeps (handle_access_byte tid address)
unfolding handle_access_byte
handle_access_byte-Keeps tid address s s' b h =
    go (Heuristic.handle_access_byte s.use_init_removal_heuristic_n tid address s.accesses) h
  where
    go :
        (o : Option (Bool × Accesses))
        → ◌≡◌ {A = Option (Bool × Tool)}
            (elim o [ none ↦ none | some (yes_, a) ↦ some (yes_, record s { accesses = a }) ])
            (some (b, s'))
        → s'.created_thread_id ≡ s.created_thread_id
    go none k = cc
    go (some (a, t)) k = same_created a b (record s { accesses = t }) s' k

get_timedlockset-Keeps : (tid : ℕ) → Keeps (get_timedlockset tid)
unfolding get_timedlockset
get_timedlockset-Keeps tid s s' p h = go (s.analysis_data_tls tid).cached_timedlockset h
  where
    t : ThreadData
    t = s.analysis_data_tls tid

    q : TimedPtr × Caches
    q = Cache.timedlockset_cache_get s.caches t.current_timedlockset

    got : Tool
    got = record s {
      caches = q.1;
      analysis_data_tls =
          put_thread s.analysis_data_tls tid (record t { cached_timedlockset = some q.0 });
    }

    go :
        (o : Option TimedPtr)
        → ◌≡◌ {A = Option (TimedPtr × Tool)}
            (elim o [ some r ↦ some (r, s) | none ↦ some (q.0, got) ])
            (some (p, s'))
        → s'.created_thread_id ≡ s.created_thread_id
    go none k = same_created q.0 p got s' k
    go (some r) k = same_created r p s s' k

record_store-Keeps :
    (tid address : ℕ) (stored : StoreData) (current : TimedPtr) (trace : Option Trace)
    (persisted was_flushed : Bool)
    → Keeps (record_store tid address stored current trace persisted was_flushed)
unfolding record_store
record_store-Keeps tid address stored current trace persisted was_flushed s s' a h =
    same_created _ a _ s' h

register_unpersisted_store-Keeps :
    (tid address : ℕ) (stored : StoreData) (current : TimedPtr) (trace : Option Trace)
    (was_flushed : Bool)
    → Keeps (register_unpersisted_store tid address stored current trace was_flushed)
unfolding register_unpersisted_store
register_unpersisted_store-Keeps tid address stored current trace was_flushed =
    Keeps-bind (handle_access_byte tid address) _ (handle_access_byte-Keeps tid address) cases
  where
    cases :
        (record_it : Bool)
        → Keeps (
            if not record_it
            then pure tt
            else record_store tid address stored current trace false was_flushed)
    cases true = record_store-Keeps tid address stored current trace false was_flushed
    cases false = Keeps-pure tt

exit_line-Keeps :
    (tid : ℕ) (line : Map StoreData) (was_flushed : Bool) → Keeps (exit_line tid line was_flushed)
unfolding exit_line
exit_line-Keeps tid [] was_flushed = Keeps-pure tt
exit_line-Keeps tid ((address, stored) ∷ rest) was_flushed =
    let more = exit_line-Keeps tid rest was_flushed in
    Keeps-bind (get_timedlockset tid) _ (get_timedlockset-Keeps tid) (λ current.
      Keeps-bind (register_unpersisted_store tid address stored current none was_flushed) _
        (register_unpersisted_store-Keeps tid address stored current none was_flushed) (λ x. more))

exit_loop-Keeps :
    (tid : ℕ) (m : MemState) (was_flushed : Bool) → Keeps (exit_loop tid m was_flushed)
unfolding exit_loop
exit_loop-Keeps tid [] was_flushed = Keeps-pure tt
exit_loop-Keeps tid ((cl, line) ∷ rest) was_flushed =
    let more = exit_loop-Keeps tid rest was_flushed in
    Keeps-bind (exit_line tid line was_flushed) _ (exit_line-Keeps tid line was_flushed) (λ x. more)

unpersisted_at_exit-Keeps : (tid : ℕ) → Keeps (unpersisted_at_exit tid)
unfolding unpersisted_at_exit
unpersisted_at_exit-Keeps tid =
    Keeps-bind (get_thread_data tid) _ (λ s s' a h. same_created (s.analysis_data_tls tid) a s s' h)
      (λ t.
        Keeps-bind (exit_loop tid t.mem_state false) _ (exit_loop-Keeps tid t.mem_state false)
          (λ x. exit_loop-Keeps tid t.flushed_mem_state true))

pub process_thread_exit-Keeps : (tid : ℕ) → Keeps (process_thread_exit tid)
unfolding process_thread_exit
process_thread_exit-Keeps tid =
    Keeps-bind
      (λ (s : Tool). if s.check_unpersisted_stores then unpersisted_at_exit tid s else pure tt s) _
      checks (λ x s s' a h. same_created _ a _ s' h)
  where
    checks :
        Keeps (λ (s : Tool).
          if s.check_unpersisted_stores then unpersisted_at_exit tid s else pure tt s)
    checks s s' a h = elim (Bool-cases s.check_unpersisted_stores) [
      | inl e ↦
          unpersisted_at_exit-Keeps tid s s' a
            (sym (ap (λ b. if b then unpersisted_at_exit tid s else pure tt s) e) ∙ h)
      | inr e ↦
          Keeps-pure tt s s' a
            (sym (ap (λ b. if b then unpersisted_at_exit tid s else pure tt s) e) ∙ h)
    ]
