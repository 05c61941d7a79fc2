-- ===== src/Threads/Order.antt =====
-- What the life of the threads does to their clocks: `ProcessThreadCreate`, `ProcessThreadInit`,
-- `ProcessThreadJoin` and `ProcessThreadExit` of src/hawkset.cpp.
use hawk_set.Threads.Clocks.{not_concurrent, HasRoom, Le-update, before_child, after_child}
use hawk_set.Map
use hawk_set.Map.{Map}
use hawk_set.Threads.{
  last_clock, process_thread_create, process_thread_init, exit_clock, process_thread_join,
  process_thread_exit,
}
use hawk_set.Tool.{ThreadData, Tool, put_thread, put_same, put_other, then_value, ◌>>◌}
use hawk_set.VectorClock.{VectorClock, update_tid, update_clock, is_concurrent, Le, IsClock}
use hawk_set.VectorClock.Order.{
  update_tid-IsClock, Le-trans, update_clock_lub, update_clock-IsClock,
}
use hawk_set.Prelude.{
  ℕ, ◌≡◌, ◌≢◌, refl, sym, subst, ap, ◌∙◌, true, false, some, List, [], ◌∷◌, ◌++◌, arith, ==_iff,
}

-- The clock of a thread now.
abbrev pub now : Tool → ℕ → VectorClock
now s tid = last_clock (s.analysis_data_tls tid).vector_clocks

pub last_clock-append :
    (vcs : List VectorClock) (vc : VectorClock) → last_clock (vcs ++ vc ∷ []) ≡ vc
unfolding last_clock
last_clock-append [] vc = refl
last_clock-append (a ∷ []) vc = refl
last_clock-append (a ∷ b ∷ vcs) vc = last_clock-append (b ∷ vcs) vc

-- The states that the operations leave.
abbrev pub pushed : (ℕ → ThreadData) → ℕ → VectorClock → ℕ → ThreadData
pushed tls tid vc =
    put_thread tls tid (record (tls tid) { vector_clocks = (tls tid).vector_clocks ++ vc ∷ [] })

abbrev created : Tool → ℕ → Tool
created s p = record s {
  creator_thread_clock = update_tid (now s p) p;
  analysis_data_tls = pushed s.analysis_data_tls p (update_tid (update_tid (now s p) p) p);
}

abbrev started : Tool → ℕ → Tool
started s child = record s {
  analysis_data_tls =
      pushed s.analysis_data_tls child (update_tid (update_tid s.creator_thread_clock child) child);
}

create_value :
    (s : Tool) (p child : ℕ)
    → (process_thread_create p >> process_thread_init child (some p)) s
      ≡ some (tt, started (created s p) child)
unfolding process_thread_create process_thread_init
create_value s p child = refl

pub now_same :
    (tls : ℕ → ThreadData) (tid : ℕ) (vc : VectorClock)
    → last_clock (pushed tls tid vc tid).vector_clocks ≡ vc
now_same tls tid vc =
    ap (λ u. last_clock u.vector_clocks) (put_same tls tid _)
    ∙ last_clock-append (tls tid).vector_clocks vc

pub now_other :
    (tls : ℕ → ThreadData) (tid u : ℕ) (vc : VectorClock)
    → u ≢ tid
    → last_clock (pushed tls tid vc u).vector_clocks ≡ last_clock (tls u).vector_clocks
now_other tls tid u vc h = ap (λ d. last_clock d.vector_clocks) (put_other tls tid u _ h)

-- The creation of another thread, when the counters of both in the creator's clock are at least
-- three below the wrap: it does not fail, the creator's clock before it is ordered with the child's
-- first clock, and the creator's clock after it is concurrent with that.
pub create-order :
    (s : Tool) (p child : ℕ)
    → child ≢ p
    → IsClock (now s p)
    → HasRoom (now s p) p
    → HasRoom (now s p) child
    → (s' : Tool) × ((process_thread_create p >> process_thread_init child (some p)) s
        ≡ some (tt, s'))
      × (is_concurrent (now s p) (now s' child) ≡ false)
      × (is_concurrent (now s' p) (now s' child) ≡ true)
create-order s p child other clock room child_room = (
  started (created s p) child,
  create_value s p child,
  ap (is_concurrent (now s p)) child_now
      ∙ before_child (now s p) p child clock other room child_room,
  ap (λ c. is_concurrent c (now (started (created s p) child) child)) creator_now
      ∙ ap (is_concurrent (update_tid (update_tid (now s p) p) p)) child_now
      ∙ after_child (now s p) p child clock other room child_room,
)
  where
    child_now :
        now (started (created s p) child) child
        ≡ update_tid (update_tid (update_tid (now s p) p) child) child
    child_now = now_same (created s p).analysis_data_tls child _

    creator_now : now (started (created s p) child) p ≡ update_tid (update_tid (now s p) p) p
    creator_now =
        now_other (created s p).analysis_data_tls child p _ (λ e. other (sym e))
        ∙ now_same s.analysis_data_tls p _

-- The clock of a thread that joins another one.
abbrev joined : Tool → ℕ → ℕ → VectorClock
joined s tid exit_tid =
    update_clock (update_tid (now s tid) tid) (exit_clock exit_tid s.exit_threads_clock)

abbrev after_join : Tool → ℕ → ℕ → Tool
after_join s tid exit_tid = record s {
  exit_threads_clock =
      Map.assign exit_tid (exit_clock exit_tid s.exit_threads_clock) s.exit_threads_clock;
  analysis_data_tls = pushed s.analysis_data_tls tid (joined s tid exit_tid);
}

join_value :
    (s : Tool) (tid exit_tid : ℕ)
    → process_thread_join tid exit_tid s ≡ some (tt, after_join s tid exit_tid)
unfolding process_thread_join
join_value s tid exit_tid = refl

-- `ProcessThreadExit` without the report of the stores that were never persisted.
abbrev exited : Tool → ℕ → Tool
exited s tid = record s {
  exit_threads_clock = Map.assign tid (update_tid (now s tid) tid) s.exit_threads_clock;
  analysis_data_tls = pushed s.analysis_data_tls tid (update_tid (now s tid) tid);
}

exit_value :
    (s : Tool) (tid : ℕ)
    → s.check_unpersisted_stores ≡ false
    → process_thread_exit tid s ≡ some (tt, exited s tid)
unfolding process_thread_exit
exit_value s tid h = rw h refl

run :
    (s : Tool) (tid exit_tid : ℕ)
    → s.check_unpersisted_stores ≡ false
    → (process_thread_exit exit_tid >> process_thread_join tid exit_tid) s
      ≡ some (tt, after_join (exited s exit_tid) tid exit_tid)
run s tid exit_tid off =
    then_value (process_thread_exit exit_tid) (process_thread_join tid exit_tid) s
      (exited s exit_tid) (exit_value s exit_tid off)
    ∙ join_value (exited s exit_tid) tid exit_tid

exit_clock-assign :
    (tid : ℕ) (vc : VectorClock) (m : Map VectorClock) → exit_clock tid (Map.assign tid vc m) ≡ vc
unfolding exit_clock
exit_clock-assign tid vc m = ground (arith, Map.find-assign tid tid vc m, ==_iff tid tid)

joined_value :
    (s : Tool) (tid exit_tid : ℕ)
    → tid ≢ exit_tid
    → joined (exited s exit_tid) tid exit_tid
      ≡ update_clock (update_tid (now s tid) tid) (update_tid (now s exit_tid) exit_tid)
joined_value s tid exit_tid other =
    ap
      (λ c.
        update_clock (update_tid c tid)
          (exit_clock exit_tid (exited s exit_tid).exit_threads_clock))
      (now_other s.analysis_data_tls exit_tid tid _ other)
    ∙ ap (update_clock (update_tid (now s tid) tid))
        (exit_clock-assign exit_tid (update_tid (now s exit_tid) exit_tid) s.exit_threads_clock)

-- The exit of a thread and a join of it by another one, when stores that were never persisted are
-- not looked for and the own counters of both are at least three below the wrap: neither fails, and
-- the clocks of both before are ordered with the clock of the joining thread after it.
pub join-order :
    (s : Tool) (tid exit_tid : ℕ)
    → tid ≢ exit_tid
    → s.check_unpersisted_stores ≡ false
    → IsClock (now s tid)
    → IsClock (now s exit_tid)
    → HasRoom (now s tid) tid
    → HasRoom (now s exit_tid) exit_tid
    → (s' : Tool) × ((process_thread_exit exit_tid >> process_thread_join tid exit_tid) s
        ≡ some (tt, s'))
      × (is_concurrent (now s tid) (now s' tid) ≡ false)
      × (is_concurrent (now s exit_tid) (now s' tid) ≡ false)
join-order s tid exit_tid other off clock gone_clock room exit_room = (
  after_join (exited s exit_tid) tid exit_tid,
  run s tid exit_tid off,
  not_concurrent (now s tid) _ clock joined-IsClock
      (subst (Le (now s tid)) (sym joined_now) own_above),
  not_concurrent (now s exit_tid) _ gone_clock joined-IsClock
      (subst (Le (now s exit_tid)) (sym joined_now) exit_above),
)
  where
    own : VectorClock
    own = update_tid (now s tid) tid

    gone : VectorClock
    gone = update_tid (now s exit_tid) exit_tid

    own-IsClock : IsClock own
    own-IsClock = update_tid-IsClock (now s tid) tid clock

    gone-IsClock : IsClock gone
    gone-IsClock = update_tid-IsClock (now s exit_tid) exit_tid gone_clock

    joined_now : now (after_join (exited s exit_tid) tid exit_tid) tid ≡ update_clock own gone
    joined_now =
        now_same (exited s exit_tid).analysis_data_tls tid _ ∙ joined_value s tid exit_tid other

    joined-IsClock : IsClock (now (after_join (exited s exit_tid) tid exit_tid) tid)
    joined-IsClock = subst IsClock (sym joined_now) (update_clock-IsClock own gone own-IsClock)

    own_above : Le (now s tid) (update_clock own gone)
    own_above =
        Le-trans (now s tid) own (update_clock own gone) (Le-update (now s tid) tid room)
          (update_clock_lub own gone gone-IsClock).0

    exit_above : Le (now s exit_tid) (update_clock own gone)
    exit_above =
        Le-trans (now s exit_tid) gone (update_clock own gone)
          (Le-update (now s exit_tid) exit_tid exit_room) (update_clock_lub own gone gone-IsClock).1
