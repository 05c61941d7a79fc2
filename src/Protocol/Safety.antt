-- ===== src/Protocol/Safety.antt =====
-- The creations of threads in every order of the steps: `PthreadCreateReplacement` and
-- `TraceThreadStart` of src/hawkset.cpp.
use hawk_set.Map
use hawk_set.Protocol.{
  Pc, absent, born, announced, running, calling, waiting, put_pc, System, Step, enter, fail, spawn,
  announce, init, finish, join, exit, Reach, here, next, create_enter, create_finish,
  start_announce, start_init, join_finish, tid_of,
}
use hawk_set.Protocol.Invariant.{
  busy, Inv, same_owner, enter-Inv, fail-Inv, spawn-Inv, announce-Inv, finish-Inv, move-Inv,
}
use hawk_set.Races.{tls_max_size}
use hawk_set.Threads.{process_thread_create, process_thread_init, process_thread_join}
use hawk_set.Threads.Frame.{Keeps, process_thread_exit-Keeps, same_created, Keeps-bind, Keeps-pure}
use hawk_set.Tool.{Tool, M, ◌>>=◌, ◌>>◌, pure, change_thread}
use hawk_set.Prelude.{
  ℕ, ◌≡◌, ◌≢◌, refl, sym, ap, subst, ◌∙◌, Bool, true, false, not, Option, none, some, ◌==◌,
  if◌then◌else◌, ltb, Bool-cases, inl, inr, arith,
}

abbrev pub IsConsistent : System → Type 0
IsConsistent s = Inv s.owner s.semaphore s.pc s.tool.created_thread_id

create_enter-Keeps : (p pid : ℕ) → Keeps (create_enter p pid)
unfolding create_enter process_thread_create
create_enter-Keeps p pid s s' a h = same_created _ a _ s' h

create_finish-Keeps : (memory : ℕ → ℕ) → Keeps (create_finish memory)
unfolding create_finish
create_finish-Keeps memory s s' a h = same_created _ a _ s' h

-- The branches of a test.
Keeps-if : {A : Type 0} (m n : M A) (b : Bool) → Keeps m → Keeps n → Keeps (if b then m else n)
Keeps-if m n true h k = h
Keeps-if m n false h k = k

start_init-Keeps : (c : ℕ) → Keeps (start_init c)
unfolding start_init process_thread_init
start_init-Keeps c s s' a h = elim (Bool-cases (ltb c tls_max_size)) [
  | inl e ↦ same_created _ a _ s' (sym (ap outcome e) ∙ h)
  | inr e ↦
      let stopped : ◌≡◌ {A = Option (Unit {0} × Tool)} none (some (a, s')) =
        sym (ap outcome e) ∙ h in
      cc
]
  where
    outcome : Bool → Option (Unit {0} × Tool)
    outcome b =
        if not b
        then none
        else (change_thread c (λ t. record t { used = true })
              >> process_thread_init c s.creator_thread_id)
            s

process_thread_join-Keeps : (p q : ℕ) → Keeps (process_thread_join p q)
unfolding process_thread_join
process_thread_join-Keeps p q s s' a h = same_created _ a _ s' h

tid_of-Keeps : (pid : ℕ) → Keeps (tid_of pid)
unfolding tid_of
tid_of-Keeps pid s s' a h = go (Map.find pid s.pthread_id_to_tid) h
  where
    fresh : Tool
    fresh = record s { pthread_id_to_tid = Map.assign pid 0 s.pthread_id_to_tid }

    go :
        (o : Option ℕ)
        → ◌≡◌ {A = Option (ℕ × Tool)}
            (elim o [ none ↦ some (0, fresh) | some q ↦ some (q, s) ])
            (some (a, s'))
        → s'.created_thread_id ≡ s.created_thread_id
    go none k = same_created 0 a fresh s' k
    go (some q) k = same_created q a s s' k

join_finish-Keeps : (p result pid : ℕ) → Keeps (join_finish p result pid)
unfolding join_finish
join_finish-Keeps p result pid =
    Keeps-if (tid_of pid >>= λ q. process_thread_join p q) (pure tt) (result == 0)
      (Keeps-bind (tid_of pid) (process_thread_join p) (tid_of-Keeps pid)
        (process_thread_join-Keeps p))
      (Keeps-pure tt)

announce_created :
    (c : ℕ) (s s' : Tool) → start_announce c s ≡ some (tt, s') → s'.created_thread_id ≡ c
unfolding start_announce
announce_created c s s' h = same_created tt tt (record s { created_thread_id = c }) s' h

-- Each step keeps the invariant.
pub Step-IsConsistent :
    {memory : ℕ → ℕ} {s s' : System} → Step memory s s' → IsConsistent s → IsConsistent s'
Step-IsConsistent {s = s} (enter p pid t h o e eq) inv = subst IsConsistent (sym eq) (
    subst (Inv (some p) s.semaphore (put_pc s.pc p (calling pid)))
      (sym (create_enter-Keeps p pid s.tool t tt e))
      (enter-Inv s.owner s.semaphore s.pc s.tool.created_thread_id inv p pid h o))
Step-IsConsistent {s = s} (fail p pid h eq) inv =
    subst IsConsistent (sym eq)
      (fail-Inv s.owner s.semaphore s.pc s.tool.created_thread_id inv p pid h)
Step-IsConsistent {s = s} (spawn p pid c h a eq) inv =
    subst IsConsistent (sym eq)
      (spawn-Inv s.owner s.semaphore s.pc s.tool.created_thread_id inv p pid c h a)
Step-IsConsistent {s = s} (announce c t h e eq) inv = subst IsConsistent (sym eq) (
    subst (Inv s.owner (if c == 0 then s.semaphore else true) (put_pc s.pc c announced))
      (sym (announce_created c s.tool t e))
      (announce-Inv s.owner s.semaphore s.pc s.tool.created_thread_id inv c
        (if c == 0 then s.semaphore else true) h))
Step-IsConsistent {s = s} (init c t h e eq) inv = subst IsConsistent (sym eq) (
    subst (Inv s.owner s.semaphore (put_pc s.pc c running)) (sym (start_init-Keeps c s.tool t tt e))
      (move-Inv s.owner s.semaphore s.pc s.tool.created_thread_id inv c running (ap busy h) refl
        (λ x. cc)))
Step-IsConsistent {s = s} (finish p pid c t h sem e eq) inv = subst IsConsistent (sym eq) (
    subst (Inv none false (put_pc s.pc p running)) (sym (create_finish-Keeps _ s.tool t tt e))
      (finish-Inv s.owner s.semaphore s.pc s.tool.created_thread_id inv p pid c h sem))
Step-IsConsistent {s = s} (join p result pid t h e eq) inv =
    subst IsConsistent (sym eq) (
      subst (Inv s.owner s.semaphore s.pc) (sym (join_finish-Keeps p result pid s.tool t tt e)) inv)
Step-IsConsistent {s = s} (exit p t h e eq) inv = subst IsConsistent (sym eq) (
    subst (Inv s.owner s.semaphore (put_pc s.pc p absent))
      (sym (process_thread_exit-Keeps p s.tool t tt e))
      (move-Inv s.owner s.semaphore s.pc s.tool.created_thread_id inv p absent (ap busy h) refl
        (λ x. cc)))

pub Reach-IsConsistent :
    {memory : ℕ → ℕ} {start s : System} → IsConsistent start → Reach memory start s → IsConsistent s
Reach-IsConsistent inv here = inv
Reach-IsConsistent inv (next r step) = Step-IsConsistent step (Reach-IsConsistent inv r)

-- No thread is in a creation, and the semaphore is not set.
abbrev pub Calm : System → Type 0
Calm s = ((p : ℕ) → (busy (s.pc p) ≡ false) × (s.pc p ≢ born)) × (s.semaphore ≡ false)

pub Calm-IsConsistent : (s : System) → Calm s → IsConsistent s
Calm-IsConsistent s (calm, off) = record {
  owned = λ p b. absurd (ground (arith, calm p));
  started = λ c b. off;
  awaited = λ c b. absurd ((calm c).1 b);
  posted = λ e. absurd (ground (arith, off));
}

-- The thread that a creation has started.
abbrev pub child_of : Pc → ℕ
child_of (waiting pid c) = c
child_of _ = 0

-- In every order of the steps, from a state in which no thread is in a creation and the semaphore is
-- not set: when a creation gets past its semaphore, the thread that it finds in
-- `created_thread_id` is the one that it has started, and no other thread is in a creation.
pub Reach-created :
    {memory : ℕ → ℕ} {start s : System}
    → Calm start
    → Reach memory start s
    → (p pid c : ℕ) → s.pc p ≡ waiting pid c
    → s.semaphore ≡ true
    → (s.tool.created_thread_id ≡ c) × ((q : ℕ) → busy (s.pc q) ≡ true → q ≡ p)
Reach-created {start = start} {s = s} calm r p pid c w sem =
    let inv : IsConsistent s = Reach-IsConsistent (Calm-IsConsistent start calm) r in
    let (q, pid', w') = inv.posted sem in
    let same = same_owner s.owner s.semaphore s.pc s.tool.created_thread_id inv in
    let places : s.pc p ≡ s.pc q = ap s.pc (same p q (ap busy w) (ap busy w')) in
    (sym (ap child_of (sym w ∙ (places ∙ w'))), λ u b. same u p b (ap busy w))
