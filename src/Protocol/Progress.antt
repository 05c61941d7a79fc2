-- ===== src/Protocol/Progress.antt =====
-- A creation of a thread comes to its end: `PthreadCreateReplacement` and `TraceThreadStart` of
-- src/hawkset.cpp.
use hawk_set.Map
use hawk_set.Protocol.{
  Pc, absent, born, announced, running, calling, waiting, put_pc, System, Step, enter, fail, spawn,
  announce, init, finish, join, exit, Reach, here, next, create_finish, start_announce,
}
use hawk_set.Protocol.Invariant.{busy, same_owner}
use hawk_set.Protocol.Safety.{
  IsConsistent, Reach-IsConsistent, Calm, Calm-IsConsistent, Reach-created, child_of,
}
use hawk_set.Tool.{Tool}
use hawk_set.Prelude.{
  ℕ, ◌≡◌, ◌≢◌, ◌⊎◌, refl, sym, ap, subst, ◌∙◌, Bool, true, false, none, some, ==_iff, inl, inr,
  arith, ◌==◌, Bool-cases, if◌then◌else◌,
}

-- The thread that a creation waits for, which is not thread 0, is still to come, or has set the
-- semaphore.
abbrev pub Awaits : Bool → (ℕ → Pc) → Type 0
Awaits semaphore pc =
    (p pid c : ℕ) → pc p ≡ waiting pid c → c ≢ 0 → (pc c ≡ born) ⊎ (semaphore ≡ true)

-- No creation waits.
NoneWaits : (ℕ → Pc) → Type 0
NoneWaits pc = (p pid c : ℕ) → pc p ≢ waiting pid c

NoneWaits-Awaits : (semaphore : Bool) (pc : ℕ → Pc) → NoneWaits pc → Awaits semaphore pc
unfolding NoneWaits
NoneWaits-Awaits semaphore pc none_waits p pid c w child = absurd (none_waits p pid c w)

-- The only thread in a creation goes to a place where it does not wait.
put-NoneWaits :
    (pc : ℕ → Pc) (t : ℕ) (y : Pc)
    → ((q : ℕ) → busy (pc q) ≡ true → q ≡ t)
    → ((pid c : ℕ) → y ≢ waiting pid c)
    → NoneWaits (put_pc pc t y)
unfolding NoneWaits
put-NoneWaits pc t y only y_free q pid c w = elim (Bool-cases (q == t)) [
  | inl e ↦ y_free pid c (ground (arith, e))
  | inr e ↦
      let old : pc q ≡ waiting pid c = ground (arith, e) in ground (arith, e, only q (ap busy old))
]

-- A thread that is not new and does not wait goes to such a place.
move-Awaits :
    (semaphore : Bool) (pc : ℕ → Pc) (t : ℕ) (y : Pc)
    → Awaits semaphore pc
    → pc t ≢ born
    → ((pid c : ℕ) → y ≢ waiting pid c)
    → Awaits semaphore (put_pc pc t y)
move-Awaits semaphore pc t y awaits t_old y_free p pid c w child = elim (Bool-cases (p == t)) [
  | inl e ↦ absurd (y_free pid c (ground (arith, e)))
  | inr e ↦ elim (awaits p pid c (ground (arith, e)) child) [
    | inr set ↦ inr set
    | inl new ↦ elim (Bool-cases (c == t)) [
      | inl f ↦ absurd (t_old (ap pc (sym ((==_iff c t).0 f)) ∙ new))
      | inr f ↦ inl (ground (arith, f, new))
    ]
  ]
]

spawn-Awaits :
    (semaphore : Bool) (pc : ℕ → Pc) (p pid c : ℕ)
    → ((q : ℕ) → busy (pc q) ≡ true → q ≡ p)
    → Awaits semaphore (put_pc (put_pc pc p (waiting pid c)) c born)
spawn-Awaits semaphore pc p pid c only q pid' c' w child = elim (Bool-cases (q == c)) [
  | inl e ↦ let no : born ≡ waiting pid' c' = ground (arith, e) in cc
  | inr e ↦ elim (Bool-cases (q == p)) [
    | inl f ↦
        let same : waiting pid c ≡ waiting pid' c' = ground (arith, e, f) in
        inl (ground (arith, ap child_of same, ==_iff c' c))
    | inr f ↦
        let old : pc q ≡ waiting pid' c' = ground (arith, e, f) in
        absurd (ground (arith, f, only q (ap busy old)))
  ]
]

-- A thread sets the semaphore, and thread 0 does not.
announce-Awaits :
    (semaphore : Bool) (pc : ℕ → Pc) (t : ℕ)
    → Awaits semaphore pc
    → Awaits (if t == 0 then semaphore else true) (put_pc pc t announced)
announce-Awaits semaphore pc t awaits p pid c w child = elim (Bool-cases (t == 0)) [
  | inr e ↦ inr (rw e refl)
  | inl e ↦
      let zero_there : t ≡ 0 = (==_iff t 0).0 e in
      let still : pc p ≡ waiting pid c = elim (Bool-cases (p == t)) [
        | inl f ↦ let no : announced ≡ waiting pid c = ground (arith, f, w) in cc
        | inr f ↦ ground (arith, f, w)
      ] in
      elim (awaits p pid c still child) [
        | inl new ↦ inl (ground (arith, new, ==_iff c t, zero_there, child))
        | inr set ↦ inr (ground (arith, set, e))
      ]
]

-- Who is in a creation owns it.
only_owner :
    (s : System) (inv : IsConsistent s) (p : ℕ)
    → busy (s.pc p) ≡ true
    → (q : ℕ) → busy (s.pc q) ≡ true
    → q ≡ p
only_owner s inv p b q b' =
    same_owner s.owner s.semaphore s.pc s.tool.created_thread_id inv q p b' b

abbrev SystemAwaits : System → Type 0
SystemAwaits s = Awaits s.semaphore s.pc

Step-Awaits :
    {memory : ℕ → ℕ} {s s' : System}
    → Step memory s s'
    → IsConsistent s
    → SystemAwaits s
    → SystemAwaits s'
Step-Awaits {s = s} (enter p pid t h o e eq) inv awaits = subst SystemAwaits (sym eq) (
    NoneWaits-Awaits s.semaphore _
      (put-NoneWaits s.pc p (calling pid) (λ q b. ground (arith, inv.owned q b, o)) (λ i c w. cc)))
Step-Awaits {s = s} (fail p pid h eq) inv awaits = subst SystemAwaits (sym eq) (
    NoneWaits-Awaits s.semaphore _
      (put-NoneWaits s.pc p running (only_owner s inv p (ap busy h)) (λ i c w. cc)))
Step-Awaits {s = s} (spawn p pid c h a eq) inv awaits =
    subst SystemAwaits (sym eq)
      (spawn-Awaits s.semaphore s.pc p pid c (only_owner s inv p (ap busy h)))
Step-Awaits {s = s} (announce c t h e eq) inv awaits =
    subst SystemAwaits (sym eq) (announce-Awaits s.semaphore s.pc c awaits)
Step-Awaits {s = s} (init c t h e eq) inv awaits =
    subst SystemAwaits (sym eq)
      (move-Awaits s.semaphore s.pc c running awaits (λ b. cc) (λ i c w. cc))
Step-Awaits {s = s} (finish p pid c t h sem e eq) inv awaits = subst SystemAwaits (sym eq) (
    NoneWaits-Awaits false _
      (put-NoneWaits s.pc p running (only_owner s inv p (ap busy h)) (λ i c w. cc)))
Step-Awaits {s = s} (join p result pid t h e eq) inv awaits = subst SystemAwaits (sym eq) awaits
Step-Awaits {s = s} (exit p t h e eq) inv awaits =
    subst SystemAwaits (sym eq)
      (move-Awaits s.semaphore s.pc p absent awaits (λ b. cc) (λ i c w. cc))

Reach-Awaits :
    {memory : ℕ → ℕ} {start s : System} → Calm start → Reach memory start s → SystemAwaits s
Reach-Awaits calm here = λ p pid c w child. absurd (ground (arith, calm.0 p, ap busy w))
Reach-Awaits {start = start} calm (next r step) =
    Step-Awaits step (Reach-IsConsistent (Calm-IsConsistent start calm) r) (Reach-Awaits calm r)

-- The creation of the thread has ended, and the id that the program got is that of the thread.
abbrev pub Ended : (ℕ → ℕ) → System → ℕ → ℕ → Type 0
Ended memory s p c =
    (s.pc p ≡ running)
    × (s.owner ≡ none)
    × (s.semaphore ≡ false)
    × (Map.find (memory s.tool.created_pthread_id_address) s.tool.pthread_id_to_tid ≡ some c)

-- Past the semaphore.
finish-Ended :
    (memory : ℕ → ℕ) (s : System) (p pid c : ℕ)
    → s.pc p ≡ waiting pid c
    → s.semaphore ≡ true
    → s.tool.created_thread_id ≡ c
    → (s' : System) × Step memory s s' × Ended memory s' p c
unfolding create_finish
finish-Ended memory s p pid c w sem created =
    let id : ℕ = memory s.tool.created_pthread_id_address in
    let t : Tool = record s.tool {
      pthread_id_to_tid = Map.assign id s.tool.created_thread_id s.tool.pthread_id_to_tid;
    } in
    (
      record s { tool = t; owner = none; semaphore = false; pc = put_pc s.pc p running },
      finish p pid c t w sem refl refl,
      (
        ground (arith, ==_iff p p),
        refl,
        refl,
        ground (
          arith,
          Map.find-assign id id s.tool.created_thread_id s.tool.pthread_id_to_tid,
          ==_iff id id,
          created,
        ),
      ),
    )

-- In every order of the steps, from a state in which no thread is in a creation and the
-- semaphore is not set: a creation whose
-- thread has been started, and is not thread 0, is never stuck. There are steps after which its creator runs again, the
-- mutex is free, the semaphore is not set, and the id at the address where the tool looks for it is
-- that of the new thread.
pub Reach-Ended :
    {memory : ℕ → ℕ} {start s : System}
    → Calm start
    → Reach memory start s
    → (p pid c : ℕ) → s.pc p ≡ waiting pid c
    → c ≢ 0
    → (s' : System) × Reach memory s s' × Ended memory s' p c
unfolding start_announce
Reach-Ended {memory} {s = s} calm r p pid c w child = elim (Reach-Awaits calm r p pid c w child) [
  | inl new ↦
      let t : Tool = record s.tool { created_thread_id = c } in
      let s1 : System = record s {
        tool = t;
        semaphore = if c == 0 then s.semaphore else true;
        pc = put_pc s.pc c announced;
      } in
      let other : p ≢ c = λ e. let same : s.pc p ≡ s.pc c = ap s.pc e in cc in
      let (s', step, ended) =
        finish-Ended memory s1 p pid c (ground (arith, ==_iff p c, other, w))
          (ground (arith, ==_iff c 0, child)) refl in
      (s', next (next here (announce c t new refl refl)) step, ended)
  | inr set ↦
      let (s', step, ended) =
        finish-Ended memory s p pid c w set (Reach-created calm r p pid c w set).0 in
      (s', next here step, ended)
]
