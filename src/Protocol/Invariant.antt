-- ===== src/Protocol/Invariant.antt =====
-- At most one creation is under way, and its semaphore is set only by the thread that it started.
use hawk_set.Protocol.{Pc, absent, born, announced, running, calling, waiting, put_pc}
use hawk_set.Prelude.{
  ℕ, ◌≡◌, ◌≢◌, refl, ap, Bool, true, false, Option, none, some, ==_iff, Bool-cases, inl, inr, arith,
}

-- Is the thread in a creation?
abbrev pub busy : Pc → Bool
busy (calling pid) = true
busy (waiting pid c) = true
busy _ = false

pub record Inv (owner : Option ℕ) (semaphore : Bool) (pc : ℕ → Pc) (created : ℕ) : Type 0 where
  pub owned : (p : ℕ) → busy (pc p) ≡ true → owner ≡ some p
  pub started : (c : ℕ) → pc c ≡ born → semaphore ≡ false
  pub awaited : (c : ℕ) → pc c ≡ born → (p : ℕ) × (pid : ℕ) × (pc p ≡ waiting pid c)
  pub posted : semaphore ≡ true → (p : ℕ) × (pid : ℕ) × (pc p ≡ waiting pid created)

module _ (owner : Option ℕ) (semaphore : Bool) (pc : ℕ → Pc) (created : ℕ)
    (inv : Inv owner semaphore pc created) where
  busy_waiting : (p pid c : ℕ) → pc p ≡ waiting pid c → busy (pc p) ≡ true
  busy_waiting p pid c h = ap busy h

  -- Two threads that are in a creation are one.
  pub same_owner : (p q : ℕ) → busy (pc p) ≡ true → busy (pc q) ≡ true → p ≡ q
  same_owner p q h k = ground (arith, inv.owned p, inv.owned q)

  -- No thread is new, and the semaphore is not set.
  abbrev Quiet : Type 0
  Quiet = ((c : ℕ) → pc c ≢ born) × (semaphore ≡ false)

  Quiet_of : ((q pid c : ℕ) → pc q ≢ waiting pid c) → Quiet
  Quiet_of none_waits = (
    (λ c b. let (p, pid, w) = inv.awaited c b in none_waits p pid c w),
    elim (Bool-cases semaphore) [
      | inl e ↦ let (p, pid, w) = inv.posted e in absurd (none_waits p pid created w)
      | inr e ↦ e
    ],
  )

  free-Quiet : owner ≡ none → Quiet
  free-Quiet o = Quiet_of (λ q pid c w. ground (arith, inv.owned q (ap busy w)))

  calling-Quiet : (p pid : ℕ) → pc p ≡ calling pid → Quiet
  calling-Quiet p pid h =
      Quiet_of (λ q pid' c w.
        let same : pc p ≡ pc q = ap pc (same_owner p q (ap busy h) (ap busy w)) in cc)

  pub enter-Inv :
      (p pid : ℕ)
      → pc p ≡ running
      → owner ≡ none
      → Inv (some p) semaphore (put_pc pc p (calling pid)) created
  enter-Inv p pid h o = record {
    owned = λ u b. ground (arith, inv.owned u, ==_iff u p);
    started = λ c b. (free-Quiet o).1;
    awaited = λ c b. absurd (ground (arith, (free-Quiet o).0 c));
    posted = λ e. absurd (ground (arith, (free-Quiet o).1));
  }

  -- The owner leaves.
  left :
      (p u : ℕ)
      → busy (pc p) ≡ true
      → busy (put_pc pc p running u) ≡ true
      → ◌≡◌ {A = Option ℕ} none (some u)
  left p u h b = absurd (ground (arith, same_owner p u h, ==_iff u p))

  pub fail-Inv : (p pid : ℕ) → pc p ≡ calling pid → Inv none semaphore (put_pc pc p running) created
  fail-Inv p pid h = record {
    owned = λ u b. left p u (ap busy h) b;
    started = λ c b. (calling-Quiet p pid h).1;
    awaited = λ c b. absurd (ground (arith, (calling-Quiet p pid h).0 c));
    posted = λ e. absurd (ground (arith, (calling-Quiet p pid h).1));
  }

  pub spawn-Inv :
      (p pid c : ℕ)
      → pc p ≡ calling pid
      → pc c ≡ absent
      → Inv owner semaphore (put_pc (put_pc pc p (waiting pid c)) c born) created
  spawn-Inv p pid c h a = record {
    owned = λ u b. ground (arith, inv.owned u, inv.owned p, ==_iff u p, ==_iff u c);
    started = λ k b. (calling-Quiet p pid h).1;
    awaited = λ k b. (
      p,
      pid,
      ground (
        arith,
        (calling-Quiet p pid h).0 k,
        ==_iff p p,
        ==_iff k c,
        ==_iff p c,
        ==_iff k p,
        other,
      ),
    );
    posted = λ e. absurd (ground (arith, (calling-Quiet p pid h).1));
  }
    where
      other : p ≢ c
      other e = let same : pc p ≡ pc c = ap pc e in cc

  pub announce-Inv : (c : ℕ) (set : Bool) → pc c ≡ born → Inv owner set (put_pc pc c announced) c
  announce-Inv c set b =
      let (p, pid, w) = inv.awaited c b in
      record {
        owned = λ u h. ground (arith, inv.owned u, ==_iff u c);
        started = λ k h. absurd (only p pid w k h);
        awaited = λ k h. absurd (only p pid w k h);
        posted = λ e. (p, pid, ground (arith, ==_iff p c, other p pid w));
      }
    where
      other : (p pid : ℕ) → pc p ≡ waiting pid c → p ≢ c
      other p pid w e = let same : pc p ≡ pc c = ap pc e in cc

      only : (p pid : ℕ) → pc p ≡ waiting pid c → (k : ℕ) → put_pc pc c announced k ≢ born
      only p pid w k h =
          let old : pc k ≡ born = ground (arith, ==_iff k c) in
          let (q, pid', w') = inv.awaited k old in
          let same : pc p ≡ pc q = ap pc (same_owner p q (ap busy w) (ap busy w')) in
          let eq : k ≡ c = cc in ground (arith, ==_iff k c)

  pub finish-Inv :
      (p pid c : ℕ)
      → pc p ≡ waiting pid c
      → semaphore ≡ true
      → Inv none false (put_pc pc p running) created
  finish-Inv p pid c h e = record {
    owned = λ u b. left p u (ap busy h) b;
    started = λ k b. refl;
    awaited = λ k b. absurd (ground (arith, inv.started k));
    posted = λ f. absurd (ground arith);
  }

  -- A thread that is in no creation and not new goes to such a place.
  pub move-Inv :
      (t : ℕ) (y : Pc)
      → busy (pc t) ≡ false
      → busy y ≡ false
      → y ≢ born
      → Inv owner semaphore (put_pc pc t y) created
  move-Inv t y x_idle y_idle y_old = record {
    owned = λ u b. ground (arith, inv.owned u);
    started = λ c b. ground (arith, inv.started c);
    awaited = λ c b. let (p, pid, w) = inv.awaited c (ground arith) in (p, pid, still p pid c w);
    posted = λ e. let (p, pid, w) = inv.posted e in (p, pid, still p pid created w);
  }
    where
      still : (p pid c : ℕ) → pc p ≡ waiting pid c → put_pc pc t y p ≡ waiting pid c
      still p pid c w = ground (arith, ==_iff p t, other)
        where
          other : p ≢ t
          other e = let same : pc p ≡ pc t = ap pc e in ground (arith, ap busy w)
