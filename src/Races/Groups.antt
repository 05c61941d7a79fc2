-- ===== src/Races/Groups.antt =====
-- No store is lost and none is made up when `CheckPMRaces` of src/hawkset.cpp groups them.
use hawk_set.Backtrace.{Trace}
use hawk_set.Cache.{LocksetPtr, Caches, deref, lockset_comparison}
use hawk_set.Intern.{Comparison}
use hawk_set.Races.Reports.{
  update_at, bool_eq, trace_ptr_eq, StoreKey, store_key_eq, same_locks, Traces, traces_eq,
  insert_traces, Groups, group_store, group_stores,
}
use hawk_set.Tool.{StoreFenceData}
use hawk_set.Prelude.{
  ℕ, ◌≡◌, ◌↔◌, refl, sym, ap, ◌∙◌, inl, inr, Bool, true, false, ◌&&◌, ◌||◌, Option, none, some,
  List, [], ◌∷◌, ◌==◌, ==_iff, if◌then◌else◌, Bool-cases, arith,
}

-- The value at a key, or what a missing one starts at.
unfoldable pub look : {K V : Type 0} → (K → K → Bool) → V → K → List (K × V) → V
look same d q [] = d
look same d q ((j, v) ∷ m) = let rest = look same d q m in if same j q then v else rest

-- Keys that are equal are equal to the same ones.
same_left :
    {K : Type 0} (cmp : Comparison K) (j k q : K)
    → cmp.same j k ≡ true
    → cmp.same j q ≡ cmp.same k q
same_left cmp j k q h = elim (Bool-cases (cmp.same k q)) [
  | inl e ↦ cmp.same_trans j k q h e ∙ sym e
  | inr e ↦ elim (Bool-cases (cmp.same j q)) [
    | inl e' ↦ ground (arith, e, cmp.same_trans k j q (cmp.same_sym j k h) e')
    | inr e' ↦ e' ∙ sym e
  ]
]

module _ {K V : Type 0} (cmp : Comparison K) where
  look-update_at :
      (f : V → V) (d : V) (k q : K) (m : List (K × V))
      → look cmp.same d q (update_at cmp.same f d k m)
        ≡ (if cmp.same k q then f (look cmp.same d q m) else look cmp.same d q m)
  unfolding look update_at
  look-update_at f d k q [] = refl
  look-update_at f d k q ((j, v) ∷ m) = elim (Bool-cases (cmp.same j k)) [
    | inl e ↦ ground (arith, e, same_left cmp j k q e)
    | inr e ↦ elim (Bool-cases (cmp.same j q)) [
      | inl e' ↦ elim (Bool-cases (cmp.same k q)) [
        | inl e'' ↦ ground (arith, e, cmp.same_trans j q k e' (cmp.same_sym k q e''))
        | inr e'' ↦ ground (arith, e, e', e'')
      ]
      | inr e' ↦ ground (arith, e, e', look-update_at f d k q m)
    ]
  ]

pub bool_eq_iff : (a b : Bool) → (bool_eq a b ≡ true) ↔ (a ≡ b)
unfolding bool_eq
bool_eq_iff true b = ((λ h. sym h), (λ h. sym h))
bool_eq_iff false true = ground arith
bool_eq_iff false false = ground arith

abbrev pub nat_comparison : Comparison ℕ
nat_comparison = record {
  same = ◌==◌;
  same_refl = λ a. (==_iff a a).1 refl;
  same_sym = λ a b h. (==_iff b a).1 (sym ((==_iff a b).0 h));
  same_trans = λ a b c h k. (==_iff a c).1 ((==_iff a b).0 h ∙ (==_iff b c).0 k);
}

pub store_key_eq_refl : (a : StoreKey) → store_key_eq a a ≡ true
unfolding store_key_eq
store_key_eq_refl a = ground (
  arith,
  ==_iff a.address a.address,
  bool_eq_iff a.persisted a.persisted,
  bool_eq_iff a.was_flushed a.was_flushed,
)

pub store_key_eq_sym : (a b : StoreKey) → store_key_eq a b ≡ true → store_key_eq b a ≡ true
unfolding store_key_eq
store_key_eq_sym a b h = ground (
  arith,
  bool_eq_iff a.persisted b.persisted,
  bool_eq_iff a.was_flushed b.was_flushed,
  bool_eq_iff b.persisted a.persisted,
  bool_eq_iff b.was_flushed a.was_flushed,
)

pub store_key_eq_trans :
    (a b c : StoreKey) → store_key_eq a b ≡ true → store_key_eq b c ≡ true → store_key_eq a c ≡ true
unfolding store_key_eq
store_key_eq_trans a b c h k = ground (
  arith,
  bool_eq_iff a.persisted b.persisted,
  bool_eq_iff a.was_flushed b.was_flushed,
  bool_eq_iff b.persisted c.persisted,
  bool_eq_iff b.was_flushed c.was_flushed,
  bool_eq_iff a.persisted c.persisted,
  bool_eq_iff a.was_flushed c.was_flushed,
)

trace_ptr_eq_iff : (a b : Option Trace) → (trace_ptr_eq a b ≡ true) ↔ (a ≡ b)
unfolding trace_ptr_eq
trace_ptr_eq_iff none none = ground arith
trace_ptr_eq_iff none (some u) = ground arith
trace_ptr_eq_iff (some t) none = ground arith
trace_ptr_eq_iff (some t) (some u) = ground (arith, ==_iff t u)

pub traces_eq_iff : (a b : Traces) → (traces_eq a b ≡ true) ↔ (a ≡ b)
unfolding traces_eq
traces_eq_iff (w, f) (x, g) = ground (arith, ==_iff w x, trace_ptr_eq_iff f g)

pub same_locks_refl : (c : Caches) (a : LocksetPtr) → same_locks c a a ≡ true
unfolding same_locks
same_locks_refl c a = lockset_comparison.same_refl (deref c a)

pub same_locks_sym :
    (c : Caches) (a b : LocksetPtr) → same_locks c a b ≡ true → same_locks c b a ≡ true
unfolding same_locks
same_locks_sym c a b = lockset_comparison.same_sym (deref c a) (deref c b)

pub same_locks_trans :
    (c : Caches) (a b d : LocksetPtr)
    → same_locks c a b ≡ true
    → same_locks c b d ≡ true
    → same_locks c a d ≡ true
unfolding same_locks
same_locks_trans c a b d = lockset_comparison.same_trans (deref c a) (deref c b) (deref c d)

abbrev pub locks_comparison : Caches → Comparison LocksetPtr
locks_comparison c = record {
  same = same_locks c;
  same_refl = same_locks_refl c;
  same_sym = same_locks_sym c;
  same_trans = same_locks_trans c;
}

abbrev pub key_comparison : Comparison StoreKey
key_comparison = record {
  same = store_key_eq;
  same_refl = store_key_eq_refl;
  same_sym = store_key_eq_sym;
  same_trans = store_key_eq_trans;
}

-- Is there a pair of traces among these?
unfoldable pub has_traces : Traces → List Traces → Bool
has_traces t [] = false
has_traces t (u ∷ us) = if traces_eq u t then true else has_traces t us

pub has_traces-insert :
    (t u : Traces) (us : List Traces)
    → has_traces t (insert_traces u us) ≡ (traces_eq u t || has_traces t us)
unfolding has_traces insert_traces
has_traces-insert t u [] = ground arith
has_traces-insert t u (w ∷ us) = elim (Bool-cases (traces_eq w u)) [
  | inl e ↦ let p : w ≡ u = (traces_eq_iff w u).0 e in ground (arith, e, ap (λ x. traces_eq x t) p)
  | inr e ↦ ground (arith, e, has_traces-insert t u us)
]

-- Are the traces in the group of this key, of these locks and of this clock?
unfoldable pub in_group : Caches → StoreKey → LocksetPtr → ℕ → Traces → Groups → Bool
unfolding look has_traces
in_group c key ls clock t groups =
    has_traces t
      (look (◌==◌) [] clock (look (same_locks c) [] ls (look store_key_eq [] key groups)))

-- Is the store one of this key, of these locks, of this clock and with these traces?
unfoldable pub matches : Caches → StoreKey → LocksetPtr → ℕ → Traces → StoreFenceData → Bool
matches c key ls clock t rls =
    store_key_eq
      (record { address = rls.address; persisted = rls.persisted; was_flushed = rls.was_flushed })
      key
    && (same_locks c rls.common_set ls
        && ((rls.clock_i == clock) && traces_eq (rls.write_trace, rls.fence_trace) t))

unfoldable pub any_matches :
    Caches → StoreKey → LocksetPtr → ℕ → Traces → List StoreFenceData → Bool
unfolding matches
any_matches c key ls clock t [] = false
any_matches c key ls clock t (rls ∷ stores) =
    if matches c key ls clock t rls then true else any_matches c key ls clock t stores

-- An update seen through a test that it extends by `x`.
pub through :
    {K V : Type 0} (cmp : Comparison K) (f : V → V) (d : V) (k q : K) (m : List (K × V))
    (test : V → Bool) (x : Bool)
    → ((v : V) → test (f v) ≡ (x || test v))
    → test (look cmp.same d q (update_at cmp.same f d k m))
      ≡ ((cmp.same k q && x) || test (look cmp.same d q m))
through cmp f d k q m test x h = ap test (look-update_at cmp f d k q m) ∙ cases (cmp.same k q)
  where
    cases :
        (b : Bool)
        → test (if b then f (look cmp.same d q m) else look cmp.same d q m)
          ≡ ((b && x) || test (look cmp.same d q m))
    cases true = h (look cmp.same d q m)
    cases false = refl

in_group-group_store :
    (c : Caches) (key : StoreKey) (ls : LocksetPtr) (clock : ℕ) (t : Traces) (rls : StoreFenceData)
    (groups : Groups)
    → in_group c key ls clock t (group_store c rls groups)
      ≡ (matches c key ls clock t rls || in_group c key ls clock t groups)
unfolding in_group group_store matches
in_group-group_store c key ls clock t rls groups =
    through key_comparison _ [] _ key groups
      (λ g. has_traces t (look (◌==◌) [] clock (look (same_locks c) [] ls g))) _
      (λ g.
        through (locks_comparison c) _ [] rls.common_set ls g
          (λ l. has_traces t (look (◌==◌) [] clock l)) _
          (λ l.
            through nat_comparison _ [] rls.clock_i clock l (has_traces t) _
              (has_traces-insert t (rls.write_trace, rls.fence_trace))))

-- The traces of a group are those of the stores with its key, with equal locks and with its clock:
-- grouping loses no store and makes none up.
pub in_group-group_stores :
    (c : Caches) (key : StoreKey) (ls : LocksetPtr) (clock : ℕ) (t : Traces)
    (stores : List StoreFenceData) (groups : Groups)
    → in_group c key ls clock t (group_stores c stores groups)
      ≡ (any_matches c key ls clock t stores || in_group c key ls clock t groups)
unfolding group_stores any_matches
in_group-group_stores c key ls clock t [] groups = refl
in_group-group_stores c key ls clock t (rls ∷ stores) groups = ground (
  arith,
  in_group-group_stores c key ls clock t stores (group_store c rls groups),
  in_group-group_store c key ls clock t rls groups,
)
