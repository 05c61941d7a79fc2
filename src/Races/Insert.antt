-- ===== src/Races/Insert.antt =====
-- What the table of a thread's loads has after an insertion: `race_likely_loads` in `RegisterAccess`
-- of src/hawkset.cpp.
use hawk_set.Bitset
use hawk_set.Cache.{LocksetPtr, ptr_eq}
use hawk_set.Memory.{insert_lockset, insert_load}
use hawk_set.Races.Loads.{in_set, in_set-insert, any_load, covers}
use hawk_set.Tool.{AccessKey, key_eq, LocksetSet}
use hawk_set.Prelude.{
  ℕ, zero, suc, ◌+◌, ◌%◌, ◌^◌, ◌≤◌, ◌≡◌, refl, ap, ◌∙◌, inl, inr, Bool, true, false, ◌&&◌, ◌||◌,
  List, [], ◌∷◌, ◌==◌, ==_iff, if◌then◌else◌, Bool-cases, arith,
}

-- A load is added to those recorded: at every byte, with every trace, clock and lockset, there is what
-- there was, and the new load with its lockset at the bytes that its mask covers.
abbrev pub Adds :
    AccessKey → LocksetPtr → List (AccessKey × LocksetSet) → List (AccessKey × LocksetSet) → Type 0
Adds key p loads loads' =
    (b t i : ℕ) (q : LocksetPtr)
    → any_load b t i q loads' ≡ (
        (covers 64 0 key b && ((t == key.backtrace && i == key.clock_i) && ptr_eq p q))
        || any_load b t i q loads)

key_eq_parts :
    (k key : AccessKey)
    → key_eq k key ≡ true
    → (k.address ≡ key.address)
      × (k.backtrace ≡ key.backtrace)
      × (k.clock_i ≡ key.clock_i)
      × (Bitset.word_eq k.mask key.mask ≡ true)
unfolding key_eq
key_eq_parts k key h = (
  (==_iff k.address key.address).0 (ground arith),
  (==_iff k.backtrace key.backtrace).0 (ground arith),
  (==_iff k.clock_i key.clock_i).0 (ground arith),
  ground arith,
)

covers-same :
    (n i : ℕ) (k key : AccessKey) (b : ℕ)
    → k.address ≡ key.address
    → Bitset.word_eq k.mask key.mask ≡ true
    → i + n ≤ 64
    → covers n i k b ≡ covers n i key b
unfolding covers
covers-same zero i k key b at_ bits small = refl
covers-same (suc n) i k key b at_ bits small = (λ j.
    if Bitset.word_eq_sound k.mask key.mask i bits (omega (arith, small)) j
      && ((at_ j + i) % 2 ^ 64 == b)
    then true
    else covers-same n (i + 1) k key b at_ bits (omega (arith, small)) j)

merged :
    (c t p q : Bool) (x : Bool)
    → (if c && (t && (p || q)) then true else x)
      ≡ ((c && (t && p)) || (if c && (t && q) then true else x))
merged c t p q x = ground arith

swapped : (a b x : Bool) → (if a then true else (b || x)) ≡ (b || (if a then true else x))
swapped a b x = ground arith

nothing : (a c t : Bool) → (a || (if c && (t && false) then true else false)) ≡ (a || false)
nothing a c t = ground arith

-- What `insert_load` leaves.
pub Adds-insert_load :
    (key : AccessKey) (p : LocksetPtr) (loads : List (AccessKey × LocksetSet))
    → Adds key p loads (insert_load key p loads)
unfolding insert_load any_load
Adds-insert_load key p [] b t i q =
    ap
      (λ x.
        if covers 64 0 key b && ((t == key.backtrace && i == key.clock_i) && x)
        then true
        else false)
      (in_set-insert q p [])
    ∙ merged (covers 64 0 key b) (t == key.backtrace && i == key.clock_i) (ptr_eq p q) (in_set q [])
        false
    ∙ nothing (covers 64 0 key b && ((t == key.backtrace && i == key.clock_i) && ptr_eq p q))
        (covers 64 0 key b) (t == key.backtrace && i == key.clock_i)
Adds-insert_load key p ((k, ls) ∷ loads) b t i q = elim (Bool-cases (key_eq k key)) [
  | inr e ↦
      ap
        (λ c.
          any_load b t i q
            (if c then (k, insert_lockset p ls) ∷ loads else (k, ls) ∷ insert_load key p loads))
        e
      ∙ ap
          (λ x.
            if covers 64 0 k b && ((t == k.backtrace && i == k.clock_i) && in_set q ls)
            then true
            else x)
          (Adds-insert_load key p loads b t i q)
      ∙ swapped (covers 64 0 k b && ((t == k.backtrace && i == k.clock_i) && in_set q ls)) _
          (any_load b t i q loads)
  | inl e ↦
      let (at_, trace, clock, bits) = key_eq_parts k key e in
      ap
        (λ c.
          any_load b t i q
            (if c then (k, insert_lockset p ls) ∷ loads else (k, ls) ∷ insert_load key p loads))
        e
      ∙ ap
          (λ x.
            if covers 64 0 k b && ((t == k.backtrace && i == k.clock_i) && x)
            then true
            else any_load b t i q loads)
          (in_set-insert q p ls)
      ∙ merged (covers 64 0 k b) (t == k.backtrace && i == k.clock_i) (ptr_eq p q) (in_set q ls)
          (any_load b t i q loads)
      ∙ (λ j.
          (covers-same 64 0 k key b at_ bits (omega arith) j
            && ((t == trace j && i == clock j) && ptr_eq p q))
          || any_load b t i q ((k, ls) ∷ loads))
]
