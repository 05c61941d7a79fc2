-- ===== src/Heuristic/Numbers.antt =====
-- The numbers of the threads, `variable_accessed_map`, after a thread has been given one.
use hawk_set.Bitset.{Bitset}
use hawk_set.Heuristic.{Accesses}
use hawk_set.Heuristic.Refine.{
  mem, add, History, threads, all_threads, mem-threads, Entry, IsNumbering, Tracks,
}
use hawk_set.Map
use hawk_set.Map.{Map}
use hawk_set.Prelude.{
  ℕ, suc, ◌<◌, ◌≡◌, sym, ap, ◌∙◌, inl, inr, true, false, Option, none, some, arith, ◌==◌,
  if◌then◌else◌, is_some, length, Bool-cases,
}

pub record Numbered (n tid : ℕ) (h : History) (s : Accesses) (id : ℕ) (ids : Map ℕ) : Type 0 where
  pub numbering : IsNumbering ids
  pub found : Map.find tid ids ≡ some id
  pub known : (t : ℕ) → Map.contains t ids ≡ mem t (add tid (all_threads h))
  pub size : length ids ≡ length (add tid (all_threads h))
  pub entries : (a : ℕ) → Entry n ids (threads a h) (Map.find a s.variable_accessed)

module _ (n tid : ℕ) (h : History) (s : Accesses) (v : Tracks n h s) where
  abbrev pub ids : Map ℕ
  ids = s.variable_accessed_map

  pub Numbered-old : (id : ℕ) → Map.find tid ids ≡ some id → Numbered n tid h s id ids
  Numbered-old id e =
      let m : mem tid (all_threads h) ≡ true =
        sym (v.known tid) ∙ Map.contains-find tid ids ∙ ap is_some e in
      record {
        numbering = v.numbering;
        found = e;
        known = rw (m, add) v.known;
        size = rw (m, add) v.size;
        entries = v.entries;
      }

  module _ (e : Map.find tid ids ≡ none) where
    unfoldable pub grown : Map ℕ
    grown = Map.assign tid (length ids) ids

    find-grown :
        (t : ℕ) → Map.find t grown ≡ (if t == tid then some (length ids) else Map.find t ids)
    unfolding grown
    find-grown t = Map.find-assign t tid (length ids) ids

    length-grown : length grown ≡ suc (length ids)
    unfolding grown
    length-grown = Map.length-assign tid (length ids) ids e

    unseen : mem tid (all_threads h) ≡ false
    unseen = sym (v.known tid) ∙ Map.contains-find tid ids ∙ ap is_some e

    IsNumbering-grown : IsNumbering grown
    IsNumbering-grown = record {
      below = λ t i f. below t i (sym (find-grown t) ∙ f);
      distinct = λ t u i f g. distinct t u i (sym (find-grown t) ∙ f) (sym (find-grown u) ∙ g);
    }
      where
        Found : ℕ → ℕ → Type 0
        Found t i = (if t == tid then some (length ids) else Map.find t ids) ≡ some i

        below : (t i : ℕ) → Found t i → i < length grown
        below t i f = ground (arith, length-grown, v.numbering.below t i)

        distinct : (t u i : ℕ) → Found t i → Found u i → t ≡ u
        distinct t u i f g =
            ground (arith, v.numbering.below t i, v.numbering.below u i, v.numbering.distinct t u i)

    Entry-grown :
        (a : ℕ) (o : Option Bitset) → Entry n ids (threads a h) o → Entry n grown (threads a h) o
    Entry-grown a none f = f
    Entry-grown a (some w) (inr c) = inr c
    Entry-grown a (some w) (inl o) = inl (record {
      some_bit = o.some_bit;
      within = o.within;
      counted = o.counted;
      bits = λ t i f. bits t i (sym (find-grown t) ∙ f);
      spare = λ i b. o.spare i (omega (arith, length-grown));
    })
      where
        absent : mem tid (threads a h) ≡ false
        absent = elim (Bool-cases (mem tid (threads a h))) [
          | inl m ↦ let z = mem-threads tid a h m in let y = unseen in cc
          | inr m ↦ m
        ]

        bits :
            (t i : ℕ)
            → (if t == tid then some (length ids) else Map.find t ids) ≡ some i
            → w i ≡ mem t (threads a h)
        bits t i f = elim (Bool-cases (t == tid)) [
          | inl p ↦
              let q : t ≡ tid = ground arith in
              let r : length ids ≡ i = ground arith in o.spare i (omega arith) ∙ rw q (sym absent)
          | inr p ↦ o.bits t i (rw p at f)
        ]

    pub Numbered-new : Numbered n tid h s (length ids) grown
    Numbered-new = record {
      numbering = IsNumbering-grown;
      found = find-grown tid ∙ ground arith;
      known = λ t.
          Map.contains-find t grown
          ∙ ap is_some (find-grown t)
          ∙ rw (unseen, add) (ground (arith, v.known t, Map.contains-find t ids));
      size = length-grown ∙ rw (unseen, add) (ap suc v.size);
      entries = λ a. Entry-grown a (Map.find a s.variable_accessed) (v.entries a);
    }
