-- ===== src/Config/Load.antt =====
-- What `MutexConfig` of src/utils.hpp makes of the entries of a document.
use Prim.Native.String.{String}
use text.Mathlib.Text as Text
use hawk_set.Config.{
  CInt, Node, scalar, Document, node_at, text_at, key_and_entry, fault, Outcome, ok, exits, ◌>>=◌,
  MutexFunctionInfo, new_info, MutexConfig, info_loop, populate_functions, extract_function_list,
  set_field, set_entry, config_loop,
}
use hawk_set.Config.Print.{
  Field, Value, number, names, functions, Fields, no_fields, field_and, Names, no_names, name_and,
  Functions, no_functions, function_and, Holds, Valued, valued_number, valued_names,
  valued_functions, Entries, no_entries, entry_and,
}
use mathlib.Core.List.{append-nil, append_assoc}
use hawk_set.Prelude.{ℕ, none, some, List, [], ◌∷◌, ◌++◌, ◌≡◌, refl, ap, ◌∙◌, sym, if◌then◌else◌}

and_then :
    {A B : Type 0}
    → {o : Outcome A} → {a : A} → {r : Outcome B} → (f : A → Outcome B) → o ≡ ok a
    → f a ≡ r
    → o >>= f ≡ r
and_then f e h = ap (◌>>= f) e ∙ h

same_then :
    {A B : Type 0} (o : Outcome A) {f g : A → Outcome B} → ((a : A) → f a ≡ g a) → o >>= f ≡ o >>= g
same_then (ok a) e = e a
same_then exits e = refl
same_then fault e = refl

module _ (atoi : String → CInt) (d : Document) where
  node_at-Holds : (i : ℕ) → (n : Node) → Holds d i n → node_at d i ≡ ok n
  node_at-Holds i n h = ap (λ o. elim o [ none ↦ fault | some n ↦ ok n ]) h

  text_at-Holds : (i : ℕ) → (text : String) → Holds d i (scalar text) → text_at d i ≡ ok text
  text_at-Holds i text h = ap (λ o. elim o [ some (scalar text) ↦ ok text | _ ↦ fault ]) h

  unfoldable pub set_fields : List Field → MutexFunctionInfo → MutexFunctionInfo
  set_fields [] i = i
  set_fields ((k, v) ∷ fs) i = set_fields fs (set_field atoi d k v i)

  info_loop-Fields :
      {ps : List (ℕ × ℕ)}
      → {fs : List Field} → Fields d ps fs
      → (i : MutexFunctionInfo) → info_loop atoi d ps i ≡ ok (set_fields fs i)
  unfolding set_fields info_loop
  info_loop-Fields no_fields i = refl
  info_loop-Fields (field_and {k} {v} hk hv rest) i = and_then _ (node_at-Holds _ (scalar v) hv) (
      and_then _ (and_then _ (text_at-Holds _ k hk) refl)
        (info_loop-Fields rest (set_field atoi d k v i)))

  unfoldable pub read_all : List (String × List Field) → List MutexFunctionInfo
  read_all [] = []
  read_all ((k, fs) ∷ rest) = set_fields fs (new_info k) ∷ read_all rest

  populate_functions-Functions :
      {ps : List (ℕ × ℕ)}
      → {fs : List (String × List Field)} → Functions d ps fs
      → (before : List MutexFunctionInfo)
      → populate_functions atoi d ps before ≡ ok (before ++ read_all fs)
  unfolding read_all populate_functions
  populate_functions-Functions no_functions before = ap ok (sym (append-nil before))
  populate_functions-Functions (function_and {k} {fs} hk hv fields rest) before =
      and_then _ (node_at-Holds _ _ hv) (
        and_then _
          (and_then _ (text_at-Holds _ k hk)
            (and_then _ (info_loop-Fields fields (new_info k)) refl))
          (populate_functions-Functions rest _ ∙ ap ok (append_assoc before _ _)))

  extract_function_list-Names :
      {items : List ℕ}
      → {ns : List String} → Names d items ns
      → (before : List String) → extract_function_list atoi d items before ≡ ok (before ++ ns)
  unfolding extract_function_list
  extract_function_list-Names no_names before = ap ok (sym (append-nil before))
  extract_function_list-Names (name_and {name} h rest) before =
      and_then _ (node_at-Holds _ (scalar name) h)
        (extract_function_list-Names rest _ ∙ ap ok (append_assoc before _ _))

  -- An entry's value, in the tree.
  unfoldable pub set_value : String → Value → MutexConfig → Outcome MutexConfig
  set_value k (number text) c = set_entry atoi d k (scalar text) c
  set_value k (names ns) c =
      if Text.◌==◌ k "adq_rel" then ok (record c { adq_rel = c.adq_rel ++ ns }) else exits
  set_value k (functions fs) c =
      if Text.◌==◌ k "adquire"
      then ok (record c { adquire = c.adquire ++ read_all fs })
      else if Text.◌==◌ k "try_adquire"
      then ok (record c { try_adquire = c.try_adquire ++ read_all fs })
      else if Text.◌==◌ k "release"
      then ok (record c { release = c.release ++ read_all fs })
      else exits

  unfoldable pub set_values : List (String × Value) → MutexConfig → Outcome MutexConfig
  set_values [] c = ok c
  set_values ((k, v) ∷ es) c = set_value k v c >>= λ c'. set_values es c'

  set_entry-Valued :
      {n : Node}
      → {v : Value} → Valued d n v
      → (k : String) → (c : MutexConfig) → set_entry atoi d k n c ≡ set_value k v c
  unfolding set_value set_entry
  set_entry-Valued valued_number k c = refl
  set_entry-Valued (valued_names ns) k c = rw (extract_function_list-Names ns c.adq_rel) refl
  set_entry-Valued (valued_functions fs) k c =
      rw
        (
          populate_functions-Functions fs c.adquire,
          populate_functions-Functions fs c.release,
          populate_functions-Functions fs c.try_adquire,
        )
        refl

  key_and_entry-Valued :
      (key : ℕ)
      → (k : String) → {n : Node} → {v : Value} → Holds d key (scalar k)
      → Valued d n v
      → (c : MutexConfig) → key_and_entry atoi d key n c ≡ set_value k v c
  key_and_entry-Valued key k h valued_number c =
      and_then _ (text_at-Holds key k h) (set_entry-Valued valued_number k c)
  key_and_entry-Valued key k h (valued_names ns) c =
      and_then _ (text_at-Holds key k h) (set_entry-Valued (valued_names ns) k c)
  key_and_entry-Valued key k h (valued_functions fs) c =
      and_then _ (text_at-Holds key k h) (set_entry-Valued (valued_functions fs) k c)

  pub config_loop-Entries :
      {ps : List (ℕ × ℕ)}
      → {es : List (String × Value)} → Entries d ps es
      → (c : MutexConfig) → config_loop atoi d ps c ≡ set_values es c
  unfolding config_loop set_values
  config_loop-Entries no_entries c = refl
  config_loop-Entries (entry_and {key} {k} {n} {v} {ps} hk hn valued rest) c =
      and_then _ (node_at-Holds _ n hn) (
        ap (◌>>= λ c'. config_loop atoi d ps c') (key_and_entry-Valued key k hk valued c)
        ∙ same_then (set_value k v c) (λ c'. config_loop-Entries rest c'))
