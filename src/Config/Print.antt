-- ===== src/Config/Print.antt =====
-- The entries that spell out a configuration of src/utils.hpp, and which documents have them.
use Prim.Native.String.{String}
use hawk_set.Config.{
  CInt, Node, scalar, sequence, mapping, Document, MutexFunctionInfo, MutexConfig,
}
use hawk_set.Handlers.{LockType, mutex_type, write_type, read_type}
use hawk_set.Prelude.{ℕ, Bool, true, false, Option, none, some, List, [], ◌∷◌, ◌++◌, ◌≡◌, map}

-- A key with its text.
abbrev pub Field : Type 0
Field = String × String

-- The value of an entry of the root.
pub data Value : Type 0 where
  number : String → Value
  names : List String → Value
  functions : List (String × List Field) → Value

module _ (itoa : CInt → String) where
  abbrev pub type_text : LockType → String
  type_text mutex_type = "regular"
  type_text write_type = "write"
  type_text read_type = "read"

  abbrev pub type_fields : Option LockType → List Field
  type_fields none = []
  type_fields (some t) = ("type", type_text t) ∷ []

  abbrev pub result_fields : Bool → CInt → List Field
  result_fields false n = []
  result_fields true n = ("result_id_arg", itoa n) ∷ []

  abbrev pub value_field : Bool → CInt → Field
  value_field false n = ("success_value", itoa n)
  value_field true n = ("failure_value", itoa n)

  unfoldable pub info_entry : MutexFunctionInfo → String × List Field
  info_entry i = (
    i.name,
    ("mutex_id_arg", itoa i.mutex_id_arg)
          ∷ value_field i.success_is_failure i.success_value
          ∷ result_fields i.use_result_arg i.result_id_arg
        ++ type_fields i.type,
  )

  abbrev pub size_entry : Option CInt → List (String × Value)
  size_entry none = []
  size_entry (some n) = ("mutex_id_size", number (itoa n)) ∷ []

  unfoldable pub entries : MutexConfig → List (String × Value)
  unfolding info_entry
  entries c =
      ("adquire", functions (map info_entry c.adquire))
      ∷ ("release", functions (map info_entry c.release))
      ∷ ("try_adquire", functions (map info_entry c.try_adquire))
      ∷ ("adq_rel", names c.adq_rel)
      ∷ size_entry c.mutex_id_size

-- The nodes that hold a text, fields, names, functions and entries.
abbrev pub Holds : Document → ℕ → Node → Type 0
Holds d i n = d.node i ≡ some n

pub data Fields (d : Document) : List (ℕ × ℕ) → List Field → Type 0 where
  no_fields : Fields d [] []
  field_and :
      {key value : ℕ}
      → {k v : String} → {ps : List (ℕ × ℕ)} → {fs : List Field} → Holds d key (scalar k)
      → Holds d value (scalar v)
      → Fields d ps fs
      → Fields d ((key, value) ∷ ps) ((k, v) ∷ fs)

pub data Names (d : Document) : List ℕ → List String → Type 0 where
  no_names : Names d [] []
  name_and :
      {item : ℕ}
      → {name : String} → {items : List ℕ} → {ns : List String} → Holds d item (scalar name)
      → Names d items ns
      → Names d (item ∷ items) (name ∷ ns)

pub data Functions (d : Document) : List (ℕ × ℕ) → List (String × List Field) → Type 0 where
  no_functions : Functions d [] []
  function_and :
      {key value : ℕ}
      → {k : String} → {fps ps : List (ℕ × ℕ)} → {fs : List Field}
      → {rest : List (String × List Field)} → Holds d key (scalar k)
      → Holds d value (mapping fps)
      → Fields d fps fs
      → Functions d ps rest
      → Functions d ((key, value) ∷ ps) ((k, fs) ∷ rest)

pub data Valued (d : Document) : Node → Value → Type 0 where
  valued_number : {text : String} → Valued d (scalar text) (number text)
  valued_names :
      {items : List ℕ}
      → {ns : List String} → Names d items ns
      → Valued d (sequence items) (names ns)
  valued_functions :
      {ps : List (ℕ × ℕ)}
      → {fs : List (String × List Field)} → Functions d ps fs
      → Valued d (mapping ps) (functions fs)

pub data Entries (d : Document) : List (ℕ × ℕ) → List (String × Value) → Type 0 where
  no_entries : Entries d [] []
  entry_and :
      {key value : ℕ}
      → {k : String} → {n : Node} → {v : Value} → {ps : List (ℕ × ℕ)} → {es : List (String × Value)}
      → Holds d key (scalar k)
      → Holds d value n
      → Valued d n v
      → Entries d ps es
      → Entries d ((key, value) ∷ ps) ((k, v) ∷ es)

-- The document's root is a mapping with these entries.
pub data Shows (d : Document) (es : List (String × Value)) : Type 0 where
  shows : {ps : List (ℕ × ℕ)} → d.root ≡ some (mapping ps) → Entries d ps es → Shows d es
