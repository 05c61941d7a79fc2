-- ===== src/Config.antt =====
-- The configuration files: `MutexFunctionInfo` and `MutexConfig` of src/utils.hpp, on the document that
-- the library libyaml has loaded. `atoi` is that of the C library.
pub mod Print
pub mod Load
pub mod Roundtrip
use Prim.Native.String.{String}
use text.Mathlib.Text as Text
use hawk_set.Handlers.{LockType, mutex_type, write_type, read_type}
use hawk_set.Prelude.{
  ℕ, ℤ, pos, negsuc, ◌^◌, ◌≡◌, refl, ltb, Bool, true, false, Option, none, some, List, [], ◌∷◌,
  ◌++◌, if◌then◌else◌,
}

-- `int`, of 32 bits, which is what `atoi` returns.
abbrev pub is_int : ℤ → Bool
is_int (pos n) = ltb n (2 ^ 31)
is_int (negsuc n) = ltb n (2 ^ 31)

abbrev pub CInt : Type 0
CInt = (n : ℤ) × (is_int n ≡ true)

abbrev pub minus_one : CInt
minus_one = (negsuc 0, refl)

abbrev pub zero_int : CInt
zero_int = (pos 0, refl)

-- `yaml_node_t`, with the indices of the nodes that it holds.
pub data Node : Type 0 where
  no_node : Node
  scalar : String → Node
  sequence : List ℕ → Node
  mapping : List (ℕ × ℕ) → Node

-- `yaml_document_t`; a node that is not there is the null pointer.
pub record Document : Type 0 where
  pub root : Option Node
  pub node : ℕ → Option Node

-- `exits` is `exit(-1)` of `parseError`; `fault` is a read through a null pointer, or of the text of a
-- node that is no scalar.
pub data Outcome (A : Type 0) : Type 0 where
  ok : A → Outcome A
  exits : Outcome A
  fault : Outcome A

infixl 5 ◌>>=◌
abbrev pub ◌>>=◌ : {A B : Type 0} → Outcome A → (A → Outcome B) → Outcome B
ok a >>= f = f a
exits >>= f = exits
fault >>= f = fault

abbrev pub node_at : Document → ℕ → Outcome Node
node_at d i = elim (d.node i) [ none ↦ fault | some n ↦ ok n ]

-- `data.scalar.value`
abbrev pub text_at : Document → ℕ → Outcome String
text_at d i = elim (d.node i) [ some (scalar text) ↦ ok text | _ ↦ fault ]

-- A field that no constructor sets is `none` until it is set.
pub record MutexFunctionInfo : Type 0 where
  pub name : String
  pub mutex_id_arg : CInt
  pub result_id_arg : CInt
  pub success_value : CInt
  pub success_is_failure : Bool
  pub use_result_arg : Bool
  pub type : Option LockType

abbrev pub new_info : String → MutexFunctionInfo
new_info name = record {
  name = name;
  mutex_id_arg = minus_one;
  result_id_arg = minus_one;
  success_value = zero_int;
  success_is_failure = false;
  use_result_arg = false;
  type = none;
}

-- `mutexTypes[…]`, which makes an entry 0, `MUTEX`, for a name that it does not have.
unfoldable pub mutex_types : String → LockType
mutex_types name =
    if Text.◌==◌ name "read"
    then read_type
    else if Text.◌==◌ name "shared"
    then read_type
    else if Text.◌==◌ name "write"
    then write_type
    else if Text.◌==◌ name "unique"
    then write_type
    else mutex_type

module _ (atoi : String → CInt) (d : Document) where
  -- A scalar of a `MutexFunctionInfo`.
  unfoldable pub set_field : String → String → MutexFunctionInfo → MutexFunctionInfo
  unfolding mutex_types
  set_field key value info =
      if Text.◌==◌ key "mutex_id_arg"
      then record info { mutex_id_arg = atoi value }
      else if Text.◌==◌ key "result_id_arg"
      then record info { result_id_arg = atoi value; use_result_arg = true }
      else if Text.◌==◌ key "success_value"
      then record info { success_value = atoi value; success_is_failure = false }
      else if Text.◌==◌ key "failure_value"
      then record info { success_value = atoi value; success_is_failure = true }
      else if Text.◌==◌ key "type"
      then record info { type = some (mutex_types value) }
      else info

  abbrev pub set_node : ℕ → Node → MutexFunctionInfo → Outcome MutexFunctionInfo
  set_node key (scalar value) info = text_at d key >>= λ text. ok (set_field text value info)
  set_node key _ info = exits

  -- The loop of the constructor of `MutexFunctionInfo`.
  unfoldable pub info_loop : List (ℕ × ℕ) → MutexFunctionInfo → Outcome MutexFunctionInfo
  unfolding set_field
  info_loop [] info = ok info
  info_loop ((key, value) ∷ pairs) info =
      node_at d value >>= λ n. set_node key n info >>= λ info'. info_loop pairs info'

  abbrev pub add_function : ℕ → Node → List MutexFunctionInfo → Outcome (List MutexFunctionInfo)
  add_function key (mapping pairs) funcs =
      text_at d key >>= λ name. info_loop pairs (new_info name) >>= λ info. ok (funcs ++ info ∷ [])
  add_function key _ funcs = exits

  -- `PopulateFunctions`
  unfoldable pub populate_functions :
      List (ℕ × ℕ) → List MutexFunctionInfo → Outcome (List MutexFunctionInfo)
  unfolding info_loop
  populate_functions [] funcs = ok funcs
  populate_functions ((key, value) ∷ pairs) funcs = node_at d value >>= λ n.
      add_function key n funcs >>= λ funcs'. populate_functions pairs funcs'

  abbrev pub add_name : Node → List String → Outcome (List String)
  add_name (scalar text) funcs = ok (funcs ++ text ∷ [])
  add_name _ funcs = exits

  -- `ExtractFunctionList`
  unfoldable pub extract_function_list : List ℕ → List String → Outcome (List String)
  extract_function_list [] funcs = ok funcs
  extract_function_list (item ∷ items) funcs =
      node_at d item >>= λ n. add_name n funcs >>= λ funcs'. extract_function_list items funcs'

pub record MutexConfig : Type 0 where
  pub adquire : List MutexFunctionInfo
  pub release : List MutexFunctionInfo
  pub try_adquire : List MutexFunctionInfo
  pub adq_rel : List String
  pub mutex_id_size : Option CInt

abbrev pub no_config : MutexConfig
no_config = record {
  adquire = [];
  release = [];
  try_adquire = [];
  adq_rel = [];
  mutex_id_size = none;
}

module _ (atoi : String → CInt) (d : Document) where
  -- An entry of the root, by the type of its value.
  unfoldable pub set_entry : String → Node → MutexConfig → Outcome MutexConfig
  unfolding populate_functions extract_function_list
  set_entry key no_node c = exits
  set_entry key (scalar value) c =
      if Text.◌==◌ key "mutex_id_size"
      then ok (record c { mutex_id_size = some (atoi value) })
      else exits
  set_entry key (mapping pairs) c =
      if Text.◌==◌ key "adquire"
      then (populate_functions atoi d pairs c.adquire >>= λ funcs.
          ok (record c { adquire = funcs }))
      else if Text.◌==◌ key "try_adquire"
      then (populate_functions atoi d pairs c.try_adquire >>= λ funcs.
          ok (record c { try_adquire = funcs }))
      else if Text.◌==◌ key "release"
      then (populate_functions atoi d pairs c.release >>= λ funcs.
          ok (record c { release = funcs }))
      else exits
  set_entry key (sequence items) c =
      if Text.◌==◌ key "adq_rel"
      then (extract_function_list atoi d items c.adq_rel >>= λ funcs.
          ok (record c { adq_rel = funcs }))
      else exits

  abbrev pub key_and_entry : ℕ → Node → MutexConfig → Outcome MutexConfig
  key_and_entry key no_node c = exits
  key_and_entry key n c = text_at d key >>= λ text. set_entry text n c

  -- The loop of the constructor of `MutexConfig`.
  unfoldable pub config_loop : List (ℕ × ℕ) → MutexConfig → Outcome MutexConfig
  unfolding set_entry
  config_loop [] c = ok c
  config_loop ((key, value) ∷ pairs) c =
      node_at d value >>= λ n. key_and_entry key n c >>= λ c'. config_loop pairs c'

-- The constructor of `MutexConfig`; `none` is a file that cannot be opened or loaded.
unfoldable pub mutex_config : (String → CInt) → Option Document → Outcome MutexConfig
unfolding config_loop
mutex_config atoi none = ok no_config
mutex_config atoi (some d) = elim d.root [
  | none ↦ fault
  | some (mapping pairs) ↦ config_loop atoi d pairs no_config
  | some _ ↦ exits
]
