-- ===== src/Config/Roundtrip.antt =====
-- What `MutexConfig` of src/utils.hpp reads from a document that spells out a configuration.
use Prim.Native.String.{String}
use hawk_set.Config.{CInt, minus_one, Document, MutexFunctionInfo}
use hawk_set.Handlers.{LockType}
use hawk_set.Prelude.{Bool, false, Option, List, [], ◌∷◌, ◌≡◌}

-- An argument that is not used is not written.
abbrev pub IsWritable : MutexFunctionInfo → Type 0
IsWritable i = (i.use_result_arg ≡ false) → (i.result_id_arg ≡ minus_one)

unfoldable pub AreWritable : List MutexFunctionInfo → Type 0
AreWritable [] = Unit
AreWritable (i ∷ is) = IsWritable i × AreWritable is

module _ (atoi : String → CInt) (itoa : CInt → String) (reads : (n : CInt) → atoi (itoa n) ≡ n)
    (d : Document) where
  abbrev info_of : String → CInt → CInt → CInt → Bool → Bool → Option LockType → MutexFunctionInfo
  info_of name m r s f u t = record {
    name = name;
    mutex_id_arg = m;
    result_id_arg = r;
    success_value = s;
    success_is_failure = f;
    use_result_arg = u;
    type = t;
  }
