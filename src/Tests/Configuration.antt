-- ===== src/Tests/Configuration.antt =====
-- A configuration file at a concrete input.
use Prim.Native.Char.{code}
use Prim.Native.String.{String}
use hawk_set.Config.{
  CInt, is_int, minus_one, zero_int, Node, scalar, sequence, mapping, Document, MutexConfig,
}
use hawk_set.Config.Roundtrip
use hawk_set.Handlers.{write_type}
use hawk_set.Images.{Insertion, image_load, try_lock_before, try_lock_after}
use hawk_set.Images.Arguments
use hawk_set.Images.Arguments.{misfits}
use hawk_set.Registry.{Registry}
use hawk_set.Tests.States.{start}
use hawk_set.Prelude.{
  ℕ, zero, suc, ℤ, pos, negsuc, ◌==◌, ◌≡◌, refl, Bool, true, false, none, some, List, [], ◌∷◌,
  get_elem?, if◌then◌else◌,
}

-- Numbers as tallies, with a sign.
unfoldable ones : ℕ → String
ones zero = String.[]
ones (suc n) = String.◌∷◌ "1" (ones n)

unfoldable count : String → ℕ
count String.[] = 0
count (String.◌∷◌ c s) = suc (count s)

unfoldable parse_tally : String → ℤ
unfolding count
parse_tally String.[] = pos 0
parse_tally (String.◌∷◌ c s) = if code c == 45 then negsuc (count s) else pos (suc (count s))

-- An `int`; a number that is none is read as 0.
cut : (n : ℤ) (b : Bool) → is_int n ≡ b → CInt
cut n true e = (n, e)
cut n false e = zero_int

unfoldable read_tally : String → CInt
unfolding parse_tally cut
read_tally s = cut (parse_tally s) (is_int (parse_tally s)) refl

unfoldable print_tally : ℤ → String
unfolding ones
print_tally (pos n) = ones n
print_tally (negsuc n) = String.◌∷◌ "-" (ones n)

unfoldable tally : CInt → String
unfolding print_tally
tally n = print_tally n.0

abbrev nodes : List Node
nodes =
    mapping ((1, 2) ∷ (11, 12) ∷ (13, 12) ∷ (14, 15) ∷ (17, 18) ∷ [])
    ∷ scalar "adquire"
    ∷ mapping ((3, 4) ∷ [])
    ∷ scalar "write_lock"
    ∷ mapping ((5, 6) ∷ (7, 8) ∷ (9, 10) ∷ [])
    ∷ scalar "mutex_id_arg"
    ∷ scalar "11"
    ∷ scalar "failure_value"
    ∷ scalar "-"
    ∷ scalar "type"
    ∷ scalar "write"
    ∷ scalar "release"
    ∷ mapping []
    ∷ scalar "try_adquire"
    ∷ scalar "adq_rel"
    ∷ sequence (16 ∷ [])
    ∷ scalar "atomically"
    ∷ scalar "mutex_id_size"
    ∷ scalar "1111"
    ∷ []

abbrev file : Document
file = record { root = get_elem? nodes 0; node = get_elem? nodes }

abbrev config : MutexConfig
config = record {
  adquire =
      record {
        name = "write_lock";
        mutex_id_arg = (pos 2, refl);
        result_id_arg = minus_one;
        success_value = minus_one;
        success_is_failure = true;
        use_result_arg = false;
        type = some write_type;
      }
      ∷ [];
  release = [];
  try_adquire = [];
  adq_rel = "atomically" ∷ [];
  mutex_id_size = some (pos 4, refl);
}

-- A function to try, whose type is not set.
abbrev try_config : MutexConfig
try_config = record config {
  try_adquire =
      record {
        name = "try_write_lock";
        mutex_id_arg = zero_int;
        result_id_arg = minus_one;
        success_value = zero_int;
        success_is_failure = false;
        use_result_arg = false;
        type = none;
      }
      ∷ [];
}

image_load-misfits_example :
    (out : List Insertion × Registry) × (image_load (λ name. true) (try_config ∷ []) start.registry
      ≡ some out)
    × (misfits out.0 ≡ (try_lock_before, 5) ∷ (try_lock_after, 5) ∷ [])
unfolding Arguments.configs_misfits Arguments.IsTyped
image_load-misfits_example =
    Arguments.image_load-misfits (λ name. true) (try_config ∷ []) (((write_type, refl), tt), tt, tt)
      start.registry
