-- ===== src/App/GlobalEnables.antt =====
-- ipmi-rs-core/src/app/global_enables.rs: the byte of the controller's global enables.
use ipmi_rs.Base.{
  ℕ, List, [], ◌∷◌, Result, ok, err, ◌==◌, ◌!=◌, if◌then◌else◌, bit_and, length, get_or,
}

pub data GlobalEnablesError : Type 0 where
  bad_length reserved_bits : ℕ → GlobalEnablesError

-- `BmcGlobalEnables::from_bits`: all bits but 0x10 are flags.
unfoldable pub enables_from_bits : ℕ → Result GlobalEnablesError ℕ
enables_from_bits v = if bit_and v 0xef == v then ok v else err (reserved_bits v)

unfoldable pub parse_enables : List ℕ → Result GlobalEnablesError ℕ
unfolding enables_from_bits
parse_enables bytes =
    if length bytes != 1
    then err (bad_length (length bytes))
    else enables_from_bits (get_or bytes 0 0)

unfoldable pub set_enables_request : ℕ → List ℕ
set_enables_request enables = enables ∷ []

unfoldable pub parse_enables_set : List ℕ → Result GlobalEnablesError (Unit {0})
parse_enables_set [] = ok tt
parse_enables_set (b ∷ bs) = err (bad_length (length (b ∷ bs)))
