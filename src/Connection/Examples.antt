-- ===== src/Connection/Examples.antt =====
-- Concrete values for the theorems on connection types.
use ipmi_rs.Base.{ℕ, ◌≡◌, ◌↔◌, none, some, true, arith}
use ipmi_rs.Connection.CompletionCode.{
  CompletionErrorCode, completion_error, code_byte, is_code, completion_error-code_byte,
}

abbrev highest : ℕ
highest = 0xb

abbrev cancelled_code : ℕ
cancelled_code = 0xc5

completion_error-code_byte_example :
    ((completion_error cancelled_code ≡ none) ↔ (cancelled_code ≡ 0))
    × ((c : CompletionErrorCode)
        → (completion_error cancelled_code ≡ some c)
          ↔ ((code_byte c ≡ cancelled_code) × (is_code c ≡ true)))
completion_error-code_byte_example = completion_error-code_byte cancelled_code (omega arith)
