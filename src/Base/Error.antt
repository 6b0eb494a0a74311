-- ===== src/Base/Error.antt =====
-- src/base/error.h and src/base/result.h: the error codes, and a value or an error.
use log_engine.Prelude.{ℕ, Bool, ◌&&◌, ltb}

pub data ErrorCode : Type 0 where
  no_error not_leader request_timed_out not_enough_replicas would_block : ErrorCode
  offset_out_of_range corrupt_record invalid_producer_epoch message_too_large : ErrorCode
  invalid_request unsupported_version io_error closed not_found invalid_argument : ErrorCode

-- The number that travels.
abbrev pub code_number : ErrorCode → ℕ
code_number no_error = 0
code_number not_leader = 1
code_number request_timed_out = 2
code_number not_enough_replicas = 3
code_number would_block = 4
code_number offset_out_of_range = 100
code_number corrupt_record = 101
code_number invalid_producer_epoch = 102
code_number message_too_large = 103
code_number invalid_request = 104
code_number unsupported_version = 105
code_number io_error = 106
code_number closed = 107
code_number not_found = 108
code_number invalid_argument = 109

abbrev pub is_retryable : ErrorCode → Bool
is_retryable code = ltb 0 (code_number code) && ltb (code_number code) 100

-- `Result<T>`; `Status` is `Result Unit`.
pub data Result {ℓ} (A : Type ℓ) : Type ℓ where
  ok : A → Result A
  fail : ErrorCode → Result A

abbrev pub Status : Type 0
Status = Result (Unit {0})
