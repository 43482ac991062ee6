-- ===== src/Constants/Codes.antt =====
-- The wire codes of src/repe-core/src/constants.rs: the conversions in the two directions.
use repe_rs.Prelude.{ℕ, ◌≡◌, ◌↔◌, Outcome, arith}
use repe_rs.Constants.{
  ErrorCode, QueryFormat, BodyFormat, error_code_to_u32, error_code_try_from, query_format_to_u16,
  query_format_try_from, body_format_to_u16, body_format_try_from,
}

-- `ErrorCode::try_from` accepts exactly the codes that `ErrorCode` converts to, each as its own error
-- code, and refuses every other number.
error_code_try_from_iff :
    (v : ℕ) (c : ErrorCode) → (error_code_try_from v ≡ Outcome.ok c) ↔ (error_code_to_u32 c ≡ v)
unfolding error_code_try_from error_code_to_u32
error_code_try_from_iff v c = ground arith

-- The same of `QueryFormat`.
query_format_try_from_iff :
    (v : ℕ) (f : QueryFormat)
    → (query_format_try_from v ≡ Outcome.ok f) ↔ (query_format_to_u16 f ≡ v)
unfolding query_format_try_from query_format_to_u16
query_format_try_from_iff v f = ground arith

-- The same of `BodyFormat`.
body_format_try_from_iff :
    (v : ℕ) (f : BodyFormat) → (body_format_try_from v ≡ Outcome.ok f) ↔ (body_format_to_u16 f ≡ v)
unfolding body_format_try_from body_format_to_u16
body_format_try_from_iff v f = ground arith
