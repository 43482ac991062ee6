-- ===== src/Constants.antt =====
-- repe-core/src/constants.rs: the protocol constants and the three enums that cross the wire as
-- numbers. `TryFrom` returns `Err(value)` on a number that names no variant.
pub mod Codes
use repe_rs.Prelude.{ℕ, Outcome, Bytes, ascii, ◌==◌, if◌then◌else◌}

abbrev pub repe_spec : ℕ
repe_spec = 0x1507

abbrev pub repe_version : ℕ
repe_version = 1

abbrev pub header_size : ℕ
header_size = 48

pub data ErrorCode : Type 0 where
  ok version_mismatch invalid_header invalid_query invalid_body parse_error : ErrorCode
  method_not_found timeout resource_exhausted internal_error application_error_base : ErrorCode

-- `code as u32`
unfoldable pub error_code_to_u32 : ErrorCode → ℕ
error_code_to_u32 ErrorCode.ok = 0
error_code_to_u32 ErrorCode.version_mismatch = 1
error_code_to_u32 ErrorCode.invalid_header = 2
error_code_to_u32 ErrorCode.invalid_query = 3
error_code_to_u32 ErrorCode.invalid_body = 4
error_code_to_u32 ErrorCode.parse_error = 5
error_code_to_u32 ErrorCode.method_not_found = 6
error_code_to_u32 ErrorCode.timeout = 7
error_code_to_u32 ErrorCode.resource_exhausted = 8
error_code_to_u32 ErrorCode.internal_error = 9
error_code_to_u32 ErrorCode.application_error_base = 4096

unfoldable pub error_code_try_from : ℕ → Outcome ℕ ErrorCode
error_code_try_from value =
    if value == 0
    then Outcome.ok ErrorCode.ok
    else if value == 1
    then Outcome.ok ErrorCode.version_mismatch
    else if value == 2
    then Outcome.ok ErrorCode.invalid_header
    else if value == 3
    then Outcome.ok ErrorCode.invalid_query
    else if value == 4
    then Outcome.ok ErrorCode.invalid_body
    else if value == 5
    then Outcome.ok ErrorCode.parse_error
    else if value == 6
    then Outcome.ok ErrorCode.method_not_found
    else if value == 7
    then Outcome.ok ErrorCode.timeout
    else if value == 8
    then Outcome.ok ErrorCode.resource_exhausted
    else if value == 9
    then Outcome.ok ErrorCode.internal_error
    else if value == 4096
    then Outcome.ok ErrorCode.application_error_base
    else Outcome.err value

-- `Display`
unfoldable pub error_code_to_string : ErrorCode → Bytes
error_code_to_string ErrorCode.ok = ascii "OK"
error_code_to_string ErrorCode.version_mismatch = ascii "Version mismatch"
error_code_to_string ErrorCode.invalid_header = ascii "Invalid header"
error_code_to_string ErrorCode.invalid_query = ascii "Invalid query"
error_code_to_string ErrorCode.invalid_body = ascii "Invalid body"
error_code_to_string ErrorCode.parse_error = ascii "Parse error"
error_code_to_string ErrorCode.method_not_found = ascii "Method not found"
error_code_to_string ErrorCode.timeout = ascii "Timeout"
error_code_to_string ErrorCode.resource_exhausted = ascii "Resource exhausted"
error_code_to_string ErrorCode.internal_error = ascii "Internal error"
error_code_to_string ErrorCode.application_error_base = ascii "Application error"

pub data QueryFormat : Type 0 where
  raw_binary json_pointer : QueryFormat

unfoldable pub query_format_to_u16 : QueryFormat → ℕ
query_format_to_u16 QueryFormat.raw_binary = 0
query_format_to_u16 QueryFormat.json_pointer = 1

unfoldable pub query_format_try_from : ℕ → Outcome ℕ QueryFormat
query_format_try_from value =
    if value == 0
    then Outcome.ok QueryFormat.raw_binary
    else if value == 1
    then Outcome.ok QueryFormat.json_pointer
    else Outcome.err value

pub data BodyFormat : Type 0 where
  raw_binary beve json utf8 : BodyFormat

unfoldable pub body_format_to_u16 : BodyFormat → ℕ
body_format_to_u16 BodyFormat.raw_binary = 0
body_format_to_u16 BodyFormat.beve = 1
body_format_to_u16 BodyFormat.json = 2
body_format_to_u16 BodyFormat.utf8 = 3

unfoldable pub body_format_try_from : ℕ → Outcome ℕ BodyFormat
body_format_try_from value =
    if value == 0
    then Outcome.ok BodyFormat.raw_binary
    else if value == 1
    then Outcome.ok BodyFormat.beve
    else if value == 2
    then Outcome.ok BodyFormat.json
    else if value == 3
    then Outcome.ok BodyFormat.utf8
    else Outcome.err value
