-- ===== src/Error.antt =====
-- src/error.rs: the errors of the crate, the protocol code that each becomes, and its message.
-- An error of `structio` is carried as its message, and a `std::io::Error` as its kind and its message,
-- which is all that this code reads of them.
use repe_rs.Prelude.{ℕ, ◌++◌, Bytes, ascii, decimal, hex4}
use repe_rs.Constants.{ErrorCode, BodyFormat, error_code_to_string}

-- The kinds of `std::io::ErrorKind` that this code names, and `another` for the rest.
pub data ErrorKind : Type 0 where
  timed_out connection_refused connection_reset connection_aborted not_connected unexpected_eof
        would_block interrupted invalid_data other another :
      ErrorKind

-- `unexpected_eof` is the end of a stream, `other` is `io::Error::other` and `custom` `io::Error::new`.
pub data IoError : Type 0 where
  unexpected_eof : IoError
  other : Bytes → IoError
  custom : ErrorKind → Bytes → IoError

-- `io::Error::kind`
unfoldable pub error_kind : IoError → ErrorKind
error_kind IoError.unexpected_eof = ErrorKind.unexpected_eof
error_kind (IoError.other message) = ErrorKind.other
error_kind (IoError.custom kind message) = kind

pub data RepeError : Type 0 where
  version_mismatch : ℕ → RepeError
  invalid_spec : ℕ → RepeError
  invalid_header_length : ℕ → RepeError
  length_mismatch : (expected got : ℕ) → RepeError
  buffer_too_small : (need have : ℕ) → RepeError
  frame_length_overflow : (query_length body_length : ℕ) → RepeError
  response_id_mismatch : (expected got : ℕ) → RepeError
  io : IoError → RepeError
  json : Bytes → RepeError
  beve : Bytes → RepeError
  unknown_enum_value : ℕ → RepeError
  unexpected_body_format : (expected : BodyFormat) → (got : ℕ) → RepeError
  server_error : (code : ErrorCode) → (message : Bytes) → RepeError
  message_too_large : (size limit : ℕ) → RepeError

-- `RepeError::decode`
unfoldable pub decode_error : BodyFormat → Bytes → RepeError
decode_error BodyFormat.beve source = RepeError.beve source
decode_error _ source = RepeError.json source

unfoldable pub to_error_code : RepeError → ErrorCode
to_error_code (RepeError.version_mismatch _) = ErrorCode.version_mismatch
to_error_code (RepeError.invalid_spec _) = ErrorCode.invalid_header
to_error_code (RepeError.invalid_header_length _) = ErrorCode.invalid_header
to_error_code (RepeError.length_mismatch _ _) = ErrorCode.invalid_header
to_error_code (RepeError.buffer_too_small _ _) = ErrorCode.parse_error
to_error_code (RepeError.frame_length_overflow _ _) = ErrorCode.invalid_header
to_error_code (RepeError.response_id_mismatch _ _) = ErrorCode.invalid_header
to_error_code (RepeError.io _) = ErrorCode.parse_error
to_error_code (RepeError.json _) = ErrorCode.parse_error
to_error_code (RepeError.beve _) = ErrorCode.parse_error
to_error_code (RepeError.unknown_enum_value _) = ErrorCode.parse_error
to_error_code (RepeError.unexpected_body_format _ _) = ErrorCode.invalid_body
to_error_code (RepeError.server_error code _) = code
to_error_code (RepeError.message_too_large _ _) = ErrorCode.internal_error

-- `{:?}` of a body format
body_format_name : BodyFormat → Bytes
body_format_name BodyFormat.raw_binary = ascii "RawBinary"
body_format_name BodyFormat.beve = ascii "Beve"
body_format_name BodyFormat.json = ascii "Json"
body_format_name BodyFormat.utf8 = ascii "Utf8"

unfoldable pub io_error_to_string : IoError → Bytes
io_error_to_string IoError.unexpected_eof = ascii "unexpected end of file"
io_error_to_string (IoError.other message) = message
io_error_to_string (IoError.custom kind message) = message

-- `Display`, from the `#[error(...)]` attributes.
unfoldable pub error_to_string : RepeError → Bytes
unfolding body_format_name io_error_to_string error_code_to_string decimal hex4
error_to_string (RepeError.version_mismatch v) = ascii "version mismatch: " ++ decimal v
error_to_string (RepeError.invalid_spec s) = ascii "invalid spec magic: 0x" ++ hex4 s
error_to_string (RepeError.invalid_header_length n) =
    ascii "invalid header length: expected 48, got " ++ decimal n
error_to_string (RepeError.length_mismatch e g) =
    ascii "header length mismatch: expected " ++ (decimal e ++ (ascii ", got " ++ decimal g))
error_to_string (RepeError.buffer_too_small n h) =
    ascii "buffer too small: need " ++ (decimal n ++ (ascii " bytes, have " ++ decimal h))
error_to_string (RepeError.frame_length_overflow q b) =
    ascii "frame lengths are not representable: 48-byte header + query "
    ++ (decimal q ++ (ascii " + body " ++ decimal b))
error_to_string (RepeError.response_id_mismatch e g) =
    ascii "response id mismatch: expected " ++ (decimal e ++ (ascii ", got " ++ decimal g))
error_to_string (RepeError.io e) = ascii "io error: " ++ io_error_to_string e
error_to_string (RepeError.json e) = ascii "json error: " ++ e
error_to_string (RepeError.beve e) = ascii "beve error: " ++ e
error_to_string (RepeError.unknown_enum_value v) =
    ascii "unknown value for enum conversion: " ++ decimal v
error_to_string (RepeError.unexpected_body_format e g) =
    ascii "unexpected body format: expected "
    ++ (body_format_name e ++ (ascii ", got format code " ++ decimal g))
error_to_string (RepeError.server_error c m) =
    ascii "server error " ++ (error_code_to_string c ++ (ascii ": " ++ m))
error_to_string (RepeError.message_too_large s l) =
    ascii "outbound message of "
    ++ (decimal s
        ++ (ascii " bytes exceeds the assumed peer frame limit of "
            ++ (decimal l ++ ascii " bytes")))
