-- ===== src/Message/Response.antt =====
-- The response constructors of src/message.rs. A result value enters by the encodings that structio
-- gives it: `to_json` and `to_beve`.
use repe_rs.Prelude.{ℕ, ◌+◌, Bytes, ◌||◌, not, ok, if◌then◌else◌, length, is_empty}
use repe_rs.Constants.{header_size, ErrorCode, QueryFormat, BodyFormat, query_format_try_from}
use repe_rs.Message.{Message, MessageView}
use repe_rs.Message.Builder
use repe_rs.Message.Builder.{MessageBuilder, builder, build}

unfoldable pub create_error_message : ErrorCode → Bytes → Message
create_error_message code msg =
    build (
      Builder.body_format BodyFormat.utf8
        (Builder.body_bytes msg (Builder.error_code code builder)))

-- Sets `query` and the two lengths that depend on it.
unfoldable pub with_query : Bytes → Message → Message
with_query query m = record m {
  query = query;
  header = record (m.header) {
    query_length = length query;
    length = header_size + length query + m.header.body_length;
  };
}

unfoldable pub create_error_response_for : ℕ → Bytes → ErrorCode → Bytes → Message
unfolding create_error_message with_query
create_error_response_for id query code msg =
    let e = create_error_message code msg in
    with_query query (record e { header = record (e.header) { id = id } })

unfoldable pub create_error_response_like : Message → ErrorCode → Bytes → Message
unfolding create_error_response_for
create_error_response_like request code msg =
    create_error_response_for request.header.id request.query code msg

unfoldable pub create_error_response_unstamped_view : MessageView → ErrorCode → Bytes → Message
unfolding create_error_message
create_error_response_unstamped_view view code msg =
    let e = create_error_message code msg in
    record e { header = record (e.header) { id = view.header.id } }

-- `QueryFormat::try_from(code).unwrap_or(QueryFormat::RawBinary)`
unfoldable pub query_format_or_raw : ℕ → QueryFormat
unfolding query_format_try_from
query_format_or_raw code = elim (query_format_try_from code) [
  | ok f ↦ f
  | _ ↦ QueryFormat.raw_binary
]

unfoldable pub response_header_builder : ℕ → ℕ → MessageBuilder
unfolding query_format_or_raw
response_header_builder id query_format =
    Builder.error_code ErrorCode.ok
      (Builder.query_format (query_format_or_raw query_format) (Builder.id id builder))

unfoldable pub create_body_response_unstamped : Message → Bytes → BodyFormat → Message
unfolding response_header_builder
create_body_response_unstamped request body body_format = build (
    Builder.body_format body_format (
      Builder.body_bytes body
        (response_header_builder request.header.id request.header.query_format)))

module _ {R : Type 0} (to_json to_beve : R → Bytes) where
  unfoldable pub finish_response : MessageBuilder → R → BodyFormat → Message
  finish_response b result BodyFormat.json = build (Builder.body_json (to_json result) b)
  finish_response b result BodyFormat.utf8 = build (Builder.body_utf8 (to_json result) b)
  finish_response b result BodyFormat.raw_binary =
      build (Builder.body_format BodyFormat.raw_binary (Builder.body_bytes (to_json result) b))
  finish_response b result BodyFormat.beve = build (Builder.body_beve (to_beve result) b)

  unfoldable pub create_response : Message → R → BodyFormat → Message
  unfolding finish_response response_header_builder
  create_response request result body_format =
      finish_response
        (Builder.query_bytes request.query
          (response_header_builder request.header.id request.header.query_format))
        result body_format

  unfoldable pub create_response_unstamped : Message → R → BodyFormat → Message
  unfolding finish_response response_header_builder
  create_response_unstamped request result body_format =
      finish_response (response_header_builder request.header.id request.header.query_format) result
        body_format

  unfoldable pub create_response_unstamped_view : MessageView → R → BodyFormat → Message
  unfolding finish_response response_header_builder
  create_response_unstamped_view view result body_format =
      finish_response (response_header_builder view.header.id view.header.query_format) result
        body_format

unfoldable pub stamp_response_query : Message → Bytes → Message
unfolding with_query
stamp_response_query response request_query =
    if is_empty request_query || not (is_empty response.query)
    then response
    else with_query request_query response

unfoldable pub response_echo_query : Message → Bytes → Bytes
response_echo_query response request_query =
    if is_empty response.query then request_query else response.query
