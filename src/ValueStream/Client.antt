-- ===== src/ValueStream/Client.antt =====
-- src/value_stream.rs: the receiver's side: the answer to `open`, and the loop that pulls a stream.
-- A call is a function on the state of everything behind it, a parameter. The decoder's channel is
-- the chunks that were sent into it; `takes` says how many more it takes, `none` that it stays.
pub mod Feeding
pub mod Loop
pub mod Rounds
pub mod Download
use repe_rs.Prelude.{
  ℕ, zero, suc, ◌+◌, ◌%◌, ◌^◌, Bytes, Bool, true, false, List, [], ◌∷◌, ◌++◌, Option, none, some,
  Outcome, ok, err, panic, ◌>>=◌, ◌>>◌, return_err_if, not, ◌==◌, if◌then◌else◌, is_empty, ascii,
  decimal,
}
use repe_rs.Constants.{BodyFormat, QueryFormat, body_format_to_u16, query_format_to_u16}
use repe_rs.Error.{RepeError, IoError, ErrorKind}
use repe_rs.Message.{Message}
use repe_rs.Message.Builder
use repe_rs.Message.Builder.{builder, build}
use repe_rs.Message.Response.{stamp_response_query}
use repe_rs.Client.{validate_response}
use repe_rs.ValueStream.Producer.{Compression, compression_from_u8}
use repe_rs.ValueStream.Session.{SessionTable, OpenResponse, svs_version, next_handler}

abbrev invalid_data : Bytes → RepeError
invalid_data text = RepeError.io (IoError.custom ErrorKind.invalid_data text)

pub record OpenInfo : Type 0 where
  pub stream_id : ℕ
  pub format : ℕ
  pub compression : Compression

abbrev require_body_format : BodyFormat → Message → Outcome RepeError (Unit {0})
require_body_format expected m =
    return_err_if (not (m.header.body_format == body_format_to_u16 expected))
      (RepeError.unexpected_body_format expected m.header.body_format)

-- `Message::beve_body`, on structio's reader.
abbrev beve_body {ℓ} : {A : Type ℓ} → (Bytes → Outcome Bytes A) → Message → Outcome RepeError A
beve_body read m =
    require_body_format BodyFormat.beve m
    >> elim (read m.body) [ ok a ↦ ok a | err e ↦ err (RepeError.beve e) | panic ↦ panic ]

unfoldable pub parse_open_response :
    (Bytes → Outcome Bytes OpenResponse) → Message → Outcome RepeError OpenInfo
unfolding compression_from_u8 body_format_to_u16
parse_open_response read resp = do
  info ← beve_body read resp
  return_err_if (not (info.version == svs_version)) (
      invalid_data (
        ascii "svs open: server contract version "
        ++ (decimal info.version ++ (ascii " != supported " ++ decimal svs_version))))
  elim (compression_from_u8 info.compression) [
    | none ↦
        err (invalid_data (ascii "svs open: unknown compression tag " ++ decimal info.compression))
    | some compression ↦
        ok (record { stream_id = info.stream_id; format = info.format; compression = compression })
  ]

-- Where the value goes: a `.beve.zst` file, a `.beve` file, a raw file, or memory.
pub data StreamOutput : Type 0 where
  beve_zstd_file beve_file raw_file in_memory : StreamOutput

abbrev is_zstd : Compression → Bool
is_zstd Compression.zstd = true
is_zstd Compression.uncompressed = false

unfoldable pub check_output : StreamOutput → OpenInfo → Outcome RepeError (Unit {0})
unfolding body_format_to_u16 decimal
check_output StreamOutput.beve_zstd_file info =
    return_err_if (not (is_zstd info.compression))
      (invalid_data (ascii "svs: .beve.zst output needs a zstd-compressed stream"))
check_output StreamOutput.beve_file info = do
  return_err_if (not (is_zstd info.compression))
      (invalid_data (ascii "svs: .beve output needs a zstd-compressed stream"))
  return_err_if (not (info.format == body_format_to_u16 BodyFormat.beve)) (
      invalid_data
        (ascii "svs: .beve output needs format=BEVE, got format " ++ decimal info.format))
check_output StreamOutput.in_memory info =
    return_err_if (not (info.format == body_format_to_u16 BodyFormat.beve)) (
      invalid_data
        (ascii "svs: value decode needs format=BEVE, got format " ++ decimal info.format))
check_output StreamOutput.raw_file info = ok tt

pub record Feed : Type 0 where
  pub fed : List Bytes
  pub takes : Option ℕ

-- `resp.query.first().copied() == Some(1)`
unfoldable pub is_last : Bytes → Bool
is_last [] = false
is_last (b ∷ rest) = b == 1

-- `tx.send(chunk)`: whether it was taken.
unfoldable pub feed_chunk : Bytes → Feed → Feed × Bool
feed_chunk chunk f = elim (f.takes) [
  | none ↦ (record f { fed = f.fed ++ (chunk ∷ []) }, true)
  | some zero ↦ (f, false)
  | some (suc k) ↦ (record { fed = f.fed ++ (chunk ∷ []); takes = some k }, true)
]

abbrev pub PullResult : Type 0 → Type 0
PullResult S = Option (S × Feed × Outcome RepeError (Unit {0}))

module _ {S : Type 0} where
  -- What the loop does with a response; `more` is its next round.
  unfoldable pub take_response : (S → Feed → PullResult S) → S → Message → Feed → PullResult S
  unfolding is_last feed_chunk
  take_response more s resp f =
      let (f', taken) = if is_empty resp.body then (f, true) else feed_chunk resp.body f in
      let again = more s f' in
      if not taken
      then some (s, f', ok tt)
      else if is_last resp.query
      then some (s, f', ok tt)
      else again

  unfoldable pub after_next :
      (S → Feed → PullResult S) → Feed → S × Outcome RepeError Message → PullResult S
  unfolding take_response
  after_next more f (s, ok resp) = take_response more s resp f
  after_next more f (s, err e) = some (s, f, err e)
  after_next more f (s, panic) = some (s, f, panic)

  -- `pull_loop_async` on fuel; `none` is a loop that has not ended.
  unfoldable pub pull_loop : (S → S × Outcome RepeError Message) → ℕ → S → Feed → PullResult S
  unfolding after_next
  pull_loop call zero s f = none
  pull_loop call (suc fuel) s f = after_next (pull_loop call fuel) f (call s)

abbrev route_next : Bytes
route_next = ascii "/_svs/next"

-- The request of a `next` call.
unfoldable pub next_request : ℕ → Bytes → Message
unfolding query_format_to_u16 body_format_to_u16
next_request id body = build (
    Builder.body_format_code (body_format_to_u16 BodyFormat.beve) (
      Builder.body_bytes body (
        Builder.query_format_code (query_format_to_u16 QueryFormat.json_pointer)
          (Builder.query_bytes route_next (Builder.id id builder)))))

-- A `next` call over a connection that loses nothing: the client's request counter and the server's
-- table. The server echoes the query of the request into a response without one.
unfoldable pub call_next :
    (Bytes → Option ℕ)
    → (Bytes → Bytes)
    → Bytes
    → ℕ × SessionTable
    → (ℕ × SessionTable) × Outcome RepeError Message
unfolding next_request next_handler stamp_response_query validate_response
call_next read_next lossy body (id, table) =
    let (table', resp) = next_handler read_next table (next_request id body) in
    (((id + 1) % 2 ^ 64, table'), validate_response lossy id (stamp_response_query resp route_next))
