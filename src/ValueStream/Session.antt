-- ===== src/ValueStream/Session.antt =====
-- src/value_stream.rs: `Session`, `SessionTable` and the handlers of `open`, `next` and `cancel`.
-- A session holds what its producer still has to send; a receive waits until that is there. The
-- readers and writers of the BEVE bodies are structio's, and parameters.
pub mod Pulling
use repe_rs.Prelude.{
  ℕ, ◌+◌, ◌%◌, ◌^◌, Bytes, Bool, true, false, List, [], ◌∷◌, ◌++◌, Option, none, some, Outcome, ok,
  err, panic, if◌then◌else◌, ascii, decimal, find_id, insert_id, remove_id,
}
use repe_rs.Constants.{ErrorCode, QueryFormat, BodyFormat}
use repe_rs.Message.{Message}
use repe_rs.Message.Builder
use repe_rs.Message.Builder.{builder, build}
use repe_rs.Message.Response.{create_error_message}
use repe_rs.ValueStream.Producer.{
  Msg, Sender, Body, Compression, StreamOpts, compression_tag, produce,
}

pub record Session : Type 0 where
  pub rx : List Msg
  pub lookahead : Option Bytes
  pub done : Bool

-- `recv`: the message, and what is still to come. A closed channel is a failure.
unfoldable pub recv : List Msg → Msg × List Msg
recv [] = (Msg.fail (ascii "svs producer ended without completing"), [])
recv (msg ∷ rest) = (msg, rest)

abbrev Pulled : Type 0
Pulled = Session × Outcome Bytes (Bytes × Bool)

-- The second `match` of `pull`, with the chunk in hand.
unfoldable pub pull_ahead : Bytes → Session → Msg × List Msg → Pulled
pull_ahead current s (Msg.chunk next, rest) =
    (record s { rx = rest; lookahead = some next }, ok (current, false))
pull_ahead current s (Msg.finish, rest) =
    (record s { rx = rest; lookahead = none }, ok (current, true))
pull_ahead current s (Msg.fail e, rest) = (record s { rx = rest; lookahead = none }, err e)

-- The first `match` of `pull`, where there is no chunk ahead.
unfoldable pub pull_first : Session → Msg × List Msg → Pulled
unfolding pull_ahead recv
pull_first s (Msg.chunk c, rest) = pull_ahead c s (recv rest)
pull_first s (Msg.finish, rest) = (record s { rx = rest }, ok ([], true))
pull_first s (Msg.fail e, rest) = (record s { rx = rest }, err e)

unfoldable pub pull : Session → Pulled
unfolding pull_first pull_ahead recv
pull s = elim (s.lookahead) [
  | some c ↦ pull_ahead c s (recv s.rx)
  | none ↦ pull_first s (recv s.rx)
]

-- `done` after a pull: `matches!(pulled, Ok((_, true)) | Err(_))`
unfoldable pub ends : Outcome Bytes (Bytes × Bool) → Bool
ends (ok (c, last)) = last
ends (err e) = true
ends panic = false

-- The guarded pull of `NextHandler`.
unfoldable pub pull_once : Session → Pulled
unfolding pull ends
pull_once s =
    let (s', pulled) = pull s in
    if s.done
    then (s, err (ascii "svs next: stream already finished"))
    else (record s' { done = if ends pulled then true else s'.done }, pulled)

pub record SessionTable : Type 0 where
  pub next_id : ℕ
  pub sessions : List (ℕ × Session)

-- `SessionTable::new`
unfoldable pub new_table : SessionTable
new_table = record { next_id = 1; sessions = [] }

unfoldable pub error_like : Message → ErrorCode → Bytes → Message
unfolding create_error_message
error_like req code msg =
    let e = create_error_message code msg in
    record e { header = record (e.header) { id = req.header.id } }

-- `beve_response`, on the encoding of its value
unfoldable pub beve_response : Message → Bytes → Message
beve_response req encoded_value =
    build (Builder.body_beve encoded_value (Builder.id req.header.id builder))

-- `last as u8`
abbrev last_flag : Bool → ℕ
last_flag true = 1
last_flag false = 0

unfoldable pub chunk_response : Message → Bytes → Bool → Message
chunk_response req bytes last = build (
    Builder.body_bytes bytes (
      Builder.body_format BodyFormat.raw_binary (
        Builder.query_bytes (last_flag last ∷ [])
          (Builder.query_format QueryFormat.raw_binary (Builder.id req.header.id builder)))))

pub record OpenResponse : Type 0 where
  pub version : ℕ
  pub stream_id : ℕ
  pub format : ℕ
  pub compression : ℕ

abbrev pub svs_version : ℕ
svs_version = 1

-- What the handler does with a pull's outcome. The table holds the session as the pull left it.
unfoldable pub answer_pull :
    ℕ → Message → SessionTable → Outcome Bytes (Bytes × Bool) → SessionTable × Message
unfolding chunk_response error_like
answer_pull id req table (ok (bytes, last)) = (
  if last then record table { sessions = remove_id id table.sessions } else table,
  chunk_response req bytes last,
)
answer_pull id req table (err msg) = (
  record table { sessions = remove_id id table.sessions },
  error_like req ErrorCode.internal_error msg,
)
answer_pull id req table panic = (table, error_like req ErrorCode.internal_error [])

-- `NextHandler::handle` on the session of the stream, if there is one.
unfoldable pub next_pull : ℕ → Message → SessionTable → Option Session → SessionTable × Message
unfolding pull_once answer_pull error_like
next_pull id req table none = (
  table,
  error_like req ErrorCode.invalid_query (ascii "svs next: unknown stream_id " ++ decimal id),
)
next_pull id req table (some s) =
    let (s', pulled) = pull_once s in
    answer_pull id req (record table { sessions = insert_id id s' table.sessions }) pulled

-- The handler on the `stream_id` that was read from the body, if it was there.
unfoldable pub next_read : Message → SessionTable → Option ℕ → SessionTable × Message
unfolding next_pull error_like
next_read req table none = (
  table,
  error_like req ErrorCode.invalid_body (ascii "svs next: expected BEVE { stream_id: u64 }"),
)
next_read req table (some id) = next_pull id req table (find_id id table.sessions)

unfoldable pub next_handler : (Bytes → Option ℕ) → SessionTable → Message → SessionTable × Message
unfolding next_read
next_handler read_next table req = next_read req table (read_next req.body)

-- `CancelHandler::handle`; `ack` is the encoding of `CancelAck { ok: true }`.
unfoldable pub cancel_handler :
    (Bytes → Option ℕ) → Bytes → SessionTable → Message → SessionTable × Message
unfolding beve_response
cancel_handler read_cancel ack table req = (
  elim (read_cancel req.body) [
    | none ↦ table
    | some id ↦ record table { sessions = remove_id id table.sessions }
  ],
  beve_response req ack,
)

-- The part of `OpenHandler::handle` after the body is found, on what its producer sends. `none` is a
-- producer that never ends its writes, which a chunk size of 0 makes.
unfoldable pub open_produced :
    (OpenResponse → Bytes)
    → Compression
    → ℕ
    → SessionTable
    → Message
    → Option Sender
    → Option (SessionTable × Message)
unfolding beve_response compression_tag
open_produced to_beve compression format table req none = none
open_produced to_beve compression format table req (some tx) = some (
  record table {
    next_id = (table.next_id + 1) % 2 ^ 64;
    sessions =
        insert_id table.next_id (record { rx = tx.sent; lookahead = none; done = false })
          table.sessions;
  },
  beve_response req (
      to_beve (record {
        version = svs_version;
        stream_id = table.next_id;
        format = format;
        compression = compression_tag compression;
      })),
)

unfoldable pub open_session :
    (OpenResponse → Bytes)
    → (Body → Body)
    → StreamOpts
    → ℕ
    → SessionTable
    → Message
    → Body
    → Option (SessionTable × Message)
unfolding produce open_produced
open_session to_beve encode opts format table req body =
    open_produced to_beve opts.compression format table req
      (produce encode body (record { sent = []; sends_left = none }) opts)

unfoldable pub open_handler :
    (Bytes → Option Bytes)
    → (OpenResponse → Bytes)
    → (Bytes → Option Body)
    → (Body → Body)
    → StreamOpts
    → ℕ
    → SessionTable
    → Message
    → Option (SessionTable × Message)
unfolding open_session error_like
open_handler read_open to_beve make_body encode opts format table req = elim (read_open req.body) [
  | none ↦ some (
    table,
    error_like req ErrorCode.invalid_body (ascii "svs open: expected BEVE { resource: string }"),
  )
  | some resource ↦ elim (make_body resource) [
    | none ↦ some (
      table,
      error_like req ErrorCode.method_not_found
          (ascii "svs open: unknown resource '" ++ (resource ++ ascii "'")),
    )
    | some body ↦ open_session to_beve encode opts format table req body
  ]
]
