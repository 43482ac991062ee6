-- ===== src/WebSocket.antt =====
-- src/websocket_limits.rs and src/websocket_server.rs: the size limits of a connection, the framing of
-- what goes out, and the handlers that run beside the reader.
-- A report goes into a list, the newest last. `capacity` is the room of a message's body buffer, which
-- the allocator decides.
pub mod Outbound
pub mod OffReader
use repe_rs.Prelude.{
  ℕ, zero, suc, ◌+◌, ◌-◌, Bytes, Bool, true, false, not, List, [], ◌∷◌, ◌++◌, Option, none, some,
  Outcome, ok, err, panic, ltb, ◌==◌, if◌then◌else◌, length, ascii, decimal, is_utf8,
}
use repe_rs.Constants.{header_size, ErrorCode}
use repe_rs.Error.{RepeError, IoError, ErrorKind}
use repe_rs.Message.{Message, into_wire_bytes}
use repe_rs.Message.Response.{
  create_error_message, create_error_response_like, stamp_response_query,
}

abbrev default_max_frame_size : ℕ
default_max_frame_size = 16777216

abbrev default_max_message_size : ℕ
default_max_message_size = 67108864

pub record WebSocketLimits : Type 0 where
  pub max_incoming_frame_size : Option ℕ
  pub max_incoming_message_size : Option ℕ
  pub assumed_peer_frame_limit : Option ℕ

-- `WebSocketLimits::default`
abbrev default_limits : WebSocketLimits
default_limits = record {
  max_incoming_frame_size = some default_max_frame_size;
  max_incoming_message_size = some default_max_message_size;
  assumed_peer_frame_limit = some default_max_frame_size;
}

unfoldable pub check_outbound : WebSocketLimits → ℕ → Outcome RepeError (Unit {0})
check_outbound limits size = elim (limits.assumed_peer_frame_limit) [
  | none ↦ ok tt
  | some limit ↦ if ltb limit size then err (RepeError.message_too_large size limit) else ok tt
]

-- The reports that this code makes.
pub data ConnectionError : Type 0 where
  saturation : (method : Bytes) → ConnectionError
  handler_panic : (method : Bytes) → ConnectionError
  outbound_too_large : (method : Bytes) → (size limit : ℕ) → ConnectionError

-- `query_str().unwrap_or("")`
abbrev pub method_of : Message → Bytes
unfolding is_utf8
method_of m = if is_utf8 m.query then m.query else []

-- The error that replaces a response that is too large.
unfoldable pub replacement : ℕ → ℕ → ℕ → Message
unfolding create_error_message decimal
replacement id size limit =
    let e = create_error_message ErrorCode.internal_error (
      ascii "response is "
      ++ (decimal size
          ++ (ascii " bytes, over the "
              ++ (decimal limit
                  ++ ascii
                      " byte assumed peer frame limit; raise the peer's inbound limit or reduce the response")))) in
    record e { header = record (e.header) { id = id } }

module _ (capacity : Message → ℕ) where
  -- What `frame_outbound` does with the check's outcome; the check has no other error.
  unfoldable pub frame_checked :
      Message
      → Outcome RepeError (Unit {0})
      → List ConnectionError
      → List ConnectionError × Option Bytes
  unfolding into_wire_bytes replacement is_utf8
  frame_checked m (err (RepeError.message_too_large size limit)) reports =
      let e = replacement m.header.id size limit in
      (
        reports ++ (ConnectionError.outbound_too_large (method_of m) size limit ∷ []),
        if not (m.header.notify == 0) then none else some (into_wire_bytes (capacity e) e),
      )
  frame_checked m checked reports = (reports, some (into_wire_bytes (capacity m) m))

  unfoldable pub frame_outbound :
      Message → WebSocketLimits → List ConnectionError → List ConnectionError × Option Bytes
  unfolding check_outbound frame_checked
  frame_outbound m limits reports =
      frame_checked m (check_outbound limits (header_size + length m.query + length m.body)) reports

pub data WsMessage : Type 0 where
  binary text ping pong close frame : Bytes → WsMessage

pub data FramePayload : Type 0 where
  bytes : Bytes → FramePayload
  continue close : FramePayload

unfoldable pub decode_request_payload : WsMessage → Outcome RepeError FramePayload
decode_request_payload (WsMessage.binary payload) = ok (FramePayload.bytes payload)
decode_request_payload (WsMessage.ping p) = ok FramePayload.continue
decode_request_payload (WsMessage.pong p) = ok FramePayload.continue
decode_request_payload (WsMessage.frame p) = ok FramePayload.continue
decode_request_payload (WsMessage.close p) = ok FramePayload.close
decode_request_payload (WsMessage.text p) = err (
    RepeError.io (
      IoError.custom ErrorKind.invalid_data (ascii "websocket transport requires binary messages")))

-- The connection's side of an off-reader dispatch: the permits that are left (`none` for no limit), the
-- responses that were queued, and the reports.
pub record Connection : Type 0 where
  pub permits : Option ℕ
  pub queued : List Message
  pub open_channel : Bool
  pub reports : List ConnectionError

-- `outbound_tx.send(response)`: whether the channel is open.
abbrev pub queue : Message → Connection → Connection × Bool
queue m conn = (
  if conn.open_channel then record conn { queued = conn.queued ++ (m ∷ []) } else conn,
  conn.open_channel,
)

-- A request without a permit: a notification is dropped, another is rejected.
unfoldable pub reject_saturated : Message → Bool → Connection → Connection × Bool
unfolding create_error_response_like is_utf8
reject_saturated request notify conn =
    let reported = record conn {
      reports = conn.reports ++ (ConnectionError.saturation (method_of request) ∷ []);
    } in
    if notify
    then (reported, true)
    else queue
        (create_error_response_like request ErrorCode.resource_exhausted
          (ascii "off-reader dispatch limit reached; retry"))
        reported

-- `try_acquire_owned`, and what follows it.
unfoldable pub with_permit :
    Option ℕ → Message → Bool → Connection → Connection × Bool × Option Message
unfolding reject_saturated
with_permit none request notify conn = (conn, true, some request)
with_permit (some zero) request notify conn =
    let (conn', reading) = reject_saturated request notify conn in (conn', reading, none)
with_permit (some (suc k)) request notify conn =
    (record conn { permits = some k }, true, some request)

-- `spawn_off_reader` up to the spawn: the handler that is started, and whether reading goes on.
unfoldable pub spawn_off_reader : Message → Bool → Connection → Connection × Bool × Option Message
unfolding with_permit
spawn_off_reader request notify conn = with_permit conn.permits request notify conn

-- A permit that is dropped.
abbrev pub give_back : Option ℕ → Option ℕ
give_back none = none
give_back (some k) = some (suc k)

-- The end of a handler: its permit is back, and its response is queued, if there is one. `none` of the
-- handler is a panic.
unfoldable pub finish_off_reader :
    Message → Bool → Option (Option Message) → Connection → Connection
unfolding create_error_response_like stamp_response_query is_utf8
finish_off_reader request notify outcome conn =
    let freed = record conn { permits = give_back conn.permits } in
    elim outcome [
      | some none ↦ freed
      | some (some response) ↦ (queue (stamp_response_query response request.query) freed).0
      | none ↦
          let reported = record freed {
            reports = freed.reports ++ (ConnectionError.handler_panic (method_of request) ∷ []);
          } in
          if notify
          then reported
          else (queue
              (stamp_response_query
                (create_error_response_like request ErrorCode.internal_error
                  (ascii "handler panicked"))
                request.query)
              reported).0
    ]
