-- ===== src/Client.antt =====
-- src/client.rs: the requests that wait for their responses, the response loop that hands each
-- response to its waiter, and the checks on a response.
-- A channel is named by the request that it was made for, and `delivered` lists what was sent into
-- the channels, the oldest first. An I/O error is its message, so the kind that a copy keeps is not
-- there. The texts that a lossy decoding makes and `is_interrupted` are the standard library's, and
-- parameters.
pub mod Pending
pub mod Responses
use repe_rs.Prelude.{
  ℕ, ◌+◌, ◌*◌, ◌%◌, ◌^◌, ◌-◌, min, max, Bytes, Bool, List, [], ◌∷◌, ◌++◌, map, not, Option, none,
  some, Outcome, ok, err, panic, ◌>>=◌, ◌>>◌, return_err_if, ◌==◌, if◌then◌else◌, ascii, decimal,
  find_id, insert_id, remove_id,
}
use repe_rs.Constants.{repe_version, ErrorCode, error_code_to_u32, error_code_try_from}
use repe_rs.Error.{RepeError, IoError, io_error_to_string, ErrorKind, error_kind}
use repe_rs.Message.{Message}

pub record Client : Type 0 where
  pub next_id : ℕ
  pub pending : List (ℕ × ℕ)
  pub delivered : List (ℕ × Outcome RepeError Message)

-- `connect`
unfoldable pub connected : Client
connected = record { next_id = 1; pending = []; delivered = [] }

-- `next_request_id`: the id, and the counter after it.
unfoldable pub next_request_id : Client → ℕ × Client
next_request_id c = (c.next_id, record c { next_id = (c.next_id + 1) % 2 ^ 64 })

-- The start of a call: an id, and its channel in the map.
unfoldable pub start_call : Client → ℕ × Client
unfolding next_request_id
start_call c =
    let (id, c') = next_request_id c in (id, record c' { pending = insert_id id id c'.pending })

unfoldable pub remove_pending : ℕ → Client → Client
remove_pending id c = record c { pending = remove_id id c.pending }

-- What the response loop does with a message: it takes its waiter out of the map, if there is one,
-- and sends the message to it.
unfoldable pub deliver : Message → Option ℕ → Client → Client
unfolding remove_pending
deliver response none c = c
deliver response (some sender) c =
    let c' = remove_pending response.header.id c in
    record c' { delivered = c'.delivered ++ ((sender, ok response) ∷ []) }

unfoldable pub dispatch_response : Message → Client → Client
unfolding deliver
dispatch_response response c = deliver response (find_id response.header.id c.pending) c

unfoldable pub clone_fatal_error_for_waiter : RepeError → ℕ → RepeError
unfolding io_error_to_string decimal error_kind
clone_fatal_error_for_waiter (RepeError.io e) id = RepeError.io (
    IoError.custom (error_kind e)
      (ascii "request " ++ (decimal id ++ (ascii ": " ++ io_error_to_string e))))
clone_fatal_error_for_waiter e id = e

-- `drain`, with an error for each waiter.
unfoldable pub drain_with : (ℕ → RepeError) → Client → Client
drain_with error c = record c {
  pending = [];
  delivered = c.delivered ++ map (λ w. (w.1, err (error w.0))) c.pending;
}

unfoldable pub fail_all_pending : RepeError → Client → Client
unfolding drain_with clone_fatal_error_for_waiter
fail_all_pending e c = drain_with (clone_fatal_error_for_waiter e) c

-- The map's part of `drop` of a client.
unfoldable pub drop_client : Client → Client
unfolding drain_with decimal
drop_client c =
    drain_with
      (λ id. RepeError.io (
        IoError.custom ErrorKind.connection_aborted
          (ascii "client closed while waiting for request " ++ decimal id)))
      c

-- The guard of the loop's second arm.
abbrev pub interrupts : (IoError → Bool) → RepeError → Bool
interrupts is_interrupted (RepeError.io e) = is_interrupted e
interrupts is_interrupted e = Bool.false

-- The response loop, on what the reads return.
unfoldable pub response_loop : (IoError → Bool) → List (Outcome RepeError Message) → Client → Client
unfolding dispatch_response fail_all_pending
response_loop is_interrupted [] c = c
response_loop is_interrupted (ok response ∷ more) c =
    response_loop is_interrupted more (dispatch_response response c)
response_loop is_interrupted (err e ∷ more) c =
    let again = response_loop is_interrupted more c in
    if interrupts is_interrupted e then again else fail_all_pending e c
response_loop is_interrupted (panic ∷ more) c = c

-- `ErrorCode::try_from(ec).unwrap_or(ErrorCode::ParseError)`
unfoldable pub code_or_parse_error : Outcome ℕ ErrorCode → ErrorCode
code_or_parse_error (ok code) = code
code_or_parse_error _ = ErrorCode.parse_error

-- `validate_response`; the message of an error response is its body, decoded with replacements.
unfoldable pub validate_response : (Bytes → Bytes) → ℕ → Message → Outcome RepeError Message
unfolding error_code_to_u32 error_code_try_from code_or_parse_error
validate_response lossy expected_id resp = do
  return_err_if (not (resp.header.version == repe_version))
      (RepeError.version_mismatch resp.header.version)
  return_err_if (not (resp.header.id == expected_id))
      (RepeError.response_id_mismatch expected_id resp.header.id)
  return_err_if (not (resp.header.ec == error_code_to_u32 ErrorCode.ok)) (
      RepeError.server_error (code_or_parse_error (error_code_try_from resp.header.ec))
        (lossy resp.body))
  ok resp

unfoldable pub request_timeout_error : ℕ → ℕ → RepeError
unfolding decimal
request_timeout_error id millis = RepeError.io (
    IoError.custom ErrorKind.timed_out (
      ascii "request "
      ++ (decimal id ++ (ascii " timed out after " ++ (decimal millis ++ ascii "ms")))))

unfoldable pub response_channel_closed_error : ℕ → RepeError
unfolding decimal
response_channel_closed_error id = RepeError.io (
    IoError.custom ErrorKind.connection_aborted
      (ascii "response channel closed for request " ++ decimal id))

-- What a receive ends in: a value, the time limit, or a channel without a sender.
pub data Received : Type 0 where
  value : Outcome RepeError Message → Received
  timed_out : (millis : ℕ) → Received
  disconnected : Received

unfoldable pub wait_for_response : ℕ → Received → Client → Client × Outcome RepeError Message
unfolding remove_pending request_timeout_error response_channel_closed_error
wait_for_response id (Received.value v) c = (c, v)
wait_for_response id (Received.timed_out millis) c =
    (remove_pending id c, err (request_timeout_error id millis))
wait_for_response id Received.disconnected c =
    (remove_pending id c, err (response_channel_closed_error id))

abbrev max_batch_workers : ℕ
max_batch_workers = 64

-- `batch_worker_count`, on what `available_parallelism` gives. `usize_max` is the largest `usize`.
unfoldable pub batch_worker_count : ℕ → Option ℕ → ℕ → ℕ
batch_worker_count usize_max available request_count =
    let parallelism : ℕ = elim available [ some count ↦ count | none ↦ 1 ] in
    let cap = min (max (min (parallelism * 4) usize_max) 1) max_batch_workers in
    if request_count == 0 then 0 else min request_count cap
