-- ===== src/Examples/Callers.antt =====
-- A client with two requests, the peers of a server, and a connection's outbound side.
use repe_rs.Prelude.{
  ℕ, zero, suc, ◌≡◌, ◌++◌, ascii, refl, Bytes, true, false, List, [], ◌∷◌, none, some, ◌⊎◌, inl,
  inr, ok, err, ◌>>◌, arith,
}
use repe_rs.Constants.{ErrorCode}
use repe_rs.Error.{RepeError, IoError}
use repe_rs.Message.{Message}
use repe_rs.Message.Builder.{build}
use repe_rs.Message.Response.{create_error_response_like}
use repe_rs.Client.{
  Client, connected, start_call, next_request_id, dispatch_response, fail_all_pending,
  response_loop, validate_response,
}
use repe_rs.Client.Pending.{IsSound, Run, Step, Dies, Settled, Run-IsSound, response_loop-settles}
use repe_rs.Client.Responses.{validate_response-create_error_response_like}
use repe_rs.Peers.{new_inner}
use repe_rs.Peers.Spec.{Call, make_calls, answer_calls, nobody, new_inner-refines}
use repe_rs.Fleet.{
  NodeConfig, NodeState, FleetOptions, with_options, validate_fleet_options, call_with_retry,
}
use repe_rs.Fleet.Nodes.{add_each, with_options-add_each}
use repe_rs.Fleet.Retry.{Calls, IsResult, call_with_retry-Calls}
use repe_rs.WebSocket.{WebSocketLimits, Connection, frame_outbound, replacement, spawn_off_reader}
use repe_rs.WebSocket.Outbound.{Framed, frame_outbound-Framed}
use repe_rs.WebSocket.OffReader.{Running, after_spawn, Runs, IsCapped, Runs-IsCapped}
use repe_rs.Examples.{request}

abbrev as_it_is : Bytes → Bytes
as_it_is b = b

-- Two calls have started, with the ids 1 and 2.
abbrev one_call : Client
one_call = (start_call connected).1

abbrev two_calls : Client
two_calls = (start_call one_call).1

two_calls-Run : Run two_calls
two_calls-Run =
    Run.then_step (Run.then_step Run.here (Step.started (unfold connected in omega arith)))
      (Step.started (unfold start_call next_request_id connected in omega arith))

-- The second is answered, and the connection dies.
abbrev second : Message
second = record request { header = record (request.header) { id = 2 } }

abbrev reset : RepeError
reset = RepeError.io IoError.unexpected_eof

Run-IsSound_example : IsSound (fail_all_pending reset (dispatch_response second two_calls))
Run-IsSound_example =
    Run-IsSound
      (Run.then_step (Run.then_step two_calls-Run (Step.received second)) (Step.failed reset))

response_loop-settles_example :
    Settled two_calls (response_loop (λ e. false) (ok second ∷ err reset ∷ []) two_calls)
response_loop-settles_example =
    response_loop-settles (λ e. false) (ok second ∷ err reset ∷ []) two_calls
      (Dies.after_message second (Dies.at reset [] refl)) (Run-IsSound two_calls-Run)

validate_response-create_error_response_like_example :
    validate_response as_it_is request.header.id
      (create_error_response_like request ErrorCode.timeout (7 ∷ []))
    ≡ err (RepeError.server_error ErrorCode.timeout (7 ∷ []))
validate_response-create_error_response_like_example =
    validate_response-create_error_response_like as_it_is request ErrorCode.timeout (7 ∷ [])
      (λ e. cc e)

-- A key moves to another peer, and its new owner leaves. A handle is its id.
abbrev calls : List (Call ℕ)
calls =
    Call.connect 3
    ∷ Call.connect 4
    ∷ Call.alias_to 3 (97 ∷ [])
    ∷ Call.alias_to 4 (97 ∷ [])
    ∷ Call.has_alias 3 (97 ∷ [])
    ∷ Call.look_up_by (97 ∷ [])
    ∷ Call.disconnect 4
    ∷ Call.look_up_by (97 ∷ [])
    ∷ []

new_inner-refines_example : make_calls (λ h. h) calls new_inner ≡ answer_calls (λ h. h) calls nobody
new_inner-refines_example = new_inner-refines (λ h. h) calls

abbrev node_a : NodeConfig
node_a = record { host = 104 ∷ []; port = 80; name = 97 ∷ []; tags = []; timeout = 5 }

abbrev options : FleetOptions
options = record { default_timeout = 5; max_attempts = 2 }

with_options-add_each_example :
    with_options {C = ℕ} (node_a ∷ node_a ∷ []) options
    ≡ (validate_fleet_options options >> add_each (node_a ∷ node_a ∷ []) [])
with_options-add_each_example = with_options-add_each (node_a ∷ node_a ∷ []) options

-- A network whose state counts the calls: the first one fails.
abbrev connect : NodeConfig → ℕ → ℕ × (RepeError ⊎ ℕ)
connect config n = (n, inr n)

abbrev flaky : ℕ → ℕ → ℕ × (RepeError ⊎ ℕ)
flaky client zero = (1, inl reset)
flaky client (suc n) = (suc n, inr 42)

abbrev idle : NodeState ℕ
idle = record { config = node_a; client = none }

call_with_retry-Calls_example :
    Calls connect flaky 2 idle 0 (call_with_retry connect flaky options idle 0)
    × IsResult connect flaky (call_with_retry connect flaky options idle 0)
call_with_retry-Calls_example = call_with_retry-Calls connect flaky options idle 0 (omega arith)

abbrev tight : WebSocketLimits
tight = record {
  max_incoming_frame_size = none;
  max_incoming_message_size = none;
  assumed_peer_frame_limit = some 256;
}

abbrev sixty_bytes : Bytes
sixty_bytes = ascii "012345678901234567890123456789012345678901234567890123456789"

-- A response of 292 bytes at least.
abbrev too_large : Message
too_large = record second {
  body = sixty_bytes ++ (sixty_bytes ++ (sixty_bytes ++ (sixty_bytes ++ second.body)));
}

frame_outbound-Framed_example :
    Framed
      (λ m. 0)
      tight
      256
      too_large
      []
      refl
      100000
      as_it_is
      (frame_outbound (λ m. 0) too_large tight [])
unfolding build
frame_outbound-Framed_example =
    frame_outbound-Framed (λ m. 0) tight 256 too_large [] refl 100000 as_it_is (omega arith)
      (omega arith) (omega arith) (omega arith)

abbrev conn : Connection
conn = record { permits = some 1; queued = []; open_channel = true; reports = [] }

Runs-IsCapped_example : IsCapped 1 (after_spawn 0 (spawn_off_reader request false conn))
Runs-IsCapped_example = Runs-IsCapped (
    Runs.then_step (Runs.accepted conn refl)
      (repe_rs.WebSocket.OffReader.Step.arrives request false))
