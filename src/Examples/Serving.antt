-- ===== src/Examples/Serving.antt =====
-- Requests to a router with one handler, which counts its calls and echoes the body.
use repe_rs.Prelude.{
  ℕ, suc, ◌+◌, ◌<◌, ◌≤◌, ◌^◌, ◌≡◌, ◌↔◌, Bytes, true, false, [], ◌∷◌, ◌++◌, some, none, ◌⊎◌, inr, ok,
  refl, length, ◌==◌, is_utf8, ascii, arith,
}
use repe_rs.Constants.{ErrorCode}
use repe_rs.Error.{RepeError}
use repe_rs.Message.{Message, MessageView, IsWellFormed, to_vec, to_message}
use repe_rs.Message.Builder
use repe_rs.Message.Builder.{build, build-IsWellFormed, MessageBuilder}
use repe_rs.Message.Response.{
  create_error_response_like, stamp_response_query, response_echo_query, query_format_or_raw,
}
use repe_rs.Server.{CallContext, Router, RouteOutcome, route, get, route_request_view, call_into}
use repe_rs.Server.Route.{route_iff}
use repe_rs.Server.Call.{call_into-answer, call_into-reject}
use repe_rs.Examples.{
  usize_max, hello, hello-IsBuilder, request, request-IsWellFormed, request_view,
  request_view-IsWellFormed,
}

-- The handler's type has one value, and the state is the number of calls.
abbrev count_calls : Unit {0} → MessageView → CallContext ℕ ℕ → ℕ → ℕ × (RepeError ⊎ Message)
count_calls h view ctx n = (suc n, inr request)

abbrev only_a : Router (Unit {0})
only_a = record { routes = (47 ∷ 97 ∷ [], tt) ∷ []; registries = []; structs = []; fallback = none }

abbrev nothing_mounted : Router (Unit {0})
nothing_mounted = record { routes = []; registries = []; structs = []; fallback = none }

route_iff_example :
    (route only_a request_view.header request_view.query
      ≡ RouteOutcome.dispatch_to tt false request_view.query)
    ↔ ((request_view.header.version ≡ 1)
        × (request_view.header.query_format ≡ 1)
        × (is_utf8 request_view.query ≡ true)
        × (get only_a request_view.query ≡ some tt)
        × (false ≡ (request_view.header.notify == 1))
        × (request_view.query ≡ request_view.query))
route_iff_example =
    route_iff only_a request_view.header request_view.query tt false request_view.query

-- The same request as a notify.
abbrev notify_builder : MessageBuilder
notify_builder = Builder.notify true hello

abbrev notify_view : MessageView
notify_view = record {
  header = (build notify_builder).header;
  query = (build notify_builder).query;
  body = (build notify_builder).body;
}

notify_view-IsWellFormed : IsWellFormed usize_max (to_message notify_view)
unfolding to_message
notify_view-IsWellFormed =
    (build-IsWellFormed usize_max notify_builder
      (record {
        id = hello-IsBuilder.id;
        query_format = hello-IsBuilder.query_format;
        body_format = hello-IsBuilder.body_format;
        ec = hello-IsBuilder.ec;
      })
      (omega arith) (omega arith)).0

answered : route_request_view count_calls only_a request_view 0 ≡ (1, some request)
unfolding route_request_view route query_format_or_raw get build is_utf8
answered = refl

answer_fits :
    48 + length (response_echo_query request request_view.query) + length request.body < 2 ^ 64
unfolding response_echo_query build
answer_fits = omega arith

call_into-answer_example :
    call_into count_calls usize_max only_a (to_vec (to_message request_view)) 0
    ≡ (1, ok (true, to_vec (stamp_response_query request request_view.query)))
call_into-answer_example =
    call_into-answer count_calls usize_max only_a request_view 0 1 request request_view-IsWellFormed
      answered request-IsWellFormed answer_fits

abbrev not_found : Bytes
not_found = ascii "Method not found: " ++ request_view.query

refused :
    route nothing_mounted request_view.header request_view.query
    ≡ RouteOutcome.reject false ErrorCode.method_not_found not_found
unfolding route query_format_or_raw get build is_utf8
refused = refl

refusal_fits :
    (48 + length request_view.query + length not_found < 2 ^ 64)
    × (48 + length request_view.query + length not_found ≤ usize_max)
unfolding build
refusal_fits = (omega arith, omega arith)

call_into-reject_example :
    call_into count_calls usize_max nothing_mounted (to_vec (to_message request_view)) 0 ≡ (
      0,
      ok (
        true,
        to_vec (
            create_error_response_like
              (to_message request_view)
              ErrorCode.method_not_found
              not_found),
      ),
    )
call_into-reject_example =
    call_into-reject count_calls usize_max nothing_mounted request_view 0 ErrorCode.method_not_found
      not_found request_view-IsWellFormed refused refusal_fits.0 refusal_fits.1
