-- ===== src/Server/Call.antt =====
-- One request frame through `Router::call_into`.
use repe_rs.Prelude.{
  ℕ, ◌+◌, ◌<◌, ◌≤◌, ◌^◌, ◌≡◌, Bytes, true, false, [], ◌++◌, Option, none, some, ◌⊎◌, Outcome, ok,
  err, panic, ◌>>=◌, ◌>>◌, map_ok, refl, sym, ap, ◌∙◌, length, arith,
}
use repe_rs.Constants.{ErrorCode, BodyFormat, error_code_to_u32, body_format_to_u16}
use repe_rs.Error.{RepeError}
use repe_rs.Message.{
  Message, MessageView, IsWellFormed, to_vec, to_message, view_from_slice, view_from_slice_exact,
  from_slice_exact, reject_trailing,
}
use repe_rs.Message.Parse.{from_slice-view}
use repe_rs.Message.Wire.{from_slice_exact-to_vec}
use repe_rs.Message.Builder
use repe_rs.Message.Builder.{builder, build, build-IsWellFormed}
use repe_rs.Message.Response.{
  create_error_response_like, create_error_response_unstamped_view, stamp_response_query,
  response_echo_query,
}
use repe_rs.Message.Echo.{stamp_response_query-error}
use repe_rs.Io.{IsWriter}
use repe_rs.Io.Writing.{Wrote}
use repe_rs.Server.{
  CallContext, Router, RouteOutcome, route, route_request_view, dispatch_view, answer, write_reply,
  on_outcome, call_into, write_vec, expect,
}
use repe_rs.Server.Route.{notify_of, notify_of-route}
use repe_rs.Server.Reply.{write_view_response-to_vec}

-- The exact parses agree, as the parses do.
from_slice_exact-view :
    (u : ℕ) (buf : Bytes) → from_slice_exact u buf ≡ map_ok to_message (view_from_slice_exact u buf)
unfolding from_slice_exact view_from_slice_exact to_message
from_slice_exact-view u buf = rw (from_slice-view u buf) (go (view_from_slice u buf))
  where
    checked :
        (v : MessageView) (r : Outcome RepeError (Unit {0}))
        → (r >> ok (to_message v)) ≡ map_ok to_message (r >> ok v)
    checked v (ok x) = refl
    checked v (err e) = refl
    checked v panic = refl

    go :
        (o : Outcome RepeError MessageView)
        → (map_ok to_message o >>= λ m. reject_trailing u buf m.query m.body >> ok m)
          ≡ map_ok to_message (o >>= λ v. reject_trailing u buf v.query v.body >> ok v)
    go (ok v) = checked v (reject_trailing u buf v.query v.body)
    go (err e) = refl
    go panic = refl

to_message_inj : (v w : MessageView) → to_message v ≡ to_message w → v ≡ w
unfolding to_message
to_message_inj v w e =
    ap {B = MessageView} (λ m. record { header = m.header; query = m.query; body = m.body }) e

view_exact-to_vec :
    (u : ℕ) (view : MessageView)
    → IsWellFormed u (to_message view)
    → view_from_slice_exact u (to_vec (to_message view)) ≡ ok view
view_exact-to_vec u view w = go (view_from_slice_exact u (to_vec (to_message view))) (
    sym (from_slice_exact-view u (to_vec (to_message view)))
    ∙ from_slice_exact-to_vec u (to_message view) w)
  where
    go :
        (o : Outcome RepeError MessageView)
        → map_ok to_message o ≡ ok (to_message view)
        → o ≡ ok view
    go (ok v) e = ap ok (to_message_inj v view (cc e))
    go (err x) e = cc e
    go panic e = cc e

write_vec-IsWriter : IsWriter write_vec (λ w. w)
write_vec-IsWriter = record { takes_all = λ w w' b e. sym (cc e) }

-- A buffer takes what is written to it.
write_vec-Wrote :
    (frame : Bytes) (out : Outcome RepeError Bytes)
    → Wrote write_vec (λ w. w) [] frame out
    → out ≡ ok frame
write_vec-Wrote frame out (Wrote.all w' e t) = e ∙ ap ok t
write_vec-Wrote frame out (Wrote.stopped v done piece rest parts t e fails) =
    absurd (fails (v ++ piece) e)

error_code-lt : (c : ErrorCode) → error_code_to_u32 c < 256 ^ 4
unfolding error_code_to_u32
error_code-lt ErrorCode.ok = omega arith
error_code-lt ErrorCode.version_mismatch = omega arith
error_code-lt ErrorCode.invalid_header = omega arith
error_code-lt ErrorCode.invalid_query = omega arith
error_code-lt ErrorCode.invalid_body = omega arith
error_code-lt ErrorCode.parse_error = omega arith
error_code-lt ErrorCode.method_not_found = omega arith
error_code-lt ErrorCode.timeout = omega arith
error_code-lt ErrorCode.resource_exhausted = omega arith
error_code-lt ErrorCode.internal_error = omega arith
error_code-lt ErrorCode.application_error_base = omega arith

create_error-IsWellFormed :
    (u : ℕ) (view : MessageView) (code : ErrorCode) (msg : Bytes)
    → IsWellFormed u (to_message view)
    → 48 + length msg < 2 ^ 64
    → 48 + length msg ≤ u
    → IsWellFormed u (create_error_response_unstamped_view view code msg)
unfolding create_error_response_unstamped_view to_message build body_format_to_u16
create_error-IsWellFormed u view code msg w small fits =
    (build-IsWellFormed u
      (record (Builder.body_format BodyFormat.utf8
        (Builder.body_bytes msg (Builder.error_code code builder))) { id = view.header.id })
      (record {
        id = w.header.id;
        query_format = omega arith;
        body_format = omega arith;
        ec = error_code-lt code;
      })
      small fits).0

module _ {H G C S : Type 0}
    (handle_view : H → MessageView → CallContext G C → S → S × (RepeError ⊎ Message)) where
  silent :
      (router : Router H) (view : MessageView) (s : S)
      → view.header.notify ≡ 1
      → (route_request_view handle_view router view s).1 ≡ none
  unfolding route_request_view on_outcome
  silent router view s flag =
      go (route router view.header view.query)
        (notify_of-route router view.header view.query ∙ ground (arith, flag))
    where
      go : (o : RouteOutcome H) → notify_of o ≡ true → (on_outcome handle_view view o s).1 ≡ none
      go (RouteOutcome.dispatch_to handler n path) e = rw e (unfold dispatch_view in refl)
      go (RouteOutcome.reject n code message) e = rw e refl

  call_into_parsed :
      (u : ℕ) (router : Router H) (request : Bytes) (view : MessageView) (s : S)
      → view_from_slice_exact u request ≡ ok view
      → call_into handle_view u router request s ≡ answer handle_view router (ok view) s
  unfolding call_into
  call_into_parsed u router request view s e = ap (λ o. answer handle_view router o s) e

  -- A notify that parses runs its handler, if it has one, and writes nothing, whatever the handler
  -- answers and also when the request is refused.
  call_into-notify :
      (u : ℕ) (router : Router H) (view : MessageView) (s : S)
      → IsWellFormed u (to_message view)
      → view.header.notify ≡ 1
      → (call_into handle_view u router (to_vec (to_message view)) s).1 ≡ ok (false, [])
  unfolding answer write_reply
  call_into-notify u router view s w flag =
      ap (λ o. o.1) (call_into_parsed u router _ view s (view_exact-to_vec u view w))
      ∙ ap (write_reply view) (silent router view s flag)

  -- A request that parses and is answered with a well-formed response gets one frame: the wire form of
  -- the response, stamped with the request's query unless it has a query of its own. The state is the
  -- handler's, and the stamped frame's length is a u64.
  pub call_into-answer :
      (u : ℕ) (router : Router H) (view : MessageView) (s s' : S) (response : Message)
      → IsWellFormed u (to_message view)
      → route_request_view handle_view router view s ≡ (s', some response)
      → IsWellFormed u response
      → 48 + length (response_echo_query response view.query) + length response.body < 2 ^ 64
      → call_into handle_view u router (to_vec (to_message view)) s
        ≡ (s', ok (true, to_vec (stamp_response_query response view.query)))
  unfolding answer write_reply
  call_into-answer u router view s s' response w q wr small =
      call_into_parsed u router _ view s (view_exact-to_vec u view w)
      ∙ ap (λ (o : S × Option Message). (o.0, write_reply view o.1)) q
      ∙ ap (λ o. (s', expect o >>= λ out. ok (true, out)))
          (write_vec-Wrote _ _ (
            write_view_response-to_vec write_vec (λ w. w) write_vec-IsWriter u [] response
              view.query wr small))

  -- A request that parses and is refused (an unknown version, a query that is no JSON pointer in
  -- UTF-8, no handler), and is no notify, leaves the application's state and gets one frame: the error
  -- response with the refusal's code and message, the request's id and the request's query.
  pub call_into-reject :
      (u : ℕ) (router : Router H) (view : MessageView) (s : S) (code : ErrorCode) (msg : Bytes)
      → IsWellFormed u (to_message view)
      → route router view.header view.query ≡ RouteOutcome.reject false code msg
      → 48 + length view.query + length msg < 2 ^ 64
      → 48 + length view.query + length msg ≤ u
      → call_into handle_view u router (to_vec (to_message view)) s
        ≡ (s, ok (true, to_vec (create_error_response_like (to_message view) code msg)))
  call_into-reject u router view s code msg w r small fits =
      call_into-answer u router view s s (create_error_response_unstamped_view view code msg) w
        (unfold route_request_view on_outcome in ap (λ o. on_outcome handle_view view o s) r)
        (create_error-IsWellFormed u view code msg w (omega (arith, small)) (omega (arith, fits)))
        (unfold create_error_response_unstamped_view response_echo_query build in small)
      ∙ ap (λ m. (s, ok (true, to_vec m))) (stamp_response_query-error view code msg)
