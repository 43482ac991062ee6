-- ===== src/Server.antt =====
-- src/server_request.rs, and the lookup and the in-process call of src/server.rs's `Router`.
-- A handler is its two methods, `handle_view` and `handle_with_ctx`, as functions on the
-- application's state `S`; they are parameters, since the application supplies them. A router holds
-- the handlers that it dispatches, middleware included (`dispatched`). `G` and `C` are the peer
-- handle and the cancellation signal.
pub mod Route
pub mod Reply
pub mod Call
use repe_rs.Prelude.{
  ℕ, Bytes, Bool, true, false, not, List, [], ◌∷◌, ◌++◌, Option, none, some, ◌⊎◌, inl, inr, Outcome,
  ok, err, panic, ◌>>=◌, ◌==◌, ◌&&◌, if◌then◌else◌, length, is_empty, ascii, decimal, is_utf8,
}
use repe_rs.Constants.{repe_version, ErrorCode, QueryFormat}
use repe_rs.Error.{RepeError, to_error_code, error_to_string}
use repe_rs.Header.{Header}
use repe_rs.Message.{Message, MessageView, view_from_slice_exact}
use repe_rs.Message.Response.{
  create_error_message, create_error_response_like, create_error_response_unstamped_view,
  response_echo_query, query_format_or_raw,
}
use repe_rs.Io.{WriteAll, write_message, write_message_streaming}
use repe_rs.JsonPointer.{starts_with}

pub record CallContext (G C : Type 0) : Type 0 where
  pub method : Bytes
  pub peer : Option G
  pub cancel : Option C

-- `CallContext::detached`
unfoldable pub detached : {G C : Type 0} → Bytes → CallContext G C
detached path = record { method = path; peer = none; cancel = none }

-- `RegistryEntry` and `StructEntry`: a mount's prefix (or root), and its handler.
pub record MountEntry (H : Type 0) : Type 0 where
  pub prefix : Bytes
  pub dispatched : H

pub record Router (H : Type 0) : Type 0 where
  pub routes : List (Bytes × H)
  pub registries : List (MountEntry H)
  pub structs : List (MountEntry H)
  pub fallback : Option H

-- `str::strip_prefix`
unfoldable pub strip_prefix : Bytes → Bytes → Option Bytes
strip_prefix [] path = some path
strip_prefix (c ∷ prefix) [] = none
strip_prefix (c ∷ prefix) (d ∷ path) =
    let rest = strip_prefix prefix path in if c == d then rest else none

-- `path == prefix`
unfoldable pub same_text : Bytes → Bytes → Bool
same_text [] [] = true
same_text [] (d ∷ b) = false
same_text (c ∷ a) [] = false
same_text (c ∷ a) (d ∷ b) = c == d && same_text a b

-- `matches` of a mount with this prefix
unfoldable pub matches : Bytes → Bytes → Bool
unfolding strip_prefix same_text starts_with
matches prefix path =
    if is_empty prefix
    then true
    else if same_text path prefix
    then true
    else elim (strip_prefix prefix path) [ none ↦ false | some rest ↦ starts_with b'/' rest ]

module _ {H : Type 0} where
  unfoldable pub find_route : Bytes → List (Bytes × H) → Option H
  unfolding same_text
  find_route path [] = none
  find_route path ((key, h) ∷ rest) =
      let later = find_route path rest in if same_text path key then some h else later

  unfoldable pub find_mount : Bytes → List (MountEntry H) → Option H
  unfolding matches
  find_mount path [] = none
  find_mount path (entry ∷ rest) =
      let later = find_mount path rest in
      if matches entry.prefix path then some entry.dispatched else later

  -- `Router::get`
  unfoldable pub get : Router H → Bytes → Option H
  unfolding find_route find_mount
  get router path = elim (find_route path router.routes) [
    | some h ↦ some h
    | none ↦ elim (find_mount path router.registries) [
      | some h ↦ some h
      | none ↦ elim (find_mount path router.structs) [ some h ↦ some h | none ↦ router.fallback ]
    ]
  ]

pub data RouteOutcome (H : Type 0) : Type 0 where
  dispatch_to : (handler : H) (notify : Bool) (path : Bytes) → RouteOutcome H
  reject : (notify : Bool) (code : ErrorCode) (message : Bytes) → RouteOutcome H

unfoldable pub route : {H : Type 0} → Router H → Header → Bytes → RouteOutcome H
unfolding query_format_or_raw get
route router header query =
    let notify = header.notify == 1 in
    if not (header.version == repe_version)
    then RouteOutcome.reject notify ErrorCode.version_mismatch
        (ascii "Unsupported REPE version " ++ decimal header.version)
    else elim (query_format_or_raw header.query_format) [
      | QueryFormat.json_pointer ↦
          if is_utf8 query
          then elim (get router query) [
            | some handler ↦ RouteOutcome.dispatch_to handler notify query
            | none ↦
                RouteOutcome.reject notify ErrorCode.method_not_found
                  (ascii "Method not found: " ++ query)
          ]
          else RouteOutcome.reject notify ErrorCode.invalid_query
              (ascii "Query must be valid UTF-8")
      | QueryFormat.raw_binary ↦
          RouteOutcome.reject notify ErrorCode.invalid_query
            (ascii "Raw binary queries are not supported by this server")
    ]

-- `write_view_response`
unfoldable pub write_view_response :
    {W : Type 0} → WriteAll W → W → Message → Bytes → Outcome RepeError W
unfolding response_echo_query write_message_streaming
write_view_response write_all w response query =
    let echo = response_echo_query response query in
    write_message_streaming write_all w response.header echo (length response.body)
      (λ v. write_all v response.body)

-- `Vec<u8>` as a sink
abbrev pub write_vec : WriteAll Bytes
write_vec w bytes = ok (w ++ bytes)

-- `expect`
abbrev pub expect : {A : Type 0} → Outcome RepeError A → Outcome RepeError A
expect (ok a) = ok a
expect (err e) = panic
expect panic = panic

-- The reply's part of `call_into`.
unfoldable pub write_reply : MessageView → Option Message → Outcome RepeError (Bool × Bytes)
unfolding write_view_response
write_reply view none = ok (false, [])
write_reply view (some response) =
    expect (write_view_response write_vec [] response view.query) >>= λ out. ok (true, out)

module _ {H G C S : Type 0}
    (handle_view : H → MessageView → CallContext G C → S → S × (RepeError ⊎ Message)) where
  unfoldable pub dispatch_view : H → MessageView → CallContext G C → Bool → S → S × Option Message
  unfolding to_error_code error_to_string create_error_response_unstamped_view
  dispatch_view handler view ctx notify s =
      let (s', result) = handle_view handler view ctx s in
      if notify then (s', none) else (
        s',
        some (elim result [
          | inr message ↦ message
          | inl e ↦ create_error_response_unstamped_view view (to_error_code e) (error_to_string e)
        ]),
      )

  -- The `match` of `route_request_view` on the outcome.
  unfoldable pub on_outcome : MessageView → RouteOutcome H → S → S × Option Message
  unfolding detached dispatch_view create_error_response_unstamped_view
  on_outcome view (RouteOutcome.dispatch_to handler notify path) s =
      dispatch_view handler view (detached path) notify s
  on_outcome view (RouteOutcome.reject notify code message) s = (
    s,
    if not notify then some (create_error_response_unstamped_view view code message) else none,
  )

  unfoldable pub route_request_view : Router H → MessageView → S → S × Option Message
  unfolding route on_outcome
  route_request_view router view s = on_outcome view (route router view.header view.query) s

  -- The `match` of `call_into` on the parse.
  unfoldable pub answer :
      Router H → Outcome RepeError MessageView → S → S × Outcome RepeError (Bool × Bytes)
  unfolding route_request_view write_reply create_error_message write_message to_error_code
      error_to_string
  answer router (ok view) s =
      let (s', reply) = route_request_view router view s in (s', write_reply view reply)
  answer router (err e) s = (
    s,
    expect (write_message write_vec [] (create_error_message (to_error_code e) (error_to_string e)))
        >>= λ out. ok (true, out),
  )
  answer router panic s = (s, panic)

  -- `Router::call_into`: the state, whether a response was written, and the buffer, which is cleared
  -- first.
  unfoldable pub call_into : ℕ → Router H → Bytes → S → S × Outcome RepeError (Bool × Bytes)
  unfolding answer view_from_slice_exact
  call_into u router request s = answer router (view_from_slice_exact u request) s

module _ {H G C S : Type 0}
    (handle_with_ctx : H → Message → CallContext G C → S → S × (RepeError ⊎ Message)) where
  unfoldable pub dispatch : H → Message → CallContext G C → Bool → S → S × Option Message
  unfolding to_error_code error_to_string create_error_response_like
  dispatch handler req ctx notify s =
      let (s', result) = handle_with_ctx handler req ctx s in
      if notify then (s', none) else (
        s',
        some (elim result [
          | inr message ↦ message
          | inl e ↦ create_error_response_like req (to_error_code e) (error_to_string e)
        ]),
      )
