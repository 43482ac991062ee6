-- ===== src/Message.antt =====
-- src/message.rs: messages, the borrowed view of one, and their wire form.
-- `usize_max` is the largest `usize` of the target. A `Vec` is its bytes; where its capacity decides
-- a branch, the capacity is an argument.
pub mod Parse
pub mod Wire
pub mod Reuse
pub mod Builder
pub mod Response
pub mod Echo
use repe_rs.Prelude.{
  ℕ, suc, ◌+◌, ◌-◌, ◌%◌, ◌^◌, ◌≡◌, min, Bytes, Bool, true, false, ◌++◌, [], not, ◌||◌, Outcome, ok,
  err, panic, ◌>>=◌, ◌>>◌, Option, none, some, return_err_if, ltb, leb, ◌==◌, if◌then◌else◌, length,
  take, drop, replicate, is_empty, slice,
}
use repe_rs.Constants.{header_size, ErrorCode, error_code_to_u32, error_code_try_from}
use repe_rs.Error.{RepeError}
use repe_rs.Header
use repe_rs.Header.{Header, encode, decode, copy_at}
use repe_rs.Header.RoundTrip.{IsFramed}

pub record Message : Type 0 where
  pub header : Header
  pub query : Bytes
  pub body : Bytes

-- `MessageView<'a>`: the same fields, borrowed.
pub record MessageView : Type 0 where
  pub header : Header
  pub query : Bytes
  pub body : Bytes

-- A message whose header describes it: field widths, framing, and the two lengths.
pub record IsWellFormed (u : ℕ) (m : Message) : Type 0 where
  pub header : Header.IsHeader m.header
  pub framed : IsFramed u m.header
  pub query : m.header.query_length ≡ length m.query
  pub body : m.header.body_length ≡ length m.body

-- `u64::saturating_add`
saturating_add : ℕ → ℕ → ℕ
saturating_add a b = min (a + b) (2 ^ 64 - 1)

-- `Message::new`
unfoldable pub new_message : Header → Bytes → Bytes → Outcome RepeError Message
unfolding saturating_add
new_message header query body = do
  return_err_if
      (not (header.query_length == length query) || not (header.body_length == length body))
      (RepeError.length_mismatch
        (saturating_add (saturating_add header_size header.query_length) header.body_length)
        (header_size + length query + length body))
  ok (record { header = header; query = query; body = body })

-- `if !part.is_empty() { out.extend_from_slice(part) }`
abbrev extend : Bytes → Bytes → Bytes
extend out part = if not (is_empty part) then out ++ part else out

unfoldable pub to_vec : Message → Bytes
to_vec m = let out = encode m.header in let out' = extend out m.query in extend out' m.body

unfoldable pub serialized_len : Message → ℕ
serialized_len m = header_size + length m.query + length m.body

-- `body.resize(n, 0)`, for `n` at least the length.
abbrev resize : ℕ → Bytes → Bytes
resize n buf = buf ++ replicate (n - length buf) 0

-- `into_wire_bytes` of a message whose body buffer has room for `capacity` bytes.
unfoldable pub into_wire_bytes : ℕ → Message → Bytes
into_wire_bytes capacity m =
    let prefix_len = header_size + length m.query in
    let body_len = length m.body in
    let total = prefix_len + body_len in
    if leb total capacity
    then (let grown = resize total m.body in
        let shifted =
          if ltb 0 body_len then copy_at prefix_len (take body_len grown) grown else grown in
        let headed = copy_at 0 (encode m.header) shifted in
        if not (is_empty m.query) then copy_at header_size m.query headed else headed)
    else (let out = encode m.header in
        let out' = extend out m.query in if ltb 0 body_len then out' ++ m.body else out')

-- `n as usize`
abbrev pub as_usize : ℕ → ℕ → ℕ
as_usize u n = n % suc u

-- `a + b` on `usize`, under overflow checks.
abbrev pub add_usize : ℕ → ℕ → ℕ → Outcome RepeError ℕ
add_usize u a b = if leb (a + b) u then ok (a + b) else panic

-- `Message::from_slice`
unfoldable pub from_slice : ℕ → Bytes → Outcome RepeError Message
from_slice u buf = do
  return_err_if (ltb (length buf) header_size) (RepeError.invalid_header_length (length buf))
  head ← slice 0 header_size buf
  header ← decode u head
  with_query ← add_usize u header_size (as_usize u header.query_length)
  expected ← add_usize u with_query (as_usize u header.body_length)
  return_err_if (ltb (length buf) expected) (RepeError.buffer_too_small expected (length buf))
  q_end ← add_usize u header_size (as_usize u header.query_length)
  query ← slice header_size q_end buf
  b_end ← add_usize u q_end (as_usize u header.body_length)
  body ← slice q_end b_end buf
  new_message header query body

-- The check that the buffer ends with the message.
abbrev pub reject_trailing : ℕ → Bytes → Bytes → Bytes → Outcome RepeError (Unit {0})
reject_trailing u buf query body = do
  with_query ← add_usize u header_size (length query)
  expected ← add_usize u with_query (length body)
  return_err_if (not (length buf == expected)) (RepeError.length_mismatch expected (length buf))

-- `Message::from_slice_exact`
unfoldable pub from_slice_exact : ℕ → Bytes → Outcome RepeError Message
from_slice_exact u buf = do
  message ← from_slice u buf
  reject_trailing u buf message.query message.body
  ok message

-- `MessageView::from_slice`
unfoldable pub view_from_slice : ℕ → Bytes → Outcome RepeError MessageView
view_from_slice u buf = do
  return_err_if (ltb (length buf) header_size) (RepeError.invalid_header_length (length buf))
  head ← slice 0 header_size buf
  header ← decode u head
  with_query ← add_usize u header_size (as_usize u header.query_length)
  expected ← add_usize u with_query (as_usize u header.body_length)
  return_err_if (ltb (length buf) expected) (RepeError.buffer_too_small expected (length buf))
  q_end ← add_usize u header_size (as_usize u header.query_length)
  b_end ← add_usize u q_end (as_usize u header.body_length)
  query ← slice header_size q_end buf
  body ← slice q_end b_end buf
  ok (record { header = header; query = query; body = body })

-- `MessageView::from_slice_exact`
unfoldable pub view_from_slice_exact : ℕ → Bytes → Outcome RepeError MessageView
view_from_slice_exact u buf = do
  view ← view_from_slice u buf
  reject_trailing u buf view.query view.body
  ok view

-- `MessageView::to_message`
unfoldable pub to_message : MessageView → Message
to_message v = record { header = v.header; query = v.query; body = v.body }

unfoldable pub is_error : Message → Bool
unfolding error_code_to_u32
is_error m = not (m.header.ec == error_code_to_u32 ErrorCode.ok)

-- `ErrorCode::try_from(self.header.ec).ok()`
unfoldable pub error_code : Message → Option ErrorCode
unfolding error_code_try_from
error_code m = elim (error_code_try_from m.header.ec) [ ok c ↦ some c | _ ↦ none ]
