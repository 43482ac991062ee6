-- ===== src/WebSocket/Outbound.antt =====
-- What goes out: a message as it is, or the report of one that is too large.
use repe_rs.Prelude.{
  ◌∙◌, ascii, decimal, length-append, length-decimal-le, ℕ, ◌+◌, ◌≤◌, ◌<◌, ◌^◌, ◌≡◌, ◌≢◌, refl, sym,
  ap, subst, Bytes, true, false, not, List, [], ◌∷◌, ◌++◌, Option, none, some, ok, err, ltb, ◌==◌,
  ==_refl, length, arith,
}
use repe_rs.Constants.{
  ErrorCode, error_code_to_u32, error_code_try_from, BodyFormat, body_format_to_u16,
}
use repe_rs.Error.{RepeError}
use repe_rs.Message.{Message, IsWellFormed, to_vec, from_slice_exact}
use repe_rs.Message.Wire.{from_slice_exact-to_vec, to_vec-eq}
use repe_rs.Header.{encode}
use repe_rs.Header.Fields.{length-encode}
use repe_rs.Message.Builder
use repe_rs.Message.Builder.{IsBuilder, builder, build, build-IsWellFormed}
use repe_rs.Message.Response.{create_error_message}
use repe_rs.Client.{validate_response, code_or_parse_error}
use repe_rs.WebSocket.{
  WebSocketLimits, ConnectionError, method_of, check_outbound, replacement, frame_checked,
  frame_outbound,
}
use repe_rs.Message.Reuse.{into_wire_bytes-to_vec}

-- The replacement is a message that the builder makes.
replacement_built :
    (id size limit : ℕ)
    → replacement id size limit
      ≡ build (
          Builder.id id (
            Builder.body_format BodyFormat.utf8 (
              Builder.body_bytes
                (replacement id size limit).body
                (Builder.error_code ErrorCode.internal_error builder))))
unfolding replacement create_error_message build
replacement_built id size limit = refl

replacement-IsWellFormed :
    (u id size limit : ℕ)
    → id < 256 ^ 8
    → 48 + length (replacement id size limit).body < 2 ^ 64
    → 48 + length (replacement id size limit).body ≤ u
    → IsWellFormed u (replacement id size limit)
replacement-IsWellFormed u id size limit wide small fits =
    subst (IsWellFormed u) (sym (replacement_built id size limit)) (
      (build-IsWellFormed u
        (Builder.id id (
          Builder.body_format BodyFormat.utf8 (
            Builder.body_bytes (replacement id size limit).body
              (Builder.error_code ErrorCode.internal_error builder))))
        (record {
          id = wide;
          query_format = omega arith;
          body_format = unfold body_format_to_u16 in omega arith;
          ec = unfold error_code_to_u32 in omega arith;
        })
        (omega (arith, small)) (omega (arith, fits))).0)

-- The frame of the replacement is short, whatever the numbers in its text.
replacement-le :
    (id size limit : ℕ)
    → size < 2 ^ 64
    → limit < 2 ^ 64
    → 48 + length (replacement id size limit).body ≤ 256
unfolding replacement create_error_message build
replacement-le id size limit hs hl =
    let ds = length-decimal-le 19 size (omega (arith, hs)) in
    let dl = length-decimal-le 19 limit (omega (arith, hl)) in
    let tail =
      ascii
        " byte assumed peer frame limit; raise the peer's inbound limit or reduce the response" in
    omega (
      arith,
      ds,
      dl,
      length-append (decimal size) (ascii " bytes, over the " ++ (decimal limit ++ tail)),
      length-append (decimal limit) tail,
    )

replacement_frame-le :
    (id size limit : ℕ)
    → size < 2 ^ 64
    → limit < 2 ^ 64
    → length (to_vec (replacement id size limit)) ≤ 256
replacement_frame-le id size limit hs hl =
    let r = replacement id size limit in
    let no_query : r.query ≡ [] = unfold replacement create_error_message build in refl in
    let parts = ap (λ q. length (encode r.header ++ (q ++ r.body))) no_query in
    omega (
      arith,
      replacement-le id size limit hs hl,
      ap length (to_vec-eq r) ∙ parts,
      length-append (encode r.header) r.body,
      length-encode r.header,
    )

validate_response-replacement :
    (lossy : Bytes → Bytes) (id size limit : ℕ)
    → validate_response lossy id (replacement id size limit)
      ≡ err
          (RepeError.server_error ErrorCode.internal_error (lossy (replacement id size limit).body))
unfolding validate_response replacement create_error_message build error_code_to_u32
    error_code_try_from code_or_parse_error
validate_response-replacement lossy id size limit = rw (==_refl id) refl

module _ (capacity : Message → ℕ) (limits : WebSocketLimits) (limit : ℕ) (m : Message)
    (reports : List ConnectionError) (limited : limits.assumed_peer_frame_limit ≡ some limit) where
  abbrev size : ℕ
  size = 48 + length m.query + length m.body

  abbrev report : List ConnectionError
  report = reports ++ (ConnectionError.outbound_too_large (method_of m) size limit ∷ [])

  check_too_large :
      limit < size → check_outbound limits size ≡ err (RepeError.message_too_large size limit)
  unfolding check_outbound
  check_too_large h =
      let over : ltb limit size ≡ true = ground (arith, h) in rw (limited, over) refl

  -- A message within the limit goes out as it is, and nothing is reported.
  frame_outbound_fits :
      size ≤ limit → frame_outbound capacity m limits reports ≡ (reports, some (to_vec m))
  unfolding frame_outbound check_outbound frame_checked
  frame_outbound_fits h =
      let within : ltb limit size ≡ false = ground (arith, h) in
      rw (limited, within) (ap (λ b. (reports, some b)) (into_wire_bytes-to_vec (capacity m) m))

  -- What the peer of a connection makes of an outbound message.
  pub record Framed (u : ℕ) (lossy : Bytes → Bytes) (out : List ConnectionError × Option Bytes)
      : Type 0 where
    pub fits : size ≤ limit → out ≡ (reports, some (to_vec m))
    pub dropped : limit < size → m.header.notify ≢ 0 → out ≡ (report, none)
    pub replaced :
        limit < size
        → m.header.notify ≡ 0
        → (sent : Bytes) × (response : Message) × (out ≡ (report, some sent))
          × (length sent ≤ 256)
          × (from_slice_exact u sent ≡ ok response)
          × (validate_response lossy m.header.id response
              ≡ err (RepeError.server_error ErrorCode.internal_error (lossy response.body)))

  frame_outbound_dropped :
      limit < size → m.header.notify ≢ 0 → frame_outbound capacity m limits reports ≡ (report, none)
  unfolding frame_outbound frame_checked
  frame_outbound_dropped h notify =
      let notifies : not (m.header.notify == 0) ≡ true = ground (arith, notify) in
      rw (check_too_large h, notifies) refl

  frame_outbound_replaced :
      limit < size
      → m.header.notify ≡ 0
      → frame_outbound capacity m limits reports
        ≡ (report, some (to_vec (replacement m.header.id size limit)))
  unfolding frame_outbound frame_checked
  frame_outbound_replaced h request =
      let asks : not (m.header.notify == 0) ≡ false = ground (arith, request) in
      rw (check_too_large h, asks)
        (ap (λ b. (report, some b))
          (into_wire_bytes-to_vec (capacity (replacement m.header.id size limit))
            (replacement m.header.id size limit)))

  -- A message within the peer's frame limit goes out as it is. A larger one is reported and does not go
  -- out: a notification is dropped, and a response is replaced by another frame. That frame has at most
  -- 256 bytes, so it is within every limit from there on (it is not compared with a smaller one); it
  -- parses, and the client's checks turn it into the server's internal error under the request's own id.
  -- The message's size and the limit are words of 64 bits, and an address space holds 256 bytes.
  pub frame_outbound-Framed :
      (u : ℕ) (lossy : Bytes → Bytes)
      → m.header.id < 256 ^ 8
      → size < 2 ^ 64
      → limit < 2 ^ 64
      → 256 ≤ u
      → Framed u lossy (frame_outbound capacity m limits reports)
  frame_outbound-Framed u lossy wide small_size small_limit room =
      let short = replacement-le m.header.id size limit small_size small_limit in
      record {
        fits = frame_outbound_fits;
        dropped = frame_outbound_dropped;
        replaced = λ h request. (
          to_vec (replacement m.header.id size limit),
          replacement m.header.id size limit,
          frame_outbound_replaced h request,
          replacement_frame-le m.header.id size limit small_size small_limit,
          from_slice_exact-to_vec u (replacement m.header.id size limit) (
              replacement-IsWellFormed u m.header.id size limit wide (omega (arith, short))
                (omega (arith, short, room))),
          validate_response-replacement lossy m.header.id size limit,
        );
      }
