-- ===== src/Server/Reply.antt =====
-- Framing a response that leaves its query to the carrier.
use repe_rs.Prelude.{ℕ, ◌+◌, ◌<◌, ◌^◌, ◌≡◌, Bytes, [], ◌∷◌, refl, ap, length, arith}
use repe_rs.Header.{Header}
use repe_rs.Message.{Message, IsWellFormed, to_vec}
use repe_rs.Message.Response.{stamp_response_query, response_echo_query}
use repe_rs.Io.{WriteAll, IsWriter}
use repe_rs.Io.Writing.{Wrote, Wrote-renamed, write_message_streaming-to_vec}
use repe_rs.Server.{write_view_response}

-- The message that the streaming writer frames.
abbrev framed : Header → Bytes → Bytes → Message
framed header query body = record {
  header = record header {
    query_length = length query;
    body_length = length body;
    length = 48 + length query + length body;
  };
  query = query;
  body = body;
}

-- Lengths that a header already has.
same_header :
    (h : Header) (q b l : ℕ)
    → h.query_length ≡ q
    → h.body_length ≡ b
    → h.length ≡ l
    → record h { query_length = q; body_length = b; length = l } ≡ h
same_header h q b l eq eb el = rw (← eq, ← eb, ← el) refl

framed-same : (u : ℕ) (m : Message) → IsWellFormed u m → framed m.header m.query m.body ≡ m
framed-same u m w =
    ap (λ h. record m { header = h })
      (same_header m.header (length m.query) (length m.body) (48 + length m.query + length m.body)
        w.query w.body (omega (arith, w.framed.length, w.query, w.body)))

framed-stamp :
    (u : ℕ) (header : Header) (q body query : Bytes)
    → IsWellFormed u (record { header = header; query = q; body = body })
    → framed header
        (response_echo_query (record { header = header; query = q; body = body }) query)
        body
      ≡ stamp_response_query (record { header = header; query = q; body = body }) query
unfolding stamp_response_query response_echo_query
framed-stamp u header [] body [] w = framed-same u _ w
framed-stamp u header [] body (c ∷ query) w =
    let bl : header.body_length ≡ length body = w.body in rw (← bl) refl
framed-stamp u header (d ∷ q) body [] w = framed-same u _ w
framed-stamp u header (d ∷ q) body (c ∷ query) w = framed-same u _ w

-- Framing a well-formed response with the request's query writes the wire form of the response
-- stamped with that query: the writer returns only when the transport has taken all of it, and ends
-- otherwise as the one write did that failed. The stamped frame's length is a u64.
pub write_view_response-to_vec :
    {W : Type 0} (write_all : WriteAll W) (taken : W → Bytes) (law : IsWriter write_all taken)
    (u : ℕ) (w : W) (response : Message) (query : Bytes)
    → IsWellFormed u response
    → 48 + length (response_echo_query response query) + length response.body < 2 ^ 64
    → Wrote write_all taken w
        (to_vec (stamp_response_query response query))
        (write_view_response write_all w response query)
unfolding write_view_response
write_view_response-to_vec write_all taken law u w response query wf small =
    Wrote-renamed write_all taken
      (ap to_vec (framed-stamp u response.header response.query response.body query wf))
      (write_message_streaming-to_vec write_all taken law w response.header
        (response_echo_query response query) response.body small)
