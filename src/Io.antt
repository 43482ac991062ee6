-- ===== src/Io.antt =====
-- src/io.rs: messages on a byte stream. The stream is the caller's: `read` and `write_all` are
-- parameters, with the contract of `std::io` in `IsReader` and `IsWriter`.
pub mod Reading
pub mod Frames
pub mod Writing
use repe_rs.Prelude.{
  ℕ, zero, suc, ◌+◌, ◌-◌, ◌≤◌, ◌<◌, ◌^◌, ◌≡◌, ◌≢◌, Bytes, [], ◌∷◌, ◌++◌, not, Bool, Outcome, ok,
  err, panic, ◌>>=◌, ◌==◌, ltb, if◌then◌else◌, length, is_empty,
}
use repe_rs.Constants.{header_size, BodyFormat, body_format_to_u16}
use repe_rs.Error.{RepeError, IoError}
use repe_rs.Header.{Header, encode, decode}
use repe_rs.Message.{Message, new_message, as_usize, add_usize}

-- `r.read(buf)` with `n` bytes of room: the bytes read and the reader after.
abbrev pub Read : Type 0 → Type 0
Read R = ℕ → R → Outcome RepeError (Bytes × R)

-- The contract of `std::io::Read`, for a reader on which `pending` says what is still to come: a
-- read takes a piece off the front, no longer than the room, and is empty at the end alone.
pub record IsReader {R : Type 0} (read : Read R) (pending : R → Bytes) : Type 0 where
  pub takes :
      (n : ℕ) (r : R) (got : Bytes) (r' : R)
      → read n r ≡ ok (got, r')
      → (pending r ≡ got ++ pending r') × (length got ≤ n)
  pub at_end : (n : ℕ) (r r' : R) → 0 < n → read n r ≡ ok ([], r') → pending r ≡ []
  pub no_panic : (n : ℕ) (r : R) → read n r ≢ panic

-- A reader whose transport does not fail.
pub record IsReliable {R : Type 0} (read : Read R) : Type 0 where
  pub answers : (n : ℕ) (r : R) → (got : Bytes) × (r' : R) × (read n r ≡ ok (got, r'))

-- The rest of a read, behind what is there already.
abbrev pub append_read :
    {R : Type 0} → Bytes → Outcome RepeError (Bytes × R) → Outcome RepeError (Bytes × R)
append_read got (ok (rest, r)) = ok (got ++ rest, r)
append_read got (err e) = err e
append_read got panic = panic

-- One round of the loop after its read: no byte is the end of the stream, and a reader that claims
-- more bytes than the room makes `&mut tmp[n..]` panic.
abbrev pub after_read :
    {R : Type 0}
    → (ℕ → R → Outcome RepeError (Bytes × R))
    → ℕ
    → Bytes
    → R
    → Outcome RepeError (Bytes × R)
after_read more want [] r = err (RepeError.io IoError.unexpected_eof)
after_read more want (b ∷ got) r =
    if ltb want (suc (length got))
    then panic
    else append_read (b ∷ got) (more (want - suc (length got)) r)

module _ {R : Type 0} (read : Read R) where
  -- The loop of `read_exact`. A round takes a byte at least, so `want` rounds are enough.
  unfoldable pub read_loop : ℕ → ℕ → R → Outcome RepeError (Bytes × R)
  read_loop zero want r = if want == 0 then ok ([], r) else panic
  read_loop (suc fuel) want r =
      let round = (do (got, r') ← read want r; after_read (read_loop fuel) want got r') in
      if want == 0 then ok ([], r) else round

  unfoldable pub read_exact : ℕ → R → Outcome RepeError (Bytes × R)
  read_exact want r = read_loop want want r

  -- `if !part.is_empty() { read_exact(r, &mut part)? }`
  pub read_part : ℕ → R → Outcome RepeError (Bytes × R)
  read_part len r = if len == 0 then ok ([], r) else read_exact len r

  unfoldable pub read_message : ℕ → R → Outcome RepeError (Message × R)
  unfolding read_part
  read_message u r = do
    (hdr_buf, r1) ← read_exact header_size r
    header ← decode u hdr_buf
    (query, r2) ← read_part (as_usize u header.query_length) r1
    (body, r3) ← read_part (as_usize u header.body_length) r2
    message ← new_message header query body
    ok (message, r3)

  -- The buffer after the call; what it held before is cleared.
  unfoldable pub read_message_into : ℕ → R → Outcome RepeError (Bytes × R)
  read_message_into u r = do
    (hdr_buf, r1) ← read_exact header_size r
    header ← decode u hdr_buf
    with_query ← add_usize u header_size (as_usize u header.query_length)
    total ← add_usize u with_query (as_usize u header.body_length)
    (rest, r2) ← read_exact (total - header_size) r1
    ok (hdr_buf ++ rest, r2)

-- `w.write_all(bytes)`: the writer after.
abbrev pub WriteAll : Type 0 → Type 0
WriteAll W = W → Bytes → Outcome RepeError W

-- The contract of `std::io::Write::write_all`, for a writer on which `taken` says what it has taken: a
-- write that returns `Ok` has taken the whole buffer, in order, behind what was taken before. What a
-- write that fails has taken is left open.
pub record IsWriter {W : Type 0} (write_all : WriteAll W) (taken : W → Bytes) : Type 0 where
  pub takes_all : (w w' : W) (b : Bytes) → write_all w b ≡ ok w' → taken w' ≡ taken w ++ b

-- `a + b` on `u64`, under overflow checks.
abbrev add_u64 : ℕ → ℕ → Outcome RepeError ℕ
add_u64 a b = if ltb (a + b) (2 ^ 64) then ok (a + b) else panic

module _ {W : Type 0} (write_all : WriteAll W) where
  abbrev pub write_part : W → Bytes → Outcome RepeError W
  write_part w part = if not (is_empty part) then write_all w part else ok w

  -- `write_message`, and `Message::write_to`, which is the same three writes.
  unfoldable pub write_message : W → Message → Outcome RepeError W
  write_message w msg = do
    w1 ← write_all w (encode msg.header)
    w2 ← write_part w1 msg.query
    write_part w2 msg.body

  unfoldable pub write_message_streaming :
      W → Header → Bytes → ℕ → (W → Outcome RepeError W) → Outcome RepeError W
  write_message_streaming w header query body_len body_writer = do
    with_query ← add_u64 header_size (length query)
    total ← add_u64 with_query body_len
    let framed = record header {
      query_length = length query;
      body_length = body_len;
      length = total;
    }
    w1 ← write_all w (encode framed)
    w2 ← write_part w1 query
    body_writer w2

  -- `write_message_typed_slice` and `write_message_complex_slice`, on structio's size and encoding of
  -- the slice.
  unfoldable pub write_message_typed_slice :
      {S : Type 0}
      → (S → ℕ)
      → (S → W → Outcome RepeError W)
      → W
      → Header
      → Bytes
      → S
      → Outcome RepeError W
  unfolding write_message_streaming
  write_message_typed_slice beve_size to_beve_writer w header query slice =
      write_message_streaming w (record header { body_format = body_format_to_u16 BodyFormat.beve })
        query (beve_size slice) (to_beve_writer slice)
