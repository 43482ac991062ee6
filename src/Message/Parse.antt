-- ===== src/Message/Parse.antt =====
-- The parse of a buffer: the owned and the borrowed one, trailing bytes, truncation, and panics.
use native.Mathlib.Nat.{mod-eq_of_lt}
use repe_rs.Prelude.{
  map_ok, ℕ, ◌+◌, ◌-◌, ◌≤◌, ◌<◌, ◌≡◌, ◌≢◌, ◌⊎◌, Bytes, Outcome, ok, err, panic, refl, ltb, le→leb,
  if◌then◌else◌, length, take, drop, slice-ok, length-take, length-drop, arith, Bool-cases, inl,
  inr,
}
use repe_rs.Error.{RepeError}
use repe_rs.Header.{Header, decode}
use repe_rs.Header.RoundTrip.{IsFramed}
use repe_rs.Header.Decode.{decode-IsFramed, decode-ne-panic}
use repe_rs.Message.{
  Message, MessageView, new_message, from_slice, view_from_slice, to_message, as_usize,
}

-- The size of the frame that a header announces.
abbrev pub frame_len : Header → ℕ
frame_len h = 48 + h.query_length + h.body_length

-- The message that a framed header cuts out of a buffer.
abbrev pub cut : Header → Bytes → Message
cut h buf = record {
  header = h;
  query = take h.query_length (drop 48 buf);
  body = take h.body_length (drop (48 + h.query_length) buf);
}

abbrev cut_view : Header → Bytes → MessageView
cut_view h buf = record {
  header = h;
  query = take h.query_length (drop 48 buf);
  body = take h.body_length (drop (48 + h.query_length) buf);
}

pub new_message-ok :
    (h : Header) (q b : Bytes)
    → h.query_length ≡ length q
    → h.body_length ≡ length b
    → new_message h q b ≡ ok (record { header = h; query = q; body = b })
unfolding new_message
new_message-ok h q b p r = ground arith

-- A cast of a length that the address space holds changes nothing.
pub as_usize-eq : (u n : ℕ) → n ≤ u → as_usize u n ≡ n
as_usize-eq u n h = mod-eq_of_lt (omega arith)

sub_left : (a b : ℕ) → (a + b) - a ≡ b
sub_left a b = omega arith

-- With the casts and the sums exact, the rest of `from_slice` is one test and two cuts.
module _ (u : ℕ) (buf : Bytes) (h : Header) (le : 48 ≤ length buf) (f : IsFramed u h) where
  length-cut_query :
      frame_len h ≤ length buf → h.query_length ≡ length (take h.query_length (drop 48 buf))
  length-cut_query fit = omega (arith, length-take h.query_length (drop 48 buf), length-drop 48 buf)

  length-cut_body :
      frame_len h ≤ length buf
      → h.body_length ≡ length (take h.body_length (drop (48 + h.query_length) buf))
  length-cut_body fit = omega (
    arith,
    length-take h.body_length (drop (48 + h.query_length) buf),
    length-drop (48 + h.query_length) buf,
  )

  view_from_slice_framed :
      decode u (take 48 buf) ≡ ok h
      → view_from_slice u buf ≡ (
          if ltb (length buf) (frame_len h)
          then err (RepeError.buffer_too_small (frame_len h) (length buf))
          else ok (cut_view h buf))
  unfolding view_from_slice
  view_from_slice_framed d = elim (Bool-cases (ltb (length buf) (frame_len h))) [
    | inl short ↦
        rw
          (
            slice-ok 0 48 buf (omega arith) le,
            d,
            as_usize-eq u h.query_length (omega (arith, f.addressable)),
            as_usize-eq u h.body_length (omega (arith, f.addressable)),
          )
          (ground (arith, f.addressable))
    | inr fits ↦
        rw
          (
            slice-ok 0 48 buf (omega arith) le,
            d,
            as_usize-eq u h.query_length (omega (arith, f.addressable)),
            as_usize-eq u h.body_length (omega (arith, f.addressable)),
            le→leb (48 + h.query_length) u (omega (arith, f.addressable)),
            le→leb (48 + h.query_length + h.body_length) u f.addressable,
            fits,
            slice-ok 48 (48 + h.query_length) buf (omega arith) (ground arith),
            slice-ok (48 + h.query_length) (48 + h.query_length + h.body_length) buf (omega arith)
                (ground arith),
            sub_left 48 h.query_length,
            sub_left (48 + h.query_length) h.body_length,
          )
          (ground arith)
  ]

  pub from_slice_framed :
      decode u (take 48 buf) ≡ ok h
      → from_slice u buf ≡ (
          if ltb (length buf) (frame_len h)
          then err (RepeError.buffer_too_small (frame_len h) (length buf))
          else ok (cut h buf))
  unfolding from_slice
  from_slice_framed d = elim (Bool-cases (ltb (length buf) (frame_len h))) [
    | inl short ↦
        rw
          (
            slice-ok 0 48 buf (omega arith) le,
            d,
            as_usize-eq u h.query_length (omega (arith, f.addressable)),
            as_usize-eq u h.body_length (omega (arith, f.addressable)),
          )
          (ground (arith, f.addressable))
    | inr fits ↦
        rw
          (
            slice-ok 0 48 buf (omega arith) le,
            d,
            as_usize-eq u h.query_length (omega (arith, f.addressable)),
            as_usize-eq u h.body_length (omega (arith, f.addressable)),
            le→leb (48 + h.query_length) u (omega (arith, f.addressable)),
            le→leb (48 + h.query_length + h.body_length) u f.addressable,
            fits,
            slice-ok 48 (48 + h.query_length) buf (omega arith) (ground arith),
            slice-ok (48 + h.query_length) (48 + h.query_length + h.body_length) buf (omega arith)
                (ground arith),
            sub_left 48 h.query_length,
            sub_left (48 + h.query_length) h.body_length,
            new_message-ok h _ _ (length-cut_query (ground arith)) (length-cut_body (ground arith)),
          )
          (ground arith)
  ]

-- The first 48 bytes decide whether the rest is read: a parse that fails before the cut fails alike.
view_from_slice_undecoded :
    (u : ℕ) (buf : Bytes) (e : RepeError)
    → 48 ≤ length buf
    → decode u (take 48 buf) ≡ err e
    → (view_from_slice u buf ≡ err e) × (from_slice u buf ≡ err e)
unfolding view_from_slice from_slice
view_from_slice_undecoded u buf e le d = (
  rw (slice-ok 0 48 buf (omega arith) le, d) (ground arith),
  rw (slice-ok 0 48 buf (omega arith) le, d) (ground arith),
)

view_from_slice_short :
    (u : ℕ) (buf : Bytes)
    → length buf < 48
    → (view_from_slice u buf ≡ err (RepeError.invalid_header_length (length buf)))
      × (from_slice u buf ≡ err (RepeError.invalid_header_length (length buf)))
unfolding view_from_slice from_slice
view_from_slice_short u buf h = (ground arith, ground arith)

-- What a parse can come to: an error that both parses give, or the cut that both make.
pub data Parsed (u : ℕ) (buf : Bytes) : Type 0 where
  failed : (e : RepeError) → view_from_slice u buf ≡ err e → from_slice u buf ≡ err e → Parsed u buf
  parsed :
      (h : Header)
      → 48 ≤ length buf
      → decode u (take 48 buf) ≡ ok h
      → frame_len h ≤ length buf
      → view_from_slice u buf ≡ ok (cut_view h buf)
      → from_slice u buf ≡ ok (cut h buf)
      → Parsed u buf

Parsed-fields :
    (u : ℕ) (buf : Bytes) (h : Header)
    → 48 ≤ length buf
    → decode u (take 48 buf) ≡ ok h
    → Parsed u buf
Parsed-fields u buf h le d =
    let f : IsFramed u h = decode-IsFramed u (take 48 buf) h d in
    let v = view_from_slice_framed u buf h le f d in
    let m = from_slice_framed u buf h le f d in
    elim (Bool-cases (ltb (length buf) (frame_len h))) [
      | inl short ↦ failed _ (rw short at v) (rw short at m)
      | inr fits ↦ parsed h le d (ground arith) (rw fits at v) (rw fits at m)
    ]

decode-cases :
    (u : ℕ) (input : Bytes)
    → ((h : Header) × (decode u input ≡ ok h)) ⊎ ((e : RepeError) × (decode u input ≡ err e))
decode-cases u input = go (decode u input) refl
  where
    go :
        (r : Outcome RepeError Header)
        → decode u input ≡ r
        → ((h : Header) × (decode u input ≡ ok h)) ⊎ ((e : RepeError) × (decode u input ≡ err e))
    go (ok h) p = inl (h, p)
    go (err e) p = inr (e, p)
    go panic p = absurd (decode-ne-panic u input p)

pub parse-cases : (u : ℕ) (buf : Bytes) → Parsed u buf
parse-cases u buf = elim (Bool-cases (ltb (length buf) 48)) [
  | inl short ↦ let (v, m) = view_from_slice_short u buf (ground arith) in failed _ v m
  | inr long ↦ elim (decode-cases u (take 48 buf)) [
    | inl (h, d) ↦ Parsed-fields u buf h (ground arith) d
    | inr (e, d) ↦ let (v, m) = view_from_slice_undecoded u buf e (ground arith) d in failed e v m
  ]
]

-- The copying parse is the borrowing parse followed by the copy, with the same errors.
pub from_slice-view :
    (u : ℕ) (buf : Bytes) → from_slice u buf ≡ map_ok to_message (view_from_slice u buf)
unfolding to_message
from_slice-view u buf = go (parse-cases u buf)
  where
    go : Parsed u buf → from_slice u buf ≡ map_ok to_message (view_from_slice u buf)
    go (failed e v m) = rw (v, m)
    go (parsed h le d fit v m) = rw (v, m)

-- Neither parse panics, whatever the buffer: no slice is out of range and no sum overflows.
from_slice-ne-panic :
    (u : ℕ) (buf : Bytes) → (from_slice u buf ≢ panic) × (view_from_slice u buf ≢ panic)
from_slice-ne-panic u buf = go (parse-cases u buf)
  where
    go : Parsed u buf → (from_slice u buf ≢ panic) × (view_from_slice u buf ≢ panic)
    go (failed e v m) = (λ p. cc, λ p. cc)
    go (parsed h le d fit v m) = (λ p. cc, λ p. cc)
