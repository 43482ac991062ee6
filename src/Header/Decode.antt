-- ===== src/Header/Decode.antt =====
-- `decode` on any input: what it accepts, and which error it gives otherwise.
use repe_rs.Prelude.{
  ℕ, ◌+◌, ◌≤◌, ◌<◌, ◌^◌, ◌≡◌, ◌≢◌, ◌↔◌, ◌⊎◌, ◌++◌, Bytes, IsByte, All, ok, err, panic, sym, length,
  take, drop, arith, length-append, take-append-drop, ap, ◌∙◌, Bool-cases, ltb, inl, inr, subst,
}
use repe_rs.Constants.{repe_spec}
use repe_rs.Error.{RepeError}
use repe_rs.Header.{Header, IsHeader, encode, decode, check_fields}
use repe_rs.Header.Fields.{fields_of, read_fields-ok, fields_of-encode, length-encode}
use repe_rs.Header.RoundTrip.{
  IsFramed, check_fields-framed, check_fields-eq-ok, fields_of-IsHeader, encode-fields_of,
}

-- With 48 bytes there, decoding is the check of the fields.
decode_long :
    (u : ℕ) (input : Bytes) → 48 ≤ length input → decode u input ≡ check_fields u (fields_of input)
unfolding decode
decode_long u input h = rw (read_fields-ok input h) (ground arith)

decode_short :
    (u : ℕ) (input : Bytes)
    → length input < 48
    → decode u input ≡ err (RepeError.invalid_header_length (length input))
unfolding decode
decode_short u input h = ground arith

check_fields-ne-panic : (u : ℕ) (h : Header) → check_fields u h ≢ panic
unfolding check_fields
check_fields-ne-panic u h e = ground arith

check_fields_overflow :
    (u : ℕ) (h : Header)
    → h.spec ≡ repe_spec
    → (2 ^ 64 ≤ 48 + h.query_length + h.body_length) ⊎ (u < 48 + h.query_length + h.body_length)
    → check_fields u h ≡ err (RepeError.frame_length_overflow h.query_length h.body_length)
unfolding check_fields
check_fields_overflow u h s big = ground arith

check_fields_mismatch :
    (u : ℕ) (h : Header)
    → h.spec ≡ repe_spec
    → 48 + h.query_length + h.body_length < 2 ^ 64
    → 48 + h.query_length + h.body_length ≤ u
    → h.length ≢ 48 + h.query_length + h.body_length
    → check_fields u h
      ≡ err (RepeError.length_mismatch (48 + h.query_length + h.body_length) h.length)
unfolding check_fields
check_fields_mismatch u h s small fits differ = ground arith

-- Decoding never panics, whatever the input and whatever the address space.
pub decode-ne-panic : (u : ℕ) (input : Bytes) → decode u input ≢ panic
decode-ne-panic u input e = elim (Bool-cases (ltb (length input) 48)) [
  | inl short ↦ cc (e, decode_short u input (ground arith))
  | inr long ↦
      check_fields-ne-panic u (fields_of input) (sym (decode_long u input (ground arith)) ∙ e)
]

-- A framed header comes back from its encoding, whatever follows it.
pub decode-encode :
    (u : ℕ) (h : Header) (rest : Bytes)
    → IsHeader h
    → IsFramed u h
    → decode u (encode h ++ rest) ≡ ok h
decode-encode u h rest w f =
    decode_long u (encode h ++ rest) (omega (arith, length-append (encode h) rest, length-encode h))
    ∙ ap (check_fields u) (fields_of-encode h rest w)
    ∙ check_fields-framed u h f

-- What is accepted has 48 bytes, decodes to a framed header in range, and is that header's encoding.
pub decode_sound :
    (u : ℕ) (input : Bytes) (h : Header)
    → All IsByte input
    → decode u input ≡ ok h
    → (48 ≤ length input) × IsHeader h × IsFramed u h × (encode h ≡ take 48 input)
decode_sound u input h b e = elim (Bool-cases (ltb (length input) 48)) [
  | inl short ↦ cc (e, decode_short u input (ground arith))
  | inr long ↦
      let le : 48 ≤ length input = ground arith in
      let (same, framed) =
        check_fields-eq-ok u (fields_of input) h (sym (decode_long u input le) ∙ e) in
      (
        le,
        rw (← same) (fields_of-IsHeader input b le),
        framed_at same framed,
        rw (← same) (encode-fields_of input b le),
      )
]
  where
    framed_at : {g : Header} → g ≡ h → IsFramed u g → IsFramed u h
    framed_at p f = subst (IsFramed u) p f

-- `decode` accepts exactly the encodings of framed headers, with anything behind them.
pub decode_iff :
    (u : ℕ) (input : Bytes) (h : Header)
    → All IsByte input
    → (decode u input ≡ ok h)
      ↔ ((48 ≤ length input) × IsHeader h × IsFramed u h × (encode h ≡ take 48 input))
decode_iff u input h b = (
  decode_sound u input h b,
  λ (le, w, f, e).
      ap (decode u) (sym (ap (λ (t : Bytes). t ++ drop 48 input) e ∙ take-append-drop 48 input))
      ∙ decode-encode u h (drop 48 input) w f,
)

-- Lengths whose framed total passes 64 bits, or the address space, are refused as such: the sum does
-- not wrap to a small total that a forged `length` could agree with.
decode_overflow :
    (u : ℕ) (input : Bytes)
    → 48 ≤ length input
    → (fields_of input).spec ≡ repe_spec
    → (2 ^ 64 ≤ 48 + (fields_of input).query_length + (fields_of input).body_length)
      ⊎ (u < 48 + (fields_of input).query_length + (fields_of input).body_length)
    → decode u input
      ≡ err (
          RepeError.frame_length_overflow
            (fields_of input).query_length
            (fields_of input).body_length)
decode_overflow u input h s big =
    decode_long u input h ∙ check_fields_overflow u (fields_of input) s big

-- A `length` other than the framed total is a length mismatch that names both.
decode_mismatch :
    (u : ℕ) (input : Bytes)
    → 48 ≤ length input
    → (fields_of input).spec ≡ repe_spec
    → 48 + (fields_of input).query_length + (fields_of input).body_length < 2 ^ 64
    → 48 + (fields_of input).query_length + (fields_of input).body_length ≤ u
    → (fields_of input).length ≢ 48 + (fields_of input).query_length + (fields_of input).body_length
    → decode u input
      ≡ err (
          RepeError.length_mismatch
            (48 + (fields_of input).query_length + (fields_of input).body_length)
            (fields_of input).length)
decode_mismatch u input h s small fits differ =
    decode_long u input h ∙ check_fields_mismatch u (fields_of input) s small fits differ

-- What decodes is framed.
pub decode-IsFramed : (u : ℕ) (input : Bytes) (h : Header) → decode u input ≡ ok h → IsFramed u h
decode-IsFramed u input h e = elim (Bool-cases (ltb (length input) 48)) [
  | inl short ↦ absurd (cc (e, decode_short u input (ground arith)))
  | inr long ↦
      let (same, framed) =
        check_fields-eq-ok u (fields_of input) h (sym (decode_long u input (ground arith)) ∙ e) in
      subst (IsFramed u) same framed
]
