-- ===== src/Message/Wire.antt =====
-- The wire form of a message: its layout, the reuse of the body buffer, and the parse of it.
use mathlib.Core.List.{append-nil, append_assoc}
use native.Mathlib.Nat.{add_assoc}
use repe_rs.Prelude.{
  ℕ, ◌+◌, ◌≤◌, ◌<◌, ◌≡◌, ◌↔◌, Bytes, IsByte, All, ◌++◌, [], ◌∷◌, Outcome, ok, err, panic, ◌>>=◌,
  ◌>>◌, refl, sym, ap, ◌∙◌, subst, lt→ltb, length, take, drop, length-take, length-drop,
  length-append, arith, take-append_left, drop-append_left, drop-drop, take-add, take_all, All-take,
  take-take,
}
use repe_rs.Error.{RepeError}
use repe_rs.Header.{Header, encode, decode}
use repe_rs.Header.Fields.{length-encode}
use repe_rs.Header.Decode.{decode-encode, decode_sound}
use repe_rs.Message.{
  Message, IsWellFormed, reject_trailing, to_vec, serialized_len, from_slice, from_slice_exact,
}
use repe_rs.Message.Parse.{frame_len, cut, from_slice_framed, Parsed, failed, parsed, parse-cases}

-- The empty parts that the code skips would add nothing.
pub to_vec-eq : (m : Message) → to_vec m ≡ encode m.header ++ (m.query ++ m.body)
unfolding to_vec
to_vec-eq m = go m.query m.body
  where
    go : (q b : Bytes) → to_vec (record m { query = q; body = b }) ≡ encode m.header ++ (q ++ b)
    go [] [] = sym (append-nil _)
    go [] (c ∷ b) = refl
    go (c ∷ q) [] = rw append-nil
    go (c ∷ q) (d ∷ b) = rw append_assoc

length-to_vec : (m : Message) → length (to_vec m) ≡ serialized_len m
unfolding serialized_len
length-to_vec m = rw to_vec-eq (
    omega (
      arith,
      length-append (encode m.header) (m.query ++ m.body),
      length-append m.query m.body,
      length-encode m.header,
    ))

take-encode : (h : Header) (xs : Bytes) → take 48 (encode h ++ xs) ≡ encode h
take-encode h xs =
    subst (λ n. take n (encode h ++ xs) ≡ encode h) (length-encode h)
      (take-append_left (encode h) xs)

drop-encode : (h : Header) (xs : Bytes) → drop 48 (encode h ++ xs) ≡ xs
drop-encode h xs =
    subst (λ n. drop n (encode h ++ xs) ≡ xs) (length-encode h) (drop-append_left (encode h) xs)

-- A frame and what follows it.
module _ (m : Message) (rest : Bytes) where
  frame_split : to_vec m ++ rest ≡ encode m.header ++ (m.query ++ (m.body ++ rest))
  frame_split = rw to_vec-eq (simp append_assoc)

  cut_frame :
      m.header.query_length ≡ length m.query
      → m.header.body_length ≡ length m.body
      → cut m.header (to_vec m ++ rest) ≡ m
  cut_frame p q = rw (
    frame_split,
    p,
    q,
    ← drop-drop 48 (length m.query),
    drop-encode,
    take-append_left,
    drop-append_left,
    take-append_left,
  )

  length-frame : length (to_vec m ++ rest) ≡ 48 + length m.query + length m.body + length rest
  unfolding serialized_len
  length-frame = omega (arith, length-append (to_vec m) rest, length-to_vec m)

  decode_frame : (u : ℕ) → IsWellFormed u m → decode u (take 48 (to_vec m ++ rest)) ≡ ok m.header
  decode_frame u w =
      ap (λ x. decode u (take 48 x)) frame_split
      ∙ ap (decode u) (take-encode m.header _ ∙ sym (append-nil (encode m.header)))
      ∙ decode-encode u m.header [] w.header w.framed

  -- A well-formed message comes back from its wire form, whatever follows it in the buffer.
  pub from_slice-to_vec : (u : ℕ) → IsWellFormed u m → from_slice u (to_vec m ++ rest) ≡ ok m
  from_slice-to_vec u w =
      from_slice_framed u (to_vec m ++ rest) m.header (omega (arith, length-frame)) w.framed
        (decode_frame u w)
      ∙ rw (cut_frame w.query w.body) (ground (arith, length-frame, w.query, w.body))

-- A buffer that parses holds a well-formed message, and begins with that message's wire form.
from_slice_sound :
    (u : ℕ) (buf : Bytes) (m : Message)
    → All IsByte buf
    → from_slice u buf ≡ ok m
    → IsWellFormed u m × (serialized_len m ≤ length buf) × (to_vec m ≡ take (serialized_len m) buf)
unfolding serialized_len
from_slice_sound u buf m b e = go (parse-cases u buf)
  where
    cut_len :
        (h : Header)
        → frame_len h ≤ length buf
        → (h.query_length ≡ length (cut h buf).query) × (h.body_length ≡ length (cut h buf).body)
    cut_len h fit = (
      omega (arith, length-take h.query_length (drop 48 buf), length-drop 48 buf),
      omega (
        arith,
        length-take h.body_length (drop (48 + h.query_length) buf),
        length-drop (48 + h.query_length) buf,
      ),
    )

    cut_wire :
        (h : Header)
        → encode h ≡ take 48 buf
        → to_vec (cut h buf) ≡ take (48 + h.query_length + h.body_length) buf
    cut_wire h p =
        to_vec-eq (cut h buf) ∙ rw (p, ← drop-drop 48 h.query_length, take-add, take-add, add_assoc)

    same_len :
        (h : Header)
        → h.query_length ≡ length (cut h buf).query
        → h.body_length ≡ length (cut h buf).body
        → 48 + h.query_length + h.body_length
          ≡ 48 + length (cut h buf).query + length (cut h buf).body
    same_len h p q = omega (arith, p, q)

    found :
        (h : Header)
        → 48 ≤ length buf
        → decode u (take 48 buf) ≡ ok h
        → frame_len h ≤ length buf
        → IsWellFormed u (cut h buf)
          × (serialized_len (cut h buf) ≤ length buf)
          × (to_vec (cut h buf) ≡ take (serialized_len (cut h buf)) buf)
    found h le d fit =
        let (p, q) = cut_len h fit in
        let (l, w, f, enc) = decode_sound u (take 48 buf) h (All-take IsByte 48 buf b) d in
        (
          record { header = w; framed = f; query = p; body = q },
          omega (arith, p, q),
          cut_wire h (enc ∙ take_all 48 (take 48 buf) (omega (arith, length-take 48 buf)))
              ∙ ap (λ n. take n buf) (same_len h p q),
        )

    go :
        Parsed u buf
        → IsWellFormed u m
          × (48 + length m.query + length m.body ≤ length buf)
          × (to_vec m ≡ take (48 + length m.query + length m.body) buf)
    go (failed x v r) = absurd (cc (e, r))
    go (parsed h le d fit v r) =
        subst
          (λ n.
            IsWellFormed u n
            × (48 + length n.query + length n.body ≤ length buf)
            × (to_vec n ≡ take (48 + length n.query + length n.body) buf))
          (cc (e, r)) (found h le d fit)

-- The trailing-bytes check, after a parse `r`.
trailing-eq-ok :
    (u : ℕ) (buf : Bytes) (m : Message) (r : Outcome RepeError Message)
    → (do n ← r; reject_trailing u buf n.query n.body; ok n) ≡ ok m
    → (r ≡ ok m) × (length buf ≡ 48 + length m.query + length m.body)
trailing-eq-ok u buf m (ok n) e = (ground arith, ground arith)
trailing-eq-ok u buf m (err x) e = absurd (cc)
trailing-eq-ok u buf m panic e = absurd (cc)

from_slice_exact-eq-ok :
    (u : ℕ) (buf : Bytes) (m : Message)
    → from_slice_exact u buf ≡ ok m
    → (from_slice u buf ≡ ok m) × (length buf ≡ serialized_len m)
unfolding from_slice_exact serialized_len
from_slice_exact-eq-ok u buf m e = trailing-eq-ok u buf m (from_slice u buf) e

pub from_slice_exact-to_vec :
    (u : ℕ) (m : Message) → IsWellFormed u m → from_slice_exact u (to_vec m) ≡ ok m
unfolding from_slice_exact serialized_len
from_slice_exact-to_vec u m w =
    let parse : from_slice u (to_vec m) ≡ ok m = rw append-nil at (from_slice-to_vec m [] u w) in
    rw parse (ground (arith, length-to_vec m, w.query, w.body, w.framed.addressable))

-- The exact parse inverts the wire form: it accepts the well-formed messages' wire forms alone.
pub from_slice_exact_iff :
    (u : ℕ) (buf : Bytes) (m : Message)
    → All IsByte buf
    → (from_slice_exact u buf ≡ ok m) ↔ (IsWellFormed u m × (to_vec m ≡ buf))
from_slice_exact_iff u buf m b = (
  λ e.
      let (p, len) = from_slice_exact-eq-ok u buf m e in
      let (w, le, wire) = from_slice_sound u buf m b p in
      (w, wire ∙ take_all (serialized_len m) buf (omega (arith, len))),
  λ (w, e). ap (from_slice_exact u) (sym e) ∙ from_slice_exact-to_vec u m w,
)

-- A frame that breaks off inside its query or body is refused with the size that it needs.
from_slice_truncated :
    (u : ℕ) (m : Message) (n : ℕ)
    → IsWellFormed u m
    → 48 ≤ n
    → n < serialized_len m
    → from_slice u (take n (to_vec m)) ≡ err (RepeError.buffer_too_small (serialized_len m) n)
unfolding serialized_len
from_slice_truncated u m n w lo hi =
    let cut_short : Bytes = take n (to_vec m) in
    let len : length cut_short ≡ n = omega (arith, length-take n (to_vec m), length-to_vec m) in
    let same : take 48 cut_short ≡ take 48 (to_vec m) = take-take 48 n (to_vec m) lo in
    let d : decode u (take 48 cut_short) ≡ ok m.header =
      ap (decode u) same ∙ rw append-nil at (decode_frame m [] u w) in
    from_slice_framed u cut_short m.header (omega (arith, len)) w.framed d
    ∙ rw (len, w.query, w.body, lt→ltb n _ hi)
