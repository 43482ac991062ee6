-- ===== src/Io/Frames.antt =====
-- Frames read from a stream that delivers its bytes in pieces of any size.
use repe_rs.Prelude.{
  ℕ, ◌+◌, ◌-◌, ◌≡◌, Bytes, [], ◌++◌, ok, refl, sym, ap, ◌∙◌, length, take, drop, le→leb,
  length-append, take_exact, drop_exact, arith,
}
use mathlib.Core.List.{append_assoc, append-nil}
use repe_rs.Header.{encode, decode}
use repe_rs.Header.Fields.{length-encode}
use repe_rs.Header.Decode.{decode-encode}
use repe_rs.Message.{Message, IsWellFormed, to_vec, as_usize}
use repe_rs.Message.Parse.{as_usize-eq, new_message-ok}
use repe_rs.Message.Wire.{to_vec-eq}
use repe_rs.Io.{Read, IsReader, IsReliable, read_exact, read_message, read_message_into}
use repe_rs.Io.Reading.{read_exact_enough, read_part_enough}

module _ {R : Type 0} (read : Read R) (pending : R → Bytes) (law : IsReader read pending)
    (rel : IsReliable read) (u : ℕ) where
  -- The header of a frame, read off the stream.
  read_header :
      (m : Message) (rest : Bytes) (r : R)
      → pending r ≡ to_vec m ++ rest
      → (r' : R) × (read_exact read 48 r ≡ ok (encode m.header, r'))
        × (pending r' ≡ m.query ++ (m.body ++ rest))
  read_header m rest r p =
      let all : pending r ≡ encode m.header ++ (m.query ++ (m.body ++ rest)) =
        p ∙ rw to_vec-eq (simp append_assoc) in
      let (r', e, q) = read_exact_enough read pending law rel 48 r (
        omega (
          arith,
          ap length all,
          length-append (encode m.header) (m.query ++ (m.body ++ rest)),
          length-encode m.header,
        )) in
      (
        r',
        e
            ∙ ap (λ (t : Bytes). ok (t, r'))
                (ap (take 48) all ∙ take_exact 48 _ _ (length-encode m.header)),
        q ∙ ap (drop 48) all ∙ drop_exact 48 _ _ (length-encode m.header),
      )

  decode_header : (m : Message) → IsWellFormed u m → decode u (encode m.header) ≡ ok m.header
  decode_header m w =
      ap (decode u) (sym (append-nil (encode m.header)))
      ∙ decode-encode u m.header [] w.header w.framed

  cast_query : (m : Message) → IsWellFormed u m → as_usize u m.header.query_length ≡ length m.query
  cast_query m w =
      as_usize-eq u m.header.query_length (omega (arith, w.framed.addressable)) ∙ w.query

  cast_body : (m : Message) → IsWellFormed u m → as_usize u m.header.body_length ≡ length m.body
  cast_body m w = as_usize-eq u m.header.body_length (omega (arith, w.framed.addressable)) ∙ w.body

  -- One frame at the front of the stream is read whole, and the stream is left at what follows it.
  pub read_message-to_vec :
      (m : Message) (rest : Bytes) (r : R)
      → IsWellFormed u m
      → pending r ≡ to_vec m ++ rest
      → (r' : R) × (read_message read u r ≡ ok (m, r')) × (pending r' ≡ rest)
  unfolding read_message
  read_message-to_vec m rest r w p =
      let (r1, e1, p1) = read_header m rest r p in
      let (r2, e2, p2) = read_part_enough read pending law rel m.query (m.body ++ rest) r1 p1 in
      let (r3, e3, p3) = read_part_enough read pending law rel m.body rest r2 p2 in
      (
        r3,
        rw (
          e1,
          decode_header m w,
          cast_query m w,
          cast_body m w,
          e2,
          e3,
          new_message-ok m.header m.query m.body w.query w.body,
        ),
        p3,
      )

  assemble :
      (m : Message) (r r1 r2 : R)
      → IsWellFormed u m
      → read_exact read 48 r ≡ ok (encode m.header, r1)
      → read_exact read (length (m.query ++ m.body)) r1 ≡ ok (m.query ++ m.body, r2)
      → read_message_into read u r ≡ ok (to_vec m, r2)
  unfolding read_message_into
  assemble m r r1 r2 w e1 got =
      let n : 48 + length m.query + length m.body - 48 ≡ length (m.query ++ m.body) =
        omega (arith, length-append m.query m.body) in
      rw
        (
          e1,
          decode_header m w,
          cast_query m w,
          cast_body m w,
          le→leb (48 + length m.query) u (omega (arith, w.query, w.framed.addressable)),
          le→leb (48 + length m.query + length m.body) u
              (omega (arith, w.query, w.body, w.framed.addressable)),
          n,
          got,
        )
        (ap (λ (t : Bytes). ok (t, r2)) (sym (to_vec-eq m)))

  -- The buffer that `read_message_into` leaves is the frame, and the stream stands behind it.
  read_message_into-to_vec :
      (m : Message) (rest : Bytes) (r : R)
      → IsWellFormed u m
      → pending r ≡ to_vec m ++ rest
      → (r' : R) × (read_message_into read u r ≡ ok (to_vec m, r')) × (pending r' ≡ rest)
  read_message_into-to_vec m rest r w p =
      let (r1, e1, p1) = read_header m rest r p in
      let split : pending r1 ≡ (m.query ++ m.body) ++ rest =
        p1 ∙ sym (append_assoc m.query m.body rest) in
      let (r2, e2, p2) =
        read_exact_enough read pending law rel (length (m.query ++ m.body)) r1
          (omega (arith, ap length split, length-append (m.query ++ m.body) rest)) in
      let got : read_exact read (length (m.query ++ m.body)) r1 ≡ ok (m.query ++ m.body, r2) =
        e2
        ∙ ap (λ (t : Bytes). ok (t, r2))
            (ap (take (length (m.query ++ m.body))) split
              ∙ take_exact (length (m.query ++ m.body)) (m.query ++ m.body) rest refl) in
      (
        r2,
        assemble m r r1 r2 w e1 got,
        p2
            ∙ ap (drop (length (m.query ++ m.body))) split
            ∙ drop_exact _ (m.query ++ m.body) rest refl,
      )
