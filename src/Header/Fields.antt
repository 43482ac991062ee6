-- ===== src/Header/Fields.antt =====
-- Where `encode` puts each field, and what `read_fields` finds.
use repe_rs.Prelude.{
  ◌≤◌, ◌≡◌, refl, Bytes, ◌++◌, ◌∷◌, ok, length, take, drop, to_le_bytes, from_le_bytes, arith,
  from_le_bytes-to_le_bytes, get_or, slice-ok, index-ok, length-append, ap, ◌∙◌,
}
use repe_rs.Header.{Header, IsHeader, encode, read_fields}

-- The fields stand one after the other, each little-endian.
encode_layout :
    (h : Header)
    → encode h
      ≡ to_le_bytes 8 h.length
        ++ (to_le_bytes 2 h.spec
            ++ (h.version
                ∷ (h.notify
                    ∷ (to_le_bytes 4 h.reserved
                        ++ (to_le_bytes 8 h.id
                            ++ (to_le_bytes 8 h.query_length
                                ++ (to_le_bytes 8 h.body_length
                                    ++ (to_le_bytes 2 h.query_format
                                        ++ (to_le_bytes 2 h.body_format
                                            ++ to_le_bytes 4 h.ec)))))))))
unfolding encode
encode_layout h = refl

pub length-encode : (h : Header) → length (encode h) ≡ 48
unfolding encode
length-encode h = refl

-- The fields of an input that is long enough, with no check.
abbrev pub fields_of : Bytes → Header
fields_of input = record {
  length = from_le_bytes (take 8 (drop 0 input));
  spec = from_le_bytes (take 2 (drop 8 input));
  version = get_or input 10 0;
  notify = get_or input 11 0;
  reserved = from_le_bytes (take 4 (drop 12 input));
  id = from_le_bytes (take 8 (drop 16 input));
  query_length = from_le_bytes (take 8 (drop 24 input));
  body_length = from_le_bytes (take 8 (drop 32 input));
  query_format = from_le_bytes (take 2 (drop 40 input));
  body_format = from_le_bytes (take 2 (drop 42 input));
  ec = from_le_bytes (take 4 (drop 44 input));
}

-- No slice and no index of the parse is out of range in 48 bytes.
pub read_fields-ok : (input : Bytes) → 48 ≤ length input → read_fields input ≡ ok (fields_of input)
unfolding read_fields
read_fields-ok input h = rw (
  slice-ok 0 8 input (omega arith) (omega arith),
  slice-ok 8 10 input (omega arith) (omega arith),
  index-ok input 10 0 (omega arith),
  index-ok input 11 0 (omega arith),
  slice-ok 12 16 input (omega arith) (omega arith),
  slice-ok 16 24 input (omega arith) (omega arith),
  slice-ok 24 32 input (omega arith) (omega arith),
  slice-ok 32 40 input (omega arith) (omega arith),
  slice-ok 40 42 input (omega arith) (omega arith),
  slice-ok 42 44 input (omega arith) (omega arith),
  slice-ok 44 48 input (omega arith) (omega arith),
)

pub fields_of-encode : (h : Header) (rest : Bytes) → IsHeader h → fields_of (encode h ++ rest) ≡ h
unfolding encode
fields_of-encode h rest w = λ i. record {
  length = from_le_bytes-to_le_bytes 8 h.length w.length i;
  spec = from_le_bytes-to_le_bytes 2 h.spec w.spec i;
  version = h.version;
  notify = h.notify;
  reserved = from_le_bytes-to_le_bytes 4 h.reserved w.reserved i;
  id = from_le_bytes-to_le_bytes 8 h.id w.id i;
  query_length = from_le_bytes-to_le_bytes 8 h.query_length w.query_length i;
  body_length = from_le_bytes-to_le_bytes 8 h.body_length w.body_length i;
  query_format = from_le_bytes-to_le_bytes 2 h.query_format w.query_format i;
  body_format = from_le_bytes-to_le_bytes 2 h.body_format w.body_format i;
  ec = from_le_bytes-to_le_bytes 4 h.ec w.ec i;
}

read_fields-encode :
    (h : Header) (rest : Bytes) → IsHeader h → read_fields (encode h ++ rest) ≡ ok h
read_fields-encode h rest w =
    read_fields-ok (encode h ++ rest)
      (omega (arith, length-append (encode h) rest, length-encode h))
    ∙ ap ok (fields_of-encode h rest w)
