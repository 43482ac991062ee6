-- ===== src/Header/RoundTrip.antt =====
-- Decoding after encoding, and encoding after decoding.
use repe_rs.Prelude.{
  ℕ, ◌+◌, ◌≤◌, ◌<◌, ◌^◌, ◌≡◌, ◌++◌, ◌∷◌, [], Bytes, IsByte, All, ok, refl, sym, length, take, drop,
  get_or, to_le_bytes, from_le_bytes, arith, from_le_bytes-lt, to_le_bytes-from_le_bytes,
  length-take, length-drop, drop-drop, take-add, All-take, All-drop, ap, ◌∙◌, suc, zero,
}
use repe_rs.Constants.{repe_spec}
use repe_rs.Header.{Header, IsHeader, encode, check_fields}
use repe_rs.Header.Fields.{fields_of}

-- A header that frames a message: the magic, and the total of a frame that is representable.
pub record IsFramed (usize_max : ℕ) (h : Header) : Type 0 where
  pub spec : h.spec ≡ repe_spec
  pub length : h.length ≡ 48 + h.query_length + h.body_length
  pub fits : 48 + h.query_length + h.body_length < 2 ^ 64
  pub addressable : 48 + h.query_length + h.body_length ≤ usize_max

pub check_fields-framed : (u : ℕ) (h : Header) → IsFramed u h → check_fields u h ≡ ok h
unfolding check_fields
check_fields-framed u h f = ground (arith, f.spec, f.length, f.fits, f.addressable)

pub check_fields-eq-ok :
    (u : ℕ) (h h' : Header) → check_fields u h ≡ ok h' → (h ≡ h') × IsFramed u h
unfolding check_fields
check_fields-eq-ok u h h' e = (
  ground arith,
  record {
    spec = ground arith;
    length = ground arith;
    fits = ground arith;
    addressable = ground arith;
  },
)

piece :
    (w o : ℕ) (x : Bytes)
    → All IsByte x
    → w + o ≤ length x
    → to_le_bytes w (from_le_bytes (take w (drop o x))) ≡ take w (drop o x)
piece w o x b h =
    let e : length (take w (drop o x)) ≡ w =
      omega (arith, length-take w (drop o x), length-drop o x) in
    ap (λ k. to_le_bytes k (from_le_bytes (take w (drop o x)))) (sym e)
    ∙ to_le_bytes-from_le_bytes (take w (drop o x)) (All-take IsByte w _ (All-drop IsByte o x b))

join :
    (w o k : ℕ) (x : Bytes) → take w (drop o x) ++ take k (drop (o + w) x) ≡ take (w + k) (drop o x)
join w o k x = rw (← drop-drop o w x) (take-add w k (drop o x))

cons_chunk :
    (i k : ℕ) (x : Bytes)
    → i < length x
    → get_or x i 0 ∷ take k (drop (suc i) x) ≡ take (suc k) (drop i x)
cons_chunk i k [] h = absurd (omega arith)
cons_chunk zero k (b ∷ x) h = refl
cons_chunk (suc i) k (b ∷ x) h = cons_chunk i k x (omega arith)

get_or-IsByte : (x : Bytes) (i : ℕ) → All IsByte x → get_or x i 0 < 256
get_or-IsByte [] i b = omega arith
get_or-IsByte (c ∷ x) zero b = b.0
get_or-IsByte (c ∷ x) (suc i) b = get_or-IsByte x i b.1

word_range :
    (w o : ℕ) (x : Bytes)
    → All IsByte x
    → w + o ≤ length x
    → from_le_bytes (take w (drop o x)) < 256 ^ w
word_range w o x b h =
    let e : length (take w (drop o x)) ≡ w =
      omega (arith, length-take w (drop o x), length-drop o x) in
    rw e at (from_le_bytes-lt (take w (drop o x)) (All-take IsByte w _ (All-drop IsByte o x b)))

pub fields_of-IsHeader : (x : Bytes) → All IsByte x → 48 ≤ length x → IsHeader (fields_of x)
fields_of-IsHeader x b h = record {
  length = word_range 8 0 x b (omega arith);
  spec = word_range 2 8 x b (omega arith);
  version = get_or-IsByte x 10 b;
  notify = get_or-IsByte x 11 b;
  reserved = word_range 4 12 x b (omega arith);
  id = word_range 8 16 x b (omega arith);
  query_length = word_range 8 24 x b (omega arith);
  body_length = word_range 8 32 x b (omega arith);
  query_format = word_range 2 40 x b (omega arith);
  body_format = word_range 2 42 x b (omega arith);
  ec = word_range 4 44 x b (omega arith);
}

pieces_join :
    (x : Bytes)
    → 48 ≤ length x
    → take 8 (drop 0 x)
        ++ (take 2 (drop 8 x)
            ++ (get_or x 10 0
                ∷ (get_or x 11 0
                    ∷ (take 4 (drop 12 x)
                        ++ (take 8 (drop 16 x)
                            ++ (take 8 (drop 24 x)
                                ++ (take 8 (drop 32 x)
                                    ++ (take 2 (drop 40 x)
                                        ++ (take 2 (drop 42 x) ++ take 4 (drop 44 x))))))))))
      ≡ take 48 x
pieces_join x h = rw (
  join 2 42 4 x,
  join 2 40 6 x,
  join 8 32 8 x,
  join 8 24 16 x,
  join 8 16 24 x,
  join 4 12 32 x,
  cons_chunk 11 36 x (omega arith),
  cons_chunk 10 37 x (omega arith),
  join 2 8 38 x,
  join 8 0 40 x,
)

-- The fields of a byte string encode to its first 48 bytes.
pub encode-fields_of : (x : Bytes) → All IsByte x → 48 ≤ length x → encode (fields_of x) ≡ take 48 x
unfolding encode
encode-fields_of x b h =
    (λ i.
      piece 8 0 x b (omega arith) i
      ++ (piece 2 8 x b (omega arith) i
          ++ (get_or x 10 0
              ∷ (get_or x 11 0
                  ∷ (piece 4 12 x b (omega arith) i
                      ++ (piece 8 16 x b (omega arith) i
                          ++ (piece 8 24 x b (omega arith) i
                              ++ (piece 8 32 x b (omega arith) i
                                  ++ (piece 2 40 x b (omega arith) i
                                      ++ (piece 2 42 x b (omega arith) i
                                          ++ piece 4 44 x b (omega arith) i))))))))))
    ∙ pieces_join x h
