-- ===== src/Header.antt =====
-- src/header.rs: the fixed 48-byte header. A field is a number; its width is in `IsHeader`.
-- `usize_max` is the largest `usize` of the target: `usize::try_from` succeeds up to it.
pub mod Fields
pub mod RoundTrip
pub mod Decode
use repe_rs.Prelude.{
  ℕ, zero, suc, ◌+◌, ◌*◌, ◌-◌, ◌%◌, ◌/◌, ◌^◌, ◌<◌, ◌≤◌, ◌≡◌, Bytes, Option, none, some, ◌++◌, ◌∷◌,
  [], not, Outcome, ok, err, ◌>>=◌, ◌>>◌, return_err_if, ltb, leb, ◌==◌, if◌then◌else◌, length,
  take, drop, replicate, slice, index, to_le_bytes, from_le_bytes,
}
use repe_rs.Constants.{repe_spec, repe_version, header_size}
use repe_rs.Error.{RepeError}

pub record Header : Type 0 where
  pub length : ℕ
  pub spec : ℕ
  pub version : ℕ
  pub notify : ℕ
  pub reserved : ℕ
  pub id : ℕ
  pub query_length : ℕ
  pub body_length : ℕ
  pub query_format : ℕ
  pub body_format : ℕ
  pub ec : ℕ

-- The widths that the Rust types give the fields.
pub record IsHeader (h : Header) : Type 0 where
  pub length : h.length < 256 ^ 8
  pub spec : h.spec < 256 ^ 2
  pub version : h.version < 256
  pub notify : h.notify < 256
  pub reserved : h.reserved < 256 ^ 4
  pub id : h.id < 256 ^ 8
  pub query_length : h.query_length < 256 ^ 8
  pub body_length : h.body_length < 256 ^ 8
  pub query_format : h.query_format < 256 ^ 2
  pub body_format : h.body_format < 256 ^ 2
  pub ec : h.ec < 256 ^ 4

-- `Header::new`
abbrev pub new : Header
new = record {
  length = 0;
  spec = repe_spec;
  version = repe_version;
  notify = 0;
  reserved = 0;
  id = 0;
  query_length = 0;
  body_length = 0;
  query_format = 0;
  body_format = 0;
  ec = 0;
}

-- `buf[o..o + bytes.len()].copy_from_slice(bytes)`
abbrev pub copy_at : ℕ → Bytes → Bytes → Bytes
copy_at o bytes buf = take o buf ++ (bytes ++ drop (o + length bytes) buf)

unfoldable pub encode : Header → Bytes
encode h =
    let b0 = replicate header_size 0 in
    let b1 = copy_at 0 (to_le_bytes 8 h.length) b0 in
    let b2 = copy_at 8 (to_le_bytes 2 h.spec) b1 in
    let b3 = copy_at 10 (h.version ∷ []) b2 in
    let b4 = copy_at 11 (h.notify ∷ []) b3 in
    let b5 = copy_at 12 (to_le_bytes 4 h.reserved) b4 in
    let b6 = copy_at 16 (to_le_bytes 8 h.id) b5 in
    let b7 = copy_at 24 (to_le_bytes 8 h.query_length) b6 in
    let b8 = copy_at 32 (to_le_bytes 8 h.body_length) b7 in
    let b9 = copy_at 40 (to_le_bytes 2 h.query_format) b8 in
    let b10 = copy_at 42 (to_le_bytes 2 h.body_format) b9 in copy_at 44 (to_le_bytes 4 h.ec) b10

-- The parse of the fields, in `decode`. A slice or an index out of range would panic.
unfoldable pub read_fields : Bytes → Outcome RepeError Header
read_fields input = do
  length_bytes ← slice 0 8 input
  spec_bytes ← slice 8 10 input
  version ← index input 10
  notify ← index input 11
  reserved_bytes ← slice 12 16 input
  id_bytes ← slice 16 24 input
  query_length_bytes ← slice 24 32 input
  body_length_bytes ← slice 32 40 input
  query_format_bytes ← slice 40 42 input
  body_format_bytes ← slice 42 44 input
  ec_bytes ← slice 44 48 input
  ok (record {
    length = from_le_bytes length_bytes;
    spec = from_le_bytes spec_bytes;
    version = version;
    notify = notify;
    reserved = from_le_bytes reserved_bytes;
    id = from_le_bytes id_bytes;
    query_length = from_le_bytes query_length_bytes;
    body_length = from_le_bytes body_length_bytes;
    query_format = from_le_bytes query_format_bytes;
    body_format = from_le_bytes body_format_bytes;
    ec = from_le_bytes ec_bytes;
  })

-- `u64::checked_add`
checked_add : ℕ → ℕ → Option ℕ
checked_add a b = if ltb (a + b) (2 ^ 64) then some (a + b) else none

-- `HEADER_SIZE.checked_add(q).and_then(..b).filter(|t| usize::try_from(*t).is_ok())`
unfoldable pub framed_total : ℕ → ℕ → ℕ → Option ℕ
unfolding checked_add
framed_total usize_max q b = elim (checked_add header_size q) [
  | none ↦ none
  | some t ↦ elim (checked_add t b) [
    | none ↦ none
    | some total ↦ if leb total usize_max then some total else none
  ]
]

ok_or {ℓ} : {A : Type ℓ} → Option A → RepeError → Outcome RepeError A
ok_or none e = err e
ok_or (some a) e = ok a

-- The checks of `decode` on the parsed fields.
unfoldable pub check_fields : ℕ → Header → Outcome RepeError Header
unfolding ok_or framed_total
check_fields usize_max h = do
  return_err_if (not (h.spec == repe_spec)) (RepeError.invalid_spec h.spec)
  expected ←
      ok_or (framed_total usize_max h.query_length h.body_length)
        (RepeError.frame_length_overflow h.query_length h.body_length)
  return_err_if (not (h.length == expected)) (RepeError.length_mismatch expected h.length)
  ok h

unfoldable pub decode : ℕ → Bytes → Outcome RepeError Header
decode usize_max input = do
  return_err_if (ltb (length input) header_size) (RepeError.invalid_header_length (length input))
  h ← read_fields input
  check_fields usize_max h
