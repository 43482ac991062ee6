-- ===== src/Rest/Path.antt =====
-- src/rest.rs: the paths of requests: percent-escapes, and the pointer that a path names.
pub mod Escapes
pub mod Segments
use repe_rs.Prelude.{
  ℕ, ◌+◌, ◌-◌, ◌*◌, Bytes, Bool, true, false, ◌&&◌, ◌||◌, not, List, [], ◌∷◌, ◌++◌, Option, none,
  some, Outcome, ok, err, panic, ◌>>=◌, leb, ◌==◌, if◌then◌else◌, is_utf8, ascii, is_empty,
}
use repe_rs.JsonPointer.{addresses_root, starts_with, contains, split, escape_token, tail_of}

unfoldable pub hex_nibble : ℕ → Option ℕ
hex_nibble byte =
    if leb b'0' byte && leb byte b'9'
    then some (byte - b'0')
    else if leb b'a' byte && leb byte b'f'
    then some (byte - b'a' + 10)
    else if leb b'A' byte && leb byte b'F'
    then some (byte - b'A' + 10)
    else none

-- `(hi << 4) | lo` of two nibbles, which share no bit.
abbrev pub both_nibbles : Option ℕ → Option ℕ → Option ℕ
both_nibbles (some hi) (some lo) = some (hi * 16 + lo)
both_nibbles (some hi) none = none
both_nibbles none lo = none

-- What follows an escape.
abbrev pub push_escape : Option ℕ → (ℕ → Outcome Bytes Bytes) → Outcome Bytes Bytes
push_escape none next = err (ascii "invalid percent-escape in request path")
push_escape (some byte) next = next byte

-- The loop of `percent_decode`: `out`, and the bytes that are left.
unfoldable pub decode_loop : Bytes → Bytes → Outcome Bytes Bytes
unfolding hex_nibble
decode_loop out [] = ok out
decode_loop out (c ∷ []) =
    if c == b'%'
    then err (ascii "truncated percent-escape in request path")
    else ok (out ++ (c ∷ []))
decode_loop out (c ∷ d ∷ []) =
    let plain = decode_loop (out ++ (c ∷ [])) (d ∷ []) in
    if c == b'%' then err (ascii "truncated percent-escape in request path") else plain
decode_loop out (c ∷ d ∷ e ∷ rest) =
    let plain = decode_loop (out ++ (c ∷ [])) (d ∷ e ∷ rest) in
    let escaped =
      push_escape (both_nibbles (hex_nibble d) (hex_nibble e))
        (λ byte. decode_loop (out ++ (byte ∷ [])) rest) in
    if c == b'%' then escaped else plain

-- `String::from_utf8`
abbrev pub from_utf8 : Bytes → Outcome Bytes Bytes
unfolding is_utf8
from_utf8 out =
    if is_utf8 out then ok out else err (ascii "percent-escape decoded to invalid UTF-8")

unfoldable pub percent_decode : Bytes → Outcome Bytes Bytes
unfolding contains decode_loop is_utf8
percent_decode segment =
    if not (contains b'%' segment)
    then ok segment
    else decode_loop [] segment >>= λ out. from_utf8 out

-- `path.strip_suffix('/').unwrap_or(path)`
unfoldable pub strip_slash : Bytes → Bytes
strip_slash [] = []
strip_slash (c ∷ []) = if c == b'/' then [] else c ∷ []
strip_slash (c ∷ d ∷ rest) = c ∷ strip_slash (d ∷ rest)

-- `skip(1)`
abbrev pub skip_one : List Bytes → List Bytes
skip_one [] = []
skip_one (piece ∷ pieces) = pieces

-- The loop over the segments.
unfoldable pub push_segments : Bytes → List Bytes → Outcome Bytes Bytes
unfolding percent_decode escape_token
push_segments pointer [] = ok pointer
push_segments pointer (segment ∷ segments) = percent_decode segment >>= λ token.
    push_segments ((pointer ++ (b'/' ∷ [])) ++ escape_token token) segments

unfoldable pub path_to_pointer : Bytes → Outcome Bytes Bytes
unfolding addresses_root strip_slash starts_with split push_segments
path_to_pointer path =
    let stripped = strip_slash path in
    if addresses_root path
    then ok []
    else if is_empty stripped
    then ok []
    else if not (starts_with b'/' stripped)
    then err (ascii "request path must be absolute")
    else push_segments [] (skip_one (split b'/' stripped))
