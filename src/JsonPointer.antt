-- ===== src/JsonPointer.antt =====
-- src/json_pointer.rs: RFC 6901 pointers. A `str` is its bytes: the characters that the code looks for
-- are ASCII, and no byte of a longer UTF-8 sequence equals one of those.
pub mod Tokens
pub mod Pieces
pub mod Inverse
pub mod Validation
use repe_rs.Prelude.{
  ℕ, Bytes, Bool, true, false, ◌||◌, ◌&&◌, not, List, [], ◌∷◌, ◌++◌, Outcome, ok, err, ◌>>=◌, ◌==◌,
  if◌then◌else◌, is_empty,
}

pub data MalformedPointer : Type 0 where
  malformed_pointer : MalformedPointer

-- `pointer.is_empty() || pointer == "/"`
unfoldable pub addresses_root : Bytes → Bool
addresses_root [] = true
addresses_root (c ∷ []) = c == b'/'
addresses_root (c ∷ d ∷ rest) = false

unfoldable pub starts_with : ℕ → Bytes → Bool
starts_with c [] = false
starts_with c (d ∷ rest) = d == c

unfoldable pub contains : ℕ → Bytes → Bool
contains c [] = false
contains c (d ∷ rest) = d == c || contains c rest

-- `split(c)`: the pieces between the separators, one more than there are separators.
abbrev pub cons_head : ℕ → List Bytes → List Bytes
cons_head c [] = (c ∷ []) ∷ []
cons_head c (piece ∷ pieces) = (c ∷ piece) ∷ pieces

unfoldable pub split : ℕ → Bytes → List Bytes
split sep [] = [] ∷ []
split sep (c ∷ rest) =
    let pieces = split sep rest in if c == sep then [] ∷ pieces else cons_head c pieces

-- The loop of `unescape_token`: `out`, and the characters that are left.
unfoldable pub unescape_loop : Bytes → Bytes → Outcome MalformedPointer Bytes
unescape_loop out [] = ok out
unescape_loop out (c ∷ []) = if not (c == b'~') then ok (out ++ (c ∷ [])) else err malformed_pointer
unescape_loop out (c ∷ d ∷ rest) =
    let plain = unescape_loop (out ++ (c ∷ [])) (d ∷ rest) in
    let escaped = unescape_loop (out ++ ((if d == b'0' then b'~' else b'/') ∷ [])) rest in
    if not (c == b'~')
    then plain
    else if d == b'0' || d == b'1'
    then escaped
    else err malformed_pointer

unfoldable pub unescape_token : Bytes → Outcome MalformedPointer Bytes
unfolding contains unescape_loop
unescape_token token = if not (contains b'~' token) then ok token else unescape_loop [] token

-- `tokens.map(unescape_token).collect()`: the first error ends it.
unfoldable pub collect : List Bytes → Outcome MalformedPointer (List Bytes)
collect [] = ok []
collect (token ∷ tokens) = do t ← unescape_token token; ts ← collect tokens; ok (t ∷ ts)

-- `&pointer[1..]`, behind a first byte that is known.
abbrev pub tail_of : Bytes → Bytes
tail_of [] = []
tail_of (c ∷ rest) = rest

unfoldable pub parse : Bytes → Outcome MalformedPointer (List Bytes)
unfolding addresses_root starts_with split
parse pointer =
    if addresses_root pointer
    then ok []
    else if not (starts_with b'/' pointer)
    then err malformed_pointer
    else collect (split b'/' (tail_of pointer))

-- `str::replace` of one character by a text.
unfoldable pub replace : ℕ → Bytes → Bytes → Bytes
replace c text [] = []
replace c text (d ∷ rest) = (if d == c then text else d ∷ []) ++ replace c text rest

unfoldable pub escape_token : Bytes → Bytes
unfolding contains replace
escape_token token =
    if not (contains b'~' token) && not (contains b'/' token)
    then token
    else replace b'/' (b'~' ∷ b'1' ∷ []) (replace b'~' (b'~' ∷ b'0' ∷ []) token)

-- The loop of `validate_escapes` over the bytes that are left.
unfoldable pub validate_loop : Bytes → Outcome MalformedPointer (Unit {0})
validate_loop [] = ok tt
validate_loop (b ∷ []) = if b == b'~' then err malformed_pointer else ok tt
validate_loop (b ∷ d ∷ rest) =
    let next = validate_loop (d ∷ rest) in
    let after = validate_loop rest in
    if not (b == b'~')
    then next
    else if d == b'0' || d == b'1'
    then after
    else err malformed_pointer

unfoldable pub validate_escapes : Bytes → Outcome MalformedPointer (Unit {0})
unfolding addresses_root starts_with validate_loop
validate_escapes pointer =
    if addresses_root pointer
    then ok tt
    else if not (starts_with b'/' pointer)
    then err malformed_pointer
    else validate_loop pointer

-- The loop of `canonical`, over the tokens that are left.
unfoldable pub push_tokens : Bytes → List Bytes → Bytes
push_tokens out [] = out
push_tokens out (token ∷ tokens) = push_tokens ((out ++ (b'/' ∷ [])) ++ escape_token token) tokens

unfoldable pub canonical : List Bytes → Bytes
canonical [] = b'/' ∷ []
canonical (token ∷ tokens) = push_tokens [] (token ∷ tokens)
