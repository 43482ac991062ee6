-- ===== src/JsonPointer/Inverse.antt =====
-- `parse` and `canonical` are inverse, but for the two spellings of the root.
use repe_rs.Prelude.{
  ℕ, Bytes, List, [], ◌∷◌, ◌++◌, ok, ◌==◌, if◌then◌else◌, ◌≡◌, ◌≢◌, refl, ap, ◌∙◌, sym, arith, All,
  map, Bool-cases, >>=-eq-ok, inl, inr, is_empty,
}
use repe_rs.JsonPointer.{split, collect, parse, canonical, unescape_token}
use repe_rs.JsonPointer.Tokens.{
  escaped, unescape_token-eq, unescaped-escaped, escaped-unescaped, contains-escaped,
}
use repe_rs.JsonPointer.Pieces.{
  NoSlash, slashed, split-NoSlash, slashed-split, split-slashed, canonical-eq,
}

-- Pieces that unescape are the escapes of their tokens.
collect_split : (ps ts : List Bytes) → All NoSlash ps → collect ps ≡ ok ts → map escaped ts ≡ ps
unfolding collect
collect_split [] ts a e = ground arith
collect_split (p ∷ ps) ts a e =
    let (x, ux, e') = >>=-eq-ok (unescape_token p) _ e in
    let (xs, cx, q) = >>=-eq-ok (collect ps) _ e' in
    let same : x ∷ xs ≡ ts = ground arith in
    rw (← same) (
      ground (
        arith,
        escaped-unescaped p x a.0 (sym (unescape_token-eq p) ∙ ux),
        collect_split ps xs a.1 cx,
      ))

collect-escaped : (ts : List Bytes) → collect (map escaped ts) ≡ ok ts
unfolding collect
collect-escaped [] = refl
collect-escaped (t ∷ ts) =
    rw (unescape_token-eq (escaped t), unescaped-escaped t, collect-escaped ts)

All-escaped : (ts : List Bytes) → All NoSlash (map escaped ts)
All-escaped [] = tt
All-escaped (t ∷ ts) = (contains-escaped t, All-escaped ts)

-- The pieces of a pointer in the form of its tokens.
canonical_pieces :
    (ts : List Bytes) (s : Bytes) → map escaped ts ≡ split b'/' s → canonical ts ≡ b'/' ∷ s
canonical_pieces [] s e = absurd (cc (ap slashed e, slashed-split s))
canonical_pieces (t ∷ ts) s e = canonical-eq t ts ∙ ap slashed e ∙ slashed-split s

-- Rebuilding what was parsed gives the pointer back, byte for byte; the empty pointer, which is the
-- root's other spelling, comes back as `/`.
pub canonical-parse :
    (p : Bytes) (ts : List Bytes)
    → parse p ≡ ok ts
    → canonical ts ≡ (if is_empty p then b'/' ∷ [] else p)
unfolding parse
canonical-parse [] ts e =
    let same : [] ≡ ts = ground arith in rw (← same) (unfold canonical in refl)
canonical-parse (c ∷ []) ts e = elim (Bool-cases (c == b'/')) [
  | inl sep ↦ let same : [] ≡ ts = ground arith in rw (← same) (unfold canonical in ground arith)
  | inr other ↦ absurd (ground arith)
]
canonical-parse (c ∷ d ∷ s) ts e = elim (Bool-cases (c == b'/')) [
  | inl sep ↦
      canonical_pieces ts (d ∷ s)
        (collect_split (split b'/' (d ∷ s)) ts (split-NoSlash (d ∷ s)) (rw sep at e))
      ∙ ground arith
  | inr other ↦ absurd (ground arith)
]

-- Behind its first separator, a pointer with something in it is cut into its pieces.
parse_body : (b : ℕ) (body : Bytes) → parse (b'/' ∷ b ∷ body) ≡ collect (split b'/' (b ∷ body))
unfolding parse
parse_body b body = refl

parse_nonempty : (body : Bytes) → body ≢ [] → parse (b'/' ∷ body) ≡ collect (split b'/' body)
parse_nonempty [] h = absurd (h refl)
parse_nonempty (b ∷ body) h = parse_body b body

body_nonempty :
    (t : Bytes) (ts : List Bytes) → t ∷ ts ≢ [] ∷ [] → escaped t ++ slashed (map escaped ts) ≢ []
body_nonempty [] [] h e = h refl
body_nonempty [] (u ∷ ts) h e = cc
body_nonempty (c ∷ t) ts h e = ground arith

-- Parsing what was built gives the tokens back, except for the one empty token, whose pointer is `/`.
pub parse-canonical : (ts : List Bytes) → ts ≢ [] ∷ [] → parse (canonical ts) ≡ ok ts
parse-canonical [] h = unfold canonical parse in refl
parse-canonical (t ∷ ts) h =
    ap parse (canonical-eq t ts)
    ∙ parse_nonempty (escaped t ++ slashed (map escaped ts)) (body_nonempty t ts h)
    ∙ ap collect (split-slashed (escaped t) (map escaped ts) (contains-escaped t) (All-escaped ts))
    ∙ collect-escaped (t ∷ ts)
