-- ===== src/JsonPointer/Tokens.antt =====
-- One token: escaping and unescaping in one pass each, and that they are inverse.
use mathlib.Core.List.{append-nil, append_assoc}
use repe_rs.Prelude.{
  ℕ, Bytes, false, ◌||◌, not, [], ◌∷◌, ◌++◌, Outcome, ok, err, panic, ◌==◌, if◌then◌else◌, ◌≡◌,
  refl, ap, ◌∙◌, sym, arith, Bool-cases, inl, inr, map_ok,
}
use repe_rs.JsonPointer.{
  MalformedPointer, malformed_pointer, contains, unescape_loop, unescape_token, replace,
  escape_token,
}

-- `escape_token` in one pass.
abbrev pub escaped : Bytes → Bytes
escaped [] = []
escaped (c ∷ rest) =
    let rest' = escaped rest in
    if c == b'~' then b'~' ∷ b'0' ∷ rest' else if c == b'/' then b'~' ∷ b'1' ∷ rest' else c ∷ rest'

-- `unescape_token` in one pass, with no accumulator.
unfoldable pub unescaped : Bytes → Outcome MalformedPointer Bytes
unescaped [] = ok []
unescaped (c ∷ []) = if not (c == b'~') then ok (c ∷ []) else err malformed_pointer
unescaped (c ∷ d ∷ rest) =
    let plain = map_ok (λ (t : Bytes). c ∷ t) (unescaped (d ∷ rest)) in
    let decoded = map_ok (λ (t : Bytes). (if d == b'0' then b'~' else b'/') ∷ t) (unescaped rest) in
    if not (c == b'~')
    then plain
    else if d == b'0' || d == b'1'
    then decoded
    else err malformed_pointer

replace_twice :
    (t : Bytes) → replace b'/' (b'~' ∷ b'1' ∷ []) (replace b'~' (b'~' ∷ b'0' ∷ []) t) ≡ escaped t
unfolding replace
replace_twice [] = refl
replace_twice (c ∷ t) = ground (arith, replace_twice t)

escaped_plain : (t : Bytes) → contains b'~' t ≡ false → contains b'/' t ≡ false → escaped t ≡ t
unfolding contains
escaped_plain [] p q = refl
escaped_plain (c ∷ t) p q = ground (arith, escaped_plain t)

pub escape_token-eq : (t : Bytes) → escape_token t ≡ escaped t
unfolding escape_token
escape_token-eq t = ground (arith, replace_twice t, escaped_plain t)

push-map_ok :
    (out : Bytes) (x : ℕ) (r : Outcome MalformedPointer Bytes)
    → map_ok (λ (s : Bytes). (out ++ (x ∷ [])) ++ s) r
      ≡ map_ok (λ (s : Bytes). out ++ s) (map_ok (λ (t : Bytes). x ∷ t) r)
push-map_ok out x (ok t) = ap ok (append_assoc out (x ∷ []) t)
push-map_ok out x (err e) = refl
push-map_ok out x panic = refl

unescape_loop-eq :
    (out t : Bytes) → unescape_loop out t ≡ map_ok (λ (s : Bytes). out ++ s) (unescaped t)
unfolding unescape_loop unescaped
unescape_loop-eq out [] = rw append-nil
unescape_loop-eq out (c ∷ []) = ground arith
unescape_loop-eq out (c ∷ d ∷ rest) = elim (Bool-cases (c == b'~')) [
  | inr plain ↦
      rw plain
        (unescape_loop-eq (out ++ (c ∷ [])) (d ∷ rest) ∙ push-map_ok out c (unescaped (d ∷ rest)))
  | inl tilde ↦ rw tilde (elim (Bool-cases (d == b'0' || d == b'1')) [
    | inl good ↦ rw good (
        unescape_loop-eq (out ++ ((if d == b'0' then b'~' else b'/') ∷ [])) rest
        ∙ push-map_ok out (if d == b'0' then b'~' else b'/') (unescaped rest))
    | inr bad ↦ rw bad
  ])
]

unescaped_plain : (t : Bytes) → contains b'~' t ≡ false → unescaped t ≡ ok t
unfolding contains unescaped
unescaped_plain [] p = refl
unescaped_plain (c ∷ []) p = ground arith
unescaped_plain (c ∷ d ∷ t) p = ground (arith, unescaped_plain (d ∷ t))

map_ok_id : (r : Outcome MalformedPointer Bytes) → map_ok (λ (t : Bytes). t) r ≡ r
map_ok_id (ok t) = refl
map_ok_id (err e) = refl
map_ok_id panic = refl

-- A character that is no tilde stands for itself.
pub unescaped_cons :
    (c : ℕ) (t : Bytes)
    → (c == b'~') ≡ false
    → unescaped (c ∷ t) ≡ map_ok (λ (s : Bytes). c ∷ s) (unescaped t)
unfolding unescaped
unescaped_cons c [] p = rw p
unescaped_cons c (d ∷ t) p = rw p

pub unescape_token-eq : (t : Bytes) → unescape_token t ≡ unescaped t
unfolding unescape_token
unescape_token-eq t = elim (Bool-cases (contains b'~' t)) [
  | inl some ↦ rw some (unescape_loop-eq [] t ∙ map_ok_id (unescaped t))
  | inr none ↦ rw none (sym (unescaped_plain t none))
]

pub unescaped-escaped : (t : Bytes) → unescaped (escaped t) ≡ ok t
unfolding unescaped
unescaped-escaped [] = refl
unescaped-escaped (c ∷ t) = ground (arith, unescaped-escaped t, unescaped_cons c (escaped t))

-- Whatever the token, unescaping its escape gives it back.
unescape_token-escape_token : (t : Bytes) → unescape_token (escape_token t) ≡ ok t
unescape_token-escape_token t =
    ap unescape_token (escape_token-eq t) ∙ unescape_token-eq (escaped t) ∙ unescaped-escaped t

map_ok-eq-ok :
    (x : ℕ) (r : Outcome MalformedPointer Bytes) (s : Bytes)
    → map_ok (λ (t : Bytes). x ∷ t) r ≡ ok s
    → (t : Bytes) × (r ≡ ok t) × (s ≡ x ∷ t)
map_ok-eq-ok x (ok t) s e = (t, refl, ground arith)
map_ok-eq-ok x (err f) s e = absurd (cc)
map_ok-eq-ok x panic s e = absurd (cc)

-- A token without a separator that unescapes is the escape of what it unescapes to.
pub escaped-unescaped : (t s : Bytes) → contains b'/' t ≡ false → unescaped t ≡ ok s → escaped s ≡ t
unfolding contains unescaped
escaped-unescaped [] s p e = ground arith
escaped-unescaped (c ∷ []) s p e = ground arith
escaped-unescaped (c ∷ d ∷ rest) s p e = elim (Bool-cases (c == b'~')) [
  | inr plain ↦
      let (t, r, q) = map_ok-eq-ok c (unescaped (d ∷ rest)) s (rw plain at e) in
      rw q (ground (arith, escaped-unescaped (d ∷ rest) t (ground arith) r))
  | inl tilde ↦ elim (Bool-cases (d == b'0' || d == b'1')) [
    | inl good ↦
        let (t, r, q) =
          map_ok-eq-ok (if d == b'0' then b'~' else b'/') (unescaped rest) s
            (rw (tilde, good) at e) in
        rw q (ground (arith, escaped-unescaped rest t (ground arith) r))
    | inr bad ↦ absurd (ground arith)
  ]
]

-- An escaped token holds no separator.
pub contains-escaped : (t : Bytes) → contains b'/' (escaped t) ≡ false
unfolding contains
contains-escaped [] = refl
contains-escaped (c ∷ t) = ground (arith, contains-escaped t)
