-- ===== src/JsonPointer/Validation.antt =====
-- `validate_escapes` accepts exactly what `parse` accepts.
use repe_rs.Prelude.{
  ℕ, Bytes, true, false, ◌||◌, List, [], ◌∷◌, Outcome, ok, err, panic, map_ok, ◌==◌, if◌then◌else◌,
  ◌≡◌, refl, arith, Bool-cases, inl, inr,
}
use repe_rs.JsonPointer.{
  MalformedPointer, malformed_pointer, split, cons_head, collect, parse, validate_loop,
  validate_escapes,
}
use repe_rs.JsonPointer.Tokens.{unescaped, unescaped_cons, unescape_token-eq}

-- Whether a token, and each of a list of tokens, unescapes.
accepts : Bytes → Outcome MalformedPointer (Unit {0})
accepts t = map_ok (λ _. tt) (unescaped t)

accepts_all : List Bytes → Outcome MalformedPointer (Unit {0})
accepts_all [] = ok tt
accepts_all (t ∷ ts) = elim (accepts t) [ ok _ ↦ accepts_all ts | err e ↦ err e | panic ↦ panic ]

collect-accepts : (ps : List Bytes) → map_ok (λ _. tt) (collect ps) ≡ accepts_all ps
unfolding collect accepts_all accepts
collect-accepts [] = refl
collect-accepts (p ∷ ps) = rw unescape_token-eq (ground (arith, collect-accepts ps))

accepts_cons : (c : ℕ) (t : Bytes) → (c == b'~') ≡ false → accepts (c ∷ t) ≡ accepts t
unfolding accepts
accepts_cons c t p = rw (unescaped_cons c t p) (ground arith)

accepts_nil : accepts [] ≡ ok tt
unfolding accepts unescaped
accepts_nil = refl

accepts_escape :
    (c d : ℕ) (t : Bytes)
    → (c == b'~') ≡ true
    → accepts (c ∷ d ∷ t) ≡ (if d == b'0' || d == b'1' then accepts t else err malformed_pointer)
unfolding accepts unescaped
accepts_escape c d t p = ground arith

accepts_lone : (c : ℕ) → (c == b'~') ≡ true → accepts (c ∷ []) ≡ err malformed_pointer
unfolding accepts unescaped
accepts_lone c p = ground arith

accepts_plain : (c : ℕ) → (c == b'~') ≡ false → accepts (c ∷ []) ≡ ok tt
unfolding accepts unescaped
accepts_plain c p = ground arith

accepts_all-cons_head :
    (c : ℕ) (ps : List Bytes) → (c == b'~') ≡ false → accepts_all (cons_head c ps) ≡ accepts_all ps
unfolding accepts_all
accepts_all-cons_head c [] p = ground (arith, accepts_plain c p)
accepts_all-cons_head c (t ∷ ts) p = ground (arith, accepts_cons c t p)

-- A tilde before an escape digit, at the head of the pieces.
accepts_all_escape :
    (c d : ℕ) (ps : List Bytes)
    → (c == b'~') ≡ true
    → accepts_all (cons_head c (cons_head d ps))
      ≡ (if d == b'0' || d == b'1' then accepts_all ps else err malformed_pointer)
unfolding accepts_all
accepts_all_escape c d [] p = ground (arith, accepts_escape c d [] p, accepts_nil)
accepts_all_escape c d (t ∷ ts) p = ground (arith, accepts_escape c d t p)

accepts_all_lone :
    (c : ℕ) (ps : List Bytes)
    → (c == b'~') ≡ true
    → accepts_all (cons_head c ([] ∷ ps)) ≡ err malformed_pointer
unfolding accepts_all
accepts_all_lone c ps p = ground (arith, accepts_lone c p)

accepts_all_empty : (ps : List Bytes) → accepts_all ([] ∷ ps) ≡ accepts_all ps
unfolding accepts_all
accepts_all_empty ps = ground (arith, accepts_nil)

accepts_all_nil : accepts_all [] ≡ ok tt
unfolding accepts_all
accepts_all_nil = refl

accepts_all_lone_last :
    (c : ℕ) → (c == b'~') ≡ true → accepts_all ((c ∷ []) ∷ []) ≡ err malformed_pointer
unfolding accepts_all
accepts_all_lone_last c p = ground (arith, accepts_lone c p)

-- The separator in front is one more byte to pass.
validate_first : (c : ℕ) (s : Bytes) → (c == b'/') ≡ true → validate_loop (c ∷ s) ≡ validate_loop s
unfolding validate_loop
validate_first c [] p = ground arith
validate_first c (d ∷ s) p = ground arith

-- Reading the bytes in one pass finds what cutting and unescaping finds.
validate_loop-split : (s : Bytes) → validate_loop s ≡ accepts_all (split b'/' s)
unfolding validate_loop split
validate_loop-split [] = unfold accepts_all in ground (arith, accepts_nil)
validate_loop-split (c ∷ []) = elim (Bool-cases (c == b'~')) [
  | inl tilde ↦ ground (arith, accepts_all_lone_last c tilde)
  | inr plain ↦ ground (
    arith,
    accepts_all_empty ([] ∷ []),
    accepts_all_empty [],
    accepts_all-cons_head c [] plain,
    accepts_all_nil,
  )
]
validate_loop-split (c ∷ d ∷ s) = elim (Bool-cases (c == b'~')) [
  | inl tilde ↦ ground (
    arith,
    validate_loop-split s,
    accepts_all_lone c (split b'/' s) tilde,
    accepts_all_escape c d (split b'/' s) tilde,
  )
  | inr plain ↦ ground (
    arith,
    validate_loop-split (d ∷ s),
    accepts_all_empty (split b'/' (d ∷ s)),
    accepts_all-cons_head c (split b'/' (d ∷ s)) plain,
  )
]

-- `validate_escapes` is `parse` with the tokens thrown away: it accepts the same pointers.
pub validate_escapes-parse : (p : Bytes) → validate_escapes p ≡ map_ok (λ _. tt) (parse p)
unfolding validate_escapes parse
validate_escapes-parse [] = refl
validate_escapes-parse (c ∷ []) = ground arith
validate_escapes-parse (c ∷ d ∷ s) = elim (Bool-cases (c == b'/')) [
  | inl sep ↦ ground (
    arith,
    validate_first c (d ∷ s) sep,
    validate_loop-split (d ∷ s),
    collect-accepts (split b'/' (d ∷ s)),
  )
  | inr other ↦ ground arith
]
