-- ===== src/Rest/Path/Escapes.antt =====
-- Percent-escapes, against a reference definition of what a segment spells.
use mathlib.Core.List.{append-nil, append_assoc}
use repe_rs.Prelude.{
  ℕ, ◌+◌, ◌-◌, ◌*◌, ◌<◌, ◌≡◌, ◌↔◌, leb, ◌&&◌, refl, sym, ap, ◌∙◌, subst, Bytes, true, false, [],
  ◌∷◌, ◌++◌, some, ok, err, ◌>>=◌, >>=-eq-ok, ◌==◌, if◌then◌else◌, Bool-cases, Option-cases, inl,
  inr, is_utf8, arith, ascii,
}
use repe_rs.JsonPointer.{contains}
use repe_rs.Rest.Path.{
  hex_nibble, both_nibbles, push_escape, decode_loop, from_utf8, percent_decode,
}

-- The hexadecimal digits, in either case, and what each stands for.
pub data HexDigit : ℕ → ℕ → Type 0 where
  decimal : {d : ℕ} → d < 10 → HexDigit (b'0' + d) d
  lower : {d : ℕ} → d < 6 → HexDigit (b'a' + d) (10 + d)
  upper : {d : ℕ} → d < 6 → HexDigit (b'A' + d) (10 + d)

HexDigit-hex_nibble : {c v : ℕ} → HexDigit c v → hex_nibble c ≡ some v
unfolding hex_nibble
HexDigit-hex_nibble (decimal s) = ground (arith, s)
HexDigit-hex_nibble (lower s) = ground (arith, s)
HexDigit-hex_nibble (upper s) = ground (arith, s)

HexDigit_renamed : {c c' v v' : ℕ} → c ≡ c' → v ≡ v' → HexDigit c v → HexDigit c' v'
HexDigit_renamed {c} {c'} {v} p q t = subst (HexDigit c') q (subst (λ x. HexDigit x v) p t)

hex_nibble-HexDigit : (c v : ℕ) → hex_nibble c ≡ some v → HexDigit c v
unfolding hex_nibble
hex_nibble-HexDigit c v e = elim (Bool-cases (leb b'0' c && leb c b'9')) [
  | inl p ↦
      let e' : c - b'0' ≡ v = cc (rw p at e) in
      HexDigit_renamed (ground (arith, p)) e' (decimal {d = c - b'0'} (ground (arith, p)))
  | inr p ↦ elim (Bool-cases (leb b'a' c && leb c b'f')) [
    | inl q ↦
        let e' : c - b'a' + 10 ≡ v = cc (rw (p, q) at e) in
        HexDigit_renamed (ground (arith, q)) (omega (arith, e'))
          (lower {d = c - b'a'} (ground (arith, q)))
    | inr q ↦ elim (Bool-cases (leb b'A' c && leb c b'F')) [
      | inl r ↦
          let e' : c - b'A' + 10 ≡ v = cc (rw (p, q, r) at e) in
          HexDigit_renamed (ground (arith, r)) (omega (arith, e'))
            (upper {d = c - b'A'} (ground (arith, r)))
      | inr r ↦ cc (rw (p, q, r) at e)
    ]
  ]
]

-- Two digits write a byte, the higher one first.
pub data Writes (h l : ℕ) : ℕ → Type 0 where
  pair : {hi lo : ℕ} → HexDigit h hi → HexDigit l lo → Writes h l (16 * hi + lo)

Writes-both_nibbles :
    {h l byte : ℕ} → Writes h l byte → both_nibbles (hex_nibble h) (hex_nibble l) ≡ some byte
Writes-both_nibbles (pair {hi = hi} {lo = lo} p q) =
    rw (HexDigit-hex_nibble p, HexDigit-hex_nibble q) (ap some (omega arith))

both_nibbles-Writes :
    (h l byte : ℕ) → both_nibbles (hex_nibble h) (hex_nibble l) ≡ some byte → Writes h l byte
both_nibbles-Writes h l byte e = elim (Option-cases (hex_nibble h)) [
  | inl p ↦ cc (rw p at e)
  | inr (hi, p) ↦ elim (Option-cases (hex_nibble l)) [
    | inl q ↦ cc (rw (p, q) at e)
    | inr (lo, q) ↦
        let e' : hi * 16 + lo ≡ byte = cc (rw (p, q) at e) in
        let same : 16 * hi + lo ≡ byte = omega (arith, e') in
        subst (Writes h l) same (pair (hex_nibble-HexDigit h hi p) (hex_nibble-HexDigit l lo q))
  ]
]

-- A segment spells a text byte by byte: a byte other than `%` stands for itself, and `%` with two
-- hexadecimal digits for the byte that they write.
pub data Spells : Bytes → Bytes → Type 0 where
  ends : Spells [] []
  literal : {c : ℕ} {s d : Bytes} → (c == b'%') ≡ false → Spells s d → Spells (c ∷ s) (c ∷ d)
  escape :
      {h l byte : ℕ} {s d : Bytes}
      → Writes h l byte
      → Spells s d
      → Spells (b'%' ∷ h ∷ l ∷ s) (byte ∷ d)

append_cons : (out d : Bytes) (c : ℕ) → (out ++ (c ∷ [])) ++ d ≡ out ++ (c ∷ d)
append_cons out d c = append_assoc out (c ∷ []) d

decode_loop_literal :
    (out : Bytes) (c : ℕ) (s : Bytes)
    → (c == b'%') ≡ false
    → decode_loop out (c ∷ s) ≡ decode_loop (out ++ (c ∷ [])) s
unfolding decode_loop
decode_loop_literal out c [] p = rw p refl
decode_loop_literal out c (x ∷ []) p = rw p refl
decode_loop_literal out c (x ∷ y ∷ s) p = rw p refl

Spells-decode_loop : {s d : Bytes} → Spells s d → (out : Bytes) → decode_loop out s ≡ ok (out ++ d)
unfolding decode_loop
Spells-decode_loop ends out = ap ok (sym (append-nil out))
Spells-decode_loop (literal {c = c} {s = s} {d = d} p t) out =
    decode_loop_literal out c s p
    ∙ Spells-decode_loop t (out ++ (c ∷ []))
    ∙ ap ok (append_cons out d c)
Spells-decode_loop (escape {h = h} {l = l} {byte = byte} {s = s} {d = d} p t) out =
    ap (λ o. push_escape o (λ b. decode_loop (out ++ (b ∷ [])) s)) (Writes-both_nibbles p)
    ∙ Spells-decode_loop t (out ++ (byte ∷ []))
    ∙ ap ok (append_cons out d byte)

-- What the loop returns is spelled by what it read.
pub record Decoded (out s r : Bytes) : Type 0 where
  pub text : Bytes
  pub spelled : Spells s text
  pub appended : r ≡ out ++ text

decode_loop-Decoded : (out s r : Bytes) → decode_loop out s ≡ ok r → Decoded out s r
unfolding decode_loop
decode_loop-Decoded out [] r e = record {
  text = [];
  spelled = ends;
  appended = sym (cc e) ∙ sym (append-nil out);
}
decode_loop-Decoded out (c ∷ []) r e = elim (Bool-cases (c == b'%')) [
  | inl p ↦ cc (rw p at e)
  | inr p ↦
      let f = rw p at e in record { text = c ∷ []; spelled = literal p ends; appended = sym (cc f) }
]
decode_loop-Decoded out (c ∷ d ∷ []) r e = elim (Bool-cases (c == b'%')) [
  | inl p ↦ cc (rw p at e)
  | inr p ↦
      let t = decode_loop-Decoded (out ++ (c ∷ [])) (d ∷ []) r (rw p at e) in
      record {
        text = c ∷ t.text;
        spelled = literal p t.spelled;
        appended = t.appended ∙ append_cons out t.text c;
      }
]
decode_loop-Decoded out (c ∷ d ∷ x ∷ s) r e = elim (Bool-cases (c == b'%')) [
  | inr p ↦
      let t = decode_loop-Decoded (out ++ (c ∷ [])) (d ∷ x ∷ s) r (rw p at e) in
      record {
        text = c ∷ t.text;
        spelled = literal p t.spelled;
        appended = t.appended ∙ append_cons out t.text c;
      }
  | inl p ↦ elim (Option-cases (both_nibbles (hex_nibble d) (hex_nibble x))) [
    | inl bad ↦
        let f = rw p at e in
        let g = sym (ap (λ o. push_escape o (λ b. decode_loop (out ++ (b ∷ [])) s)) bad) ∙ f in cc g
    | inr (byte, good) ↦
        let f = rw p at e in
        let g = sym (ap (λ o. push_escape o (λ b. decode_loop (out ++ (b ∷ [])) s)) good) ∙ f in
        let t = decode_loop-Decoded (out ++ (byte ∷ [])) s r g in
        let percent : c ≡ b'%' = ground (arith, p) in
        record {
          text = byte ∷ t.text;
          spelled =
              subst (λ k. Spells (k ∷ d ∷ x ∷ s) (byte ∷ t.text)) (sym percent)
                (escape (both_nibbles-Writes d x byte good) t.spelled);
          appended = t.appended ∙ append_cons out t.text byte;
        }
  ]
]

-- A segment without `%` spells itself, and nothing else.
Spells_plain : (s : Bytes) → contains b'%' s ≡ false → Spells s s
unfolding contains
Spells_plain [] e = ends
Spells_plain (c ∷ s) e = elim (Bool-cases (c == b'%')) [
  | inl p ↦ cc (rw p at e)
  | inr p ↦ literal p (Spells_plain s (rw p at e))
]

Spells_unique : {s d : Bytes} → Spells s d → contains b'%' s ≡ false → s ≡ d
unfolding contains
Spells_unique ends e = refl
Spells_unique (literal {c = c} p t) e = ap (λ l. c ∷ l) (Spells_unique t (rw p at e))
Spells_unique (escape p t) e = cc e

-- Decoding a segment returns a text if and only if the segment spells it and it is UTF-8; a segment
-- that spells nothing, or no UTF-8, is an error. The segment is text itself.
pub percent_decode_iff :
    (s d : Bytes) → is_utf8 s ≡ true → (percent_decode s ≡ ok d) ↔ (Spells s d × (is_utf8 d ≡ true))
unfolding percent_decode
percent_decode_iff s d text = elim (Bool-cases (contains b'%' s)) [
  | inr plain ↦ rw plain (
    λ e.
        let same : s ≡ d = cc e in
        subst (λ x. Spells s x × (is_utf8 x ≡ true)) same (Spells_plain s plain, text),
    λ (t, u). ap ok (Spells_unique t plain),
  )
  | inl escapes ↦ rw escapes (
    λ e.
        let (out, looped, decoded) = >>=-eq-ok (decode_loop [] s) from_utf8 e in
        let t = decode_loop-Decoded [] s out looped in
        let (valid, same) = from_utf8-eq-ok out d decoded in
        let text_is : t.text ≡ d = sym t.appended ∙ same in
        (subst (λ x. Spells s x) text_is t.spelled, ap is_utf8 (sym same) ∙ valid),
    λ (t, u).
        ap (λ o. o >>= from_utf8) (Spells-decode_loop t [])
        ∙ ap (λ b. if b then ok d else err (ascii "percent-escape decoded to invalid UTF-8")) u,
  )
]
  where
    from_utf8-eq-ok : (out d : Bytes) → from_utf8 out ≡ ok d → (is_utf8 out ≡ true) × (out ≡ d)
    from_utf8-eq-ok out d e = elim (Bool-cases (is_utf8 out)) [
      | inl u ↦ let f = rw u at e in (u, cc f)
      | inr u ↦ cc (rw u at e)
    ]
