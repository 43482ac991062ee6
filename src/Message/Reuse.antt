-- ===== src/Message/Reuse.antt =====
-- `into_wire_bytes`: shifting the body to the back of its own buffer.
use mathlib.Core.List.{append-nil}
use repe_rs.Prelude.{
  ℕ, suc, ◌+◌, ◌-◌, ◌≡◌, Bytes, ◌++◌, [], ◌∷◌, refl, sym, ap, ◌∙◌, not, ltb, leb, if◌then◌else◌,
  length, take, drop, replicate, is_empty, length-take, length-append, length-replicate, arith,
  Bool-cases, inl, inr, take-append_left, drop-drop, drop_all, take_all, take_exact, drop_exact,
  lt→ltb,
}
use repe_rs.Header.{encode, copy_at}
use repe_rs.Header.Fields.{length-encode}
use repe_rs.Message.{Message, to_vec, into_wire_bytes}
use repe_rs.Message.Wire.{to_vec-eq}

length-resized : (p : ℕ) (b : Bytes) → length (b ++ replicate p 0) ≡ length b + p
length-resized p b = omega (arith, length-append b (replicate p 0), length-replicate {A = ℕ} p 0)

-- `copy_within(0..len, p)` on the resized buffer: its front, and then the body.
shift_body :
    (p : ℕ) (b : Bytes)
    → copy_at p (take (length b) (b ++ replicate p 0)) (b ++ replicate p 0)
      ≡ take p (b ++ replicate p 0) ++ b
shift_body p b = rw (
  take-append_left b (replicate p 0),
  drop_all (p + length b) (b ++ replicate p 0) (omega (arith, length-resized p b)),
  append-nil,
)

-- With an empty body nothing is shifted, which comes to the same.
shifted-eq :
    (p : ℕ) (b : Bytes)
    → (if ltb 0 (length b)
        then copy_at p (take (length b) (b ++ replicate p 0)) (b ++ replicate p 0)
        else b ++ replicate p 0)
      ≡ take p (b ++ replicate p 0) ++ b
shifted-eq p [] =
    sym (append-nil _ ∙ take_all p (replicate p 0) (omega (arith, length-resized p [])))
shifted-eq p (c ∷ b) = rw (lt→ltb 0 (suc (length b)) (omega arith)) (shift_body p (c ∷ b))

-- The header over the front, and the query behind it.
fill_front :
    (head q y b : Bytes)
    → length head ≡ 48
    → length y ≡ 48 + length q
    → (if not (is_empty q) then copy_at 48 q (copy_at 0 head (y ++ b)) else copy_at 0 head (y ++ b))
      ≡ head ++ (q ++ b)
fill_front head [] y b hl yl =
    ap (λ (t : Bytes). head ++ t) (drop_exact (0 + length head) y b (omega (arith, hl, yl)))
fill_front head (c ∷ q) y b hl yl = rw (
  take_exact 48 head (drop (0 + length head) (y ++ b)) hl,
  ← drop-drop 48 (length (c ∷ q)) (head ++ drop (0 + length head) (y ++ b)),
  drop_exact 48 head (drop (0 + length head) (y ++ b)) hl,
  drop-drop (0 + length head) (length (c ∷ q)) (y ++ b),
  drop_exact (0 + length head + length (c ∷ q)) y b (omega (arith, hl, yl)),
)

-- A test of the length decides as a test for emptiness does.
append_nonempty :
    (out b : Bytes)
    → (if ltb 0 (length b) then out ++ b else out) ≡ (if not (is_empty b) then out ++ b else out)
append_nonempty out [] = refl
append_nonempty out (c ∷ b) = rw (lt→ltb 0 (suc (length b)) (omega arith))

resize_by : (p n : ℕ) → (p + n) - n ≡ p
resize_by p n = omega arith

-- Reusing the body's allocation writes the same bytes, whatever its capacity.
pub into_wire_bytes-to_vec : (capacity : ℕ) (m : Message) → into_wire_bytes capacity m ≡ to_vec m
unfolding into_wire_bytes to_vec
into_wire_bytes-to_vec capacity m =
    elim (Bool-cases (leb (48 + length m.query + length m.body) capacity)) [
      | inl room ↦
          rw
            (
              room,
              resize_by (48 + length m.query) (length m.body),
              shifted-eq (48 + length m.query) m.body,
            )
            (fill_front (encode m.header) m.query
                (take (48 + length m.query) (m.body ++ replicate (48 + length m.query) 0)) m.body
                (length-encode m.header)
                (omega (
                  arith,
                  length-take (48 + length m.query) (m.body ++ replicate (48 + length m.query) 0),
                  length-resized (48 + length m.query) m.body,
                ))
              ∙ sym (to_vec-eq m))
      | inr none ↦ rw none (append_nonempty _ m.body)
    ]
