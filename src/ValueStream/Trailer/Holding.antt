-- ===== src/ValueStream/Trailer/Holding.antt =====
-- The bytes of a stream with a trailer: all but the last ones go on, and the last ones are held.
use mathlib.Core.List.{append-nil, append_assoc}
use repe_rs.Prelude.{
  ℕ, ◌+◌, ◌-◌, min, ◌≤◌, ◌<◌, ◌≡◌, refl, sym, ap, ◌∙◌, subst, Bytes, Bool, true, false, Outcome, ok,
  err, panic, ◌++◌, [], List, ◌∷◌, leb, ltb, if◌then◌else◌, length, take, drop, is_empty,
  length-append, length-drop, take-append-drop, take_exact, drop_exact, Bool-cases, inl, inr, arith,
}
use repe_rs.Error.{IoError}
use repe_rs.ValueStream.Producer.Chunks.{concat}
use repe_rs.ValueStream.Trailer.{
  TrailerHold, new_hold, into_trailer, then_hold, hold_tail, hold_more, write,
}

module _ {W : Type 0} (write_all : Bytes → W → W × Outcome IoError (Unit {0}))
    (log : W → Bytes) where
  -- A writer that takes all that it is given.
  abbrev Accepts : Type 0
  Accepts =
      (bytes : Bytes) (w : W)
      → (w' : W) × (write_all bytes w ≡ (w', ok tt)) × (log w' ≡ log w ++ bytes)

-- Of the bytes so far, the last `n` are held and the others went on.
pub record Holds {W : Type 0} (log : W → Bytes) (n : ℕ) (bytes : Bytes) (t : TrailerHold W)
    : Type 0 where
  pub size : t.trailer_len ≡ n
  pub whole : log t.inner ++ t.hold ≡ bytes
  pub held : length t.hold ≡ min n (length bytes)

module _ {W : Type 0} (write_all : Bytes → W → W × Outcome IoError (Unit {0})) (log : W → Bytes)
    (accepts : Accepts write_all log) (n : ℕ) where
  -- A write that the holder takes.
  pub record Took (bytes buf : Bytes) (out : TrailerHold W × Outcome IoError ℕ) : Type 0 where
    pub after : TrailerHold W
    pub returned : out ≡ (after, ok (length buf))
    pub holds : Holds log n (bytes ++ buf) after

  hold_tail-Took :
      (bytes buf : Bytes) (t : TrailerHold W)
      → t.trailer_len ≡ n
      → n ≤ length buf
      → t.hold ≡ []
      → log t.inner ≡ bytes
      → Took bytes buf (hold_tail write_all buf t)
  unfolding hold_tail then_hold
  hold_tail-Took bytes buf t size long none_held gone =
      let split : ℕ = length buf - t.trailer_len in
      let (w, taken, logged) = accepts (take split buf) t.inner in
      record {
        after = record t { inner = w; hold = t.hold ++ drop split buf };
        returned = rw taken refl;
        holds = record {
          size = size;
          whole =
              ap (λ l. log w ++ (l ++ drop split buf)) none_held
              ∙ ap (λ l. l ++ drop split buf) logged
              ∙ append_assoc (log t.inner) (take split buf) (drop split buf)
              ∙ ap (λ l. log t.inner ++ l) (take-append-drop split buf)
              ∙ ap (λ l. l ++ buf) gone;
          held =
              ap (λ l. length (l ++ drop split buf)) none_held
              ∙ omega (arith, length-drop split buf, size, long, length-append bytes buf);
        };
      }

  hold_more-Took :
      (bytes buf : Bytes) (t : TrailerHold W)
      → Holds log n bytes t
      → length buf < n
      → Took bytes buf (hold_more write_all buf t)
  unfolding hold_more then_hold
  hold_more-Took bytes buf t h short =
      let all : Bytes = t.hold ++ buf in
      let overflow : ℕ = length all - t.trailer_len in
      let len : length all ≡ length t.hold + length buf = length-append t.hold buf in
      let sum : length (bytes ++ buf) ≡ length bytes + length buf = length-append bytes buf in
      let whole : log t.inner ++ all ≡ bytes ++ buf =
        sym (append_assoc (log t.inner) t.hold buf) ∙ ap (λ l. l ++ buf) h.whole in
      let (w, taken, logged) = accepts (take overflow all) t.inner in
      elim (Bool-cases (ltb t.trailer_len (length all))) [
        | inl over ↦ record {
          after = record t { inner = w; hold = drop overflow all };
          returned = rw (over, taken) refl;
          holds = record {
            size = h.size;
            whole =
                ap (λ l. l ++ drop overflow all) logged
                ∙ append_assoc (log t.inner) (take overflow all) (drop overflow all)
                ∙ ap (λ l. log t.inner ++ l) (take-append-drop overflow all)
                ∙ whole;
            held = ground (arith, length-drop overflow all, len, sum, over, h.size, h.held, short);
          };
        }
        | inr fits ↦ record {
          after = record t { hold = all };
          returned = rw fits refl;
          holds = record {
            size = h.size;
            whole = whole;
            held = ground (arith, len, sum, fits, h.size, h.held, short);
          };
        }
      ]

  -- The flush of what is held, and then the tail.
  flushed-Took :
      (bytes buf : Bytes) (t : TrailerHold W)
      → Holds log n bytes t
      → n ≤ length buf
      → Took bytes buf (
          then_hold write_all t
            (write_all t.hold t.inner)
            (λ u. hold_tail write_all buf (record u { hold = [] })))
  unfolding then_hold
  flushed-Took bytes buf t h long =
      let (w, taken, logged) = accepts t.hold t.inner in
      let tail =
        hold_tail-Took bytes buf (record t { inner = w; hold = [] }) h.size long refl
          (logged ∙ h.whole) in
      record {
        after = tail.after;
        returned =
            ap
              (λ o. then_hold write_all t o (λ u. hold_tail write_all buf (record u { hold = [] })))
              taken
            ∙ tail.returned;
        holds = tail.holds;
      }

  empty_hold : (hold : Bytes) → is_empty hold ≡ true → hold ≡ []
  empty_hold [] e = refl
  empty_hold (b ∷ hold) e = cc e

  if-Took :
      {bytes buf : Bytes} (b : Bool) {x y : TrailerHold W × Outcome IoError ℕ}
      → (b ≡ true → Took bytes buf x)
      → (b ≡ false → Took bytes buf y)
      → Took bytes buf (if b then x else y)
  if-Took true p q = p refl
  if-Took false p q = q refl

  write-Took :
      (bytes buf : Bytes) (t : TrailerHold W)
      → Holds log n bytes t
      → Took bytes buf (write write_all buf t)
  unfolding write
  write-Took bytes buf t h =
      if-Took (leb t.trailer_len (length buf))
        (λ long.
          if-Took (is_empty t.hold)
            (λ e.
              hold_tail-Took bytes buf t h.size (ground (arith, long, h.size)) (empty_hold t.hold e)
                (sym (append-nil (log t.inner))
                  ∙ ap (λ l. log t.inner ++ l) (sym (empty_hold t.hold e))
                  ∙ h.whole))
            (λ e. flushed-Took bytes buf t h (ground (arith, long, h.size))))
        (λ short. hold_more-Took bytes buf t h (ground (arith, short, h.size)))

-- A stream's writes into the holder, until one fails.
abbrev and_write :
    {W : Type 0}
    → (TrailerHold W → TrailerHold W × Outcome IoError (Unit {0}))
    → TrailerHold W × Outcome IoError ℕ
    → TrailerHold W × Outcome IoError (Unit {0})
and_write more (t, ok _) = more t
and_write more (t, err e) = (t, err e)
and_write more (t, panic) = (t, panic)

abbrev pub write_each :
    {W : Type 0}
    → (Bytes → W → W × Outcome IoError (Unit {0}))
    → List Bytes
    → TrailerHold W
    → TrailerHold W × Outcome IoError (Unit {0})
write_each write_all [] t = (t, ok tt)
write_each write_all (buf ∷ more) t = and_write (write_each write_all more) (write write_all buf t)

-- What is left after a stream of `bytes` with a trailer of `n` bytes.
pub record Splits {W : Type 0} (log : W → Bytes) (n : ℕ) (bytes : Bytes)
    (out : TrailerHold W × Outcome IoError (Unit {0})) : Type 0 where
  pub after : TrailerHold W
  pub returned : out ≡ (after, ok tt)
  pub long :
      n ≤ length bytes
      → (into_trailer after ≡ ok (drop (length bytes - n) bytes))
        × (log after.inner ≡ take (length bytes - n) bytes)
  pub short :
      length bytes < n → ((e : IoError) × (into_trailer after ≡ err e)) × (log after.inner ≡ [])

module _ {W : Type 0} (write_all : Bytes → W → W × Outcome IoError (Unit {0})) (log : W → Bytes)
    (accepts : Accepts write_all log) (n : ℕ) where
  write_each-Holds :
      (bytes : Bytes) (writes : List Bytes) (t : TrailerHold W)
      → Holds log n bytes t
      → (after : TrailerHold W) × (write_each write_all writes t ≡ (after, ok tt))
        × Holds log n (bytes ++ concat writes) after
  write_each-Holds bytes [] t h = (t, refl, subst (λ b. Holds log n b t) (sym (append-nil bytes)) h)
  write_each-Holds bytes (buf ∷ writes) t h =
      let one = write-Took write_all log accepts n bytes buf t h in
      let (after, returned, holds) = write_each-Holds (bytes ++ buf) writes one.after one.holds in
      (
        after,
        ap (and_write (write_each write_all writes)) one.returned ∙ returned,
        subst (λ b. Holds log n b after) (append_assoc bytes buf (concat writes)) holds,
      )

  Holds-Splits :
      (bytes : Bytes) (t : TrailerHold W)
      → Holds log n bytes t
      → (out : TrailerHold W × Outcome IoError (Unit {0})) → out ≡ (t, ok tt)
      → Splits log n bytes out
  unfolding into_trailer
  Holds-Splits bytes t h out returned =
      let size : length bytes ≡ length (log t.inner) + length t.hold =
        ap length (sym h.whole) ∙ length-append (log t.inner) t.hold in
      record {
        after = t;
        returned = returned;
        long = λ l.
            let split : length (log t.inner) ≡ length bytes - n = omega (arith, size, h.held, l) in
            let enough : ltb (length t.hold) t.trailer_len ≡ false =
              ground (arith, h.size, h.held, l) in
            (
              rw enough (
                  ap ok (
                    sym (
                      ap (drop (length bytes - n)) (sym h.whole)
                      ∙ drop_exact (length bytes - n) (log t.inner) t.hold split))),
              sym (
                  ap (take (length bytes - n)) (sym h.whole)
                  ∙ take_exact (length bytes - n) (log t.inner) t.hold split),
            );
        short = λ l.
            let few : ltb (length t.hold) t.trailer_len ≡ true =
              ground (arith, h.size, h.held, l) in
            (
              if-err (ltb (length t.hold) t.trailer_len) _ t.hold few,
              empty_log (log t.inner) (omega (arith, size, h.held, l)),
            );
      }
    where
      if-err :
          (b : Bool) (e : IoError) (a : Bytes)
          → b ≡ true
          → (x : IoError) × ((if b then err e else ok a) ≡ err x)
      if-err true e a h = (e, refl)
      if-err false e a h = cc h

      empty_log : (bytes : Bytes) → length bytes ≡ 0 → bytes ≡ []
      empty_log [] e = refl
      empty_log (b ∷ bytes) e = absurd (omega (arith, e))

  -- A stream with a trailer of `n` bytes, however it is cut into writes: its last `n` bytes come back
  -- as the trailer and exactly what stands before them goes on to the inner writer. A stream that is
  -- shorter is an error, and nothing of it goes on. The inner writer takes what it is given.
  pub write_each-Splits :
      (inner : W) (writes : List Bytes)
      → log inner ≡ []
      → Splits log n (concat writes) (write_each write_all writes (new_hold inner n))
  unfolding new_hold
  write_each-Splits inner writes clean =
      let fresh : Holds log n [] (new_hold inner n) = record {
        size = refl;
        whole = append-nil (log inner) ∙ clean;
        held = omega arith;
      } in
      let (after, returned, holds) = write_each-Holds [] writes (new_hold inner n) fresh in
      Holds-Splits (concat writes) after holds _ returned
