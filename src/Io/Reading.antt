-- ===== src/Io/Reading.antt =====
-- `read_exact` on a reader that delivers its bytes in pieces of any size.
use repe_rs.Prelude.{
  ℕ, zero, suc, ◌+◌, ◌-◌, ◌≤◌, ◌<◌, ◌≡◌, Bytes, [], ◌∷◌, ◌++◌, Outcome, ok, err, ◌>>=◌, length,
  take, drop, take-append_left, drop-append_left, take-append_over, drop-append_over, length-append,
  refl, sym, ap, ◌∙◌, arith,
}
use repe_rs.Error.{RepeError, IoError}
use repe_rs.Io.{
  Read, IsReader, IsReliable, append_read, after_read, read_loop, read_exact, read_part,
}

module _ {R : Type 0} (read : Read R) (pending : R → Bytes) (law : IsReader read pending) where
  -- The first bytes of what is pending, and a reader on the rest.
  abbrev pub Splits : ℕ → R → Outcome RepeError (Bytes × R) → Type 0
  Splits want r out =
      (r' : R) × (out ≡ ok (take want (pending r), r')) × (pending r' ≡ drop want (pending r))

  append_read-Splits :
      (b : ℕ) (got : Bytes) (want : ℕ) (r r' : R) (out : Outcome RepeError (Bytes × R))
      → pending r ≡ b ∷ (got ++ pending r')
      → suc (length got) ≤ want
      → Splits (want - suc (length got)) r' out
      → Splits want r (append_read (b ∷ got) out)
  append_read-Splits b got want r r' out p le (r'', e, rest) = (
    r'',
    rw (e, p, take-append_over want (b ∷ got) (pending r') le),
    rest ∙ sym (ap (drop want) p ∙ drop-append_over want (b ∷ got) (pending r') le),
  )

  read_loop_round :
      (fuel w : ℕ) (r : R) (out : Outcome RepeError (Bytes × R))
      → read (suc w) r ≡ out
      → read_loop read (suc fuel) (suc w) r
        ≡ (out >>= λ p. after_read (read_loop read fuel) (suc w) p.0 p.1)
  unfolding read_loop
  read_loop_round fuel w r out e = rw e (ground arith)

  after_read_fits :
      (more : ℕ → R → Outcome RepeError (Bytes × R)) (want b : ℕ) (got : Bytes) (r : R)
      → suc (length got) ≤ want
      → after_read more want (b ∷ got) r ≡ append_read (b ∷ got) (more (want - suc (length got)) r)
  after_read_fits more want b got r h = ground arith

  -- While enough is pending, the loop returns exactly `want` bytes of it, whatever the pieces.
  read_loop_enough :
      IsReliable read
      → (fuel want : ℕ) (r : R) → want ≤ fuel
      → want ≤ length (pending r)
      → Splits want r (read_loop read fuel want r)
  unfolding read_loop
  read_loop_enough rel zero zero r f h = (r, refl, refl)
  read_loop_enough rel zero (suc w) r f h = absurd (omega arith)
  read_loop_enough rel (suc fuel) zero r f h = (r, refl, refl)
  read_loop_enough rel (suc fuel) (suc w) r f h =
      round (λ k s. read_loop_enough rel fuel k s) (rel.answers (suc w) r)
    where
      round :
          ((k : ℕ) (s : R)
            → k ≤ fuel
            → k ≤ length (pending s)
            → Splits k s (read_loop read fuel k s))
          → ((got : Bytes) × (r' : R) × (read (suc w) r ≡ ok (got, r')))
          → Splits (suc w) r (read_loop read (suc fuel) (suc w) r)
      round more ([], r', e) =
          let p : pending r ≡ [] = law.at_end (suc w) r r' (omega arith) e in
          absurd (omega (arith, ap length p))
      round more (b ∷ got, r', e) =
          let (p, le) = law.takes (suc w) r (b ∷ got) r' e in
          let len : length (pending r) ≡ suc (length got) + length (pending r') =
            ap length p ∙ omega (arith, length-append got (pending r')) in
          let ih = more (suc w - suc (length got)) r' (omega arith) (omega arith) in
          rw
            (
              read_loop_round fuel w r _ e,
              after_read_fits (read_loop read fuel) (suc w) b got r' le,
            )
            (append_read-Splits b got (suc w) r r' _ p le ih)

  -- With less pending, the loop ends with the error of an unexpected end.
  read_loop_eof :
      IsReliable read
      → (fuel want : ℕ) (r : R) → want ≤ fuel
      → length (pending r) < want
      → read_loop read fuel want r ≡ err (RepeError.io IoError.unexpected_eof)
  unfolding read_loop
  read_loop_eof rel zero want r f h = absurd (omega arith)
  read_loop_eof rel (suc fuel) zero r f h = absurd (omega arith)
  read_loop_eof rel (suc fuel) (suc w) r f h =
      round (λ k s. read_loop_eof rel fuel k s) (rel.answers (suc w) r)
    where
      round :
          ((k : ℕ) (s : R)
            → k ≤ fuel
            → length (pending s) < k
            → read_loop read fuel k s ≡ err (RepeError.io IoError.unexpected_eof))
          → ((got : Bytes) × (r' : R) × (read (suc w) r ≡ ok (got, r')))
          → read_loop read (suc fuel) (suc w) r ≡ err (RepeError.io IoError.unexpected_eof)
      round more ([], r', e) = read_loop_round fuel w r _ e
      round more (b ∷ got, r', e) =
          let (p, le) = law.takes (suc w) r (b ∷ got) r' e in
          let len : length (pending r) ≡ suc (length got) + length (pending r') =
            ap length p ∙ omega (arith, length-append got (pending r')) in
          rw (
            read_loop_round fuel w r _ e,
            after_read_fits (read_loop read fuel) (suc w) b got r' le,
            more (suc w - suc (length got)) r' (omega arith) (omega arith),
          )

  -- `read_exact` returns exactly the bytes asked for while the stream has them, however the
  -- transport cuts the bytes into reads.
  pub read_exact_enough :
      IsReliable read
      → (want : ℕ) (r : R) → want ≤ length (pending r)
      → Splits want r (read_exact read want r)
  unfolding read_exact
  read_exact_enough rel want r h = read_loop_enough rel want want r (omega arith) h

  -- A stream that ends before the bytes asked for is the error of an unexpected end, never a short
  -- result.
  read_exact_eof :
      IsReliable read
      → (want : ℕ) (r : R) → length (pending r) < want
      → read_exact read want r ≡ err (RepeError.io IoError.unexpected_eof)
  unfolding read_exact
  read_exact_eof rel want r h = read_loop_eof rel want want r (omega arith) h

  -- A part of known length, which is not read when it is empty.
  pub read_part_enough :
      IsReliable read
      → (part : Bytes) (rest : Bytes) (r : R) → pending r ≡ part ++ rest
      → (r' : R) × (read_part read (length part) r ≡ ok (part, r')) × (pending r' ≡ rest)
  unfolding read_part
  read_part_enough rel [] rest r p = (r, refl, p)
  read_part_enough rel (b ∷ part) rest r p =
      let (r', e, q) =
        read_exact_enough rel (suc (length part)) r
          (omega (arith, ap length p, length-append part rest)) in
      (
        r',
        ground (arith, e, p, take-append_left (b ∷ part) rest),
        q ∙ ap (drop (suc (length part))) p ∙ drop-append_left (b ∷ part) rest,
      )
