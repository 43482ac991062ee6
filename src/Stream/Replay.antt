-- ===== src/Stream/Replay.antt =====
-- The replay ring: what `replay_from` returns for an offset that `covers` accepts.
use repe_rs.Prelude.{
  ℕ, ◌+◌, ◌≤◌, ◌<◌, ◌^◌, ◌≡◌, ◌≢◌, ◌↔◌, ◌⊎◌, inl, inr, refl, sym, ap, ◌∙◌, subst, Option, Bool,
  true, false, List, [], ◌∷◌, ◌++◌, some, none, leb, ◌==◌, is_empty, last?, arith, Bool-cases,
  Option-cases,
}
use repe_rs.Stream.{
  RingChunk, ReplayRing, covers, chunks_from, at_boundary, highest_end_offset, end_of,
}
use repe_rs.Stream.Ring.{Run, IsRing, last-ne-none, last_end}

Run-le : (a b : ℕ) (cs : List RingChunk) → Run a cs b → a ≤ b
Run-le a b [] p = omega (arith, p)
Run-le a b (c ∷ cs) p = omega (arith, Run-le (a + c.data_len) b cs p.1)

at_boundary-le : (o a b : ℕ) (cs : List RingChunk) → Run a cs b → at_boundary o cs ≡ true → a ≤ o
unfolding at_boundary
at_boundary-le o a b [] p e = ground arith
at_boundary-le o a b (c ∷ cs) p e = elim (Bool-cases (c.offset == o)) [
  | inl here ↦ ground (arith, here, p.0)
  | inr later ↦ omega (arith, at_boundary-le o (a + c.data_len) b cs p.1 (rw later at e))
]

-- A list that begins at or after the offset is kept whole.
chunks_from_all : (o a b : ℕ) (cs : List RingChunk) → Run a cs b → o ≤ a → chunks_from o cs ≡ cs
unfolding chunks_from
chunks_from_all o a b [] p h = refl
chunks_from_all o a b (c ∷ cs) p h =
    let here : leb o c.offset ≡ true = ground (arith, p.0, h) in
    rw here (ap (λ l. c ∷ l) (chunks_from_all o (a + c.data_len) b cs p.1 (omega (arith, h))))

chunks_from_start : (o b : ℕ) (cs : List RingChunk) → Run o cs b → Run o (chunks_from o cs) b
chunks_from_start o b cs p =
    subst (λ l. Run o l b) (sym (chunks_from_all o o b cs p (omega arith))) p

-- From an offset at which a chunk begins, or at which the chunks end.
chunks_from-Run :
    (o a b : ℕ) (cs : List RingChunk)
    → Run a cs b
    → (at_boundary o cs ≡ true) ⊎ (o ≡ b)
    → Run o (chunks_from o cs) b
unfolding chunks_from at_boundary
chunks_from-Run o a b [] p (inl e) = cc e
chunks_from-Run o a b [] p (inr e) = e
chunks_from-Run o a b (c ∷ cs) p e = elim (Bool-cases (leb o c.offset)) [
  | inl here ↦
      let low : a ≤ o = elim e [
        | inl q ↦ at_boundary-le o a b (c ∷ cs) p q
        | inr q ↦ omega (arith, q, Run-le a b (c ∷ cs) p)
      ] in
      let same : a ≡ o = ground (arith, here, low, p.0) in
      chunks_from_start o b (c ∷ cs) (subst (λ n. Run n (c ∷ cs) b) same p)
  | inr before ↦
      let off : (c.offset == o) ≡ false = ground (arith, before) in
      let e' : (at_boundary o cs ≡ true) ⊎ (o ≡ b) = elim e [
        | inl q ↦ inl (rw off at q)
        | inr q ↦ inr q
      ] in
      rw before (chunks_from-Run o (a + c.data_len) b cs p.1 e')
]

-- The last test of `covers`, on the last chunk.
abbrev ends_at : ℕ → Option RingChunk → Bool
ends_at o none = false
ends_at o (some c) = end_of c == o

last_test :
    (o : ℕ) (l : Option RingChunk)
    → elim (elim l as (λ x. Option ℕ) [ none ↦ none | some c ↦ some (end_of c) ]) as (λ x. Bool) [
      | none ↦ false
      | some x ↦ x == o
    ]
      ≡ ends_at o l
last_test o none = refl
last_test o (some c) = refl

highest_end :
    (a b o : ℕ) (r : ReplayRing)
    → IsRing a b r
    → is_empty r.chunks ≡ false
    → elim (highest_end_offset r) [ none ↦ false | some e ↦ e == o ] ≡ true
    → o ≡ b
unfolding highest_end_offset
highest_end a b o r v ne e = go r.chunks v.run ne (sym (last_test o (last? r.chunks)) ∙ e)
  where
    go :
        (cs : List RingChunk)
        → Run a cs b
        → is_empty cs ≡ false
        → ends_at o (last? cs) ≡ true
        → o ≡ b
    go [] p n q = cc n
    go (c ∷ cs) p n q = elim (Option-cases (last? (c ∷ cs))) [
      | inl m ↦ absurd (last-ne-none c cs m)
      | inr (d, m) ↦
          let at_end = last_end a b c d cs p m in
          let q' : (end_of d == o) ≡ true = subst (λ l. ends_at o l ≡ true) m q in
          ground (arith, at_end, q', v.fits)
    ]

is_empty_nil : (cs : List RingChunk) → is_empty cs ≡ true → cs ≡ []
is_empty_nil [] q = refl
is_empty_nil (c ∷ cs) q = cc q

-- From an offset that `covers` accepts, on a ring that holds chunks, the chunks of `replay_from`
-- cover exactly the offsets from there to the ring's end: nothing is missing and nothing is twice.
-- On an empty ring `covers` accepts the offset 0 only.
pub covers-Run :
    (a b o : ℕ) (r : ReplayRing)
    → IsRing a b r
    → covers r o ≡ true
    → ((r.chunks ≡ []) × (o ≡ 0)) ⊎ Run o (chunks_from o r.chunks) b
unfolding covers
covers-Run a b o r v e = elim (Bool-cases (is_empty r.chunks)) [
  | inl none_held ↦ inl (is_empty_nil r.chunks none_held, ground (arith, none_held, e))
  | inr some_held ↦ inr (elim (Bool-cases (at_boundary o r.chunks)) [
    | inl at ↦ chunks_from-Run o a b r.chunks v.run (inl at)
    | inr off ↦
        chunks_from-Run o a b r.chunks v.run
          (inr (highest_end a b o r v some_held (rw (some_held, off) at e)))
  ])
]

-- An offset from which a ring that ends at `b` can go on: where one of its chunks begins, where the last one
-- ends, or the beginning, where it holds none.
pub data Resumable (o b : ℕ) (cs : List RingChunk) : Type 0 where
  begins :
      (before : List RingChunk) (c : RingChunk) (after : List RingChunk)
      → cs ≡ before ++ (c ∷ after)
      → c.offset ≡ o
      → Resumable o b cs
  ends : cs ≢ [] → o ≡ b → Resumable o b cs
  fresh : cs ≡ [] → o ≡ 0 → Resumable o b cs

at_boundary-begins :
    (o : ℕ) (cs : List RingChunk)
    → at_boundary o cs ≡ true
    → (before : List RingChunk) × (c : RingChunk) × (after : List RingChunk) × (cs
        ≡ before ++ (c ∷ after))
      × (c.offset ≡ o)
unfolding at_boundary
at_boundary-begins o [] e = cc e
at_boundary-begins o (c ∷ cs) e = elim (Bool-cases (c.offset == o)) [
  | inl here ↦ ([], c, cs, refl, ground (arith, here))
  | inr off ↦
      let (before, d, after, q, at) = at_boundary-begins o cs (rw off at e) in
      (c ∷ before, d, after, ap (λ l. c ∷ l) q, at)
]

begins-at_boundary :
    (o : ℕ) (before : List RingChunk) (c : RingChunk) (after : List RingChunk)
    → c.offset ≡ o
    → at_boundary o (before ++ (c ∷ after)) ≡ true
unfolding at_boundary
begins-at_boundary o [] c after e = ground (arith, e)
begins-at_boundary o (d ∷ before) c after e = ground (arith, begins-at_boundary o before c after e)

is_empty_append :
    (before : List RingChunk) (c : RingChunk) (after : List RingChunk)
    → is_empty (before ++ (c ∷ after)) ≡ false
is_empty_append [] c after = refl
is_empty_append (d ∷ before) c after = refl

last_ends :
    (a b o : ℕ) (cs : List RingChunk)
    → Run a cs b
    → b < 2 ^ 64
    → cs ≢ []
    → o ≡ b
    → ends_at o (last? cs) ≡ true
last_ends a b o [] p fits some_held q = absurd (some_held refl)
last_ends a b o (c ∷ cs) p fits some_held q = elim (Option-cases (last? (c ∷ cs))) [
  | inl m ↦ absurd (last-ne-none c cs m)
  | inr (d, m) ↦
      let at_end = last_end a b c d cs p m in
      let q' : (end_of d == o) ≡ true = ground (arith, at_end, q, fits) in
      subst (λ l. ends_at o l ≡ true) (sym m) q'
]

-- `covers` accepts exactly the offsets from which the ring can go on.
pub covers_iff :
    (a b o : ℕ) (r : ReplayRing) → IsRing a b r → (covers r o ≡ true) ↔ Resumable o b r.chunks
unfolding covers highest_end_offset
covers_iff a b o r v = (accepted, accepts)
  where
    accepted : covers r o ≡ true → Resumable o b r.chunks
    accepted e = elim (Bool-cases (is_empty r.chunks)) [
      | inl none_held ↦
          Resumable.fresh (is_empty_nil r.chunks none_held) (ground (arith, rw none_held at e))
      | inr some_held ↦ elim (Bool-cases (at_boundary o r.chunks)) [
        | inl at ↦
            let (before, c, after, q, here) = at_boundary-begins o r.chunks at in
            Resumable.begins before c after q here
        | inr off ↦
            Resumable.ends (λ n. cc (subst (λ l. is_empty l ≡ false) n some_held))
              (highest_end a b o r v some_held (rw (some_held, off) at e))
      ]
    ]

    accepts : Resumable o b r.chunks → covers r o ≡ true
    accepts (Resumable.fresh none_held q) = rw none_held (ground (arith, q))
    accepts (Resumable.begins before c after q at) =
        let found : at_boundary o r.chunks ≡ true = rw q (begins-at_boundary o before c after at) in
        let held : is_empty r.chunks ≡ false = rw q (is_empty_append before c after) in
        rw (held, found) refl
    accepts (Resumable.ends some_held q) = elim (Bool-cases (is_empty r.chunks)) [
      | inl none_held ↦ absurd (some_held (is_empty_nil r.chunks none_held))
      | inr held ↦ elim (Bool-cases (at_boundary o r.chunks)) [
        | inl at ↦ rw (held, at) refl
        | inr off ↦
            rw (held, off)
              (last_test o (last? r.chunks) ∙ last_ends a b o r.chunks v.run v.fits some_held q)
      ]
    ]
