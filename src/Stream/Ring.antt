-- ===== src/Stream/Ring.antt =====
-- The replay ring: what `push` keeps, and the invariant that it preserves.
use repe_rs.Prelude.{
  ℕ, zero, suc, ◌+◌, ◌-◌, ◌≤◌, ◌<◌, ◌^◌, ◌≡◌, ◌⊎◌, inl, inr, refl, sym, subst, Bytes, Bool, true,
  List, [], ◌∷◌, ◌++◌, some, none, ◌==◌, min, ltb, length, drop, length-append, last?, arith,
  Bool-cases, Option-cases,
}
use repe_rs.Stream.{RingChunk, ReplayRing, evict, push, abuts, end_of}

-- The wire bytes of a list of chunks.
abbrev wire_bytes : List RingChunk → ℕ
wire_bytes [] = 0
wire_bytes (c ∷ rest) = length c.body_bytes + wire_bytes rest

-- Chunks that cover the offsets from `a` to `b` without a gap or an overlap.
abbrev pub Run : ℕ → List RingChunk → ℕ → Type 0
Run a [] b = a ≡ b
Run a (c ∷ rest) b = (c.offset ≡ a) × Run (a + c.data_len) rest b

-- The ring's invariant, for chunks that cover `a` to `b`.
pub record IsRing (a b : ℕ) (r : ReplayRing) : Type 0 where
  pub run : Run a r.chunks b
  pub fits : b < 2 ^ 64
  pub held : r.bytes_held ≡ wire_bytes r.chunks
  pub bounded : (r.bytes_held ≤ r.capacity_bytes) ⊎ (length r.chunks ≤ 1)

wire_bytes-append : (xs ys : List RingChunk) → wire_bytes (xs ++ ys) ≡ wire_bytes xs + wire_bytes ys
wire_bytes-append [] ys = omega arith
wire_bytes-append (c ∷ xs) ys = omega (arith, wire_bytes-append xs ys)

Run-append : (a b d : ℕ) (xs ys : List RingChunk) → Run a xs b → Run b ys d → Run a (xs ++ ys) d
Run-append a b d [] ys p q = subst (λ n. Run n ys d) (sym p) q
Run-append a b d (c ∷ xs) ys p q = (p.0, Run-append (a + c.data_len) b d xs ys p.1 q)

Run-drop : (k a b : ℕ) (cs : List RingChunk) → Run a cs b → (a' : ℕ) × Run a' (drop k cs) b
Run-drop zero a b cs p = (a, p)
Run-drop (suc k) a b [] p = (a, p)
Run-drop (suc k) a b (c ∷ cs) p = Run-drop k (a + c.data_len) b cs p.1

-- What the loop does: it drops chunks from the front, each while the bytes passed the capacity.
pub record Evicted (capacity : ℕ) (cs : List RingChunk) (out : List RingChunk × ℕ) : Type 0 where
  pub dropped : ℕ
  pub rest : out.0 ≡ drop dropped cs
  pub few : dropped < length cs
  pub held_after : out.1 ≡ wire_bytes out.0
  pub bounded : (out.1 ≤ capacity) ⊎ (length out.0 ≤ 1)
  pub needed : (k : ℕ) → k < dropped → capacity < wire_bytes (drop k cs)

evict-Evicted :
    (capacity held : ℕ) (c : RingChunk) (cs : List RingChunk)
    → held ≡ wire_bytes (c ∷ cs)
    → Evicted capacity (c ∷ cs) (evict capacity held (c ∷ cs))
unfolding evict
evict-Evicted capacity held c [] h = record {
  dropped = 0;
  rest = refl;
  few = omega arith;
  held_after = h;
  bounded = inr (omega arith);
  needed = λ k q. absurd (omega arith);
}
evict-Evicted capacity held c (d ∷ cs) h = elim (Bool-cases (ltb capacity held)) [
  | inl over ↦
      let ih = evict-Evicted capacity (held - length c.body_bytes) d cs (omega (arith, h)) in
      rw over (record {
        dropped = suc ih.dropped;
        rest = ih.rest;
        few = omega (arith, ih.few);
        held_after = ih.held_after;
        bounded = ih.bounded;
        needed = needed_before ih.dropped ih.needed (ground arith);
      })
  | inr under ↦ rw under (record {
    dropped = 0;
    rest = refl;
    few = omega arith;
    held_after = h;
    bounded = inl (ground arith);
    needed = λ k q. absurd (omega arith);
  })
]
  where
    needed_before :
        (n : ℕ)
        → ((k : ℕ) → k < n → capacity < wire_bytes (drop k (d ∷ cs)))
        → capacity < wire_bytes (c ∷ d ∷ cs)
        → (k : ℕ) → k < suc n
        → capacity < wire_bytes (drop k (c ∷ d ∷ cs))
    needed_before n f p zero q = p
    needed_before n f p (suc k) q = f k (omega arith)

-- The loop on a list that holds the new chunk last.
evict_last :
    (capacity held : ℕ) (cs : List RingChunk) (c : RingChunk)
    → held ≡ wire_bytes (cs ++ (c ∷ []))
    → Evicted capacity (cs ++ (c ∷ [])) (evict capacity held (cs ++ (c ∷ [])))
evict_last capacity held [] c h = evict-Evicted capacity held c [] h
evict_last capacity held (d ∷ cs) c h = evict-Evicted capacity held d (cs ++ (c ∷ [])) h

pub last-ne-none : (c : RingChunk) (cs : List RingChunk) → last? (c ∷ cs) ≡ none → ⊥
last-ne-none c [] e = cc e
last-ne-none c (d ∷ cs) e = last-ne-none d cs e

pub last_end :
    (a b : ℕ) (c d : RingChunk) (cs : List RingChunk)
    → Run a (c ∷ cs) b
    → last? (c ∷ cs) ≡ some d
    → d.offset + d.data_len ≡ b
last_end a b c d [] p e = ground (arith, p.0, p.1)
last_end a b c d (x ∷ cs) p e = last_end (a + c.data_len) b x d cs p.1 e

-- On a ring with chunks in it, the assertion of `push` says that the chunk begins at the ring's end.
abuts_end :
    (a b offset : ℕ) (cs : List RingChunk)
    → Run a cs b
    → b < 2 ^ 64
    → elim (last? cs) [ none ↦ true | some c ↦ offset == end_of c ] ≡ true
    → (cs ≡ []) ⊎ (offset ≡ b)
abuts_end a b offset [] p f e = inl refl
abuts_end a b offset (c ∷ cs) p f e = elim (Option-cases (last? (c ∷ cs))) [
  | inl n ↦ absurd (last-ne-none c cs n)
  | inr (d, q) ↦
      let at_end = last_end a b c d cs p q in
      let e' : (offset == end_of d) ≡ true =
        subst (λ l. elim l [ none ↦ true | some x ↦ offset == end_of x ] ≡ true) q e in
      inr (ground (arith, at_end, e', f))
]

module _ (offset data_len : ℕ) (last : Bool) (body : Bytes) (r : ReplayRing) where
  abbrev pub pushed : RingChunk
  pushed = record { offset = offset; data_len = data_len; last = last; body_bytes = body }

  push-Evicted :
      r.bytes_held ≡ wire_bytes r.chunks
      → r.bytes_held + length body < 2 ^ 64
      → Evicted r.capacity_bytes
          (r.chunks ++ (pushed ∷ []))
          ((push offset data_len last body r).chunks, (push offset data_len last body r).bytes_held)
  unfolding push
  push-Evicted h fits =
      evict_last r.capacity_bytes (min (r.bytes_held + length body) (2 ^ 64 - 1)) r.chunks pushed
        (omega (arith, h, fits, wire_bytes-append r.chunks (pushed ∷ [])))

  push-Run :
      (a b : ℕ)
      → IsRing a b r
      → abuts r offset ≡ true
      → (a' : ℕ) × Run a' (r.chunks ++ (pushed ∷ [])) (offset + data_len)
  unfolding abuts
  push-Run a b v e = elim (abuts_end a b offset r.chunks v.run v.fits e) [
    | inl none_held ↦ (
      offset,
      Run-append offset offset (offset + data_len) r.chunks (pushed ∷ [])
          (subst (λ cs. Run offset cs offset) (sym none_held) refl) (refl, refl),
    )
    | inr at_end ↦ (
      a,
      Run-append a b (offset + data_len) r.chunks (pushed ∷ []) v.run
          (at_end, omega (arith, at_end)),
    )
  ]

  -- `push` keeps the ring's invariant when its assertion holds, `bytes_held` does not saturate and
  -- the chunk's end is a u64: the chunks still cover one range without a gap or an overlap, the range
  -- ends at the new chunk's end, `bytes_held` counts their bytes, and they fit the capacity unless
  -- one chunk alone is left.
  pub push-IsRing :
      (a b : ℕ)
      → IsRing a b r
      → abuts r offset ≡ true
      → r.bytes_held + length body < 2 ^ 64
      → offset + data_len < 2 ^ 64
      → (a' : ℕ) × IsRing a' (offset + data_len) (push offset data_len last body r)
  unfolding push
  push-IsRing a b v e fits fits_end =
      let out = push-Evicted v.held fits in
      let (a', run) = push-Run a b v e in
      let (a'', kept) = Run-drop out.dropped a' (offset + data_len) _ run in
      (
        a'',
        record {
          run = subst (λ cs. Run a'' cs (offset + data_len)) (sym out.rest) kept;
          fits = fits_end;
          held = out.held_after;
          bounded = out.bounded;
        },
      )

  -- `push` evicts from the front only and only what it must: what it holds afterwards is what it
  -- held with the new chunk behind it, less some chunks in front, never the new chunk, and before
  -- the last eviction the bytes held passed the capacity.
  push-drop :
      r.bytes_held ≡ wire_bytes r.chunks
      → r.bytes_held + length body < 2 ^ 64
      → (n : ℕ) × ((push offset data_len last body r).chunks ≡ drop n (r.chunks ++ (pushed ∷ [])))
        × (n ≤ length r.chunks)
        × ((n ≡ 0) ⊎ (r.capacity_bytes < wire_bytes (drop (n - 1) (r.chunks ++ (pushed ∷ [])))))
  push-drop h fits =
      let out = push-Evicted h fits in
      let few : out.dropped ≤ length r.chunks =
        omega (arith, out.few, length-append r.chunks (pushed ∷ [])) in
      (out.dropped, out.rest, few, last_needed out.dropped out.needed)
    where
      last_needed :
          (n : ℕ)
          → ((k : ℕ) → k < n → r.capacity_bytes < wire_bytes (drop k (r.chunks ++ (pushed ∷ []))))
          → (n ≡ 0) ⊎ (r.capacity_bytes < wire_bytes (drop (n - 1) (r.chunks ++ (pushed ∷ []))))
      last_needed zero f = inl refl
      last_needed (suc n) f = inr (
          subst (λ k. r.capacity_bytes < wire_bytes (drop k (r.chunks ++ (pushed ∷ []))))
            (omega arith) (f n (omega arith)))
