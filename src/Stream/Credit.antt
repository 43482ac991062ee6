-- ===== src/Stream/Credit.antt =====
-- The send window: when credit is granted, and how much a producer has in flight that asks for it.
use repe_rs.Prelude.{
  ℕ, ◌+◌, ◌^◌, ◌%◌, max, ◌≤◌, ◌<◌, ◌≡◌, ◌⊎◌, ◌↔◌, inl, inr, refl, ◌∙◌, true, Bytes, false, Outcome,
  err, List, [], ◌∷◌, ◌++◌, some, none, ok, ◌==◌, leb, ◌||◌, arith, Bool-cases, Option-cases,
}
use repe_rs.Stream.{
  CreditError, TransferControl, with_replay_capacity, in_flight, credit_round, wait_for_credit,
  record_sent,
}
use repe_rs.Stream.Control.{Quiet, Quiet-Settles}

module _ {P : Type 0} where
  -- A round of `wait_for_credit` grants a chunk exactly when the transfer is not cancelled and either
  -- nothing is in flight (so that a chunk larger than the window never waits forever) or the chunk
  -- fits the window, provided that the sum of the two lengths is a u64.
  credit_round_iff :
      (n deadline now : ℕ) (g : TransferControl P)
      → in_flight g + n < 2 ^ 64
      → (credit_round n deadline now g ≡ some (ok tt))
        ↔ ((g.cancelled ≡ none) × ((in_flight g ≡ 0) ⊎ (in_flight g + n ≤ g.window_bytes)))
  unfolding credit_round in_flight
  credit_round_iff n deadline now g fits = (granted, grants)
    where
      granted :
          credit_round n deadline now g ≡ some (ok tt)
          → (g.cancelled ≡ none) × ((in_flight g ≡ 0) ⊎ (in_flight g + n ≤ g.window_bytes))
      granted e = elim (Option-cases (g.cancelled)) [
        | inr (why, q) ↦ cc (rw q at e)
        | inl live ↦ (
          live,
          elim (Bool-cases (in_flight g == 0)) [
            | inl idle ↦ inl (ground arith)
            | inr busy ↦ inr (elim (Bool-cases (leb ((in_flight g + n) % 2 ^ 64) g.window_bytes)) [
              | inl fit ↦ ground (arith, fit, fits)
              | inr over ↦ elim (Bool-cases (leb deadline now)) [
                | inl late ↦ cc (rw (live, busy, over, late) at e)
                | inr early ↦ cc (rw (live, busy, over, early) at e)
              ]
            ])
          ],
        )
      ]

      grants :
          (g.cancelled ≡ none) × ((in_flight g ≡ 0) ⊎ (in_flight g + n ≤ g.window_bytes))
          → credit_round n deadline now g ≡ some (ok tt)
      grants (live, c) =
          let test : (in_flight g == 0 || leb ((in_flight g + n) % 2 ^ 64) g.window_bytes) ≡ true =
            ground (arith, c, fits) in
          rw (live, test) refl

  -- A step of a producer that sends chunks of at most `m` bytes, each only with credit for it.
  pub data CreditStep (m : ℕ) (g : TransferControl P) : TransferControl P → Type 0 where
    quiet : {h : TransferControl P} → Quiet g h → CreditStep m g h
    sent :
        (n deadline now : ℕ)
        → n ≤ m
        → g.sent_offset + n < 2 ^ 64
        → credit_round n deadline now g ≡ some (ok tt)
        → CreditStep m g (record_sent now (g.sent_offset + n) g)

  pub data CreditSteps (m : ℕ) (g : TransferControl P) : TransferControl P → Type 0 where
    here : CreditSteps m g g
    next : {h k : TransferControl P} → CreditSteps m g h → CreditStep m h k → CreditSteps m g k

  abbrev IsBounded : ℕ → ℕ → TransferControl P → Type 0
  IsBounded w m g =
      (g.window_bytes ≡ w) × (g.acked_offset ≤ g.sent_offset) × (in_flight g ≤ max w m)

  CreditStep-IsBounded :
      (w m : ℕ) {g h : TransferControl P} → CreditStep m g h → IsBounded w m g → IsBounded w m h
  unfolding in_flight record_sent
  CreditStep-IsBounded w m {g} {h} (quiet q) (window, le, b) =
      let s = Quiet-Settles q in
      let rest : (h.acked_offset ≤ h.sent_offset) × (in_flight h ≤ max w m) = elim (s.offsets) [
        | inl (z, z') ↦ (omega (arith, z, z'), omega (arith, z, z'))
        | inr (same, inl a) ↦ (omega (arith, same, a, le), omega (arith, same, a, b))
        | inr (same, inr (up, le')) ↦ (le', omega (arith, same, up, b))
      ] in
      (s.window ∙ window, rest.0, rest.1)
  CreditStep-IsBounded w m {g} (sent n deadline now small fits credit) (window, le, b) =
      let c = (credit_round_iff n deadline now g (omega (arith, fits))).0 credit in
      (
        window,
        ground (arith, le, small),
        elim (c.1) [
          | inl idle ↦ ground (arith, idle, small, le)
          | inr room ↦ ground (arith, room, window, le)
        ],
      )

  CreditSteps-IsBounded :
      (now w m capacity : ℕ) {g : TransferControl P}
      → CreditSteps m (with_replay_capacity now w capacity) g
      → IsBounded w m g
  unfolding with_replay_capacity in_flight
  CreditSteps-IsBounded now w m capacity here = (refl, omega arith, omega arith)
  CreditSteps-IsBounded now w m capacity (next r s) =
      CreditStep-IsBounded w m s (CreditSteps-IsBounded now w m capacity r)

  -- Back pressure: from a new control, a producer that sends chunks of at most `m` bytes, each only
  -- with credit and up to an offset that is a u64, never has more than the window (or one chunk, if a chunk is larger than the window)
  -- in flight, whatever acknowledgements, resumes, cancellations, changes of file and visits of the
  -- watchdog come in between.
  pub in_flight-le :
      (now window m capacity : ℕ) {g : TransferControl P}
      → CreditSteps m (with_replay_capacity now window capacity) g
      → in_flight g ≤ max window m
  in_flight-le now window m capacity r = (CreditSteps-IsBounded now window m capacity r).2

  -- The window has room for `n` more bytes: nothing is in flight, so that a chunk larger than the window
  -- never waits forever, or the sum of the two lengths, in a word of 64 bits, is within the window.
  abbrev HasRoom : ℕ → TransferControl P → Type 0
  HasRoom n g = (in_flight g ≡ 0) ⊎ ((in_flight g + n) % 2 ^ 64 ≤ g.window_bytes)

  -- What a wait for credit finds at time `now`. A cancellation comes first, then the credit, then the
  -- deadline.
  pub data Settles (n deadline now : ℕ) (g : TransferControl P)
      : Outcome CreditError (Unit {0}) → Type 0 where
    cancelled :
        {why : Bytes}
        → g.cancelled ≡ some why
        → Settles n deadline now g (err (CreditError.cancelled why))
    granted : g.cancelled ≡ none → HasRoom n g → Settles n deadline now g (ok tt)
    expired :
        g.cancelled ≡ none
        → ¬ HasRoom n g
        → deadline ≤ now
        → Settles n deadline now g (err CreditError.timeout)

  abbrev Waits : ℕ → ℕ → ℕ → TransferControl P → Type 0
  Waits n deadline now g = (g.cancelled ≡ none) × (¬ HasRoom n g) × (now < deadline)

  credit_round-cases :
      (n deadline now : ℕ) (g : TransferControl P)
      → ((credit_round n deadline now g ≡ none) × Waits n deadline now g)
        ⊎ ((r : Outcome CreditError (Unit {0})) × (credit_round n deadline now g ≡ some r)
            × Settles n deadline now g r)
  unfolding credit_round
  credit_round-cases n deadline now g = elim (Option-cases (g.cancelled)) [
    | inr (why, q) ↦ inr (err (CreditError.cancelled why), rw q refl, cancelled q)
    | inl live ↦
        elim (Bool-cases (in_flight g == 0 || leb ((in_flight g + n) % 2 ^ 64) g.window_bytes)) [
          | inl room ↦ inr (ok tt, rw (live, room) refl, granted live (has_room room))
          | inr full ↦ elim (Bool-cases (leb deadline now)) [
            | inl late ↦ inr (
              err CreditError.timeout,
              rw (live, full, late) refl,
              expired live (no_room full) (ground (arith, late)),
            )
            | inr early ↦
                inl (rw (live, full, early) refl, (live, no_room full, ground (arith, early)))
          ]
        ]
  ]
    where
      has_room :
          (in_flight g == 0 || leb ((in_flight g + n) % 2 ^ 64) g.window_bytes) ≡ true → HasRoom n g
      has_room e = elim (Bool-cases (in_flight g == 0)) [
        | inl idle ↦ inl (ground (arith, idle))
        | inr busy ↦ inr (ground (arith, busy, e))
      ]

      no_room :
          (in_flight g == 0 || leb ((in_flight g + n) % 2 ^ 64) g.window_bytes) ≡ false
          → ¬ HasRoom n g
      no_room e (inl idle) = absurd (ground (arith, idle, e))
      no_room e (inr fits) = absurd (ground (arith, fits, e))

  -- The answer of a wait is that of the first wake that settles it: every wake before it waits.
  pub data Answered (n deadline : ℕ)
      : List (ℕ × TransferControl P) → Outcome CreditError (Unit {0}) → Type 0 where
    at_once :
        {now : ℕ} {g : TransferControl P} {wakes : List (ℕ × TransferControl P)}
        {r : Outcome CreditError (Unit {0})}
        → Settles n deadline now g r
        → Answered n deadline ((now, g) ∷ wakes) r
    later :
        {now : ℕ} {g : TransferControl P} {wakes : List (ℕ × TransferControl P)}
        {r : Outcome CreditError (Unit {0})}
        → Waits n deadline now g
        → Answered n deadline wakes r
        → Answered n deadline ((now, g) ∷ wakes) r

  -- A wait for credit whose wakes reach the deadline ends, whatever the wakes before found, and what it
  -- returns is what the first wake that settles it finds: the cancellation with its reason, else the
  -- credit where the window has room, else the timeout once the deadline passed; at the wakes before it
  -- there was no cancellation, no room, and time left.
  pub wait_for_credit-Answered :
      (n deadline now : ℕ) (g : TransferControl P) (wakes : List (ℕ × TransferControl P))
      → deadline ≤ now
      → (r : Outcome CreditError (Unit {0})) × (wait_for_credit n deadline
            (wakes ++ ((now, g) ∷ []))
          ≡ some r)
        × Answered n deadline (wakes ++ ((now, g) ∷ [])) r
  unfolding wait_for_credit
  wait_for_credit-Answered n deadline now g [] late = elim (credit_round-cases n deadline now g) [
    | inl (q, w) ↦ absurd (omega (arith, w.2, late))
    | inr (r, q, s) ↦ (r, rw (q, wait_for_credit) refl, at_once s)
  ]
  wait_for_credit-Answered n deadline now g ((t, h) ∷ wakes) late =
      elim (credit_round-cases n deadline t h) [
        | inl (q, w) ↦
            let (r, e, a) = wait_for_credit-Answered n deadline now g wakes late in
            (r, rw (q, wait_for_credit) e, later w a)
        | inr (r, q, s) ↦ (r, rw (q, wait_for_credit) refl, at_once s)
      ]
