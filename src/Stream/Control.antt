-- ===== src/Stream/Control.antt =====
-- The control of one transfer over any sequence of its methods' steps.
use repe_rs.Prelude.{
  ℕ, if◌then◌else◌, ◌≤◌, ◌<◌, ◌≡◌, ◌⊎◌, inl, inr, refl, Bytes, Bool, true, false, some, ltb, leb,
  ◌==◌, ◌&&◌, ◌-◌, max, ascii, arith, Bool-cases, Option-cases,
}
use repe_rs.Stream.{
  TransferControl, with_replay_capacity, set_peer, push_replay, request_resume, reconnect_round,
  record_sent, record_ack, cancel, advance_to_file, watchdog_visit, covers,
}

raised :
    (c a s : ℕ) (b : Bool)
    → c ≤ s
    → let a' = if b && ltb a c then c else a in (a' ≡ a) ⊎ ((a < a') × (a' ≤ s))
raised c a s false h = inl refl
raised c a s true h = elim (Bool-cases (ltb a c)) [
  | inl up ↦ rw up (inr (ground (arith, up), h))
  | inr same ↦ rw same (inl refl)
]

raised_within :
    (o a s : ℕ) → let a' = if ltb a o && leb o s then o else a in (a' ≡ a) ⊎ ((a < a') × (a' ≤ s))
raised_within o a s = elim (Bool-cases (ltb a o && leb o s)) [
  | inl up ↦ rw up (inr (ground (arith, up), ground (arith, up)))
  | inr same ↦ rw same (inl refl)
]

module _ {P : Type 0} where
  -- A step of the receiver's side, of the embedder or of the watchdog, with any arguments.
  pub data Quiet (g : TransferControl P) : TransferControl P → Type 0 where
    peer_set : (p : P) → Quiet g (set_peer p g)
    pushed :
        (offset data_len : ℕ) (last : Bool) (body : Bytes)
        → Quiet g (push_replay offset data_len last body g)
    resumed : (now : ℕ) (p : P) (file offset : ℕ) → Quiet g ((request_resume now p file offset g).0)
    reconnected : (deadline now : ℕ) → Quiet g ((reconnect_round deadline now g).0)
    acked : (now file offset : ℕ) → Quiet g (record_ack now file offset g)
    cancelled : (why : Bytes) → Quiet g (cancel why g)
    advanced : (now file : ℕ) → Quiet g (advance_to_file now file g)
    visited : (now idle_timeout : ℕ) → Quiet g (watchdog_visit now idle_timeout g)

  -- A step of any method.
  pub data Step (g : TransferControl P) : TransferControl P → Type 0 where
    quiet : {h : TransferControl P} → Quiet g h → Step g h
    sent : (now offset : ℕ) → Step g (record_sent now offset g)

  pub data Steps (g : TransferControl P) : TransferControl P → Type 0 where
    here : Steps g g
    next : {h k : TransferControl P} → Steps g h → Step h k → Steps g k

  -- What a step of the receiver's side does to the offsets: the file changes and both are 0, or
  -- `sent_offset` stays and `acked_offset` may only rise, up to `sent_offset`.
  pub record Settles (g h : TransferControl P) : Type 0 where
    pub window : h.window_bytes ≡ g.window_bytes
    pub offsets :
        ((h.sent_offset ≡ 0) × (h.acked_offset ≡ 0))
        ⊎ ((h.sent_offset ≡ g.sent_offset)
            × ((h.acked_offset ≡ g.acked_offset)
                ⊎ ((g.acked_offset < h.acked_offset) × (h.acked_offset ≤ h.sent_offset))))
    pub sticky : (why : Bytes) → g.cancelled ≡ some why → h.cancelled ≡ some why

  Settles-refl : (g : TransferControl P) → Settles g g
  Settles-refl g = record { window = refl; offsets = inr (refl, inl refl); sticky = λ why q. q }

  cancel-Settles : (why : Bytes) (g : TransferControl P) → Settles g (cancel why g)
  unfolding cancel
  cancel-Settles why g = record {
    window = refl;
    offsets = inr (refl, inl refl);
    sticky = λ w q. rw q refl;
  }

  record_ack-Settles :
      (now file o : ℕ) (g : TransferControl P) → Settles g (record_ack now file o g)
  unfolding record_ack
  record_ack-Settles now file o g = record {
    window = refl;
    offsets = inr (refl, raised _ g.acked_offset g.sent_offset _ (omega arith));
    sticky = λ why q. q;
  }

  request_resume-Settles :
      (now : ℕ) (p : P) (file o : ℕ) (g : TransferControl P)
      → Settles g ((request_resume now p file o g).0)
  unfolding request_resume
  request_resume-Settles now p file o g = elim (Option-cases (g.cancelled)) [
    | inr (why, q) ↦ rw q (Settles-refl _)
    | inl live ↦ rw live (elim (Bool-cases (file == g.current_file_index)) [
      | inr other ↦ rw other (Settles-refl _)
      | inl same ↦ rw same (elim (Bool-cases (covers g.replay o)) [
        | inr out ↦ rw out (Settles-refl _)
        | inl held ↦ rw held (record {
          window = refl;
          offsets = inr (refl, raised_within o g.acked_offset g.sent_offset);
          sticky = λ why q. q;
        })
      ])
    ])
  ]

  reconnect_round-Settles :
      (deadline now : ℕ) (g : TransferControl P) → Settles g ((reconnect_round deadline now g).0)
  unfolding reconnect_round
  reconnect_round-Settles deadline now g = elim (Option-cases (g.cancelled)) [
    | inr (why, q) ↦ rw q (Settles-refl _)
    | inl live ↦ rw live (elim (Option-cases (g.pending_resume)) [
      | inr (o, q) ↦
          rw q (record { window = refl; offsets = inr (refl, inl refl); sticky = λ w e. e })
      | inl idle ↦ rw idle (elim (Bool-cases (leb deadline now)) [
        | inl late ↦ rw late (Settles-refl _)
        | inr early ↦ rw early (Settles-refl _)
      ])
    ])
  ]

  watchdog_visit-Settles :
      (now idle_timeout : ℕ) (g : TransferControl P) → Settles g (watchdog_visit now idle_timeout g)
  unfolding watchdog_visit
  watchdog_visit-Settles now idle_timeout g = elim (Option-cases (g.cancelled)) [
    | inr (why, q) ↦ rw q (Settles-refl _)
    | inl live ↦
        rw live (elim (Bool-cases (leb idle_timeout (now - max g.last_chunk_at g.last_ack_at))) [
          | inl idle ↦ rw idle (cancel-Settles (ascii "transfer idle") _)
          | inr recent ↦ rw recent (Settles-refl _)
        ])
  ]

  pub Quiet-Settles : {g h : TransferControl P} → Quiet g h → Settles g h
  unfolding set_peer push_replay advance_to_file
  Quiet-Settles {g} (peer_set p) = record {
    window = refl;
    offsets = inr (refl, inl refl);
    sticky = λ why q. q;
  }
  Quiet-Settles {g} (pushed offset data_len last body) = record {
    window = refl;
    offsets = inr (refl, inl refl);
    sticky = λ why q. q;
  }
  Quiet-Settles {g} (resumed now p file o) = request_resume-Settles now p file o g
  Quiet-Settles {g} (reconnected deadline now) = reconnect_round-Settles deadline now g
  Quiet-Settles {g} (acked now file o) = record_ack-Settles now file o g
  Quiet-Settles {g} (cancelled why) = cancel-Settles why g
  Quiet-Settles {g} (advanced now file) = record {
    window = refl;
    offsets = inl (refl, refl);
    sticky = λ why q. q;
  }
  Quiet-Settles {g} (visited now idle_timeout) = watchdog_visit-Settles now idle_timeout g

  Step-le :
      {g h : TransferControl P}
      → Step g h
      → g.acked_offset ≤ g.sent_offset
      → h.acked_offset ≤ h.sent_offset
  unfolding record_sent
  Step-le (quiet q) b =
      let s = (Quiet-Settles q).offsets in
      elim s [
        | inl (z, z') ↦ omega (arith, z, z')
        | inr (same, inl a) ↦ omega (arith, same, a, b)
        | inr (same, inr (up, le)) ↦ le
      ]
  Step-le {g} (sent now o) b = ground (arith, b)

  Step-sticky :
      {g h : TransferControl P}
      → Step g h
      → (why : Bytes) → g.cancelled ≡ some why
      → h.cancelled ≡ some why
  unfolding record_sent
  Step-sticky (quiet q) why e = (Quiet-Settles q).sticky why e
  Step-sticky (sent now o) why e = e

  -- From a new control, whatever methods are called, in any order and with any arguments (an
  -- acknowledgement, a resume or an offset that the peer made up included), what is acknowledged
  -- never passes what was sent.
  pub acked-le-sent :
      (now window capacity : ℕ) {g : TransferControl P}
      → Steps (with_replay_capacity now window capacity) g
      → g.acked_offset ≤ g.sent_offset
  unfolding with_replay_capacity
  acked-le-sent now window capacity here = omega arith
  acked-le-sent now window capacity (next r s) = Step-le s (acked-le-sent now window capacity r)

  -- The first cancellation stands: once a transfer is cancelled with a reason, no sequence of steps,
  -- later cancellations and the watchdog's included, clears it or changes its reason.
  cancelled-stays :
      (g : TransferControl P) {h : TransferControl P} (why : Bytes)
      → g.cancelled ≡ some why
      → Steps g h
      → h.cancelled ≡ some why
  cancelled-stays g why e here = e
  cancelled-stays g why e (next r s) = Step-sticky s why (cancelled-stays g why e r)
