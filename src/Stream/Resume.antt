-- ===== src/Stream/Resume.antt =====
-- Resume after a reconnect: what `request_resume` stages and what the producer then gets.
use repe_rs.Prelude.{
  ℕ, ◌≡◌, ◌≢◌, ◌≤◌, ◌<◌, ◌⊎◌, inl, inr, refl, Bytes, true, [], some, none, Outcome, ok, err, ◌==◌,
  Bool-cases, Option-cases, arith, subst, sym, ltb, leb, ◌&&◌, if◌then◌else◌,
}
use repe_rs.Stream.{
  TransferControl, request_resume, reconnect_round, replay_chunks_from, ResumeRejection,
  ReconnectOutcome, covers, chunks_from,
}
use repe_rs.Stream.Ring.{Run, IsRing}
use repe_rs.Stream.Replay.{covers-Run, Resumable, covers_iff}

reconnect_staged :
    {P : Type 0} (deadline later o : ℕ) (h : TransferControl P)
    → h.cancelled ≡ none
    → h.pending_resume ≡ some o
    → ((reconnect_round deadline later h).1 ≡ some (ReconnectOutcome.resume_ready o))
      × ((reconnect_round deadline later h).0.pending_resume ≡ none)
unfolding reconnect_round
reconnect_staged deadline later o h live staged = (rw (live, staged) refl, rw (live, staged) refl)

module _ {P : Type 0} (now : ℕ) (p : P) (file o : ℕ) (g : TransferControl P) where
  -- What an accepted resume leaves: the new peer, the offset for the producer, and the same ring.
  pub record IsStaged (h : TransferControl P) : Type 0 where
    pub uncancelled : h.cancelled ≡ none
    pub pending : h.pending_resume ≡ some o
    pub new_peer : h.peer ≡ some p
    pub same_ring : h.replay ≡ g.replay
    pub covered : covers g.replay o ≡ true
    pub same_sent : h.sent_offset ≡ g.sent_offset
    pub credited : g.acked_offset < o → o ≤ g.sent_offset → h.acked_offset ≡ o
    pub kept : (o ≤ g.acked_offset) ⊎ (g.sent_offset < o) → h.acked_offset ≡ g.acked_offset
    pub refreshed : (h.last_chunk_at ≡ now) × (h.last_ack_at ≡ now)

  abbrev staged : TransferControl P
  staged = record g {
    peer = some p;
    pending_resume = some o;
    last_chunk_at = now;
    last_ack_at = now;
    acked_offset = if ltb g.acked_offset o && leb o g.sent_offset then o else g.acked_offset;
  }

  staged-IsStaged : g.cancelled ≡ none → covers g.replay o ≡ true → IsStaged staged
  staged-IsStaged live held = record {
    uncancelled = live;
    pending = refl;
    new_peer = refl;
    same_ring = refl;
    covered = held;
    same_sent = refl;
    credited = λ up known. ground (arith, up, known);
    kept = λ k. ground (arith, k);
    refreshed = (refl, refl);
  }

  -- What a resume of a transfer whose ring ends at `b` does. The first check that fails gives the reason,
  -- and then the control is as it was.
  pub data Resumes (b : ℕ) : TransferControl P × Outcome ResumeRejection ℕ → Type 0 where
    cancelled :
        {why : Bytes} → g.cancelled ≡ some why → Resumes b (g, err ResumeRejection.cancelled)
    wrong_file :
        g.cancelled ≡ none
        → file ≢ g.current_file_index
        → Resumes b (g, err (ResumeRejection.wrong_file_index file g.current_file_index))
    out_of_window :
        g.cancelled ≡ none
        → file ≡ g.current_file_index
        → ¬ Resumable o b g.replay.chunks
        → Resumes b (g, err ResumeRejection.out_of_window)
    accepted :
        {h : TransferControl P}
        → g.cancelled ≡ none
        → file ≡ g.current_file_index
        → Resumable o b g.replay.chunks
        → IsStaged h
        → Resumes b (h, ok o)

  -- A resume is refused as cancelled, as of another file, or as out of the window, with the first of these
  -- reasons that there is, and then changes nothing. It is accepted exactly where there is none: then it
  -- returns the offset it was asked for, stages it for the producer with the new peer, and counts the
  -- bytes before it as acknowledged where the receiver is further than its last acknowledgement.
  pub request_resume-Resumes :
      (a b : ℕ) → IsRing a b g.replay → Resumes b (request_resume now p file o g)
  unfolding request_resume
  request_resume-Resumes a b v = elim (Option-cases (g.cancelled)) [
    | inr (why, q) ↦ as_found (rw q refl) (cancelled q)
    | inl live ↦ elim (Bool-cases (file == g.current_file_index)) [
      | inr other ↦
          as_found (rw (live, other) refl)
            (wrong_file live (λ e. absurd (ground (arith, other, e))))
      | inl same ↦ elim (Bool-cases (covers g.replay o)) [
        | inr out ↦ as_found (rw (live, same, out) refl) (
            out_of_window live (ground (arith, same))
              (λ r. let held = (covers_iff a b o g.replay v).1 r in cc (held, out)))
        | inl held ↦ as_found (rw (live, same, held) refl) (
            accepted live (ground (arith, same)) ((covers_iff a b o g.replay v).0 held)
              (staged-IsStaged live held))
      ]
    ]
  ]
    where
      as_found :
          {out out' : TransferControl P × Outcome ResumeRejection ℕ}
          → out ≡ out'
          → Resumes b out'
          → Resumes b out
      as_found e t = subst (Resumes b) (sym e) t

  -- An accepted resume reaches the producer whole: its next round in `wait_for_reconnect` returns
  -- exactly the offset that the receiver asked for, and only once, and what it then replays covers
  -- every offset from there to the end of the ring without a gap or an overlap (or the ring is empty
  -- and the offset is 0).
  pub request_resume-replay :
      (a b deadline later : ℕ)
      → IsRing a b g.replay
      → (request_resume now p file o g).1 ≡ ok o
      → let h = (request_resume now p file o g).0 in
        ((reconnect_round deadline later h).1 ≡ some (ReconnectOutcome.resume_ready o))
        × ((reconnect_round deadline later h).0.pending_resume ≡ none)
        × (h.peer ≡ some p)
        × (((h.replay.chunks ≡ []) × (o ≡ 0)) ⊎ Run o (replay_chunks_from o h) b)
  unfolding replay_chunks_from
  request_resume-replay a b deadline later v e =
      go (request_resume now p file o g) (request_resume-Resumes a b v) e
    where
      go :
          (out : TransferControl P × Outcome ResumeRejection ℕ)
          → Resumes b out
          → out.1 ≡ ok o
          → ((reconnect_round deadline later out.0).1 ≡ some (ReconnectOutcome.resume_ready o))
            × ((reconnect_round deadline later out.0).0.pending_resume ≡ none)
            × (out.0.peer ≡ some p)
            × (((out.0.replay.chunks ≡ []) × (o ≡ 0)) ⊎ Run o (chunks_from o out.0.replay.chunks) b)
      go _ (cancelled q) e = cc e
      go _ (wrong_file l q) e = cc e
      go _ (out_of_window l q r) e = cc e
      go _ (accepted {h = h} l q r s) e =
          let (ready, taken) = reconnect_staged deadline later o h s.uncancelled s.pending in
          (ready, taken, s.new_peer, rw (s.same_ring) (covers-Run a b o g.replay v s.covered))
