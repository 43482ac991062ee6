-- ===== src/Examples/Transfers.antt =====
-- A transfer with a window of 8 bytes, through its methods.
use repe_rs.Prelude.{
  ℕ, ◌+◌, ◌≤◌, ◌<◌, ◌^◌, max, ◌≡◌, ◌⊎◌, inl, Bytes, true, false, [], ◌∷◌, ◌++◌, some, none, Outcome,
  ok, refl, arith,
}
use repe_rs.Stream.{
  RingChunk, ReplayRing, push, chunks_from, covers, abuts, ReconnectOutcome, TransferControl,
  CreditError, with_replay_capacity, request_resume, reconnect_round, replay_chunks_from, in_flight,
  credit_round, wait_for_credit, record_sent, record_ack, cancel,
}
use repe_rs.Stream.Ring.{Run, IsRing, push-IsRing}
use repe_rs.Stream.Replay.{covers-Run}
use repe_rs.Stream.Control.{Quiet, Step, Steps, acked-le-sent}
use repe_rs.Stream.Credit.{
  CreditStep, CreditSteps, in_flight-le, Answered, wait_for_credit-Answered,
}
use repe_rs.Stream.Resume.{Resumes, request_resume-Resumes, request_resume-replay}

abbrev two_bytes : Bytes
two_bytes = 7 ∷ 8 ∷ []

abbrev chunk : ℕ → RingChunk
chunk n = record { offset = n; data_len = 2; last = false; body_bytes = two_bytes }

-- Chunks at 4 and 6, in a ring for 5 bytes.
abbrev ring : ReplayRing
ring = record { chunks = chunk 4 ∷ chunk 6 ∷ []; bytes_held = 4; capacity_bytes = 5 }

ring-IsRing : IsRing 4 8 ring
ring-IsRing = record {
  run = (refl, (refl, refl));
  fits = omega arith;
  held = refl;
  bounded = inl (omega arith);
}

push-IsRing_example : (a' : ℕ) × IsRing a' (8 + 2) (push 8 2 true two_bytes ring)
push-IsRing_example =
    push-IsRing 8 2 true two_bytes ring 4 8 ring-IsRing (unfold abuts in refl) (omega arith)
      (omega arith)

abbrev resume_at : ℕ
resume_at = 6

covers-Run_example : ((ring.chunks ≡ []) × (resume_at ≡ 0)) ⊎ Run 6 (chunks_from 6 ring.chunks) 8
covers-Run_example = covers-Run 4 8 6 ring ring-IsRing (unfold covers in refl)

-- Peers are numbers.
abbrev fresh : TransferControl ℕ
fresh = record {
  window_bytes = 8;
  sent_offset = 0;
  acked_offset = 0;
  current_file_index = 0;
  cancelled = none;
  last_chunk_at = 0;
  last_ack_at = 0;
  replay = record { chunks = []; bytes_held = 0; capacity_bytes = 5 };
  peer = none;
  pending_resume = none;
}

abbrev running : TransferControl ℕ
running = record fresh { sent_offset = 8; acked_offset = 4; replay = ring }

abbrev started : TransferControl ℕ
started = with_replay_capacity 0 8 5

abbrev overfull : TransferControl ℕ
overfull = record_ack 2 0 99 (record_sent 1 6 started)

acked-le-sent_example : overfull.acked_offset ≤ overfull.sent_offset
acked-le-sent_example =
    acked-le-sent 0 8 5
      (Steps.next (Steps.next Steps.here (Step.sent 1 6)) (Step.quiet (Quiet.acked 2 0 99)))

abbrev gone : TransferControl ℕ
gone = record running { cancelled = some two_bytes }

abbrev gone_again : TransferControl ℕ
gone_again = cancel [] gone

first_credit : credit_round 6 100 1 started ≡ some (ok tt)
unfolding credit_round with_replay_capacity
first_credit = refl

first_fits : started.sent_offset + 6 < 2 ^ 64
unfolding with_replay_capacity
first_fits = omega arith

in_flight-le_example : in_flight (record_sent 1 (started.sent_offset + 6) started) ≤ max 8 6
in_flight-le_example = in_flight-le 0 8 6 5 (
    CreditSteps.next CreditSteps.here
      (CreditStep.sent 6 100 1 (omega arith) first_fits first_credit))

wait_for_credit-Answered_example :
    (r : Outcome CreditError (Unit {0})) × (wait_for_credit 6 100
        ((5, running) ∷ [] ++ ((100, running) ∷ []))
      ≡ some r)
    × Answered 6 100 ((5, running) ∷ [] ++ ((100, running) ∷ [])) r
wait_for_credit-Answered_example =
    wait_for_credit-Answered 6 100 100 running ((5, running) ∷ []) (omega arith)

request_resume-Resumes_example : Resumes 9 3 0 6 running 8 (request_resume 9 3 0 6 running)
request_resume-Resumes_example = request_resume-Resumes 9 3 0 6 running 4 8 ring-IsRing

resumable : (request_resume 9 3 0 6 running).1 ≡ ok 6
unfolding request_resume covers
resumable = refl

abbrev resumed_control : TransferControl ℕ
resumed_control = (request_resume 9 3 0 6 running).0

request_resume-replay_example :
    ((reconnect_round 100 10 resumed_control).1 ≡ some (ReconnectOutcome.resume_ready 6))
    × ((reconnect_round 100 10 resumed_control).0.pending_resume ≡ none)
    × (resumed_control.peer ≡ some 3)
    × (((resumed_control.replay.chunks ≡ []) × (resume_at ≡ 0))
        ⊎ Run 6 (replay_chunks_from 6 resumed_control) 8)
request_resume-replay_example =
    request_resume-replay 9 3 0 6 running 4 8 100 10 ring-IsRing resumable
