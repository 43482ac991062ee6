-- ===== src/Stream.antt =====
-- src/stream.rs: credit, acknowledgements, the replay ring and resume of one transfer.
-- The mutex makes each method one step on the state; an `Instant` is a number, and the time that a
-- method reads is an argument. A u64 sum keeps its wrap-around. The peer handle's type is a parameter.
pub mod Ring
pub mod Replay
pub mod Control
pub mod Credit
pub mod Resume
use repe_rs.Prelude.{
  ℕ, zero, suc, ◌+◌, ◌-◌, ◌%◌, ◌^◌, min, max, Bytes, Bool, true, false, ◌&&◌, ◌||◌, not, List, [],
  ◌∷◌, ◌++◌, Option, none, some, Outcome, ok, err, ◌==◌, ltb, leb, if◌then◌else◌, length, last?,
  is_empty, ascii,
}

pub record RingChunk : Type 0 where
  pub offset : ℕ
  pub data_len : ℕ
  pub last : Bool
  pub body_bytes : Bytes

-- The deque, its front first.
pub record ReplayRing : Type 0 where
  pub chunks : List RingChunk
  pub bytes_held : ℕ
  pub capacity_bytes : ℕ

-- `c.offset + c.data_len`
abbrev pub end_of : RingChunk → ℕ
end_of c = (c.offset + c.data_len) % 2 ^ 64

-- The condition of the `debug_assert!` in `push`: the new chunk abuts the last one.
unfoldable pub abuts : ReplayRing → ℕ → Bool
abuts r offset = elim (last? r.chunks) [ none ↦ true | some c ↦ offset == end_of c ]

-- The `while` loop of `push`: the chunks that stay, and the bytes that they hold.
unfoldable pub evict : ℕ → ℕ → List RingChunk → List RingChunk × ℕ
evict capacity held [] = ([], held)
evict capacity held (c ∷ []) = (c ∷ [], held)
evict capacity held (c ∷ d ∷ rest) =
    let popped = evict capacity (held - length c.body_bytes) (d ∷ rest) in
    if ltb capacity held then popped else (c ∷ d ∷ rest, held)

-- `ReplayRing::push`
unfoldable pub push : ℕ → ℕ → Bool → Bytes → ReplayRing → ReplayRing
unfolding evict
push offset data_len last body_bytes r =
    let chunk : RingChunk = record {
      offset = offset;
      data_len = data_len;
      last = last;
      body_bytes = body_bytes;
    } in
    let held = min (r.bytes_held + length body_bytes) (2 ^ 64 - 1) in
    let (chunks, held') = evict r.capacity_bytes held (r.chunks ++ (chunk ∷ [])) in
    record r { chunks = chunks; bytes_held = held' }

unfoldable pub clear : ReplayRing → ReplayRing
clear r = record r { chunks = []; bytes_held = 0 }

unfoldable pub highest_end_offset : ReplayRing → Option ℕ
highest_end_offset r = elim (last? r.chunks) [ none ↦ none | some c ↦ some (end_of c) ]

-- The loop of `covers` over the chunks.
unfoldable pub at_boundary : ℕ → List RingChunk → Bool
at_boundary offset [] = false
at_boundary offset (c ∷ rest) = c.offset == offset || at_boundary offset rest

unfoldable pub covers : ReplayRing → ℕ → Bool
unfolding at_boundary highest_end_offset
covers r offset =
    if is_empty r.chunks
    then offset == 0
    else if at_boundary offset r.chunks
    then true
    else elim (highest_end_offset r) [ none ↦ false | some e ↦ e == offset ]

-- `replay_from`: the chunks at or after `offset`.
unfoldable pub chunks_from : ℕ → List RingChunk → List RingChunk
chunks_from offset [] = []
chunks_from offset (c ∷ rest) =
    let later = chunks_from offset rest in if leb offset c.offset then c ∷ later else later

pub data CreditError : Type 0 where
  cancelled : Bytes → CreditError
  timeout : CreditError

pub data ReconnectOutcome : Type 0 where
  resume_ready : ℕ → ReconnectOutcome
  cancelled : Bytes → ReconnectOutcome
  timeout : ReconnectOutcome

pub data ResumeRejection : Type 0 where
  wrong_file_index : (requested current : ℕ) → ResumeRejection
  out_of_window : ResumeRejection
  cancelled : ResumeRejection

unfoldable pub reason : ResumeRejection → Bytes
reason (ResumeRejection.wrong_file_index _ _) = ascii "wrong_file_index"
reason ResumeRejection.out_of_window = ascii "out_of_window"
reason ResumeRejection.cancelled = ascii "transfer_cancelled"

pub record TransferControl (P : Type 0) : Type 0 where
  pub window_bytes : ℕ
  pub sent_offset : ℕ
  pub acked_offset : ℕ
  pub current_file_index : ℕ
  pub cancelled : Option Bytes
  pub last_chunk_at : ℕ
  pub last_ack_at : ℕ
  pub replay : ReplayRing
  pub peer : Option P
  pub pending_resume : Option ℕ

module _ {P : Type 0} where
  unfoldable pub with_replay_capacity : ℕ → ℕ → ℕ → TransferControl P
  with_replay_capacity now window_bytes replay_capacity_bytes = record {
    window_bytes = window_bytes;
    sent_offset = 0;
    acked_offset = 0;
    current_file_index = 0;
    cancelled = none;
    last_chunk_at = now;
    last_ack_at = now;
    replay = record { chunks = []; bytes_held = 0; capacity_bytes = replay_capacity_bytes };
    peer = none;
    pending_resume = none;
  }

  unfoldable pub set_peer : P → TransferControl P → TransferControl P
  set_peer p g = record g { peer = some p }

  unfoldable pub push_replay : ℕ → ℕ → Bool → Bytes → TransferControl P → TransferControl P
  push_replay offset data_len last body_bytes g = record g {
    replay = push offset data_len last body_bytes g.replay;
  }

  unfoldable pub replay_chunks_from : ℕ → TransferControl P → List RingChunk
  replay_chunks_from offset g = chunks_from offset g.replay.chunks

  unfoldable pub request_resume :
      ℕ → P → ℕ → ℕ → TransferControl P → TransferControl P × Outcome ResumeRejection ℕ
  request_resume now new_peer file_index last_received_offset g = elim (g.cancelled) [
    | some _ ↦ (g, err ResumeRejection.cancelled)
    | none ↦
        if not (file_index == g.current_file_index)
        then (g, err (ResumeRejection.wrong_file_index file_index g.current_file_index))
        else if not (covers g.replay last_received_offset)
        then (g, err ResumeRejection.out_of_window)
        else (
          record g {
            peer = some new_peer;
            pending_resume = some last_received_offset;
            last_chunk_at = now;
            last_ack_at = now;
            acked_offset =
                if ltb g.acked_offset last_received_offset && leb last_received_offset g.sent_offset
                then last_received_offset
                else g.acked_offset;
          },
          ok last_received_offset,
        )
  ]

  -- One round of `wait_for_reconnect`, at time `now`: `none` parks the producer until the next wake.
  unfoldable pub reconnect_round :
      ℕ → ℕ → TransferControl P → TransferControl P × Option ReconnectOutcome
  reconnect_round deadline now g = elim (g.cancelled) [
    | some r ↦ (g, some (ReconnectOutcome.cancelled r))
    | none ↦ elim (g.pending_resume) [
      | some o ↦ (record g { pending_resume = none }, some (ReconnectOutcome.resume_ready o))
      | none ↦ if leb deadline now then (g, some ReconnectOutcome.timeout) else (g, none)
    ]
  ]

  -- `sent_offset.saturating_sub(acked_offset)`
  unfoldable pub in_flight : TransferControl P → ℕ
  in_flight g = g.sent_offset - g.acked_offset

  -- One round of `wait_for_credit`, at time `now`: `none` parks the producer.
  unfoldable pub credit_round :
      ℕ → ℕ → ℕ → TransferControl P → Option (Outcome CreditError (Unit {0}))
  unfolding in_flight
  credit_round chunk_len deadline now g = elim (g.cancelled) [
    | some r ↦ some (err (CreditError.cancelled r))
    | none ↦
        if in_flight g == 0 || leb ((in_flight g + chunk_len) % 2 ^ 64) g.window_bytes
        then some (ok tt)
        else if leb deadline now
        then some (err CreditError.timeout)
        else none
  ]

  -- `wait_for_credit` over the wakes: the time and the state that each finds. `none` is still parked.
  unfoldable pub wait_for_credit :
      ℕ → ℕ → List (ℕ × TransferControl P) → Option (Outcome CreditError (Unit {0}))
  wait_for_credit chunk_len deadline [] = none
  wait_for_credit chunk_len deadline ((now, g) ∷ wakes) =
      let again = wait_for_credit chunk_len deadline wakes in
      elim (credit_round chunk_len deadline now g) [ some r ↦ some r | none ↦ again ]

  unfoldable pub record_sent : ℕ → ℕ → TransferControl P → TransferControl P
  record_sent now new_offset g = record g {
    sent_offset = if ltb g.sent_offset new_offset then new_offset else g.sent_offset;
    last_chunk_at = now;
  }

  unfoldable pub record_ack : ℕ → ℕ → ℕ → TransferControl P → TransferControl P
  record_ack now file_index received_through_offset g =
      let capped = min received_through_offset g.sent_offset in
      record g {
        last_ack_at = now;
        acked_offset =
            if file_index == g.current_file_index && ltb g.acked_offset capped
            then capped
            else g.acked_offset;
      }

  unfoldable pub cancel : Bytes → TransferControl P → TransferControl P
  cancel why g = record g { cancelled = elim (g.cancelled) [ none ↦ some why | some r ↦ some r ] }

  unfoldable pub advance_to_file : ℕ → ℕ → TransferControl P → TransferControl P
  unfolding clear
  advance_to_file now next_file_index g = record g {
    current_file_index = next_file_index;
    sent_offset = 0;
    acked_offset = 0;
    replay = clear g.replay;
    pending_resume = none;
    last_chunk_at = now;
    last_ack_at = now;
  }

  -- The watchdog's visit of one transfer.
  unfoldable pub watchdog_visit : ℕ → ℕ → TransferControl P → TransferControl P
  unfolding cancel
  watchdog_visit now idle_timeout g = elim (g.cancelled) [
    | some _ ↦ g
    | none ↦
        if leb idle_timeout (now - max g.last_chunk_at g.last_ack_at)
        then cancel (ascii "transfer idle") g
        else g
  ]
