-- ===== src/ValueStream/Producer/Chunks.antt =====
-- The chunks that the sink makes: all of the declared size but the last, whatever the writes are.
use mathlib.Core.List.{append-nil, append_assoc, map-append}
use repe_rs.Prelude.{
  ℕ, zero, suc, ◌+◌, ◌-◌, ◌≤◌, ◌<◌, ◌≡◌, inl, inr, min, Bytes, List, [], ◌∷◌, ◌++◌, map, none, some,
  ok, refl, sym, ap, ◌∙◌, subst, false, ltb, leb, length, take, drop, All, All-append,
  length-append, length-take, length-drop, take-append-drop, arith, Bool-cases,
}
use repe_rs.ValueStream.Producer.{
  SinkResult, next_round, after_write, Msg, Sender, ChunkSink, send, write_round, write_loop, write,
  run_writes,
}

abbrev pub concat : List Bytes → Bytes
concat [] = []
concat (c ∷ rest) = c ++ concat rest

pub concat-append : (xs ys : List Bytes) → concat (xs ++ ys) ≡ concat xs ++ concat ys
concat-append [] ys = refl
concat-append (x ∷ xs) ys = ap (λ l. x ++ l) (concat-append xs ys) ∙ sym (append_assoc x _ _)

abbrev pub HasLength : ℕ → Bytes → Type 0
HasLength n c = length c ≡ n

-- A sink whose buffer is short of a chunk, with a receiver that stays.
pub record IsSink (n : ℕ) (sink : ChunkSink) : Type 0 where
  pub size : sink.chunk_bytes ≡ n
  pub short : length sink.buf < n
  pub alive : sink.tx.sends_left ≡ none

pub send_alive :
    (msg : Msg) (tx : Sender)
    → tx.sends_left ≡ none
    → send msg tx ≡ (record tx { sent = tx.sent ++ (msg ∷ []) }, ok tt)
unfolding send
send_alive msg tx e = rw e refl

-- What `bytes` do to a sink: full chunks are sent, and the rest is in the buffer.
pub record Wrote (n : ℕ) (bytes : Bytes) (before after : ChunkSink) : Type 0 where
  pub chunks : List Bytes
  pub sent : after.tx.sent ≡ before.tx.sent ++ map Msg.chunk chunks
  pub full : All (HasLength n) chunks
  pub kept : concat chunks ++ after.buf ≡ before.buf ++ bytes
  pub still : IsSink n after

module _ (n : ℕ) (pos : 0 < n) where
  Wrote-none : (sink : ChunkSink) → IsSink n sink → Wrote n [] sink sink
  Wrote-none sink v = record {
    chunks = [];
    sent = sym (append-nil _);
    full = tt;
    kept = sym (append-nil _);
    still = v;
  }

  Wrote-trans :
      (a b : Bytes) (s t u : ChunkSink) → Wrote n a s t → Wrote n b t u → Wrote n (a ++ b) s u
  Wrote-trans a b s t u p q = record {
    chunks = p.chunks ++ q.chunks;
    sent =
        q.sent
        ∙ ap (λ l. l ++ map Msg.chunk q.chunks) p.sent
        ∙ append_assoc s.tx.sent (map Msg.chunk p.chunks) (map Msg.chunk q.chunks)
        ∙ ap (λ l. s.tx.sent ++ l) (sym (map-append Msg.chunk p.chunks q.chunks));
    full = All-append (HasLength n) p.chunks q.chunks p.full q.full;
    kept =
        ap (λ l. l ++ u.buf) (concat-append p.chunks q.chunks)
        ∙ append_assoc (concat p.chunks) (concat q.chunks) u.buf
        ∙ ap (λ l. concat p.chunks ++ l) q.kept
        ∙ sym (append_assoc (concat p.chunks) t.buf b)
        ∙ ap (λ l. l ++ b) p.kept
        ∙ append_assoc s.buf a b;
    still = q.still;
  }

  -- One round: the sink takes some of the bytes.
  pub record Took (bytes : Bytes) (sink : ChunkSink) : Type 0 where
    pub taken : ℕ
    pub after : ChunkSink
    pub round : write_round bytes sink ≡ (after, drop taken bytes, ok tt)
    pub wrote : Wrote n (take taken bytes) sink after
    pub some_taken : 0 < taken

  write_round-Took :
      (c : ℕ) (bytes : Bytes) (sink : ChunkSink) → IsSink n sink → Took (c ∷ bytes) sink
  unfolding write_round
  write_round-Took c bytes sink v =
      let taken : ℕ = min (sink.chunk_bytes - length sink.buf) (length (c ∷ bytes)) in
      let fits : ltb sink.chunk_bytes (length sink.buf) ≡ false = ground (arith, v.size, v.short) in
      let filled : ChunkSink = record sink { buf = sink.buf ++ take taken (c ∷ bytes) } in
      let len : length filled.buf ≡ length sink.buf + taken =
        omega
          (arith, length-append sink.buf (take taken (c ∷ bytes)), length-take taken (c ∷ bytes)) in
      elim (Bool-cases (leb sink.chunk_bytes (length filled.buf))) [
        | inl full ↦ record {
          taken = taken;
          after = record sink {
            tx = record (sink.tx) { sent = sink.tx.sent ++ (Msg.chunk filled.buf ∷ []) };
            buf = [];
          };
          round = rw (fits, full, send_alive (Msg.chunk filled.buf) sink.tx v.alive) refl;
          wrote = record {
            chunks = filled.buf ∷ [];
            sent = refl;
            full = (ground (arith, full, len, v.size, v.short), tt);
            kept = append-nil _ ∙ append-nil _;
            still = record { size = v.size; short = pos; alive = v.alive };
          };
          some_taken = omega (arith, v.size, v.short);
        }
        | inr part ↦ record {
          taken = taken;
          after = filled;
          round = rw (fits, part) refl;
          wrote = record {
            chunks = [];
            sent = sym (append-nil _);
            full = tt;
            kept = refl;
            still = record { size = v.size; short = ground (arith, part, v.size); alive = v.alive };
          };
          some_taken = omega (arith, v.size, v.short);
        }
      ]

  -- As many rounds as there are bytes are enough.
  pub record Ended (bytes : Bytes) (sink : ChunkSink) (out : SinkResult) : Type 0 where
    pub after : ChunkSink
    pub returned : out ≡ some (after, ok tt)
    pub wrote : Wrote n bytes sink after

  write_loop-Ended :
      (fuel : ℕ) (bytes : Bytes) (sink : ChunkSink)
      → IsSink n sink
      → length bytes ≤ fuel
      → Ended bytes sink (write_loop fuel bytes sink)
  unfolding write_loop
  write_loop-Ended zero [] sink v h = record {
    after = sink;
    returned = refl;
    wrote = Wrote-none sink v;
  }
  write_loop-Ended zero (c ∷ bytes) sink v h = absurd (omega (arith, h))
  write_loop-Ended (suc fuel) [] sink v h = record {
    after = sink;
    returned = refl;
    wrote = Wrote-none sink v;
  }
  write_loop-Ended (suc fuel) (c ∷ bytes) sink v h =
      let one = write_round-Took c bytes sink v in
      let rest = drop one.taken (c ∷ bytes) in
      let more =
        write_loop-Ended fuel rest one.after one.wrote.still
          (omega (arith, length-drop one.taken (c ∷ bytes), one.some_taken, h)) in
      record {
        after = more.after;
        returned = ap (next_round (write_loop fuel)) one.round ∙ more.returned;
        wrote =
            subst (λ l. Wrote n l sink more.after) (take-append-drop one.taken (c ∷ bytes))
              (Wrote-trans (take one.taken (c ∷ bytes)) rest sink one.after more.after one.wrote
                more.wrote);
      }

  pub run_writes-Ended :
      (writes : List Bytes) (sink : ChunkSink)
      → IsSink n sink
      → Ended (concat writes) sink (run_writes writes sink)
  unfolding run_writes write
  run_writes-Ended [] sink v = record { after = sink; returned = refl; wrote = Wrote-none sink v }
  run_writes-Ended (bytes ∷ writes) sink v =
      let one = write_loop-Ended (length bytes) bytes sink v (omega arith) in
      let more = run_writes-Ended writes one.after one.wrote.still in
      record {
        after = more.after;
        returned = ap (after_write (run_writes writes)) one.returned ∙ more.returned;
        wrote = Wrote-trans bytes (concat writes) sink one.after more.after one.wrote more.wrote;
      }
