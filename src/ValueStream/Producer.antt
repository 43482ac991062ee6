-- ===== src/ValueStream/Producer.antt =====
-- src/value_stream.rs: `Msg`, `ChunkSink` and `produce`.
-- The channel is what was sent into it, in order. A full channel parks the sender, which changes
-- nothing of this; `sends_left` says how often the receiver still lives to see a send, `none` that it
-- is not dropped. An error is its text.
pub mod Chunks
pub mod Framing
use mathlib.Core.Option
use repe_rs.Prelude.{
  ℕ, zero, suc, ◌-◌, min, Bytes, List, [], ◌∷◌, ◌++◌, Option, none, some, Outcome, ok, err, panic,
  ltb, leb, ◌==◌, if◌then◌else◌, length, take, drop, is_empty, ascii,
}

pub data Msg : Type 0 where
  chunk : Bytes → Msg
  finish : Msg
  fail : Bytes → Msg

pub record Sender : Type 0 where
  pub sent : List Msg
  pub sends_left : Option ℕ

-- `tx.send(msg)`
unfoldable pub send : Msg → Sender → Sender × Outcome Bytes (Unit {0})
send msg tx = elim (tx.sends_left) [
  | none ↦ (record tx { sent = tx.sent ++ (msg ∷ []) }, ok tt)
  | some zero ↦ (tx, err (ascii "svs stream cancelled"))
  | some (suc k) ↦ (record tx { sent = tx.sent ++ (msg ∷ []); sends_left = some k }, ok tt)
]

pub record ChunkSink : Type 0 where
  pub tx : Sender
  pub buf : Bytes
  pub chunk_bytes : ℕ

unfoldable pub send_chunk : ChunkSink → ChunkSink × Outcome Bytes (Unit {0})
unfolding send
send_chunk sink =
    let (tx, sent) = send (Msg.chunk sink.buf) sink.tx in (record sink { tx = tx; buf = [] }, sent)

unfoldable pub flush_remaining : ChunkSink → ChunkSink × Outcome Bytes (Unit {0})
unfolding send_chunk
flush_remaining sink = if is_empty sink.buf then (sink, ok tt) else send_chunk sink

-- One round of the loop of `write`: the sink after it, and what is left of the data.
unfoldable pub write_round : Bytes → ChunkSink → ChunkSink × Bytes × Outcome Bytes (Unit {0})
unfolding send_chunk
write_round bytes sink =
    if ltb sink.chunk_bytes (length sink.buf)
    then (sink, bytes, panic)
    else (let taken = min (sink.chunk_bytes - length sink.buf) (length bytes) in
        let filled = record sink { buf = sink.buf ++ take taken bytes } in
        let (emptied, sent) = send_chunk filled in
        if leb sink.chunk_bytes (length filled.buf)
        then (emptied, drop taken bytes, sent)
        else (filled, drop taken bytes, ok tt))

-- The `?` of the loop: the next round, or the error.
abbrev pub SinkResult : Type 0
SinkResult = Option (ChunkSink × Outcome Bytes (Unit {0}))

unfoldable pub next_round :
    (Bytes → ChunkSink → SinkResult) → ChunkSink × Bytes × Outcome Bytes (Unit {0}) → SinkResult
next_round more (sink, rest, ok _) = more rest sink
next_round more (sink, rest, err e) = some (sink, err e)
next_round more (sink, rest, panic) = some (sink, panic)

-- `write`, on fuel; `none` is a loop that has not ended.
unfoldable pub write_loop : ℕ → Bytes → ChunkSink → SinkResult
unfolding write_round next_round
write_loop zero bytes sink = if is_empty bytes then some (sink, ok tt) else none
write_loop (suc fuel) bytes sink =
    let again = next_round (write_loop fuel) (write_round bytes sink) in
    if is_empty bytes then some (sink, ok tt) else again

-- `write`; a round takes a byte at least, unless a chunk has no bytes.
unfoldable pub write : Bytes → ChunkSink → SinkResult
unfolding write_loop
write bytes sink = write_loop (length bytes) bytes sink

-- A body writer: its writes, and the error that it ends in, if it fails.
pub record Body : Type 0 where
  pub writes : List Bytes
  pub failure : Option Bytes

-- `?` on a write, with what follows it.
unfoldable pub after_write : (ChunkSink → SinkResult) → SinkResult → SinkResult
after_write more none = none
after_write more (some (sink, ok _)) = more sink
after_write more (some (sink, err e)) = some (sink, err e)
after_write more (some (sink, panic)) = some (sink, panic)

-- The body's writes, until one fails.
unfoldable pub run_writes : List Bytes → ChunkSink → SinkResult
unfolding write after_write
run_writes [] sink = some (sink, ok tt)
run_writes (bytes ∷ more) sink = after_write (run_writes more) (write bytes sink)

pub data Compression : Type 0 where
  uncompressed zstd : Compression

unfoldable pub compression_tag : Compression → ℕ
compression_tag Compression.uncompressed = 0
compression_tag Compression.zstd = 1

unfoldable pub compression_from_u8 : ℕ → Option Compression
compression_from_u8 v =
    if v == 0 then some Compression.uncompressed else if v == 1 then some Compression.zstd else none

pub record StreamOpts : Type 0 where
  pub chunk_bytes : ℕ
  pub compression : Compression

-- What follows the body's writes: its own error, or the last short chunk.
unfoldable pub complete : Option Bytes → ChunkSink → SinkResult
unfolding flush_remaining
complete none sink = some (flush_remaining sink)
complete (some e) sink = some (sink, err e)

-- The closure of `produce`.
unfoldable pub run_body : Body → ChunkSink → SinkResult
unfolding run_writes after_write complete
run_body body sink = after_write (complete body.failure) (run_writes body.writes sink)

-- The marker that ends the channel. A thread that panics sends none.
unfoldable pub terminal : ChunkSink × Outcome Bytes (Unit {0}) → Sender
unfolding send
terminal (sink, ok _) = (send Msg.finish sink.tx).0
terminal (sink, err e) = (send (Msg.fail e) sink.tx).0
terminal (sink, panic) = sink.tx

abbrev pub encoded : (Body → Body) → Compression → Body → Body
encoded encode Compression.uncompressed body = body
encoded encode Compression.zstd body = encode body

-- `produce`: the channel after it. The zstandard encoder is a parameter: the writes that it makes of
-- the writes that it is given, with the error of either.
unfoldable pub produce : (Body → Body) → Body → Sender → StreamOpts → Option Sender
unfolding run_body terminal
produce encode body tx opts =
    let sink : ChunkSink = record { tx = tx; buf = []; chunk_bytes = opts.chunk_bytes } in
    Option.map terminal (run_body (encoded encode opts.compression body) sink)
