-- ===== src/ValueStream/Reader.antt =====
-- src/value_stream.rs: `ChunkReader`, which fetches a chunk when the last one is read.
pub mod Fetching
use repe_rs.Prelude.{
  ℕ, zero, suc, ◌+◌, ◌-◌, min, Bytes, Bool, true, false, ◌||◌, [], Option, none, some, Outcome, ok,
  err, panic, ltb, if◌then◌else◌, length, take, drop,
}
use repe_rs.Error.{RepeError, IoError, error_to_string}
use repe_rs.Message.{Message}
use repe_rs.ValueStream.Client.{is_last}

pub record ChunkReader : Type 0 where
  pub buf : Bytes
  pub pos : ℕ
  pub finished : Bool
  pub last_seen : Bool

-- `ChunkReader::new`
unfoldable pub new_reader : ChunkReader
new_reader = record { buf = []; pos = 0; finished = false; last_seen = false }

module _ {S : Type 0} where
  -- What `fetch` does with the answer to its call.
  unfoldable pub fetched :
      ChunkReader → S × Outcome RepeError Message → S × ChunkReader × Outcome IoError (Unit {0})
  unfolding is_last error_to_string
  fetched r (s, ok resp) =
      let last = is_last resp.query in
      (
        s,
        record {
          buf = resp.body;
          pos = 0;
          finished = last || r.finished;
          last_seen = last || r.last_seen;
        },
        ok tt,
      )
  fetched r (s, err e) = (s, r, err (IoError.other (error_to_string e)))
  fetched r (s, panic) = (s, r, panic)

  -- `?` on a fetch.
  unfoldable pub after_fetch :
      (S → ChunkReader → Option (S × ChunkReader × Outcome IoError Bytes))
      → S × ChunkReader × Outcome IoError (Unit {0})
      → Option (S × ChunkReader × Outcome IoError Bytes)
  after_fetch more (s, r, ok _) = more s r
  after_fetch more (s, r, err e) = some (s, r, err e)
  after_fetch more (s, r, panic) = some (s, r, panic)

  -- `read` into a buffer of `n` bytes, on fuel; `none` is a loop that has not ended.
  unfoldable pub read_chunk :
      (S → S × Outcome RepeError Message)
      → ℕ
      → ℕ
      → S
      → ChunkReader
      → Option (S × ChunkReader × Outcome IoError Bytes)
  unfolding fetched after_fetch
  read_chunk call zero n s r = none
  read_chunk call (suc fuel) n s r =
      let taken = min n (length r.buf - r.pos) in
      let again = after_fetch (read_chunk call fuel n) (fetched r (call s)) in
      if ltb r.pos (length r.buf)
      then some (s, record r { pos = r.pos + taken }, ok (take taken (drop r.pos r.buf)))
      else if r.finished
      then some (s, r, ok [])
      else again
