-- ===== src/ValueStream/Trailer.antt =====
-- src/value_stream.rs: `TrailerHold`, the writer that keeps the last bytes of a stream back.
-- The inner writer is a parameter: its state, and its `write_all`.
pub mod Holding
use repe_rs.Prelude.{
  ℕ, ◌-◌, Bytes, Outcome, ok, err, panic, ◌++◌, [], List, ◌∷◌, leb, ltb, if◌then◌else◌, length,
  take, drop, is_empty, ascii, decimal,
}
use repe_rs.Error.{IoError, ErrorKind}

pub record TrailerHold (W : Type 0) : Type 0 where
  pub inner : W
  pub hold : Bytes
  pub trailer_len : ℕ

-- `TrailerHold::new`
unfoldable pub new_hold : {W : Type 0} → W → ℕ → TrailerHold W
new_hold inner trailer_len = record { inner = inner; hold = []; trailer_len = trailer_len }

-- The held trailer, or the error of a stream that is shorter.
unfoldable pub into_trailer : {W : Type 0} → TrailerHold W → Outcome IoError Bytes
unfolding decimal
into_trailer t =
    if ltb (length t.hold) t.trailer_len
    then err (
        IoError.custom ErrorKind.unexpected_eof (
          ascii "svs: stream of "
          ++ (decimal (length t.hold)
              ++ (ascii " logical byte(s) is shorter than the "
                  ++ (decimal t.trailer_len ++ ascii "-byte trailer")))))
    else ok t.hold

module _ {W : Type 0} (write_all : Bytes → W → W × Outcome IoError (Unit {0})) where
  -- `self.inner.write_all(bytes)?`, with what follows it.
  unfoldable pub then_hold :
      TrailerHold W
      → W × Outcome IoError (Unit {0})
      → (TrailerHold W → TrailerHold W × Outcome IoError ℕ)
      → TrailerHold W × Outcome IoError ℕ
  then_hold t (w, ok _) next = next (record t { inner = w })
  then_hold t (w, err e) next = (record t { inner = w }, err e)
  then_hold t (w, panic) next = (record t { inner = w }, panic)

  -- The prefix of `buf` goes on, and its last bytes are held; nothing is held before.
  unfoldable pub hold_tail : Bytes → TrailerHold W → TrailerHold W × Outcome IoError ℕ
  unfolding then_hold
  hold_tail buf t =
      let split = length buf - t.trailer_len in
      then_hold t (write_all (take split buf) t.inner)
        (λ u. (record u { hold = u.hold ++ drop split buf }, ok (length buf)))

  -- A write that cannot displace all that is held.
  unfoldable pub hold_more : Bytes → TrailerHold W → TrailerHold W × Outcome IoError ℕ
  unfolding then_hold
  hold_more buf t =
      let grown = record t { hold = t.hold ++ buf } in
      let overflow = length grown.hold - t.trailer_len in
      if ltb t.trailer_len (length grown.hold)
      then then_hold grown (write_all (take overflow grown.hold) grown.inner)
          (λ u. (record u { hold = drop overflow u.hold }, ok (length buf)))
      else (grown, ok (length buf))

  -- `write`
  unfoldable pub write : Bytes → TrailerHold W → TrailerHold W × Outcome IoError ℕ
  unfolding then_hold hold_tail hold_more
  write buf t =
      let tail = hold_tail buf t in
      let flushed =
        then_hold t (write_all t.hold t.inner) (λ u. hold_tail buf (record u { hold = [] })) in
      let more = hold_more buf t in
      if leb t.trailer_len (length buf) then (if is_empty t.hold then tail else flushed) else more
