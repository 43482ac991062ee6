-- ===== src/Examples/Downloads.antt =====
-- Streams from end to end, on a small server and its client.
use repe_rs.Prelude.{
  ℕ, refl, Bytes, [], ◌∷◌, ◌++◌, Option, none, some, Outcome, ok, err, arith, find_id,
}
use repe_rs.Error.{IoError}
use repe_rs.ValueStream.Producer.{Msg, Body, StreamOpts, Compression, produce}
use repe_rs.ValueStream.Producer.Framing.{fresh, Completes, produce-Completes}
use repe_rs.ValueStream.Session.{SessionTable, OpenResponse, open_session}
use repe_rs.ValueStream.Client.Download.{
  Downloads, Truncates, open_session-Downloads, open_session-Truncates,
}
use repe_rs.ValueStream.Session.Pulling.{opened}
use repe_rs.ValueStream.Client.{call_next}
use repe_rs.ValueStream.Reader.{new_reader, read_chunk}
use repe_rs.ValueStream.Reader.Fetching.{Left, Reads, ReadOut, read_chunk-ReadOut}
use repe_rs.ValueStream.Trailer.{new_hold}
use repe_rs.ValueStream.Trailer.Holding.{Splits, write_each, write_each-Splits}
use repe_rs.Examples.{request}

-- Codecs that stand for structio's.
abbrev to_beve : OpenResponse → Bytes
to_beve o = o.version ∷ o.stream_id ∷ o.format ∷ o.compression ∷ []

abbrev read_open : Bytes → Outcome Bytes OpenResponse
read_open (v ∷ i ∷ f ∷ c ∷ []) =
    ok (record { version = v; stream_id = i; format = f; compression = c })
read_open _ = err []

abbrev read_next : Bytes → Option ℕ
read_next (id ∷ []) = some id
read_next _ = none

abbrev as_it_is : Bytes → Bytes
as_it_is b = b

-- An encoder that swaps nothing and keeps errors.
abbrev as_encoded : Body → Body
as_encoded body = body

abbrev whole : Body
whole = record { writes = (1 ∷ 2 ∷ 3 ∷ []) ∷ [] ∷ (4 ∷ 5 ∷ []) ∷ []; failure = none }

abbrev broken : Body
broken = record { writes = (1 ∷ 2 ∷ 3 ∷ []) ∷ (4 ∷ 5 ∷ []) ∷ []; failure = some (9 ∷ []) }

abbrev opts : StreamOpts
opts = record { chunk_bytes = 2; compression = Compression.uncompressed }

abbrev table : SessionTable
table = record { next_id = 6; sessions = [] }

produce-Completes_example :
    Completes 2 (1 ∷ 2 ∷ 3 ∷ 4 ∷ 5 ∷ []) (produce as_encoded whole fresh opts)
produce-Completes_example = produce-Completes 2 (omega arith) as_encoded whole opts refl refl

open_session-Downloads_example :
    Downloads read_open read_next as_it_is
      (6 ∷ [])
      6
      1
      Compression.uncompressed
      (1 ∷ 2 ∷ 3 ∷ 4 ∷ 5 ∷ [])
      (ok tt)
      (open_session to_beve as_encoded opts 1 table request whole)
open_session-Downloads_example =
    open_session-Downloads read_open to_beve (λ o. refl) read_next as_it_is (6 ∷ []) table refl
      as_encoded opts 1 request whole (omega arith) refl

open_session-Truncates_example :
    Truncates read_open to_beve
      (λ o. refl)
      read_next
      as_it_is
      (6 ∷ [])
      table
      refl
      1
      Compression.uncompressed
      (1 ∷ 2 ∷ 3 ∷ 4 ∷ 5 ∷ [])
      (9 ∷ [])
      (open_session to_beve as_encoded opts 1 table request broken)
open_session-Truncates_example =
    open_session-Truncates read_open to_beve (λ o. refl) read_next as_it_is (6 ∷ []) table refl
      as_encoded opts 1 request broken (9 ∷ []) (omega arith) refl

-- A writer into memory.
abbrev write_all : Bytes → Bytes → Bytes × Outcome IoError (Unit {0})
write_all bytes file = (file ++ bytes, ok tt)

write_each-Splits_example :
    Splits as_it_is 2
      (1 ∷ 2 ∷ 3 ∷ 4 ∷ [])
      (write_each write_all ((1 ∷ []) ∷ (2 ∷ 3 ∷ []) ∷ (4 ∷ []) ∷ []) (new_hold [] 2))
write_each-Splits_example =
    write_each-Splits write_all as_it_is (λ bytes file. (file ++ bytes, refl, refl)) 2 []
      ((1 ∷ []) ∷ (2 ∷ 3 ∷ []) ∷ (4 ∷ []) ∷ []) refl

-- A session with two chunks, and a reader in front of it.
abbrev session_table : SessionTable
session_table = record {
  next_id = 7;
  sessions = (6, opened ((1 ∷ 2 ∷ []) ∷ (3 ∷ []) ∷ []) Msg.finish) ∷ [];
}

read_chunk-ReadOut_example :
    ReadOut read_next as_it_is
      (6 ∷ [])
      6
      refl
      5
      (1 ∷ 2 ∷ 3 ∷ [])
      (read_chunk (call_next read_next as_it_is (6 ∷ [])) 4 5 (1, session_table) new_reader)
read_chunk-ReadOut_example =
    read_chunk-ReadOut read_next as_it_is (6 ∷ []) 6 refl 4 3 5 1 session_table new_reader
      (1 ∷ 2 ∷ 3 ∷ []) (omega arith) (omega arith)
      (unfold new_reader in
        Reads.before_last refl
          (Left.unopened ((1 ∷ 2 ∷ []) ∷ (3 ∷ []) ∷ []) (unfold find_id in refl)))
