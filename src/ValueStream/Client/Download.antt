-- ===== src/ValueStream/Client/Download.antt =====
-- A whole download: what the body wrote, what the decoder is given, and how the transfer ends.
use mathlib.Core.List.{append_assoc}
use repe_rs.Prelude.{
  false, [], ◌∷◌, ℕ, ◌+◌, ◌≤◌, ◌<◌, ◌≡◌, refl, sym, ap, ◌∙◌, subst, Bytes, List, ◌++◌, map, Option,
  none, some, Outcome, ok, err, length, arith,
}
use repe_rs.Error.{RepeError}
use repe_rs.Message.{Message}
use repe_rs.Message.Builder.{build}
use repe_rs.ValueStream.Producer.{
  Body, Sender, StreamOpts, Compression, compression_tag, compression_from_u8, encoded, Msg,
}
use repe_rs.ValueStream.Producer.Chunks.{concat}
use repe_rs.ValueStream.Producer.Framing.{produce-Completes, produce-Breaks}
use repe_rs.ValueStream.Session.{
  SessionTable, OpenResponse, open_session, open_produced, svs_version, beve_response,
}
use repe_rs.ValueStream.Client.{call_next, pull_loop, parse_open_response}
use repe_rs.ValueStream.Client.Loop.{Transferred}
use repe_rs.ValueStream.Client.Rounds.{
  no_feed, all_but_last, failure, opened-Transferred, opened-Transferred_broken,
  find_id-with_session,
}

-- A stream that was opened and can be pulled: what the client reads in the answer, and how the pull
-- loop ends, on any fuel from `rounds` on and whatever the next request's id.
pub record Downloads (read_open : Bytes → Outcome Bytes OpenResponse) (read_next : Bytes → Option ℕ)
    (lossy : Bytes → Bytes) (next_body : Bytes) (id format : ℕ) (compression : Compression)
    (bytes : Bytes) (result : Outcome RepeError (Unit {0})) (out : Option (SessionTable × Message))
    : Type 0 where
  pub table : SessionTable
  pub response : Message
  pub opens : out ≡ some (table, response)
  pub info :
      parse_open_response read_open response
      ≡ ok (record { stream_id = id; format = format; compression = compression })
  pub rounds : ℕ
  pub pulls :
      (fuel rid : ℕ)
      → rounds ≤ fuel
      → Transferred id table no_feed bytes result
          (pull_loop (call_next read_next lossy next_body) fuel (rid, table) no_feed)

-- What structio's reader makes of its writer's output.
abbrev Decodes {ℓ} : {A : Type ℓ} → (Bytes → Outcome Bytes A) → (A → Bytes) → Type ℓ
Decodes {A = A} read to_beve = (a : A) → read (to_beve a) ≡ ok a

compression_from_u8-compression_tag :
    (c : Compression) → compression_from_u8 (compression_tag c) ≡ some c
unfolding compression_from_u8 compression_tag
compression_from_u8-compression_tag Compression.uncompressed = refl
compression_from_u8-compression_tag Compression.zstd = refl

-- The last chunk is what is missing.
all_but_last-prefix :
    (chunks : List Bytes) → (c : Bytes) × (concat (all_but_last chunks) ++ c ≡ concat chunks)
all_but_last-prefix [] = ([], refl)
all_but_last-prefix (c ∷ []) = (c ++ [], refl)
all_but_last-prefix (c ∷ d ∷ rest) =
    let (last, e) = all_but_last-prefix (d ∷ rest) in
    (last, append_assoc c (concat (all_but_last (d ∷ rest))) last ∙ ap (λ l. c ++ l) e)

module _ (read_open : Bytes → Outcome Bytes OpenResponse) (to_beve : OpenResponse → Bytes)
    (decodes : Decodes read_open to_beve) where
  parse_open_response-beve_response :
      (req : Message) (stream_id format : ℕ) (compression : Compression)
      → parse_open_response read_open (
          beve_response req (
            to_beve (record {
              version = svs_version;
              stream_id = stream_id;
              format = format;
              compression = compression_tag compression;
            })))
        ≡ ok (record { stream_id = stream_id; format = format; compression = compression })
  unfolding parse_open_response beve_response build
  parse_open_response-beve_response req stream_id format compression =
      rw
        (
          decodes (record {
            version = svs_version;
            stream_id = stream_id;
            format = format;
            compression = compression_tag compression;
          }),
          compression_from_u8-compression_tag compression,
        )
        refl

  module _ (read_next : Bytes → Option ℕ) (lossy : Bytes → Bytes) (next_body : Bytes)
      (table : SessionTable) (reads : read_next next_body ≡ some table.next_id) where
    -- A stream that is opened whose producer sends `chunks` and then its end.
    open_produced-Downloads :
        (compression : Compression) (format : ℕ) (req : Message) (tx : Sender) (chunks : List Bytes)
        → tx.sent ≡ map Msg.chunk chunks ++ (Msg.finish ∷ [])
        → Downloads read_open read_next lossy next_body table.next_id format compression
            (concat chunks)
            (ok tt)
            (open_produced to_beve compression format table req (some tx))
    unfolding open_produced
    open_produced-Downloads compression format req tx chunks sent = record {
      table = _;
      response = _;
      opens = refl;
      info = parse_open_response-beve_response req table.next_id format compression;
      rounds = length chunks + 1;
      pulls = λ fuel rid h.
          opened-Transferred read_next lossy next_body table.next_id reads fuel rid _ no_feed chunks
            refl
            (find_id-with_session table.next_id _ table
              ∙ ap (λ l. some (record { rx = l; lookahead = none; done = false })) sent)
            (omega (arith, h));
    }

    open_produced-Downloads_broken :
        (compression : Compression) (format : ℕ) (req : Message) (tx : Sender) (chunks : List Bytes)
        (e : Bytes)
        → tx.sent ≡ map Msg.chunk chunks ++ (Msg.fail e ∷ [])
        → Downloads read_open read_next lossy next_body table.next_id format compression
            (concat (all_but_last chunks))
            (err (failure lossy e))
            (open_produced to_beve compression format table req (some tx))
    unfolding open_produced
    open_produced-Downloads_broken compression format req tx chunks e sent = record {
      table = _;
      response = _;
      opens = refl;
      info = parse_open_response-beve_response req table.next_id format compression;
      rounds = length chunks + 1;
      pulls = λ fuel rid h.
          opened-Transferred_broken read_next lossy next_body table.next_id reads fuel rid _ no_feed
            chunks e refl
            (find_id-with_session table.next_id _ table
              ∙ ap (λ l. some (record { rx = l; lookahead = none; done = false })) sent)
            (omega (arith, h));
    }

    -- A download end to end: a body that does not fail is opened, its answer tells the client the
    -- stream, the format and the compression, and the pull loop ends without an error, with the
    -- decoder given what the body wrote (encoded, if the stream is compressed), every byte once and in
    -- order, and the session gone from the table. The chunk size is not 0, the readers read what the
    -- writers write, and the decoder stays.
    pub open_session-Downloads :
        (encode : Body → Body) (opts : StreamOpts) (format : ℕ) (req : Message) (body : Body)
        → 0 < opts.chunk_bytes
        → (encoded encode opts.compression body).failure ≡ none
        → Downloads read_open read_next lossy next_body table.next_id format opts.compression
            (concat (encoded encode opts.compression body).writes)
            (ok tt)
            (open_session to_beve encode opts format table req body)
    unfolding open_session
    open_session-Downloads encode opts format req body pos clean =
        let p = produce-Completes opts.chunk_bytes pos encode body opts refl clean in
        subst
          (λ o.
            Downloads read_open read_next lossy next_body table.next_id format opts.compression
              (concat (encoded encode opts.compression body).writes) (ok tt)
              (open_produced to_beve opts.compression format table req o))
          (sym p.returned)
          (subst
            (λ b.
              Downloads read_open read_next lossy next_body table.next_id format opts.compression b
                (ok tt) (open_produced to_beve opts.compression format table req (some p.after)))
            p.cuts.whole
            (open_produced-Downloads opts.compression format req p.after p.chunks p.sent))

    -- What a transfer of a body that fails gives: a part of what the body wrote, from its start.
    pub record Truncates (format : ℕ) (compression : Compression) (bytes e : Bytes)
        (out : Option (SessionTable × Message)) : Type 0 where
      pub part : Bytes
      pub unsent : Bytes
      pub prefix : part ++ unsent ≡ bytes
      pub downloads :
          Downloads read_open read_next lossy next_body table.next_id format compression part
            (err (failure lossy e))
            out

    -- A body that fails: the pull loop ends in the server's error with the body's own message, and
    -- never as if the stream were whole. What the decoder was given is a prefix of what was written,
    -- and the session is gone. The conditions are those of a download that completes.
    pub open_session-Truncates :
        (encode : Body → Body) (opts : StreamOpts) (format : ℕ) (req : Message) (body : Body)
        (e : Bytes)
        → 0 < opts.chunk_bytes
        → (encoded encode opts.compression body).failure ≡ some e
        → Truncates format opts.compression
            (concat (encoded encode opts.compression body).writes)
            e
            (open_session to_beve encode opts format table req body)
    unfolding open_session
    open_session-Truncates encode opts format req body e pos broken =
        let p = produce-Breaks opts.chunk_bytes pos encode body opts e refl broken in
        let (cut, whole) = all_but_last-prefix p.chunks in
        record {
          part = concat (all_but_last p.chunks);
          unsent = cut ++ p.unsent;
          prefix =
              sym (append_assoc (concat (all_but_last p.chunks)) cut p.unsent)
              ∙ ap (λ l. l ++ p.unsent) whole
              ∙ p.prefix;
          downloads =
              subst
                (λ o.
                  Downloads read_open read_next lossy next_body table.next_id format
                    opts.compression (concat (all_but_last p.chunks)) (err (failure lossy e))
                    (open_produced to_beve opts.compression format table req o))
                (sym p.returned)
                (open_produced-Downloads_broken opts.compression format req p.after p.chunks e
                  p.sent);
        }
