-- ===== src/ValueStream/Reader/Fetching.antt =====
-- What the reads of a stream give: its bytes, and the end only behind the last one.
use mathlib.Core.List.{append-nil, append_assoc}
use repe_rs.Prelude.{
  if_false, ℕ, zero, suc, ◌+◌, ◌-◌, ◌%◌, ◌^◌, min, ◌≤◌, ◌<◌, ◌≡◌, ◌⊎◌, inl, inr, refl, sym, ap, ◌∙◌,
  Bytes, Bool, true, false, ◌||◌, List, [], ◌∷◌, ◌++◌, Option, some, Outcome, ok, ltb, length, take,
  drop, take-append-drop, drop-drop, length-take, length-drop, drop_all, find_id, Bool-cases, arith,
}
use repe_rs.Error.{IoError}
use repe_rs.Message.{Message}
use repe_rs.Message.Builder.{build}
use repe_rs.ValueStream.Producer.{Msg}
use repe_rs.ValueStream.Producer.Chunks.{concat}
use repe_rs.ValueStream.Session.{SessionTable, chunk_response}
use repe_rs.ValueStream.Session.Pulling.{
  opened, ahead, ended, pull_once-opened, pull_once-ahead, pull_once-opened_empty,
  pull_once-opened_last, pull_once-ahead_last,
}
use repe_rs.ValueStream.Client.{call_next, next_request, is_last}
use repe_rs.ValueStream.Client.Loop.{with_session, without_session, call_next-chunk}
use repe_rs.ValueStream.Client.Rounds.{find_id-with_session}
use repe_rs.ValueStream.Reader.{ChunkReader, fetched, after_fetch, read_chunk}

-- What the server still has to send on a stream, and the fetches that this takes at most.
pub data Left (id : ℕ) (table : SessionTable) : ℕ → Bytes → Type 0 where
  unopened :
      (chunks : List Bytes)
      → find_id id table.sessions ≡ some (opened chunks Msg.finish)
      → Left id table (suc (length chunks)) (concat chunks)
  begun :
      (c : Bytes) (chunks : List Bytes)
      → find_id id table.sessions ≡ some (ahead c chunks Msg.finish)
      → Left id table (suc (length chunks)) (c ++ concat chunks)

abbrev unread : ChunkReader → Bytes
unread r = drop r.pos r.buf

-- A reader in front of `bytes`: those that it holds, and those that are left.
pub data Reads (id : ℕ) (table : SessionTable) (r : ChunkReader) : ℕ → Bytes → Type 0 where
  at_last : r.finished ≡ true → r.last_seen ≡ true → Reads id table r 0 (unread r)
  before_last :
      {fetches : ℕ} {rest : Bytes}
      → r.finished ≡ false
      → Left id table fetches rest
      → Reads id table r fetches (unread r ++ rest)

module _ (read_next : Bytes → Option ℕ) (lossy : Bytes → Bytes) (body : Bytes) (id : ℕ)
    (reads : read_next body ≡ some id) where
  -- One fetch of what is left.
  record Fetch (rid : ℕ) (table : SessionTable) (fetches : ℕ) (rest : Bytes) : Type 0 where
    after : SessionTable
    chunk : Bytes
    last : Bool
    later : Bytes
    needed : 0 < fetches
    replied :
        call_next read_next lossy body (rid, table)
        ≡ (((rid + 1) % 2 ^ 64, after), ok (chunk_response (next_request rid body) chunk last))
    parts : rest ≡ chunk ++ later
    goes_on :
        ((last ≡ true) × (later ≡ []))
        ⊎ ((last ≡ false) × ((n : ℕ) × (n < fetches) × Left id after n later))

  Left-Fetch :
      {fetches : ℕ} {rest : Bytes} (rid : ℕ) (table : SessionTable)
      → Left id table fetches rest
      → Fetch rid table fetches rest
  Left-Fetch rid table (unopened [] found) = record {
    after = without_session id (with_session id ended table);
    chunk = [];
    last = true;
    later = [];
    needed = omega arith;
    replied =
        call_next-chunk read_next lossy body id reads rid table _ ended [] true found
          pull_once-opened_empty;
    parts = refl;
    goes_on = inl (refl, refl);
  }
  Left-Fetch rid table (unopened (c ∷ []) found) = record {
    after = without_session id (with_session id ended table);
    chunk = c;
    last = true;
    later = [];
    needed = omega arith;
    replied =
        call_next-chunk read_next lossy body id reads rid table _ ended c true found
          (pull_once-opened_last c);
    parts = refl;
    goes_on = inl (refl, refl);
  }
  Left-Fetch rid table (unopened (c ∷ d ∷ chunks) found) =
      let s' = ahead d chunks Msg.finish in
      record {
        after = with_session id s' table;
        chunk = c;
        last = false;
        later = concat (d ∷ chunks);
        needed = omega arith;
        replied =
            call_next-chunk read_next lossy body id reads rid table _ s' c false found
              (pull_once-opened c d chunks Msg.finish);
        parts = refl;
        goes_on = inr (
          refl,
          (suc (length chunks), omega arith, begun d chunks (find_id-with_session id s' table)),
        );
      }
  Left-Fetch rid table (begun c [] found) = record {
    after = without_session id (with_session id ended table);
    chunk = c;
    last = true;
    later = [];
    needed = omega arith;
    replied =
        call_next-chunk read_next lossy body id reads rid table _ ended c true found
          (pull_once-ahead_last c);
    parts = refl;
    goes_on = inl (refl, refl);
  }
  Left-Fetch rid table (begun c (d ∷ chunks) found) =
      let s' = ahead d chunks Msg.finish in
      record {
        after = with_session id s' table;
        chunk = c;
        last = false;
        later = concat (d ∷ chunks);
        needed = omega arith;
        replied =
            call_next-chunk read_next lossy body id reads rid table _ s' c false found
              (pull_once-ahead c d chunks Msg.finish);
        parts = refl;
        goes_on = inr (
          refl,
          (suc (length chunks), omega arith, begun d chunks (find_id-with_session id s' table)),
        );
      }

  -- The reader behind a fetch.
  abbrev refilled : ChunkReader → Bytes → Bool → ChunkReader
  refilled r c last = record {
    buf = c;
    pos = 0;
    finished = last || r.finished;
    last_seen = last || r.last_seen;
  }

  fetched-chunk_response :
      (r : ChunkReader) (s : ℕ × SessionTable) (request : Message) (c : Bytes) (last : Bool)
      → fetched r (s, ok (chunk_response request c last)) ≡ (s, refilled r c last, ok tt)
  unfolding fetched chunk_response build is_last
  fetched-chunk_response r s request c true = refl
  fetched-chunk_response r s request c false = refl

  -- What a read returns: the next bytes, and nothing only where nothing is left and the last chunk was
  -- seen.
  pub record ReadOut (n : ℕ) (bytes : Bytes)
      (out : Option ((ℕ × SessionTable) × ChunkReader × Outcome IoError Bytes)) : Type 0 where
    pub rid : ℕ
    pub after : SessionTable
    pub reader : ChunkReader
    pub got : Bytes
    pub later : Bytes
    pub fetches : ℕ
    pub returned : out ≡ some ((rid, after), reader, ok got)
    pub parts : bytes ≡ got ++ later
    pub next : Reads id after reader fetches later
    pub bounded : length got ≤ n
    pub at_end : got ≡ [] → (bytes ≡ []) × (reader.last_seen ≡ true)

  -- The buffer has bytes left.
  buffered-ReadOut :
      (fuel fetches n rid : ℕ) (table : SessionTable) (r : ChunkReader) (bytes : Bytes)
      → 0 < n
      → ltb r.pos (length r.buf) ≡ true
      → Reads id table r fetches bytes
      → ReadOut n bytes (read_chunk (call_next read_next lossy body) (suc fuel) n (rid, table) r)
  unfolding read_chunk
  buffered-ReadOut fuel fetches n rid table r bytes pos more state =
      let taken : ℕ = min n (length r.buf - r.pos) in
      let r' : ChunkReader = record r { pos = r.pos + taken } in
      let got : Bytes = take taken (unread r) in
      let held : unread r ≡ got ++ unread r' =
        sym (take-append-drop taken (unread r))
        ∙ ap (λ l. got ++ l) (drop-drop r.pos taken r.buf) in
      let size : length got ≡ min taken (length r.buf - r.pos) =
        length-take taken (unread r) ∙ ap (min taken) (length-drop r.pos r.buf) in
      let (later, parts, next) = kept fetches bytes state taken got held in
      record {
        rid = rid;
        after = table;
        reader = r';
        got = got;
        later = later;
        fetches = fetches;
        returned = rw more refl;
        parts = parts;
        next = next;
        bounded = omega (arith, size);
        at_end = λ e.
            let none_got : length got ≡ 0 = ap length e in
            absurd (ground (arith, size, none_got, pos, more));
      }
    where
      kept :
          (fetches : ℕ) (bytes : Bytes)
          → Reads id table r fetches bytes
          → (taken : ℕ) (got : Bytes) → unread r ≡ got ++ drop (r.pos + taken) r.buf
          → (later : Bytes) × (bytes ≡ got ++ later)
            × Reads id table (record r { pos = r.pos + taken }) fetches later
      kept fetches bytes (at_last f l) taken got held = (_, held, at_last f l)
      kept fetches bytes (before_last {rest = rest} f left) taken got held = (
        drop (r.pos + taken) r.buf ++ rest,
        ap (λ l. l ++ rest) held ∙ append_assoc got (drop (r.pos + taken) r.buf) rest,
        before_last f left,
      )

  -- The same stream under another name of its bytes, and the read after a step of the loop.
  ReadOut-step :
      (n : ℕ) (bytes bytes' : Bytes)
      (out out' : Option ((ℕ × SessionTable) × ChunkReader × Outcome IoError Bytes))
      → bytes ≡ bytes'
      → out ≡ out'
      → ReadOut n bytes' out'
      → ReadOut n bytes out
  ReadOut-step n bytes bytes' out out' same step t = record {
    rid = t.rid;
    after = t.after;
    reader = t.reader;
    got = t.got;
    later = t.later;
    fetches = t.fetches;
    returned = step ∙ t.returned;
    parts = same ∙ t.parts;
    next = t.next;
    bounded = t.bounded;
    at_end = λ e. let (none_left, seen) = t.at_end e in (same ∙ none_left, seen);
  }

  -- The buffer is used up: the stream has ended, or a fetch refills it.
  used-ReadOut :
      (fuel fetches n rid : ℕ) (table : SessionTable) (r : ChunkReader) (bytes : Bytes)
      → ltb r.pos (length r.buf) ≡ false
      → fetches < suc fuel
      → Reads id table r fetches bytes
      → ((fetches' rid' : ℕ) (table' : SessionTable) (r' : ChunkReader) (bytes' : Bytes)
          → fetches' < fuel
          → Reads id table' r' fetches' bytes'
          → ReadOut n bytes' (read_chunk (call_next read_next lossy body) fuel n (rid', table') r'))
      → ReadOut n bytes (read_chunk (call_next read_next lossy body) (suc fuel) n (rid, table) r)
  unfolding read_chunk
  used-ReadOut fuel fetches n rid table r bytes used enough (at_last f l) more = record {
    rid = rid;
    after = table;
    reader = r;
    got = [];
    later = unread r;
    fetches = 0;
    returned = rw (used, f) refl;
    parts = refl;
    next = at_last f l;
    bounded = omega arith;
    at_end = λ e. (drop_all r.pos r.buf (ground (arith, used)), l);
  }
  used-ReadOut fuel fetches n rid table r bytes used enough (before_last {rest = rest} f left)
        more =
      let call = call_next read_next lossy body in
      let t = Left-Fetch rid table left in
      let r' : ChunkReader = refilled r t.chunk t.last in
      let empty : unread r ++ rest ≡ t.chunk ++ t.later =
        ap (λ l. l ++ rest) (drop_all r.pos r.buf (ground (arith, used))) ∙ t.parts in
      let step : read_chunk call (suc fuel) n (rid, table) r
          ≡ read_chunk call fuel n ((rid + 1) % 2 ^ 64, t.after) r' =
        if_false _ _ used
        ∙ if_false _ _ f
        ∙ ap (λ o. after_fetch (read_chunk call fuel n) (fetched r o)) t.replied
        ∙ ap (after_fetch (read_chunk call fuel n)) (
            fetched-chunk_response r ((rid + 1) % 2 ^ 64, t.after) (next_request rid body) t.chunk
              t.last) in
      elim (t.goes_on) [
        | inl (final, nothing) ↦
            ReadOut-step n (unread r ++ rest) t.chunk _ _
              (empty ∙ ap (λ l. t.chunk ++ l) nothing ∙ append-nil t.chunk) step
              (more 0 ((rid + 1) % 2 ^ 64) t.after r' t.chunk (omega (arith, t.needed, enough))
                (at_last (ap (λ b. b || r.finished) final) (ap (λ b. b || r.last_seen) final)))
        | inr (not_final, (k, fewer, left')) ↦
            ReadOut-step n (unread r ++ rest) (t.chunk ++ t.later) _ _ empty step (
              more k ((rid + 1) % 2 ^ 64) t.after r' (t.chunk ++ t.later)
                (omega (arith, fewer, enough))
                (before_last (ap (λ b. b || r.finished) not_final ∙ f) left'))
      ]

  -- Reading a stream whose producer does not fail, into a buffer that is not empty: the read returns,
  -- without an error, the next bytes of the stream, and returns none only where none are left and the
  -- chunk that is marked as the last was seen. What is left is read by the next read. One round of
  -- fuel more than the fetches that are left is enough.
  pub read_chunk-ReadOut :
      (fuel fetches n rid : ℕ) (table : SessionTable) (r : ChunkReader) (bytes : Bytes)
      → 0 < n
      → fetches < fuel
      → Reads id table r fetches bytes
      → ReadOut n bytes (read_chunk (call_next read_next lossy body) fuel n (rid, table) r)
  read_chunk-ReadOut zero fetches n rid table r bytes pos enough state =
      absurd (omega (arith, enough))
  read_chunk-ReadOut (suc fuel) fetches n rid table r bytes pos enough state =
      elim (Bool-cases (ltb r.pos (length r.buf))) [
        | inl more ↦ buffered-ReadOut fuel fetches n rid table r bytes pos more state
        | inr used ↦
            used-ReadOut fuel fetches n rid table r bytes used enough state
              (λ k rid' table' r' b e s. read_chunk-ReadOut fuel k n rid' table' r' b pos e s)
      ]
