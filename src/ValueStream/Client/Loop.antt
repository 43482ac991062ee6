-- ===== src/ValueStream/Client/Loop.antt =====
-- The pull loop against the server's session: what it feeds to the decoder, and how it ends.
use mathlib.Core.List.{append-nil, append_assoc}
use repe_rs.Prelude.{
  ℕ, suc, ◌+◌, ◌%◌, ◌^◌, ◌≡◌, ◌≢◌, refl, sym, ap, ◌∙◌, Bytes, Bool, true, false, [], ◌++◌, Option,
  none, some, Outcome, ok, err, ◌==◌, ==_refl, if◌then◌else◌, insert_id, remove_id, find_id,
  find_id-insert_id, find_id-remove_id, arith,
}
use repe_rs.Constants.{ErrorCode}
use repe_rs.Error.{RepeError}
use repe_rs.Message.Builder.{build}
use repe_rs.Message.Response.{stamp_response_query, create_error_message}
use repe_rs.Client.{validate_response, code_or_parse_error}
use repe_rs.Constants.{error_code_to_u32, error_code_try_from}
use repe_rs.ValueStream.Producer.Chunks.{concat}
use repe_rs.ValueStream.Session.{
  Session, SessionTable, next_handler, next_read, next_pull, answer_pull, pull_once, chunk_response,
  error_like,
}
use repe_rs.ValueStream.Client.{Feed, PullResult, call_next, next_request, pull_loop, after_next}
use repe_rs.ValueStream.Client.Feeding.{absorb, concat-absorb, take_response-chunk_response}

-- The table with a session put back, or without it.
abbrev pub with_session : ℕ → Session → SessionTable → SessionTable
with_session id s table = record table { sessions = insert_id id s table.sessions }

abbrev pub without_session : ℕ → SessionTable → SessionTable
without_session id table = record table { sessions = remove_id id table.sessions }

-- The rest of a transfer: the loop ends with `result`, the decoder has been given `bytes` more, and
-- the session is gone, with every other left as it was.
pub record Transferred (id : ℕ) (table : SessionTable) (f : Feed) (bytes : Bytes)
    (result : Outcome RepeError (Unit {0})) (out : PullResult (ℕ × SessionTable)) : Type 0 where
  pub rid : ℕ
  pub after : SessionTable
  pub feed : Feed
  pub returned : out ≡ some ((rid, after), feed, result)
  pub fed : concat feed.fed ≡ concat f.fed ++ bytes
  pub gone : find_id id after.sessions ≡ none
  pub others : (j : ℕ) → j ≢ id → find_id j after.sessions ≡ find_id j table.sessions

find_id-without_session :
    (id j : ℕ) (s : Session) (table : SessionTable)
    → find_id j (without_session id (with_session id s table)).sessions
      ≡ (if id == j then none else find_id j table.sessions)
find_id-without_session id j s table = ground (
  arith,
  find_id-remove_id j id (insert_id id s table.sessions),
  find_id-insert_id j id s table.sessions,
)

-- The last pull.
Transferred-end :
    (id rid : ℕ) (table : SessionTable) (s : Session) (f feed : Feed) (bytes : Bytes)
    (result : Outcome RepeError (Unit {0})) (out : PullResult (ℕ × SessionTable))
    → concat feed.fed ≡ concat f.fed ++ bytes
    → out ≡ some ((rid, without_session id (with_session id s table)), feed, result)
    → Transferred id table f bytes result out
Transferred-end id rid table s f feed bytes result out fed returned = record {
  rid = rid;
  after = without_session id (with_session id s table);
  feed = feed;
  returned = returned;
  fed = fed;
  gone =
      find_id-without_session id id s table
      ∙ ap (λ b. if b then none else find_id id table.sessions) (==_refl id);
  others = λ j other. ground (arith, find_id-without_session id j s table, other);
}

-- A pull before the rest.
pub Transferred-more :
    (id : ℕ) (table : SessionTable) (s : Session) (f : Feed) (c bytes : Bytes)
    (result : Outcome RepeError (Unit {0})) (out out' : PullResult (ℕ × SessionTable))
    → out ≡ out'
    → Transferred id (with_session id s table) (absorb c f) bytes result out'
    → Transferred id table f (c ++ bytes) result out
Transferred-more id table s f c bytes result out out' e t = record {
  rid = t.rid;
  after = t.after;
  feed = t.feed;
  returned = e ∙ t.returned;
  fed = t.fed ∙ ap (λ l. l ++ bytes) (concat-absorb c f) ∙ append_assoc (concat f.fed) c bytes;
  gone = t.gone;
  others =
      λ j other. ground (arith, t.others j other, find_id-insert_id j id s table.sessions, other);
}

module _ (read_next : Bytes → Option ℕ) (lossy : Bytes → Bytes) (body : Bytes) (id : ℕ)
    (reads : read_next body ≡ some id) where
  pub call_next-chunk :
      (rid : ℕ) (table : SessionTable) (s s' : Session) (c : Bytes) (last : Bool)
      → find_id id table.sessions ≡ some s
      → pull_once s ≡ (s', ok (c, last))
      → call_next read_next lossy body (rid, table) ≡ (
        (
          (rid + 1) % 2 ^ 64,
          if last then without_session id (with_session id s' table) else with_session id s' table,
        ),
        ok (chunk_response (next_request rid body) c last),
      )
  unfolding call_next next_handler next_read next_pull answer_pull chunk_response next_request build
      stamp_response_query validate_response error_code_to_u32
  call_next-chunk rid table s s' c last found pulled = rw (reads, found, pulled, ==_refl rid) refl

  call_next-error :
      (rid : ℕ) (table : SessionTable) (s s' : Session) (e : Bytes)
      → find_id id table.sessions ≡ some s
      → pull_once s ≡ (s', err e)
      → call_next read_next lossy body (rid, table) ≡ (
        ((rid + 1) % 2 ^ 64, without_session id (with_session id s' table)),
        err (RepeError.server_error ErrorCode.internal_error (lossy e)),
      )
  unfolding call_next next_handler next_read next_pull answer_pull error_like create_error_message
      next_request build stamp_response_query validate_response error_code_to_u32
      error_code_try_from code_or_parse_error
  call_next-error rid table s s' e found pulled = rw (reads, found, pulled, ==_refl rid) refl

  abbrev loop : ℕ → ℕ → SessionTable → Feed → PullResult (ℕ × SessionTable)
  loop fuel rid table f = pull_loop (call_next read_next lossy body) fuel (rid, table) f

  abbrev next_rid : ℕ → ℕ
  next_rid rid = (rid + 1) % 2 ^ 64

  pub loop_more :
      (fuel rid : ℕ) (table : SessionTable) (s s' : Session) (c : Bytes) (f : Feed)
      → f.takes ≡ none
      → find_id id table.sessions ≡ some s
      → pull_once s ≡ (s', ok (c, false))
      → loop (suc fuel) rid table f
        ≡ loop fuel (next_rid rid) (with_session id s' table) (absorb c f)
  unfolding pull_loop after_next
  loop_more fuel rid table s s' c f stays found pulled =
      ap (after_next (pull_loop (call_next read_next lossy body) fuel) f)
        (call_next-chunk rid table s s' c false found pulled)
      ∙ take_response-chunk_response (pull_loop (call_next read_next lossy body) fuel) _
          (next_request rid body) c false f stays

  pub loop_last :
      (fuel rid : ℕ) (table : SessionTable) (s s' : Session) (c : Bytes) (f : Feed)
      → f.takes ≡ none
      → find_id id table.sessions ≡ some s
      → pull_once s ≡ (s', ok (c, true))
      → Transferred id table f c (ok tt) (loop (suc fuel) rid table f)
  unfolding pull_loop after_next
  loop_last fuel rid table s s' c f stays found pulled =
      Transferred-end id (next_rid rid) table s' f (absorb c f) c (ok tt) _ (concat-absorb c f) (
        ap (after_next (pull_loop (call_next read_next lossy body) fuel) f)
          (call_next-chunk rid table s s' c true found pulled)
        ∙ take_response-chunk_response (pull_loop (call_next read_next lossy body) fuel) _
            (next_request rid body) c true f stays)

  pub loop_error :
      (fuel rid : ℕ) (table : SessionTable) (s s' : Session) (e : Bytes) (f : Feed)
      → find_id id table.sessions ≡ some s
      → pull_once s ≡ (s', err e)
      → Transferred id table f []
          (err (RepeError.server_error ErrorCode.internal_error (lossy e)))
          (loop (suc fuel) rid table f)
  unfolding pull_loop after_next
  loop_error fuel rid table s s' e f found pulled =
      Transferred-end id (next_rid rid) table s' f f [] _ _ (sym (append-nil _)) (
        ap (after_next (pull_loop (call_next read_next lossy body) fuel) f)
          (call_next-error rid table s s' e found pulled))
