-- ===== src/ValueStream/Client/Rounds.antt =====
-- The rounds of a transfer, from the messages that its producer sent.
use mathlib.Core.List.{append-nil}
use repe_rs.Prelude.{
  ℕ, zero, suc, ◌<◌, ◌≡◌, sym, ap, ◌∙◌, subst, Bytes, List, [], ◌∷◌, Option, none, some, ok, err,
  ==_refl, if◌then◌else◌, length, find_id, find_id-insert_id, arith,
}
use repe_rs.Constants.{ErrorCode}
use repe_rs.Error.{RepeError}
use repe_rs.ValueStream.Producer.{Msg}
use repe_rs.ValueStream.Producer.Chunks.{concat}
use repe_rs.ValueStream.Session.{Session, SessionTable}
use repe_rs.ValueStream.Session.Pulling.{
  opened, ahead, ended, pull_once-opened, pull_once-ahead, pull_once-opened_empty,
  pull_once-opened_last, pull_once-ahead_last, pull_once-opened_failed, pull_once-opened_broken,
  pull_once-ahead_broken,
}
use repe_rs.ValueStream.Client.{Feed, call_next, pull_loop}
use repe_rs.ValueStream.Client.Feeding.{absorb, absorb_takes}
use repe_rs.ValueStream.Client.Loop.{
  Transferred, Transferred-more, with_session, loop_more, loop_last, loop_error,
}

abbrev pub no_feed : Feed
no_feed = record { fed = []; takes = none }

abbrev pub all_but_last : List Bytes → List Bytes
all_but_last [] = []
all_but_last (c ∷ []) = []
all_but_last (c ∷ d ∷ rest) = c ∷ all_but_last (d ∷ rest)

pub find_id-with_session :
    (id : ℕ) (s : Session) (table : SessionTable)
    → find_id id (with_session id s table).sessions ≡ some s
find_id-with_session id s table =
    find_id-insert_id id id s table.sessions
    ∙ ap (λ b. if b then some s else find_id id table.sessions) (==_refl id)

-- The error that a pull of a failed stream returns.
abbrev pub failure : (Bytes → Bytes) → Bytes → RepeError
failure lossy e = RepeError.server_error ErrorCode.internal_error (lossy e)

module _ (read_next : Bytes → Option ℕ) (lossy : Bytes → Bytes) (body : Bytes) (id : ℕ)
    (reads : read_next body ≡ some id) where
  ahead-Transferred :
      (fuel rid : ℕ) (table : SessionTable) (f : Feed) (c : Bytes) (chunks : List Bytes)
      → f.takes ≡ none
      → find_id id table.sessions ≡ some (ahead c chunks Msg.finish)
      → length chunks < fuel
      → Transferred id table f
          (concat (c ∷ chunks))
          (ok tt)
          (pull_loop (call_next read_next lossy body) fuel (rid, table) f)
  ahead-Transferred zero rid table f c chunks stays found h = absurd (omega (arith, h))
  ahead-Transferred (suc fuel) rid table f c [] stays found h =
      subst
        (λ l.
          Transferred id table f l (ok tt)
            (pull_loop (call_next read_next lossy body) (suc fuel) (rid, table) f))
        (sym (append-nil c))
        (loop_last read_next lossy body id reads fuel rid table _ ended c f stays found
          (pull_once-ahead_last c))
  ahead-Transferred (suc fuel) rid table f c (d ∷ chunks) stays found h =
      let s' = ahead d chunks Msg.finish in
      Transferred-more id table s' f c (concat (d ∷ chunks)) (ok tt) _ _
        (loop_more read_next lossy body id reads fuel rid table _ s' c f stays found
          (pull_once-ahead c d chunks Msg.finish))
        (ahead-Transferred fuel _ (with_session id s' table) (absorb c f) d chunks
          (absorb_takes c f stays) (find_id-with_session id s' table) (omega (arith, h)))

  ahead-Transferred_broken :
      (fuel rid : ℕ) (table : SessionTable) (f : Feed) (c : Bytes) (chunks : List Bytes) (e : Bytes)
      → f.takes ≡ none
      → find_id id table.sessions ≡ some (ahead c chunks (Msg.fail e))
      → length chunks < fuel
      → Transferred id table f
          (concat (all_but_last (c ∷ chunks)))
          (err (failure lossy e))
          (pull_loop (call_next read_next lossy body) fuel (rid, table) f)
  ahead-Transferred_broken zero rid table f c chunks e stays found h = absurd (omega (arith, h))
  ahead-Transferred_broken (suc fuel) rid table f c [] e stays found h =
      loop_error read_next lossy body id reads fuel rid table _ ended e f found
        (pull_once-ahead_broken c e)
  ahead-Transferred_broken (suc fuel) rid table f c (d ∷ chunks) e stays found h =
      let s' = ahead d chunks (Msg.fail e) in
      Transferred-more id table s' f c (concat (all_but_last (d ∷ chunks))) (err (failure lossy e))
        _ _
        (loop_more read_next lossy body id reads fuel rid table _ s' c f stays found
          (pull_once-ahead c d chunks (Msg.fail e)))
        (ahead-Transferred_broken fuel _ (with_session id s' table) (absorb c f) d chunks e
          (absorb_takes c f stays) (find_id-with_session id s' table) (omega (arith, h)))

  pub opened-Transferred :
      (fuel rid : ℕ) (table : SessionTable) (f : Feed) (chunks : List Bytes)
      → f.takes ≡ none
      → find_id id table.sessions ≡ some (opened chunks Msg.finish)
      → length chunks < fuel
      → Transferred id table f
          (concat chunks)
          (ok tt)
          (pull_loop (call_next read_next lossy body) fuel (rid, table) f)
  opened-Transferred zero rid table f chunks stays found h = absurd (omega (arith, h))
  opened-Transferred (suc fuel) rid table f [] stays found h =
      loop_last read_next lossy body id reads fuel rid table _ ended [] f stays found
        pull_once-opened_empty
  opened-Transferred (suc fuel) rid table f (c ∷ []) stays found h =
      subst
        (λ l.
          Transferred id table f l (ok tt)
            (pull_loop (call_next read_next lossy body) (suc fuel) (rid, table) f))
        (sym (append-nil c))
        (loop_last read_next lossy body id reads fuel rid table _ ended c f stays found
          (pull_once-opened_last c))
  opened-Transferred (suc fuel) rid table f (c ∷ d ∷ chunks) stays found h =
      let s' = ahead d chunks Msg.finish in
      Transferred-more id table s' f c (concat (d ∷ chunks)) (ok tt) _ _
        (loop_more read_next lossy body id reads fuel rid table _ s' c f stays found
          (pull_once-opened c d chunks Msg.finish))
        (ahead-Transferred fuel _ (with_session id s' table) (absorb c f) d chunks
          (absorb_takes c f stays) (find_id-with_session id s' table) (omega (arith, h)))

  pub opened-Transferred_broken :
      (fuel rid : ℕ) (table : SessionTable) (f : Feed) (chunks : List Bytes) (e : Bytes)
      → f.takes ≡ none
      → find_id id table.sessions ≡ some (opened chunks (Msg.fail e))
      → length chunks < fuel
      → Transferred id table f
          (concat (all_but_last chunks))
          (err (failure lossy e))
          (pull_loop (call_next read_next lossy body) fuel (rid, table) f)
  opened-Transferred_broken zero rid table f chunks e stays found h = absurd (omega (arith, h))
  opened-Transferred_broken (suc fuel) rid table f [] e stays found h =
      loop_error read_next lossy body id reads fuel rid table _ ended e f found
        (pull_once-opened_failed e)
  opened-Transferred_broken (suc fuel) rid table f (c ∷ []) e stays found h =
      loop_error read_next lossy body id reads fuel rid table _ ended e f found
        (pull_once-opened_broken c e)
  opened-Transferred_broken (suc fuel) rid table f (c ∷ d ∷ chunks) e stays found h =
      let s' = ahead d chunks (Msg.fail e) in
      Transferred-more id table s' f c (concat (all_but_last (d ∷ chunks))) (err (failure lossy e))
        _ _
        (loop_more read_next lossy body id reads fuel rid table _ s' c f stays found
          (pull_once-opened c d chunks (Msg.fail e)))
        (ahead-Transferred_broken fuel _ (with_session id s' table) (absorb c f) d chunks e
          (absorb_takes c f stays) (find_id-with_session id s' table) (omega (arith, h)))
