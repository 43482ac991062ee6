-- ===== src/ValueStream/Session/Pulling.antt =====
-- What the pulls of a session give, from the messages that its producer sent.
use repe_rs.Prelude.{◌≡◌, refl, true, false, Bytes, List, [], ◌∷◌, ◌++◌, map, none, some, ok, err}
use repe_rs.ValueStream.Producer.{Msg}
use repe_rs.ValueStream.Session.{Session, pull, pull_once, pull_first, pull_ahead, recv, ends}

-- A session whose producer sends `chunks` and then `end`, before its first pull.
abbrev pub opened : List Bytes → Msg → Session
opened chunks end = record {
  rx = map Msg.chunk chunks ++ (end ∷ []);
  lookahead = none;
  done = false;
}

-- The same after a pull, which has taken a chunk ahead.
abbrev pub ahead : Bytes → List Bytes → Msg → Session
ahead c chunks end = record {
  rx = map Msg.chunk chunks ++ (end ∷ []);
  lookahead = some c;
  done = false;
}

abbrev pub ended : Session
ended = record { rx = []; lookahead = none; done = true }

pub pull_once-opened :
    (c d : Bytes) (chunks : List Bytes) (end : Msg)
    → pull_once (opened (c ∷ d ∷ chunks) end) ≡ (ahead d chunks end, ok (c, false))
unfolding pull_once pull pull_first pull_ahead recv ends
pull_once-opened c d chunks end = refl

pub pull_once-ahead :
    (c d : Bytes) (chunks : List Bytes) (end : Msg)
    → pull_once (ahead c (d ∷ chunks) end) ≡ (ahead d chunks end, ok (c, false))
unfolding pull_once pull pull_first pull_ahead recv ends
pull_once-ahead c d chunks end = refl

pub pull_once-opened_empty : pull_once (opened [] Msg.finish) ≡ (ended, ok ([], true))
unfolding pull_once pull pull_first pull_ahead recv ends
pull_once-opened_empty = refl

pub pull_once-opened_last :
    (c : Bytes) → pull_once (opened (c ∷ []) Msg.finish) ≡ (ended, ok (c, true))
unfolding pull_once pull pull_first pull_ahead recv ends
pull_once-opened_last c = refl

pub pull_once-ahead_last : (c : Bytes) → pull_once (ahead c [] Msg.finish) ≡ (ended, ok (c, true))
unfolding pull_once pull pull_first pull_ahead recv ends
pull_once-ahead_last c = refl

pub pull_once-opened_failed : (e : Bytes) → pull_once (opened [] (Msg.fail e)) ≡ (ended, err e)
unfolding pull_once pull pull_first pull_ahead recv ends
pull_once-opened_failed e = refl

pub pull_once-opened_broken :
    (c e : Bytes) → pull_once (opened (c ∷ []) (Msg.fail e)) ≡ (ended, err e)
unfolding pull_once pull pull_first pull_ahead recv ends
pull_once-opened_broken c e = refl

pub pull_once-ahead_broken : (c e : Bytes) → pull_once (ahead c [] (Msg.fail e)) ≡ (ended, err e)
unfolding pull_once pull pull_first pull_ahead recv ends
pull_once-ahead_broken c e = refl
