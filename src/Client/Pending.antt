-- ===== src/Client/Pending.antt =====
-- The map of pending requests: who is answered, how often, and by what.
use repe_rs.Prelude.{
  ℕ, ◌+◌, ◌≤◌, ◌<◌, ◌^◌, ◌≡◌, refl, sym, ap, ◌∙◌, subst, Bool, true, false, List, [], ◌∷◌, map,
  Option, none, some, Outcome, ok, err, panic, ◌==◌, if◌then◌else◌, All, All-append, entries,
  entries-append, entries-insert_id, entries-remove_id, find_id, insert_id, remove_id,
  find_id-entries, arith,
}
use repe_rs.Error.{RepeError, IoError}
use repe_rs.Message.{Message}
use repe_rs.Client.{
  Client, start_call, remove_pending, deliver, dispatch_response, drain_with,
  clone_fatal_error_for_waiter, fail_all_pending, drop_client, interrupts, response_loop, connected,
  next_request_id,
}

-- A waiter stands under the id that its channel was made for.
abbrev IsOwn : ℕ × ℕ → Type 0
IsOwn (id, channel) = channel ≡ id

-- A message on a channel is a response to the channel's request.
abbrev IsAnswer : ℕ × Outcome RepeError Message → Type 0
IsAnswer (channel, ok response) = response.header.id ≡ channel
IsAnswer (channel, err e) = Unit
IsAnswer (channel, panic) = Unit

-- The answers that a request has or can still get.
abbrev pub answers : ℕ → Client → ℕ
answers id c = entries id c.pending + entries id c.delivered

pub record IsSound (c : Client) : Type 0 where
  pub own : All IsOwn c.pending
  pub matched : All IsAnswer c.delivered
  pub once : (id : ℕ) → answers id c ≤ 1
  pub fresh : (id : ℕ) → c.next_id ≤ id → answers id c ≡ 0

-- What the calls, the response loop and the end of a client do to it. An id is used again only after
-- 2 ^ 64 calls, which the first step leaves out.
pub data Step (c : Client) : Client → Type 0 where
  started : c.next_id + 1 < 2 ^ 64 → Step c ((start_call c).1)
  received : (response : Message) → Step c (dispatch_response response c)
  gave_up : (id : ℕ) → Step c (remove_pending id c)
  failed : (e : RepeError) → Step c (fail_all_pending e c)
  dropped : Step c (drop_client c)

pub data Run : Client → Type 0 where
  here : Run connected
  then_step : {c d : Client} → Run c → Step c d → Run d

find_id-IsOwn :
    (id : ℕ) (m : List (ℕ × ℕ)) (channel : ℕ)
    → All IsOwn m
    → find_id id m ≡ some channel
    → channel ≡ id
unfolding find_id
find_id-IsOwn id [] channel own e = cc e
find_id-IsOwn id ((k, v) ∷ m) channel (o, own) e =
    ground (arith, o, e, find_id-IsOwn id m channel own)

if-All :
    (b : Bool) (m n : List (ℕ × ℕ)) → All IsOwn m → All IsOwn n → All IsOwn (if b then m else n)
if-All true m n p q = p
if-All false m n p q = q

insert_id-IsOwn : (id : ℕ) (m : List (ℕ × ℕ)) → All IsOwn m → All IsOwn (insert_id id id m)
unfolding insert_id
insert_id-IsOwn id [] own = (refl, tt)
insert_id-IsOwn id ((k, v) ∷ m) (o, own) =
    if-All (k == id) _ _ (refl, own) (o, insert_id-IsOwn id m own)

remove_id-IsOwn : (id : ℕ) (m : List (ℕ × ℕ)) → All IsOwn m → All IsOwn (remove_id id m)
unfolding remove_id
remove_id-IsOwn id [] own = tt
remove_id-IsOwn id ((k, v) ∷ m) (o, own) =
    if-All (k == id) _ _ (remove_id-IsOwn id m own) (o, remove_id-IsOwn id m own)

abbrev drained : (ℕ → RepeError) → List (ℕ × ℕ) → List (ℕ × Outcome RepeError Message)
drained error m = map (λ w. (w.1, err (error w.0))) m

-- A drained waiter's error goes to its own channel.
entries-drained :
    (error : ℕ → RepeError) (id : ℕ) (m : List (ℕ × ℕ))
    → All IsOwn m
    → entries id (drained error m) ≡ entries id m
entries-drained error id [] own = refl
entries-drained error id ((k, v) ∷ m) (o, own) =
    rw o (ap (λ n. (if k == id then 1 else 0) + n) (entries-drained error id m own))

drained-IsAnswer : (error : ℕ → RepeError) (m : List (ℕ × ℕ)) → All IsAnswer (drained error m)
drained-IsAnswer error [] = tt
drained-IsAnswer error (w ∷ m) = (tt, drained-IsAnswer error m)

-- Draining answers every waiter, and leaves none.
answers-drain_with :
    (error : ℕ → RepeError) (c : Client)
    → IsSound c
    → (id : ℕ) → answers id (drain_with error c) ≡ answers id c
unfolding drain_with
answers-drain_with error c s id = omega (
  arith,
  entries-append id c.delivered (drained error c.pending),
  entries-drained error id c.pending s.own,
)

drain_with-IsSound : (error : ℕ → RepeError) (c : Client) → IsSound c → IsSound (drain_with error c)
unfolding drain_with
drain_with-IsSound error c s = record {
  own = tt;
  matched =
      All-append IsAnswer c.delivered (drained error c.pending) s.matched
        (drained-IsAnswer error c.pending);
  once = λ id. omega (arith, answers-drain_with error c s id, s.once id);
  fresh = λ id h. omega (arith, answers-drain_with error c s id, s.fresh id h);
}

remove_pending-IsSound : (id : ℕ) (c : Client) → IsSound c → IsSound (remove_pending id c)
unfolding remove_pending
remove_pending-IsSound id c s = record {
  own = remove_id-IsOwn id c.pending s.own;
  matched = s.matched;
  once = λ j. ground (arith, entries-remove_id j id c.pending, s.once j);
  fresh = λ j h. ground (arith, entries-remove_id j id c.pending, s.fresh j h);
}

start_call-IsSound : (c : Client) → c.next_id + 1 < 2 ^ 64 → IsSound c → IsSound ((start_call c).1)
unfolding start_call next_request_id
start_call-IsSound c h s = record {
  own = insert_id-IsOwn c.next_id c.pending s.own;
  matched = s.matched;
  once =
      λ j. ground (arith, entries-insert_id j c.next_id c.next_id c.pending, s.once j, s.fresh j);
  fresh = λ j g. ground (arith, h, g, entries-insert_id j c.next_id c.next_id c.pending, s.fresh j);
}

-- A response moves its request from the waiting ones to the answered ones.
answers-dispatch_response :
    (response : Message) (c : Client)
    → IsSound c
    → (id : ℕ) → answers id (dispatch_response response c) ≡ answers id c
unfolding dispatch_response deliver remove_pending
answers-dispatch_response response c s id = go (find_id response.header.id c.pending) refl
  where
    go :
        (w : Option ℕ)
        → find_id response.header.id c.pending ≡ w
        → answers id (deliver response w c) ≡ answers id c
    go none e = refl
    go (some channel) e =
        let own = find_id-IsOwn response.header.id c.pending channel s.own e in
        ground (
          arith,
          own,
          entries-remove_id id response.header.id c.pending,
          entries-append id c.delivered ((channel, ok response) ∷ []),
          find_id-entries response.header.id c.pending channel e,
          s.once id,
        )

dispatch_response-IsSound :
    (response : Message) (c : Client) → IsSound c → IsSound (dispatch_response response c)
unfolding dispatch_response deliver remove_pending
dispatch_response-IsSound response c s = record {
  own = owns (find_id response.header.id c.pending);
  matched = matched_by (find_id response.header.id c.pending) refl;
  once = λ id. omega (arith, answers-dispatch_response response c s id, s.once id);
  fresh = λ id h. omega (
    arith,
    answers-dispatch_response response c s id,
    s.fresh id (subst (λ n. n ≤ id) (counter (find_id response.header.id c.pending)) h),
  );
}
  where
    counter : (w : Option ℕ) → (deliver response w c).next_id ≡ c.next_id
    counter none = refl
    counter (some channel) = refl

    owns : (w : Option ℕ) → All IsOwn (deliver response w c).pending
    owns none = s.own
    owns (some channel) = remove_id-IsOwn response.header.id c.pending s.own

    matched_by :
        (w : Option ℕ)
        → find_id response.header.id c.pending ≡ w
        → All IsAnswer (deliver response w c).delivered
    matched_by none e = s.matched
    matched_by (some channel) e =
        All-append IsAnswer c.delivered ((channel, ok response) ∷ []) s.matched
          (sym (find_id-IsOwn response.header.id c.pending channel s.own e), tt)

Step-IsSound : {c d : Client} → Step c d → IsSound c → IsSound d
unfolding fail_all_pending drop_client
Step-IsSound {c} (started h) s = start_call-IsSound c h s
Step-IsSound {c} (received response) s = dispatch_response-IsSound response c s
Step-IsSound {c} (gave_up id) s = remove_pending-IsSound id c s
Step-IsSound {c} (failed e) s = drain_with-IsSound _ c s
Step-IsSound {c} dropped s = drain_with-IsSound _ c s

-- After any calls, responses (in whatever order, for whatever ids), timeouts, read failures and the
-- end of the client, in any interleaving that does not use an id twice: a request has been answered
-- at most once, not while it still waits, and every message on its channel is a response to its id.
pub Run-IsSound : {c : Client} → Run c → IsSound c
unfolding connected
Run-IsSound here = record { own = tt; matched = tt; once = λ id. omega arith; fresh = λ id h. refl }
Run-IsSound (then_step run step) = Step-IsSound step (Run-IsSound run)

-- The reads of a connection that dies: messages and interrupted reads, and an error that is neither.
pub data Dies (is_interrupted : IoError → Bool) : List (Outcome RepeError Message) → Type 0 where
  at :
      (e : RepeError) (more : List (Outcome RepeError Message))
      → interrupts is_interrupted e ≡ false
      → Dies is_interrupted (err e ∷ more)
  after_message :
      (response : Message) {more : List (Outcome RepeError Message)}
      → Dies is_interrupted more
      → Dies is_interrupted (ok response ∷ more)
  after_interrupt :
      (e : RepeError) {more : List (Outcome RepeError Message)}
      → interrupts is_interrupted e ≡ true
      → Dies is_interrupted more
      → Dies is_interrupted (err e ∷ more)

-- What the loop of a connection that dies leaves behind.
pub record Settled (before after : Client) : Type 0 where
  pub nobody_waits : after.pending ≡ []
  pub answered : (id : ℕ) → entries id after.delivered ≡ answers id before
  pub matched : All IsAnswer after.delivered

-- When a connection dies, the response loop leaves nobody waiting: every request that waited has
-- exactly one answer more (its response if that came, else the error), and no other request has one.
pub response_loop-settles :
    (is_interrupted : IoError → Bool) (reads : List (Outcome RepeError Message)) (c : Client)
    → Dies is_interrupted reads
    → IsSound c
    → Settled c (response_loop is_interrupted reads c)
unfolding response_loop
response_loop-settles is_interrupted reads c (at e more fatal) s =
    subst (λ b. Settled c (if b then response_loop is_interrupted more c else fail_all_pending e c))
      (sym fatal)
      (unfold fail_all_pending drain_with in
        (record {
          nobody_waits = refl;
          answered =
              λ id. omega (arith, answers-drain_with (clone_fatal_error_for_waiter e) c s id);
          matched = (drain_with-IsSound (clone_fatal_error_for_waiter e) c s).matched;
        }))
response_loop-settles is_interrupted reads c (after_message response {more} dies) s =
    let rest =
      response_loop-settles is_interrupted more (dispatch_response response c) dies
        (dispatch_response-IsSound response c s) in
    record {
      nobody_waits = rest.nobody_waits;
      answered = λ id. rest.answered id ∙ answers-dispatch_response response c s id;
      matched = rest.matched;
    }
response_loop-settles is_interrupted reads c (after_interrupt e {more} goes_on dies) s =
    subst (λ b. Settled c (if b then response_loop is_interrupted more c else fail_all_pending e c))
      (sym goes_on) (response_loop-settles is_interrupted more c dies s)
