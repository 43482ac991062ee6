-- ===== src/ValueStream/Producer/Framing.antt =====
-- What a producer sends in all: the chunks, and one marker that ends them.
use mathlib.Core.List.{append-nil, map-append}
use mathlib.Core.Option
use repe_rs.Prelude.{
  ℕ, ◌<◌, ◌≡◌, ◌⊎◌, inl, inr, Bytes, List, [], ◌∷◌, ◌++◌, map, Option, none, some, ok, err, refl,
  sym, ap, ◌∙◌, subst, length, All, arith,
}
use repe_rs.ValueStream.Producer.{
  Msg, Sender, ChunkSink, flush_remaining, after_write, complete, run_body, terminal, produce,
  encoded, Body, StreamOpts,
}
use repe_rs.ValueStream.Producer.Chunks.{
  concat, concat-append, HasLength, IsSink, run_writes-Ended, send_alive,
}

-- `bytes` cut into chunks of `n` bytes, with a shorter one at the end if they do not come out even.
pub record Cuts (n : ℕ) (bytes : Bytes) (chunks : List Bytes) : Type 0 where
  pub full : List Bytes
  pub last : List Bytes
  pub parts : chunks ≡ full ++ last
  pub whole : concat chunks ≡ bytes
  pub size : All (HasLength n) full
  pub short : (last ≡ []) ⊎ ((c : Bytes) × (last ≡ c ∷ []) × (0 < length c) × (length c < n))

-- The channel, and the sink on it, before the first write.
abbrev pub fresh : Sender
fresh = record { sent = []; sends_left = none }

abbrev sink_of : ℕ → ChunkSink
sink_of n = record { tx = fresh; buf = []; chunk_bytes = n }

-- A body without an error of its own.
pub record Completes (n : ℕ) (bytes : Bytes) (out : Option Sender) : Type 0 where
  pub chunks : List Bytes
  pub after : Sender
  pub returned : out ≡ some after
  pub sent : after.sent ≡ map Msg.chunk chunks ++ (Msg.finish ∷ [])
  pub cuts : Cuts n bytes chunks

-- A body that fails: some full chunks of what it wrote, and its error.
pub record Breaks (n : ℕ) (bytes e : Bytes) (out : Option Sender) : Type 0 where
  pub chunks : List Bytes
  pub unsent : Bytes
  pub after : Sender
  pub returned : out ≡ some after
  pub sent : after.sent ≡ map Msg.chunk chunks ++ (Msg.fail e ∷ [])
  pub size : All (HasLength n) chunks
  pub prefix : concat chunks ++ unsent ≡ bytes
  pub rest_short : length unsent < n

-- The marker behind what was sent.
terminal_sent :
    (tx : Sender) (b : Bytes) (m : ℕ)
    → tx.sends_left ≡ none
    → (terminal (record { tx = tx; buf = b; chunk_bytes = m }, ok tt)).sent
      ≡ tx.sent ++ (Msg.finish ∷ [])
unfolding terminal
terminal_sent tx b m alive = ap (λ o. o.0.sent) (send_alive Msg.finish tx alive)

module _ (n : ℕ) (pos : 0 < n) where
  -- The last short chunk, if there is one, and the marker.
  finish-Completes :
      (tx : Sender) (b : Bytes) (m : ℕ) (chunks : List Bytes) (bytes : Bytes)
      → tx.sends_left ≡ none
      → length b < n
      → tx.sent ≡ map Msg.chunk chunks
      → All (HasLength n) chunks
      → concat chunks ++ b ≡ bytes
      → Completes n bytes
          (some (terminal (flush_remaining (record { tx = tx; buf = b; chunk_bytes = m }))))
  unfolding flush_remaining
  finish-Completes tx [] m chunks bytes alive short sent full kept = record {
    chunks = chunks;
    after = terminal (record { tx = tx; buf = []; chunk_bytes = m }, ok tt);
    returned = refl;
    sent = terminal_sent tx [] m alive ∙ ap (λ l. l ++ (Msg.finish ∷ [])) sent;
    cuts = record {
      full = chunks;
      last = [];
      parts = sym (append-nil chunks);
      whole = sym (append-nil (concat chunks)) ∙ kept;
      size = full;
      short = inl refl;
    };
  }
  finish-Completes tx (c ∷ b) m chunks bytes alive short sent full kept =
      let last : Bytes = c ∷ b in
      let tx' : Sender = record tx { sent = tx.sent ++ (Msg.chunk last ∷ []) } in
      record {
        chunks = chunks ++ (last ∷ []);
        after = terminal (record { tx = tx'; buf = []; chunk_bytes = m }, ok tt);
        returned =
            ap (λ o. some (terminal (record { tx = o.0; buf = []; chunk_bytes = m }, o.1)))
              (send_alive (Msg.chunk last) tx alive);
        sent =
            terminal_sent tx' [] m alive
            ∙ ap (λ l. (l ++ (Msg.chunk last ∷ [])) ++ (Msg.finish ∷ [])) sent
            ∙ ap (λ l. l ++ (Msg.finish ∷ [])) (sym (map-append Msg.chunk chunks (last ∷ [])));
        cuts = record {
          full = chunks;
          last = last ∷ [];
          parts = refl;
          whole =
              concat-append chunks (last ∷ [])
              ∙ ap (λ l. concat chunks ++ l) (append-nil last)
              ∙ kept;
          size = full;
          short = inr (last, refl, omega arith, short);
        };
      }

  fresh-IsSink : IsSink n (sink_of n)
  fresh-IsSink = record { size = refl; short = pos; alive = refl }

  -- A body without an error of its own is sent whole: the chunks that reach the channel are the bytes
  -- that it wrote, in order, cut by the chunk size alone (how the body split its writes leaves no
  -- trace), and one `End` closes them. The chunk size is not 0 and the receiver stays.
  pub produce-Completes :
      (encode : Body → Body) (body : Body) (opts : StreamOpts)
      → opts.chunk_bytes ≡ n
      → (encoded encode opts.compression body).failure ≡ none
      → Completes n
          (concat (encoded encode opts.compression body).writes)
          (produce encode body fresh opts)
  unfolding produce run_body
  produce-Completes encode body opts size clean =
      let out = encoded encode opts.compression body in
      let w = run_writes-Ended n pos out.writes (sink_of n) fresh-IsSink in
      let done =
        finish-Completes w.after.tx w.after.buf w.after.chunk_bytes w.wrote.chunks
          (concat out.writes) w.wrote.still.alive w.wrote.still.short w.wrote.sent w.wrote.full
          w.wrote.kept in
      subst (Completes n (concat out.writes))
        (sym (
          ap (λ k. Option.map terminal (run_body out (sink_of k))) size
          ∙ ap (λ o. Option.map terminal (after_write (complete out.failure) o)) w.returned
          ∙ ap (λ o. Option.map terminal (complete o w.after)) clean))
        done

  -- A body that fails ends in `Fail` with its error, and never in `End`: what reaches the channel
  -- before it are full chunks of what the body wrote, less than one chunk short of all of it.
  pub produce-Breaks :
      (encode : Body → Body) (body : Body) (opts : StreamOpts) (e : Bytes)
      → opts.chunk_bytes ≡ n
      → (encoded encode opts.compression body).failure ≡ some e
      → Breaks n
          (concat (encoded encode opts.compression body).writes)
          e
          (produce encode body fresh opts)
  unfolding produce run_body
  produce-Breaks encode body opts e size broken =
      let out = encoded encode opts.compression body in
      let w = run_writes-Ended n pos out.writes (sink_of n) fresh-IsSink in
      let done : Breaks n (concat out.writes) e (some (terminal (w.after, err e))) = record {
        chunks = w.wrote.chunks;
        unsent = w.after.buf;
        after = terminal (w.after, err e);
        returned = refl;
        sent =
            unfold terminal in
            (ap (λ o. o.0.sent) (send_alive (Msg.fail e) w.after.tx w.wrote.still.alive)
              ∙ ap (λ l. l ++ (Msg.fail e ∷ [])) w.wrote.sent);
        size = w.wrote.full;
        prefix = w.wrote.kept;
        rest_short = w.wrote.still.short;
      } in
      subst (Breaks n (concat out.writes) e)
        (sym (
          ap (λ k. Option.map terminal (run_body out (sink_of k))) size
          ∙ ap (λ o. Option.map terminal (after_write (complete out.failure) o)) w.returned
          ∙ ap (λ o. Option.map terminal (complete o w.after)) broken))
        done
