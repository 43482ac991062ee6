-- ===== src/Io/Writing.antt =====
-- The writers of a message: what the transport has taken after them, and how they fail.
use mathlib.Core.List.{append-nil, append_assoc}
use repe_rs.Prelude.{
  ◌+◌, ◌<◌, ◌^◌, ◌≡◌, ◌≢◌, Bytes, [], ◌∷◌, ◌++◌, Outcome, ok, err, panic, ◌>>=◌, refl, sym, ap, ◌∙◌,
  subst, length, lt→ltb, arith,
}
use repe_rs.Error.{RepeError}
use repe_rs.Header.{Header, encode}
use repe_rs.Message.{Message, to_vec}
use repe_rs.Message.Wire.{to_vec-eq}
use repe_rs.Io.{WriteAll, IsWriter, write_part, write_message, write_message_streaming}

module _ {W : Type 0} (write_all : WriteAll W) (taken : W → Bytes) where
  -- What a writer of a frame leaves: either it returns, and the transport has taken the frame behind
  -- what it had, or it ends as one write of the transport did that did not return, when the transport
  -- had taken the frame up to the piece of that write.
  pub data Wrote (w : W) (frame : Bytes) (out : Outcome RepeError W) : Type 0 where
    all : (w' : W) → out ≡ ok w' → taken w' ≡ taken w ++ frame → Wrote w frame out
    stopped :
        (v : W) (done piece rest : Bytes)
        → frame ≡ done ++ (piece ++ rest)
        → taken v ≡ taken w ++ done
        → out ≡ write_all v piece
        → ((v' : W) → out ≢ ok v')
        → Wrote w frame out

  -- The same frame under another name.
  pub Wrote-renamed :
      {w : W} {frame frame' : Bytes} {out : Outcome RepeError W}
      → frame ≡ frame'
      → Wrote w frame out
      → Wrote w frame' out
  Wrote-renamed {w} {out = out} e t = subst (λ f. Wrote w f out) e t

  module _ (law : IsWriter write_all taken) where
    write_all-Wrote : (w : W) (b : Bytes) → Wrote w b (write_all w b)
    write_all-Wrote w b = go (write_all w b) refl
      where
        go : (out : Outcome RepeError W) → write_all w b ≡ out → Wrote w b out
        go (ok w') e = all w' refl (law.takes_all w w' b e)
        go (err x) e =
            stopped w [] b [] (sym (append-nil b)) (sym (append-nil (taken w))) (sym e)
              (λ v' q. cc q)
        go panic e =
            stopped w [] b [] (sym (append-nil b)) (sym (append-nil (taken w))) (sym e)
              (λ v' q. cc q)

    -- Skipping an empty part is writing nothing.
    write_part-Wrote : (w : W) (part : Bytes) → Wrote w part (write_part write_all w part)
    write_part-Wrote w [] = all w refl (sym (append-nil (taken w)))
    write_part-Wrote w (b ∷ part) = write_all-Wrote w (b ∷ part)

    -- A piece, and the rest of the frame behind it.
    bind-Wrote :
        (w : W) (a b : Bytes) (out : Outcome RepeError W) (next : W → Outcome RepeError W)
        → Wrote w a out
        → ((v : W) → Wrote v b (next v))
        → Wrote w (a ++ b) (out >>= next)
    bind-Wrote w a b out next (all v e t) more =
        subst (λ o. Wrote w (a ++ b) (o >>= next)) (sym e) (behind (more v))
      where
        behind : Wrote v b (next v) → Wrote w (a ++ b) (next v)
        behind (all w' e' t') = all w' e' (t' ∙ ap (λ l. l ++ b) t ∙ append_assoc (taken w) a b)
        behind (stopped x done piece rest parts t' e' fails) =
            stopped x (a ++ done) piece rest
              (ap (λ l. a ++ l) parts ∙ sym (append_assoc a done (piece ++ rest)))
              (t' ∙ ap (λ l. l ++ done) t ∙ append_assoc (taken w) a done) e' fails
    bind-Wrote w a b out next (stopped v done piece rest parts t e fails) more =
        stopped v done piece (rest ++ b)
          (ap (λ l. l ++ b) parts
            ∙ append_assoc done (piece ++ rest) b
            ∙ ap (λ l. done ++ l) (append_assoc piece rest b))
          t (same out fails ∙ e) (λ v' q. fails v' (sym (same out fails) ∙ q))
      where
        same : (o : Outcome RepeError W) → ((v' : W) → o ≢ ok v') → (o >>= next) ≡ o
        same (ok x) n = absurd (n x refl)
        same (err x) n = refl
        same panic n = refl

    -- Writing a message returns only when the transport has taken its whole wire form, behind what it
    -- had taken before. Otherwise it ends, in an error or a panic, as the one write did that failed, and
    -- before that write the transport had taken the wire form up to there.
    pub write_message-to_vec :
        (w : W) (m : Message) → Wrote w (to_vec m) (write_message write_all w m)
    unfolding write_message
    write_message-to_vec w m = Wrote-renamed (sym (to_vec-eq m)) (
        bind-Wrote w (encode m.header) (m.query ++ m.body) _ _ (write_all-Wrote w (encode m.header))
          (λ v.
            bind-Wrote v m.query m.body _ _ (write_part-Wrote v m.query)
              (λ x. write_part-Wrote x m.body)))

    -- A streamed body that writes the bytes it announced makes the frame of the message with those
    -- bytes, whatever lengths the header held before.
    pub write_message_streaming-to_vec :
        (w : W) (header : Header) (query body : Bytes)
        → 48 + length query + length body < 2 ^ 64
        → Wrote w
            (to_vec (record {
              header = record header {
                query_length = length query;
                body_length = length body;
                length = 48 + length query + length body;
              };
              query = query;
              body = body;
            }))
            (write_message_streaming write_all w header query (length body) (λ v. write_all v body))
    unfolding write_message_streaming
    write_message_streaming-to_vec w header query body small =
        rw
          (
            lt→ltb (48 + length query) (2 ^ 64) (omega arith),
            lt→ltb (48 + length query + length body) (2 ^ 64) small,
          )
          (Wrote-renamed (sym (to_vec-eq _)) (
            bind-Wrote w _ (query ++ body) _ _ (write_all-Wrote w _) (λ v.
              bind-Wrote v query body _ _ (write_part-Wrote v query)
                (λ x. write_all-Wrote x body))))
