-- ===== src/ValueStream/Client/Feeding.antt =====
-- One response in the pull loop, with a decoder that stays.
use mathlib.Core.List.{append-nil}
use repe_rs.Prelude.{
  ◌≡◌, refl, sym, ap, ◌∙◌, Bytes, Bool, true, false, [], ◌∷◌, ◌++◌, none, some, ok, if◌then◌else◌,
}
use repe_rs.Message.{Message}
use repe_rs.Message.Builder.{build}
use repe_rs.ValueStream.Producer.Chunks.{concat, concat-append}
use repe_rs.ValueStream.Session.{chunk_response}
use repe_rs.ValueStream.Client.{Feed, PullResult, take_response, feed_chunk, is_last}

-- The feed after a chunk: an empty one is not sent.
abbrev pub absorb : Bytes → Feed → Feed
absorb [] f = f
absorb (b ∷ c) f = record f { fed = f.fed ++ ((b ∷ c) ∷ []) }

pub absorb_takes : (c : Bytes) (f : Feed) → f.takes ≡ none → (absorb c f).takes ≡ none
absorb_takes [] f stays = stays
absorb_takes (b ∷ c) f stays = stays

pub concat-absorb : (c : Bytes) (f : Feed) → concat (absorb c f).fed ≡ concat f.fed ++ c
concat-absorb [] f = sym (append-nil _)
concat-absorb (b ∷ c) f =
    concat-append f.fed ((b ∷ c) ∷ []) ∙ ap (λ l. concat f.fed ++ l) (append-nil (b ∷ c))

feed_chunk_stays :
    (c : Bytes) (f : Feed)
    → f.takes ≡ none
    → feed_chunk c f ≡ (record f { fed = f.fed ++ (c ∷ []) }, true)
unfolding feed_chunk
feed_chunk_stays c f stays = rw stays refl

pub take_response-chunk_response :
    {S : Type 0} (more : S → Feed → PullResult S) (s : S) (request : Message) (c : Bytes)
    (last : Bool) (f : Feed)
    → f.takes ≡ none
    → take_response more s (chunk_response request c last) f
      ≡ (if last then some (s, absorb c f, ok tt) else more s (absorb c f))
unfolding take_response chunk_response build is_last
take_response-chunk_response more s request [] true f stays = refl
take_response-chunk_response more s request [] false f stays = refl
take_response-chunk_response more s request (b ∷ c) true f stays =
    rw (feed_chunk_stays (b ∷ c) f stays) refl
take_response-chunk_response more s request (b ∷ c) false f stays =
    rw (feed_chunk_stays (b ∷ c) f stays) refl
