-- ===== src/Rest/Negotiation/Tags.antt =====
-- What an `If-None-Match` header says of an entity tag.
use repe_rs.Prelude.{
  ◌≡◌, ◌↔◌, refl, ap, ◌∙◌, Bytes, Bool, true, false, ◌||◌, List, [], ◌∷◌, ◌++◌, none, ascii, inl,
  inr, Bool-cases, Option-cases,
}
use repe_rs.JsonPointer.{split}
use repe_rs.Server.{same_text, strip_prefix}
use repe_rs.Server.Route.{same_text-eq, same_text_refl, strip_prefix-eq}
use repe_rs.Rest.Negotiation.{any_matches, if_none_match_matches, etag_for}

module _ (trim : Bytes → Bytes) where
  -- A list of candidates names the tag: one of them, trimmed, is `*`, the tag, or the tag as a weak one.
  pub data Lists (tag : Bytes) : List Bytes → Type 0 where
    star :
        {piece : Bytes} {pieces : List Bytes} → trim piece ≡ ascii "*" → Lists tag (piece ∷ pieces)
    strong : {piece : Bytes} {pieces : List Bytes} → trim piece ≡ tag → Lists tag (piece ∷ pieces)
    weak :
        {piece : Bytes} {pieces : List Bytes}
        → trim piece ≡ ascii "W/" ++ tag
        → Lists tag (piece ∷ pieces)
    later : {piece : Bytes} {pieces : List Bytes} → Lists tag pieces → Lists tag (piece ∷ pieces)

  any_matches-Lists :
      (tag : Bytes) (pieces : List Bytes) → any_matches trim tag pieces ≡ true → Lists tag pieces
  unfolding any_matches
  any_matches-Lists tag [] e = cc e
  any_matches-Lists tag (piece ∷ pieces) e =
      elim (Bool-cases (same_text (trim piece) (ascii "*"))) [
        | inl p ↦ star (same_text-eq (trim piece) (ascii "*") p)
        | inr p ↦ elim (Option-cases (strip_prefix (ascii "W/") (trim piece))) [
          | inl q ↦ elim (Bool-cases (same_text (trim piece) tag)) [
            | inl r ↦ strong (same_text-eq (trim piece) tag r)
            | inr r ↦ later (any_matches-Lists tag pieces (rw (p, q, r) at e))
          ]
          | inr (rest, q) ↦ elim (Bool-cases (same_text rest tag)) [
            | inl r ↦ weak (
                strip_prefix-eq (ascii "W/") (trim piece) rest q
                ∙ ap (λ x. ascii "W/" ++ x) (same_text-eq rest tag r))
            | inr r ↦ later (any_matches-Lists tag pieces (rw (p, q, r) at e))
          ]
        ]
      ]

  or_true : (b : Bool) → (b || true) ≡ true
  or_true true = refl
  or_true false = refl

  Lists-any_matches :
      (tag : Bytes)
      → strip_prefix (ascii "W/") tag ≡ none
      → (pieces : List Bytes) → Lists tag pieces
      → any_matches trim tag pieces ≡ true
  unfolding any_matches
  Lists-any_matches tag s _ (star p) = rw (p, same_text_refl (ascii "*")) refl
  Lists-any_matches tag s _ (strong {piece = piece} p) = rw (p, s, same_text_refl tag) (or_true _)
  Lists-any_matches tag s _ (weak {piece = piece} p) = rw (p, same_text_refl tag) refl
  Lists-any_matches tag s _ (later {piece = piece} {pieces = pieces} t) =
      rw (Lists-any_matches tag s pieces t)
        (ap (λ b. same_text (trim piece) (ascii "*") || b) (or_true _) ∙ or_true _)

  -- The header's test of a body's tag, as the list of candidates between its commas.
  pub if_none_match_matches_iff :
      (header body : Bytes)
      → (if_none_match_matches trim header (etag_for body) ≡ true)
        ↔ Lists (etag_for body) (split b',' header)
  unfolding if_none_match_matches
  if_none_match_matches_iff header body = (
    any_matches-Lists (etag_for body) (split b',' header),
    Lists-any_matches (etag_for body) (unfold etag_for strip_prefix in refl) (split b',' header),
  )
