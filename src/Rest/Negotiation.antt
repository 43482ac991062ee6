-- ===== src/Rest/Negotiation.antt =====
-- src/rest.rs: the representation that a request accepts, and the validators.
pub mod Best
pub mod Tags
use Prim.Native.Nat.{bit_xor}
use repe_rs.Prelude.{
  ℕ, ◌+◌, ◌*◌, ◌%◌, ◌^◌, Bytes, Bool, true, false, ◌&&◌, ◌||◌, List, [], ◌∷◌, ◌++◌, Option, none,
  some, ltb, leb, ◌==◌, if◌then◌else◌, ascii, hex_padded,
}
use repe_rs.Constants.{BodyFormat}
use repe_rs.JsonPointer.{split}
use repe_rs.Server.{same_text, strip_prefix}
use repe_rs.Rest.Path.{skip_one}

pub data Repr : Type 0 where
  json beve : Repr

abbrev pub media_json : Bytes
media_json = ascii "application/json"

abbrev pub media_beve : Bytes
media_beve = ascii "application/x-beve"

unfoldable pub media_type : Repr → Bytes
media_type Repr.json = media_json
media_type Repr.beve = media_beve

unfoldable pub repr_body_format : Repr → BodyFormat
repr_body_format Repr.json = BodyFormat.json
repr_body_format Repr.beve = BodyFormat.beve

unfoldable pub from_body_format : BodyFormat → Repr
from_body_format BodyFormat.beve = Repr.beve
from_body_format _ = Repr.json

-- `to_ascii_lowercase`
unfoldable pub to_ascii_lowercase : Bytes → Bytes
to_ascii_lowercase [] = []
to_ascii_lowercase (c ∷ rest) =
    (if leb b'A' c && leb c b'Z' then c + 32 else c) ∷ to_ascii_lowercase rest

abbrev first_piece : List Bytes → Bytes
first_piece [] = []
first_piece (piece ∷ pieces) = piece

-- A `match` on a text whose arm has several.
unfoldable pub one_of : Bytes → List Bytes → Bool
unfolding same_text
one_of text [] = false
one_of text (t ∷ texts) = same_text text t || one_of text texts

-- The representation that a media range asks for.
unfoldable pub repr_of : Bytes → Option Repr
unfolding one_of
repr_of media =
    if one_of media (media_beve ∷ ascii "application/beve" ∷ [])
    then some Repr.beve
    else if one_of media (media_json ∷ ascii "application/*" ∷ ascii "*/*" ∷ [])
    then some Repr.json
    else none

-- `is_none_or(|(best_quality, _)| quality > best_quality)`
abbrev pub beats : ℕ → Option (ℕ × Repr) → Bool
beats quality none = true
beats quality (some (best, repr)) = ltb best quality

-- What an entry does to the best one so far.
abbrev pub consider : ℕ → Option Repr → Option (ℕ × Repr) → Option (ℕ × Repr)
consider quality none best = best
consider quality (some repr) best =
    if quality == 0 then best else if beats quality best then some (quality, repr) else best

abbrev pub repr_or_json : Option (ℕ × Repr) → Repr
repr_or_json none = Repr.json
repr_or_json (some (quality, repr)) = repr

-- `strip_prefix("q=").or_else(|| strip_prefix("Q="))`, and what is parsed of it.
abbrev weight_of : (Bytes → ℕ) → Option Bytes → Option Bytes → ℕ → ℕ
weight_of parse_quality (some value) upper quality = parse_quality value
weight_of parse_quality none (some value) quality = parse_quality value
weight_of parse_quality none none quality = quality

module _ (trim : Bytes → Bytes) where
  unfoldable pub bare_media : Bytes → ℕ → Bytes
  unfolding split to_ascii_lowercase
  bare_media value delimiter = to_ascii_lowercase (trim (first_piece (split delimiter value)))

  module _ (parse_quality : Bytes → ℕ) where
    -- The loop over an entry's parameters.
    unfoldable pub quality_loop : ℕ → List Bytes → ℕ
    unfolding strip_prefix
    quality_loop quality [] = quality
    quality_loop quality (param ∷ params) =
        let p = trim param in
        quality_loop
          (weight_of parse_quality (strip_prefix (ascii "q=") p) (strip_prefix (ascii "Q=") p)
            quality)
          params

    -- The loop over the entries.
    unfoldable pub negotiate_loop : Option (ℕ × Repr) → List Bytes → Option (ℕ × Repr)
    unfolding bare_media quality_loop repr_of split
    negotiate_loop best [] = best
    negotiate_loop best (entry ∷ entries) =
        negotiate_loop
          (consider (quality_loop 1000 (skip_one (split b';' entry)))
            (repr_of (bare_media entry b';')) best)
          entries

    unfoldable pub negotiate : Option Bytes → Repr
    unfolding negotiate_loop split
    negotiate none = Repr.json
    negotiate (some accept) = repr_or_json (negotiate_loop none (split b',' accept))

  abbrev strip_weak : Bytes → Option Bytes → Bytes
  strip_weak candidate none = candidate
  strip_weak candidate (some rest) = rest

  -- The `any` over the candidates.
  unfoldable pub any_matches : Bytes → List Bytes → Bool
  unfolding same_text strip_prefix
  any_matches etag [] = false
  any_matches etag (piece ∷ pieces) =
      let candidate = trim piece in
      same_text candidate (ascii "*")
      || (same_text (strip_weak candidate (strip_prefix (ascii "W/") candidate)) etag
          || any_matches etag pieces)

  unfoldable pub if_none_match_matches : Bytes → Bytes → Bool
  unfolding any_matches split
  if_none_match_matches header etag = any_matches etag (split b',' header)

-- The hash of `etag_for`, in a word of 64 bits.
unfoldable pub hash_loop : ℕ → Bytes → ℕ
hash_loop hash [] = hash
hash_loop hash (byte ∷ rest) = hash_loop (bit_xor hash byte * 0x100000001b3 % 2 ^ 64) rest

unfoldable pub etag_for : Bytes → Bytes
unfolding hash_loop hex_padded
etag_for body = ascii "\"" ++ (hex_padded 16 (hash_loop 0xcbf29ce484222325 body) ++ ascii "\"")
