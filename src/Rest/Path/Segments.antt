-- ===== src/Rest/Path/Segments.antt =====
-- The pointer of a path, token by token.
use repe_rs.Prelude.{
  ◌≡◌, ◌≢◌, refl, sym, ap, ◌∙◌, Bytes, true, List, [], ◌∷◌, ◌++◌, Outcome, ok, ◌>>=◌, >>=-eq-ok,
  is_empty, Bool-cases, inl, inr,
}
use repe_rs.JsonPointer.{
  addresses_root, starts_with, split, escape_token, push_tokens, canonical, parse,
}
use repe_rs.JsonPointer.Inverse.{parse-canonical}
use repe_rs.Rest.Path.{percent_decode, strip_slash, skip_one, push_segments, path_to_pointer}

-- The segments of a path; one slash at its end makes none.
abbrev pub segments : Bytes → List Bytes
segments path = skip_one (split b'/' (strip_slash path))

abbrev decode_each : List Bytes → Outcome Bytes (List Bytes)
decode_each [] = ok []
decode_each (s ∷ ss) = percent_decode s >>= λ t. decode_each ss >>= λ ts. ok (t ∷ ts)

-- The tokens that a path means, and the pointer that stands for them.
pub record Names (path pointer : Bytes) : Type 0 where
  pub tokens : List Bytes
  pub decoded : decode_each (segments path) ≡ ok tokens
  pub parsed : tokens ≢ [] ∷ [] → parse pointer ≡ ok tokens

push_segments-eq-ok :
    (segs : List Bytes) (pointer out : Bytes)
    → push_segments pointer segs ≡ ok out
    → (ts : List Bytes) × (decode_each segs ≡ ok ts) × (push_tokens pointer ts ≡ out)
unfolding push_segments push_tokens
push_segments-eq-ok [] pointer out e = ([], refl, cc e)
push_segments-eq-ok (s ∷ segs) pointer out e =
    let (t, decoded, rest) = >>=-eq-ok (percent_decode s) _ e in
    let (ts, all, pushed) =
      push_segments-eq-ok segs ((pointer ++ (b'/' ∷ [])) ++ escape_token t) out rest in
    (
      t ∷ ts,
      ap (λ o. o >>= λ t. decode_each segs >>= λ ts. ok (t ∷ ts)) decoded
          ∙ ap (λ o. o >>= λ ts. ok (t ∷ ts)) all,
      pushed,
    )

parse-push_tokens : (ts : List Bytes) → ts ≢ [] ∷ [] → parse (push_tokens [] ts) ≡ ok ts
unfolding canonical
parse-push_tokens [] h = unfold push_tokens parse in refl
parse-push_tokens (t ∷ ts) h = parse-canonical (t ∷ ts) h

segments_root : (path : Bytes) → addresses_root path ≡ true → segments path ≡ []
unfolding addresses_root strip_slash split
segments_root [] e = refl
segments_root (c ∷ []) e = rw e refl
segments_root (c ∷ d ∷ rest) e = cc e

segments_empty : (s : Bytes) → is_empty s ≡ true → skip_one (split b'/' s) ≡ []
unfolding split
segments_empty [] e = refl
segments_empty (c ∷ s) e = cc e

no_tokens : (path pointer : Bytes) → segments path ≡ [] → [] ≡ pointer → Names path pointer
no_tokens path pointer none_left e = record {
  tokens = [];
  decoded = ap decode_each none_left;
  parsed = λ h. ap parse (sym e) ∙ unfold parse in refl;
}

-- A path's pointer means the path's segments, each decoded on its own: one token for a segment, so
-- that neither an escaped slash nor a tilde in a segment starts another token. The one path that is
-- left out is that of a single empty segment (`//`).
pub path_to_pointer-Names :
    (path pointer : Bytes) → path_to_pointer path ≡ ok pointer → Names path pointer
unfolding path_to_pointer
path_to_pointer-Names path pointer e = elim (Bool-cases (addresses_root path)) [
  | inl root ↦ let f = rw root at e in no_tokens path pointer (segments_root path root) (cc f)
  | inr other ↦
      let f = rw other at e in
      elim (Bool-cases (is_empty (strip_slash path))) [
        | inl gone ↦
            let g = rw gone at f in
            no_tokens path pointer (segments_empty (strip_slash path) gone) (cc g)
        | inr left ↦
            let g = rw left at f in
            elim (Bool-cases (starts_with b'/' (strip_slash path))) [
              | inr relative ↦ cc (rw relative at g)
              | inl absolute ↦
                  let (ts, decoded, pushed) =
                    push_segments-eq-ok (segments path) [] pointer (rw absolute at g) in
                  record {
                    tokens = ts;
                    decoded = decoded;
                    parsed = λ h. ap parse (sym pushed) ∙ parse-push_tokens ts h;
                  }
            ]
      ]
]
