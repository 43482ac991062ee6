-- ===== src/Examples/Gateway.antt =====
-- Requests to a gateway whose one function counts its calls.
use repe_rs.Prelude.{
  ℕ, ◌+◌, ◌≡◌, ◌↔◌, refl, Bytes, true, [], ◌∷◌, ◌++◌, Option, none, some, Outcome, ok, ascii,
  is_utf8,
}
use repe_rs.Constants.{BodyFormat}
use repe_rs.JsonPointer.{split}
use repe_rs.Registry.{RegistryError}
use repe_rs.Rest.{RestConfig, RestRequest, Problem, respond}
use repe_rs.Rest.Path.{percent_decode, path_to_pointer}
use repe_rs.Rest.Path.Escapes.{Spells, percent_decode_iff}
use repe_rs.Rest.Path.Segments.{Names, path_to_pointer-Names}
use repe_rs.Rest.Negotiation.{Repr, one_of, negotiate, repr_or_json, etag_for}
use repe_rs.Rest.Negotiation.Best.{IsBest, offers_of, negotiate-IsBest}
use repe_rs.Rest.Responses.{respond-state}
use repe_rs.Rest.Reads.{on_response, as_head, as_get, respond-as_head}
use repe_rs.Rest.Conditional.{get_if, Revalidates, respond-Revalidates}
use repe_rs.Server.{same_text}

abbrev escaped_slash : Bytes
escaped_slash = ascii "a%2Fb"

percent_decode_iff_example :
    (percent_decode escaped_slash ≡ ok (ascii "a/b"))
    ↔ (Spells escaped_slash (ascii "a/b") × (is_utf8 (ascii "a/b") ≡ true))
percent_decode_iff_example = percent_decode_iff escaped_slash (ascii "a/b") (unfold is_utf8 in refl)

path_to_pointer-Names_example : Names (ascii "/x/a%2Fb/") (ascii "/x/a~1b")
path_to_pointer-Names_example =
    path_to_pointer-Names (ascii "/x/a%2Fb/") (ascii "/x/a~1b") (unfold path_to_pointer in refl)

abbrev trim : Bytes → Bytes
trim b = b

abbrev parse_quality : Bytes → ℕ
parse_quality b = 500

abbrev accept : Bytes
accept = ascii "application/json;q=0.5,application/x-beve"

negotiate-IsBest_example :
    (best : Option (ℕ × Repr)) × IsBest (offers_of trim parse_quality (split b',' accept)) best
    × (negotiate trim parse_quality (some accept) ≡ repr_or_json best)
negotiate-IsBest_example = negotiate-IsBest trim parse_quality accept

abbrev reason_phrase : ℕ → Bytes
reason_phrase status = []

abbrev problem_json : Problem → Bytes
problem_json p = p.detail

abbrev count_call :
    Bytes
    → Option (Bytes × BodyFormat)
    → BodyFormat
    → ℕ
    → ℕ × Outcome RegistryError (Bytes × BodyFormat)
count_call pointer params format calls = (calls + 1, ok (49 ∷ [], BodyFormat.json))

abbrev config : RestConfig
config = record {
  cache_control = none;
  application_error_status = 500;
  read_only = true;
  accept_beve_bodies = true;
}

abbrev put : RestRequest
put = record {
  method = ascii "PUT";
  target = ascii "/api/counter?x";
  content_type = none;
  accept = none;
  if_none_match = none;
  body = 49 ∷ [];
}

respond-state_example :
    (respond reason_phrase problem_json trim parse_quality count_call (ascii "/api") config put 7).0
    ≡ 7
respond-state_example =
    respond-state reason_phrase problem_json trim parse_quality count_call (ascii "/api") config put
      7 refl (unfold one_of same_text in refl)

respond-as_head_example :
    respond reason_phrase problem_json trim parse_quality count_call
      (ascii "/api")
      config
      (record put { method = ascii "HEAD" })
      7
    ≡ on_response as_head (
        respond reason_phrase problem_json trim parse_quality count_call
          (ascii "/api")
          config
          (as_get put)
          7)
respond-as_head_example =
    respond-as_head reason_phrase problem_json trim parse_quality count_call (ascii "/api") config
      put 7

-- Another tag, and the current one as a weak tag.
abbrev two_tags : Bytes
two_tags = ascii "\"0\",W/" ++ etag_for (49 ∷ [])

respond-Revalidates_example :
    Revalidates trim two_tags
      (respond reason_phrase problem_json trim parse_quality count_call
        (ascii "/api")
        config
        (get_if none put)
        7)
      (respond reason_phrase problem_json trim parse_quality count_call
        (ascii "/api")
        config
        (get_if (some two_tags) put)
        7)
respond-Revalidates_example =
    respond-Revalidates reason_phrase problem_json trim parse_quality count_call (ascii "/api")
      config put 7 two_tags
