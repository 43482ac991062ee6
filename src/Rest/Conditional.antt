-- ===== src/Rest/Conditional.antt =====
-- The conditional `GET`.
use repe_rs.Prelude.{
  ◌≡◌, ◌⊎◌, inl, inr, refl, ap, ◌∙◌, subst, Bytes, true, false, ℕ, ◌∷◌, [], Option, none, some,
  Outcome, if◌then◌else◌, ascii, Bool-cases, Option-cases,
}
use repe_rs.Constants.{BodyFormat}
use repe_rs.Server.{same_text}
use repe_rs.JsonPointer.{split}
use repe_rs.Registry.{RegistryError}
use repe_rs.Rest.{
  RestConfig, RestRequest, RestResponse, Problem, empty, problem, read_ok, is_known, respond,
}
use repe_rs.Rest.Reads.{on_response, respond_changed}
use repe_rs.Rest.Negotiation.Tags.{Lists, if_none_match_matches_iff}
use repe_rs.Rest.Negotiation.{one_of, if_none_match_matches, etag_for}

-- The response to a client that has the representation already.
abbrev not_modified : RestResponse → RestResponse
not_modified r = record (empty 304) {
  etag = some (etag_for r.body);
  cache_control = r.cache_control;
  vary = r.vary;
}

abbrev pub get_if : Option Bytes → RestRequest → RestRequest
get_if header request = record request { method = ascii "GET"; if_none_match = header }

-- A tag, if there is one, as the tag of the body.
abbrev retag : Option Bytes → Bytes → Option Bytes
retag none body = none
retag (some t) body = some (etag_for body)

abbrev retagged : RestResponse → RestResponse
retagged r = record r { etag = retag r.etag r.body }

-- A response that has the tag of its body has it again.
tag_of : (r : RestResponse) → r ≡ retagged r → (r.etag ≡ none) ⊎ (r.etag ≡ some (etag_for r.body))
tag_of r same = elim (Option-cases (r.etag)) [
  | inl q ↦ inl q
  | inr (t, q) ↦ inr (ap (λ x. x.etag) same ∙ ap (λ x. retag x r.body) q)
]

module _ (trim : Bytes → Bytes) (header : Bytes) where
  abbrev revalidated_as : Option Bytes → RestResponse → RestResponse
  revalidated_as none r = r
  revalidated_as (some t) r =
      if if_none_match_matches trim header (etag_for r.body) then not_modified r else r

  abbrev revalidated : RestResponse → RestResponse
  revalidated r = revalidated_as r.etag r

  -- The response to the conditional request, against that to the unconditional one.
  pub record Revalidates {S : Type 0} (full out : S × Option RestResponse) : Type 0 where
    pub same_state : out.0 ≡ full.0
    pub unwound : full.1 ≡ none → out.1 ≡ none
    pub tagged :
        (r : RestResponse) → full.1 ≡ some r → (r.etag ≡ none) ⊎ (r.etag ≡ some (etag_for r.body))
    pub failed : (r : RestResponse) → full.1 ≡ some r → r.etag ≡ none → out.1 ≡ some r
    pub current :
        (r : RestResponse)
        → full.1 ≡ some r
        → r.etag ≡ some (etag_for r.body)
        → Lists trim (etag_for r.body) (split b',' header)
        → out.1 ≡ some (not_modified r)
    pub stale :
        (r : RestResponse)
        → full.1 ≡ some r
        → r.etag ≡ some (etag_for r.body)
        → ¬ Lists trim (etag_for r.body) (split b',' header)
        → out.1 ≡ some r

  Revalidates-compared :
      {S : Type 0} (full out : S × Option RestResponse)
      → full ≡ on_response retagged full
      → out ≡ on_response revalidated full
      → Revalidates full out
  Revalidates-compared (s, none) out same e = record {
    same_state = ap (λ o. o.0) e;
    unwound = λ q. ap (λ o. o.1) e;
    tagged = λ r q. cc q;
    failed = λ r q. cc q;
    current = λ r q. cc q;
    stale = λ r q. cc q;
  }
  Revalidates-compared (s, some r) out same e = record {
    same_state = ap (λ o. o.0) e;
    unwound = λ q. cc q;
    tagged = λ r' q. tag_of r' (known r' q).0;
    failed = λ r' q t. (known r' q).1 ∙ ap (λ x. some (revalidated_as x r')) t;
    current = λ r' q t l.
        let matches = (if_none_match_matches_iff trim header r'.body).1 l in
        (known r' q).1
        ∙ ap (λ x. some (revalidated_as x r')) t
        ∙ ap (λ b. some (if b then not_modified r' else r')) matches;
    stale = λ r' q t l. elim (Bool-cases (if_none_match_matches trim header (etag_for r'.body))) [
      | inl matches ↦ absurd (l ((if_none_match_matches_iff trim header r'.body).0 matches))
      | inr differs ↦
          (known r' q).1
          ∙ ap (λ x. some (revalidated_as x r')) t
          ∙ ap (λ b. some (if b then not_modified r' else r')) differs
    ];
  }
    where
      known :
          (r' : RestResponse)
          → some r ≡ some r'
          → (r' ≡ retagged r') × (out.1 ≡ some (revalidated r'))
      known r' q =
          let same_r : r ≡ r' = cc q in
          let again : some r ≡ some (retagged r) = ap (λ o. o.1) same in
          let kept : r ≡ retagged r = cc again in
          subst (λ x. (x ≡ retagged x) × (out.1 ≡ some (revalidated x))) same_r
            (kept, ap (λ o. o.1) e)

module _ (reason_phrase : ℕ → Bytes) (problem_json : Problem → Bytes) (trim : Bytes → Bytes)
    (parse_quality : Bytes → ℕ) {S : Type 0}
    (call_registry : Bytes
      → Option (Bytes × BodyFormat)
      → BodyFormat
      → S
      → S × Outcome RegistryError (Bytes × BodyFormat)) where
  revalidated-read_ok :
      (config : RestConfig) (request : RestRequest) (header body media : Bytes)
      → read_ok reason_phrase problem_json trim parse_quality config
          (get_if (some header) request)
          body
          media
        ≡ revalidated trim header (
            read_ok reason_phrase problem_json trim parse_quality config
              (get_if none request)
              body
              media)
  unfolding read_ok is_known if_none_match_matches
  revalidated-read_ok config request header body media =
      elim (Bool-cases (if_none_match_matches trim header (etag_for body))) [
        | inl matches ↦ rw matches refl
        | inr differs ↦ rw differs refl
      ]

  -- A `GET` with an `If-None-Match` header, any list of candidates, against the same `GET` without it. The
  -- state after it is the same. A success has the tag of its body: if the header lists that tag (as it is,
  -- as a weak tag, or with `*`), the response is 304 with that tag, the freshness of the full response and
  -- no body, and otherwise it is the full response. A failure is the response without the header.
  pub respond-Revalidates :
      (mount : Bytes) (config : RestConfig) (request : RestRequest) (s : S) (header : Bytes)
      → Revalidates trim header
          (respond reason_phrase problem_json trim parse_quality call_registry mount config
            (get_if none request)
            s)
          (respond reason_phrase problem_json trim parse_quality call_registry mount config
            (get_if (some header) request)
            s)
  unfolding one_of same_text
  respond-Revalidates mount config request s header =
      Revalidates-compared trim header _ _
        (respond_changed reason_phrase problem_json trim parse_quality call_registry config
          (get_if none request) (get_if none request) retagged
          (λ status detail code. unfold problem in refl)
          (λ body media. unfold read_ok is_known in refl) refl refl (is_get none) (is_get none)
          (asks none) (asks none) mount s)
        (respond_changed reason_phrase problem_json trim parse_quality call_registry config
          (get_if none request) (get_if (some header) request) (revalidated trim header)
          (λ status detail code. unfold problem in refl) (revalidated-read_ok config request header)
          refl refl (is_get none) (is_get (some header)) (asks none) (asks (some header)) mount s)
    where
      is_get :
          (h : Option Bytes)
          → one_of ((get_if h request).method) (ascii "GET" ∷ ascii "HEAD" ∷ []) ≡ true
      is_get h = refl

      asks : (h : Option Bytes) → same_text ((get_if h request).method) (ascii "OPTIONS") ≡ false
      asks h = refl
