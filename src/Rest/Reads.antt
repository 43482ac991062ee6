-- ===== src/Rest/Reads.antt =====
-- A request that differs from another in what a read looks at; and `HEAD` against `GET`.
use repe_rs.Prelude.{
  if_true, if_false, ℕ, ◌≡◌, refl, sym, ap, ◌∙◌, Bytes, true, false, ◌&&◌, [], ◌∷◌, ◌++◌, Option,
  none, some, Outcome, ok, err, panic, ◌==◌, ascii, Bool-cases, inl, inr,
}
use repe_rs.Constants.{BodyFormat}
use repe_rs.Server.{same_text}
use repe_rs.Registry.{RegistryError}
use repe_rs.Rest.{
  RestConfig, RestRequest, RestResponse, Problem, problem, problem_for, read_ok, is_known,
  answer_invoke, read, respond_method, respond_pointer, respond_path, respond, path_of, strip_mount,
}
use repe_rs.Rest.Path.{path_to_pointer}
use repe_rs.Rest.Negotiation.{one_of, negotiate, repr_body_format, etag_for}

-- What is done to the response, if there is one.
abbrev pub on_response :
    {S : Type 0} → (RestResponse → RestResponse) → S × Option RestResponse → S × Option RestResponse
on_response f (s, none) = (s, none)
on_response f (s, some r) = (s, some (f r))

-- The response without its body, where it has one to leave out.
abbrev pub as_head : RestResponse → RestResponse
as_head r = elim (r.etag) as (λ x. RestResponse) [
  | none ↦ r
  | some tag ↦ record r { omit_body = r.status == 200 }
]

abbrev pub as_get : RestRequest → RestRequest
as_get request = record request { method = ascii "GET" }

module _ (reason_phrase : ℕ → Bytes) (problem_json : Problem → Bytes) (trim : Bytes → Bytes)
    (parse_quality : Bytes → ℕ) {S : Type 0}
    (call_registry : Bytes
      → Option (Bytes × BodyFormat)
      → BodyFormat
      → S
      → S × Outcome RegistryError (Bytes × BodyFormat)) where
  -- A change of the request that a read answers by a change of the response.
  module _ (config : RestConfig) (request changed : RestRequest) (f : RestResponse → RestResponse)
      (keeps : (status : ℕ) (detail : Bytes) (code : Option ℕ)
        → f (problem reason_phrase problem_json trim parse_quality status detail code)
          ≡ problem reason_phrase problem_json trim parse_quality status detail code)
      (turns : (body media : Bytes)
        → read_ok reason_phrase problem_json trim parse_quality config changed body media
          ≡ f (read_ok reason_phrase problem_json trim parse_quality config request body media))
      (target : changed.target ≡ request.target) (accept : changed.accept ≡ request.accept)
      (get : one_of request.method (ascii "GET" ∷ ascii "HEAD" ∷ []) ≡ true)
      (get' : one_of changed.method (ascii "GET" ∷ ascii "HEAD" ∷ []) ≡ true)
      (asks : same_text request.method (ascii "OPTIONS") ≡ false)
      (asks' : same_text changed.method (ascii "OPTIONS") ≡ false) where
    answer_changed :
        (out : S × Outcome RegistryError (Bytes × BodyFormat))
        → answer_invoke reason_phrase problem_json trim parse_quality call_registry config
            (read_ok reason_phrase problem_json trim parse_quality config changed)
            out
          ≡ on_response f (
              answer_invoke reason_phrase problem_json trim parse_quality call_registry config
                (read_ok reason_phrase problem_json trim parse_quality config request)
                out)
    unfolding answer_invoke problem_for
    answer_changed (s, ok (body, format)) = ap (λ r. (s, some r)) (turns body _)
    answer_changed (s, err e) = ap (λ r. (s, some r)) (sym (keeps _ _ _))
    answer_changed (s, panic) = refl

    pointer_changed :
        (s : S) (pointer : Outcome Bytes Bytes)
        → respond_pointer reason_phrase problem_json trim parse_quality call_registry config changed
            s pointer
          ≡ on_response f (
              respond_pointer reason_phrase problem_json trim parse_quality call_registry config
                request s pointer)
    unfolding respond_pointer respond_method read
    pointer_changed s (ok pointer) =
        if_true _ _ get'
        ∙ ap
            (λ a.
              answer_invoke reason_phrase problem_json trim parse_quality call_registry config
                (read_ok reason_phrase problem_json trim parse_quality config changed)
                (call_registry pointer none (repr_body_format (negotiate trim parse_quality a)) s))
            accept
        ∙ answer_changed (
            call_registry pointer none
              (repr_body_format (negotiate trim parse_quality request.accept)) s)
        ∙ ap (on_response f) (sym (if_true _ _ get))
    pointer_changed s (err detail) = ap (λ r. (s, some r)) (sym (keeps _ _ _))
    pointer_changed s panic = refl

    path_changed :
        (s : S) (remainder : Option Bytes)
        → respond_path reason_phrase problem_json trim parse_quality call_registry config changed s
            remainder
          ≡ on_response f (
              respond_path reason_phrase problem_json trim parse_quality call_registry config
                request s remainder)
    unfolding respond_path
    path_changed s none =
        ap
          (λ t. (
            s,
            some (
                problem reason_phrase problem_json trim parse_quality 404
                  (ascii "`" ++ (path_of t ++ ascii "` is not under this gateway's mount")) none),
          ))
          target
        ∙ ap (λ r. (s, some r)) (sym (keeps _ _ _))
    path_changed s (some remainder) = pointer_changed s (path_to_pointer remainder)

    -- The response to the changed request is the changed response.
    pub respond_changed :
        (mount : Bytes) (s : S)
        → respond reason_phrase problem_json trim parse_quality call_registry mount config changed s
          ≡ on_response f (
              respond reason_phrase problem_json trim parse_quality call_registry mount config
                request s)
    unfolding respond
    respond_changed mount s =
        if_false _ _ (ap (λ b. b && same_text (path_of changed.target) (ascii "*")) asks')
        ∙ ap
            (λ t.
              respond_path reason_phrase problem_json trim parse_quality call_registry config
                changed s (strip_mount mount (path_of t)))
            target
        ∙ path_changed s (strip_mount mount (path_of request.target))
        ∙ ap (on_response f) (
            sym (if_false _ _ (ap (λ b. b && same_text (path_of request.target) (ascii "*")) asks)))

  as_head-problem :
      (status : ℕ) (detail : Bytes) (code : Option ℕ)
      → as_head (problem reason_phrase problem_json trim parse_quality status detail code)
        ≡ problem reason_phrase problem_json trim parse_quality status detail code
  unfolding problem
  as_head-problem status detail code = refl

  as_head-read_ok :
      (config : RestConfig) (request : RestRequest) (body media : Bytes)
      → read_ok reason_phrase problem_json trim parse_quality config
          (record request { method = ascii "HEAD" })
          body
          media
        ≡ as_head (
            read_ok reason_phrase problem_json trim parse_quality config
              (as_get request)
              body
              media)
  unfolding read_ok same_text
  as_head-read_ok config request body media =
      elim (Bool-cases (
        is_known reason_phrase problem_json trim parse_quality request.if_none_match
          (etag_for body))) [ inl known ↦ rw known refl | inr new ↦ rw new refl ]

  -- A `HEAD` makes the call that the `GET` makes, leaves the same state, and has the same response in every
  -- field but `omit_body`, which a success (status 200) has and `GET` does not. A match of the validator
  -- and a failure are the responses of the `GET`: the body of a problem is not marked to be left out.
  pub respond-as_head :
      (mount : Bytes) (config : RestConfig) (request : RestRequest) (s : S)
      → respond reason_phrase problem_json trim parse_quality call_registry mount config
          (record request { method = ascii "HEAD" })
          s
        ≡ on_response as_head (
            respond reason_phrase problem_json trim parse_quality call_registry mount config
              (as_get request)
              s)
  respond-as_head mount config request s =
      respond_changed config (as_get request) (record request { method = ascii "HEAD" }) as_head
        as_head-problem (as_head-read_ok config request) refl refl (unfold one_of same_text in refl)
        (unfold one_of same_text in refl) (unfold same_text in refl) (unfold same_text in refl)
        mount s
