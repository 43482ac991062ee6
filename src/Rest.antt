-- ===== src/Rest.antt =====
-- src/rest.rs: the gateway from HTTP requests to the registry.
-- The registry's call, the JSON of a problem and the reason phrases (structio's and hyper's) are
-- parameters, as are `str::trim` and the number that a quality's float makes. A `'static str` is its
-- bytes. The connection limit and the time limit are the HTTP layer's.
pub mod Path
pub mod Negotiation
pub mod Responses
pub mod Reads
pub mod Conditional
use repe_rs.Prelude.{
  ℕ, ◌+◌, ◌*◌, Bytes, Bool, true, false, ◌&&◌, ◌||◌, not, List, [], ◌∷◌, ◌++◌, Option, none, some,
  Outcome, ok, err, panic, ◌==◌, if◌then◌else◌, ascii, is_empty,
}
use repe_rs.Constants.{ErrorCode, BodyFormat, error_code_to_u32}
use repe_rs.JsonPointer.{starts_with}
use repe_rs.Server.{same_text, strip_prefix}
use repe_rs.Registry.{RegistryError, code, registry_error_to_string}
use repe_rs.Rest.Path.{path_to_pointer}
use repe_rs.Rest.Negotiation.{
  Repr, media_type, repr_body_format, from_body_format, negotiate, bare_media, etag_for,
  if_none_match_matches, media_json, media_beve, one_of,
}

abbrev allow_call : Bytes
allow_call = ascii "GET, HEAD, PUT, POST, OPTIONS"

abbrev allow_read_only : Bytes
allow_read_only = ascii "GET, HEAD, OPTIONS"

pub record RestConfig : Type 0 where
  pub cache_control : Option Bytes
  pub application_error_status : ℕ
  pub read_only : Bool
  pub accept_beve_bodies : Bool

pub record RestRequest : Type 0 where
  pub method : Bytes
  pub target : Bytes
  pub content_type : Option Bytes
  pub accept : Option Bytes
  pub if_none_match : Option Bytes
  pub body : Bytes

pub record RestResponse : Type 0 where
  pub status : ℕ
  pub content_type : Option Bytes
  pub etag : Option Bytes
  pub cache_control : Option Bytes
  pub vary : Option Bytes
  pub allow : Option Bytes
  pub repe_error_code : Option ℕ
  pub omit_body : Bool
  pub body : Bytes

-- `RestResponse::empty`
abbrev pub empty : ℕ → RestResponse
empty status = record {
  status = status;
  content_type = none;
  etag = none;
  cache_control = none;
  vary = none;
  allow = none;
  repe_error_code = none;
  omit_body = false;
  body = [];
}

-- The fields of a problem that vary.
pub record Problem : Type 0 where
  pub title : Bytes
  pub status : ℕ
  pub detail : Bytes
  pub repe_code : Option ℕ

-- `target.split(['?', '#']).next()`
unfoldable pub path_of : Bytes → Bytes
path_of [] = []
path_of (c ∷ rest) = let path = path_of rest in if c == b'?' || c == b'#' then [] else c ∷ path

unfoldable pub status_for : RestConfig → ErrorCode → ℕ
status_for config ErrorCode.ok = 200
status_for config ErrorCode.method_not_found = 404
status_for config ErrorCode.timeout = 504
status_for config ErrorCode.resource_exhausted = 503
status_for config ErrorCode.internal_error = 500
status_for config ErrorCode.application_error_base = config.application_error_status
status_for config _ = 400

abbrev on_boundary : Option Bytes → Option Bytes
unfolding starts_with
on_boundary none = none
on_boundary (some rest) = if is_empty rest || starts_with b'/' rest then some rest else none

unfoldable pub strip_mount : Bytes → Bytes → Option Bytes
unfolding strip_prefix starts_with
strip_mount mount path = if is_empty mount then some path else on_boundary (strip_prefix mount path)

abbrev allow_of : RestConfig → Bytes
allow_of config = if config.read_only then allow_read_only else allow_call

-- The status line and headers that a problem has, and its body.
module _ (reason_phrase : ℕ → Bytes) (problem_json : Problem → Bytes) (trim : Bytes → Bytes)
    (parse_quality : Bytes → ℕ) where
  unfoldable pub problem : ℕ → Bytes → Option ℕ → RestResponse
  problem status detail repe_code = record (empty status) {
    content_type = some (ascii "application/problem+json");
    cache_control = some (ascii "no-store");
    repe_error_code = repe_code;
    body = problem_json (record {
      title = reason_phrase status;
      status = status;
      detail = detail;
      repe_code = repe_code;
    });
  }

  unfoldable pub method_not_allowed : Bytes → Bytes → RestResponse
  unfolding problem
  method_not_allowed allow detail = record (problem 405 detail none) { allow = some allow }

  unfoldable pub problem_for : RestConfig → RegistryError → RestResponse
  unfolding problem status_for code error_code_to_u32 registry_error_to_string
  problem_for config e =
      problem (status_for config (code e)) (registry_error_to_string e)
        (some (error_code_to_u32 (code e)))

  -- `body_format`: the format that a content type names, or the reason against it.
  unfoldable pub body_format : RestConfig → Option Bytes → Outcome Bytes BodyFormat
  unfolding bare_media one_of
  body_format config none = ok BodyFormat.json
  body_format config (some content_type) =
      let media = bare_media trim content_type b';' in
      if one_of media ([] ∷ media_json ∷ ascii "text/json" ∷ [])
      then ok BodyFormat.json
      else if one_of media (ascii "application/x-www-form-urlencoded" ∷ [])
      then ok BodyFormat.json
      else if one_of media (media_beve ∷ ascii "application/beve" ∷ [])
      then (if config.accept_beve_bodies
          then ok BodyFormat.beve
          else err (
              ascii
                "BEVE request bodies are disabled; enable `RestConfig::accept_beve_bodies` or send application/json"))
      else err (ascii "unsupported Content-Type; send application/json")

  -- `if let Some(header) = request.if_none_match && if_none_match_matches(header, &etag)`
  unfoldable pub is_known : Option Bytes → Bytes → Bool
  unfolding if_none_match_matches
  is_known none etag = false
  is_known (some header) etag = if_none_match_matches trim header etag

  -- The answer to a call that succeeded, for a read: the validator ends it, or the body is sent.
  unfoldable pub read_ok : RestConfig → RestRequest → Bytes → Bytes → RestResponse
  unfolding etag_for is_known same_text
  read_ok config request body media =
      let etag = etag_for body in
      if is_known request.if_none_match etag
      then record (empty 304) {
        etag = some etag;
        cache_control = config.cache_control;
        vary = some (ascii "Accept");
      }
      else record (empty 200) {
        content_type = some media;
        etag = some etag;
        cache_control = config.cache_control;
        vary = some (ascii "Accept");
        omit_body = same_text request.method (ascii "HEAD");
        body = body;
      }

  module _ {S : Type 0}
      (call_registry : Bytes
        → Option (Bytes × BodyFormat)
        → BodyFormat
        → S
        → S × Outcome RegistryError (Bytes × BodyFormat)) where
    -- What an `invoke` becomes: a body with its media type, or the problem. `none` is a callable that
    -- panics, which unwinds through the gateway.
    unfoldable pub answer_invoke :
        RestConfig
        → (Bytes → Bytes → RestResponse)
        → S × Outcome RegistryError (Bytes × BodyFormat)
        → S × Option RestResponse
    unfolding problem_for from_body_format media_type
    answer_invoke config next (s, ok (body, format)) =
        (s, some (next body (media_type (from_body_format format))))
    answer_invoke config next (s, err e) = (s, some (problem_for config e))
    answer_invoke config next (s, panic) = (s, none)

    unfoldable pub read : RestConfig → Bytes → RestRequest → S → S × Option RestResponse
    unfolding answer_invoke read_ok negotiate repr_body_format
    read config pointer request s = answer_invoke config (read_ok config request) (
        call_registry pointer none (repr_body_format (negotiate trim parse_quality request.accept))
          s)

    -- The answer to a call that succeeded, for a call with arguments.
    abbrev call_ok : Bytes → Bytes → RestResponse
    call_ok body media = record (empty 200) {
      content_type = some media;
      vary = some (ascii "Accept");
      body = body;
    }

    -- The call, on the format that the content type names.
    unfoldable pub call_with :
        RestConfig → Bytes → RestRequest → S → Outcome Bytes BodyFormat → S × Option RestResponse
    unfolding answer_invoke negotiate repr_body_format problem error_code_to_u32
    call_with config pointer request s (ok format) = answer_invoke config call_ok (
        call_registry pointer (some (request.body, format))
          (repr_body_format (negotiate trim parse_quality request.accept)) s)
    call_with config pointer request s (err detail) =
        (s, some (problem 415 detail (some (error_code_to_u32 ErrorCode.invalid_body))))
    call_with config pointer request s panic = (s, none)

    unfoldable pub call : RestConfig → Bytes → RestRequest → S → S × Option RestResponse
    unfolding call_with method_not_allowed problem error_code_to_u32 body_format
    call config pointer request s =
        if config.read_only
        then (
          s,
          some (method_not_allowed allow_read_only (ascii "this gateway is configured read-only")),
        )
        else if is_empty request.body
        then (
          s,
          some (
              problem 400
                (ascii "a body is required; send `null` for a call that takes no arguments")
                (some (error_code_to_u32 ErrorCode.invalid_body))),
        )
        else call_with config pointer request s (body_format config request.content_type)

    -- The `match` on the method.
    unfoldable pub respond_method : RestConfig → RestRequest → S → Bytes → S × Option RestResponse
    unfolding read call one_of method_not_allowed same_text
    respond_method config request s pointer =
        if one_of request.method (ascii "GET" ∷ ascii "HEAD" ∷ [])
        then read config pointer request s
        else if one_of request.method (ascii "PUT" ∷ ascii "POST" ∷ [])
        then call config pointer request s
        else if same_text request.method (ascii "OPTIONS")
        then (s, some (record (empty 204) { allow = some (allow_of config) }))
        else (s, some (method_not_allowed (allow_of config) (ascii "unsupported method")))

    -- The rest of `respond`, on the pointer.
    unfoldable pub respond_pointer :
        RestConfig → RestRequest → S → Outcome Bytes Bytes → S × Option RestResponse
    unfolding respond_method problem
    respond_pointer config request s (ok pointer) = respond_method config request s pointer
    respond_pointer config request s (err detail) = (s, some (problem 400 detail none))
    respond_pointer config request s panic = (s, none)

    -- The same on what is left of the path behind the mount.
    unfoldable pub respond_path :
        RestConfig → RestRequest → S → Option Bytes → S × Option RestResponse
    unfolding respond_pointer path_to_pointer problem path_of
    respond_path config request s none = (
      s,
      some (
          problem 404
            (ascii "`" ++ (path_of request.target ++ ascii "` is not under this gateway's mount"))
            none),
    )
    respond_path config request s (some remainder) =
        respond_pointer config request s (path_to_pointer remainder)

    unfoldable pub respond : Bytes → RestConfig → RestRequest → S → S × Option RestResponse
    unfolding path_of same_text respond_path strip_mount
    respond mount config request s =
        let path = path_of request.target in
        if same_text request.method (ascii "OPTIONS") && same_text path (ascii "*")
        then (s, some (record (empty 204) { allow = some (allow_of config) }))
        else respond_path config request s (strip_mount mount path)
