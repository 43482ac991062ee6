-- ===== src/Rest/Responses.antt =====
-- What every response of the gateway keeps: the state behind a refusal, and what `HEAD` shares with `GET`.
use repe_rs.Prelude.{
  ℕ, ◌≡◌, inl, inr, refl, Bytes, Bool, true, false, ◌&&◌, [], ◌∷◌, Option, none, some, Outcome, ok,
  err, panic, ascii, Bool-cases,
}
use repe_rs.Constants.{BodyFormat}
use repe_rs.Server.{same_text}
use repe_rs.Registry.{RegistryError}
use repe_rs.Rest.{
  RestConfig, RestRequest, Problem, call, respond_method, respond_pointer, respond_path, respond,
  path_of, strip_mount,
}
use repe_rs.Rest.Path.{path_to_pointer}
use repe_rs.Rest.Negotiation.{one_of}

-- The methods that read.
abbrev pub reads : Bytes → Bool
unfolding one_of
reads method = one_of method (ascii "GET" ∷ ascii "HEAD" ∷ [])

module _ (reason_phrase : ℕ → Bytes) (problem_json : Problem → Bytes) (trim : Bytes → Bytes)
    (parse_quality : Bytes → ℕ) {S : Type 0}
    (call_registry : Bytes
      → Option (Bytes × BodyFormat)
      → BodyFormat
      → S
      → S × Outcome RegistryError (Bytes × BodyFormat)) where
  method-state :
      (config : RestConfig) (request : RestRequest) (s : S) (pointer : Bytes)
      → config.read_only ≡ true
      → reads request.method ≡ false
      → (respond_method reason_phrase problem_json trim parse_quality call_registry config request s
          pointer).0
        ≡ s
  unfolding respond_method call
  method-state config request s pointer locked other =
      rw other (elim (Bool-cases (one_of request.method (ascii "PUT" ∷ ascii "POST" ∷ []))) [
        | inl mutates ↦ rw (mutates, locked) refl
        | inr m ↦ rw m (elim (Bool-cases (same_text request.method (ascii "OPTIONS"))) [
          | inl o ↦ rw o refl
          | inr o ↦ rw o refl
        ])
      ])

  pointer-state :
      (config : RestConfig) (request : RestRequest) (s : S) (pointer : Outcome Bytes Bytes)
      → config.read_only ≡ true
      → reads request.method ≡ false
      → (respond_pointer reason_phrase problem_json trim parse_quality call_registry config request
          s pointer).0
        ≡ s
  unfolding respond_pointer
  pointer-state config request s (ok pointer) locked other =
      method-state config request s pointer locked other
  pointer-state config request s (err detail) locked other = refl
  pointer-state config request s panic locked other = refl

  path-state :
      (config : RestConfig) (request : RestRequest) (s : S) (remainder : Option Bytes)
      → config.read_only ≡ true
      → reads request.method ≡ false
      → (respond_path reason_phrase problem_json trim parse_quality call_registry config request s
          remainder).0
        ≡ s
  unfolding respond_path
  path-state config request s none locked other = refl
  path-state config request s (some remainder) locked other =
      pointer-state config request s (path_to_pointer remainder) locked other

  -- A read-only gateway makes no call for a request that does not read: whatever the method, the path,
  -- the headers and the body, the state of the registry is what it was.
  pub respond-state :
      (mount : Bytes) (config : RestConfig) (request : RestRequest) (s : S)
      → config.read_only ≡ true
      → reads request.method ≡ false
      → (respond reason_phrase problem_json trim parse_quality call_registry mount config request
          s).0
        ≡ s
  unfolding respond
  respond-state mount config request s locked other =
      elim (Bool-cases (
        same_text request.method (ascii "OPTIONS")
        && same_text (path_of request.target) (ascii "*"))) [
          | inl server ↦ rw server refl
          | inr resource ↦ rw resource (
              path-state config request s (strip_mount mount (path_of request.target)) locked other)
        ]
