-- ===== src/Client/Responses.antt =====
-- The checks on a response, and what they make of the responses that a server builds.
use repe_rs.Prelude.{
  ℕ, ◌≤◌, ◌≡◌, ◌≢◌, ◌↔◌, refl, not, Bytes, Option, none, some, ok, err, return_err_if, ◌>>◌, ◌==◌,
  ==_refl, arith,
}
use repe_rs.Constants.{repe_version, ErrorCode, error_code_to_u32, error_code_try_from}
use repe_rs.Error.{RepeError}
use repe_rs.Message.{Message}
use repe_rs.Message.Builder.{build}
use repe_rs.Message.Response.{
  create_error_message, create_error_response_for, create_error_response_like, with_query,
}
use repe_rs.Client.{validate_response, code_or_parse_error, batch_worker_count}

-- The numbers that the checks look at.
pub record IsAccepted (expected_id : ℕ) (resp : Message) : Type 0 where
  pub version : resp.header.version ≡ 1
  pub id : resp.header.id ≡ expected_id
  pub ec : resp.header.ec ≡ 0

checks_iff :
    (v w i j e : ℕ) (a b c : RepeError) (resp resp' : Message)
    → ((return_err_if (not (v == w)) a
          >> (return_err_if (not (i == j)) b >> (return_err_if (not (e == 0)) c >> ok resp)))
        ≡ ok resp')
      ↔ ((v ≡ w) × (i ≡ j) × (e ≡ 0) × (resp ≡ resp'))
checks_iff v w i j e a b c resp resp' = (to, from)
  where
    to :
        ((return_err_if (not (v == w)) a
            >> (return_err_if (not (i == j)) b >> (return_err_if (not (e == 0)) c >> ok resp)))
          ≡ ok resp')
        → (v ≡ w) × (i ≡ j) × (e ≡ 0) × (resp ≡ resp')
    to h = ground (arith, h)

    from :
        (v ≡ w) × (i ≡ j) × (e ≡ 0) × (resp ≡ resp')
        → (return_err_if (not (v == w)) a
            >> (return_err_if (not (i == j)) b >> (return_err_if (not (e == 0)) c >> ok resp)))
          ≡ ok resp'
    from (p, q, r, s) = rw (p, q, r, s, ==_refl w, ==_refl j) refl

-- A response passes the checks if and only if it has the protocol's version, the id of the request
-- and the code of success, and then it is handed on as it came.
validate_response_iff :
    (lossy : Bytes → Bytes) (expected_id : ℕ) (resp resp' : Message)
    → (validate_response lossy expected_id resp ≡ ok resp')
      ↔ (IsAccepted expected_id resp × (resp ≡ resp'))
unfolding validate_response error_code_to_u32
validate_response_iff lossy expected_id resp resp' =
    let (to, from) =
      checks_iff resp.header.version repe_version resp.header.id expected_id resp.header.ec _ _ _
        resp resp' in
    (
      λ h. let (p, q, r, s) = to h in (record { version = p; id = q; ec = r }, s),
      λ (a, s). from (a.version, a.id, a.ec, s),
    )

-- An error response that a server builds for a request comes out of the client's checks as the
-- server's error: its own code, not the fallback, and its text. The code is not that of success.
pub validate_response-create_error_response_like :
    (lossy : Bytes → Bytes) (request : Message) (code : ErrorCode) (msg : Bytes)
    → code ≢ ErrorCode.ok
    → validate_response lossy request.header.id (create_error_response_like request code msg)
      ≡ err (RepeError.server_error code (lossy msg))
unfolding validate_response create_error_response_like create_error_response_for
    create_error_message with_query build code_or_parse_error error_code_try_from error_code_to_u32
validate_response-create_error_response_like lossy request code msg bad =
    rw (==_refl request.header.id) (go code bad)
  where
    go :
        (k : ErrorCode)
        → k ≢ ErrorCode.ok
        → (return_err_if (not (error_code_to_u32 k == 0)) (
              RepeError.server_error
                (code_or_parse_error (error_code_try_from (error_code_to_u32 k)))
                (lossy msg))
            >> ok (create_error_response_like request k msg))
          ≡ err (RepeError.server_error k (lossy msg))
    go ErrorCode.ok h = absurd (h refl)
    go ErrorCode.version_mismatch h = refl
    go ErrorCode.invalid_header h = refl
    go ErrorCode.invalid_query h = refl
    go ErrorCode.invalid_body h = refl
    go ErrorCode.parse_error h = refl
    go ErrorCode.method_not_found h = refl
    go ErrorCode.timeout h = refl
    go ErrorCode.resource_exhausted h = refl
    go ErrorCode.internal_error h = refl
    go ErrorCode.application_error_base h = refl

-- A batch has at most 64 workers and at most one for a request, and one at least if there is a
-- request to make, whatever the machine reports and however large the batch is.
batch_worker_count_bounds :
    (usize_max : ℕ) (available : Option ℕ) (request_count : ℕ)
    → let n = batch_worker_count usize_max available request_count in
      (n ≤ 64) × (n ≤ request_count) × ((1 ≤ n) ↔ (1 ≤ request_count))
unfolding batch_worker_count
batch_worker_count_bounds usize_max none request_count = ground arith
batch_worker_count_bounds usize_max (some count) request_count = ground arith
