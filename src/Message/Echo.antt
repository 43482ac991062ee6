-- ===== src/Message/Echo.antt =====
-- The query echo: the responses that leave the query to the boundary, and those that clone it.
use repe_rs.Prelude.{◌≡◌, refl, Bytes, [], ◌∷◌, arith}
use repe_rs.Constants.{ErrorCode, BodyFormat}
use repe_rs.Header.{Header}
use repe_rs.Message.{Message, MessageView, to_message}
use repe_rs.Message.Builder.{build}
use repe_rs.Message.Response.{
  create_error_response_like, create_error_response_unstamped_view, create_response,
  create_response_unstamped, stamp_response_query,
}

module _ {R : Type 0} (to_json to_beve : R → Bytes) where
  stamp_query :
      (header : Header) (q b : Bytes) (result : R) (f : BodyFormat)
      → stamp_response_query
          (create_response_unstamped to_json to_beve
            (record { header = header; query = q; body = b })
            result
            f)
          q
        ≡ create_response to_json to_beve (record { header = header; query = q; body = b }) result f
  unfolding stamp_response_query create_response create_response_unstamped build
  stamp_query header [] b result BodyFormat.raw_binary = refl
  stamp_query header [] b result f = ground arith
  stamp_query header (c ∷ q) b result BodyFormat.raw_binary = refl
  stamp_query header (c ∷ q) b result BodyFormat.beve = refl
  stamp_query header (c ∷ q) b result BodyFormat.json = refl
  stamp_query header (c ∷ q) b result BodyFormat.utf8 = refl

  -- A success response built without its query, and stamped with the request's, is the response that
  -- clones the query: for every request, result and body format, header lengths included.
  stamp_response_query-unstamped :
      (request : Message) (result : R) (f : BodyFormat)
      → stamp_response_query
          (create_response_unstamped to_json to_beve request result f)
          request.query
        ≡ create_response to_json to_beve request result f
  stamp_response_query-unstamped request result f =
      stamp_query request.header request.query request.body result f

stamp_error :
    (header : Header) (q b : Bytes) (code : ErrorCode) (msg : Bytes)
    → stamp_response_query
        (create_error_response_unstamped_view
          (record { header = header; query = q; body = b })
          code
          msg)
        q
      ≡ create_error_response_like (record { header = header; query = q; body = b }) code msg
unfolding stamp_response_query create_error_response_like create_error_response_unstamped_view build
stamp_error header [] b code msg = refl
stamp_error header (c ∷ q) b code msg = refl

-- The error response of the borrowing path, stamped with the view's query, is the error response of
-- the owned path.
pub stamp_response_query-error :
    (view : MessageView) (code : ErrorCode) (msg : Bytes)
    → stamp_response_query (create_error_response_unstamped_view view code msg) view.query
      ≡ create_error_response_like (to_message view) code msg
unfolding to_message
stamp_response_query-error view code msg = stamp_error view.header view.query view.body code msg
