-- ===== src/Examples/Carriers.antt =====
-- A message over a transport that delivers a byte at a time, and into a growing buffer.
use repe_rs.Prelude.{◌+◌, ◌<◌, ◌^◌, ◌≡◌, Bytes, [], ◌∷◌, ◌++◌, ok, refl, length, arith}
use repe_rs.Message.{to_vec}
use repe_rs.Message.Builder.{build}
use repe_rs.Message.Response.{stamp_response_query, response_echo_query}
use repe_rs.Io.{read_message, write_message}
use repe_rs.Io.Frames.{read_message-to_vec}
use repe_rs.Io.Writing.{Wrote, write_message-to_vec}
use repe_rs.Server.{write_view_response}
use repe_rs.Server.Reply.{write_view_response-to_vec}
use repe_rs.Examples.{
  usize_max, request, request-IsWellFormed, trickle, remaining, trickle-IsReader,
  trickle-IsReliable, grow, grow-IsWriter, full_at_50, full_at_50-IsWriter,
}

read_message-to_vec_example :
    (r' : Bytes) × (read_message trickle usize_max (to_vec request ++ (9 ∷ [])) ≡ ok (request, r'))
    × (remaining r' ≡ 9 ∷ [])
read_message-to_vec_example =
    read_message-to_vec trickle remaining trickle-IsReader trickle-IsReliable usize_max request
      (9 ∷ []) (to_vec request ++ (9 ∷ [])) request-IsWellFormed refl

-- The header has room, and the parts behind it do not.
write_message-to_vec_example :
    Wrote full_at_50 (λ w. w) (5 ∷ []) (to_vec request) (write_message full_at_50 (5 ∷ []) request)
write_message-to_vec_example =
    write_message-to_vec full_at_50 (λ w. w) full_at_50-IsWriter (5 ∷ []) request

abbrev slash : Bytes
slash = 47 ∷ []

abbrev three_bytes : Bytes
three_bytes = 1 ∷ 2 ∷ 3 ∷ []

echo_fits : 48 + length (response_echo_query request slash) + length request.body < 2 ^ 64
unfolding response_echo_query build
echo_fits = omega arith

write_view_response-to_vec_example :
    Wrote grow
      (λ w. w)
      []
      (to_vec (stamp_response_query request slash))
      (write_view_response grow [] request slash)
write_view_response-to_vec_example =
    write_view_response-to_vec grow (λ w. w) grow-IsWriter usize_max [] request slash
      request-IsWellFormed echo_fits
