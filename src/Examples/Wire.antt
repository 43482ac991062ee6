-- ===== src/Examples/Wire.antt =====
-- Codes, headers and frames on concrete bytes.
use repe_rs.Prelude.{
  ℕ, ◌≡◌, ◌↔◌, ◌+◌, ◌≤◌, Bytes, [], ◌∷◌, ok, take, length, All, arith, ◌++◌, IsByte,
}
use repe_rs.Header.{IsHeader, encode, decode}
use repe_rs.Header.RoundTrip.{IsFramed}
use repe_rs.Header.Decode.{decode_iff}
use repe_rs.Message.{IsWellFormed, to_vec, into_wire_bytes, from_slice, from_slice_exact}
use repe_rs.Message.Wire.{from_slice-to_vec, from_slice_exact_iff}
use repe_rs.Message.Reuse.{into_wire_bytes-to_vec}
use repe_rs.Message.Builder.{build}
use repe_rs.Examples.{usize_max, request, request-IsWellFormed}

wire-IsByte : All IsByte (to_vec request)
unfolding to_vec encode build
wire-IsByte = ground arith

decode_iff_example : (decode usize_max (to_vec request) ≡ ok request.header) ↔ (
    (48 ≤ length (to_vec request))
    × IsHeader request.header
    × IsFramed usize_max request.header
    × (encode request.header ≡ take 48 (to_vec request)))
decode_iff_example = decode_iff usize_max (to_vec request) request.header wire-IsByte

from_slice_exact_iff_example :
    (from_slice_exact usize_max (to_vec request) ≡ ok request)
    ↔ (IsWellFormed usize_max request × (to_vec request ≡ to_vec request))
from_slice_exact_iff_example = from_slice_exact_iff usize_max (to_vec request) request wire-IsByte

from_slice-to_vec_example : from_slice usize_max (to_vec request ++ (1 ∷ 2 ∷ [])) ≡ ok request
from_slice-to_vec_example = from_slice-to_vec request (1 ∷ 2 ∷ []) usize_max request-IsWellFormed

into_wire_bytes-to_vec_example : into_wire_bytes 64 request ≡ to_vec request
into_wire_bytes-to_vec_example = into_wire_bytes-to_vec 64 request

abbrev json_digit : ℕ → Bytes
json_digit n = (48 + n) ∷ []
