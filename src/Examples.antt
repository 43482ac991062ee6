-- ===== src/Examples.antt =====
-- Runs of the theorems on concrete inputs, and the data that they share.
pub mod Wire
pub mod Pointers
pub mod Carriers
pub mod Transfers
pub mod Serving
pub mod Downloads
pub mod Callers
pub mod Gateway
use repe_rs.Prelude.{
  ℕ, zero, suc, ◌+◌, ◌^◌, ◌-◌, ◌≤◌, ◌<◌, ◌≢◌, ◌≡◌, Bytes, [], ◌∷◌, ◌++◌, Outcome, ok, err, panic,
  ◌>>=◌, refl, sym, ap, ascii, arith, true, length, leb, if◌then◌else◌, Bool-cases, inl, inr,
}
use repe_rs.Constants.{
  ErrorCode, QueryFormat, BodyFormat, error_code_to_u32, query_format_to_u16, body_format_to_u16,
}
use repe_rs.Error.{RepeError, IoError}
use repe_rs.Message.{Message, MessageView, IsWellFormed, to_message}
use repe_rs.Message.Builder
use repe_rs.Message.Builder.{MessageBuilder, builder, build, build-IsWellFormed}
use repe_rs.Io.{Read, IsReader, IsReliable, WriteAll, IsWriter}

-- The address space of a 64-bit target.
abbrev pub usize_max : ℕ
usize_max = 2 ^ 64 - 1

abbrev pub hello : MessageBuilder
hello = Builder.id 7 (
    Builder.query_format QueryFormat.json_pointer
      (Builder.query_bytes (47 ∷ 97 ∷ []) (Builder.body_utf8 (104 ∷ 105 ∷ []) builder)))

pub hello-IsBuilder : Builder.IsBuilder hello
unfolding query_format_to_u16 body_format_to_u16
hello-IsBuilder = record {
  id = omega arith;
  query_format = omega arith;
  body_format = omega arith;
  ec = omega arith;
}

abbrev pub request : Message
request = build hello

pub request-IsWellFormed : IsWellFormed usize_max request
request-IsWellFormed =
    (build-IsWellFormed usize_max hello hello-IsBuilder (omega arith) (omega arith)).0

abbrev pub request_view : MessageView
request_view = record { header = request.header; query = request.query; body = request.body }

pub request_view-IsWellFormed : IsWellFormed usize_max (to_message request_view)
unfolding to_message
request_view-IsWellFormed = request-IsWellFormed

-- A transport that delivers one byte at a time.
unfoldable pub trickle : Read Bytes
trickle n [] = ok ([], [])
trickle zero (b ∷ rest) = ok ([], b ∷ rest)
trickle (suc n) (b ∷ rest) = ok (b ∷ [], rest)

abbrev pub remaining : Bytes → Bytes
remaining r = r

pub trickle-IsReader : IsReader trickle remaining
unfolding trickle
trickle-IsReader = record { takes = takes; at_end = at_end; no_panic = no_panic }
  where
    takes :
        (n : ℕ) (r got r' : Bytes)
        → trickle n r ≡ ok (got, r')
        → (remaining r ≡ got ++ remaining r') × (length got ≤ n)
    takes n [] got r' e =
        let g : got ≡ [] = cc (e) in
        let q : r' ≡ [] = cc (e) in (rw (g, q) refl, rw g (omega arith))
    takes zero (b ∷ rest) got r' e =
        let g : got ≡ [] = cc (e) in
        let q : r' ≡ b ∷ rest = cc (e) in (rw (g, q) refl, rw g (omega arith))
    takes (suc n) (b ∷ rest) got r' e =
        let g : got ≡ b ∷ [] = cc (e) in
        let q : r' ≡ rest = cc (e) in (rw (g, q) refl, rw g (omega arith))

    at_end : (n : ℕ) (r r' : Bytes) → 0 < n → trickle n r ≡ ok ([], r') → remaining r ≡ []
    at_end n [] r' h e = refl
    at_end zero (b ∷ rest) r' h e = absurd (omega arith)
    at_end (suc n) (b ∷ rest) r' h e = cc e

    no_panic : (n : ℕ) (r : Bytes) → trickle n r ≢ panic
    no_panic n [] e = cc e
    no_panic zero (b ∷ rest) e = cc e
    no_panic (suc n) (b ∷ rest) e = cc e

pub trickle-IsReliable : IsReliable trickle
unfolding trickle
trickle-IsReliable = record { answers = answers }
  where
    answers : (n : ℕ) (r : Bytes) → (got : Bytes) × (r' : Bytes) × (trickle n r ≡ ok (got, r'))
    answers n [] = ([], [], refl)
    answers zero (b ∷ rest) = ([], b ∷ rest, refl)
    answers (suc n) (b ∷ rest) = (b ∷ [], rest, refl)

-- A buffer that grows.
abbrev pub grow : WriteAll Bytes
grow w bytes = ok (w ++ bytes)

pub grow-IsWriter : IsWriter grow (λ w. w)
grow-IsWriter = record { takes_all = λ w w' b e. sym (cc e) }

-- A buffer with room for 50 bytes.
abbrev pub full_at_50 : WriteAll Bytes
full_at_50 w bytes =
    if leb (length w + length bytes) 50
    then ok (w ++ bytes)
    else err (RepeError.io (IoError.other []))

pub full_at_50-IsWriter : IsWriter full_at_50 (λ w. w)
full_at_50-IsWriter = record { takes_all = takes_all }
  where
    takes_all : (w w' b : Bytes) → full_at_50 w b ≡ ok w' → w' ≡ w ++ b
    takes_all w w' b e = elim (Bool-cases (leb (length w + length b) 50)) [
      | inl room ↦ sym (cc (rw room at e))
      | inr full ↦ cc (rw full at e)
    ]
