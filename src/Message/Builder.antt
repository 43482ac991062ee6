-- ===== src/Message/Builder.antt =====
-- `MessageBuilder` of src/message.rs. A `Vec` holds at most `isize::MAX` bytes, so the sums of lengths
-- stay inside a `u64` and are written without wrap-around.
use repe_rs.Prelude.{
  ℕ, ◌+◌, ◌≤◌, ◌<◌, ◌^◌, ◌≡◌, refl, Bytes, Bool, false, [], ◌==◌, if◌then◌else◌, length, arith,
}
use repe_rs.Constants.{
  header_size, ErrorCode, QueryFormat, BodyFormat, error_code_to_u32, query_format_to_u16,
  body_format_to_u16,
}
use repe_rs.Header
use repe_rs.Header.{Header}
use repe_rs.Message.{Message, IsWellFormed}

pub record MessageBuilder : Type 0 where
  pub id : ℕ
  pub query : Bytes
  pub body : Bytes
  pub query_format : ℕ
  pub body_format : ℕ
  pub notify : Bool
  pub ec : ℕ

-- `Message::builder`
abbrev pub builder : MessageBuilder
builder = record {
  id = 0;
  query = [];
  body = [];
  query_format = 0;
  body_format = 0;
  notify = false;
  ec = 0;
}

abbrev pub id : ℕ → MessageBuilder → MessageBuilder
id n b = record b { id = n }

abbrev pub notify : Bool → MessageBuilder → MessageBuilder
notify n b = record b { notify = n }

abbrev pub error_code : ErrorCode → MessageBuilder → MessageBuilder
error_code ec b = record b { ec = error_code_to_u32 ec }

abbrev pub query_format : QueryFormat → MessageBuilder → MessageBuilder
query_format f b = record b { query_format = query_format_to_u16 f }

abbrev pub query_format_code : ℕ → MessageBuilder → MessageBuilder
query_format_code code b = record b { query_format = code }

abbrev pub body_format : BodyFormat → MessageBuilder → MessageBuilder
body_format f b = record b { body_format = body_format_to_u16 f }

abbrev pub body_format_code : ℕ → MessageBuilder → MessageBuilder
body_format_code code b = record b { body_format = code }

-- `query_bytes`, and `query_str` on the text's bytes
abbrev pub query_bytes : Bytes → MessageBuilder → MessageBuilder
query_bytes q b = record b { query = q }

abbrev pub body_bytes : Bytes → MessageBuilder → MessageBuilder
body_bytes bytes b = record b { body = bytes }

abbrev pub body_utf8 : Bytes → MessageBuilder → MessageBuilder
body_utf8 s b = record b { body = s; body_format = body_format_to_u16 BodyFormat.utf8 }

-- `body_json(v)` and `body_beve(v)`, on the encoding that structio gives of the value
abbrev pub body_json : Bytes → MessageBuilder → MessageBuilder
body_json encoded b = record b { body = encoded; body_format = body_format_to_u16 BodyFormat.json }

abbrev pub body_beve : Bytes → MessageBuilder → MessageBuilder
body_beve encoded b = record b { body = encoded; body_format = body_format_to_u16 BodyFormat.beve }

unfoldable pub build : MessageBuilder → Message
unfolding query_format_to_u16 body_format_to_u16
build b = record {
  header = record Header.new {
    id = b.id;
    query_length = length b.query;
    body_length = length b.body;
    length = header_size + length b.query + length b.body;
    query_format =
        if b.query_format == 0 then query_format_to_u16 QueryFormat.raw_binary else b.query_format;
    body_format =
        if b.body_format == 0 then body_format_to_u16 BodyFormat.raw_binary else b.body_format;
    notify = if b.notify then 1 else 0;
    ec = b.ec;
  };
  query = b.query;
  body = b.body;
}

-- The codes that the setters take are in range.
pub record IsBuilder (b : MessageBuilder) : Type 0 where
  pub id : b.id < 256 ^ 8
  pub query_format : b.query_format < 256 ^ 2
  pub body_format : b.body_format < 256 ^ 2
  pub ec : b.ec < 256 ^ 4

-- Whatever is set, in whatever order, a message that is built and fits the address space is
-- well-formed: the header describes the query and the body, and keeps the codes that were set.
pub build-IsWellFormed :
    (u : ℕ) (b : MessageBuilder)
    → IsBuilder b
    → 48 + length b.query + length b.body < 2 ^ 64
    → 48 + length b.query + length b.body ≤ u
    → IsWellFormed u (build b)
      × ((build b).header.query_format ≡ b.query_format)
      × ((build b).header.body_format ≡ b.body_format)
      × ((build b).query ≡ b.query)
      × ((build b).body ≡ b.body)
unfolding build
build-IsWellFormed u b w small fits = (
  record {
    header = record {
      length = small;
      spec = omega arith;
      version = omega arith;
      notify = ground arith;
      reserved = omega arith;
      id = w.id;
      query_length = omega arith;
      body_length = omega arith;
      query_format = ground (arith, w.query_format);
      body_format = ground (arith, w.body_format);
      ec = w.ec;
    };
    framed = record { spec = refl; length = refl; fits = small; addressable = fits };
    query = refl;
    body = refl;
  },
  ground arith,
  ground arith,
  refl,
  refl,
)
