-- ===== src/WebSocket/OffReader.antt =====
-- The cap on the handlers that run beside a connection's reader.
use repe_rs.Prelude.{
  ℕ, zero, suc, ◌+◌, ◌-◌, ◌<◌, ◌≡◌, refl, ap, ◌∙◌, Bool, true, false, Option, none, some,
  if◌then◌else◌, arith,
}
use repe_rs.Message.{Message}
use repe_rs.Peers.{is_some}
use repe_rs.WebSocket.{
  Connection, queue, reject_saturated, with_permit, spawn_off_reader, give_back, finish_off_reader,
}

-- A connection, and how many handlers run beside its reader.
pub record Running : Type 0 where
  pub conn : Connection
  pub handlers : ℕ

abbrev pub after_spawn : ℕ → Connection × Bool × Option Message → Running
after_spawn handlers (conn, reading, started) = record {
  conn = conn;
  handlers = if is_some started then handlers + 1 else handlers;
}

-- What happens to a connection: an off-reader request arrives, or a handler that runs ends.
pub data Step (r : Running) : Running → Type 0 where
  arrives :
      (request : Message) (notify : Bool)
      → Step r (after_spawn r.handlers (spawn_off_reader request notify r.conn))
  ends :
      (request : Message) (notify : Bool) (outcome : Option (Option Message))
      → 0 < r.handlers
      → Step r (record {
        conn = finish_off_reader request notify outcome r.conn;
        handlers = r.handlers - 1;
      })

-- The runs of a connection with a cap of `limit`.
pub data Runs (limit : ℕ) : Running → Type 0 where
  accepted :
      (conn : Connection)
      → conn.permits ≡ some limit
      → Runs limit (record { conn = conn; handlers = 0 })
  then_step : {r t : Running} → Runs limit r → Step r t → Runs limit t

-- The permits that are left, and the handlers that have one.
pub record IsCapped (limit : ℕ) (r : Running) : Type 0 where
  pub free : ℕ
  pub permits : r.conn.permits ≡ some free
  pub balance : free + r.handlers ≡ limit

if_permits :
    (b : Bool) (c d : Connection) → c.permits ≡ d.permits → (if b then c else d).permits ≡ d.permits
if_permits true c d e = e
if_permits false c d e = refl

queue_permits : (m : Message) (conn : Connection) → (queue m conn).0.permits ≡ conn.permits
queue_permits m conn = if_permits conn.open_channel _ conn refl

reject_permits :
    (request : Message) (notify : Bool) (conn : Connection)
    → (reject_saturated request notify conn).0.permits ≡ conn.permits
unfolding reject_saturated
reject_permits request true conn = refl
reject_permits request false conn = queue_permits _ _

-- An arrival takes a permit and starts a handler, or does neither.
arrives-IsCapped :
    (limit handlers free : ℕ) (permits : Option ℕ) (conn : Connection) (request : Message)
    (notify : Bool)
    → permits ≡ some free
    → conn.permits ≡ permits
    → free + handlers ≡ limit
    → IsCapped limit (after_spawn handlers (with_permit permits request notify conn))
unfolding with_permit
arrives-IsCapped limit handlers free none conn request notify e own b = cc e
arrives-IsCapped limit handlers free (some zero) conn request notify e own b = record {
  free = 0;
  permits = reject_permits request notify conn ∙ own;
  balance = ground (arith, e, b);
}
arrives-IsCapped limit handlers free (some (suc k)) conn request notify e own b = record {
  free = k;
  permits = refl;
  balance = ground (arith, e, b);
}

finish_permits :
    (request : Message) (notify : Bool) (outcome : Option (Option Message)) (conn : Connection)
    → (finish_off_reader request notify outcome conn).permits ≡ give_back conn.permits
unfolding finish_off_reader
finish_permits request notify (some none) conn = refl
finish_permits request notify (some (some response)) conn = queue_permits _ _
finish_permits request true none conn = refl
finish_permits request false none conn = queue_permits _ _

Step-IsCapped : {limit : ℕ} {r t : Running} → Step r t → IsCapped limit r → IsCapped limit t
unfolding spawn_off_reader
Step-IsCapped {limit} {r} (arrives request notify) c =
    arrives-IsCapped limit r.handlers c.free r.conn.permits r.conn request notify c.permits refl
      c.balance
Step-IsCapped {limit} {r} (ends request notify outcome running) c = record {
  free = suc c.free;
  permits = finish_permits request notify outcome r.conn ∙ ap give_back c.permits;
  balance = omega (arith, running, c.balance);
}

-- However requests arrive and handlers end (with a response, without one, or in a panic), the permits that
-- are left and the handlers that run make up the cap: never more handlers run than it allows, and a
-- handler that ends, also in a panic, gives its place back.
pub Runs-IsCapped : {limit : ℕ} {r : Running} → Runs limit r → IsCapped limit r
Runs-IsCapped {limit} (accepted conn e) = record {
  free = limit;
  permits = e;
  balance = omega arith;
}
Runs-IsCapped (then_step runs step) = Step-IsCapped step (Runs-IsCapped runs)
