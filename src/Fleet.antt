-- ===== src/Fleet.antt =====
-- src/fleet.rs: the nodes of a fleet, their connections, and the retries of a call.
-- A client is a parameter `C`, the state of the network behind the calls is `S`, and a name addresses
-- one node in a list. Times are milliseconds; the elapsed time of a result and the pause between two
-- attempts are left out.
pub mod Retry
pub mod Nodes
use repe_rs.Prelude.{
  ℕ, zero, suc, ◌+◌, Bytes, Bool, true, false, List, [], ◌∷◌, ◌++◌, Option, none, some, ◌⊎◌, inl,
  inr, Outcome, ok, err, ◌>>=◌, ◌>>◌, return_err_if, ltb, ◌==◌, if◌then◌else◌, is_empty,
}
use repe_rs.Error.{RepeError, ErrorKind, error_kind}
use repe_rs.Server.{same_text, find_route}
use repe_rs.Registry.{insert}
use repe_rs.Peers.{is_some, remove_key}

pub record NodeConfig : Type 0 where
  pub host : Bytes
  pub port : ℕ
  pub name : Bytes
  pub tags : List Bytes
  pub timeout : ℕ

pub data FleetError : Type 0 where
  empty_host : FleetError
  invalid_port : (port : ℕ) → FleetError
  empty_node_name : FleetError
  invalid_timeout : FleetError
  invalid_retry_attempts : FleetError
  duplicate_node_name : (name : Bytes) → FleetError

unfoldable pub validate_host : Bytes → Outcome FleetError (Unit {0})
validate_host host = return_err_if (is_empty host) FleetError.empty_host

unfoldable pub validate_port : ℕ → Outcome FleetError (Unit {0})
validate_port port = return_err_if (port == 0) (FleetError.invalid_port port)

unfoldable pub validate_timeout : ℕ → Outcome FleetError (Unit {0})
validate_timeout timeout = return_err_if (timeout == 0) FleetError.invalid_timeout

unfoldable pub validate_node_config : NodeConfig → Outcome FleetError (Unit {0})
unfolding validate_host validate_port validate_timeout
validate_node_config config = do
  validate_host config.host
  validate_port config.port
  validate_timeout config.timeout
  return_err_if (is_empty config.name) FleetError.empty_node_name

pub record FleetOptions : Type 0 where
  pub default_timeout : ℕ
  pub max_attempts : ℕ

unfoldable pub validate_fleet_options : FleetOptions → Outcome FleetError (Unit {0})
unfolding validate_timeout
validate_fleet_options options = do
  validate_timeout options.default_timeout
  return_err_if (ltb options.max_attempts 1) FleetError.invalid_retry_attempts

module _ (C : Type 0) where
  pub record NodeState : Type 0 where
    pub config : NodeConfig
    pub client : Option C

abbrev pub Nodes : Type 0 → Type 0
Nodes C = List (Bytes × NodeState C)

unfoldable pub add_node : {C : Type 0} → NodeConfig → Nodes C → Outcome FleetError (Nodes C)
unfolding validate_node_config find_route insert
add_node config nodes = do
  validate_node_config config
  return_err_if (is_some (find_route config.name nodes))
      (FleetError.duplicate_node_name config.name)
  ok (insert config.name (record { config = config; client = none }) nodes)

-- The set of the names so far.
unfoldable pub has_name : Bytes → List Bytes → Bool
unfolding same_text
has_name name [] = false
has_name name (n ∷ names) = if same_text name n then true else has_name name names

-- The loop of `with_options`.
unfoldable pub add_configs :
    {C : Type 0} → List Bytes → Nodes C → List NodeConfig → Outcome FleetError (Nodes C)
unfolding validate_node_config insert has_name
add_configs names nodes [] = ok nodes
add_configs names nodes (config ∷ configs) = do
  validate_node_config config
  return_err_if (has_name config.name names) (FleetError.duplicate_node_name config.name)
  add_configs (config.name ∷ names)
      (insert config.name (record { config = config; client = none }) nodes) configs

unfoldable pub with_options :
    {C : Type 0} → List NodeConfig → FleetOptions → Outcome FleetError (Nodes C)
unfolding validate_fleet_options add_configs
with_options configs options = validate_fleet_options options >> add_configs [] [] configs

unfoldable pub remove_node : {C : Type 0} → Bytes → Nodes C → Nodes C × Bool
unfolding remove_key find_route
remove_node name nodes = (remove_key name nodes, is_some (find_route name nodes))

-- The kinds of I/O errors that are retried.
unfoldable pub is_retryable_kind : ErrorKind → Bool
is_retryable_kind ErrorKind.timed_out = true
is_retryable_kind ErrorKind.connection_refused = true
is_retryable_kind ErrorKind.connection_reset = true
is_retryable_kind ErrorKind.connection_aborted = true
is_retryable_kind ErrorKind.not_connected = true
is_retryable_kind ErrorKind.unexpected_eof = true
is_retryable_kind ErrorKind.would_block = true
is_retryable_kind ErrorKind.interrupted = true
is_retryable_kind _ = false

unfoldable pub is_retryable_error : RepeError → Bool
unfolding is_retryable_kind error_kind
is_retryable_error (RepeError.io e) = is_retryable_kind (error_kind e)
is_retryable_error e = false

unfoldable pub invalidate_client : {C : Type 0} → NodeState C → NodeState C
invalidate_client node = record node { client = none }

-- The value or the error of a call, and the node's name.
pub record RemoteResult (A : Type 0) : Type 0 where
  pub node : Bytes
  pub value : Option A
  pub error : Option RepeError

module _ {C S : Type 0} (connect : NodeConfig → S → S × (RepeError ⊎ C)) where
  -- A new connection is kept.
  abbrev keep_client : NodeState C → S × (RepeError ⊎ C) → NodeState C × S × (RepeError ⊎ C)
  keep_client node (s, inl e) = (node, s, inl e)
  keep_client node (s, inr created) = (record node { client = some created }, s, inr created)

  unfoldable pub ensure_connected : NodeState C → S → NodeState C × S × (RepeError ⊎ C)
  ensure_connected node s = elim (node.client) [
    | some existing ↦ (node, s, inr existing)
    | none ↦ keep_client node (connect node.config s)
  ]

  module _ {A : Type 0} (call : C → S → S × (RepeError ⊎ A)) where
    -- The closure of one attempt: the connection, and the call on it.
    abbrev call_on : NodeState C × S × (RepeError ⊎ C) → NodeState C × S × (RepeError ⊎ A)
    call_on (node, s, inl e) = (node, s, inl e)
    call_on (node, s, inr client) = let (s', result) = call client s in (node, s', result)

    unfoldable pub attempt : NodeState C → S → NodeState C × S × (RepeError ⊎ A)
    unfolding ensure_connected
    attempt node s = call_on (ensure_connected node s)

    abbrev Retried : Type 0
    Retried = NodeState C × S × RemoteResult A

    -- What an attempt's outcome makes of the loop; `more` is its next round.
    unfoldable pub after_attempt :
        (NodeState C → S → Option RepeError → Retried) → NodeState C × S × (RepeError ⊎ A) → Retried
    unfolding is_retryable_error invalidate_client
    after_attempt more (node, s, inr value) =
        (node, s, record { node = node.config.name; value = some value; error = none })
    after_attempt more (node, s, inl e) =
        let again = more (invalidate_client node) s (some e) in
        if is_retryable_error e
        then again
        else (node, s, record { node = node.config.name; value = none; error = some e })

    -- The loop over the attempts that are left.
    unfoldable pub retry_loop : ℕ → NodeState C → S → Option RepeError → Retried
    unfolding attempt after_attempt
    retry_loop zero node s last_error =
        (node, s, record { node = node.config.name; value = none; error = last_error })
    retry_loop (suc attempts) node s last_error =
        after_attempt (retry_loop attempts) (attempt node s)

    -- `call_message_with_retry`, and `call_json_with_retry` with a call that also decodes.
    unfoldable pub call_with_retry : FleetOptions → NodeState C → S → Retried
    unfolding retry_loop
    call_with_retry options node s = retry_loop options.max_attempts node s none
