-- ===== src/Fleet/Retry.antt =====
-- The retries of a call, against a relation of what may follow an attempt.
use repe_rs.Prelude.{
  ℕ, zero, suc, ◌≤◌, ◌≡◌, refl, Bytes, true, false, Option, none, some, ◌⊎◌, inl, inr, Bool-cases,
  arith,
}
use repe_rs.Error.{RepeError}
use repe_rs.Fleet.{
  NodeConfig, NodeState, RemoteResult, FleetOptions, attempt, after_attempt, is_retryable_error,
  invalidate_client, retry_loop, call_with_retry,
}

module _ {C S A : Type 0} (connect : NodeConfig → S → S × (RepeError ⊎ C))
    (call : C → S → S × (RepeError ⊎ A)) where
  -- A call with so many attempts left: it ends with a value, with an error that is not to be retried, or
  -- with its last attempt; each other attempt fails, drops the connection, and is followed by another.
  pub data Calls : ℕ → NodeState C → S → NodeState C × S × RemoteResult A → Type 0 where
    succeeds :
        {left : ℕ} {node node' : NodeState C} {s s' : S} {value : A}
        → attempt connect call node s ≡ (node', s', inr value)
        → Calls
            (suc left)
            node
            s
            (node', s', record { node = node'.config.name; value = some value; error = none })
    refused :
        {left : ℕ} {node node' : NodeState C} {s s' : S} {e : RepeError}
        → attempt connect call node s ≡ (node', s', inl e)
        → is_retryable_error e ≡ false
        → Calls
            (suc left)
            node
            s
            (node', s', record { node = node'.config.name; value = none; error = some e })
    spent :
        {node node' : NodeState C} {s s' : S} {e : RepeError}
        → attempt connect call node s ≡ (node', s', inl e)
        → is_retryable_error e ≡ true
        → Calls 1 node s (
          record node' { client = none },
          s',
          record { node = node'.config.name; value = none; error = some e },
        )
    retries :
        {left : ℕ} {node node' : NodeState C} {s s' : S} {e : RepeError}
        {out : NodeState C × S × RemoteResult A}
        → attempt connect call node s ≡ (node', s', inl e)
        → is_retryable_error e ≡ true
        → Calls (suc left) (record node' { client = none }) s' out
        → Calls (suc (suc left)) node s out

  last_attempt-Calls :
      (node : NodeState C) (s : S) (out : NodeState C × S × (RepeError ⊎ A))
      → attempt connect call node s ≡ out
      → Calls 1 node s (after_attempt connect call (retry_loop connect call 0) out)
  unfolding after_attempt retry_loop invalidate_client
  last_attempt-Calls node s (node', s', inr value) e = succeeds e
  last_attempt-Calls node s (node', s', inl x) e = elim (Bool-cases (is_retryable_error x)) [
    | inl again ↦ rw again (spent e again)
    | inr final ↦ rw final (refused e final)
  ]

  attempt-Calls :
      (left : ℕ) (node : NodeState C) (s : S) (out : NodeState C × S × (RepeError ⊎ A))
      → attempt connect call node s ≡ out
      → ((n : NodeState C) (t : S) (last_error : Option RepeError)
          → Calls (suc left) n t (retry_loop connect call (suc left) n t last_error))
      → Calls
          (suc (suc left))
          node
          s
          (after_attempt connect call (retry_loop connect call (suc left)) out)
  unfolding after_attempt invalidate_client
  attempt-Calls left node s (node', s', inr value) e more = succeeds e
  attempt-Calls left node s (node', s', inl x) e more = elim (Bool-cases (is_retryable_error x)) [
    | inl again ↦ rw again (retries e again (more (record node' { client = none }) s' (some x)))
    | inr final ↦ rw final (refused e final)
  ]

  retry_loop-Calls :
      (left : ℕ) (node : NodeState C) (s : S) (last_error : Option RepeError)
      → Calls (suc left) node s (retry_loop connect call (suc left) node s last_error)
  unfolding retry_loop
  retry_loop-Calls zero node s last_error =
      last_attempt-Calls node s (attempt connect call node s) refl
  retry_loop-Calls (suc left) node s last_error =
      attempt-Calls left node s (attempt connect call node s) refl
        (λ n t l. retry_loop-Calls left n t l)

  -- How a result can look: a value alone, or an error alone, and with an error that could be retried a
  -- node without a client.
  pub data IsResult : NodeState C × S × RemoteResult A → Type 0 where
    returned :
        {node : NodeState C} {s : S} {name : Bytes} (a : A)
        → IsResult (node, s, record { node = name; value = some a; error = none })
    failed :
        {node : NodeState C} {s : S} {name : Bytes} (e : RepeError)
        → (is_retryable_error e ≡ true → node.client ≡ none)
        → IsResult (node, s, record { node = name; value = none; error = some e })

  Calls-IsResult :
      {left : ℕ} {node : NodeState C} {s : S} {out : NodeState C × S × RemoteResult A}
      → Calls left node s out
      → IsResult out
  Calls-IsResult (succeeds {value = a} e) = returned a
  Calls-IsResult (refused {e = e} p f) = failed e (λ y. cc (y, f))
  Calls-IsResult (spent {e = e} p r) = failed e (λ y. refl)
  Calls-IsResult (retries p r more) = Calls-IsResult more

  -- A call of a node, with options that the fleet accepts (one attempt at least), makes the attempts that
  -- the relation allows, at most `max_attempts`, and ends in a value or an error, never in neither or
  -- both. After an error that could be retried no client is left that a later call would use.
  pub call_with_retry-Calls :
      (options : FleetOptions) (node : NodeState C) (s : S)
      → 1 ≤ options.max_attempts
      → Calls options.max_attempts node s (call_with_retry connect call options node s)
        × IsResult (call_with_retry connect call options node s)
  unfolding call_with_retry
  call_with_retry-Calls options node s h = go options.max_attempts h
    where
      go :
          (n : ℕ)
          → 1 ≤ n
          → Calls n node s (retry_loop connect call n node s none)
            × IsResult (retry_loop connect call n node s none)
      go zero h = absurd (omega (arith, h))
      go (suc left) h = let c = retry_loop-Calls left node s none in (c, Calls-IsResult c)
