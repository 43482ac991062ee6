-- ===== src/Fleet/Nodes.antt =====
-- The nodes that a fleet has: one for a name, built at once or one by one.
use repe_rs.Prelude.{
  ◌≡◌, refl, ap, ◌∙◌, Bytes, List, [], ◌∷◌, none, Outcome, ok, err, panic, ◌>>=◌, ◌>>◌,
  return_err_if, Bool-cases, inl, inr,
}
use repe_rs.Server.{same_text, find_route}
use repe_rs.Registry.{insert}
use repe_rs.Registry.Lookup.{find_route-insert}
use repe_rs.Peers.{is_some}
use repe_rs.Fleet.{
  NodeConfig, NodeState, Nodes, FleetError, FleetOptions, validate_node_config,
  validate_fleet_options, has_name, add_configs, add_node, with_options,
}

-- Nodes added one after the other, until one is refused.
abbrev pub add_each : {C : Type 0} → List NodeConfig → Nodes C → Outcome FleetError (Nodes C)
unfolding add_node
add_each [] nodes = ok nodes
add_each (config ∷ configs) nodes = add_node config nodes >>= λ after. add_each configs after

module _ {C : Type 0} where
  -- What the set of names says of the nodes.
  abbrev Tracks : List Bytes → Nodes C → Type 0
  Tracks names nodes = (name : Bytes) → has_name name names ≡ is_some (find_route name nodes)

  Tracks-insert :
      (names : List Bytes) (nodes : Nodes C) (name : Bytes) (node : NodeState C)
      → Tracks names nodes
      → Tracks (name ∷ names) (insert name node nodes)
  unfolding has_name
  Tracks-insert names nodes name node t other = elim (Bool-cases (same_text other name)) [
    | inl same ↦ rw (find_route-insert other name node nodes, same) refl
    | inr differs ↦ rw (find_route-insert other name node nodes, differs) (t other)
  ]

  chain_assoc :
      (v : Outcome FleetError (Unit {0})) (g : Outcome FleetError (Unit {0})) (m : Nodes C)
      (next : Nodes C → Outcome FleetError (Nodes C))
      → (v >> (g >> next m)) ≡ ((v >> (g >> ok m)) >>= next)
  chain_assoc (ok x) (ok y) m next = refl
  chain_assoc (ok x) (err e) m next = refl
  chain_assoc (ok x) panic m next = refl
  chain_assoc (err e) g m next = refl
  chain_assoc panic g m next = refl

  add_configs-add_each :
      (configs : List NodeConfig) (names : List Bytes) (nodes : Nodes C)
      → Tracks names nodes
      → add_configs names nodes configs ≡ add_each configs nodes
  unfolding add_configs add_node add_each
  add_configs-add_each [] names nodes t = refl
  add_configs-add_each (config ∷ configs) names nodes t =
      let node : NodeState C = record { config = config; client = none } in
      ap
        (λ m.
          validate_node_config config
          >> (return_err_if (has_name config.name names)
                (FleetError.duplicate_node_name config.name)
              >> m))
        (add_configs-add_each configs (config.name ∷ names) (insert config.name node nodes)
          (Tracks-insert names nodes config.name node t))
      ∙ chain_assoc (validate_node_config config)
          (return_err_if (has_name config.name names) (FleetError.duplicate_node_name config.name))
          (insert config.name node nodes) (add_each configs)
      ∙ ap
          (λ b.
            (validate_node_config config
              >> (return_err_if b (FleetError.duplicate_node_name config.name)
                  >> ok (insert config.name node nodes)))
            >>= λ after. add_each configs after)
          (t config.name)

  -- A fleet that is built from a list of configurations has the nodes that adding them one by one to an
  -- empty fleet gives, or the same first error: of a configuration, or of a name that is there already.
  pub with_options-add_each :
      (configs : List NodeConfig) (options : FleetOptions)
      → with_options {C = C} configs options
        ≡ (validate_fleet_options options >> add_each configs [])
  unfolding with_options
  with_options-add_each configs options =
      ap (λ m. validate_fleet_options options >> m)
        (add_configs-add_each configs [] [] (λ name. unfold has_name find_route in refl))
