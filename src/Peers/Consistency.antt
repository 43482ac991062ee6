-- ===== src/Peers/Consistency.antt =====
-- The two alias indices agree, and name connected peers.
use repe_rs.Prelude.{
  ℕ, ◌≡◌, refl, sym, ap, ◌∙◌, subst, Bytes, Bool, true, false, ltb, List, Option, none, some, ◌==◌,
  if◌then◌else◌, Bool-cases, inl, inr, find_id, find_id-insert_id, find_id-remove_id, arith,
}
use repe_rs.Server.{same_text, find_route}
use repe_rs.Server.Route.{same_text-eq, same_text_refl}
use repe_rs.Registry.{insert}
use repe_rs.Registry.Lookup.{find_route-insert}
use repe_rs.Peers.{
  RegistryInner, or_empty, aliases_for, detach, index_alias, is_some, alias, is_owner, remove,
  insert_peer, new_inner,
}
use repe_rs.Peers.Aliases.{count, count-push_key, count-detach, drop_owner, find_route-purge}

-- A peer lists a key once if the key addresses it, and else not at all; who is addressed is connected.
pub record IsConsistent {H : Type 0} (r : RegistryInner H) : Type 0 where
  pub listed :
      (key : Bytes) (id : ℕ)
      → count key (aliases_for id r) ≡ (if is_owner id (find_route key r.aliases) then 1 else 0)
  pub connected :
      (key : Bytes) (id : ℕ)
      → is_owner id (find_route key r.aliases) ≡ true
      → is_some (find_id id r.peers) ≡ true

-- What the index says of a key that changes its owner.
index_alias_own :
    (id j : ℕ) (key : Bytes) (prev : Option ℕ) (index : List (ℕ × List Bytes))
    → count key (or_empty (find_id j index)) ≡ (if is_owner j prev then 1 else 0)
    → count key (or_empty (find_id j (index_alias id key prev index))) ≡ (if id == j then 1 else 0)
unfolding index_alias
index_alias_own id j key none index h =
    ground (arith, h, count-push_key key key id j index, same_text_refl key)
index_alias_own id j key (some prev) index h =
    let pushed = count-push_key key key id j (detach prev key (find_id prev index) index) in
    let cut = count-detach key key prev j index in
    elim (Bool-cases (prev == id)) [
      | inl e ↦
          let same : prev ≡ id = ground (arith, e) in
          rw e (h ∙ ap (λ i. if i == j then 1 else 0) same)
      | inr e ↦ rw e (ground (arith, e, h, pushed, cut, same_text_refl key))
    ]

-- Another key's entries stay.
index_alias_other :
    (id j : ℕ) (key k : Bytes) (prev : Option ℕ) (index : List (ℕ × List Bytes))
    → same_text k key ≡ false
    → count k (or_empty (find_id j (index_alias id key prev index)))
      ≡ count k (or_empty (find_id j index))
unfolding index_alias
index_alias_other id j key k none index differs =
    ground (arith, differs, count-push_key k key id j index)
index_alias_other id j key k (some prev) index differs =
    let pushed = count-push_key k key id j (detach prev key (find_id prev index) index) in
    let cut = count-detach k key prev j index in
    elim (Bool-cases (prev == id)) [
      | inl e ↦ rw e refl
      | inr e ↦ rw e (ground (arith, differs, pushed, cut))
    ]

module _ {H : Type 0} where
  pub new_inner-IsConsistent : IsConsistent (new_inner {H = H})
  unfolding new_inner aliases_for find_id find_route
  new_inner-IsConsistent = record { listed = λ key id. refl; connected = λ key id e. cc e }

  pub alias-IsConsistent :
      (id : ℕ) (key : Bytes) (r : RegistryInner H)
      → IsConsistent r
      → IsConsistent ((alias id key r).0)
  unfolding alias aliases_for
  alias-IsConsistent id key r c = elim (Bool-cases (is_some (find_id id r.peers))) [
    | inr gone ↦ rw gone c
    | inl live ↦ rw live (record {
      listed = λ k j. elim (Bool-cases (same_text k key)) [
        | inl same ↦
            subst
              (λ x.
                count x (
                  or_empty
                    (find_id j (index_alias id key (find_route key r.aliases) r.alias_index)))
                ≡ (if is_owner j (find_route x (insert key id r.aliases)) then 1 else 0))
              (sym (same_text-eq k key same))
              (index_alias_own id j key (find_route key r.aliases) r.alias_index (c.listed key j)
                ∙ ap (λ o. if is_owner j o then 1 else 0) (sym owner_of_key))
        | inr differs ↦
            index_alias_other id j key k (find_route key r.aliases) r.alias_index differs
            ∙ c.listed k j
            ∙ ap (λ o. if is_owner j o then 1 else 0) (sym (owner_of_other k differs))
      ];
      connected = λ k j own. elim (Bool-cases (same_text k key)) [
        | inl same ↦
            let e : is_owner j (some id) ≡ true =
              ap (is_owner j) (
                sym (
                  find_route-insert k key id r.aliases
                  ∙ ap (λ b. if b then some id else find_route k r.aliases) same))
              ∙ own in
            let who : id ≡ j = ground (arith, e) in
            subst (λ i. is_some (find_id i r.peers) ≡ true) who live
        | inr differs ↦ c.connected k j (ap (is_owner j) (sym (owner_of_other k differs)) ∙ own)
      ];
    })
  ]
    where
      owner_of_key : find_route key (insert key id r.aliases) ≡ some id
      owner_of_key =
          find_route-insert key key id r.aliases
          ∙ ap (λ b. if b then some id else find_route key r.aliases) (same_text_refl key)

      owner_of_other :
          (k : Bytes)
          → same_text k key ≡ false
          → find_route k (insert key id r.aliases) ≡ find_route k r.aliases
      owner_of_other k differs =
          find_route-insert k key id r.aliases
          ∙ ap (λ b. if b then some id else find_route k r.aliases) differs

is_owner-drop_owner :
    (id j : ℕ) (o : Option ℕ)
    → is_owner j (drop_owner id o) ≡ (if id == j then false else is_owner j o)
is_owner-drop_owner id j none = ground arith
is_owner-drop_owner id j (some i) = ground arith

module _ {H : Type 0} where
  pub insert_peer-IsConsistent :
      (peer_id : H → ℕ) (peer : H) (r : RegistryInner H)
      → IsConsistent r
      → IsConsistent (insert_peer peer_id peer r)
  unfolding insert_peer aliases_for
  insert_peer-IsConsistent peer_id peer r c = record {
    listed = c.listed;
    connected = λ key id own.
        ap is_some (find_id-insert_id id (peer_id peer) peer r.peers)
        ∙ go (peer_id peer == id) (find_id id r.peers) (c.connected key id own);
  }
    where
      go :
          (b : Bool) (o : Option H) → is_some o ≡ true → is_some (if b then some peer else o) ≡ true
      go true o e = refl
      go false o e = e

  -- Who owns a key after a removal: the purge finds every key of the peer.
  pub find_route-remove :
      (id : ℕ) (key : Bytes) (r : RegistryInner H)
      → IsConsistent r
      → find_route key ((remove id r).0.aliases) ≡ drop_owner id (find_route key r.aliases)
  unfolding remove aliases_for
  find_route-remove id key r c =
      find_route-purge id key (or_empty (find_id id r.alias_index)) r.aliases
      ∙ ap
          (λ n.
            if ltb 0 n then drop_owner id (find_route key r.aliases) else find_route key r.aliases)
          (c.listed key id)
      ∙ go (is_owner id (find_route key r.aliases))
    where
      go :
          (b : Bool)
          → (if ltb 0 (if b then 1 else 0)
              then (if b then none else find_route key r.aliases)
              else find_route key r.aliases)
            ≡ (if b then none else find_route key r.aliases)
      go true = refl
      go false = refl

  pub remove-IsConsistent :
      (id : ℕ) (r : RegistryInner H) → IsConsistent r → IsConsistent ((remove id r).0)
  unfolding remove aliases_for
  remove-IsConsistent id r c = record {
    listed = λ key j.
        let owner =
          ap (is_owner j) (find_route-remove id key r c)
          ∙ is_owner-drop_owner id j (find_route key r.aliases) in
        let entry = find_id-remove_id j id r.alias_index in
        elim (Bool-cases (id == j)) [
          | inl e ↦ rw (entry, owner, e) refl
          | inr e ↦ rw (entry, owner, e) (c.listed key j)
        ];
    connected = λ key j own.
        let owner =
          ap (is_owner j) (find_route-remove id key r c)
          ∙ is_owner-drop_owner id j (find_route key r.aliases) in
        let own' = sym owner ∙ own in
        elim (Bool-cases (id == j)) [
          | inl e ↦ cc (rw e at own')
          | inr e ↦
              ap is_some
                (find_id-remove_id j id r.peers ∙ ap (λ b. if b then none else find_id j r.peers) e)
              ∙ c.connected key j (rw e at own')
        ];
  }
