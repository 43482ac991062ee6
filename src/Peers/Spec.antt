-- ===== src/Peers/Spec.antt =====
-- What the registry promises: a directory of who is connected and whom each key addresses, without
-- a reverse index, and the same answers to the same calls.
use repe_rs.Prelude.{
  ℕ, ◌≡◌, refl, ap, ◌∙◌, Bytes, Bool, true, false, ltb, List, [], ◌∷◌, Option, none, some, ◌==◌,
  if◌then◌else◌, Bool-cases, inl, inr, find_id, find_id-insert_id, find_id-remove_id,
}
use repe_rs.Server.{same_text, find_route}
use repe_rs.Registry.Lookup.{find_route-insert}
use repe_rs.Peers.{
  RegistryInner, aliases_for, get, get_by, get_owner, is_some, alias, is_owner, remove, insert_peer,
  new_inner,
}
use repe_rs.Peers.Aliases.{count, drop_owner}
use repe_rs.Peers.Consistency.{
  IsConsistent, new_inner-IsConsistent, alias-IsConsistent, insert_peer-IsConsistent,
  find_route-remove, remove-IsConsistent,
}

module _ (H : Type 0) where
  pub record Directory : Type 0 where
    pub live : ℕ → Option H
    pub owner : Bytes → Option ℕ

  -- The calls, in any order.
  pub data Call : Type 0 where
    connect : (peer : H) → Call
    alias_to : (id : ℕ) → (key : Bytes) → Call
    disconnect : (id : ℕ) → Call
    look_up : (id : ℕ) → Call
    look_up_by : (key : Bytes) → Call
    has_alias : (id : ℕ) → (key : Bytes) → Call

  pub data Answer : Type 0 where
    done : Answer
    attached : Bool → Answer
    peer : Option H → Answer
    listed : Bool → Answer

-- A call of the registry. Whether a peer has an alias is read from the reverse index.
abbrev make_call : {H : Type 0} → (H → ℕ) → Call H → RegistryInner H → RegistryInner H × Answer H
make_call peer_id (Call.connect p) r = (insert_peer peer_id p r, Answer.done)
make_call peer_id (Call.alias_to id key) r =
    let (r', ok) = alias id key r in (r', Answer.attached ok)
make_call peer_id (Call.disconnect id) r = let (r', p) = remove id r in (r', Answer.peer p)
make_call peer_id (Call.look_up id) r = (r, Answer.peer (get id r))
make_call peer_id (Call.look_up_by key) r = (r, Answer.peer (get_by key r))
make_call peer_id (Call.has_alias id key) r =
    (r, Answer.listed (ltb 0 (count key (aliases_for id r))))

-- `?` on an owner
abbrev pub who : {H : Type 0} → Option ℕ → (ℕ → Option H) → Option H
who none live = none
who (some id) live = live id

-- The same call of the directory.
abbrev answer_call : {H : Type 0} → (H → ℕ) → Call H → Directory H → Directory H × Answer H
answer_call peer_id (Call.connect p) d =
    (record d { live = λ j. if peer_id p == j then some p else d.live j }, Answer.done)
answer_call peer_id (Call.alias_to id key) d = (
  if is_some (d.live id)
      then record d { owner = λ k. if same_text k key then some id else d.owner k }
      else d,
  Answer.attached (is_some (d.live id)),
)
answer_call peer_id (Call.disconnect id) d = (
  record { live = λ j. if id == j then none else d.live j; owner = λ k. drop_owner id (d.owner k) },
  Answer.peer (d.live id),
)
answer_call peer_id (Call.look_up id) d = (d, Answer.peer (d.live id))
answer_call peer_id (Call.look_up_by key) d = (d, Answer.peer (who (d.owner key) d.live))
answer_call peer_id (Call.has_alias id key) d = (d, Answer.listed (is_owner id (d.owner key)))

abbrev pub nobody : {H : Type 0} → Directory H
nobody = record { live = λ id. none; owner = λ key. none }

-- The answers to a sequence of calls.
abbrev pub make_calls : {H : Type 0} → (H → ℕ) → List (Call H) → RegistryInner H → List (Answer H)
make_calls peer_id [] r = []
make_calls peer_id (call ∷ calls) r =
    (make_call peer_id call r).1 ∷ make_calls peer_id calls ((make_call peer_id call r).0)

abbrev pub answer_calls : {H : Type 0} → (H → ℕ) → List (Call H) → Directory H → List (Answer H)
answer_calls peer_id [] d = []
answer_calls peer_id (call ∷ calls) d =
    (answer_call peer_id call d).1 ∷ answer_calls peer_id calls ((answer_call peer_id call d).0)

-- A registry that shows a directory.
pub record Shows {H : Type 0} (r : RegistryInner H) (d : Directory H) : Type 0 where
  pub consistent : IsConsistent r
  pub live : (id : ℕ) → find_id id r.peers ≡ d.live id
  pub owner : (key : Bytes) → find_route key r.aliases ≡ d.owner key

is_listed : (b : Bool) → ltb 0 (if b then 1 else 0) ≡ b
is_listed true = refl
is_listed false = refl

-- What an alias does to each part.
module _ {H : Type 0} where
  alias_attached :
      (id : ℕ) (key : Bytes) (r : RegistryInner H)
      → (alias id key r).1 ≡ is_some (find_id id r.peers)
  unfolding alias
  alias_attached id key r = elim (Bool-cases (is_some (find_id id r.peers))) [
    | inl e ↦ rw e refl
    | inr e ↦ rw e refl
  ]

  alias_peers : (id : ℕ) (key : Bytes) (r : RegistryInner H) → (alias id key r).0.peers ≡ r.peers
  unfolding alias
  alias_peers id key r = elim (Bool-cases (is_some (find_id id r.peers))) [
    | inl e ↦ rw e refl
    | inr e ↦ rw e refl
  ]

  alias_owner :
      (id : ℕ) (key : Bytes) (r : RegistryInner H) (k : Bytes)
      → find_route k ((alias id key r).0.aliases) ≡ (
          if is_some (find_id id r.peers)
          then (if same_text k key then some id else find_route k r.aliases)
          else find_route k r.aliases)
  unfolding alias
  alias_owner id key r k = elim (Bool-cases (is_some (find_id id r.peers))) [
    | inl e ↦ rw e (find_route-insert k key id r.aliases)
    | inr e ↦ rw e refl
  ]

  alias_live :
      (b : Bool) (key : Bytes) (id : ℕ) (d : Directory H) (j : ℕ)
      → d.live j
        ≡ (if b
              then record d { owner = λ k. if same_text k key then some id else d.owner k }
              else d).live
            j
  alias_live true key id d j = refl
  alias_live false key id d j = refl

  alias_owners :
      (b : Bool) (key : Bytes) (id : ℕ) (d : Directory H) (k : Bytes)
      → (if b then (if same_text k key then some id else d.owner k) else d.owner k)
        ≡ (if b
              then record d { owner = λ k. if same_text k key then some id else d.owner k }
              else d).owner
            k
  alias_owners true key id d k = refl
  alias_owners false key id d k = refl

  get_owner-who :
      (o : Option ℕ) (peers : List (ℕ × H)) (live : ℕ → Option H)
      → ((id : ℕ) → find_id id peers ≡ live id)
      → get_owner o peers ≡ who o live
  get_owner-who none peers live e = refl
  get_owner-who (some id) peers live e = e id

module _ {H : Type 0} (peer_id : H → ℕ) where
  new_inner-Shows : Shows (new_inner {H = H}) nobody
  unfolding new_inner find_id find_route
  new_inner-Shows = record {
    consistent = new_inner-IsConsistent;
    live = λ id. refl;
    owner = λ key. refl;
  }

  -- A call keeps what the registry shows, and gets the directory's answer.
  call-Shows :
      (call : Call H) (r : RegistryInner H) (d : Directory H)
      → Shows r d
      → Shows ((make_call peer_id call r).0) ((answer_call peer_id call d).0)
        × ((make_call peer_id call r).1 ≡ (answer_call peer_id call d).1)
  call-Shows (Call.connect p) r d s = (
    record {
      consistent = insert_peer-IsConsistent peer_id p r s.consistent;
      live =
          unfold insert_peer in
          (λ j.
            find_id-insert_id j (peer_id p) p r.peers
            ∙ ap (λ o. if peer_id p == j then some p else o) (s.live j));
      owner = unfold insert_peer in s.owner;
    },
    refl,
  )
  call-Shows (Call.alias_to id key) r d s =
      let same = ap is_some (s.live id) in
      let attached = alias_attached id key r ∙ same in
      (
        record {
          consistent = alias-IsConsistent id key r s.consistent;
          live = λ j.
              ap (find_id j) (alias_peers id key r)
              ∙ s.live j
              ∙ alias_live (is_some (d.live id)) key id d j;
          owner = λ k.
              alias_owner id key r k
              ∙ ap
                  (λ b.
                    if b
                    then (if same_text k key then some id else find_route k r.aliases)
                    else find_route k r.aliases)
                  same
              ∙ ap
                  (λ o. if is_some (d.live id) then (if same_text k key then some id else o) else o)
                  (s.owner k)
              ∙ alias_owners (is_some (d.live id)) key id d k;
        },
        ap Answer.attached attached,
      )
  call-Shows (Call.disconnect id) r d s = (
    record {
      consistent = remove-IsConsistent id r s.consistent;
      live =
          unfold remove in
          (λ j. find_id-remove_id j id r.peers ∙ ap (λ o. if id == j then none else o) (s.live j));
      owner = λ k. find_route-remove id k r s.consistent ∙ ap (drop_owner id) (s.owner k);
    },
    unfold remove in (ap Answer.peer (s.live id)),
  )
  call-Shows (Call.look_up id) r d s = (s, unfold get in (ap Answer.peer (s.live id)))
  call-Shows (Call.look_up_by key) r d s = (
    s,
    unfold get_by in
        (ap Answer.peer (
          ap (λ o. get_owner o r.peers) (s.owner key)
          ∙ get_owner-who (d.owner key) r.peers d.live s.live)),
  )
  call-Shows (Call.has_alias id key) r d s = (
    s,
    ap (λ n. Answer.listed (ltb 0 n)) (s.consistent.listed key id)
        ∙ ap (λ o. Answer.listed (ltb 0 (if is_owner id o then 1 else 0))) (s.owner key)
        ∙ ap Answer.listed (is_listed (is_owner id (d.owner key))),
  )

  calls_agree :
      (calls : List (Call H)) (r : RegistryInner H) (d : Directory H)
      → Shows r d
      → make_calls peer_id calls r ≡ answer_calls peer_id calls d
  calls_agree [] r d s = refl
  calls_agree (call ∷ calls) r d s =
      let (s', answer) = call-Shows call r d s in
      ap (λ a. a ∷ make_calls peer_id calls ((make_call peer_id call r).0)) answer
      ∙ ap (λ l. (answer_call peer_id call d).1 ∷ l) (calls_agree calls _ _ s')

  -- The registry implements the directory: whatever peers connect and disconnect, whatever keys are
  -- attached (also to a peer that has others, or that belonged to another peer, or to nobody) and
  -- whatever is looked up, in any order, every call gets the directory's answer. A key is listed with
  -- a peer exactly when it addresses it, and the keys of a peer that left address nobody.
  pub new_inner-refines :
      (calls : List (Call H))
      → make_calls peer_id calls new_inner ≡ answer_calls peer_id calls nobody
  new_inner-refines calls = calls_agree calls new_inner nobody new_inner-Shows
