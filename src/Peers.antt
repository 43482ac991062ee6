-- ===== src/Peers.antt =====
-- src/peer.rs: the registry of connected peers and of the keys that address them.
-- A peer's handle is a parameter `H`: an id is a number, and the two maps with numbers as keys and
-- the one with texts as keys are association lists. Release code: a debug build also panics where an
-- insertion overwrites a peer or the counter reaches the detached id.
pub mod Aliases
pub mod Consistency
pub mod Spec
use repe_rs.Prelude.{
  ℕ, ◌+◌, ◌-◌, ◌%◌, ◌^◌, Bytes, Bool, true, false, List, [], ◌∷◌, ◌++◌, Option, none, some, ◌==◌,
  if◌then◌else◌, find_id, insert_id, remove_id,
}
use repe_rs.Server.{same_text, find_route}
use repe_rs.Registry
use repe_rs.Registry.{insert}

module _ (H : Type 0) where
  pub record RegistryInner : Type 0 where
    pub peers : List (ℕ × H)
    pub aliases : List (Bytes × ℕ)
    pub alias_index : List (ℕ × List Bytes)

-- `PeerRegistry::new`, without its counter.
unfoldable pub new_inner : {H : Type 0} → RegistryInner H
new_inner = record { peers = []; aliases = []; alias_index = [] }

-- `next_peer_id`: the id, and the counter after it.
unfoldable pub next_peer_id : ℕ → ℕ × ℕ
next_peer_id counter = (counter, (counter + 1) % 2 ^ 64)

-- `HashMap::remove` with a text as the key
unfoldable pub remove_key : {V : Type 0} → Bytes → List (Bytes × V) → List (Bytes × V)
unfolding same_text
remove_key key [] = []
remove_key key ((k, v) ∷ m) =
    let later = remove_key key m in if same_text key k then later else (k, v) ∷ later

-- `keys.retain(|k| k != key)`
unfoldable pub retain_others : Bytes → List Bytes → List Bytes
unfolding same_text
retain_others key [] = []
retain_others key (k ∷ keys) =
    let later = retain_others key keys in if same_text key k then later else k ∷ later

-- `unwrap_or_default`
abbrev pub or_empty : Option (List Bytes) → List Bytes
or_empty none = []
or_empty (some keys) = keys

unfoldable pub aliases_for : {H : Type 0} → ℕ → RegistryInner H → List Bytes
aliases_for id r = or_empty (find_id id r.alias_index)

abbrev first : List Bytes → Option Bytes
first [] = none
first (key ∷ keys) = some key

unfoldable pub key_for : {H : Type 0} → ℕ → RegistryInner H → Option Bytes
unfolding aliases_for
key_for id r = first (aliases_for id r)

unfoldable pub get : {H : Type 0} → ℕ → RegistryInner H → Option H
get id r = find_id id r.peers

-- `?` on an id, and the look-up.
abbrev pub get_owner : {H : Type 0} → Option ℕ → List (ℕ × H) → Option H
get_owner none peers = none
get_owner (some id) peers = find_id id peers

unfoldable pub get_by : {H : Type 0} → Bytes → RegistryInner H → Option H
get_by key r = get_owner (find_route key r.aliases) r.peers

-- The index without `key` under its previous owner.
unfoldable pub detach :
    ℕ → Bytes → Option (List Bytes) → List (ℕ × List Bytes) → List (ℕ × List Bytes)
unfolding retain_others
detach prev key none index = index
detach prev key (some keys) index = insert_id prev (retain_others key keys) index

-- `entry(id).or_default().push(key)`
unfoldable pub push_key : ℕ → Bytes → List (ℕ × List Bytes) → List (ℕ × List Bytes)
push_key id key index = insert_id id (or_empty (find_id id index) ++ (key ∷ [])) index

-- The index after `key` was given to `id`, on its previous owner.
unfoldable pub index_alias : ℕ → Bytes → Option ℕ → List (ℕ × List Bytes) → List (ℕ × List Bytes)
unfolding push_key detach
index_alias id key none index = push_key id key index
index_alias id key (some prev) index =
    if prev == id then index else push_key id key (detach prev key (find_id prev index) index)

-- `contains_key`
abbrev pub is_some : {A : Type 0} → Option A → Bool
is_some none = false
is_some (some a) = true

unfoldable pub alias : {H : Type 0} → ℕ → Bytes → RegistryInner H → RegistryInner H × Bool
unfolding insert index_alias
alias id key r =
    let aliased = record r {
      aliases = insert key id r.aliases;
      alias_index = index_alias id key (find_route key r.aliases) r.alias_index;
    } in
    if is_some (find_id id r.peers) then (aliased, true) else (r, false)

unfoldable pub insert_peer : {H : Type 0} → (H → ℕ) → H → RegistryInner H → RegistryInner H
insert_peer peer_id peer r = record r { peers = insert_id (peer_id peer) peer r.peers }

-- `aliases.get(key) == Some(id)`
abbrev pub is_owner : ℕ → Option ℕ → Bool
is_owner id none = false
is_owner id (some j) = j == id

unfoldable pub purge : ℕ → List Bytes → List (Bytes × ℕ) → List (Bytes × ℕ)
unfolding find_route remove_key
purge id [] aliases = aliases
purge id (key ∷ keys) aliases =
    purge id keys (if is_owner id (find_route key aliases) then remove_key key aliases else aliases)

-- `remove`; a peer without an entry in the index has no aliases to purge.
unfoldable pub remove : {H : Type 0} → ℕ → RegistryInner H → RegistryInner H × Option H
unfolding purge
remove id r = (
  record {
    peers = remove_id id r.peers;
    aliases = purge id (or_empty (find_id id r.alias_index)) r.aliases;
    alias_index = remove_id id r.alias_index;
  },
  find_id id r.peers,
)
