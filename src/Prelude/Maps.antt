-- ===== src/Prelude/Maps.antt =====
-- A hash map with numbers as keys: an association list, its newest entry for a key first found.
use Prim.Native.Nat.{ℕ, ◌+◌, ◌≤◌, max}
use mathlib.Core.Path.{◌≡◌, refl}
use mathlib.Core.List.{List, [], ◌∷◌, ◌++◌}
use mathlib.Core.Option.{Option, none, some}
use native.Mathlib.Omega.{arith}
use repe_rs.Prelude.Tests.{◌==◌, if◌then◌else◌}

module _ {ℓ} {V : Type ℓ} where
  unfoldable pub find_id : ℕ → List (ℕ × V) → Option V
  find_id k [] = none
  find_id k ((j, v) ∷ m) = let later = find_id k m in if j == k then some v else later

  unfoldable pub insert_id : ℕ → V → List (ℕ × V) → List (ℕ × V)
  insert_id k v [] = (k, v) ∷ []
  insert_id k v ((j, w) ∷ m) =
      let later = insert_id k v m in if j == k then (k, v) ∷ m else (j, w) ∷ later

  unfoldable pub remove_id : ℕ → List (ℕ × V) → List (ℕ × V)
  remove_id k [] = []
  remove_id k ((j, w) ∷ m) = let later = remove_id k m in if j == k then later else (j, w) ∷ later

  pub find_id-insert_id :
      (j k : ℕ) (v : V) (m : List (ℕ × V))
      → find_id j (insert_id k v m) ≡ (if k == j then some v else find_id j m)
  unfolding find_id insert_id
  find_id-insert_id j k v [] = refl
  find_id-insert_id j k v ((i, w) ∷ m) = ground (arith, find_id-insert_id j k v m)

  pub find_id-remove_id :
      (j k : ℕ) (m : List (ℕ × V))
      → find_id j (remove_id k m) ≡ (if k == j then none else find_id j m)
  unfolding find_id remove_id
  find_id-remove_id j k [] = ground arith
  find_id-remove_id j k ((i, w) ∷ m) = ground (arith, find_id-remove_id j k m)

  -- How many entries a list has for a key.
  abbrev pub entries : ℕ → List (ℕ × V) → ℕ
  entries j [] = 0
  entries j ((k, v) ∷ m) = (if k == j then 1 else 0) + entries j m

  pub entries-append : (j : ℕ) (m n : List (ℕ × V)) → entries j (m ++ n) ≡ entries j m + entries j n
  entries-append j [] n = omega arith
  entries-append j ((k, v) ∷ m) n = omega (arith, entries-append j m n)

  pub entries-insert_id :
      (j k : ℕ) (v : V) (m : List (ℕ × V))
      → entries j (insert_id k v m) ≡ (if k == j then max 1 (entries j m) else entries j m)
  unfolding insert_id
  entries-insert_id j k v [] = ground arith
  entries-insert_id j k v ((i, w) ∷ m) = ground (arith, entries-insert_id j k v m)

  pub entries-remove_id :
      (j k : ℕ) (m : List (ℕ × V)) → entries j (remove_id k m) ≡ (if k == j then 0 else entries j m)
  unfolding remove_id
  entries-remove_id j k [] = ground arith
  entries-remove_id j k ((i, w) ∷ m) = ground (arith, entries-remove_id j k m)

  pub find_id-entries : (k : ℕ) (m : List (ℕ × V)) (v : V) → find_id k m ≡ some v → 1 ≤ entries k m
  unfolding find_id
  find_id-entries k [] v e = cc e
  find_id-entries k ((i, w) ∷ m) v e = ground (arith, e, find_id-entries k m v)
