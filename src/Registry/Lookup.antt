-- ===== src/Registry/Lookup.antt =====
-- The registry's table: what a registration changes for every later lookup.
use repe_rs.Prelude.{
  Bytes, Bool, true, false, List, [], ◌∷◌, none, some, ◌≡◌, ◌≢◌, ◌⊎◌, inl, inr, Outcome, ok, err,
  panic, refl, sym, ap, ◌∙◌, subst, if◌then◌else◌, map_err, return_err_if, ◌>>=◌, >>=-eq-ok,
  Bool-cases,
}
use repe_rs.JsonPointer.{addresses_root}
use repe_rs.Server.{same_text, find_route}
use repe_rs.Server.Route.{same_text-eq, same_text_refl}
use repe_rs.Registry.{
  RegistryError, canonical_key, insert, absolute, register_function_arc, resolve,
}

same_text-ne : (a b : Bytes) → same_text a b ≡ false → a ≢ b
same_text-ne a b e q =
    let same : same_text a b ≡ true = subst (λ x. same_text a x ≡ true) q (same_text_refl a) in
    cc (same, e)

-- The map's law.
pub find_route-insert :
    {F : Type 0} (p key : Bytes) (f : F) (state : List (Bytes × F))
    → find_route p (insert key f state) ≡ (if same_text p key then some f else find_route p state)
unfolding find_route insert
find_route-insert p key f [] = refl
find_route-insert p key f ((k, g) ∷ rest) = elim (Bool-cases (same_text key k)) [
  | inl same ↦ rw same (elim (Bool-cases (same_text p key)) [
    | inl hit ↦ rw hit refl
    | inr miss ↦
        let miss' : same_text p k ≡ false =
          subst (λ x. same_text p x ≡ false) (same_text-eq key k same) miss in
        rw (miss, miss') refl
  ])
  | inr other ↦ rw other (elim (Bool-cases (same_text p k)) [
    | inl hit ↦
        let p_k = same_text-eq p k hit in
        let miss : same_text p key ≡ false = elim (Bool-cases (same_text p key)) [
          | inl q ↦ absurd (same_text-ne key k other (sym (same_text-eq p key q) ∙ p_k))
          | inr q ↦ q
        ] in
        rw (hit, miss) refl
    | inr miss ↦ rw miss (find_route-insert p key f rest)
  ])
]

canonical_key-eq-ok :
    (p k : Bytes)
    → canonical_key p ≡ ok k
    → (k ≡ p) ⊎ ((addresses_root p ≡ true) × (addresses_root k ≡ true))
unfolding canonical_key
canonical_key-eq-ok p k e = elim (Bool-cases (addresses_root p)) [
  | inl root ↦
      let key : b'/' ∷ [] ≡ k = cc (rw root at e) in
      inr (root, subst (λ x. addresses_root x ≡ true) key (unfold addresses_root in refl))
  | inr other ↦ let (x, checked, same) = >>=-eq-ok _ (λ y. ok p) (rw other at e) in inl (cc (same))
]

register-eq-ok :
    {F : Type 0} (path : Bytes) (f : F) (state state' : List (Bytes × F))
    → register_function_arc path f state ≡ ok state'
    → (addresses_root (absolute path) ≡ false)
      × (canonical_key (absolute path) ≡ ok (absolute path))
      × (state' ≡ insert (absolute path) f state)
unfolding register_function_arc
register-eq-ok {F} path f state state' e =
    let (other, (key, checked, stored)) =
      go (addresses_root (absolute path)) (canonical_key (absolute path)) e in
    let whole : key ≡ absolute path = elim (canonical_key-eq-ok (absolute path) key checked) [
      | inl same ↦ same
      | inr (root, slash) ↦ cc (root, other)
    ] in
    (other, checked ∙ ap ok whole, sym stored ∙ ap (λ k. insert k f state) whole)
  where
    go :
        (b : Bool) (o : Outcome RegistryError Bytes)
        → (return_err_if b (RegistryError.invalid_pointer path) >>= λ x.
            map_err (λ y. RegistryError.invalid_pointer path) o >>= λ k. ok (insert k f state))
          ≡ ok state'
        → (b ≡ false) × ((k : Bytes) × (o ≡ ok k) × (insert k f state ≡ state'))
    go true o q = cc q
    go false (ok k) q = (refl, (k, refl, cc q))
    go false (err x) q = cc q
    go false panic q = cc q

-- After a registration, a pointer that is the registered path (with its leading slash) resolves to
-- the new function, whatever stood there before, and every other pointer resolves as it did: to its
-- own function, to a missing path, or to a malformed pointer.
pub resolve-register :
    {F : Type 0} (path : Bytes) (f : F) (state state' : List (Bytes × F)) (p : Bytes)
    → register_function_arc path f state ≡ ok state'
    → resolve p state' ≡ (if same_text p (absolute path) then ok f else resolve p state)
unfolding resolve
resolve-register {F} path f state state' p e =
    let (other, own, stored) = register-eq-ok path f state state' e in
    rw stored (elim (Bool-cases (same_text p (absolute path))) [
      | inl same ↦
          let key : canonical_key p ≡ ok (absolute path) =
            subst (λ x. canonical_key x ≡ ok (absolute path))
              (sym (same_text-eq p (absolute path) same)) own in
          rw same (hit (canonical_key p) key)
      | inr differs ↦ rw differs (
          go (canonical_key p) (λ k q.
            let miss : same_text k (absolute path) ≡ false = elim (canonical_key-eq-ok p k q) [
              | inl s ↦ subst (λ x. same_text x (absolute path) ≡ false) (sym s) differs
              | inr (r, root) ↦ elim (Bool-cases (same_text k (absolute path))) [
                | inl hit ↦
                    let kp = same_text-eq k (absolute path) hit in
                    let bad : addresses_root (absolute path) ≡ true =
                      subst (λ x. addresses_root x ≡ true) kp root in
                    cc (bad, other)
                | inr s ↦ s
              ]
            ] in
            miss))
    ])
  where
    hit :
        (o : Outcome RegistryError Bytes)
        → o ≡ ok (absolute path)
        → (o >>= λ k.
            elim (find_route k (insert (absolute path) f state)) as (λ x. Outcome RegistryError F) [
              | some g ↦ ok g
              | none ↦ err (RegistryError.path_not_found p)
            ])
          ≡ ok f
    hit o q =
        ap
          (λ x. x >>= λ k.
            elim (find_route k (insert (absolute path) f state)) as (λ x. Outcome RegistryError F) [
              | some g ↦ ok g
              | none ↦ err (RegistryError.path_not_found p)
            ])
          q
        ∙ ap
            (λ o. elim o as (λ x. Outcome RegistryError F) [
              | some g ↦ ok g
              | none ↦ err (RegistryError.path_not_found p)
            ])
            (find_route-insert (absolute path) (absolute path) f state
              ∙ ap (λ b. if b then some f else find_route (absolute path) state)
                  (same_text_refl (absolute path)))

    go :
        (o : Outcome RegistryError Bytes)
        → ((k : Bytes) → o ≡ ok k → same_text k (absolute path) ≡ false)
        → (o >>= λ k.
            elim (find_route k (insert (absolute path) f state)) as (λ x. Outcome RegistryError F) [
              | some g ↦ ok g
              | none ↦ err (RegistryError.path_not_found p)
            ])
          ≡ (o >>= λ k. elim (find_route k state) as (λ x. Outcome RegistryError F) [
            | some g ↦ ok g
            | none ↦ err (RegistryError.path_not_found p)
          ])
    go (ok k) h =
        ap
          (λ o. elim o as (λ x. Outcome RegistryError F) [
            | some g ↦ ok g
            | none ↦ err (RegistryError.path_not_found p)
          ])
          (find_route-insert k (absolute path) f state
            ∙ ap (λ b. if b then some f else find_route k state) (h k refl))
    go (err x) h = refl
    go panic h = refl
