-- ===== src/Peers/Aliases.antt =====
-- The key maps: what a removal, a purge and a change of owner do to a look-up and to the reverse index.
use repe_rs.Prelude.{
  ℕ, ◌+◌, ◌≡◌, inl, inr, refl, sym, ap, ◌∙◌, subst, Bytes, Bool, true, false, ltb, List, [], ◌∷◌,
  ◌++◌, Option, none, some, ◌==◌, if◌then◌else◌, Bool-cases, find_id, find_id-insert_id, arith,
}
use repe_rs.Server.{same_text, find_route}
use repe_rs.Server.Route.{same_text-eq}
use repe_rs.Peers.{remove_key, retain_others, or_empty, detach, push_key, is_owner, purge}

-- Equal texts compare alike with a third.
same_text_congr : (a b c : Bytes) → same_text b c ≡ true → same_text a b ≡ same_text a c
same_text_congr a b c e = ap (λ x. same_text a x) (same_text-eq b c e)

same_text_sym : (a b : Bytes) → same_text a b ≡ same_text b a
same_text_sym a b = elim (Bool-cases (same_text a b)) [
  | inl e ↦
      ap (λ x. same_text x b) (same_text-eq a b e)
      ∙ ap (λ x. same_text b x) (sym (same_text-eq a b e))
  | inr e ↦ elim (Bool-cases (same_text b a)) [
    | inl f ↦
        ap (λ x. same_text a x) (same_text-eq b a f)
        ∙ ap (λ x. same_text x a) (sym (same_text-eq b a f))
    | inr f ↦ e ∙ sym f
  ]
]

find_route-remove_key :
    {V : Type 0} (p key : Bytes) (m : List (Bytes × V))
    → find_route p (remove_key key m) ≡ (if same_text p key then none else find_route p m)
unfolding find_route remove_key
find_route-remove_key p key [] = elim (Bool-cases (same_text p key)) [
  | inl e ↦ rw e refl
  | inr e ↦ rw e refl
]
find_route-remove_key p key ((k, v) ∷ m) =
    let ih = find_route-remove_key p key m in
    elim (Bool-cases (same_text key k)) [
      | inl e ↦ let c = same_text_congr p key k e in ground (arith, e, ih, c)
      | inr e ↦ elim (Bool-cases (same_text p k)) [
        | inl q ↦
            let c : same_text p key ≡ false = same_text_sym p key ∙ same_text_congr key p k q ∙ e in
            ground (arith, e, q, c)
        | inr q ↦ ground (arith, e, q, ih)
      ]
    ]

-- How often a list has a key.
abbrev pub count : Bytes → List Bytes → ℕ
count key [] = 0
count key (k ∷ keys) = (if same_text key k then 1 else 0) + count key keys

count-append :
    (key : Bytes) (xs ys : List Bytes) → count key (xs ++ ys) ≡ count key xs + count key ys
count-append key [] ys = omega arith
count-append key (x ∷ xs) ys = omega (arith, count-append key xs ys)

count-retain_others :
    (k key : Bytes) (keys : List Bytes)
    → count k (retain_others key keys) ≡ (if same_text k key then 0 else count k keys)
unfolding retain_others
count-retain_others k key [] = elim (Bool-cases (same_text k key)) [
  | inl e ↦ rw e refl
  | inr e ↦ rw e refl
]
count-retain_others k key (x ∷ keys) =
    let ih = count-retain_others k key keys in
    elim (Bool-cases (same_text key x)) [
      | inl e ↦ let c = same_text_congr k key x e in ground (arith, e, ih, c)
      | inr e ↦ elim (Bool-cases (same_text k x)) [
        | inl q ↦
            let c : same_text k key ≡ false = same_text_sym k key ∙ same_text_congr key k x q ∙ e in
            ground (arith, e, q, c, ih)
        | inr q ↦ ground (arith, e, q, ih)
      ]
    ]

-- The owner of a key once `id` owns nothing.
abbrev pub drop_owner : ℕ → Option ℕ → Option ℕ
drop_owner id o = if is_owner id o then none else o

drop_owner-drop_owner : (id : ℕ) (o : Option ℕ) → drop_owner id (drop_owner id o) ≡ drop_owner id o
drop_owner-drop_owner id none = refl
drop_owner-drop_owner id (some j) = elim (Bool-cases (j == id)) [
  | inl e ↦ rw e refl
  | inr e ↦ rw (e, e) refl
]

find_route-purge_one :
    (id : ℕ) (k key : Bytes) (aliases : List (Bytes × ℕ))
    → find_route k
        (if is_owner id (find_route key aliases) then remove_key key aliases else aliases)
      ≡ (if same_text k key then drop_owner id (find_route k aliases) else find_route k aliases)
find_route-purge_one id k key aliases =
    let removed = find_route-remove_key k key aliases in
    elim (Bool-cases (same_text k key)) [
      | inl same ↦
          let owner : find_route k aliases ≡ find_route key aliases =
            ap (λ x. find_route x aliases) (same_text-eq k key same) in
          elim (Bool-cases (is_owner id (find_route key aliases))) [
            | inl own ↦ rw (same, owner, own, removed, same) refl
            | inr other ↦ rw (same, owner, other) owner
          ]
      | inr differs ↦ elim (Bool-cases (is_owner id (find_route key aliases))) [
        | inl own ↦ rw (differs, own, removed, differs) refl
        | inr other ↦ rw (differs, other) refl
      ]
    ]

-- A purge takes the listed keys from `id`, and from nobody else.
pub find_route-purge :
    (id : ℕ) (k : Bytes) (keys : List Bytes) (aliases : List (Bytes × ℕ))
    → find_route k (purge id keys aliases) ≡ (
        if ltb 0 (count k keys) then drop_owner id (find_route k aliases) else find_route k aliases)
unfolding purge
find_route-purge id k [] aliases = refl
find_route-purge id k (key ∷ keys) aliases =
    let one = find_route-purge_one id k key aliases in
    let rest =
      find_route-purge id k keys
        (if is_owner id (find_route key aliases) then remove_key key aliases else aliases) in
    rest
    ∙ ap (λ o. if ltb 0 (count k keys) then drop_owner id o else o) one
    ∙ go (same_text k key) (count k keys) (find_route k aliases)
  where
    go :
        (b : Bool) (n : ℕ) (o : Option ℕ)
        → (if ltb 0 n
            then drop_owner id (if b then drop_owner id o else o)
            else (if b then drop_owner id o else o))
          ≡ (if ltb 0 ((if b then 1 else 0) + n) then drop_owner id o else o)
    go false n o = let e : 0 + n ≡ n = omega arith in rw e refl
    go true n o =
        let e : ltb 0 (1 + n) ≡ true = ground arith in
        elim (Bool-cases (ltb 0 n)) [
          | inl f ↦ rw (f, e) (drop_owner-drop_owner id o)
          | inr f ↦ rw (f, e) refl
        ]

pub count-push_key :
    (k key : Bytes) (id j : ℕ) (index : List (ℕ × List Bytes))
    → count k (or_empty (find_id j (push_key id key index)))
      ≡ count k (or_empty (find_id j index))
        + (if id == j then (if same_text k key then 1 else 0) else 0)
unfolding push_key
count-push_key k key id j index = elim (Bool-cases (id == j)) [
  | inl e ↦
      let same : id ≡ j = ground (arith, e) in
      let found = find_id-insert_id j id (or_empty (find_id id index) ++ (key ∷ [])) index in
      rw (found, e)
        (count-append k (or_empty (find_id id index)) (key ∷ [])
          ∙ ap
              (λ i. count k (or_empty (find_id i index)) + ((if same_text k key then 1 else 0) + 0))
              same
          ∙ omega arith)
  | inr e ↦
      let found = find_id-insert_id j id (or_empty (find_id id index) ++ (key ∷ [])) index in
      rw (found, e) (omega arith)
]

pub count-detach :
    (k key : Bytes) (prev j : ℕ) (index : List (ℕ × List Bytes))
    → count k (or_empty (find_id j (detach prev key (find_id prev index) index))) ≡ (
        if prev == j
        then (if same_text k key then 0 else count k (or_empty (find_id j index)))
        else count k (or_empty (find_id j index)))
unfolding detach
count-detach k key prev j index = go (find_id prev index) refl
  where
    go :
        (o : Option (List Bytes))
        → find_id prev index ≡ o
        → count k (or_empty (find_id j (detach prev key o index))) ≡ (
            if prev == j
            then (if same_text k key then 0 else count k (or_empty (find_id j index)))
            else count k (or_empty (find_id j index)))
    go none f = elim (Bool-cases (prev == j)) [
      | inl e ↦
          let same : prev ≡ j = ground (arith, e) in
          let nothing : find_id j index ≡ none = subst (λ i. find_id i index ≡ none) same f in
          elim (Bool-cases (same_text k key)) [
            | inl q ↦ rw (nothing, e, q) refl
            | inr q ↦ rw (nothing, e, q) refl
          ]
      | inr e ↦ rw e refl
    ]
    go (some keys) f =
        let found = find_id-insert_id j prev (retain_others key keys) index in
        elim (Bool-cases (prev == j)) [
          | inl e ↦
              let same : prev ≡ j = ground (arith, e) in
              let own : find_id j index ≡ some keys =
                subst (λ i. find_id i index ≡ some keys) same f in
              rw (found, e, own) (count-retain_others k key keys)
          | inr e ↦ rw (found, e) refl
        ]
