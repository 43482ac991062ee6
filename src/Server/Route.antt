-- ===== src/Server/Route.antt =====
-- Routing: which paths a mount answers for, and which requests are dispatched.
use mathlib.Core.List.{append-nil}
use repe_rs.Prelude.{
  Bytes, Bool, true, false, ◌++◌, [], ◌∷◌, ◌≡◌, ◌⊎◌, ◌↔◌, inl, inr, refl, sym, ap, ◌∙◌, subst, some,
  ◌==◌, is_utf8, arith, Bool-cases, Option-cases,
}
use repe_rs.Constants.{QueryFormat}
use repe_rs.Header.{Header}
use repe_rs.Message.Response.{query_format_or_raw}
use repe_rs.JsonPointer.{starts_with}
use repe_rs.Server.{Router, RouteOutcome, route, get, matches, same_text, strip_prefix}

pub same_text-eq : (a b : Bytes) → same_text a b ≡ true → a ≡ b
unfolding same_text
same_text-eq [] [] e = refl
same_text-eq [] (d ∷ b) e = cc e
same_text-eq (c ∷ a) [] e = cc e
same_text-eq (c ∷ a) (d ∷ b) e = elim (Bool-cases (c == d)) [
  | inl same ↦
      let tail = same_text-eq a b (rw same at e) in
      let head : c ≡ d = ground (arith, same) in cc (tail, head)
  | inr other ↦ cc (rw other at e)
]

pub same_text_refl : (a : Bytes) → same_text a a ≡ true
unfolding same_text
same_text_refl [] = refl
same_text_refl (c ∷ a) = let same : (c == c) ≡ true = ground arith in rw same (same_text_refl a)

pub strip_prefix-eq : (p path rest : Bytes) → strip_prefix p path ≡ some rest → path ≡ p ++ rest
unfolding strip_prefix
strip_prefix-eq [] path rest e = cc e
strip_prefix-eq (c ∷ p) [] rest e = cc e
strip_prefix-eq (c ∷ p) (d ∷ path) rest e = elim (Bool-cases (c == d)) [
  | inl same ↦
      let tail = strip_prefix-eq p path rest (rw same at e) in
      let head : c ≡ d = ground (arith, same) in cc (tail, head)
  | inr other ↦ cc (rw other at e)
]

strip_prefix-append : (p rest : Bytes) → strip_prefix p (p ++ rest) ≡ some rest
unfolding strip_prefix
strip_prefix-append [] rest = refl
strip_prefix-append (c ∷ p) rest =
    let same : (c == c) ≡ true = ground arith in rw same (strip_prefix-append p rest)

-- A mount answers for its prefix and for what lies below it at a separator, and for nothing else: a
-- path that only begins with the same letters (`/api2` for `/api`) is not its own. The empty prefix
-- answers for every path.
matches_iff :
    (prefix path : Bytes)
    → (matches prefix path ≡ true) ↔ (
        (prefix ≡ [])
        ⊎ ((rest : Bytes) × (path ≡ prefix ++ rest)
            × ((rest ≡ []) ⊎ (starts_with b'/' rest ≡ true))))
unfolding matches
matches_iff [] path = (λ e. inl refl, λ h. refl)
matches_iff (c ∷ p) path = (below, answers)
  where
    below :
        matches (c ∷ p) path ≡ true
        → (c ∷ p ≡ [])
          ⊎ ((rest : Bytes) × (path ≡ c ∷ p ++ rest)
              × ((rest ≡ []) ⊎ (starts_with b'/' rest ≡ true)))
    below e = elim (Bool-cases (same_text path (c ∷ p))) [
      | inl same ↦ inr ([], same_text-eq path (c ∷ p) same ∙ sym (append-nil (c ∷ p)), inl refl)
      | inr other ↦ elim (Option-cases (strip_prefix (c ∷ p) path)) [
        | inl n ↦ cc (rw (other, n) at e)
        | inr (rest, q) ↦ inr (rest, strip_prefix-eq (c ∷ p) path rest q, inr (rw (other, q) at e))
      ]
    ]

    answers :
        (c ∷ p ≡ [])
          ⊎ ((rest : Bytes) × (path ≡ c ∷ p ++ rest)
              × ((rest ≡ []) ⊎ (starts_with b'/' rest ≡ true)))
        → matches (c ∷ p) path ≡ true
    answers (inl q) = cc q
    answers (inr (rest, q, inl r)) =
        let whole : path ≡ c ∷ p = q ∙ ap (λ l. c ∷ p ++ l) r ∙ append-nil (c ∷ p) in
        let same : same_text path (c ∷ p) ≡ true =
          subst (λ l. same_text l (c ∷ p) ≡ true) (sym whole) (same_text_refl (c ∷ p)) in
        rw same refl
    answers (inr (rest, q, inr r)) = elim (Bool-cases (same_text path (c ∷ p))) [
      | inl same ↦ rw same refl
      | inr other ↦
          let cut : strip_prefix (c ∷ p) path ≡ some rest =
            subst (λ l. strip_prefix (c ∷ p) l ≡ some rest) (sym q)
              (strip_prefix-append (c ∷ p) rest) in
          rw (other, cut) r
    ]

-- A request is dispatched exactly when its version is this one, its query is a JSON pointer in valid
-- UTF-8 and the router has a handler for it; it goes to that handler with its own path, as a notify
-- if the notify flag is 1.
pub route_iff :
    {H : Type 0} (router : Router H) (header : Header) (query : Bytes) (h : H) (n : Bool)
    (p : Bytes)
    → (route router header query ≡ RouteOutcome.dispatch_to h n p) ↔ (
        (header.version ≡ 1)
        × (header.query_format ≡ 1)
        × (is_utf8 query ≡ true)
        × (get router query ≡ some h)
        × (n ≡ (header.notify == 1))
        × (p ≡ query))
unfolding route query_format_or_raw
route_iff router header query h n p = (needs, suffices)
  where
    needs :
        route router header query ≡ RouteOutcome.dispatch_to h n p
        → (header.version ≡ 1)
          × (header.query_format ≡ 1)
          × (is_utf8 query ≡ true)
          × (get router query ≡ some h)
          × (n ≡ (header.notify == 1))
          × (p ≡ query)
    needs e = elim (Bool-cases (header.version == 1)) [
      | inr v ↦ cc (rw v at e)
      | inl v ↦ elim (Bool-cases (header.query_format == 1)) [
        | inr f ↦ elim (Bool-cases (header.query_format == 0)) [
          | inl z ↦ cc (rw (v, z) at e)
          | inr z ↦ cc (rw (v, z, f) at e)
        ]
        | inl f ↦
            let z : (header.query_format == 0) ≡ false = ground (arith, f) in
            elim (Bool-cases (is_utf8 query)) [
              | inr t ↦ cc (rw (v, z, f, t) at e)
              | inl t ↦ elim (Option-cases (get router query)) [
                | inl m ↦ cc (rw (v, z, f, t, m) at e)
                | inr (h', m) ↦
                    let same : RouteOutcome.dispatch_to h' (header.notify == 1) query
                        ≡ RouteOutcome.dispatch_to h n p =
                      rw (v, z, f, t, m) at e in
                    (ground (arith, v), ground (arith, f), t, cc (m, same), cc (same), cc (same))
              ]
            ]
      ]
    ]

    suffices :
        (header.version ≡ 1)
          × (header.query_format ≡ 1)
          × (is_utf8 query ≡ true)
          × (get router query ≡ some h)
          × (n ≡ (header.notify == 1))
          × (p ≡ query)
        → route router header query ≡ RouteOutcome.dispatch_to h n p
    suffices (v, f, t, m, a, b) = rw (v, f, t, m, a, b) refl

abbrev pub notify_of : {H : Type 0} → RouteOutcome H → Bool
notify_of (RouteOutcome.dispatch_to handler n path) = n
notify_of (RouteOutcome.reject n code message) = n

-- Every outcome carries the request's notify flag.
pub notify_of-route :
    {H : Type 0} (router : Router H) (header : Header) (query : Bytes)
    → notify_of (route router header query) ≡ (header.notify == 1)
unfolding route
notify_of-route router header query = elim (Bool-cases (header.version == 1)) [
  | inr v ↦ rw v refl
  | inl v ↦ elim (format-cases (query_format_or_raw header.query_format)) [
    | inl f ↦ rw (v, f) refl
    | inr f ↦ elim (Bool-cases (is_utf8 query)) [
      | inr t ↦ rw (v, f, t) refl
      | inl t ↦ elim (Option-cases (get router query)) [
        | inl m ↦ rw (v, f, t, m) refl
        | inr (h, m) ↦ rw (v, f, t, m) refl
      ]
    ]
  ]
]
  where
    format-cases : (f : QueryFormat) → (f ≡ QueryFormat.raw_binary) ⊎ (f ≡ QueryFormat.json_pointer)
    format-cases QueryFormat.raw_binary = inl refl
    format-cases QueryFormat.json_pointer = inr refl
