-- ===== src/Rest/Negotiation/Best.antt =====
-- Which entry of an `Accept` header wins.
use mathlib.Core.List.{append-nil, append_assoc}
use repe_rs.Prelude.{
  ℕ, ◌≤◌, ◌<◌, ◌≡◌, refl, sym, ap, ◌∙◌, subst, Bytes, List, [], ◌∷◌, ◌++◌, Option, none, some, ltb,
  ◌==◌, if◌then◌else◌, Bool-cases, inl, inr, All, All-append, arith,
}
use repe_rs.JsonPointer.{split}
use repe_rs.Rest.Path.{skip_one}
use repe_rs.Rest.Negotiation.{
  Repr, repr_of, beats, consider, repr_or_json, bare_media, quality_loop, negotiate_loop, negotiate,
}

-- What one entry offers: nothing, if its media range is unknown or its quality is 0.
abbrev pub offer : ℕ → Option Repr → List (ℕ × Repr)
offer quality none = []
offer quality (some repr) = if quality == 0 then [] else (quality, repr) ∷ []

abbrev IsBelow : ℕ → ℕ × Repr → Type 0
IsBelow quality (q, repr) = q < quality

abbrev IsAtMost : ℕ → ℕ × Repr → Type 0
IsAtMost quality (q, repr) = q ≤ quality

-- The offer that wins: those before it have less quality, and those after it no more.
pub record Wins (offers : List (ℕ × Repr)) (quality : ℕ) (repr : Repr) : Type 0 where
  pub before : List (ℕ × Repr)
  pub after : List (ℕ × Repr)
  pub parts : offers ≡ before ++ ((quality, repr) ∷ after)
  pub less : All (IsBelow quality) before
  pub no_more : All (IsAtMost quality) after

abbrev pub IsBest : List (ℕ × Repr) → Option (ℕ × Repr) → Type 0
IsBest offers none = offers ≡ []
IsBest offers (some (quality, repr)) = Wins offers quality repr

IsAtMost-All : (q q' : ℕ) (l : List (ℕ × Repr)) → q < q' → All (IsAtMost q) l → All (IsBelow q') l
IsAtMost-All q q' [] h a = tt
IsAtMost-All q q' ((p, r) ∷ l) h (x, a) = (omega (arith, h, x), IsAtMost-All q q' l h a)

IsBelow-All : (q q' : ℕ) (l : List (ℕ × Repr)) → q < q' → All (IsBelow q) l → All (IsBelow q') l
IsBelow-All q q' [] h a = tt
IsBelow-All q q' ((p, r) ∷ l) h (x, a) = (omega (arith, h, x), IsBelow-All q q' l h a)

-- Another offer wins if it has more quality than the best so far.
IsBest-consider :
    (offers : List (ℕ × Repr)) (best : Option (ℕ × Repr)) (quality : ℕ) (repr : Option Repr)
    → IsBest offers best
    → IsBest (offers ++ offer quality repr) (consider quality repr best)
IsBest-consider offers best quality none b = subst (λ l. IsBest l best) (sym (append-nil offers)) b
IsBest-consider offers best quality (some repr) b = elim (Bool-cases (quality == 0)) [
  | inl refused ↦ rw refused (subst (λ l. IsBest l best) (sym (append-nil offers)) b)
  | inr offered ↦ rw offered (go best b)
]
  where
    go :
        (best : Option (ℕ × Repr))
        → IsBest offers best
        → IsBest
            (offers ++ ((quality, repr) ∷ []))
            (if beats quality best then some (quality, repr) else best)
    go none b = record {
      before = [];
      after = [];
      parts = ap (λ l. l ++ ((quality, repr) ∷ [])) b;
      less = tt;
      no_more = tt;
    }
    go (some (q, r)) b = elim (Bool-cases (ltb q quality)) [
      | inl more ↦ rw more (record {
        before = offers;
        after = [];
        parts = refl;
        less = subst (All (IsBelow quality)) (sym b.parts) (
            All-append (IsBelow quality) b.before ((q, r) ∷ b.after)
              (IsBelow-All q quality b.before (ground (arith, more)) b.less)
              (
                ground (arith, more),
                IsAtMost-All q quality b.after (ground (arith, more)) b.no_more,
              ));
        no_more = tt;
      })
      | inr less ↦ rw less (record {
        before = b.before;
        after = b.after ++ ((quality, repr) ∷ []);
        parts =
            ap (λ l. l ++ ((quality, repr) ∷ [])) b.parts
            ∙ append_assoc b.before ((q, r) ∷ b.after) ((quality, repr) ∷ []);
        less = b.less;
        no_more =
            All-append (IsAtMost q) b.after ((quality, repr) ∷ []) b.no_more
              (ground (arith, less), tt);
      })
    ]

module _ (trim : Bytes → Bytes) (parse_quality : Bytes → ℕ) where
  -- The offers of a header's entries, in its order.
  abbrev pub offers_of : List Bytes → List (ℕ × Repr)
  offers_of [] = []
  offers_of (entry ∷ entries) =
      offer (quality_loop trim parse_quality 1000 (skip_one (split b';' entry)))
        (repr_of (bare_media trim entry b';'))
      ++ offers_of entries

  negotiate_loop-IsBest :
      (entries : List Bytes) (seen : List (ℕ × Repr)) (best : Option (ℕ × Repr))
      → IsBest seen best
      → IsBest (seen ++ offers_of entries) (negotiate_loop trim parse_quality best entries)
  unfolding negotiate_loop
  negotiate_loop-IsBest [] seen best b = subst (λ l. IsBest l best) (sym (append-nil seen)) b
  negotiate_loop-IsBest (entry ∷ entries) seen best b =
      let quality = quality_loop trim parse_quality 1000 (skip_one (split b';' entry)) in
      let repr = repr_of (bare_media trim entry b';') in
      subst (λ l. IsBest l (negotiate_loop trim parse_quality best (entry ∷ entries)))
        (append_assoc seen (offer quality repr) (offers_of entries))
        (negotiate_loop-IsBest entries (seen ++ offer quality repr) (consider quality repr best)
          (IsBest-consider seen best quality repr b))

  -- Negotiation takes the offer of most quality, the first of those with the same; a range that is not
  -- known and one of quality 0 offer nothing, and a header that offers nothing is answered in JSON.
  pub negotiate-IsBest :
      (accept : Bytes)
      → (best : Option (ℕ × Repr)) × IsBest (offers_of (split b',' accept)) best
        × (negotiate trim parse_quality (some accept) ≡ repr_or_json best)
  unfolding negotiate
  negotiate-IsBest accept = (
    negotiate_loop trim parse_quality none (split b',' accept),
    negotiate_loop-IsBest (split b',' accept) [] none refl,
    refl,
  )
