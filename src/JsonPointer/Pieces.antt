-- ===== src/JsonPointer/Pieces.antt =====
-- Cutting a pointer at its separators, and putting the pieces together again.
use mathlib.Core.List.{append-nil, append_assoc}
use repe_rs.Prelude.{
  ℕ, Bytes, false, List, [], ◌∷◌, ◌++◌, ◌==◌, ◌≡◌, refl, ap, ◌∙◌, sym, arith, All, map, Bool-cases,
  inl, inr,
}
use repe_rs.JsonPointer.{contains, split, cons_head, push_tokens, canonical, escape_token}
use repe_rs.JsonPointer.Tokens.{escaped, escape_token-eq}

abbrev pub NoSlash : Bytes → Type 0
NoSlash t = contains b'/' t ≡ false

-- Each piece behind a separator.
abbrev pub slashed : List Bytes → Bytes
slashed [] = []
slashed (t ∷ ts) = b'/' ∷ (t ++ slashed ts)

cons_head-NoSlash :
    (c : ℕ) (ps : List Bytes) → (c == b'/') ≡ false → All NoSlash ps → All NoSlash (cons_head c ps)
unfolding contains
cons_head-NoSlash c [] p a = (rw p, tt)
cons_head-NoSlash c (t ∷ ts) p a = (rw p a.0, a.1)

pub split-NoSlash : (s : Bytes) → All NoSlash (split b'/' s)
unfolding split
split-NoSlash [] = (unfold contains in refl, tt)
split-NoSlash (c ∷ s) = elim (Bool-cases (c == b'/')) [
  | inl sep ↦ rw sep (unfold contains in refl, split-NoSlash s)
  | inr other ↦ rw other (cons_head-NoSlash c (split b'/' s) other (split-NoSlash s))
]

slashed-cons_head :
    (c : ℕ) (ps : List Bytes) (s : Bytes)
    → slashed ps ≡ b'/' ∷ s
    → slashed (cons_head c ps) ≡ b'/' ∷ c ∷ s
slashed-cons_head c [] s p = absurd (cc)
slashed-cons_head c (t ∷ ts) s p = ground (arith, p)

-- The pieces of `s`, each behind a separator, are `s` behind one.
pub slashed-split : (s : Bytes) → slashed (split b'/' s) ≡ b'/' ∷ s
unfolding split
slashed-split [] = refl
slashed-split (c ∷ s) = elim (Bool-cases (c == b'/')) [
  | inl sep ↦ rw sep (ground (arith, slashed-split s))
  | inr other ↦ rw other (slashed-cons_head c (split b'/' s) s (slashed-split s))
]

-- A first piece that holds no separator is cut off whole.
split_first : (t v : Bytes) → NoSlash t → split b'/' (t ++ (b'/' ∷ v)) ≡ t ∷ split b'/' v
unfolding split contains
split_first [] v p = refl
split_first (c ∷ t) v p = ground (arith, split_first t v)

split_last : (t : Bytes) → NoSlash t → split b'/' t ≡ t ∷ []
unfolding split contains
split_last [] p = refl
split_last (c ∷ t) p = ground (arith, split_last t)

pub split-slashed :
    (t : Bytes) (ts : List Bytes)
    → NoSlash t
    → All NoSlash ts
    → split b'/' (t ++ slashed ts) ≡ t ∷ ts
split-slashed t [] p a = rw append-nil (split_last t p)
split-slashed t (u ∷ ts) p a =
    split_first t (u ++ slashed ts) p ∙ ap (λ (l : List Bytes). t ∷ l) (split-slashed u ts a.0 a.1)

push_tokens-eq :
    (out : Bytes) (ts : List Bytes) → push_tokens out ts ≡ out ++ slashed (map escaped ts)
unfolding push_tokens
push_tokens-eq out [] = sym (append-nil out)
push_tokens-eq out (t ∷ ts) =
    push_tokens-eq ((out ++ (b'/' ∷ [])) ++ escape_token t) ts
    ∙ rw escape_token-eq (simp append_assoc)

pub canonical-eq :
    (t : Bytes) (ts : List Bytes) → canonical (t ∷ ts) ≡ slashed (map escaped (t ∷ ts))
unfolding canonical
canonical-eq t ts = push_tokens-eq [] (t ∷ ts)
