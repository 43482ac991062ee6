-- ===== src/Examples/Pointers.antt =====
-- JSON pointers and the registry on concrete strings.
use repe_rs.Prelude.{ℕ, ◌≡◌, ◌≢◌, Bytes, List, [], ◌∷◌, ok, map_ok, is_empty, if◌then◌else◌, refl}
use repe_rs.JsonPointer.{parse, canonical, validate_escapes, unescape_token, collect}
use repe_rs.JsonPointer.Inverse.{canonical-parse, parse-canonical}
use repe_rs.JsonPointer.Validation.{validate_escapes-parse}
use repe_rs.Server.{same_text}
use repe_rs.Registry.{register_function_arc, resolve, absolute}
use repe_rs.Registry.Lookup.{resolve-register}

-- `/a~1b/c`
abbrev pointer : Bytes
pointer = 47 ∷ 97 ∷ 126 ∷ 49 ∷ 98 ∷ 47 ∷ 99 ∷ []

abbrev tokens : List Bytes
tokens = (97 ∷ 47 ∷ 98 ∷ []) ∷ (99 ∷ []) ∷ []

pointer-tokens : parse pointer ≡ ok tokens
unfolding parse collect unescape_token
pointer-tokens = refl

canonical-parse_example : canonical tokens ≡ (if is_empty pointer then b'/' ∷ [] else pointer)
canonical-parse_example = canonical-parse pointer tokens pointer-tokens

tokens_ne : tokens ≢ [] ∷ []
tokens_ne e = cc e

parse-canonical_example : parse (canonical tokens) ≡ ok tokens
parse-canonical_example = parse-canonical tokens tokens_ne

validate_escapes-parse_example :
    validate_escapes (47 ∷ 126 ∷ []) ≡ map_ok (λ _. tt) (parse (47 ∷ 126 ∷ []))
validate_escapes-parse_example = validate_escapes-parse (47 ∷ 126 ∷ [])

-- A mount at `/a`, and a path that only begins with it.
abbrev mount_a : Bytes
mount_a = 47 ∷ 97 ∷ []

abbrev path_a2 : Bytes
path_a2 = 47 ∷ 97 ∷ 50 ∷ []

-- The path `a` over an entry for `/b`.
abbrev entries : List (Bytes × ℕ)
entries = (47 ∷ 98 ∷ [], 1) ∷ []

abbrev registered : List (Bytes × ℕ)
registered = (47 ∷ 98 ∷ [], 1) ∷ (47 ∷ 97 ∷ [], 2) ∷ []

registration : register_function_arc (97 ∷ []) 2 entries ≡ ok registered
unfolding register_function_arc validate_escapes
registration = refl

resolve-register_example : resolve (47 ∷ 97 ∷ []) registered ≡ (
    if same_text (47 ∷ 97 ∷ []) (absolute (97 ∷ [])) then ok 2 else resolve (47 ∷ 97 ∷ []) entries)
resolve-register_example =
    resolve-register (97 ∷ []) 2 entries registered (47 ∷ 97 ∷ []) registration
