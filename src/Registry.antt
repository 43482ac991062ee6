-- ===== src/Registry.antt =====
-- src/registry.rs: the table of callables, keyed on canonical JSON pointers.
-- The hash map is an association list without a second entry for a key. A callable is its method
-- `call` as a function on the application's state `S`, a parameter: it gives the bytes that it wrote
-- into the response body, or its error. `Ctx` and `Params` are the call context and the body.
pub mod Lookup
use repe_rs.Prelude.{
  ℕ, Bytes, Bool, true, false, not, List, [], ◌∷◌, ◌++◌, Option, none, some, ◌⊎◌, inl, inr, Outcome,
  ascii, decimal, ok, err, panic, ◌>>=◌, map_err, ◌==◌, ◌&&◌, ◌||◌, if◌then◌else◌, is_empty,
  return_err_if, ◌>>◌,
}
use repe_rs.Constants.{ErrorCode, BodyFormat, body_format_try_from}
use repe_rs.Message.{Message}
use repe_rs.JsonPointer.{addresses_root, starts_with, validate_escapes}
use repe_rs.Server.{same_text, find_route}

pub data RegistryError : Type 0 where
  invalid_pointer : (pointer : Bytes) → RegistryError
  path_not_found : (path : Bytes) → RegistryError
  unsupported_body_format : (format : ℕ) → RegistryError
  execution : (code : ErrorCode) → (message : Bytes) → RegistryError

unfoldable pub code : RegistryError → ErrorCode
code (RegistryError.invalid_pointer _) = ErrorCode.method_not_found
code (RegistryError.path_not_found _) = ErrorCode.method_not_found
code (RegistryError.unsupported_body_format _) = ErrorCode.invalid_body
code (RegistryError.execution c _) = c

-- `Display`, from the `#[error(...)]` attributes.
unfoldable pub registry_error_to_string : RegistryError → Bytes
unfolding decimal
registry_error_to_string (RegistryError.invalid_pointer pointer) =
    ascii "invalid JSON pointer `" ++ (pointer ++ ascii "`")
registry_error_to_string (RegistryError.path_not_found path) =
    ascii "path not found `" ++ (path ++ ascii "`")
registry_error_to_string (RegistryError.unsupported_body_format format) =
    ascii "registry body format `" ++ (decimal format ++ ascii "` is unsupported")
registry_error_to_string (RegistryError.execution code message) = message

unfoldable pub canonical_key : Bytes → Outcome RegistryError Bytes
canonical_key pointer =
    if addresses_root pointer
    then ok (b'/' ∷ [])
    else map_err (λ _. RegistryError.invalid_pointer pointer) (validate_escapes pointer)
      >> ok pointer

-- `HashMap::insert`
unfoldable pub insert : {F : Type 0} → Bytes → F → List (Bytes × F) → List (Bytes × F)
unfolding same_text
insert key f [] = (key, f) ∷ []
insert key f ((k, g) ∷ rest) =
    let later = insert key f rest in if same_text key k then (key, f) ∷ rest else (k, g) ∷ later

-- `if path.starts_with('/') { path } else { format!("/{path}") }`
unfoldable pub absolute : Bytes → Bytes
unfolding starts_with
absolute path = if starts_with b'/' path then path else b'/' ∷ path

unfoldable pub register_function_arc :
    {F : Type 0} → Bytes → F → List (Bytes × F) → Outcome RegistryError (List (Bytes × F))
unfolding absolute canonical_key insert addresses_root
register_function_arc path f state = do
  return_err_if (addresses_root (absolute path)) (RegistryError.invalid_pointer path)
  key ← map_err (λ _. RegistryError.invalid_pointer path) (canonical_key (absolute path))
  ok (insert key f state)

unfoldable pub is_function : {F : Type 0} → Bytes → List (Bytes × F) → Bool
unfolding canonical_key find_route
is_function pointer state = elim (canonical_key pointer) [
  | ok key ↦ elim (find_route key state) [ some f ↦ true | none ↦ false ]
  | _ ↦ false
]

-- The function that a pointer names.
unfoldable pub resolve : {F : Type 0} → Bytes → List (Bytes × F) → Outcome RegistryError F
unfolding canonical_key find_route
resolve pointer state = do
  key ← canonical_key pointer
  elim (find_route key state) [ some f ↦ ok f | none ↦ err (RegistryError.path_not_found pointer) ]

module _ {F Ctx Params S : Type 0}
    (call_function : F → Ctx → Option Params → S → S × ((ErrorCode × Bytes) ⊎ Bytes)) where
  -- `Registry::call`, once the function is resolved
  unfoldable pub invoke :
      Outcome RegistryError F → Option Params → Ctx → S → S × Outcome RegistryError Bytes
  invoke (ok f) params ctx s =
      let (s', result) = call_function f ctx params s in
      (s', elim result [ inr body ↦ ok body | inl (c, m) ↦ err (RegistryError.execution c m) ])
  invoke (err e) params ctx s = (s, err e)
  invoke panic params ctx s = (s, panic)

  unfoldable pub call :
      List (Bytes × F) → Bytes → Option Params → Ctx → S → S × Outcome RegistryError Bytes
  unfolding resolve invoke
  call state pointer params ctx s = invoke (resolve pointer state) params ctx s

-- `Registry::body_of`: a body is its bytes and its format.
unfoldable pub body_of : Message → Outcome RegistryError (Option (Bytes × BodyFormat))
unfolding body_format_try_from
body_of req =
    if is_empty req.body then ok none else elim (body_format_try_from req.header.body_format) [
      | ok format ↦ ok (some (req.body, format))
      | _ ↦ err (RegistryError.unsupported_body_format req.header.body_format)
    ]

-- `trim_end_matches(c)`
unfoldable pub trim_end : ℕ → Bytes → Bytes
trim_end c [] = []
trim_end c (d ∷ rest) =
    let trimmed = trim_end c rest in if is_empty trimmed && (d == c) then [] else d ∷ trimmed

unfoldable pub normalize_mount : Bytes → Bytes
unfolding addresses_root absolute trim_end
normalize_mount prefix =
    if addresses_root prefix
    then []
    else (let trimmed = trim_end b'/' (absolute prefix) in if is_empty trimmed then [] else trimmed)
