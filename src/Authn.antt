-- ===== src/Authn.antt =====
-- internal/authn/authn.go: API keys, bearer tokens, principals and the HTTP middleware.
-- `sha256_hex token` is `hex.EncodeToString` of `sha256.Sum256`: it belongs to Go's library and is
-- an argument. A `map[string]bool` whose values are all true is the list of its keys.
pub mod Header
pub mod Keys
use felsen_mcp_server_postgr.Base.{
  ℕ, ◌+◌, ◌==◌, Bool, true, false, not, ◌&&◌, ◌||◌, List, [], ◌∷◌, ◌++◌, map, Option, none, some,
  Text, text_eq, mem_text, runes, length, take, drop, ltb, leb, all, if◌then◌else◌,
}
use felsen_mcp_server_postgr.Strings.{Unicode, trim_space, to_lower, equal_fold, utf8_length}
use felsen_mcp_server_postgr.Guard.Tables.{is_empty}

pub record Principal : Type 0 where
  pub name : Text
  pub scopes : List Text
  pub connections : List Text

-- `config.APIKeyConfig`.
pub record ApiKeyConfig : Type 0 where
  pub name : Text
  pub token : Text
  pub token_env : Text
  pub token_sha256 : Text
  pub scopes : List Text
  pub connections : List Text

pub record ApiKey : Type 0 where
  pub hash : Text
  pub principal : Principal

pub record Manager : Type 0 where
  pub keys : List ApiKey

-- The errors of `NewManager`.
pub data KeyError : Type 0 where
  name_required token_required hash_length hash_hexadecimal no_keys : KeyError

pub data KeyResult {ℓ} (A : Type ℓ) : Type ℓ where
  accepted : A → KeyResult A
  rejected : KeyError → KeyResult A

-- `hex.DecodeString` returns no error on these digits; the length is even where it is called.
unfoldable pub is_hex_digit : ℕ → Bool
is_hex_digit c = leb b'0' c && leb c b'9' || leb b'a' c && leb c b'f' || leb b'A' c && leb c b'F'

-- `AuthenticateHeader` of `Authenticator`: the principal, where it returns true.
abbrev pub Authenticator : Type 0
Authenticator = Text → Option Principal

-- `clonePrincipal`: the maps are copied, so a copy has the same keys.
unfoldable pub clone_principal : Principal → Principal
clone_principal p = record { name = p.name; scopes = p.scopes; connections = p.connections }

-- `Manager.Principal`: the manager is not nil.
unfoldable pub principal_named : List ApiKey → Text → Option Principal
principal_named [] name = none
principal_named (key ∷ keys) name =
    let rest = principal_named keys name in
    if text_eq key.principal.name name then some (clone_principal key.principal) else rest

unfoldable pub first_principal : List ApiKey → Option Principal
first_principal [] = none
first_principal (key ∷ keys) = some (clone_principal key.principal)

-- The loop of `AuthenticateHeader`; `ConstantTimeCompare` is 1 exactly on equal bytes.
unfoldable pub key_with_hash : List ApiKey → Text → Option Principal
key_with_hash [] hash = none
key_with_hash (key ∷ keys) hash =
    let rest = key_with_hash keys hash in if text_eq hash key.hash then some key.principal else rest

module _ ⦃u : Unicode⦄ where
  unfoldable pub has_scope : Principal → Text → Bool
  has_scope p scope = mem_text (runes "admin") p.scopes || mem_text (to_lower scope) p.scopes

  unfoldable pub can_use_connection : Principal → Text → Bool
  can_use_connection p name =
      has_scope p (runes "admin")
      || mem_text (runes "*") p.connections
      || mem_text name p.connections

  -- The part of the header behind `Bearer `, in any case, where it is not blank. The source cuts
  -- bytes: a rune of several bytes among the first ones equals none of these letters.
  unfoldable pub bearer_token : Text → Option Text
  bearer_token header =
      let token = trim_space header in
      let secret = trim_space (drop 7 token) in
      if ltb (length token) 7 || not (equal_fold (take 7 token) (runes "Bearer "))
      then none
      else if is_empty secret
      then none
      else some secret

  module _ (sha256_hex : Text → Text) where
    unfoldable pub key_hash : ApiKeyConfig → KeyResult Text
    key_hash key =
        let hash = to_lower (trim_space key.token_sha256) in
        if is_empty hash
        then (if is_empty key.token
            then rejected token_required
            else accepted (sha256_hex key.token))
        else if not (utf8_length hash == 64)
        then rejected hash_length
        else if not (all is_hex_digit hash)
        then rejected hash_hexadecimal
        else accepted hash

    unfoldable pub new_key : ApiKeyConfig → KeyResult ApiKey
    new_key key = if is_empty key.name then rejected name_required else elim (key_hash key) [
      | rejected e ↦ rejected e
      | accepted hash ↦ accepted (record {
        hash = hash;
        principal = record {
          name = key.name;
          scopes = map to_lower key.scopes;
          connections = key.connections;
        };
      })
    ]

    unfoldable pub new_keys : List ApiKeyConfig → KeyResult (List ApiKey)
    new_keys [] = accepted []
    new_keys (key ∷ keys) = elim (new_key key) [
      | rejected e ↦ rejected e
      | accepted k ↦ elim (new_keys keys) [
        | rejected e ↦ rejected e
        | accepted ks ↦ accepted (k ∷ ks)
      ]
    ]

    abbrev pub some_keys : List ApiKey → KeyResult Manager
    some_keys [] = rejected no_keys
    some_keys (k ∷ ks) = accepted (record { keys = k ∷ ks })

    unfoldable pub new_manager : List ApiKeyConfig → KeyResult Manager
    new_manager keys = elim (new_keys keys) [ rejected e ↦ rejected e | accepted ks ↦ some_keys ks ]

    unfoldable pub authenticate_header : Manager → Authenticator
    authenticate_header m header = elim (bearer_token header) [
      | none ↦ none
      | some token ↦ key_with_hash m.keys (sha256_hex token)
    ]

-- `NewComposite` without its nil items, and `compositeAuthenticator.AuthenticateHeader`.
unfoldable pub some_items : List (Option Authenticator) → List Authenticator
some_items [] = []
some_items (none ∷ items) = some_items items
some_items (some item ∷ items) = item ∷ some_items items

unfoldable pub composite_authenticate : List Authenticator → Authenticator
composite_authenticate [] header = none
composite_authenticate (item ∷ items) header =
    let rest = composite_authenticate items header in
    elim (item header) [ some principal ↦ some principal | none ↦ rest ]

abbrev pub one_or_composite : List Authenticator → Authenticator
one_or_composite (item ∷ []) = item
one_or_composite items = composite_authenticate items

unfoldable pub new_composite : List (Option Authenticator) → Authenticator
new_composite items = one_or_composite (some_items items)

-- What the middleware does with a request: it is refused with status 401 and the challenge, or
-- goes to the next handler. The log is not modelled.
pub data Served : Type 0 where
  unauthorized : Text → Served
  served : Served

unfoldable pub http_middleware : Option Authenticator → Text → Text → Served
http_middleware none challenge header = unauthorized challenge
http_middleware (some authenticator) challenge header = elim (authenticator header) [
  | none ↦ unauthorized challenge
  | some p ↦ served
]
