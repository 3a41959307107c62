-- ===== src/Auth.antt =====
-- internal/auth/auth.go: API keys with scopes.
pub mod Scopes
use artifact_registry_servic.Base.{
  String, ◌==◌, Bool, true, false, not, ◌&&◌, ◌||◌, List, [], ◌∷◌, if◌then◌else◌,
}

abbrev pub scope_read : String
scope_read = "read"

abbrev pub scope_write : String
scope_write = "write"

abbrev pub scope_admin : String
scope_admin = "admin"

pub record KeyEntry : Type 0 where
  pub key : String
  pub scopes : List String

pub record Store : Type 0 where
  pub keys : List KeyEntry
  pub enabled : Bool

unfoldable pub new_store : List KeyEntry → Bool → Store
new_store entries enabled = record { keys = entries; enabled = enabled }

-- The loop over `entry.Scopes`, with the `return false` behind it.
unfoldable pub grants : List String → String → Bool
grants [] required = false
grants (scope ∷ scopes) required =
    if scope == required || scope == scope_admin
    then true
    else if required == scope_read && scope == scope_write
    then true
    else grants scopes required

-- The loop over `s.keys`: the first entry of the key decides. `ConstantTimeCompare` returns 1
-- exactly on equal byte strings.
unfoldable pub allowed_by : List KeyEntry → String → String → Bool
unfolding grants
allowed_by [] raw_key required = false
allowed_by (entry ∷ keys) raw_key required =
    if not (raw_key == entry.key)
    then allowed_by keys raw_key required
    else grants entry.scopes required

unfoldable pub allowed : Store → String → String → Bool
unfolding allowed_by
allowed s raw_key required =
    if not s.enabled
    then true
    else if raw_key == ""
    then false
    else allowed_by s.keys raw_key required

-- The loop of `Authenticated`.
unfoldable pub has_key : List KeyEntry → String → Bool
has_key [] raw_key = false
has_key (entry ∷ keys) raw_key = if raw_key == entry.key then true else has_key keys raw_key

unfoldable pub authenticated : Store → String → Bool
unfolding has_key
authenticated s raw_key = if not s.enabled then true else has_key s.keys raw_key
