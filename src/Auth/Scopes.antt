-- ===== src/Auth/Scopes.antt =====
-- What a key may do: the loops of auth.go against a description by membership, and how the scopes
-- imply one another.
use artifact_registry_servic.Base.{
  String, ◌==◌, ◌≡◌, Bool, true, false, not, ◌&&◌, ◌||◌, List, [], ◌∷◌, Option, none, some, any,
  find, arith,
}
use artifact_registry_servic.Auth.{
  scope_read, scope_write, scope_admin, KeyEntry, Store, grants, allowed_by, allowed, has_key,
  authenticated,
}

abbrev pub has_scope : String → List String → Bool
has_scope r = any (λ scope. scope == r)

-- What a list of scopes covers: itself, all if it has `admin`, and reading if it has `write`.
abbrev pub covers : List String → String → Bool
covers scopes r =
    has_scope r scopes
    || has_scope scope_admin scopes
    || (r == scope_read && has_scope scope_write scopes)

abbrev pub entry_covers : Option KeyEntry → String → Bool
entry_covers none r = false
entry_covers (some entry) r = covers entry.scopes r

abbrev pub entry_of : String → List KeyEntry → Option KeyEntry
entry_of raw_key = find (λ (entry : KeyEntry). raw_key == entry.key)

pub grants-covers : (scopes : List String) (r : String) → grants scopes r ≡ covers scopes r
unfolding grants
grants-covers [] r = ground arith
grants-covers (scope ∷ scopes) r = ground (arith, grants-covers scopes r)

pub allowed_by-entry_of :
    (keys : List KeyEntry) (raw_key r : String)
    → allowed_by keys raw_key r ≡ entry_covers (entry_of raw_key keys) r
unfolding allowed_by
allowed_by-entry_of [] raw_key r = ground arith
allowed_by-entry_of (entry ∷ keys) raw_key r =
    ground (arith, allowed_by-entry_of keys raw_key r, grants-covers entry.scopes r)

-- With enforcement off every request is allowed. With it on, the first entry whose key is the
-- given one decides, and it must hold the required scope, or `admin`, or `write` where reading is
-- required; an empty key and a key without an entry are refused.
pub allowed-covers :
    (s : Store) (raw_key r : String)
    → allowed s raw_key r
      ≡ (not s.enabled || (not (raw_key == "") && entry_covers (entry_of raw_key s.keys) r))
unfolding allowed
allowed-covers s raw_key r = ground (arith, allowed_by-entry_of s.keys raw_key r)

covers_of_admin :
    (scopes : List String) (r : String) → covers scopes scope_admin ≡ true → covers scopes r ≡ true
covers_of_admin scopes r h = ground (arith)

covers_read_of_write :
    (scopes : List String) → covers scopes scope_write ≡ true → covers scopes scope_read ≡ true
covers_read_of_write scopes h = ground (arith)

entry_covers_of_admin :
    (e : Option KeyEntry) (r : String) → entry_covers e scope_admin ≡ true → entry_covers e r ≡ true
entry_covers_of_admin none r h = h
entry_covers_of_admin (some entry) r h = covers_of_admin entry.scopes r h

entry_covers_read_of_write :
    (e : Option KeyEntry) → entry_covers e scope_write ≡ true → entry_covers e scope_read ≡ true
entry_covers_read_of_write none h = h
entry_covers_read_of_write (some entry) h = covers_read_of_write entry.scopes h

-- A key that may do what needs `admin` may do everything.
pub allowed_of_admin :
    (s : Store) (raw_key r : String)
    → allowed s raw_key scope_admin ≡ true
    → allowed s raw_key r ≡ true
allowed_of_admin s raw_key r h = ground (
  arith,
  allowed-covers s raw_key scope_admin,
  allowed-covers s raw_key r,
  entry_covers_of_admin (entry_of raw_key s.keys) r,
)

-- A key that may do what needs `write` may read.
pub allowed_read_of_write :
    (s : Store) (raw_key : String)
    → allowed s raw_key scope_write ≡ true
    → allowed s raw_key scope_read ≡ true
allowed_read_of_write s raw_key h = ground (
  arith,
  allowed-covers s raw_key scope_write,
  allowed-covers s raw_key scope_read,
  entry_covers_read_of_write (entry_of raw_key s.keys),
)

-- A request that is allowed carries a known key: `Allowed` never lets through what
-- `Authenticated` refuses.
pub allowed-authenticated :
    (s : Store) (raw_key r : String) → allowed s raw_key r ≡ true → authenticated s raw_key ≡ true
unfolding allowed authenticated
allowed-authenticated s raw_key r h = ground (arith, go s.keys)
  where
    go : (keys : List KeyEntry) → allowed_by keys raw_key r ≡ true → has_key keys raw_key ≡ true
    go [] g = g
    go (entry ∷ keys) g = ground (arith, go keys)
