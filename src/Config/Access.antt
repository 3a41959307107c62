-- ===== src/Config/Access.antt =====
-- What the keys in the environment may do.
use artifact_registry_servic.Base.{
  String, ◌==◌, eq_iff, ◌≡◌, refl, Bool, true, false, not, ◌||◌, List, [], ◌∷◌, ◌++◌, any,
  trim_space, arith, if◌then◌else◌, split, equal_fold, Bool-cases, inl, inr,
}
use artifact_registry_servic.Auth.{
  scope_read, scope_write, scope_admin, KeyEntry, new_store, allowed,
}
use artifact_registry_servic.Auth.Scopes.{entry_of, entry_covers, covers, allowed-covers}
use artifact_registry_servic.Config.{Env, entries, trimmed, split_keys, get_env, load_keys, load}

abbrev pub has : String → List String → Bool
has k = any (λ j. k == j)

trimmed-no_empty : (parts : List String) → has "" (trimmed parts) ≡ false
unfolding trimmed
trimmed-no_empty [] = refl
trimmed-no_empty (k ∷ parts) =
    ground (arith, trimmed-no_empty parts, eq_iff "" (trim_space k), eq_iff (trim_space k) "")

split_keys-no_empty : (s : String) → has "" (split_keys s) ≡ false
unfolding split_keys
split_keys-no_empty s = trimmed-no_empty (split s b',')

not_empty_of_has : (k s : String) → has k (split_keys s) ≡ true → (k == "") ≡ false
not_empty_of_has k s h = elim (Bool-cases (k == "")) [
  | inl e ↦ cc (rw ((eq_iff k "").0 e) at h, split_keys-no_empty s)
  | inr e ↦ e
]

-- The entry of a key among those made of a list of keys and some others.
entry_of-entries :
    (k : String) (scopes keys : List String) (more : List KeyEntry) (r : String)
    → entry_covers (entry_of k (entries scopes keys ++ more)) r
      ≡ (if has k keys then covers scopes r else entry_covers (entry_of k more) r)
entry_of-entries k scopes [] more r = refl
entry_of-entries k scopes (j ∷ keys) more r = ground (arith, entry_of-entries k scopes keys more r)

entry_of-entries_last :
    (k : String) (scopes keys : List String) (r : String)
    → entry_covers (entry_of k (entries scopes keys)) r
      ≡ (if has k keys then covers scopes r else false)
entry_of-entries_last k scopes [] r = refl
entry_of-entries_last k scopes (j ∷ keys) r = ground (arith, entry_of-entries_last k scopes keys r)

module _ (env : Env) (k : String) where
  abbrev admin_keys : List String
  admin_keys = split_keys (env "ARS_ADMIN_KEYS")

  abbrev write_keys : List String
  write_keys = split_keys (env "ARS_WRITE_KEYS")

  abbrev read_keys : List String
  read_keys = split_keys (env "ARS_READ_KEYS")

  load_keys-covers :
      (r : String)
      → entry_covers (entry_of k (load_keys env)) r ≡ (
          if has k admin_keys
          then covers (scope_admin ∷ scope_write ∷ scope_read ∷ []) r
          else if has k write_keys
          then covers (scope_write ∷ scope_read ∷ []) r
          else if has k read_keys
          then covers (scope_read ∷ []) r
          else false)
  unfolding load_keys
  load_keys-covers r = rw entry_of-entries (rw entry_of-entries (rw entry_of-entries_last refl))

  allowed-load :
      (r : String) (on : Bool)
      → allowed (new_store (load_keys env) on) k r
        ≡ (not on || entry_covers (entry_of k (load_keys env)) r)
  unfolding new_store
  allowed-load r on = ground (
    arith,
    allowed-covers (new_store (load_keys env) on) k r,
    load_keys-covers r,
    not_empty_of_has k (env "ARS_ADMIN_KEYS"),
    not_empty_of_has k (env "ARS_WRITE_KEYS"),
    not_empty_of_has k (env "ARS_READ_KEYS"),
  )

  abbrev pub auth_off : Bool
  auth_off = equal_fold (get_env env "ARS_AUTH_DISABLED" "false") "true"

  -- With the store that `Load` builds, unless ARS_AUTH_DISABLED folds to "true" (then everything is
  -- allowed), a key may do what needs `admin` exactly if ARS_ADMIN_KEYS lists it, what needs
  -- `write` exactly if that or ARS_WRITE_KEYS does, and what needs `read` exactly if one of the
  -- three lists does; where several list it, the widest counts.
  pub allowed-load_iff :
      (allowed (load env).auth k scope_admin ≡ (auth_off || has k admin_keys))
      × (allowed (load env).auth k scope_write ≡ (auth_off || has k admin_keys || has k write_keys))
      × (allowed (load env).auth k scope_read
          ≡ (auth_off || has k admin_keys || has k write_keys || has k read_keys))
  unfolding load
  allowed-load_iff = (
    rw allowed-load (ground (arith, load_keys-covers scope_admin)),
    rw allowed-load (ground (arith, load_keys-covers scope_write)),
    rw allowed-load (ground (arith, load_keys-covers scope_read)),
  )
