-- ===== src/Api/Router/Guards.antt =====
-- Which requests get past the middleware of their route.
use artifact_registry_servic.Base.{
  String, ◌≡◌, refl, Bool, true, false, Bool-cases, inl, inr, [], All, select, arith, if◌then◌else◌,
}
use artifact_registry_servic.Auth.{
  Store, scope_read, scope_write, scope_admin, allowed, authenticated,
}
use artifact_registry_servic.Auth.Scopes.{allowed_of_admin, allowed_read_of_write}
use artifact_registry_servic.World.{World}
use artifact_registry_servic.Api.Reply.{Served}
use artifact_registry_servic.Api.Middleware.{extract_bearer, require_scope}
use artifact_registry_servic.Api.Router.{get, post, health, Route, routes, guarded}

abbrev pub is_post : Route → Bool
is_post r = elim r.method [ post ↦ true | get ↦ false ]

abbrev pub is_private : Route → Bool
is_private r = elim r.endpoint [ health ↦ false | _ ↦ true ]

module _ (store : Store) (header : String) (next : World → Served) (w : World) where
  -- The answer is 403 to a known key and 401 to any other; nothing changes and nothing is sent.
  abbrev pub IsRefused : Route → Type 0
  IsRefused r =
      let (reply, tasks, w') = guarded store r.scope next header w in
      (reply.status ≡ (if authenticated store (extract_bearer header) then 403 else 401))
      × (tasks ≡ [])
      × (w' ≡ w)

  enforced :
      (scope : String) → allowed store (extract_bearer header) scope ≡ false → store.enabled ≡ true
  unfolding allowed
  enforced scope bad = ground arith

  require_scope-IsRefused :
      (scope : String)
      → allowed store (extract_bearer header) scope ≡ false
      → let (reply, tasks, w') = require_scope store scope next header w in
        (reply.status ≡ (if authenticated store (extract_bearer header) then 403 else 401))
        × (tasks ≡ [])
        × (w' ≡ w)
  unfolding require_scope
  require_scope-IsRefused scope bad =
      elim (Bool-cases (authenticated store (extract_bearer header))) [
        | inl known ↦ rw bad (rw known (rw (enforced scope bad) (refl, refl, refl)))
        | inr unknown ↦ rw bad (rw unknown (rw (enforced scope bad) (refl, refl, refl)))
      ]

  -- A key that may not write, or no key at all, gets past no POST route: the answer is 403 to a
  -- known key and 401 otherwise, the handler does not run, nothing changes and no delivery starts.
  pub posts-IsRefused :
      allowed store (extract_bearer header) scope_write ≡ false
      → All IsRefused (select is_post routes)
  unfolding guarded
  posts-IsRefused bad =
      let admin : allowed store (extract_bearer header) scope_admin ≡ false =
        ground (arith, allowed_of_admin store (extract_bearer header) scope_write) in
      let no_admin = require_scope-IsRefused scope_admin admin in
      (require_scope-IsRefused scope_write bad, (no_admin, (no_admin, (no_admin, tt))))

  -- A key that may not read gets past no route but the public one for health.
  pub private-IsRefused :
      allowed store (extract_bearer header) scope_read ≡ false
      → All IsRefused (select is_private routes)
  unfolding guarded
  private-IsRefused bad =
      let write : allowed store (extract_bearer header) scope_write ≡ false =
        ground (arith, allowed_read_of_write store (extract_bearer header)) in
      let admin : allowed store (extract_bearer header) scope_admin ≡ false =
        ground (arith, allowed_of_admin store (extract_bearer header) scope_read) in
      let read = require_scope-IsRefused scope_read bad in
      let no_admin = require_scope-IsRefused scope_admin admin in
      (
        require_scope-IsRefused scope_write write,
        (read, (read, (read, (read, (no_admin, (no_admin, (read, (read, (no_admin, tt))))))))),
      )
