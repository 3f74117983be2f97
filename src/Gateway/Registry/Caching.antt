-- ===== src/Gateway/Registry/Caching.antt =====
-- When the registry client of mcpRegistry.ts asks the hub.
use id_jag_the_hard_way.Base.{
  ℕ, ◌+◌, ◌≤◌, Option, [], ◌≡◌, ltb, Result, ok, arith, if◌then◌else◌, >>=-eq-ok,
}
use id_jag_the_hard_way.Base.Text.{Text}
use id_jag_the_hard_way.Base.Json.{Items}
use id_jag_the_hard_way.Gateway.Registry.{
  ProxyUrl, Routes, CachedRegistry, RegistryError, get_routes, routes_arrive, routes_from,
}

module _ (parse_url : Text → Option ProxyUrl) (ttl : ℕ) where
  arrived :
      (now : ℕ) (answer : Result RegistryError Items) (cache cache' : CachedRegistry)
      (routes : Routes)
      → routes_arrive parse_url ttl now answer cache ≡ ok (cache', routes)
      → (cache'.expires_at ≡ now + ttl) × (cache'.routes ≡ routes)
  unfolding routes_arrive
  arrived now answer cache cache' routes h =
      let (servers, answered, h1) = >>=-eq-ok answer _ h in
      let (rs, read, h2) = >>=-eq-ok (routes_from parse_url servers []) _ h1 in (cc, cc)

  -- Routes that were fetched are used for the whole time to live, whatever the hub answers in
  -- the meantime, and not beyond it.
  pub get_routes_within :
      (now later : ℕ) (answer other : Result RegistryError Items) (cache cache' : CachedRegistry)
      (routes : Routes)
      → cache.expires_at ≤ now
      → get_routes parse_url ttl now answer cache ≡ ok (cache', routes)
      → get_routes parse_url ttl later other cache' ≡ (
          if ltb later (now + ttl)
          then ok (cache', routes)
          else routes_arrive parse_url ttl later other cache')
  unfolding get_routes
  get_routes_within now later answer other cache cache' routes stale h =
      let (ends, holds) = arrived now answer cache cache' routes (ground arith) in rw (ends, holds)
