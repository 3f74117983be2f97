-- ===== src/Gateway/Internal.antt =====
-- components/mcp-gateway/src/routes/internal.ts: the status of the sessions and of their tokens,
-- for the hub.
pub mod Laws
use id_jag_the_hard_way.Base.{
  ℕ, ◌+◌, ◌-◌, ◌*◌, ◌≤◌, ◌<◌, Bool, true, false, not, ◌&&◌, Option, none, some, List, [], ◌∷◌, ◌++◌,
  map, if◌then◌else◌, leb, drop, length, keep_if, ◌==◌, ◌≡◌, ◌≢◌, ◌↔◌, refl, arith, nat_eq, All,
}
use id_jag_the_hard_way.Base.Text.{Text, text_eq, text_beq_iff, lit, starts_with}
use id_jag_the_hard_way.Base.Text.Search.{starts_with_sound, starts_with-append}
use id_jag_the_hard_way.Base.Dict
use id_jag_the_hard_way.Base.Options.{truthy}
use id_jag_the_hard_way.Gateway.Platform.{Platform, seconds}
use id_jag_the_hard_way.Gateway.Sessions.{GatewaySession, SessionStore, list_active}
use id_jag_the_hard_way.Gateway.Athenz.Caches.{CacheStatus, cache_status}
use id_jag_the_hard_way.Gateway.Athenz.Manager.{Caches}

abbrev pub session_expiry_skew_seconds : ℕ
session_expiry_skew_seconds = 60

pub data SessionStatus : Type 0 where
  valid refresh_required : SessionStatus

pub record SessionReport : Type 0 where
  pub username : Text
  pub subject : Text
  pub id_token_expires_at : ℕ
  pub expires_at : ℕ
  pub status : SessionStatus
  pub athenz_access_tokens : CacheStatus
  pub athenz_id_jags : CacheStatus

-- Less the time of the report and the constant skew.
pub record StatusReport : Type 0 where
  pub session_count : ℕ
  pub valid_session_count : ℕ
  pub refresh_required_session_count : ℕ
  pub sessions : List SessionReport

pub data StatusReply : Type 0 where
  unauthorized : StatusReply
  report : StatusReport → StatusReply

abbrev pub needs_refresh : ℕ → GatewaySession → Bool
needs_refresh now session =
    leb (session.expires_at * 1000) (now + session_expiry_skew_seconds * 1000)

-- `caches` are a session's, which the source keeps by the session object.
unfoldable pub session_report :
    (caches : GatewaySession → Caches) (now : ℕ) → GatewaySession → SessionReport
session_report caches now session = record {
  username = session.username;
  subject = session.subject;
  id_token_expires_at = session.id_token_expires_at;
  expires_at = session.expires_at;
  status = if needs_refresh now session then refresh_required else valid;
  athenz_access_tokens = cache_status now (caches session).access_tokens;
  athenz_id_jags = cache_status now (caches session).id_jags;
}

abbrev pub is_refresh_required : SessionReport → Bool
is_refresh_required r = elim r.status [ valid ↦ false | refresh_required ↦ true ]

unfoldable pub status_report : List SessionReport → StatusReport
status_report sessions =
    let refresh = length (keep_if is_refresh_required sessions) in
    record {
      session_count = length sessions;
      valid_session_count = length sessions - refresh;
      refresh_required_session_count = refresh;
      sessions = sessions;
    }

module _ (p : Platform) where
  -- The comparison is that of the lengths and of the bytes.
  abbrev pub matches_token : Option Text → Text → Bool
  matches_token none expected = false
  matches_token (some authorization) expected =
      starts_with authorization (lit "Bearer ")
      && p.bytes (drop 7 authorization) == p.bytes expected

  abbrev authorized_by : Option Text → Option Text → Bool
  authorized_by authorization none = false
  authorized_by authorization (some expected) = matches_token authorization expected

  unfoldable pub is_authorized : (authorization expected : Option Text) → Bool
  is_authorized authorization expected = authorized_by authorization (truthy expected)

  -- GET /internal/cache-status, at one time for all that it reads
  unfoldable pub cache_status_route :
      (registry_token authorization : Option Text) (caches : GatewaySession → Caches) (now : ℕ)
      → SessionStore
      → SessionStore × StatusReply
  unfolding is_authorized status_report session_report
  cache_status_route registry_token authorization caches now s =
      let (kept, sessions) = list_active now s in
      let answer = report (status_report (map (session_report caches now) sessions)) in
      if is_authorized authorization registry_token then (kept, answer) else (s, unauthorized)
