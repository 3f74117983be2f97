-- ===== src/Gateway/Athenz/Manager/Issued.antt =====
-- What `getAccessToken` of athenz.ts returns, from its cache or after an issuance.
use id_jag_the_hard_way.Base.{
  ℕ, ◌+◌, ◌<◌, true, some, List, [], ◌∷◌, ◌≡◌, refl, Result, ok, err, arith,
}
use id_jag_the_hard_way.Base.Text.{Text, text_eq}
use id_jag_the_hard_way.Base.Dict.{get}
use id_jag_the_hard_way.Gateway.Sessions.{GatewaySession}
use id_jag_the_hard_way.Gateway.Athenz.Scopes.{audiences_exactly_match, scopes_exactly_match}
use id_jag_the_hard_way.Gateway.Athenz.Matching.{audiences_exactly_match_iff}
use id_jag_the_hard_way.Gateway.Athenz.Errors.{AthenzError}
use id_jag_the_hard_way.Gateway.Athenz.Grants.{Grant, token_expiry_skew_ms}
use id_jag_the_hard_way.Gateway.Athenz.Claims.{IsFromToken, token_grant_sound}
use id_jag_the_hard_way.Gateway.Athenz.Caches.{CachedToken}
use id_jag_the_hard_way.Gateway.Athenz.Caches.Search.{Serves}
use id_jag_the_hard_way.Gateway.Athenz.Manager.{
  AthenzConfig, Flight, Phase, for_id_jag, for_access_token, Caches, returned, Answer,
  ask_access_token, cached_of, accept_access_token, accept_id_jag, access_token_grant,
  answered_flight, answered_phase, answer_arrives,
}
use id_jag_the_hard_way.Gateway.Athenz.Manager.Genuine.{IsGenuine}

module _ (c : AthenzConfig) (session : GatewaySession) where
  -- The token is for just this audience and these scopes, has more than a minute left, and its
  -- entry is what it claims.
  pub record IsIssued (now : ℕ) (requested : List Text) (audience token : Text) : Type 0 where
    pub entry : CachedToken
    pub its_token : entry.token ≡ token
    pub serves : Serves now requested audience entry
    pub genuine : IsGenuine c session entry

  accept_access_token_sound :
      (cached_at : ℕ) (key : Text) (flight : Flight) (r : Result AthenzError Grant) (s : Caches)
      {token : Text}
      → (accept_access_token c session cached_at key flight r s).1 ≡ returned token
      → (grant : Grant) × (r ≡ ok grant)
        × (grant.token ≡ token)
        × (audiences_exactly_match grant.audiences (flight.audience ∷ []) ≡ true)
        × (scopes_exactly_match grant.scopes flight.scopes ≡ true)
  unfolding accept_access_token
  accept_access_token_sound cached_at key flight (err e) s h = absurd (cc h)
  accept_access_token_sound cached_at key flight (ok grant) s h =
      (grant, refl, ground arith, ground arith, ground arith)

  accept_id_jag-ne-returned :
      (cached_at : ℕ) (key : Text) (flight : Flight) (r : Result AthenzError Grant) (s : Caches)
      {token : Text}
      → (accept_id_jag c session cached_at key flight r s).1 ≡ returned token
      → ⊥
  unfolding accept_id_jag ask_access_token
  accept_id_jag-ne-returned cached_at key flight (err e) s h = cc
  accept_id_jag-ne-returned cached_at key flight (ok grant) s h = ground arith

  access_token_grant_sound :
      (now : ℕ) (answer : Answer) (grant : Grant)
      → access_token_grant c session now answer ≡ ok grant
      → IsFromToken c.decode_jwt session.expires_at grant.token grant.scopes grant.audiences
          grant.expires_at_ms
        × (now + token_expiry_skew_ms < grant.expires_at_ms)
  unfolding access_token_grant
  access_token_grant_sound now (err (code, message)) grant e = absurd (cc e)
  access_token_grant_sound now (ok response) grant e =
      let (from, got, later) =
        token_grant_sound c.decode_jwt response now session.expires_at grant e in
      (from, later)

  answered_phase_sound :
      (phase : Phase) (now cached_at : ℕ) (key : Text) (flight : Flight) (answer : Answer)
      (s : Caches) {token : Text}
      → (answered_phase c session phase now cached_at key flight answer s).1 ≡ returned token
      → IsIssued now flight.scopes flight.audience token
  unfolding answered_phase
  answered_phase_sound for_id_jag now cached_at key flight answer s e =
      absurd (accept_id_jag-ne-returned cached_at key flight _ s e)
  answered_phase_sound for_access_token now cached_at key flight answer s e =
      let (grant, granted, its, audience, scopes) =
        accept_access_token_sound cached_at key flight (access_token_grant c session now answer) s
          e in
      let (from, later) = access_token_grant_sound now answer grant granted in
      record {
        entry = cached_of cached_at grant;
        its_token = its;
        serves = record {
          fresh = later;
          same_audience =
              (audiences_exactly_match_iff grant.audiences (flight.audience ∷ [])).0 audience;
          same_scopes = scopes;
        };
        genuine = from;
      }

  -- A token that an issuance ends with is for the audience that the call selected and for
  -- exactly the scopes that it asked for, it has more than a minute left, and all of this is
  -- what the token claims, whatever Athenz answered.
  pub answer_arrives_sound :
      (now cached_at : ℕ) (key : Text) (answer : Answer) (s : Caches) (flight : Flight)
      (token : Text)
      → get s.in_flight key ≡ some flight
      → (answer_arrives c session now cached_at key answer s).1 ≡ returned token
      → IsIssued now flight.scopes flight.audience token
  unfolding answer_arrives answered_flight
  answer_arrives_sound now cached_at key answer s flight token flying e =
      answered_phase_sound flight.phase now cached_at key flight answer s (rw flying at e)
