-- ===== src/Gateway/Athenz/Manager.antt =====
-- `AthenzAccessTokenManager` of athenz.ts, for one session: the source keys its three maps by the
-- session object. A request runs to its first `await`; the answers of Athenz come later, in any
-- order, each as one step. A request takes one time for all that it does until it waits, where the
-- source reads the clock for each search. A `finally` runs in the step that settles its promise.
pub mod Genuine
pub mod Issued
pub mod Flights
pub mod Progress
use id_jag_the_hard_way.Base.{
  ℕ, ◌+◌, ◌*◌, Bool, true, false, not, ◌&&◌, Option, none, some, List, [], ◌∷◌, leb, if◌then◌else◌,
  includes, Result, ok, err, ◌>>=◌,
}
use id_jag_the_hard_way.Base.Text.{Text, text_eq, join}
use id_jag_the_hard_way.Base.Text.Words.{blank}
use id_jag_the_hard_way.Base.Dict.{Dict, get, set, remove}
use id_jag_the_hard_way.Base.Json.{Fields}
use id_jag_the_hard_way.Gateway.Sessions.{GatewaySession}
use id_jag_the_hard_way.Gateway.Athenz.Scopes.{
  ScopeError, scope_values, normalize_scope, access_token_audience, scopes_cover,
  scopes_exactly_match, audiences_exactly_match,
}
use id_jag_the_hard_way.Gateway.Athenz.Errors.{
  AthenzError, bad_scope, reauthentication_required, insufficient_scope, audience_mismatch,
  post_failed, is_identity_token_failure,
}
use id_jag_the_hard_way.Gateway.Athenz.Grants.{
  AthenzTokenResponse, Grant, token_grant, token_expiry_skew_ms,
}
use id_jag_the_hard_way.Gateway.Athenz.Caches.{CachedToken, find_access_token, find_id_jag}

-- `stringify` is `JSON.stringify` on the pair of an entry's audiences and scopes; `decode_jwt` is
-- that of the `jose` library.
pub record AthenzConfig : Type 0 where
  pub zts_audience : Text
  pub stringify : List Text → List Text → Text
  pub decode_jwt : Text → Option Fields

-- What an issuance waits for.
pub data Phase : Type 0 where
  for_id_jag for_access_token : Phase

pub record Flight : Type 0 where
  pub scopes : List Text
  pub audience : Text
  pub phase : Phase

pub record Caches : Type 0 where
  pub access_tokens : Dict CachedToken
  pub id_jags : Dict CachedToken
  pub in_flight : Dict Flight

-- What is sent to Athenz: a token exchange, or a grant on an ID-JAG.
pub data Post : Type 0 where
  exchange_id_token : (subject_token scope audience : Text) → Post
  grant_access_token : (assertion audience scope : Text) → Post

-- How a call of `getAccessToken` or a step of an issuance ends: with a token, an error, by
-- waiting for the issuance of another call, or by waiting for the answer to a post.
pub data Outcome : Type 0 where
  returned : (token : Text) → Outcome
  rejected : AthenzError → Outcome
  joined : (key : Text) → Outcome
  posted : (key : Text) → Post → Outcome
  -- an answer to no post
  unasked : Outcome

-- What `postTokenForm` settles with.
abbrev pub Answer : Type 0
Answer = Result (Text × Text) AthenzTokenResponse

-- The arguments of a call, as `getAccessToken` reads them.
unfoldable pub requested_of : (scope : Text) → Option Text → Result ScopeError (Text × List Text)
requested_of scope audience = do
  selected ← access_token_audience scope audience
  normalized ← normalize_scope scope
  ok (selected, scope_values normalized)

abbrev pub cached_of : ℕ → Grant → CachedToken
cached_of cached_at grant = record {
  token = grant.token;
  audiences = grant.audiences;
  cached_at_ms = cached_at;
  expires_at_ms = grant.expires_at_ms;
  scopes = grant.scopes;
}

abbrev pub over : Text → Caches → Caches
over key s = record s { in_flight = remove s.in_flight key }

abbrev failure_of : Option Text → Text
failure_of none = []
failure_of (some s) = s

module _ (c : AthenzConfig) (session : GatewaySession) where
  -- The post on an ID-JAG, for an issuance that is in flight.
  unfoldable pub ask_access_token :
      (key : Text) → List Text → Text → (id_jag : Text) → Caches → Caches × Outcome
  ask_access_token key requested audience id_jag s = (
    record s {
      in_flight =
          set s.in_flight key
            (record { scopes = requested; audience = audience; phase = for_access_token });
    },
    posted key (grant_access_token id_jag audience (join blank requested)),
  )

  -- `issueIdJag` up to its post; where it throws, the issuance is over at once
  unfoldable pub ask_id_jag : (now : ℕ) (key : Text) → List Text → Text → Caches → Caches × Outcome
  ask_id_jag now key requested audience s =
      if leb (session.id_token_expires_at * 1000) (now + token_expiry_skew_ms)
      then (record s { in_flight = remove s.in_flight key }, rejected reauthentication_required)
      else (
        record s {
          in_flight =
              set s.in_flight key
                (record { scopes = requested; audience = audience; phase = for_id_jag });
        },
        posted key (exchange_id_token session.id_token (join blank requested) c.zts_audience),
      )

  unfoldable pub issue_with :
      (now : ℕ) (key : Text) → List Text → Text → Option CachedToken → Caches → Caches × Outcome
  unfolding ask_access_token ask_id_jag
  issue_with now key requested audience (some id_jag) s =
      ask_access_token key requested audience id_jag.token s
  issue_with now key requested audience none s = ask_id_jag now key requested audience s

  -- `issueAccessToken` up to its first post
  unfoldable pub issue_access_token :
      (now : ℕ) (key : Text) → List Text → Text → Caches → Caches × Outcome
  unfolding issue_with
  issue_access_token now key requested audience s =
      let (id_jags, found) = find_id_jag c.zts_audience now requested s.id_jags in
      issue_with now key requested audience found (record s { id_jags = id_jags })

  -- Behind a miss: an issuance that is in flight is joined.
  unfoldable pub join_or_issue :
      (now : ℕ) (key : Text) → List Text → Text → Option Flight → Caches → Caches × Outcome
  unfolding issue_access_token
  join_or_issue now key requested audience (some flight) s = (s, joined key)
  join_or_issue now key requested audience none s = issue_access_token now key requested audience s

  unfoldable pub hit_or_miss :
      (now : ℕ) → List Text → Text → Option CachedToken → Caches → Caches × Outcome
  unfolding join_or_issue
  hit_or_miss now requested audience (some entry) s = (s, returned entry.token)
  hit_or_miss now requested audience none s =
      let key = c.stringify (audience ∷ []) requested in
      join_or_issue now key requested audience (get s.in_flight key) s

  unfoldable pub get_for :
      (now : ℕ) → Result ScopeError (Text × List Text) → Caches → Caches × Outcome
  unfolding hit_or_miss
  get_for now (err e) s = (s, rejected (bad_scope e))
  get_for now (ok (audience, requested)) s =
      let (access_tokens, found) = find_access_token now requested audience s.access_tokens in
      hit_or_miss now requested audience found (record s { access_tokens = access_tokens })

  -- `getAccessToken` up to its first `await`
  unfoldable pub get_access_token :
      (now : ℕ) (scope : Text) (audience : Option Text) → Caches → Caches × Outcome
  unfolding get_for requested_of
  get_access_token now scope audience s = get_for now (requested_of scope audience) s

  -- The grant of an access token: cached, and returned if it is just what was asked for.
  unfoldable pub accept_access_token :
      (cached_at : ℕ) (key : Text) → Flight → Result AthenzError Grant → Caches → Caches × Outcome
  accept_access_token cached_at key flight (err e) s = (over key s, rejected e)
  accept_access_token cached_at key flight (ok grant) s =
      if not (audiences_exactly_match grant.audiences (flight.audience ∷ []))
      then (over key s, rejected audience_mismatch)
      else (
        over key (record s {
          access_tokens =
              set s.access_tokens (c.stringify grant.audiences grant.scopes)
                (cached_of cached_at grant);
        }),
        if scopes_exactly_match grant.scopes flight.scopes
            then returned grant.token
            else rejected (insufficient_scope flight.scopes grant.scopes),
      )

  -- The grant of an ID-JAG: cached, and used for the access token if it covers the request.
  unfoldable pub accept_id_jag :
      (cached_at : ℕ) (key : Text) → Flight → Result AthenzError Grant → Caches → Caches × Outcome
  unfolding ask_access_token
  accept_id_jag cached_at key flight (err e) s = (over key s, rejected e)
  accept_id_jag cached_at key flight (ok grant) s =
      if not (includes grant.audiences c.zts_audience)
      then (over key s, rejected audience_mismatch)
      else let s' : Caches = record s {
        id_jags =
            set s.id_jags (c.stringify grant.audiences grant.scopes) (cached_of cached_at grant);
      } in
        if scopes_cover grant.scopes flight.scopes
        then ask_access_token key flight.scopes flight.audience grant.token s'
        else (over key s', rejected (insufficient_scope flight.scopes grant.scopes))

  -- The failures that ask for a new login are told apart, thrown or answered.
  unfoldable pub id_jag_grant : (now : ℕ) → Answer → Result AthenzError Grant
  id_jag_grant now (err (code, message)) =
      if is_identity_token_failure code message
      then err reauthentication_required
      else err (post_failed code message)
  id_jag_grant now (ok response) =
      if is_identity_token_failure (failure_of response.error)
        (failure_of response.error_description)
      then err reauthentication_required
      else token_grant c.decode_jwt response now session.expires_at true

  unfoldable pub access_token_grant : (now : ℕ) → Answer → Result AthenzError Grant
  access_token_grant now (err (code, message)) = err (post_failed code message)
  access_token_grant now (ok response) =
      token_grant c.decode_jwt response now session.expires_at true

  unfoldable pub answered_phase :
      Phase → (now cached_at : ℕ) (key : Text) → Flight → Answer → Caches → Caches × Outcome
  unfolding accept_id_jag accept_access_token id_jag_grant access_token_grant
  answered_phase for_id_jag now cached_at key flight answer s =
      accept_id_jag cached_at key flight (id_jag_grant now answer) s
  answered_phase for_access_token now cached_at key flight answer s =
      accept_access_token cached_at key flight (access_token_grant now answer) s

  unfoldable pub answered_flight :
      (now cached_at : ℕ) (key : Text) → Option Flight → Answer → Caches → Caches × Outcome
  unfolding answered_phase
  answered_flight now cached_at key none answer s = (s, unasked)
  answered_flight now cached_at key (some flight) answer s =
      answered_phase flight.phase now cached_at key flight answer s

  -- Athenz answers the post of the issuance in flight under `key`.
  unfoldable pub answer_arrives :
      (now cached_at : ℕ) (key : Text) → Answer → Caches → Caches × Outcome
  unfolding answered_flight
  answer_arrives now cached_at key answer s =
      answered_flight now cached_at key (get s.in_flight key) answer s
