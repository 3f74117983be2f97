-- ===== src/Gateway/Athenz/Manager/Genuine.antt =====
-- What the two caches of `AthenzAccessTokenManager` hold over its calls and answers (athenz.ts).
use id_jag_the_hard_way.Base.{
  ℕ, Option, none, some, List, [], ◌∷◌, ◌≡◌, refl, Result, ok, err, arith,
}
use id_jag_the_hard_way.Base.Text.{Text, text_eq}
use id_jag_the_hard_way.Base.Dict.{get, Entries, Entries-set}
use id_jag_the_hard_way.Gateway.Sessions.{GatewaySession}
use id_jag_the_hard_way.Gateway.Athenz.Scopes.{ScopeError}
use id_jag_the_hard_way.Gateway.Athenz.Errors.{AthenzError}
use id_jag_the_hard_way.Gateway.Athenz.Grants.{Grant}
use id_jag_the_hard_way.Gateway.Athenz.Claims.{IsFromToken, token_grant_sound}
use id_jag_the_hard_way.Gateway.Athenz.Caches.{CachedToken}
use id_jag_the_hard_way.Gateway.Athenz.Caches.Search.{
  find_access_token-Entries, find_id_jag-Entries,
}
use id_jag_the_hard_way.Gateway.Athenz.Manager.{
  AthenzConfig, Flight, for_id_jag, for_access_token, Caches, Outcome, Answer, ask_access_token,
  ask_id_jag, issue_with, issue_access_token, join_or_issue, hit_or_miss, requested_of, get_for,
  get_access_token, cached_of, accept_access_token, accept_id_jag, id_jag_grant, access_token_grant,
  answered_flight, answered_phase, Phase, answer_arrives,
}

module _ (c : AthenzConfig) (session : GatewaySession) where
  -- The entry is what its own token claims, and does not outlive the session.
  abbrev pub IsGenuine : CachedToken → Type 0
  IsGenuine e =
      IsFromToken c.decode_jwt session.expires_at e.token e.scopes e.audiences e.expires_at_ms

  pub record AreGenuine (s : Caches) : Type 0 where
    pub access_tokens : Entries (λ key e. IsGenuine e) s.access_tokens
    pub id_jags : Entries (λ key e. IsGenuine e) s.id_jags

  issue_with_kept :
      (now : ℕ) (key : Text) (requested : List Text) (audience : Text) (found : Option CachedToken)
      (s : Caches)
      → AreGenuine s
      → AreGenuine (issue_with c session now key requested audience found s).0
  unfolding issue_with ask_access_token ask_id_jag
  issue_with_kept now key requested audience (some id_jag) s h = record {
    access_tokens = h.access_tokens;
    id_jags = h.id_jags;
  }
  issue_with_kept now key requested audience none s h = record {
    access_tokens = ground (arith, h.access_tokens);
    id_jags = ground (arith, h.id_jags);
  }

  join_or_issue_kept :
      (now : ℕ) (key : Text) (requested : List Text) (audience : Text) (flight : Option Flight)
      (s : Caches)
      → AreGenuine s
      → AreGenuine (join_or_issue c session now key requested audience flight s).0
  unfolding join_or_issue issue_access_token
  join_or_issue_kept now key requested audience (some flight) s h = h
  join_or_issue_kept now key requested audience none s h =
      issue_with_kept now key requested audience _ _ (record {
        access_tokens = h.access_tokens;
        id_jags =
            find_id_jag-Entries now c.zts_audience requested (λ k e. IsGenuine e) s.id_jags
              h.id_jags;
      })

  hit_or_miss_kept :
      (now : ℕ) (requested : List Text) (audience : Text) (found : Option CachedToken) (s : Caches)
      → AreGenuine s
      → AreGenuine (hit_or_miss c session now requested audience found s).0
  unfolding hit_or_miss
  hit_or_miss_kept now requested audience (some entry) s h = h
  hit_or_miss_kept now requested audience none s h =
      join_or_issue_kept now (c.stringify (audience ∷ []) requested) requested audience _ s h

  get_for_kept :
      (now : ℕ) (r : Result ScopeError (Text × List Text)) (s : Caches)
      → AreGenuine s
      → AreGenuine (get_for c session now r s).0
  unfolding get_for
  get_for_kept now (err e) s h = h
  get_for_kept now (ok (audience, requested)) s h =
      hit_or_miss_kept now requested audience _ _ (record {
        access_tokens =
            find_access_token-Entries now requested audience (λ k e. IsGenuine e) s.access_tokens
              h.access_tokens;
        id_jags = h.id_jags;
      })

  pub get_access_token_kept :
      (now : ℕ) (scope : Text) (audience : Option Text) (s : Caches)
      → AreGenuine s
      → AreGenuine (get_access_token c session now scope audience s).0
  unfolding get_access_token
  get_access_token_kept now scope audience s h = get_for_kept now (requested_of scope audience) s h

  -- A grant is good when its token claims it.
  abbrev pub IsGoodGrant : Result AthenzError Grant → Type 0
  IsGoodGrant (err e) = Unit
  IsGoodGrant (ok grant) =
      IsFromToken c.decode_jwt session.expires_at grant.token grant.scopes grant.audiences
        grant.expires_at_ms

  token_grant_good :
      (r : Result AthenzError Grant)
      → ((grant : Grant)
          → r ≡ ok grant
          → IsFromToken c.decode_jwt session.expires_at grant.token grant.scopes grant.audiences
              grant.expires_at_ms)
      → IsGoodGrant r
  token_grant_good (err e) h = tt
  token_grant_good (ok grant) h = h grant refl

  pub access_token_grant_good :
      (now : ℕ) (answer : Answer) → IsGoodGrant (access_token_grant c session now answer)
  unfolding access_token_grant
  access_token_grant_good now (err e) = tt
  access_token_grant_good now (ok response) =
      token_grant_good _
        (λ g e. (token_grant_sound c.decode_jwt response now session.expires_at g e).0)

  pub id_jag_grant_sound :
      (now : ℕ) (answer : Answer) (grant : Grant)
      → id_jag_grant c session now answer ≡ ok grant
      → IsGoodGrant (ok grant)
  unfolding id_jag_grant
  id_jag_grant_sound now (err (code, message)) grant e = absurd (ground arith)
  id_jag_grant_sound now (ok response) grant e =
      (token_grant_sound c.decode_jwt response now session.expires_at grant (ground arith)).0

  pub id_jag_grant_good :
      (now : ℕ) (answer : Answer) → IsGoodGrant (id_jag_grant c session now answer)
  id_jag_grant_good now answer = token_grant_good _ (id_jag_grant_sound now answer)

  accept_access_token_kept :
      (cached_at : ℕ) (key : Text) (flight : Flight) (r : Result AthenzError Grant) (s : Caches)
      → IsGoodGrant r
      → AreGenuine s
      → AreGenuine (accept_access_token c session cached_at key flight r s).0
  unfolding accept_access_token
  accept_access_token_kept cached_at key flight (err e) s good h = record {
    access_tokens = h.access_tokens;
    id_jags = h.id_jags;
  }
  accept_access_token_kept cached_at key flight (ok grant) s good h =
      let stored =
        Entries-set (λ k e. IsGenuine e) s.access_tokens (c.stringify grant.audiences grant.scopes)
          (cached_of cached_at grant) h.access_tokens good in
      record {
        access_tokens = ground (arith, stored, h.access_tokens);
        id_jags = ground (arith, h.id_jags);
      }

  accept_id_jag_kept :
      (cached_at : ℕ) (key : Text) (flight : Flight) (r : Result AthenzError Grant) (s : Caches)
      → IsGoodGrant r
      → AreGenuine s
      → AreGenuine (accept_id_jag c session cached_at key flight r s).0
  unfolding accept_id_jag ask_access_token
  accept_id_jag_kept cached_at key flight (err e) s good h = record {
    access_tokens = h.access_tokens;
    id_jags = h.id_jags;
  }
  accept_id_jag_kept cached_at key flight (ok grant) s good h =
      let stored =
        Entries-set (λ k e. IsGenuine e) s.id_jags (c.stringify grant.audiences grant.scopes)
          (cached_of cached_at grant) h.id_jags good in
      record {
        access_tokens = ground (arith, h.access_tokens);
        id_jags = ground (arith, stored, h.id_jags);
      }

  answered_phase_kept :
      (phase : Phase) (now cached_at : ℕ) (key : Text) (flight : Flight) (answer : Answer)
      (s : Caches)
      → AreGenuine s
      → AreGenuine (answered_phase c session phase now cached_at key flight answer s).0
  unfolding answered_phase
  answered_phase_kept for_id_jag now cached_at key flight answer s h =
      accept_id_jag_kept cached_at key flight (id_jag_grant c session now answer) s
        (id_jag_grant_good now answer) h
  answered_phase_kept for_access_token now cached_at key flight answer s h =
      accept_access_token_kept cached_at key flight (access_token_grant c session now answer) s
        (access_token_grant_good now answer) h

  answered_flight_kept :
      (now cached_at : ℕ) (key : Text) (flight : Option Flight) (answer : Answer) (s : Caches)
      → AreGenuine s
      → AreGenuine (answered_flight c session now cached_at key flight answer s).0
  unfolding answered_flight
  answered_flight_kept now cached_at key none answer s h = h
  answered_flight_kept now cached_at key (some flight) answer s h =
      answered_phase_kept flight.phase now cached_at key flight answer s h

  pub answer_arrives_kept :
      (now cached_at : ℕ) (key : Text) (answer : Answer) (s : Caches)
      → AreGenuine s
      → AreGenuine (answer_arrives c session now cached_at key answer s).0
  unfolding answer_arrives
  answer_arrives_kept now cached_at key answer s h =
      answered_flight_kept now cached_at key (get s.in_flight key) answer s h

  -- What happens to a session's caches: a call, or an answer of Athenz.
  pub data Event : Type 0 where
    called : (now : ℕ) (scope : Text) (audience : Option Text) → Event
    answered : (now cached_at : ℕ) (key : Text) → Answer → Event

  unfoldable pub happens : Event → Caches → Caches × Outcome
  unfolding get_access_token answer_arrives
  happens (called now scope audience) s = get_access_token c session now scope audience s
  happens (answered now cached_at key answer) s =
      answer_arrives c session now cached_at key answer s

  unfoldable pub run : List Event → Caches → Caches
  unfolding happens
  run [] s = s
  run (e ∷ es) s = run es (happens e s).0

  -- Over any sequence of calls and answers, in any order, caches that are genuine, as empty
  -- ones are, stay so: they keep only tokens with the scopes and audiences that the token
  -- itself claims, for no longer than its claim and the session last.
  pub run-AreGenuine : (es : List Event) (s : Caches) → AreGenuine s → AreGenuine (run es s)
  unfolding run happens
  run-AreGenuine [] s h = h
  run-AreGenuine (called now scope audience ∷ es) s h =
      run-AreGenuine es _ (get_access_token_kept now scope audience s h)
  run-AreGenuine (answered now cached_at key answer ∷ es) s h =
      run-AreGenuine es _ (answer_arrives_kept now cached_at key answer s h)
