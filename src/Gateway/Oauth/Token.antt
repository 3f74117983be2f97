-- ===== src/Gateway/Oauth/Token.antt =====
-- POST /oauth/token, and the end of sessions (routes/oauth.ts).
use id_jag_the_hard_way.Base.{
  ℕ, ◌+◌, ◌<◌, ◌≤◌, [], ◌∷◌, ◌⊎◌, true, Option, none, some, ◌≡◌, ◌≢◌, refl, arith,
}
use id_jag_the_hard_way.Base.Text.{Text, text_eq, lit}
use id_jag_the_hard_way.Base.Dict
use id_jag_the_hard_way.Base.Dict.{get-remove_self, get-set_self}
use id_jag_the_hard_way.Base.Options.{truthy, is_text_iff, truthy-eq-some}
use id_jag_the_hard_way.Gateway.Platform.{Platform, Config, seconds}
use id_jag_the_hard_way.Gateway.OauthStore.{
  AuthorizationCode, consume_authorization_code, verify_s256_code_challenge,
}
use id_jag_the_hard_way.Gateway.Sessions
use id_jag_the_hard_way.Gateway.Sessions.{GatewaySession}
use id_jag_the_hard_way.Gateway.Oauth.Request.{
  Gateway, Request, json_error, issued, uncaught, body_value,
}
use id_jag_the_hard_way.Gateway.Oauth.Grant.{
  granted_code, token_with, token_code, exchange_token, revoke,
}

-- The session that a code is exchanged for.
pub session_of : Config → (now : ℕ) → AuthorizationCode → GatewaySession
session_of c now a = record {
  id_token = a.id_token;
  id_token_expires_at = a.identity_expires_at;
  subject = a.subject;
  username = a.username;
  expires_at = seconds now + c.session_ttl;
}

module _ (p : Platform) where
  -- What has been checked of a request against its code.
  pub record IsChecked (r : Request) (a : AuthorizationCode) : Type 0 where
    pub grant_type : body_value r (lit "grant_type") ≡ some (lit "authorization_code")
    pub same_client : body_value r (lit "client_id") ≡ some a.client_id
    pub same_redirect : body_value r (lit "redirect_uri") ≡ some a.redirect_uri
    pub verifier : Text
    pub proved : body_value r (lit "code_verifier") ≡ some verifier
    pub verified : verify_s256_code_challenge p verifier a.client_code_challenge ≡ true

  -- The code that was presented, and the checks that it passed.
  pub record IsGranted (ms : ℕ) (r : Request) (g : Gateway) (a : AuthorizationCode) : Type 0 where
    pub code : Text
    pub presented : body_value r (lit "code") ≡ some code
    pub stored : Dict.get g.store.authorization_codes code ≡ some a
    pub unexpired : seconds ms < a.expires_at
    pub checks : IsChecked r a

  granted_code_sound :
      (r : Request) (o : Option AuthorizationCode) {a : AuthorizationCode}
      → granted_code p r o ≡ some a
      → (o ≡ some a) × IsChecked r a
  unfolding granted_code
  granted_code_sound r none h = cc
  granted_code_sound r (some b) {a} h = ground (
    arith,
    is_text_iff (body_value r (lit "grant_type")) (lit "authorization_code"),
    is_text_iff (body_value r (lit "client_id")) b.client_id,
    is_text_iff (body_value r (lit "redirect_uri")) b.redirect_uri,
    truthy-eq-some (body_value r (lit "code_verifier")),
  )

  token_code_sound :
      (ms : ℕ) (o : Option Text) (g : Gateway) {a : AuthorizationCode}
      → (token_code p ms o g).1 ≡ some a
      → (code : Text) × (o ≡ some code)
        × (Dict.get g.store.authorization_codes code ≡ some a)
        × (seconds ms < a.expires_at)
  unfolding token_code consume_authorization_code
  token_code_sound ms none g h = cc
  token_code_sound ms (some code) g h = (code, refl, ground arith, ground arith)

  store-token_with :
      (c : Config) (now created : ℕ) (t : Text) (o : Option AuthorizationCode) (g : Gateway)
      → (token_with p c now created t o g).0.store ≡ g.store
  unfolding token_with
  store-token_with c now created t o g = ground arith

  token_code-again :
      (ms later : ℕ) (o : Option Text) (g g' : Gateway)
      → g'.store ≡ (token_code p ms o g).0.store
      → (token_code p later o g').1 ≡ none
  unfolding token_code consume_authorization_code
  token_code-again ms later none g g' e = refl
  token_code-again ms later (some code) g g' e =
      rw (e, get-remove_self g.store.authorization_codes code)

  pub store-exchange_token :
      (c : Config) (consumed now created : ℕ) (t : Text) (r : Request) (g : Gateway)
      → (exchange_token p c consumed now created t r g).0.store
        ≡ (token_code p consumed (truthy (body_value r (lit "code"))) g).0.store
  unfolding exchange_token
  store-exchange_token c consumed now created t r g = store-token_with c now created t _ _

  refused :
      (c : Config) (consumed now created : ℕ) (t : Text) (r : Request) (g : Gateway)
      → (token_code p consumed (truthy (body_value r (lit "code"))) g).1 ≡ none
      → (exchange_token p c consumed now created t r g).1 ≡ json_error 400 (lit "invalid_grant")
  unfolding exchange_token granted_code
  refused c consumed now created t r g e = rw e

  -- A code is exchanged at most once: the second request that presents it is refused as an
  -- invalid grant, whatever else it holds, whenever it comes, and whatever became of the
  -- first.
  pub exchange_token_once :
      (c : Config) (consumed now created consumed' now' created' : ℕ) (t t' : Text) (r r' : Request)
      (g : Gateway)
      → body_value r' (lit "code") ≡ body_value r (lit "code")
      → (exchange_token p c consumed' now' created' t' r'
          (exchange_token p c consumed now created t r g).0).1
        ≡ json_error 400 (lit "invalid_grant")
  exchange_token_once c consumed now created consumed' now' created' t t' r r' g same =
      refused c consumed' now' created' t' r' _ (
        rw same (
          token_code-again consumed consumed' _ g _
            (store-exchange_token c consumed now created t r g)))

  token_with_sound :
      (c : Config) (now created ttl : ℕ) (t t' : Text) (o : Option AuthorizationCode) (g : Gateway)
      → (token_with p c now created t o g).1 ≡ issued t' ttl
      → (a : AuthorizationCode) × (o ≡ some a)
        × (t' ≡ t)
        × (ttl ≡ c.session_ttl)
        × (Dict.get (token_with p c now created t o g).0.sessions (p.sha256 t)
            ≡ some (session_of c now a))
  unfolding token_with Sessions.create session_of
  token_with_sound c now created ttl t t' none g h = cc
  token_with_sound c now created ttl t t' (some a) g h = (
    a,
    refl,
    ground arith,
    ground arith,
    ground (arith, get-set_self g.sessions (p.sha256 t) (session_of c now a)),
  )

  -- An access token is issued only for a stored and unexpired code, to the client and redirect
  -- URI that it was made for, against the verifier of its challenge; and the session that is
  -- stored under the token is that of the identity behind the code.
  pub exchange_token_sound :
      (c : Config) (consumed now created ttl : ℕ) (t t' : Text) (r : Request) (g : Gateway)
      → (exchange_token p c consumed now created t r g).1 ≡ issued t' ttl
      → (a : AuthorizationCode) × IsGranted consumed r g a
        × (t' ≡ t)
        × (ttl ≡ c.session_ttl)
        × (Dict.get (exchange_token p c consumed now created t r g).0.sessions (p.sha256 t)
            ≡ some (session_of c now a))
  exchange_token_sound c consumed now created ttl t t' r g h =
      let (g', found) = token_code p consumed (truthy (body_value r (lit "code"))) g in
      let (a, granted, same_token, same_ttl, session) =
        token_with_sound c now created ttl t t' (granted_code p r found) g'
          (unfold exchange_token in h) in
      let (consumes, checked) = granted_code_sound r found granted in
      let (code, presented, stored, unexpired) = token_code_sound consumed _ g consumes in
      (
        a,
        record {
          code = code;
          presented = (truthy-eq-some _ presented).0;
          stored = stored;
          unexpired = unexpired;
          checks = checked;
        },
        same_token,
        same_ttl,
        unfold exchange_token in session,
      )

  token_with-uncaught :
      (c : Config) (now created : ℕ) (t : Text) (o : Option AuthorizationCode) (g : Gateway)
      → (token_with p c now created t o g).1 ≡ uncaught
      → (a : AuthorizationCode) × (o ≡ some a)
        × ((a.identity_expires_at ≤ seconds created)
            ⊎ (seconds now + c.session_ttl ≤ seconds created))
  unfolding token_with Sessions.create
  token_with-uncaught c now created t none g h = cc
  token_with-uncaught c now created t (some a) g h = (a, refl, ground arith)

  -- Where the three readings of the clock fall in one second, and sessions have a lifetime, the
  -- handler never ends in an exception.
  pub exchange_token-ne-uncaught :
      (c : Config) (consumed now created : ℕ) (t : Text) (r : Request) (g : Gateway)
      → seconds now ≡ seconds consumed
      → seconds created ≡ seconds consumed
      → 0 < c.session_ttl
      → ((code : Text) (a : AuthorizationCode)
          → Dict.get g.store.authorization_codes code ≡ some a
          → a.expires_at ≤ a.identity_expires_at)
      → (exchange_token p c consumed now created t r g).1 ≢ uncaught
  exchange_token-ne-uncaught c consumed now created t r g e1 e2 pos bounded h =
      let (g', found) = token_code p consumed (truthy (body_value r (lit "code"))) g in
      let (a, granted, late) =
        token_with-uncaught c now created t (granted_code p r found) g'
          (unfold exchange_token in h) in
      let (consumes, checked) = granted_code_sound r found granted in
      let (code, presented, stored, unexpired) = token_code_sound consumed _ g consumes in
      omega (arith, bounded code a stored, late, unexpired)

  -- After a revocation of a token that is not empty, the token opens no session.
  pub get-revoke :
      (ms : ℕ) (token : Text) (r : Request) (g : Gateway)
      → body_value r (lit "token") ≡ some token
      → token ≢ []
      → (Sessions.get p ms token (revoke p r g).0.sessions).1 ≡ none
  unfolding revoke Sessions.get Sessions.delete
  get-revoke ms [] r g e n = absurd (n refl)
  get-revoke ms (c ∷ token) r g e n = rw (e, get-remove_self g.sessions (p.sha256 (c ∷ token)))
