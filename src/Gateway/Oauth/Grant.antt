-- ===== src/Gateway/Oauth/Grant.antt =====
-- routes/oauth.ts: codes become sessions, and sessions end.
use id_jag_the_hard_way.Base.{ℕ, ◌+◌, Option, none, some, Result, ok, err}
use id_jag_the_hard_way.Base.Text.{Text, lit}
use id_jag_the_hard_way.Base.Options.{◌>>=◌, ◌>>◌, guard, truthy, is_text}
use id_jag_the_hard_way.Gateway.Platform.{Platform, Config, seconds}
use id_jag_the_hard_way.Gateway.OauthStore.{
  AuthorizationCode, consume_authorization_code, create_logout_ticket, consume_logout_ticket,
  verify_s256_code_challenge,
}
use id_jag_the_hard_way.Gateway.Sessions
use id_jag_the_hard_way.Gateway.Sessions.{GatewaySession, SessionStore, SessionError}
use id_jag_the_hard_way.Gateway.Oauth.Request.{
  Gateway, Request, Reply, json_error, text_error, status_only, issued, logout_url, end_session,
  uncaught, query_value, body_value,
}

module _ (p : Platform) where
  -- The checks of POST /oauth/token on the code that was consumed.
  unfoldable pub granted_code : Request → Option AuthorizationCode → Option AuthorizationCode
  granted_code r consumed = do
    a ← consumed
    guard (is_text (body_value r (lit "grant_type")) (lit "authorization_code"))
    guard (is_text (body_value r (lit "client_id")) a.client_id)
    guard (is_text (body_value r (lit "redirect_uri")) a.redirect_uri)
    code_verifier ← truthy (body_value r (lit "code_verifier"))
    guard (verify_s256_code_challenge p code_verifier a.client_code_challenge)
    some a

  unfoldable pub token_created :
      Config → (access_token : Text) → Result SessionError SessionStore → Gateway → Gateway × Reply
  token_created c access_token (err e) g = (g, uncaught)
  token_created c access_token (ok sessions) g =
      (record g { sessions = sessions }, issued access_token c.session_ttl)

  -- `now` is the handler's own reading of the clock, `created` that of `sessionStore.create`.
  unfoldable pub token_with :
      Config
      → (now created : ℕ) (access_token : Text) → Option AuthorizationCode
      → Gateway
      → Gateway × Reply
  unfolding token_created
  token_with c now created access_token none g = (g, json_error 400 (lit "invalid_grant"))
  token_with c now created access_token (some a) g =
      token_created c access_token
        (Sessions.create p created access_token
          (record {
            id_token = a.id_token;
            id_token_expires_at = a.identity_expires_at;
            subject = a.subject;
            username = a.username;
            expires_at = seconds now + c.session_ttl;
          })
          g.sessions)
        g

  unfoldable pub token_code : (ms : ℕ) → Option Text → Gateway → Gateway × Option AuthorizationCode
  token_code ms none g = (g, none)
  token_code ms (some code) g =
      let (store, consumed) = consume_authorization_code ms code g.store in
      (record g { store = store }, consumed)

  -- POST /oauth/token; the clock is read on consuming the code, in the handler, and on creating
  -- the session
  unfoldable pub exchange_token :
      Config
      → (consumed now created : ℕ) (access_token : Text) → Request
      → Gateway
      → Gateway × Reply
  unfolding token_with token_code
  exchange_token c consumed now created access_token r g =
      let (g', code) = token_code consumed (truthy (body_value r (lit "code"))) g in
      token_with c now created access_token (granted_code r code) g'

  unfoldable pub revoke_token : Option Text → Gateway → Gateway
  revoke_token none g = g
  revoke_token (some token) g = record g { sessions = (Sessions.delete p token g.sessions).0 }

  -- POST /oauth/revoke
  unfoldable pub revoke : Request → Gateway → Gateway × Reply
  unfolding revoke_token
  revoke r g = (revoke_token (truthy (body_value r (lit "token"))) g, status_only 200)

  unfoldable pub ticket_session : (ms : ℕ) → Option Text → Gateway → Gateway × Option GatewaySession
  ticket_session ms none g = (g, none)
  ticket_session ms (some token) g =
      let (sessions, session) = Sessions.consume p ms token g.sessions in
      (record g { sessions = sessions }, session)

  unfoldable pub ticket_with :
      Config → (ms : ℕ) (ticket : Text) → Option GatewaySession → Gateway → Gateway × Reply
  ticket_with c ms ticket none g = (g, json_error 401 (lit "invalid_token"))
  ticket_with c ms ticket (some session) g = (
    record g { store = create_logout_ticket c ms ticket session.id_token g.store },
    logout_url ticket,
  )

  -- POST /oauth/idp-logout-ticket
  unfoldable pub idp_logout_ticket :
      Config → (consumed created : ℕ) (ticket : Text) → Request → Gateway → Gateway × Reply
  unfolding ticket_session ticket_with
  idp_logout_ticket c consumed created ticket r g =
      let (g', session) = ticket_session consumed (truthy (body_value r (lit "token"))) g in
      ticket_with c created ticket session g'

  unfoldable pub logout_token : (ms : ℕ) → Option Text → Gateway → Gateway × Option Text
  logout_token ms none g = (g, none)
  logout_token ms (some ticket) g =
      let (store, id_token) = consume_logout_ticket ms ticket g.store in
      (record g { store = store }, id_token)

  unfoldable pub logout_reply : Option Text → Reply
  logout_reply none = text_error 400
  logout_reply (some id_token) = end_session id_token

  -- GET /oauth/idp-logout
  unfoldable pub idp_logout : (ms : ℕ) → Request → Gateway → Gateway × Reply
  unfolding logout_token logout_reply
  idp_logout ms r g =
      let (g', id_token) = logout_token ms (truthy (query_value r (lit "ticket"))) g in
      (g', logout_reply (truthy id_token))
