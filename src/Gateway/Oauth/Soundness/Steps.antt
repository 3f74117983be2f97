-- ===== src/Gateway/Oauth/Soundness/Steps.antt =====
-- The invariant of the OAuth server over each of its steps (routes/oauth.ts).
use id_jag_the_hard_way.Base.{
  ℕ, Option, none, some, List, ◌≡◌, refl, sym, subst, Member, All, All-member, arith, Result, ok,
  err,
}
use id_jag_the_hard_way.Base.Text.{Text, text_eq, lit}
use id_jag_the_hard_way.Base.Dict.{Entries, Entries-get, Entries-set, Entries-remove}
use id_jag_the_hard_way.Base.Options.{truthy}
use id_jag_the_hard_way.Gateway.Platform.{Platform, Config}
use id_jag_the_hard_way.Gateway.OauthStore.{
  AuthorizationTransaction, NewAuthorizationCode, OauthStore, consume_authorization_transaction,
  create_authorization_code, consume_authorization_code, create_logout_ticket,
  consume_logout_ticket,
}
use id_jag_the_hard_way.Gateway.Sessions.{GatewaySession}
use id_jag_the_hard_way.Gateway.Keycloak.{TokenResponse, IdTokenPayload, Identity, KeycloakError}
use id_jag_the_hard_way.Gateway.Oauth.Request.{Gateway, Request, body_value}
use id_jag_the_hard_way.Gateway.Oauth.Login.{
  callback, callback_state, callback_with, callback_outcome, finish_callback, finish_exchange,
  finish_with,
}
use id_jag_the_hard_way.Gateway.Oauth.Grant.{
  exchange_token, token_code, revoke, idp_logout_ticket, idp_logout, ticket_session, ticket_with,
  revoke_token, logout_token,
}
use id_jag_the_hard_way.Gateway.Oauth.System.{System, Step, Reach, await}
use id_jag_the_hard_way.Gateway.Oauth.Token.{store-exchange_token}
use id_jag_the_hard_way.Gateway.Oauth.Soundness.{
  IsRegistered, IsStarted, IsBacked, IsSound, register-IsSound, authorize-IsSound,
}
use id_jag_the_hard_way.Gateway.Oauth.System.{
  registers, authorizes, calls_back, finishes, exchanges, revokes, asks_ticket, logs_out, here,
  next,
}

module _ (p : Platform) where
  pub consume_transaction_sound :
      (ms : ℕ) (k : Text) (s : OauthStore) {t : AuthorizationTransaction}
      → (consume_authorization_transaction ms k s).1 ≡ some t
      → Entries (λ k. IsStarted p s.clients) s.transactions
      → IsStarted p s.clients t
  unfolding consume_authorization_transaction
  consume_transaction_sound ms k s {t} e h =
      Entries-get (λ k. IsStarted p s.clients) s.transactions k t h (ground arith)

  callback_with-IsSound :
      (r : Request) (o : Option AuthorizationTransaction) (s : OauthStore)
      (ts : List AuthorizationTransaction)
      → ((t : AuthorizationTransaction) → o ≡ some t → IsStarted p s.clients t)
      → All (IsStarted p s.clients) ts
      → All (IsStarted p s.clients) (await (callback_with p r o) ts)
  unfolding callback_with
  callback_with-IsSound r none s ts valid h = h
  callback_with-IsSound r (some t) s ts valid h = outcome _ _
    where
      outcome :
          (error code : Option Text)
          → All (IsStarted p s.clients) (await (callback_outcome p t error code) ts)
      outcome (some e) code = h
      outcome none none = h
      outcome none (some c) = (valid t refl, h)

  callback-IsSound :
      (ms : ℕ) (r : Request) (g : Gateway) (ts : List AuthorizationTransaction)
      → IsSound p g.store ts
      → IsSound p (callback p ms r g).0.store (await (callback p ms r g).1 ts)
  unfolding callback consume_authorization_transaction
  callback-IsSound ms r g ts h = at_state _
    where
      at_state :
          (o : Option Text)
          → IsSound p (callback_state p ms o r g).0.store (await (callback_state p ms o r g).1 ts)
      at_state none = record {
        known = h.known;
        started = h.started;
        backed = h.backed;
        awaited = callback_with-IsSound r none g.store ts (λ t e. absurd (cc e)) h.awaited;
      }
      at_state (some k) = record {
        known = h.known;
        started =
            Entries-remove (λ k. IsStarted p g.store.clients) g.store.transactions k h.started;
        backed = h.backed;
        awaited =
            callback_with-IsSound r (consume_authorization_transaction ms k g.store).1 g.store ts
              (λ t e. consume_transaction_sound ms k g.store e h.started) h.awaited;
      }

  create_code-IsSound :
      (c : Config) (ms : ℕ) (code : Text) (i : NewAuthorizationCode) (s : OauthStore)
      (ts : List AuthorizationTransaction)
      → IsRegistered p s.clients i.client_id i.redirect_uri
      → IsSound p s ts
      → IsSound p (create_authorization_code c ms code i s) ts
  unfolding create_authorization_code
  create_code-IsSound c ms code i s ts valid h = record {
    known = h.known;
    started = h.started;
    backed =
        Entries-set (λ k. IsBacked p s.clients) s.authorization_codes _ _ h.backed
          (valid, omega arith);
    awaited = h.awaited;
  }

  finish-IsSound :
      (c : Config) (ms : ℕ) (code : Text) (t : AuthorizationTransaction) (response : TokenResponse)
      (jwt_verify : Text → Option IdTokenPayload) (g : Gateway) (ts : List AuthorizationTransaction)
      → Member t ts
      → IsSound p g.store ts
      → IsSound p (finish_callback p c ms code t response jwt_verify g).0.store ts
  unfolding finish_callback
  finish-IsSound c ms code t response jwt_verify g ts m h = at_exchange _
    where
      at_identity :
          (id_token : Text) (i : Result KeycloakError Identity)
          → IsSound p (finish_with p c ms code id_token t i g).0.store ts
      at_identity id_token (err e) = h
      at_identity id_token (ok identity) =
          create_code-IsSound c ms code _ g.store ts (All-member _ ts t h.awaited m) h

      at_exchange :
          (i : Result KeycloakError Text)
          → IsSound p (finish_exchange p c ms code t i jwt_verify g).0.store ts
      at_exchange (err e) = h
      at_exchange (ok id_token) = at_identity id_token _

  exchange-IsSound :
      (c : Config) (consumed now created : ℕ) (token : Text) (r : Request) (g : Gateway)
      (ts : List AuthorizationTransaction)
      → IsSound p g.store ts
      → IsSound p (exchange_token p c consumed now created token r g).0.store ts
  unfolding token_code consume_authorization_code
  exchange-IsSound c consumed now created token r g ts h =
      subst (λ s. IsSound p s ts) (sym (store-exchange_token p c consumed now created token r g))
        (at_code (truthy (body_value r (lit "code"))))
    where
      at_code : (o : Option Text) → IsSound p (token_code p consumed o g).0.store ts
      at_code none = h
      at_code (some code) = record {
        known = h.known;
        started = h.started;
        backed =
            Entries-remove (λ k. IsBacked p g.store.clients) g.store.authorization_codes code
              h.backed;
        awaited = h.awaited;
      }

  ticket-IsSound :
      (c : Config) (consumed created : ℕ) (ticket : Text) (r : Request) (g : Gateway)
      (ts : List AuthorizationTransaction)
      → IsSound p g.store ts
      → IsSound p (idp_logout_ticket p c consumed created ticket r g).0.store ts
  unfolding idp_logout_ticket create_logout_ticket
  ticket-IsSound c consumed created ticket r g ts h = at_token (truthy (body_value r (lit "token")))
    where
      at_session :
          (o : Option GatewaySession) (g' : Gateway)
          → IsSound p g'.store ts
          → IsSound p (ticket_with p c created ticket o g').0.store ts
      at_session none g' h = h
      at_session (some session) g' h = record {
        known = h.known;
        started = h.started;
        backed = h.backed;
        awaited = h.awaited;
      }

      at_token :
          (o : Option Text)
          → IsSound p
              (ticket_with p c created ticket
                (ticket_session p consumed o g).1
                (ticket_session p consumed o g).0).0.store
              ts
      at_token none = at_session none g h
      at_token (some token) = at_session _ _ h

  revoke-IsSound :
      (r : Request) (g : Gateway) (ts : List AuthorizationTransaction)
      → IsSound p g.store ts
      → IsSound p (revoke p r g).0.store ts
  unfolding revoke
  revoke-IsSound r g ts h = at_token _
    where
      at_token : (o : Option Text) → IsSound p (revoke_token p o g).store ts
      at_token none = h
      at_token (some token) = h

  logout-IsSound :
      (ms : ℕ) (r : Request) (g : Gateway) (ts : List AuthorizationTransaction)
      → IsSound p g.store ts
      → IsSound p (idp_logout p ms r g).0.store ts
  unfolding idp_logout consume_logout_ticket
  logout-IsSound ms r g ts h = at_ticket _
    where
      at_ticket : (o : Option Text) → IsSound p (logout_token p ms o g).0.store ts
      at_ticket none = h
      at_ticket (some ticket) = record {
        known = h.known;
        started = h.started;
        backed = h.backed;
        awaited = h.awaited;
      }

  Step-IsSound :
      (c : Config) {y z : System}
      → Step p c y z
      → IsSound p y.gateway.store y.awaiting
      → IsSound p z.gateway.store z.awaiting
  Step-IsSound c {y} (registers ms uuid r fresh) h =
      register-IsSound p ms uuid r y.gateway y.awaiting fresh h
  Step-IsSound c {y} (authorizes ms state verifier nonce r) h =
      authorize-IsSound p c ms state verifier nonce r y.gateway y.awaiting h
  Step-IsSound c {y} (calls_back ms r) h = callback-IsSound ms r y.gateway y.awaiting h
  Step-IsSound c {y} (finishes ms code t response jwt_verify m) h =
      finish-IsSound c ms code t response jwt_verify y.gateway y.awaiting m h
  Step-IsSound c {y} (exchanges consumed now created token r) h =
      exchange-IsSound c consumed now created token r y.gateway y.awaiting h
  Step-IsSound c {y} (revokes r) h = revoke-IsSound r y.gateway y.awaiting h
  Step-IsSound c {y} (asks_ticket consumed created ticket r) h =
      ticket-IsSound c consumed created ticket r y.gateway y.awaiting h
  Step-IsSound c {y} (logs_out ms r) h = logout-IsSound ms r y.gateway y.awaiting h

  -- From a sound state, whatever the handlers do, in any order and with any number of
  -- callbacks waiting, each stored client has only allowed redirect URIs, each transaction and
  -- each code is for a registered client and one of its URIs, and no code outlives the
  -- identity behind it.
  pub Reach-IsSound :
      (c : Config) {y z : System}
      → IsSound p y.gateway.store y.awaiting
      → Reach p c y z
      → IsSound p z.gateway.store z.awaiting
  Reach-IsSound c h here = h
  Reach-IsSound c h (next r s) = Step-IsSound c s (Reach-IsSound c h r)
