-- ===== src/Gateway/Oauth/Soundness/Promises.antt =====
-- What a sound state means for redirects and for the exchange of codes (routes/oauth.ts).
use id_jag_the_hard_way.Base.{
  ℕ, ◌<◌, Option, none, some, List, ◌≡◌, ◌≢◌, refl, Member, All-member, arith,
}
use id_jag_the_hard_way.Base.Text.{Text, text_eq}
use id_jag_the_hard_way.Base.Dict.{Dict, Entries-get}
use id_jag_the_hard_way.Base.Options.{truthy}
use id_jag_the_hard_way.Gateway.Platform.{Platform, Config, seconds}
use id_jag_the_hard_way.Gateway.OauthStore.{
  AuthorizationTransaction, consume_authorization_transaction,
}
use id_jag_the_hard_way.Gateway.Keycloak.{TokenResponse, IdTokenPayload}
use id_jag_the_hard_way.Gateway.Oauth.Request.{Gateway, Request, to_client, uncaught}
use id_jag_the_hard_way.Gateway.Oauth.Login.{
  answered, callback, callback_state, callback_with, callback_outcome, finish_callback,
}
use id_jag_the_hard_way.Gateway.Oauth.Grant.{exchange_token}
use id_jag_the_hard_way.Gateway.Oauth.Token.{exchange_token-ne-uncaught}
use id_jag_the_hard_way.Gateway.Oauth.Soundness.{IsRegistered, IsBacked, IsSound}
use id_jag_the_hard_way.Gateway.Oauth.Soundness.Steps.{consume_transaction_sound, Reach-IsSound}
use id_jag_the_hard_way.Gateway.Oauth.System.{System, Reach}

module _ (p : Platform) where
  finish-redirect :
      (c : Config) (ms : ℕ) (code : Text) (t : AuthorizationTransaction) (response : TokenResponse)
      (jwt_verify : Text → Option IdTokenPayload) (g : Gateway) {uri : Text} {ps : Dict Text}
      → (finish_callback p c ms code t response jwt_verify g).1 ≡ to_client uri ps
      → uri ≡ t.redirect_uri
  unfolding finish_callback
  finish-redirect c ms code t response jwt_verify g e = ground arith

  finish_callback-IsRegistered :
      (c : Config) (ms : ℕ) (code : Text) (t : AuthorizationTransaction) (response : TokenResponse)
      (jwt_verify : Text → Option IdTokenPayload) (g : Gateway) (ts : List AuthorizationTransaction)
      (uri : Text) (ps : Dict Text)
      → IsSound p g.store ts
      → Member t ts
      → (finish_callback p c ms code t response jwt_verify g).1 ≡ to_client uri ps
      → IsRegistered p g.store.clients t.client_id uri
  finish_callback-IsRegistered c ms code t response jwt_verify g ts uri ps h m e =
      rw (finish-redirect c ms code t response jwt_verify g e) (All-member _ ts t h.awaited m)

  callback_outcome-redirect :
      (t : AuthorizationTransaction) (error code : Option Text) {uri : Text} {ps : Dict Text}
      → callback_outcome p t error code ≡ answered (to_client uri ps)
      → uri ≡ t.redirect_uri
  unfolding callback_outcome
  callback_outcome-redirect t (some error) code e = ground arith
  callback_outcome-redirect t none none e = cc
  callback_outcome-redirect t none (some code) e = cc

  callback_with-redirect :
      (r : Request) (o : Option AuthorizationTransaction) {uri : Text} {ps : Dict Text}
      → callback_with p r o ≡ answered (to_client uri ps)
      → (t : AuthorizationTransaction) × (o ≡ some t) × (uri ≡ t.redirect_uri)
  unfolding callback_with
  callback_with-redirect r none e = cc
  callback_with-redirect r (some t) e = (t, refl, callback_outcome-redirect t _ _ e)

  callback_state-redirect :
      (ms : ℕ) (o : Option Text) (r : Request) (g : Gateway) {uri : Text} {ps : Dict Text}
      → (callback_state p ms o r g).1 ≡ answered (to_client uri ps)
      → (k : Text) × (t : AuthorizationTransaction) × ((consume_authorization_transaction ms k
            g.store).1
          ≡ some t)
        × (uri ≡ t.redirect_uri)
  unfolding callback_state
  callback_state-redirect ms none r g e = absurd (cc (callback_with-redirect r none e).1)
  callback_state-redirect ms (some k) r g e =
      let (t, found, same) = callback_with-redirect r _ e in (k, t, found, same)

  callback-IsRegistered :
      (ms : ℕ) (r : Request) (g : Gateway) (ts : List AuthorizationTransaction) (uri : Text)
      (ps : Dict Text)
      → IsSound p g.store ts
      → (callback p ms r g).1 ≡ answered (to_client uri ps)
      → (id : Text) × IsRegistered p g.store.clients id uri
  unfolding callback
  callback-IsRegistered ms r g ts uri ps h e =
      let (k, t, found, same) = callback_state-redirect ms (truthy _) r g e in
      (t.client_id, rw same (consume_transaction_sound p ms k g.store found h.started))

  -- The two ways in which the server sends a browser back to a client: a callback that Keycloak
  -- failed, and one whose exchange with Keycloak has ended, for better or worse.
  pub data Redirects (c : Config) (y : System) (uri : Text) : Type 0 where
    at_once :
        (ms : ℕ) (r : Request) (ps : Dict Text)
        → (callback p ms r y.gateway).1 ≡ answered (to_client uri ps)
        → Redirects c y uri
    later :
        (ms : ℕ) (code : Text) (t : AuthorizationTransaction) (response : TokenResponse)
        (jwt_verify : Text → Option IdTokenPayload) (ps : Dict Text)
        → Member t y.awaiting
        → (finish_callback p c ms code t response jwt_verify y.gateway).1 ≡ to_client uri ps
        → Redirects c y uri

  -- After any interleaving of the handlers from a sound state, with any number of callbacks
  -- waiting, the answer to a callback sends the browser only to a URI that some client
  -- registered and that is allowed.
  pub redirect-IsRegistered :
      (c : Config) (y z : System) (uri : Text)
      → IsSound p y.gateway.store y.awaiting
      → Reach p c y z
      → Redirects c z uri
      → (id : Text) × IsRegistered p z.gateway.store.clients id uri
  redirect-IsRegistered c y z uri h reach (at_once ms r ps e) =
      callback-IsRegistered ms r z.gateway z.awaiting uri ps (Reach-IsSound p c h reach) e
  redirect-IsRegistered c y z uri h reach (later ms code t response jwt_verify ps m e) = (
    t.client_id,
    finish_callback-IsRegistered c ms code t response jwt_verify z.gateway z.awaiting uri ps
        (Reach-IsSound p c h reach) m e,
  )

  -- In a sound state the exchange of a code never ends in an exception, where its readings of
  -- the clock fall in one second and sessions have a lifetime.
  pub sound-exchange-ne-uncaught :
      (c : Config) (consumed now created : ℕ) (t : Text) (r : Request) (g : Gateway)
      (ts : List AuthorizationTransaction)
      → IsSound p g.store ts
      → seconds now ≡ seconds consumed
      → seconds created ≡ seconds consumed
      → 0 < c.session_ttl
      → (exchange_token p c consumed now created t r g).1 ≢ uncaught
  sound-exchange-ne-uncaught c consumed now created t r g ts h e1 e2 pos =
      exchange_token-ne-uncaught p c consumed now created t r g e1 e2 pos (λ code a found.
        (Entries-get (λ k. IsBacked p g.store.clients) g.store.authorization_codes code a h.backed
          found).1)
