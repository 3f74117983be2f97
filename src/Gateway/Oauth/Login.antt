-- ===== src/Gateway/Oauth/Login.antt =====
-- routes/oauth.ts: registration, the authorization request and the callback from Keycloak.
use id_jag_the_hard_way.Base.{
  ℕ, Bool, true, false, not, ◌||◌, Option, none, some, List, [], ◌∷◌, if◌then◌else◌, includes, any,
  is_empty, is_some, Result, ok, err,
}
use id_jag_the_hard_way.Base.Text.{Text, text_eq, lit}
use id_jag_the_hard_way.Base.Dict.{Dict}
use id_jag_the_hard_way.Base.Options.{◌>>=◌, ◌>>◌, guard, truthy, is_text}
use id_jag_the_hard_way.Base.Json.{Value, str, arr, Items, nil, cons}
use id_jag_the_hard_way.Gateway.Platform.{Platform, Config, seconds}
use id_jag_the_hard_way.Gateway.OauthStore.{
  RegisteredClient, AuthorizationTransaction, OauthStore, register_client, get_client,
  create_authorization_transaction, consume_authorization_transaction, create_authorization_code,
  derive_s256_code_challenge, is_allowed_redirect_uri,
}
use id_jag_the_hard_way.Gateway.Keycloak.{
  TokenResponse, IdTokenPayload, Identity, KeycloakError, exchange_keycloak_authorization_code,
  verify_keycloak_id_token,
}
use id_jag_the_hard_way.Gateway.Oauth.Request.{
  Gateway, Request, Reply, json_error, text_error, registered, to_keycloak, to_client, uncaught,
  query_value, body_property,
}

abbrev pub strings : Items → List Text
strings nil = []
strings (cons (str s) vs) = s ∷ strings vs
strings (cons _ vs) = strings vs

abbrev pub string_array : Option Value → List Text
string_array (some (arr vs)) = strings vs
string_array _ = []

-- What a valid authorization request asks for.
pub record Authorization : Type 0 where
  pub client : RegisteredClient
  pub redirect_uri : Text
  pub client_state : Text
  pub code_challenge : Text

unfoldable pub client_of : OauthStore → Option Text → Option RegisteredClient
client_of s none = none
client_of s (some client_id) = get_client s client_id

unfoldable pub authorization_for : Request → RegisteredClient → Option Authorization
authorization_for r client = do
  redirect_uri ← truthy (query_value r (lit "redirect_uri"))
  guard (includes client.redirect_uris redirect_uri)
  guard (is_text (query_value r (lit "response_type")) (lit "code"))
  client_state ← truthy (query_value r (lit "state"))
  code_challenge ← truthy (query_value r (lit "code_challenge"))
  guard (is_text (query_value r (lit "code_challenge_method")) (lit "S256"))
  some (record {
    client = client;
    redirect_uri = redirect_uri;
    client_state = client_state;
    code_challenge = code_challenge;
  })

-- The checks of GET /oauth/authorize; they have one answer, so their order does not matter.
unfoldable pub authorization_of : Request → OauthStore → Option Authorization
unfolding client_of authorization_for
authorization_of r s = do
  client ← client_of s (truthy (query_value r (lit "client_id")))
  authorization_for r client

-- What remains of a callback once its transaction is consumed: a reply, or the exchange with
-- Keycloak, which is awaited.
pub data Callback : Type 0 where
  answered : Reply → Callback
  exchanging : (code : Text) → AuthorizationTransaction → Callback

module _ (p : Platform) where
  -- No redirect URI, or one that is not allowed.
  unfoldable pub rejects : List Text → Bool
  rejects redirect_uris =
      is_empty redirect_uris || any (λ uri. not (is_allowed_redirect_uri p uri)) redirect_uris

  unfoldable pub register_with :
      (rejected : Bool) (ms : ℕ) (uuid : Text) → List Text → Gateway → Gateway × Reply
  register_with true ms uuid redirect_uris g = (g, json_error 400 (lit "invalid_redirect_uri"))
  register_with false ms uuid redirect_uris g =
      let (store, client) = register_client uuid redirect_uris g.store in
      (record g { store = store }, registered client.client_id (seconds ms) client.redirect_uris)

  -- POST /oauth/register
  unfoldable pub register : (ms : ℕ) (uuid : Text) → Request → Gateway → Gateway × Reply
  unfolding register_with rejects
  register ms uuid r g =
      let redirect_uris = string_array (body_property r.body (lit "redirect_uris")) in
      register_with (rejects redirect_uris) ms uuid redirect_uris g

  unfoldable pub authorize_with :
      Config
      → (ms : ℕ) (upstream_state verifier nonce : Text) → Option Authorization
      → Gateway
      → Gateway × Reply
  authorize_with c ms upstream_state verifier nonce none g = (g, text_error 400)
  authorize_with c ms upstream_state verifier nonce (some a) g =
      let (store, transaction) =
        create_authorization_transaction c ms upstream_state verifier nonce a.client.client_id
          a.client_state a.redirect_uri a.code_challenge g.store in
      (
        record g { store = store },
        to_keycloak upstream_state transaction.nonce
            (derive_s256_code_challenge p transaction.keycloak_code_verifier),
      )

  -- GET /oauth/authorize
  unfoldable pub authorize :
      Config → (ms : ℕ) (upstream_state verifier nonce : Text) → Request → Gateway → Gateway × Reply
  unfolding authorize_with
  authorize c ms upstream_state verifier nonce r g =
      authorize_with c ms upstream_state verifier nonce (authorization_of r g.store) g

  -- `redirectWithParameters`; `failed` answers an exception of `new URL`
  unfoldable pub redirect_with_parameters :
      (failed : Reply) (redirect_uri : Text) → Dict Text → Reply
  redirect_with_parameters failed redirect_uri parameters =
      if is_some (p.parse_url redirect_uri) then to_client redirect_uri parameters else failed

  unfoldable pub callback_outcome : AuthorizationTransaction → (error code : Option Text) → Callback
  unfolding redirect_with_parameters
  callback_outcome t (some error) code = answered (
      redirect_with_parameters uncaught t.redirect_uri
        ((lit "error", error) ∷ (lit "state", t.client_state) ∷ []))
  callback_outcome t none none = answered (text_error 400)
  callback_outcome t none (some code) = exchanging code t

  unfoldable pub callback_with : Request → Option AuthorizationTransaction → Callback
  unfolding callback_outcome
  callback_with r none = answered (text_error 400)
  callback_with r (some t) =
      callback_outcome t (truthy (query_value r (lit "error")))
        (truthy (query_value r (lit "code")))

  unfoldable pub callback_state : (ms : ℕ) → Option Text → Request → Gateway → Gateway × Callback
  unfolding callback_with
  callback_state ms none r g = (g, callback_with r none)
  callback_state ms (some upstream_state) r g =
      let (store, transaction) = consume_authorization_transaction ms upstream_state g.store in
      (record g { store = store }, callback_with r transaction)

  -- GET /oauth/callback, up to its first `await`
  unfoldable pub callback : (ms : ℕ) → Request → Gateway → Gateway × Callback
  unfolding callback_state
  callback ms r g = callback_state ms (truthy (query_value r (lit "state"))) r g

  unfoldable pub finish_with :
      Config
      → (ms : ℕ) (gateway_code id_token : Text) → AuthorizationTransaction
      → Result KeycloakError Identity
      → Gateway
      → Gateway × Reply
  unfolding redirect_with_parameters
  finish_with c ms gateway_code id_token t (err e) g = (g, text_error 502)
  finish_with c ms gateway_code id_token t (ok identity) g = (
    record g {
      store =
          create_authorization_code c ms gateway_code
            (record {
              client_id = t.client_id;
              redirect_uri = t.redirect_uri;
              client_code_challenge = t.client_code_challenge;
              id_token = id_token;
              subject = identity.subject;
              username = identity.username;
              identity_expires_at = identity.expires_at;
            })
            g.store;
    },
    redirect_with_parameters (text_error 502) t.redirect_uri
        ((lit "code", gateway_code) ∷ (lit "state", t.client_state) ∷ []),
  )

  unfoldable pub finish_exchange :
      Config
      → (ms : ℕ) (gateway_code : Text) → AuthorizationTransaction
      → Result KeycloakError Text
      → (jwt_verify : Text → Option IdTokenPayload) → Gateway
      → Gateway × Reply
  unfolding finish_with
  finish_exchange c ms gateway_code t (err e) jwt_verify g = (g, text_error 502)
  finish_exchange c ms gateway_code t (ok id_token) jwt_verify g =
      finish_with c ms gateway_code id_token t
        (verify_keycloak_id_token (jwt_verify id_token) t.nonce) g

  -- GET /oauth/callback, after Keycloak's answer to the exchange of the code
  unfoldable pub finish_callback :
      Config
      → (ms : ℕ) (gateway_code : Text) → AuthorizationTransaction
      → TokenResponse
      → (jwt_verify : Text → Option IdTokenPayload) → Gateway
      → Gateway × Reply
  unfolding finish_exchange
  finish_callback c ms gateway_code t response jwt_verify g =
      finish_exchange c ms gateway_code t (exchange_keycloak_authorization_code response) jwt_verify
        g
