-- ===== src/Gateway/Tests/Login.antt =====
-- The theorems on routes/oauth.ts and keycloak.ts at the sample login.
use id_jag_the_hard_way.Base.{true, none, some, ◌≡◌, refl, arith, [], ◌∷◌, inl}
use id_jag_the_hard_way.Base.Text.{Text, lit, text_beq}
use id_jag_the_hard_way.Base.Dict
use id_jag_the_hard_way.Base.Dict.{get, set, remove}
use id_jag_the_hard_way.Base.Json.{str, arr, nil, cons, end, field, property}
use id_jag_the_hard_way.Gateway.OauthStore.{
  AuthorizationCode, consume_authorization_code, verify_s256_code_challenge,
  is_allowed_redirect_uri, get_client,
}
use id_jag_the_hard_way.Gateway.Sessions
use id_jag_the_hard_way.Gateway.Keycloak.{
  TokenResponse, IdTokenPayload, verify_keycloak_id_token, exchange_keycloak_authorization_code,
}
use id_jag_the_hard_way.Gateway.Oauth.Request.{Request, to_client, json_error, body_value}
use id_jag_the_hard_way.Gateway.Oauth.Grant.{exchange_token, granted_code}
use id_jag_the_hard_way.Gateway.Oauth.Login.{finish_callback, register}
use id_jag_the_hard_way.Gateway.Oauth.Token.{
  IsGranted, session_of, exchange_token_once, exchange_token_sound,
}
use id_jag_the_hard_way.Gateway.Oauth.System.{System, registers, here, next}
use id_jag_the_hard_way.Gateway.Oauth.Soundness.{IsRegistered, IsSound}
use id_jag_the_hard_way.Gateway.Oauth.Soundness.Steps.{Reach-IsSound}
use id_jag_the_hard_way.Gateway.Oauth.Soundness.Promises.{redirect-IsRegistered, later}
use id_jag_the_hard_way.Gateway.Tests.{
  platform, config, store, gateway, client, transaction, token_request, text_field,
}

sample-IsRegistered : IsRegistered platform store.clients (lit "c") (lit "u")
unfolding get is_allowed_redirect_uri text_beq
sample-IsRegistered = record { client = client; found = refl; listed = inl refl; allowed = refl }

sample-IsSound : IsSound platform store (transaction ∷ [])
unfolding is_allowed_redirect_uri text_beq
sample-IsSound = record {
  known = ((refl, (refl, tt)), tt);
  started = (sample-IsRegistered, tt);
  backed = ((sample-IsRegistered, omega arith), tt);
  awaited = (sample-IsRegistered, tt);
}

exchange_token_sound_example :
    (a : AuthorizationCode) × IsGranted platform 5000 token_request gateway a
    × (lit "z" ≡ lit "z")
    × (600 ≡ config.session_ttl)
    × (Dict.get
          (exchange_token platform config 5000 5000 5000 (lit "z") token_request gateway).0.sessions
          (platform.sha256 (lit "z"))
        ≡ some (session_of config 5000 a))
unfolding exchange_token granted_code Sessions.create property text_beq body_value get
    consume_authorization_code verify_s256_code_challenge
exchange_token_sound_example =
    exchange_token_sound platform config 5000 5000 5000 600 (lit "z") (lit "z") token_request
      gateway refl

exchange_token_once_example :
    (exchange_token platform config 6000 6000 6000
      (lit "y")
      token_request
      (exchange_token platform config 5000 5000 5000 (lit "z") token_request gateway).0).1
    ≡ json_error 400 (lit "invalid_grant")
exchange_token_once_example =
    exchange_token_once platform config 5000 5000 5000 6000 6000 6000 (lit "z") (lit "y")
      token_request token_request gateway refl

-- A second client registers.
abbrev register_request : Request
register_request = record {
  query = end;
  body = some (field (lit "redirect_uris") (arr (cons (str (lit "w")) nil)) end);
}

Reach-IsSound_example :
    IsSound platform
      (register platform 5000 (lit "1") register_request gateway).0.store
      (transaction ∷ [])
unfolding get_client get text_beq
Reach-IsSound_example =
    Reach-IsSound platform config sample-IsSound
      (next here (registers 5000 (lit "1") register_request refl))

abbrev keycloak_answer : TokenResponse
keycloak_answer = record { is_ok = true; id_token = some (str (lit "j")) }

abbrev payload : IdTokenPayload
payload = record {
  nonce = some (lit "o");
  sub = some (lit "s");
  exp = some 900;
  preferred_username = none;
}

-- A second client registers, and then a callback that was waiting ends.
abbrev second_client : System
second_client = record {
  gateway = (register platform 5000 (lit "1") register_request gateway).0;
  awaiting = transaction ∷ [];
}

ended :
    (finish_callback platform config 5000
      (lit "a")
      transaction
      keycloak_answer
      (λ s. some payload)
      second_client.gateway).1
    ≡ to_client (lit "u") ((lit "code", lit "a") ∷ (lit "state", lit "x") ∷ [])
unfolding finish_callback exchange_keycloak_authorization_code verify_keycloak_id_token text_beq
ended = refl

redirect-IsRegistered_example :
    (id : Text) × IsRegistered platform second_client.gateway.store.clients id (lit "u")
unfolding get_client get text_beq
redirect-IsRegistered_example =
    redirect-IsRegistered platform config
      (record { gateway = gateway; awaiting = transaction ∷ [] }) second_client (lit "u")
      sample-IsSound (next here (registers 5000 (lit "1") register_request refl))
      (later 5000 (lit "a") transaction keycloak_answer (λ s. some payload)
        ((lit "code", lit "a") ∷ (lit "state", lit "x") ∷ []) (inl refl) ended)

abbrev callback_request : Request
callback_request = record {
  query = text_field (lit "state") (lit "t") (text_field (lit "error") (lit "e") end);
  body = none;
}
