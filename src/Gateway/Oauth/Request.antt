-- ===== src/Gateway/Oauth/Request.antt =====
-- The state, the requests and the replies of routes/oauth.ts.
use id_jag_the_hard_way.Base.{ℕ, Option, none, some, List}
use id_jag_the_hard_way.Base.Text.{Text}
use id_jag_the_hard_way.Base.Dict.{Dict}
use id_jag_the_hard_way.Base.Json.{Value, Fields, property, as_text}
use id_jag_the_hard_way.Gateway.OauthStore.{OauthStore}
use id_jag_the_hard_way.Gateway.Sessions.{SessionStore}

pub record Gateway : Type 0 where
  pub store : OauthStore
  pub sessions : SessionStore

-- `body` is `none` where no body was parsed.
pub record Request : Type 0 where
  pub query : Fields
  pub body : Option Fields

pub data Reply : Type 0 where
  json_error : (status : ℕ) (error : Text) → Reply
  text_error : (status : ℕ) → Reply
  status_only : (status : ℕ) → Reply
  registered : (client_id : Text) (issued_at : ℕ) (redirect_uris : List Text) → Reply
  -- to Keycloak, with the parameters that differ between requests
  to_keycloak : (state nonce code_challenge : Text) → Reply
  -- to the client's redirect URI, with the parameters that are set on it
  to_client : (redirect_uri : Text) → Dict Text → Reply
  issued : (access_token : Text) (expires_in : ℕ) → Reply
  logout_url : (ticket : Text) → Reply
  -- to Keycloak's end-session endpoint
  end_session : (id_token_hint : Text) → Reply
  -- an exception that the handler does not catch
  uncaught : Reply

unfoldable pub query_value : Request → Text → Option Text
query_value r name = as_text (property r.query name)

abbrev pub body_property : Option Fields → Text → Option Value
body_property none name = none
body_property (some body) name = property body name

unfoldable pub body_value : Request → Text → Option Text
body_value r name = as_text (body_property r.body name)
