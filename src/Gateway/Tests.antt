-- ===== src/Gateway/Tests.antt =====
-- A small platform and a small login, at which the theorems on the gateway are evaluated.
mod Store
mod Login
mod Athenz
mod Manager
mod Routes
use id_jag_the_hard_way.Base.{ℕ, Option, none, some, List, [], ◌∷◌}
use id_jag_the_hard_way.Base.Text.{Text, lit}
use id_jag_the_hard_way.Base.Json.{Value, str, arr, Items, nil, cons, Fields, end, field}
use id_jag_the_hard_way.Gateway.Platform.{Url, Platform, Config}
use id_jag_the_hard_way.Gateway.OauthStore.{
  OauthStore, RegisteredClient, AuthorizationCode, AuthorizationTransaction, NewAuthorizationCode,
}
use id_jag_the_hard_way.Gateway.Sessions.{GatewaySession}
use id_jag_the_hard_way.Gateway.Oauth.Request.{Gateway, Request}

abbrev pub secure_url : Url
secure_url = record {
  protocol = lit "https:";
  hostname = lit "c";
  hash = [];
  username = [];
  password = [];
}

-- Neither a hash nor an encoding that confuses two texts.
abbrev pub platform : Platform
platform = record { sha256 = λ s. s; bytes = λ s. s; parse_url = λ s. some secure_url }

abbrev pub config : Config
config = record {
  authorization_code_ttl = 60;
  authorization_transaction_ttl = 300;
  idp_logout_ticket_ttl = 60;
  session_ttl = 600;
}

abbrev pub empty_store : OauthStore
empty_store = record {
  clients = [];
  transactions = [];
  authorization_codes = [];
  logout_tickets = [];
}

abbrev pub client : RegisteredClient
client = record { client_id = lit "c"; redirect_uris = lit "u" ∷ [] }

abbrev pub new_code : NewAuthorizationCode
new_code = record {
  client_id = lit "c";
  redirect_uri = lit "u";
  client_code_challenge = lit "v";
  id_token = lit "i";
  subject = lit "s";
  username = lit "n";
  identity_expires_at = 900;
}

abbrev pub code : AuthorizationCode
code = record {
  client_id = lit "c";
  redirect_uri = lit "u";
  client_code_challenge = lit "v";
  id_token = lit "i";
  subject = lit "s";
  username = lit "n";
  identity_expires_at = 900;
  expires_at = 60;
}

abbrev pub transaction : AuthorizationTransaction
transaction = record {
  client_id = lit "c";
  client_state = lit "x";
  redirect_uri = lit "u";
  client_code_challenge = lit "v";
  keycloak_code_verifier = lit "k";
  nonce = lit "o";
  expires_at = 300;
}

-- A client with one transaction and one code.
abbrev pub store : OauthStore
store = record {
  clients = (lit "c", client) ∷ [];
  transactions = (lit "t", transaction) ∷ [];
  authorization_codes = (lit "a", code) ∷ [];
  logout_tickets = [];
}

abbrev pub session : GatewaySession
session = record {
  id_token = lit "i";
  id_token_expires_at = 900;
  subject = lit "s";
  username = lit "n";
  expires_at = 600;
}

abbrev pub gateway : Gateway
gateway = record { store = store; sessions = (lit "b", session) ∷ [] }

abbrev pub text_field : Text → Text → Fields → Fields
text_field k s fs = field k (str s) fs

-- The request that exchanges the code.
abbrev pub token_request : Request
token_request = record {
  query = end;
  body = some (
      text_field (lit "grant_type") (lit "authorization_code") (
        text_field (lit "client_id") (lit "c") (
          text_field (lit "redirect_uri") (lit "u")
            (text_field (lit "code") (lit "a") (text_field (lit "code_verifier") (lit "v") end)))));
}
