-- ===== src/Gateway/OauthStore.antt =====
-- components/mcp-gateway/src/utils/oauthStore.ts: clients, authorization transactions,
-- authorization codes and logout tickets. Random tokens and the clock (`ms`) are arguments.
pub mod Expiry
pub mod Pkce
use id_jag_the_hard_way.Base.{
  ℕ, ◌+◌, min, Bool, true, false, ◌&&◌, ◌||◌, not, Option, none, some, List, [], ◌∷◌, ◌++◌, leb,
  ltb, nat_eq, ◌==◌, if◌then◌else◌, length, is_empty,
}
use id_jag_the_hard_way.Base.Text.{Text, text_eq, lit, text_beq}
use id_jag_the_hard_way.Base.Dict.{Dict, get, set, remove, keep}
use id_jag_the_hard_way.Gateway.Platform.{Url, Platform, Config, seconds}

pub record RegisteredClient : Type 0 where
  pub client_id : Text
  pub redirect_uris : List Text

pub record AuthorizationTransaction : Type 0 where
  pub client_id : Text
  pub client_state : Text
  pub redirect_uri : Text
  pub client_code_challenge : Text
  pub keycloak_code_verifier : Text
  pub nonce : Text
  pub expires_at : ℕ

pub record AuthorizationCode : Type 0 where
  pub client_id : Text
  pub redirect_uri : Text
  pub client_code_challenge : Text
  pub id_token : Text
  pub subject : Text
  pub username : Text
  pub identity_expires_at : ℕ
  pub expires_at : ℕ

pub record LogoutTicket : Type 0 where
  pub id_token : Text
  pub expires_at : ℕ

pub record OauthStore : Type 0 where
  pub clients : Dict RegisteredClient
  pub transactions : Dict AuthorizationTransaction
  pub authorization_codes : Dict AuthorizationCode
  pub logout_tickets : Dict LogoutTicket

-- `entry.expiresAt <= now`, for an entry that was found
abbrev pub live : ℕ → ℕ → Bool
live now expires_at = not (leb expires_at now)

unfoldable pub register_client : Text → List Text → OauthStore → OauthStore × RegisteredClient
register_client uuid redirect_uris s =
    let client : RegisteredClient = record {
      client_id = lit "mcp-client-" ++ uuid;
      redirect_uris = redirect_uris;
    } in
    (record s { clients = set s.clients client.client_id client }, client)

unfoldable pub get_client : OauthStore → Text → Option RegisteredClient
get_client s client_id = get s.clients client_id

-- The three random tokens stand in the order in which they are drawn.
unfoldable pub create_authorization_transaction :
    Config
    → (ms : ℕ) (upstream_state verifier nonce : Text)
      (client_id client_state redirect_uri client_code_challenge : Text)
    → OauthStore
    → OauthStore × AuthorizationTransaction
create_authorization_transaction c ms upstream_state verifier nonce client_id client_state
      redirect_uri challenge s =
    let stored : AuthorizationTransaction = record {
      client_id = client_id;
      client_state = client_state;
      redirect_uri = redirect_uri;
      client_code_challenge = challenge;
      keycloak_code_verifier = verifier;
      nonce = nonce;
      expires_at = seconds ms + c.authorization_transaction_ttl;
    } in
    (record s { transactions = set s.transactions upstream_state stored }, stored)

abbrev live_transaction : ℕ → Option AuthorizationTransaction → Option AuthorizationTransaction
live_transaction now none = none
live_transaction now (some t) = if leb t.expires_at now then none else some t

unfoldable pub consume_authorization_transaction :
    (ms : ℕ) → Text → OauthStore → OauthStore × Option AuthorizationTransaction
consume_authorization_transaction ms upstream_state s = (
  record s { transactions = remove s.transactions upstream_state },
  live_transaction (seconds ms) (get s.transactions upstream_state),
)

-- What the caller gives of a code: all but its expiry.
pub record NewAuthorizationCode : Type 0 where
  pub client_id : Text
  pub redirect_uri : Text
  pub client_code_challenge : Text
  pub id_token : Text
  pub subject : Text
  pub username : Text
  pub identity_expires_at : ℕ

unfoldable pub create_authorization_code :
    Config → (ms : ℕ) (code : Text) → NewAuthorizationCode → OauthStore → OauthStore
create_authorization_code c ms code i s = record s {
  authorization_codes = set s.authorization_codes code (record {
    client_id = i.client_id;
    redirect_uri = i.redirect_uri;
    client_code_challenge = i.client_code_challenge;
    id_token = i.id_token;
    subject = i.subject;
    username = i.username;
    identity_expires_at = i.identity_expires_at;
    expires_at = min i.identity_expires_at (seconds ms + c.authorization_code_ttl);
  });
}

abbrev live_code : ℕ → Option AuthorizationCode → Option AuthorizationCode
live_code now none = none
live_code now (some a) = if leb a.expires_at now then none else some a

unfoldable pub consume_authorization_code :
    (ms : ℕ) → Text → OauthStore → OauthStore × Option AuthorizationCode
consume_authorization_code ms code s = (
  record s { authorization_codes = remove s.authorization_codes code },
  live_code (seconds ms) (get s.authorization_codes code),
)

-- Expired tickets are dropped first.
unfoldable pub create_logout_ticket :
    Config → (ms : ℕ) (ticket id_token : Text) → OauthStore → OauthStore
create_logout_ticket c ms ticket id_token s = record s {
  logout_tickets =
      set (keep (λ t. live (seconds ms) t.expires_at) s.logout_tickets) ticket
        (record { id_token = id_token; expires_at = seconds ms + c.idp_logout_ticket_ttl });
}

abbrev live_ticket : ℕ → Option LogoutTicket → Option Text
live_ticket now none = none
live_ticket now (some t) = if leb t.expires_at now then none else some t.id_token

unfoldable pub consume_logout_ticket : (ms : ℕ) → Text → OauthStore → OauthStore × Option Text
consume_logout_ticket ms ticket s = (
  record s { logout_tickets = remove s.logout_tickets ticket },
  live_ticket (seconds ms) (get s.logout_tickets ticket),
)

unfoldable pub derive_s256_code_challenge : Platform → Text → Text
derive_s256_code_challenge p verifier = p.sha256 verifier

-- Bytes are compared in constant time; the result is that of a comparison.
abbrev pub timing_safe_equal : List ℕ → List ℕ → Bool
timing_safe_equal = text_beq

unfoldable pub verify_s256_code_challenge : Platform → Text → Text → Bool
unfolding derive_s256_code_challenge
verify_s256_code_challenge p verifier expected_challenge =
    let actual = p.bytes (derive_s256_code_challenge p verifier) in
    let expected = p.bytes expected_challenge in
    length actual == length expected && timing_safe_equal actual expected

abbrev allowed_url : Url → Bool
allowed_url url =
    if not (is_empty url.hash) || not (is_empty url.username) || not (is_empty url.password)
    then false
    else if url.protocol == lit "https:"
    then true
    else (url.protocol == lit "http:"
        && (url.hostname == lit "127.0.0.1" || url.hostname == lit "localhost"))

-- `none` is the exception of `new URL`, which is caught.
abbrev allowed_parse : Option Url → Bool
allowed_parse none = false
allowed_parse (some url) = allowed_url url

unfoldable pub is_allowed_redirect_uri : Platform → Text → Bool
is_allowed_redirect_uri p value = allowed_parse (p.parse_url value)

unfoldable pub clear_oauth_stores : OauthStore → OauthStore
clear_oauth_stores s = record {
  clients = [];
  transactions = [];
  authorization_codes = [];
  logout_tickets = [];
}
