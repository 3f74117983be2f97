-- ===== src/Gateway/Keycloak.antt =====
-- components/mcp-gateway/src/services/keycloak.ts: what becomes of Keycloak's answers. The HTTP
-- exchange and `jwtVerify` are outside; their outcomes are arguments.
use id_jag_the_hard_way.Base.{
  ℕ, zero, suc, Bool, not, Option, none, some, [], ◌∷◌, ◌≡◌, ◌≢◌, if◌then◌else◌, Result, ok, err,
  arith,
}
use id_jag_the_hard_way.Base.Text.{Text, text_eq}
use id_jag_the_hard_way.Base.Options.{is_text, is_text_iff}
use id_jag_the_hard_way.Base.Json.{Value, as_text}

pub data KeycloakError : Type 0 where
  exchange_failed no_id_token token_rejected nonce_mismatch missing_claims : KeycloakError

-- `response.ok` and the `id_token` of the parsed body.
pub record TokenResponse : Type 0 where
  pub is_ok : Bool
  pub id_token : Option Value

abbrev text_or_fail : Option Text → Result KeycloakError Text
text_or_fail none = err no_id_token
text_or_fail (some s) = ok s

unfoldable pub exchange_keycloak_authorization_code : TokenResponse → Result KeycloakError Text
exchange_keycloak_authorization_code response =
    if not response.is_ok then err exchange_failed else text_or_fail (as_text response.id_token)

-- The claims that are read, once the signature, issuer and audience have been verified.
pub record IdTokenPayload : Type 0 where
  pub nonce : Option Text
  pub sub : Option Text
  pub exp : Option ℕ
  pub preferred_username : Option Value

pub record Identity : Type 0 where
  pub subject : Text
  pub username : Text
  pub expires_at : ℕ

abbrev username_of : Text → Option Text → Text
username_of sub none = sub
username_of sub (some name) = name

-- `!payload.sub || !payload.exp`: an empty subject and a zero expiry are missing.
abbrev identity_of : Option Text → Option ℕ → Option Value → Result KeycloakError Identity
identity_of (some (c ∷ sub)) (some (suc exp)) name = ok (record {
  subject = c ∷ sub;
  username = username_of (c ∷ sub) (as_text name);
  expires_at = suc exp;
})
identity_of _ _ name = err missing_claims

-- `none` is an exception of `jwtVerify`.
unfoldable pub verify_keycloak_id_token :
    Option IdTokenPayload → (nonce : Text) → Result KeycloakError Identity
verify_keycloak_id_token none nonce = err token_rejected
verify_keycloak_id_token (some payload) nonce =
    if is_text payload.nonce nonce
    then identity_of payload.sub payload.exp payload.preferred_username
    else err nonce_mismatch

identity_of_sound :
    (sub : Option Text) (exp : Option ℕ) (name : Option Value) {identity : Identity}
    → identity_of sub exp name ≡ ok identity
    → (sub ≡ some identity.subject) × (exp ≡ some identity.expires_at) × (identity.subject ≢ [])
identity_of_sound (some (c ∷ sub)) (some (suc exp)) name h = ground arith
identity_of_sound (some (c ∷ sub)) (some zero) name h = cc
identity_of_sound (some (c ∷ sub)) none name h = cc
identity_of_sound (some []) exp name h = cc
identity_of_sound none exp name h = cc

-- An identity comes only from a verified token with the transaction's own nonce, and has the
-- subject and the expiry of that token, the subject not empty.
pub verify_keycloak_id_token_sound :
    (payload : IdTokenPayload) (nonce : Text) {identity : Identity}
    → verify_keycloak_id_token (some payload) nonce ≡ ok identity
    → (payload.nonce ≡ some nonce)
      × (payload.sub ≡ some identity.subject)
      × (payload.exp ≡ some identity.expires_at)
      × (identity.subject ≢ [])
unfolding verify_keycloak_id_token
verify_keycloak_id_token_sound payload nonce h = ground (
  arith,
  is_text_iff payload.nonce nonce,
  identity_of_sound payload.sub payload.exp payload.preferred_username,
)
