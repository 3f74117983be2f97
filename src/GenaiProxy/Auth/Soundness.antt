-- ===== src/GenaiProxy/Auth/Soundness.antt =====
-- What an identity that auth.ts returns says about the access token.
use id_jag_the_hard_way.Base.{
  ℕ, ◌*◌, ◌<◌, ◌≤◌, true, false, Option, none, some, [], ◌∷◌, ◌++◌, ◌≡◌, Member, ok, is_empty,
}
use id_jag_the_hard_way.Base.Text.{Text, text_eq, lit}
use id_jag_the_hard_way.Base.Json.{nat, thousandths, negative, Value, num, str, Fields, property}
use id_jag_the_hard_way.GenaiProxy.Auth.{
  AuthContext, TokenVerifierOptions, bearer_token, segments_of, audiences_of, token_scopes,
  is_project, is_subject,
}

-- a number of seconds, in milliseconds; what is negative is past, as 0 is
pub data Dates : Option Value → ℕ → Type 0 where
  seconds : (n : ℕ) → Dates (some (num (nat n))) (n * 1000)
  fraction : (thousandths_of : ℕ) → Dates (some (num (thousandths thousandths_of))) thousandths_of
  past : Dates (some (num negative)) 0

-- There is no `nbf`, or one that is not in the future.
pub data HasBegun (now : ℕ) : Option Value → Type 0 where
  unbounded : HasBegun now none
  since : (v : Value) (nbf : ℕ) → Dates (some v) nbf → nbf ≤ now * 1000 → HasBegun now (some v)

-- The claims name one audience, of the configured prefix and a project, a user, a client, and the
-- required scope.
pub record IsEntitled (o : TokenVerifierOptions) (claims : Fields) (context : AuthContext)
    : Type 0 where
  pub one_audience : audiences_of (property claims (lit "aud")) ≡ context.audience ∷ []
  pub prefixed : context.audience ≡ o.audience_prefix ++ context.project
  pub project : is_project context.project ≡ true
  pub subject : is_subject context.subject ≡ true
  pub claimed_subject : property claims (lit "sub") ≡ some (str context.subject)
  pub client_id : is_empty context.client_id ≡ false
  pub claimed_client : property claims (lit "client_id") ≡ some (str context.client_id)
  pub scoped : Member o.required_scope (token_scopes claims)
  pub its_scope : context.scope ≡ context.audience ++ (lit ":role." ++ o.required_scope)

module _ (o : TokenVerifierOptions) where
  -- The token behind an identity: signed, of the right kind, not expired, not before its time.
  pub record IsAuthentic (now : ℕ) (authorization : Option Text) (context : AuthContext)
      : Type 0 where
    pub token : Text
    pub presented : bearer_token authorization ≡ ok token
    pub header : Text
    pub payload : Text
    pub signature : Text
    pub split : segments_of token ≡ ok (header, (payload, signature))
    pub head : Fields
    pub decoded_head : o.decode header ≡ some head
    pub claims : Fields
    pub decoded_claims : o.decode payload ≡ some claims
    pub algorithm : property head (lit "alg") ≡ some (str (lit "RS256"))
    pub kind : property head (lit "typ") ≡ some (str (lit "at+jwt"))
    pub signed : o.verify (header ++ (lit "." ++ payload)) signature ≡ true
    pub exp : ℕ
    pub claimed_exp : Dates (property claims (lit "exp")) exp
    pub unexpired : now * 1000 < exp
    pub begun : HasBegun now (property claims (lit "nbf"))
    pub entitled : IsEntitled o claims context
