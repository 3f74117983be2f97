-- ===== src/Gateway/Athenz/Claims.antt =====
-- What a grant that athenz.ts accepts says about its token.
use id_jag_the_hard_way.Base.{
  ℕ, ◌+◌, ◌*◌, ◌≤◌, ◌<◌, min, Bool, true, false, Option, none, some, List, ◌≡◌, refl, leb, Result,
  ok, err, ◌>>◌, throw_if, >>=-eq-ok, ok-injective, sym, ap, subst, ◌∙◌, arith, if◌then◌else◌,
}
use id_jag_the_hard_way.Base.Text.{Text, lit}
use id_jag_the_hard_way.Base.Json.{Fields, property}
use id_jag_the_hard_way.Gateway.Athenz.Errors.{AthenzError, too_close_to_expiry}
use id_jag_the_hard_way.Gateway.Athenz.Grants.{
  AthenzTokenResponse, Grant, token_expiry_skew_ms, require_access_token, token_scopes,
  token_audiences, exp_ms, valid_expires_in_ms, token_grant, timed_grant, claimed_grant,
  grant_until, decoded, min_within, scope_differs,
}
use id_jag_the_hard_way.Gateway.Athenz.Claimed.{
  ClaimsScopes, ClaimsAudiences, Expires, token_scopes_sound, token_audiences_sound, exp_ms_sound,
}

-- Scopes and audiences are read from the token itself, and nothing says that the token lives
-- longer than its own claim or than the session.
pub record IsFromToken (decode_jwt : Text → Option Fields) (session_expires_at : ℕ) (token : Text)
    (scopes audiences : List Text) (expires_at_ms : ℕ) : Type 0 where
  pub claims : Fields
  pub decodes : decode_jwt token ≡ some claims
  pub claimed_scopes : ClaimsScopes claims scopes
  pub claimed_audiences : ClaimsAudiences (property claims (lit "aud")) audiences
  pub exp : ℕ
  pub claimed_exp : Expires (property claims (lit "exp")) exp
  pub within_token : expires_at_ms ≤ exp
  pub within_session : expires_at_ms ≤ session_expires_at * 1000

min_within-le : (now at : ℕ) (within : Option ℕ) → min_within now within at ≤ at
min_within-le now at none = omega arith
min_within-le now at (some w) = omega arith

throw_if-ok :
    {A : Type 0} (b : Bool) (e : AthenzError) (m : Result AthenzError A) {a : A}
    → (throw_if b e >> m) ≡ ok a
    → (b ≡ false) × (m ≡ ok a)
throw_if-ok true e m h = cc
throw_if-ok false e m h = (refl, h)

decoded_sound : (o : Option Fields) {claims : Fields} → decoded o ≡ ok claims → o ≡ some claims
decoded_sound none h = cc
decoded_sound (some x) h = ground arith

within_bounds :
    (now at : ℕ) (within : Option ℕ) (limit : ℕ) → min (min_within now within at) limit ≤ at
within_bounds now at none limit = omega arith
within_bounds now at (some w) limit = omega arith

grant_until_sound :
    (token : Text) (audiences scopes : List Text) (now at : ℕ) {grant : Grant}
    → grant_until token audiences scopes now at ≡ ok grant
    → (grant ≡ record { token = token; audiences = audiences; scopes = scopes; expires_at_ms = at })
      × (now + token_expiry_skew_ms < at)
grant_until_sound token audiences scopes now at {grant} h =
    at_test (leb at (now + token_expiry_skew_ms)) refl h
  where
    at_test :
        (b : Bool)
        → leb at (now + token_expiry_skew_ms) ≡ b
        → (if b
            then err too_close_to_expiry
            else ok (record {
              token = token;
              audiences = audiences;
              scopes = scopes;
              expires_at_ms = at;
            }))
          ≡ ok grant
        → (grant
            ≡ record { token = token; audiences = audiences; scopes = scopes; expires_at_ms = at })
          × (now + token_expiry_skew_ms < at)
    at_test true e h = cc
    at_test false e h = (sym (ok-injective h), ground arith)

timed_grant_sound :
    (now session : ℕ) (token : Text) (audiences scopes : List Text) (exp : Result AthenzError ℕ)
    (within : Result AthenzError (Option ℕ)) {grant : Grant}
    → timed_grant now session token audiences scopes exp within ≡ ok grant
    → (at : ℕ) × (exp ≡ ok at)
      × (grant.expires_at_ms ≤ at)
      × (grant.expires_at_ms ≤ session * 1000)
      × (grant.token ≡ token)
      × (grant.audiences ≡ audiences)
      × (grant.scopes ≡ scopes)
      × (now + token_expiry_skew_ms < grant.expires_at_ms)
unfolding timed_grant
timed_grant_sound now session token audiences scopes (err e) within h = cc
timed_grant_sound now session token audiences scopes (ok at) (err e) h = cc
timed_grant_sound now session token audiences scopes (ok at) (ok within) {grant} h =
    let until : ℕ = min (min_within now within at) (session * 1000) in
    let (is, later) = grant_until_sound token audiences scopes now until h in
    let ends : grant.expires_at_ms ≡ until = ap (λ g. g.expires_at_ms) is in
    let short : until ≤ at = within_bounds now at within (session * 1000) in
    let bound : until ≤ session * 1000 = omega arith in
    (
      at,
      refl,
      subst (λ n. n ≤ at) (sym ends) short,
      subst (λ n. n ≤ session * 1000) (sym ends) bound,
      ap (λ g. g.token) is,
      ap (λ g. g.audiences) is,
      ap (λ g. g.scopes) is,
      subst (λ n. now + token_expiry_skew_ms < n) (sym ends) later,
    )

claimed_grant_sound :
    (decode_jwt : Text → Option Fields) (response : AthenzTokenResponse) (now session : ℕ)
    (token : Text) (claims : Fields) {grant : Grant}
    → decode_jwt token ≡ some claims
    → claimed_grant response now session true token claims ≡ ok grant
    → (grant.token ≡ token)
      × IsFromToken decode_jwt session token grant.scopes grant.audiences grant.expires_at_ms
      × (now + token_expiry_skew_ms < grant.expires_at_ms)
unfolding claimed_grant
claimed_grant_sound decode_jwt response now session token claims {grant} decodes h =
    let (scopes, scoped, h1) = >>=-eq-ok (token_scopes claims) _ h in
    let (same, h2) = throw_if-ok (scope_differs response.scope scopes) _ _ h1 in
    let (audiences, meant, h3) =
      >>=-eq-ok (token_audiences (property claims (lit "aud")) true) _ h2 in
    let (at, exp, short, bound, is_token, is_audiences, is_scopes, later) =
      timed_grant_sound now session token audiences scopes (exp_ms (property claims (lit "exp")))
        (valid_expires_in_ms response.expires_in) h3 in
    (
      is_token,
      record {
        claims = claims;
        decodes = decodes;
        claimed_scopes = token_scopes_sound claims (scoped ∙ ap ok (sym is_scopes));
        claimed_audiences = token_audiences_sound _ (meant ∙ ap ok (sym is_audiences));
        exp = at;
        claimed_exp = exp_ms_sound _ exp;
        within_token = short;
        within_session = bound;
      },
      later,
    )

-- A grant that is accepted has the scopes and the audiences that its token claims, lasts no
-- longer than its own claim and the session, and has more than a minute left.
pub token_grant_sound :
    (decode_jwt : Text → Option Fields) (response : AthenzTokenResponse) (now session : ℕ)
    (grant : Grant)
    → token_grant decode_jwt response now session true ≡ ok grant
    → IsFromToken decode_jwt session grant.token grant.scopes grant.audiences grant.expires_at_ms
      × (require_access_token response ≡ ok grant.token)
      × (now + token_expiry_skew_ms < grant.expires_at_ms)
unfolding token_grant
token_grant_sound decode_jwt response now session grant h =
    let (token, got, h1) = >>=-eq-ok (require_access_token response) _ h in
    let (claims, decodes, h2) = >>=-eq-ok (decoded (decode_jwt token)) _ h1 in
    let (is, sound, later) =
      claimed_grant_sound decode_jwt response now session token claims
        (decoded_sound (decode_jwt token) decodes) h2 in
    (
      subst (λ t. IsFromToken decode_jwt session t grant.scopes grant.audiences grant.expires_at_ms)
          (sym is) sound,
      got ∙ ap ok (sym is),
      later,
    )
