-- ===== src/Gateway/Tests/Athenz.antt =====
-- The theorems on the scopes, the caches and the grants of athenz.ts at small inputs.
use id_jag_the_hard_way.Base.{◌+◌, ◌<◌, false, none, some, ◌≡◌, refl, List, [], ◌∷◌, ok}
use id_jag_the_hard_way.Base.Text.{
  Text, lit, text_beq, trim, words, split_spaces, unique, sort, join, nonempty, index_of,
}
use id_jag_the_hard_way.Base.Dict.{Dict}
use id_jag_the_hard_way.Base.Json.{str, num, nat, Fields, end, field, property}
use id_jag_the_hard_way.Gateway.Athenz.Scopes.{
  scope_values, access_token_audience, scopes_cover, equivalent_scope, role_name, take_match,
}
use id_jag_the_hard_way.Gateway.Athenz.Matching.{HasScope, access_token_audience_sound}
use id_jag_the_hard_way.Gateway.Athenz.Grants.{
  AthenzTokenResponse, token_grant, require_access_token, token_scopes, token_audiences, exp_ms,
  valid_expires_in_ms, token_expiry_skew_ms,
}
use id_jag_the_hard_way.Gateway.Athenz.Claims.{IsFromToken, token_grant_sound}
use id_jag_the_hard_way.Gateway.Athenz.Caches.{CachedToken}

abbrev pub one_scope : List Text
one_scope = lit "a:role.x" ∷ []

access_token_audience_sound_example : HasScope (scope_values (lit "a:role.x")) (lit "a")
unfolding access_token_audience scope_values words split_spaces trim unique sort text_beq nonempty
    index_of
access_token_audience_sound_example =
    access_token_audience_sound (lit "a:role.x") none (lit "a") refl

-- The cover is greedy: it gives the short role to the scope of the other domain.
greedy_cover :
    scopes_cover (lit "A" ∷ lit "a:role.A" ∷ []) (lit "a:role.A" ∷ lit "b:role.A" ∷ []) ≡ false
unfolding scopes_cover equivalent_scope role_name index_of text_beq take_match
greedy_cover = refl

abbrev pub entry : CachedToken
entry = record {
  token = lit "t";
  audiences = lit "a" ∷ [];
  cached_at_ms = 0;
  expires_at_ms = 100000;
  scopes = one_scope;
}

abbrev cache : Dict CachedToken
cache = (lit "k", entry) ∷ []

-- A token whose claims are its own scope and audience, and an expiry at 200 seconds.
abbrev pub claims : Fields
claims =
    field (lit "scp") (str (lit "a:role.x"))
      (field (lit "aud") (str (lit "a")) (field (lit "exp") (num (nat 200)) end))

abbrev pub response : AthenzTokenResponse
response = record {
  access_token = some (lit "t");
  expires_in = none;
  scope = none;
  error = none;
  error_description = none;
}

token_grant_sound_example :
    IsFromToken (λ t. some claims) 600 (lit "t") one_scope (lit "a" ∷ []) 200000
    × (require_access_token response ≡ ok (lit "t"))
    × (0 + token_expiry_skew_ms < 200000)
unfolding token_grant scope_values words split_spaces trim unique sort text_beq nonempty property
    join require_access_token token_scopes token_audiences exp_ms valid_expires_in_ms
token_grant_sound_example =
    token_grant_sound (λ t. some claims) response 0 600
      (record {
        token = lit "t";
        audiences = lit "a" ∷ [];
        scopes = one_scope;
        expires_at_ms = 200000;
      })
      refl
