-- ===== src/Gateway/Tests/Manager.antt =====
-- The theorems on `AthenzAccessTokenManager` along one issuance.
use id_jag_the_hard_way.Base.{◌<◌, none, some, ◌≡◌, refl, [], ◌∷◌, ok}
use id_jag_the_hard_way.Base.Text.{
  lit, text_beq, trim, words, split_spaces, unique, sort, join, nonempty, index_of,
}
use id_jag_the_hard_way.Base.Dict.{get}
use id_jag_the_hard_way.Base.Json.{property}
use id_jag_the_hard_way.Gateway.Athenz.Scopes.{
  normalize_scope, scope_values, access_token_audience, scopes_exactly_match, scopes_cover,
  audiences_exactly_match, equivalent_scope, take_match,
}
use id_jag_the_hard_way.Gateway.Athenz.Grants.{
  token_grant, require_access_token, token_scopes, token_audiences, exp_ms, valid_expires_in_ms,
}
use id_jag_the_hard_way.Gateway.Athenz.Manager.{
  AthenzConfig, Caches, Flight, for_access_token, exchange_id_token, requested_of, get_access_token,
  answer_arrives,
}
use id_jag_the_hard_way.Gateway.Athenz.Manager.Genuine.{
  AreGenuine, called, answered, run, run-AreGenuine,
}
use id_jag_the_hard_way.Gateway.Athenz.Manager.Issued.{IsIssued, answer_arrives_sound}
use id_jag_the_hard_way.Gateway.Athenz.Manager.Progress.{answers_left, answer_arrives_shortens}
use id_jag_the_hard_way.Gateway.Athenz.Manager.Flights.{IsAlone, get_access_token-IsAlone}
use id_jag_the_hard_way.Gateway.Athenz.Caches.{find_access_token, find_id_jag}
use id_jag_the_hard_way.Gateway.Tests.{session}
use id_jag_the_hard_way.Gateway.Tests.Athenz.{one_scope, claims, response, entry}

-- Keys are told apart by their scopes alone here, as there is one audience.
abbrev manager : AthenzConfig
manager = record {
  zts_audience = lit "z";
  stringify = λ audiences scopes. join [] scopes;
  decode_jwt = λ t. some claims;
}

abbrev idle : Caches
idle = record { access_tokens = []; id_jags = []; in_flight = [] }

abbrev flight : Flight
flight = record { scopes = one_scope; audience = lit "a"; phase = for_access_token }

-- The issuance waits for its access token.
abbrev waiting : Caches
waiting = record { access_tokens = []; id_jags = []; in_flight = (lit "a:role.x", flight) ∷ [] }

abbrev cached : Caches
cached = record { access_tokens = (lit "k", entry) ∷ []; id_jags = []; in_flight = [] }

idle-AreGenuine : AreGenuine manager session idle
idle-AreGenuine = record { access_tokens = tt; id_jags = tt }

run-AreGenuine_example : AreGenuine manager session (
    run manager session
      (called 0 (lit "a:role.x") none ∷ answered 5 5 (lit "a:role.x") (ok response) ∷ [])
      idle)
run-AreGenuine_example =
    run-AreGenuine manager session
      (called 0 (lit "a:role.x") none ∷ answered 5 5 (lit "a:role.x") (ok response) ∷ []) idle
      idle-AreGenuine

answer_arrives_sound_example : IsIssued manager session 5 one_scope (lit "a") (lit "t")
unfolding answer_arrives get text_beq token_grant scope_values words split_spaces trim unique sort
    nonempty join property require_access_token token_scopes token_audiences exp_ms
    valid_expires_in_ms audiences_exactly_match scopes_exactly_match scopes_cover take_match
    equivalent_scope
answer_arrives_sound_example =
    answer_arrives_sound manager session 5 5 (lit "a:role.x") (ok response) waiting flight (lit "t")
      refl refl

answer_arrives_shortens_example :
    answers_left (
      get
        (answer_arrives manager session 5 5 (lit "a:role.x") (ok response) waiting).0.in_flight
        (lit "a:role.x"))
    < answers_left (get waiting.in_flight (lit "a:role.x"))
unfolding get text_beq
answer_arrives_shortens_example =
    answer_arrives_shortens manager session 5 5 (lit "a:role.x") (ok response) waiting flight refl

get_access_token-IsAlone_example :
    (manager.stringify (lit "a" ∷ []) one_scope ≡ lit "a:role.x")
    × IsAlone manager session
        (lit "a:role.x")
        one_scope
        (lit "a")
        idle
        (get_access_token manager session 0 (lit "a:role.x") none idle).0
unfolding get_access_token requested_of normalize_scope access_token_audience scope_values words
    split_spaces trim unique sort text_beq nonempty join index_of get find_access_token find_id_jag
get_access_token-IsAlone_example =
    get_access_token-IsAlone manager session 0 (lit "a:role.x") none idle (lit "a") one_scope
      (lit "a:role.x") (exchange_id_token (lit "i") (lit "a:role.x") (lit "z")) refl refl
