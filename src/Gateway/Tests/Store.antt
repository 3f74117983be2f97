-- ===== src/Gateway/Tests/Store.antt =====
-- The theorems on the two stores at the sample login.
use id_jag_the_hard_way.Base.{true, none, some, ◌≡◌, ◌↔◌, refl, arith, [], ◌∷◌}
use id_jag_the_hard_way.Base.Text.{lit}
use id_jag_the_hard_way.Base.Dict.{set}
use id_jag_the_hard_way.Gateway.OauthStore.{
  consume_authorization_transaction, consume_authorization_code, consume_logout_ticket,
  verify_s256_code_challenge, derive_s256_code_challenge,
}
use id_jag_the_hard_way.Gateway.OauthStore.Expiry.{consume_once}
use id_jag_the_hard_way.Gateway.OauthStore.Pkce.{verify-derive}
use id_jag_the_hard_way.Gateway.Sessions
use id_jag_the_hard_way.Gateway.Sessions.Laws.{get-create, get-get}
use id_jag_the_hard_way.Gateway.Tests.{platform, store, session}

consume_once_example :
    ((consume_authorization_transaction 9
        (lit "t")
        (consume_authorization_transaction 5 (lit "t") store).0).1
      ≡ none)
    × ((consume_authorization_code 9 (lit "t") (consume_authorization_code 5 (lit "t") store).0).1
        ≡ none)
    × ((consume_logout_ticket 9 (lit "t") (consume_logout_ticket 5 (lit "t") store).0).1 ≡ none)
consume_once_example = consume_once 5 9 (lit "t") store

verify-derive_example :
    (verify_s256_code_challenge platform (lit "v") (derive_s256_code_challenge platform (lit "v"))
      ≡ true)
    ↔ (lit "v" ≡ lit "v")
verify-derive_example = verify-derive platform (lit "v") (lit "v") (λ e. e)

get-create_example :
    (Sessions.get platform 5000 (lit "b") (set [] (lit "b") session)).1 ≡ some session
unfolding Sessions.create
get-create_example = get-create platform 0 5000 (lit "b") session [] refl

get-get_example :
    (Sessions.get platform 5000
      (lit "b")
      (Sessions.get platform 0 (lit "b") ((lit "b", session) ∷ [])).0).1
    ≡ (Sessions.get platform 5000 (lit "b") ((lit "b", session) ∷ [])).1
get-get_example =
    get-get platform 0 5000 (lit "b") (lit "b") ((lit "b", session) ∷ []) (omega arith)
