-- ===== src/Gateway/Oauth/System.antt =====
-- The OAuth server as a whole (routes/oauth.ts): its handlers in any order, any number of them
-- waiting for Keycloak.
use id_jag_the_hard_way.Base.{ℕ, Option, none, List, ◌∷◌, ◌++◌, ◌≡◌, Member}
use id_jag_the_hard_way.Base.Text.{Text, text_eq, lit}
use id_jag_the_hard_way.Gateway.Platform.{Platform, Config}
use id_jag_the_hard_way.Gateway.OauthStore.{AuthorizationTransaction, get_client}
use id_jag_the_hard_way.Gateway.Keycloak.{TokenResponse, IdTokenPayload}
use id_jag_the_hard_way.Gateway.Oauth.Request.{Gateway, Request}
use id_jag_the_hard_way.Gateway.Oauth.Login.{
  Callback, answered, exchanging, register, authorize, callback, finish_callback,
}
use id_jag_the_hard_way.Gateway.Oauth.Grant.{exchange_token, revoke, idp_logout_ticket, idp_logout}

-- The server, and the transactions whose callbacks wait for Keycloak.
pub record System : Type 0 where
  pub gateway : Gateway
  pub awaiting : List AuthorizationTransaction

abbrev pub await : Callback → List AuthorizationTransaction → List AuthorizationTransaction
await (answered reply) ts = ts
await (exchanging code t) ts = t ∷ ts

abbrev pub begun : List AuthorizationTransaction → Gateway × Callback → System
begun ts (g, step) = record { gateway = g; awaiting = await step ts }

module _ (p : Platform) (c : Config) where
  -- `randomUUID` is taken not to repeat the identifier of a client. A callback may finish with
  -- any answers, and in any order with the others.
  pub data Step (y : System) : System → Type 0 where
    registers :
        (ms : ℕ) (uuid : Text) (r : Request)
        → get_client y.gateway.store (lit "mcp-client-" ++ uuid) ≡ none
        → Step y (record y { gateway = (register p ms uuid r y.gateway).0 })
    authorizes :
        (ms : ℕ) (upstream_state verifier nonce : Text) (r : Request)
        → Step y
            (record y { gateway = (authorize p c ms upstream_state verifier nonce r y.gateway).0 })
    calls_back : (ms : ℕ) (r : Request) → Step y (begun y.awaiting (callback p ms r y.gateway))
    finishes :
        (ms : ℕ) (code : Text) (t : AuthorizationTransaction) (response : TokenResponse)
        (jwt_verify : Text → Option IdTokenPayload)
        → Member t y.awaiting
        → Step y
            (record y { gateway = (finish_callback p c ms code t response jwt_verify y.gateway).0 })
    exchanges :
        (consumed now created : ℕ) (token : Text) (r : Request)
        → Step y
            (record y { gateway = (exchange_token p c consumed now created token r y.gateway).0 })
    revokes : (r : Request) → Step y (record y { gateway = (revoke p r y.gateway).0 })
    asks_ticket :
        (consumed created : ℕ) (ticket : Text) (r : Request)
        → Step y
            (record y { gateway = (idp_logout_ticket p c consumed created ticket r y.gateway).0 })
    logs_out :
        (ms : ℕ) (r : Request) → Step y (record y { gateway = (idp_logout p ms r y.gateway).0 })

  pub data Reach (y : System) : System → Type 0 where
    here : Reach y y
    next : {z w : System} → Reach y z → Step z w → Reach y w
