-- ===== src/Gateway/Oauth/Soundness.antt =====
-- The invariant of the OAuth server (routes/oauth.ts): stored clients, transactions and codes, and
-- the transactions whose callbacks wait for Keycloak.
pub mod Steps
pub mod Promises
use id_jag_the_hard_way.Base.{
  ℕ, ◌+◌, ◌<◌, ◌≤◌, Bool, true, false, not, ◌||◌, Option, none, some, List, [], ◌∷◌, ◌++◌, ◌≡◌, ◌≢◌,
  refl, sym, subst, if◌then◌else◌, any, is_empty, includes, includes_iff, Member, All, All-map,
  All-member, arith, inl, inr, Bool-cases, ◌==◌, is_some, Result, ok, err,
}
use id_jag_the_hard_way.Base.Text.{Text, text_eq, text_beq_iff, lit}
use id_jag_the_hard_way.Base.Dict
use id_jag_the_hard_way.Base.Dict.{
  Dict, Entries, Entries-get, Entries-set, Entries-remove, Entries-map, get-set, get-set_self,
}
use id_jag_the_hard_way.Base.Options.{truthy, truthy-eq-some, >>=-eq-some}
use id_jag_the_hard_way.Gateway.Platform.{Platform, Config, seconds}
use id_jag_the_hard_way.Gateway.OauthStore.{
  RegisteredClient, AuthorizationTransaction, AuthorizationCode, NewAuthorizationCode, OauthStore,
  register_client, get_client, create_authorization_transaction, consume_authorization_transaction,
  create_authorization_code, consume_authorization_code, create_logout_ticket,
  consume_logout_ticket, is_allowed_redirect_uri,
}
use id_jag_the_hard_way.Gateway.Sessions
use id_jag_the_hard_way.Gateway.Keycloak.{TokenResponse, IdTokenPayload, Identity, KeycloakError}
use id_jag_the_hard_way.Gateway.Oauth.Request.{
  Gateway, Request, Reply, to_client, uncaught, body_property, body_value,
}
use id_jag_the_hard_way.Gateway.Oauth.Login.{
  Authorization, authorization_of, Callback, answered, exchanging, string_array, register,
  register_with, rejects, client_of, authorization_for, authorize, authorize_with, callback,
  callback_state, callback_with, callback_outcome, finish_callback, finish_exchange, finish_with,
  redirect_with_parameters,
}
use id_jag_the_hard_way.Gateway.Oauth.Grant.{
  exchange_token, token_code, token_with, revoke, idp_logout_ticket, idp_logout,
}
use id_jag_the_hard_way.Gateway.Oauth.System.{System, Step, Reach, await}
use id_jag_the_hard_way.Gateway.Oauth.Token.{store-exchange_token}

module _ (p : Platform) where
  -- The URI was registered by that client, and is one that the gateway accepts.
  pub record IsRegistered (clients : Dict RegisteredClient) (id uri : Text) : Type 0 where
    pub client : RegisteredClient
    pub found : Dict.get clients id ≡ some client
    pub listed : Member uri client.redirect_uris
    pub allowed : is_allowed_redirect_uri p uri ≡ true

  abbrev pub IsKnown : Text → RegisteredClient → Type 0
  IsKnown id client =
      (client.client_id ≡ id) × All (λ u. is_allowed_redirect_uri p u ≡ true) client.redirect_uris

  abbrev pub IsStarted : Dict RegisteredClient → AuthorizationTransaction → Type 0
  IsStarted clients t = IsRegistered clients t.client_id t.redirect_uri

  abbrev pub IsBacked : Dict RegisteredClient → AuthorizationCode → Type 0
  IsBacked clients a =
      IsRegistered clients a.client_id a.redirect_uri × (a.expires_at ≤ a.identity_expires_at)

  pub record IsSound (s : OauthStore) (awaiting : List AuthorizationTransaction) : Type 0 where
    pub known : Entries IsKnown s.clients
    pub started : Entries (λ k t. IsStarted s.clients t) s.transactions
    pub backed : Entries (λ k a. IsBacked s.clients a) s.authorization_codes
    pub awaited : All (IsStarted s.clients) awaiting

  IsRegistered-set :
      (d : Dict RegisteredClient) (k : Text) (client : RegisteredClient) (id uri : Text)
      → Dict.get d k ≡ none
      → IsRegistered d id uri
      → IsRegistered (Dict.set d k client) id uri
  IsRegistered-set d k client id uri fresh h = record {
    client = h.client;
    found = ground (arith, get-set d k id client, text_beq_iff k id, h.found);
    listed = h.listed;
    allowed = h.allowed;
  }

  All-allowed :
      (uris : List Text)
      → any (λ u. not (is_allowed_redirect_uri p u)) uris ≡ false
      → All (λ u. is_allowed_redirect_uri p u ≡ true) uris
  All-allowed [] h = tt
  All-allowed (u ∷ us) h = ground (arith, All-allowed us)

  register_client-IsSound :
      (uuid : Text) (uris : List Text) (s : OauthStore) (ts : List AuthorizationTransaction)
      → get_client s (lit "mcp-client-" ++ uuid) ≡ none
      → All (λ u. is_allowed_redirect_uri p u ≡ true) uris
      → IsSound s ts
      → IsSound (register_client uuid uris s).0 ts
  unfolding register_client get_client
  register_client-IsSound uuid uris s ts fresh allowed h = record {
    known = Entries-set IsKnown s.clients _ _ h.known (refl, allowed);
    started =
        Entries-map (λ k t. IsRegistered-set s.clients _ _ _ _ fresh) s.transactions h.started;
    backed =
        Entries-map (λ k a (r, e). (IsRegistered-set s.clients _ _ _ _ fresh r, e))
          s.authorization_codes h.backed;
    awaited = All-map (λ t. IsRegistered-set s.clients _ _ _ _ fresh) ts h.awaited;
  }

  pub register-IsSound :
      (ms : ℕ) (uuid : Text) (r : Request) (g : Gateway) (ts : List AuthorizationTransaction)
      → get_client g.store (lit "mcp-client-" ++ uuid) ≡ none
      → IsSound g.store ts
      → IsSound (register p ms uuid r g).0.store ts
  unfolding register
  register-IsSound ms uuid r g ts fresh h = with_uris _
    where
      with_uris :
          (uris : List Text) → IsSound (register_with p (rejects p uris) ms uuid uris g).0.store ts
      with_uris uris = elim (Bool-cases (rejects p uris)) [
        | inl e ↦ rw e h
        | inr e ↦
            rw e (
              register_client-IsSound uuid uris g.store ts fresh (All-allowed uris (ground arith))
                h)
      ]

  authorization_for_sound :
      (r : Request) (client : RegisteredClient) {a : Authorization}
      → authorization_for r client ≡ some a
      → (a.client ≡ client) × (includes client.redirect_uris a.redirect_uri ≡ true)
  unfolding authorization_for
  authorization_for_sound r client h = (ground arith, ground arith)

  client_of_sound :
      (s : OauthStore) (o : Option Text) {client : RegisteredClient}
      → client_of s o ≡ some client
      → (id : Text) × (Dict.get s.clients id ≡ some client)
  unfolding client_of get_client
  client_of_sound s none h = cc
  client_of_sound s (some id) h = (id, h)

  known_client_lists :
      (s : OauthStore) (id uri : Text) (client : RegisteredClient)
      → Dict.get s.clients id ≡ some client
      → includes client.redirect_uris uri ≡ true
      → Entries IsKnown s.clients
      → IsRegistered s.clients client.client_id uri
  known_client_lists s id uri client found listed known =
      let (same, allowed) = Entries-get IsKnown s.clients id client known found in
      let member = (includes_iff client.redirect_uris uri).0 listed in
      record {
        client = client;
        found = subst (λ i. Dict.get s.clients i ≡ some client) (sym same) found;
        listed = member;
        allowed = All-member (λ u. is_allowed_redirect_uri p u ≡ true) _ uri allowed member;
      }

  -- The request was checked against the client that it names.
  pub authorization_of_sound :
      (r : Request) (s : OauthStore) (a : Authorization)
      → authorization_of r s ≡ some a
      → Entries IsKnown s.clients
      → IsRegistered s.clients a.client.client_id a.redirect_uri
  unfolding authorization_of
  authorization_of_sound r s a h known =
      let (client, named, rest) = >>=-eq-some (client_of s _) (authorization_for r) h in
      let (same, listed) = authorization_for_sound r client rest in
      let (id, found) = client_of_sound s _ named in
      known_client_lists s id a.redirect_uri a.client
        (subst (λ k. Dict.get s.clients id ≡ some k) (sym same) found) (rw same listed) known

  pub authorize_with-IsSound :
      (c : Config) (ms : ℕ) (state verifier nonce : Text) (o : Option Authorization) (g : Gateway)
      (ts : List AuthorizationTransaction)
      → ((a : Authorization)
          → o ≡ some a
          → IsRegistered g.store.clients a.client.client_id a.redirect_uri)
      → IsSound g.store ts
      → IsSound (authorize_with p c ms state verifier nonce o g).0.store ts
  unfolding authorize_with create_authorization_transaction
  authorize_with-IsSound c ms state verifier nonce none g ts valid h = h
  authorize_with-IsSound c ms state verifier nonce (some a) g ts valid h = record {
    known = h.known;
    started =
        Entries-set (λ k. IsStarted g.store.clients) g.store.transactions _ _ h.started
          (valid a refl);
    backed = h.backed;
    awaited = h.awaited;
  }

  pub authorize-IsSound :
      (c : Config) (ms : ℕ) (state verifier nonce : Text) (r : Request) (g : Gateway)
      (ts : List AuthorizationTransaction)
      → IsSound g.store ts
      → IsSound (authorize p c ms state verifier nonce r g).0.store ts
  unfolding authorize
  authorize-IsSound c ms state verifier nonce r g ts h =
      authorize_with-IsSound c ms state verifier nonce (authorization_of r g.store) g ts
        (λ a e. authorization_of_sound r g.store a e h.known) h
