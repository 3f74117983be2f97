-- ===== src/Gateway/OauthStore/Expiry.antt =====
-- Single use and expiry of transactions, codes and tickets (oauthStore.ts).
use id_jag_the_hard_way.Base.{ℕ, ◌+◌, min, none, some, ◌≡◌, ◌≢◌, refl, leb, if◌then◌else◌, arith}
use id_jag_the_hard_way.Base.Text.{Text, text_eq, text_beq_iff}
use id_jag_the_hard_way.Base.Dict.{get-remove, get-set_self, get-remove_self}
use id_jag_the_hard_way.Gateway.Platform.{Config, seconds}
use id_jag_the_hard_way.Gateway.OauthStore.{
  OauthStore, AuthorizationCode, NewAuthorizationCode, consume_authorization_transaction,
  create_authorization_code, consume_authorization_code, consume_logout_ticket,
}

-- A transaction, a code and a ticket are each handed out at most once: a second request for the
-- same key finds nothing, whenever the two are made and whether or not the first succeeded.
pub consume_once :
    (ms later : ℕ) (k : Text) (s : OauthStore)
    → ((consume_authorization_transaction later k (consume_authorization_transaction ms k s).0).1
        ≡ none)
      × ((consume_authorization_code later k (consume_authorization_code ms k s).0).1 ≡ none)
      × ((consume_logout_ticket later k (consume_logout_ticket ms k s).0).1 ≡ none)
unfolding consume_authorization_transaction consume_authorization_code consume_logout_ticket
consume_once ms later k s = (
  rw (get-remove_self s.transactions k),
  rw (get-remove_self s.authorization_codes k),
  rw (get-remove_self s.logout_tickets k),
)

-- The code that `createAuthorizationCode` stores for `i`.
pub stored_code : Config → ℕ → NewAuthorizationCode → AuthorizationCode
stored_code c ms i = record {
  client_id = i.client_id;
  redirect_uri = i.redirect_uri;
  client_code_challenge = i.client_code_challenge;
  id_token = i.id_token;
  subject = i.subject;
  username = i.username;
  identity_expires_at = i.identity_expires_at;
  expires_at = min i.identity_expires_at (seconds ms + c.authorization_code_ttl);
}

-- A code gives back what was stored under it exactly while both its own lifetime and that of the
-- identity behind it last.
pub consume-create_code :
    (c : Config) (ms later : ℕ) (code : Text) (i : NewAuthorizationCode) (s : OauthStore)
    → (consume_authorization_code later code (create_authorization_code c ms code i s)).1 ≡ (
        if leb (min i.identity_expires_at (seconds ms + c.authorization_code_ttl)) (seconds later)
        then none
        else some (stored_code c ms i))
unfolding consume_authorization_code create_authorization_code stored_code
consume-create_code c ms later code i s =
    rw (get-set_self s.authorization_codes code (stored_code c ms i))

-- Consuming one code leaves every other code, and the other three tables, as they were.
pub consume_code_frame :
    (ms later : ℕ) (k j : Text) (s : OauthStore)
    → k ≢ j
    → ((consume_authorization_code later j (consume_authorization_code ms k s).0).1
        ≡ (consume_authorization_code later j s).1)
      × ((consume_authorization_code ms k s).0.clients ≡ s.clients)
      × ((consume_authorization_code ms k s).0.transactions ≡ s.transactions)
      × ((consume_authorization_code ms k s).0.logout_tickets ≡ s.logout_tickets)
unfolding consume_authorization_code
consume_code_frame ms later k j s h =
    (ground (arith, get-remove s.authorization_codes k j, text_beq_iff k j), refl, refl, refl)
