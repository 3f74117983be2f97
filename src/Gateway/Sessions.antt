-- ===== src/Gateway/Sessions.antt =====
-- components/mcp-gateway/src/utils/sessionStore.ts: sessions keyed by the hash of their token.
pub mod Laws
use id_jag_the_hard_way.Base.{
  ℕ, Bool, true, false, not, Option, none, some, List, [], leb, is_some, if◌then◌else◌, Result, ok,
  err,
}
use id_jag_the_hard_way.Base.Text.{Text}
use id_jag_the_hard_way.Base.Dict
use id_jag_the_hard_way.Base.Dict.{Dict}
use id_jag_the_hard_way.Gateway.Platform.{Platform, seconds}

pub record GatewaySession : Type 0 where
  pub id_token : Text
  pub id_token_expires_at : ℕ
  pub subject : Text
  pub username : Text
  pub expires_at : ℕ

pub data SessionError : Type 0 where
  expired_id_token expired_session : SessionError

abbrev pub SessionStore : Type 0
SessionStore = Dict GatewaySession

module _ (p : Platform) where
  -- The state that `create` leaves and the token, or the error that it throws.
  unfoldable pub create :
      (ms : ℕ) (token : Text) → GatewaySession → SessionStore → Result SessionError SessionStore
  create ms token session s =
      if leb session.id_token_expires_at (seconds ms)
      then err expired_id_token
      else if leb session.expires_at (seconds ms)
      then err expired_session
      else ok (Dict.set s (p.sha256 token) session)

  live_get :
      (now : ℕ) (key : Text)
      → Option GatewaySession
      → SessionStore
      → SessionStore × Option GatewaySession
  live_get now key none s = (s, none)
  live_get now key (some session) s =
      if leb session.expires_at now then (Dict.remove s key, none) else (s, some session)

  unfoldable pub get : (ms : ℕ) (token : Text) → SessionStore → SessionStore × Option GatewaySession
  unfolding live_get
  get ms token s = live_get (seconds ms) (p.sha256 token) (Dict.get s (p.sha256 token)) s

  unfoldable pub delete : (token : Text) → SessionStore → SessionStore × Bool
  delete token s = (Dict.remove s (p.sha256 token), is_some (Dict.get s (p.sha256 token)))

  abbrev live_session : (now : ℕ) → Option GatewaySession → Option GatewaySession
  live_session now none = none
  live_session now (some session) = if leb session.expires_at now then none else some session

  unfoldable pub consume :
      (ms : ℕ) (token : Text) → SessionStore → SessionStore × Option GatewaySession
  consume ms token s =
      (Dict.remove s (p.sha256 token), live_session (seconds ms) (Dict.get s (p.sha256 token)))

abbrev is_active : ℕ → GatewaySession → Bool
is_active now session = not (leb session.expires_at now)

unfoldable pub list_active : (ms : ℕ) → SessionStore → SessionStore × List GatewaySession
list_active ms s = let kept = Dict.keep (is_active (seconds ms)) s in (kept, Dict.values kept)

unfoldable pub clear : SessionStore → SessionStore
clear s = []
