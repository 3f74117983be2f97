-- ===== src/Gateway/Sessions/Laws.antt =====
-- What the session store promises (sessionStore.ts).
use id_jag_the_hard_way.Base.{ℕ, ◌<◌, ◌≤◌, none, some, ◌≡◌, leb, if◌then◌else◌, ok, arith}
use id_jag_the_hard_way.Base.Text.{Text, text_eq, text_beq_iff}
use id_jag_the_hard_way.Base.Dict.{get-remove, get-set_self, get-remove_self}
use id_jag_the_hard_way.Gateway.Platform.{Platform, seconds}
use id_jag_the_hard_way.Gateway.Sessions.{
  GatewaySession, SessionStore, create, get, delete, consume,
}

module _ (p : Platform) where
  -- A session that was created is found under its token exactly until it expires.
  pub get-create :
      (ms later : ℕ) (token : Text) (session : GatewaySession) (s : SessionStore)
      {s' : SessionStore}
      → create p ms token session s ≡ ok s'
      → (get p later token s').1
        ≡ (if leb session.expires_at (seconds later) then none else some session)
  unfolding create get
  get-create ms later token session s e = ground (arith, get-set_self s (p.sha256 token) session)

  -- What is found has not expired.
  pub get-lt :
      (ms : ℕ) (token : Text) (s : SessionStore) {session : GatewaySession}
      → (get p ms token s).1 ≡ some session
      → seconds ms < session.expires_at
  unfolding get
  get-lt ms token s e = ground arith

  -- After a deletion, or once a session was consumed, its token finds nothing.
  pub get_after_removal :
      (ms later : ℕ) (token : Text) (s : SessionStore)
      → ((get p later token (delete p token s).0).1 ≡ none)
        × ((get p later token (consume p ms token s).0).1 ≡ none)
        × ((consume p later token (consume p ms token s).0).1 ≡ none)
  unfolding get delete consume
  get_after_removal ms later token s = (
    rw (get-remove_self s (p.sha256 token)),
    rw (get-remove_self s (p.sha256 token)),
    rw (get-remove_self s (p.sha256 token)),
  )

  -- The lazy deletion in get cannot be observed: from then on every token finds what it would
  -- have found without it.
  pub get-get :
      (ms later : ℕ) (token other : Text) (s : SessionStore)
      → ms ≤ later
      → (get p later other (get p ms token s).0).1 ≡ (get p later other s).1
  unfolding get
  get-get ms later token other s h = ground (
    arith,
    get-remove s (p.sha256 token) (p.sha256 other),
    text_beq_iff (p.sha256 token) (p.sha256 other),
  )
