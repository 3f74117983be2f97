-- ===== src/Gateway/Athenz/Manager/Progress.antt =====
-- What an answer of Athenz makes of an issuance in flight (athenz.ts).
use id_jag_the_hard_way.Base.{
  ℕ, ◌<◌, Option, none, some, ◌≡◌, refl, Result, ok, err, arith, sym, subst,
}
use id_jag_the_hard_way.Base.Text.{Text, text_eq}
use id_jag_the_hard_way.Base.Dict.{get, get-set_self, get-remove_self}
use id_jag_the_hard_way.Gateway.Sessions.{GatewaySession}
use id_jag_the_hard_way.Gateway.Athenz.Errors.{AthenzError}
use id_jag_the_hard_way.Gateway.Athenz.Grants.{Grant}
use id_jag_the_hard_way.Gateway.Athenz.Manager.{
  AthenzConfig, Flight, Phase, for_id_jag, for_access_token, Caches, Answer, ask_access_token,
  accept_access_token, accept_id_jag, id_jag_grant, access_token_grant, answered_flight,
  answered_phase, answer_arrives,
}

-- How many answers an issuance waits for at most.
unfoldable pub answers_left : Option Flight → ℕ
answers_left none = 0
answers_left (some flight) = elim flight.phase [ for_id_jag ↦ 2 | for_access_token ↦ 1 ]

module _ (c : AthenzConfig) (session : GatewaySession) where
  accept_access_token_ends :
      (cached_at : ℕ) (key : Text) (flight : Flight) (r : Result AthenzError Grant) (s : Caches)
      → get (accept_access_token c session cached_at key flight r s).0.in_flight key ≡ none
  unfolding accept_access_token
  accept_access_token_ends cached_at key flight (err e) s = get-remove_self s.in_flight key
  accept_access_token_ends cached_at key flight (ok grant) s =
      ground (arith, get-remove_self s.in_flight key)

  accept_id_jag_shortens :
      (cached_at : ℕ) (key : Text) (flight : Flight) (r : Result AthenzError Grant) (s : Caches)
      → answers_left (get (accept_id_jag c session cached_at key flight r s).0.in_flight key) < 2
  unfolding accept_id_jag ask_access_token answers_left
  accept_id_jag_shortens cached_at key flight (err e) s =
      ground (arith, get-remove_self s.in_flight key)
  accept_id_jag_shortens cached_at key flight (ok grant) s = ground (
    arith,
    get-remove_self s.in_flight key,
    get-set_self s.in_flight key
        (record { scopes = flight.scopes; audience = flight.audience; phase = for_access_token }),
  )

  answered_phase_shortens :
      (phase : Phase) (now cached_at : ℕ) (key : Text) (flight : Flight) (answer : Answer)
      (s : Caches)
      → flight.phase ≡ phase
      → answers_left
          (get (answered_phase c session phase now cached_at key flight answer s).0.in_flight key)
        < answers_left (some flight)
  unfolding answered_phase answers_left
  answered_phase_shortens for_id_jag now cached_at key flight answer s e =
      subst (λ p. get_bound p) (sym e)
        (accept_id_jag_shortens cached_at key flight (id_jag_grant c session now answer) s)
    where
      get_bound : Phase → Type 0
      get_bound p =
          answers_left (
            get
              (accept_id_jag c session cached_at key flight (id_jag_grant c session now answer)
                s).0.in_flight
              key)
          < answers_left (some (record flight { phase = p }))
  answered_phase_shortens for_access_token now cached_at key flight answer s e = ground (
    arith,
    e,
    accept_access_token_ends cached_at key flight (access_token_grant c session now answer) s,
  )

  -- Every answer brings an issuance that is in flight nearer to its end, and it waits for two
  -- answers at most.
  pub answer_arrives_shortens :
      (now cached_at : ℕ) (key : Text) (answer : Answer) (s : Caches) (flight : Flight)
      → get s.in_flight key ≡ some flight
      → answers_left (get (answer_arrives c session now cached_at key answer s).0.in_flight key)
        < answers_left (get s.in_flight key)
  unfolding answer_arrives answered_flight
  answer_arrives_shortens now cached_at key answer s flight e =
      subst
        (λ f.
          answers_left
            (get (answered_flight c session now cached_at key f answer s).0.in_flight key)
          < answers_left f)
        (sym e) (answered_phase_shortens flight.phase now cached_at key flight answer s refl)
