-- ===== src/Gateway/Athenz/Manager/Flights.antt =====
-- Issuances in flight in athenz.ts, over a call of `getAccessToken`.
use id_jag_the_hard_way.Base.{
  ℕ, true, false, Option, none, some, List, [], ◌∷◌, ◌≡◌, refl, Result, ok, err, arith, Bool-cases,
  inl, inr, sym, subst, ◌==◌, ◌⊎◌, ◌∙◌,
}
use id_jag_the_hard_way.Base.Text.{Text, text_eq, text_beq_iff}
use id_jag_the_hard_way.Base.Dict.{get, get-set, get-remove, get-set_self}
use id_jag_the_hard_way.Gateway.Sessions.{GatewaySession}
use id_jag_the_hard_way.Gateway.Athenz.Scopes.{ScopeError}
use id_jag_the_hard_way.Gateway.Athenz.Caches.{CachedToken}
use id_jag_the_hard_way.Gateway.Athenz.Manager.{
  AthenzConfig, Flight, for_id_jag, for_access_token, Caches, posted, Post, ask_access_token,
  ask_id_jag, issue_with, issue_access_token, join_or_issue, hit_or_miss, requested_of, get_for,
  get_access_token,
}

module _ (c : AthenzConfig) (session : GatewaySession) where
  issue_with_other :
      (now : ℕ) (key : Text) (requested : List Text) (audience : Text) (found : Option CachedToken)
      (s : Caches) (k : Text)
      → (key == k) ≡ false
      → get (issue_with c session now key requested audience found s).0.in_flight k
        ≡ get s.in_flight k
  unfolding issue_with ask_access_token ask_id_jag
  issue_with_other now key requested audience (some id_jag) s k e = rw (get-set, e)
  issue_with_other now key requested audience none s k e = ground (
    arith,
    get-set s.in_flight key k
        (record { scopes = requested; audience = audience; phase = for_id_jag }),
    get-remove s.in_flight key k,
  )

  -- A call leaves the issuances in flight as they are.
  join_or_issue_frame :
      (now : ℕ) (key : Text) (requested : List Text) (audience : Text) (found : Option Flight)
      (s : Caches) (k : Text) (flight : Flight)
      → get s.in_flight key ≡ found
      → get s.in_flight k ≡ some flight
      → get (join_or_issue c session now key requested audience found s).0.in_flight k ≡ some flight
  unfolding join_or_issue issue_access_token
  join_or_issue_frame now key requested audience (some other) s k flight e h = h
  join_or_issue_frame now key requested audience none s k flight e h =
      issue_with_other now key requested audience _ _ k (apart (Bool-cases (key == k))) ∙ h
    where
      clash : key ≡ k → ⊥
      clash same = cc

      apart : ((key == k) ≡ true) ⊎ ((key == k) ≡ false) → (key == k) ≡ false
      apart (inl same) = absurd (clash ((text_beq_iff key k).0 same))
      apart (inr other) = other

  hit_or_miss_frame :
      (now : ℕ) (requested : List Text) (audience : Text) (found : Option CachedToken) (s : Caches)
      (k : Text) (flight : Flight)
      → get s.in_flight k ≡ some flight
      → get (hit_or_miss c session now requested audience found s).0.in_flight k ≡ some flight
  unfolding hit_or_miss
  hit_or_miss_frame now requested audience (some entry) s k flight h = h
  hit_or_miss_frame now requested audience none s k flight h =
      join_or_issue_frame now (c.stringify (audience ∷ []) requested) requested audience _ s k
        flight refl h

  -- A call neither ends nor restarts an issuance that is in flight.
  pub get_access_token_frame :
      (now : ℕ) (scope : Text) (audience : Option Text) (s : Caches) (k : Text) (flight : Flight)
      → get s.in_flight k ≡ some flight
      → get (get_access_token c session now scope audience s).0.in_flight k ≡ some flight
  unfolding get_access_token
  get_access_token_frame now scope audience s k flight h =
      at_arguments now (requested_of scope audience) s k flight h
    where
      at_arguments :
          (now : ℕ) (r : Result ScopeError (Text × List Text)) (s : Caches) (k : Text)
          (flight : Flight)
          → get s.in_flight k ≡ some flight
          → get (get_for c session now r s).0.in_flight k ≡ some flight
      at_arguments now (err e) s k flight h = h
      at_arguments now (ok (audience, requested)) s k flight h =
          hit_or_miss_frame now requested audience _ _ k flight h

  -- The issuance that a post belongs to: there was none under its key, and now there is one, for
  -- these scopes and this audience.
  pub record IsAlone (key : Text) (requested : List Text) (audience : Text) (s s' : Caches)
      : Type 0 where
    pub before : get s.in_flight key ≡ none
    pub flight : Flight
    pub after : get s'.in_flight key ≡ some flight
    pub its_scopes : flight.scopes ≡ requested
    pub its_audience : flight.audience ≡ audience

  issue_with-IsAlone :
      (now : ℕ) (key : Text) (requested : List Text) (audience : Text) (found : Option CachedToken)
      (s : Caches) {k : Text} {post : Post}
      → (issue_with c session now key requested audience found s).1 ≡ posted k post
      → get s.in_flight key ≡ none
      → (key ≡ k)
        × IsAlone key requested audience s
            (issue_with c session now key requested audience found s).0
  unfolding issue_with ask_access_token ask_id_jag
  issue_with-IsAlone now key requested audience (some id_jag) s e h = (
    cc,
    record {
      before = h;
      flight = record { scopes = requested; audience = audience; phase = for_access_token };
      after =
          get-set_self s.in_flight key
            (record { scopes = requested; audience = audience; phase = for_access_token });
      its_scopes = refl;
      its_audience = refl;
    },
  )
  issue_with-IsAlone now key requested audience none s {k} e h = (
    ground arith,
    record {
      before = h;
      flight = record { scopes = requested; audience = audience; phase = for_id_jag };
      after = ground (
        arith,
        get-set_self s.in_flight key
            (record { scopes = requested; audience = audience; phase = for_id_jag }),
      );
      its_scopes = refl;
      its_audience = refl;
    },
  )

  join_or_issue-IsAlone :
      (now : ℕ) (key : Text) (requested : List Text) (audience : Text) (found : Option Flight)
      (s : Caches) {k : Text} {post : Post}
      → get s.in_flight key ≡ found
      → (join_or_issue c session now key requested audience found s).1 ≡ posted k post
      → (key ≡ k)
        × IsAlone key requested audience s
            (join_or_issue c session now key requested audience found s).0
  unfolding join_or_issue issue_access_token
  join_or_issue-IsAlone now key requested audience (some flight) s h e = absurd (cc e)
  join_or_issue-IsAlone now key requested audience none s h e =
      let (same, alone) = issue_with-IsAlone now key requested audience _ _ e h in
      (
        same,
        record {
          before = alone.before;
          flight = alone.flight;
          after = alone.after;
          its_scopes = alone.its_scopes;
          its_audience = alone.its_audience;
        },
      )

  hit_or_miss-IsAlone :
      (now : ℕ) (requested : List Text) (audience : Text) (found : Option CachedToken) (s : Caches)
      {k : Text} {post : Post}
      → (hit_or_miss c session now requested audience found s).1 ≡ posted k post
      → (c.stringify (audience ∷ []) requested ≡ k)
        × IsAlone k requested audience s (hit_or_miss c session now requested audience found s).0
  unfolding hit_or_miss
  hit_or_miss-IsAlone now requested audience (some entry) s e = absurd (cc e)
  hit_or_miss-IsAlone now requested audience none s e =
      let key = c.stringify (audience ∷ []) requested in
      let (same, alone) =
        join_or_issue-IsAlone now key requested audience (get s.in_flight key) s refl e in
      (
        same,
        subst
            (λ k.
              IsAlone k requested audience s
                (join_or_issue c session now key requested audience (get s.in_flight key) s).0)
            same alone,
      )

  get_for-IsAlone :
      (now : ℕ) (audience : Text) (requested : List Text) (s : Caches) {k : Text} {post : Post}
      → (get_for c session now (ok (audience, requested)) s).1 ≡ posted k post
      → (c.stringify (audience ∷ []) requested ≡ k)
        × IsAlone k requested audience s (get_for c session now (ok (audience, requested)) s).0
  unfolding get_for
  get_for-IsAlone now audience requested s e =
      let (same, alone) = hit_or_miss-IsAlone now requested audience _ _ e in
      (
        same,
        record {
          before = alone.before;
          flight = alone.flight;
          after = alone.after;
          its_scopes = alone.its_scopes;
          its_audience = alone.its_audience;
        },
      )

  -- A call posts to Athenz only when no issuance is in flight for its audience and scopes, and
  -- then one is.
  pub get_access_token-IsAlone :
      (now : ℕ) (scope : Text) (audience : Option Text) (s : Caches) (selected : Text)
      (requested : List Text) (key : Text) (post : Post)
      → requested_of scope audience ≡ ok (selected, requested)
      → (get_access_token c session now scope audience s).1 ≡ posted key post
      → (c.stringify (selected ∷ []) requested ≡ key)
        × IsAlone key requested selected s (get_access_token c session now scope audience s).0
  unfolding get_access_token
  get_access_token-IsAlone now scope audience s selected requested key post asked e =
      subst
        (λ r.
          (get_for c session now r s).1 ≡ posted key post
          → (c.stringify (selected ∷ []) requested ≡ key)
            × IsAlone key requested selected s (get_for c session now r s).0)
        (sym asked) (get_for-IsAlone now selected requested s) e
