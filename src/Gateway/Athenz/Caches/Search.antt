-- ===== src/Gateway/Athenz/Caches/Search.antt =====
-- What the two searches of athenz.ts return, and what they leave in the caches.
use id_jag_the_hard_way.Base.{
  ℕ, ◌+◌, ◌≤◌, ◌<◌, true, none, some, List, [], ◌∷◌, ◌≡◌, refl, length, Member, All, All-map,
  Option-cases, leb, leb→le, arith, Bool-cases, inl, inr, subst, sym, ap, includes,
}
use id_jag_the_hard_way.Base.Text.{Text, text_eq}
use id_jag_the_hard_way.Base.Dict.{Dict, Entries, Entries-map}
use id_jag_the_hard_way.Gateway.Athenz.Scopes.{scopes_cover, scopes_exactly_match}
use id_jag_the_hard_way.Gateway.Athenz.Matching.{audiences_exactly_match_iff}
use id_jag_the_hard_way.Gateway.Athenz.Grants.{token_expiry_skew_ms}
use id_jag_the_hard_way.Gateway.Athenz.Caches.{
  CachedToken, find_access_token, find_id_jag, live_id_jags, id_jag_matches, narrowest, is_stale,
  serves, covers_request,
}

-- The entry is for exactly this audience and these scopes, and has more than a minute left.
pub record Serves (now : ℕ) (requested : List Text) (audience : Text) (entry : CachedToken)
    : Type 0 where
  pub fresh : now + token_expiry_skew_ms < entry.expires_at_ms
  pub same_audience : entry.audiences ≡ audience ∷ []
  pub same_scopes : scopes_exactly_match entry.scopes requested ≡ true

module _ (now : ℕ) (requested : List Text) (audience : Text) where
  pub find_access_token_sound :
      (P : Text → CachedToken → Type 0) (cache : Dict CachedToken) {entry : CachedToken}
      → Entries P cache
      → (find_access_token now requested audience cache).1 ≡ some entry
      → Serves now requested audience entry × ((key : Text) × P key entry)
  unfolding find_access_token
  find_access_token_sound P [] h e = absurd (cc e)
  find_access_token_sound P ((k, x) ∷ cache) {entry} h e = elim (Bool-cases (is_stale now x)) [
    | inl stale ↦ find_access_token_sound P cache h.1 (ground arith)
    | inr fresh ↦ elim (Bool-cases (serves requested audience x)) [
      | inr other ↦ find_access_token_sound P cache h.1 (ground arith)
      | inl good ↦
          let same : x ≡ entry = ground arith in
          (
            subst (Serves now requested audience) same (record {
              fresh = ground arith;
              same_audience =
                  (audiences_exactly_match_iff x.audiences (audience ∷ [])).0 (ground arith);
              same_scopes = ground arith;
            }),
            (k, subst (P k) same h.0),
          )
    ]
  ]

  pub find_access_token-Entries :
      (P : Text → CachedToken → Type 0) (cache : Dict CachedToken)
      → Entries P cache
      → Entries P (find_access_token now requested audience cache).0
  unfolding find_access_token
  find_access_token-Entries P [] h = tt
  find_access_token-Entries P ((k, x) ∷ cache) h =
      ground (arith, find_access_token-Entries P cache h.1)

  -- A miss means that no entry of the cache would have served.
  pub find_access_token_complete :
      (cache : Dict CachedToken) (key : Text) (entry : CachedToken)
      → Member (key, entry) cache
      → (find_access_token now requested audience cache).1 ≡ none
      → ¬ Serves now requested audience entry
  unfolding find_access_token
  find_access_token_complete [] key entry m e s = m
  find_access_token_complete ((k, x) ∷ cache) key entry (inl here) e s =
      let same : x ≡ entry = ap (λ (b : Text × CachedToken). b.1) here in
      missed (subst (Serves now requested audience) (sym same) s)
    where
      missed : Serves now requested audience x → ⊥
      missed s = ground (arith, audiences_exactly_match_iff x.audiences (audience ∷ []))
  find_access_token_complete ((k, x) ∷ cache) key entry (inr later) e s =
      find_access_token_complete cache key entry later (ground arith) s

-- The ID-JAG covers the request, is for Athenz, and has more than a minute left.
pub record Covers (zts_audience : Text) (now : ℕ) (requested : List Text) (entry : CachedToken)
    : Type 0 where
  pub fresh : now + token_expiry_skew_ms < entry.expires_at_ms
  pub for_athenz : includes entry.audiences zts_audience ≡ true
  pub covering : scopes_cover entry.scopes requested ≡ true

module _ (now : ℕ) (zts_audience : Text) (requested : List Text) where
  live_id_jags-Entries :
      (P : Text → CachedToken → Type 0) (cache : Dict CachedToken)
      → Entries P cache
      → Entries
          (λ k e. P k e × (now + token_expiry_skew_ms < e.expires_at_ms))
          (live_id_jags now cache)
  unfolding live_id_jags
  live_id_jags-Entries P [] h = tt
  live_id_jags-Entries P ((k, x) ∷ cache) h = ground (arith, live_id_jags-Entries P cache h.1)

  id_jag_matches-All :
      (Q : CachedToken → Type 0) (cache : Dict CachedToken)
      → Entries (λ k e. Q e) cache
      → All
          (λ e. Q e × (covers_request zts_audience requested e ≡ true))
          (id_jag_matches zts_audience requested cache)
  unfolding id_jag_matches
  id_jag_matches-All Q [] h = tt
  id_jag_matches-All Q ((k, x) ∷ cache) h = ground (arith, id_jag_matches-All Q cache h.1)

  -- No entry has fewer scopes.
  abbrev pub IsLeast : CachedToken → List CachedToken → Type 0
  IsLeast entry = All (λ e. length entry.scopes ≤ length e.scopes)

  narrowest-none : (entries : List CachedToken) → narrowest entries ≡ none → entries ≡ []
  unfolding narrowest
  narrowest-none [] e = refl
  narrowest-none (x ∷ xs) e = ground arith

  narrowest_sound :
      (Q : CachedToken → Type 0) (entries : List CachedToken) {entry : CachedToken}
      → All Q entries
      → narrowest entries ≡ some entry
      → Q entry × IsLeast entry entries
  unfolding narrowest
  narrowest_sound Q [] h e = absurd (cc e)
  narrowest_sound Q (x ∷ xs) {entry} h e = elim (Option-cases (narrowest xs)) [
    | inl empty ↦
        let same : x ≡ entry = ground arith in
        subst (λ y. Q y × IsLeast y (x ∷ xs)) same
          (h.0, (omega arith, subst (IsLeast x) (sym (narrowest-none xs empty)) tt))
    | inr (best, found) ↦
        let (q, least) = narrowest_sound Q xs h.1 found in
        elim (Bool-cases (leb (length x.scopes) (length best.scopes))) [
          | inl fewer ↦
              let same : x ≡ entry = ground arith in
              let le = leb→le _ _ fewer in
              subst (λ y. Q y × IsLeast y (x ∷ xs)) same
                (h.0, (omega arith, All-map (λ y l. omega arith) xs least))
          | inr more ↦
              let same : best ≡ entry = ground arith in
              subst (λ y. Q y × IsLeast y (x ∷ xs)) same (q, (ground arith, least))
        ]
  ]

  -- The ID-JAG that is found is live, is for Athenz and covers the request, and among the ones
  -- in the cache that do so none has fewer scopes.
  pub find_id_jag_sound :
      (P : Text → CachedToken → Type 0) (cache : Dict CachedToken) {entry : CachedToken}
      → Entries P cache
      → (find_id_jag zts_audience now requested cache).1 ≡ some entry
      → Covers zts_audience now requested entry
        × IsLeast entry (id_jag_matches zts_audience requested (live_id_jags now cache))
        × ((key : Text) × P key entry)
  unfolding find_id_jag
  find_id_jag_sound P cache {entry} h e =
      let live =
        Entries-map
          {Q = λ k x. (now + token_expiry_skew_ms < x.expires_at_ms) × ((key : Text) × P key x)}
          (λ k x (p, fresh). (fresh, (k, p))) (live_id_jags now cache)
          (live_id_jags-Entries P cache h) in
      let (q, least) =
        narrowest_sound
          (λ x.
            ((now + token_expiry_skew_ms < x.expires_at_ms) × ((key : Text) × P key x))
            × (covers_request zts_audience requested x ≡ true))
          _ (id_jag_matches-All _ (live_id_jags now cache) live) e in
      (record { fresh = q.0.0; for_athenz = ground arith; covering = ground arith }, least, q.0.1)

  pub find_id_jag-Entries :
      (P : Text → CachedToken → Type 0) (cache : Dict CachedToken)
      → Entries P cache
      → Entries P (find_id_jag zts_audience now requested cache).0
  unfolding find_id_jag
  find_id_jag-Entries P cache h =
      Entries-map (λ k x (p, fresh). p) (live_id_jags now cache) (live_id_jags-Entries P cache h)
