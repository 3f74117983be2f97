-- ===== src/Gateway/Internal/Laws.antt =====
-- Who may read the status of the sessions, and what it adds up to (routes/internal.ts).
use id_jag_the_hard_way.Base.{
  true, Option, none, some, [], ◌∷◌, ◌++◌, drop, ◌≡◌, ◌≢◌, refl, arith, ap,
}
use id_jag_the_hard_way.Base.Text.{Text, text_eq, text_beq_iff, lit}
use id_jag_the_hard_way.Base.Text.Search.{starts_with_sound}
use id_jag_the_hard_way.Gateway.Platform.{Platform}
use id_jag_the_hard_way.Gateway.Internal.{matches_token, is_authorized}

-- A bearer token that has the bytes of the configured token, which is not empty.
pub record IsHub (p : Platform) (registry_token authorization : Option Text) : Type 0 where
  pub expected : Text
  pub configured : registry_token ≡ some expected
  pub not_empty : expected ≢ []
  pub supplied : Text
  pub sent : authorization ≡ some (lit "Bearer " ++ supplied)
  pub same : p.bytes supplied ≡ p.bytes expected

module _ (p : Platform) where
  matches_token_sound :
      (o : Option Text) (expected : Text)
      → matches_token p o expected ≡ true
      → (supplied : Text) × (o ≡ some (lit "Bearer " ++ supplied))
        × (p.bytes supplied ≡ p.bytes expected)
  matches_token_sound none expected h = absurd (cc h)
  matches_token_sound (some a) expected h = (
    drop 7 a,
    ap some (starts_with_sound a (lit "Bearer ") (ground arith)),
    (text_beq_iff _ _).0 (ground arith),
  )

  pub is_authorized_sound :
      (authorization registry_token : Option Text)
      → is_authorized p authorization registry_token ≡ true
      → IsHub p registry_token authorization
  unfolding is_authorized
  is_authorized_sound authorization none h = absurd (cc h)
  is_authorized_sound authorization (some []) h = absurd (cc h)
  is_authorized_sound authorization (some (c ∷ t)) h =
      let (supplied, sent, same) = matches_token_sound authorization (c ∷ t) h in
      record {
        expected = c ∷ t;
        configured = refl;
        not_empty = λ e. cc e;
        supplied = supplied;
        sent = sent;
        same = same;
      }
