-- ===== src/Gateway/OauthStore/Pkce.antt =====
-- PKCE verification (oauthStore.ts).
use id_jag_the_hard_way.Base.{ℕ, true, List, ◌≡◌, ◌↔◌, ap, ◌==◌, ◌&&◌, nat_eq, length, arith}
use id_jag_the_hard_way.Base.Text.{Text, text_eq, text_beq, text_beq_iff}
use id_jag_the_hard_way.Gateway.Platform.{Platform}
use id_jag_the_hard_way.Gateway.OauthStore.{derive_s256_code_challenge, verify_s256_code_challenge}

same_bytes : (a b : List ℕ) → a ≡ b → (length a == length b && text_beq a b) ≡ true
same_bytes a b e = ground (arith, text_beq_iff a b, ap length e)

-- A verifier passes exactly when its derived challenge and the expected one are the same bytes.
verify-bytes :
    (p : Platform) (verifier expected : Text)
    → (verify_s256_code_challenge p verifier expected ≡ true)
      ↔ (p.bytes (derive_s256_code_challenge p verifier) ≡ p.bytes expected)
unfolding verify_s256_code_challenge
verify-bytes p verifier expected = (
  λ h. ground (arith, text_beq_iff (p.bytes (p.sha256 verifier)) (p.bytes expected)),
  λ e. same_bytes _ _ e,
)

-- Where two texts that the gateway hashes neither collide nor are confused as bytes, exactly the
-- verifier from which the challenge was derived passes.
pub verify-derive :
    (p : Platform) (verifier original : Text)
    → (p.bytes (p.sha256 verifier) ≡ p.bytes (p.sha256 original) → verifier ≡ original)
    → (verify_s256_code_challenge p verifier (derive_s256_code_challenge p original) ≡ true)
      ↔ (verifier ≡ original)
unfolding derive_s256_code_challenge
verify-derive p verifier original injective =
    let (to, from) = verify-bytes p verifier (p.sha256 original) in
    (λ h. injective (to h), λ e. from (ap (λ v. p.bytes (p.sha256 v)) e))
