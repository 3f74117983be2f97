-- ===== src/GenaiProxy/Billing/Limits.antt =====
-- Spending and limits as usage is recorded (billing.ts, server.ts).
use id_jag_the_hard_way.Base.{
  ℕ, ◌+◌, ◌*◌, true, Option, none, some, List, [], ◌∷◌, ◌≡◌, ◌≢◌, refl, ap, ◌∙◌, arith, leb→le,
  le→leb, ◌==◌, Bool-cases, inl, inr,
}
use native.Mathlib.Nat.{add-mul}
use id_jag_the_hard_way.Base.Text.{Text, text_eq, text_beq_iff}
use id_jag_the_hard_way.GenaiProxy.Usage.{TokenUsage, ModelUsage, more, new_model, grow}
use id_jag_the_hard_way.GenaiProxy.Billing.{
  ModelPrice, price_of, cost_at, estimated_token_cost, estimated_model_cost, sum,
  estimated_usage_cost, daily_limit, reached_limit, is_refused,
}

cost_at_plus :
    (price : Option ModelPrice) (a b c d : ℕ)
    → cost_at price (a + c) (b + d) ≡ sum (cost_at price a b) (cost_at price c d)
cost_at_plus none a b c d = refl
cost_at_plus (some p) a b c d = ap some (distributes a b c d p.input p.output)
  where
    distributes : (a b c d i o : ℕ) → (a + c) * i + (b + d) * o ≡ (a * i + b * o) + (c * i + d * o)
    distributes a b c d i o = omega (arith, add-mul a c i, add-mul b d o)

sum_swap : (a b c : Option ℕ) → sum (sum a b) c ≡ sum (sum a c) b
sum_swap none b c = refl
sum_swap (some a) none none = refl
sum_swap (some a) none (some c) = refl
sum_swap (some a) (some b) none = refl
sum_swap (some a) (some b) (some c) = ap some (omega arith)

sum_rotate : (a b c : Option ℕ) → sum a (sum b c) ≡ sum (sum a b) c
sum_rotate none b c = refl
sum_rotate (some a) none c = refl
sum_rotate (some a) (some b) none = refl
sum_rotate (some a) (some b) (some c) = ap some (omega arith)

sum_zero : (c : Option ℕ) → sum c (some 0) ≡ sum (some 0) c
sum_zero none = refl
sum_zero (some c) = ap some (omega arith)

more_cost :
    (requests : ℕ) (usage : TokenUsage) (m : ModelUsage)
    → estimated_model_cost (more requests usage m)
      ≡ sum
          (estimated_model_cost m)
          (estimated_token_cost m.model usage.prompt_tokens usage.completion_tokens)
unfolding estimated_model_cost
more_cost requests usage m =
    cost_at_plus (price_of m.model) m.tokens.prompt_tokens m.tokens.completion_tokens
      usage.prompt_tokens usage.completion_tokens

new_cost :
    (requests : ℕ) (usage : TokenUsage) (name : Text)
    → estimated_model_cost (more requests usage (new_model name))
      ≡ estimated_token_cost name usage.prompt_tokens usage.completion_tokens
unfolding estimated_model_cost estimated_token_cost
new_cost requests usage name = at_price (price_of name)
  where
    at_price :
        (p : Option ModelPrice)
        → cost_at p (0 + usage.prompt_tokens) (0 + usage.completion_tokens)
          ≡ cost_at p usage.prompt_tokens usage.completion_tokens
    at_price none = refl
    at_price (some p) = ap some (
        ap (λ n. n * p.input + (0 + usage.completion_tokens) * p.output) (omega arith)
        ∙ ap (λ n. usage.prompt_tokens * p.input + n * p.output) (omega arith))

-- Recorded usage adds its own cost to the spending, whether its model was used before or not.
pub estimated_usage_cost-grow :
    (name : Text) (requests : ℕ) (usage : TokenUsage) (ms : List ModelUsage)
    → estimated_usage_cost (grow name requests usage ms)
      ≡ sum
          (estimated_usage_cost ms)
          (estimated_token_cost name usage.prompt_tokens usage.completion_tokens)
unfolding estimated_usage_cost grow
estimated_usage_cost-grow name requests usage [] =
    ap (λ c. sum c (some 0)) (new_cost requests usage name)
    ∙ sum_zero (estimated_token_cost name usage.prompt_tokens usage.completion_tokens)
estimated_usage_cost-grow name requests usage (m ∷ ms) = elim (Bool-cases (m.model == name)) [
  | inl same ↦ rw same (
      ap (λ c. sum c (estimated_usage_cost ms)) (more_cost requests usage m)
      ∙ (sum_swap (estimated_model_cost m)
            (estimated_token_cost m.model usage.prompt_tokens usage.completion_tokens)
            (estimated_usage_cost ms)
          ∙ ap
              (λ n.
                sum (sum (estimated_model_cost m) (estimated_usage_cost ms))
                  (estimated_token_cost n usage.prompt_tokens usage.completion_tokens))
              ((text_beq_iff m.model name).0 same)))
  | inr other ↦ rw other (
      ap (λ c. sum (estimated_model_cost m) c) (estimated_usage_cost-grow name requests usage ms)
      ∙ sum_rotate (estimated_model_cost m) (estimated_usage_cost ms)
          (estimated_token_cost name usage.prompt_tokens usage.completion_tokens))
]

-- A project that has reached its limit stays refused, whatever else it uses, as long as what it
-- uses has a price.
pub is_refused-grow :
    (project name : Text) (requests : ℕ) (usage : TokenUsage) (ms : List ModelUsage)
    → is_refused project ms ≡ true
    → price_of name ≢ none
    → is_refused project (grow name requests usage ms) ≡ true
unfolding is_refused estimated_token_cost
is_refused-grow project name requests usage ms h priced =
    rw (estimated_usage_cost-grow name requests usage ms)
      (at_price (daily_limit project) (estimated_usage_cost ms) (price_of name) h priced)
  where
    at_price :
        (limit spend : Option ℕ) (price : Option ModelPrice)
        → reached_limit limit spend ≡ true
        → price ≢ none
        → reached_limit limit
            (sum spend (cost_at price usage.prompt_tokens usage.completion_tokens))
          ≡ true
    at_price none spend price h p = h
    at_price (some l) none price h p = h
    at_price (some l) (some s) none h p = absurd (p refl)
    at_price (some l) (some s) (some price) h p = le→leb l _ (omega (arith, leb→le l s h))
