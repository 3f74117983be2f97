-- ===== src/GenaiProxy/Billing.antt =====
-- components/genai_proxy/src/billing.ts, and the daily limit that server.ts enforces with it. Money
-- is counted in units of 10^-7 USD, in which all prices and limits are whole; the source's sums are
-- floating-point ones. `none` is `NaN`.
pub mod Limits
use id_jag_the_hard_way.Base.{
  ℕ, ◌+◌, ◌*◌, Bool, true, false, Option, none, some, List, [], ◌∷◌, leb, includes, if◌then◌else◌,
  ◌==◌, ◌≡◌, refl,
}
use id_jag_the_hard_way.Base.Text.{Text, text_eq, text_beq, lit}
use id_jag_the_hard_way.GenaiProxy.Usage.{TokenUsage, ModelUsage}

-- For one token.
pub record ModelPrice : Type 0 where
  pub input : ℕ
  pub output : ℕ

abbrev pub fallback_price : ModelPrice
fallback_price = record { input = 1; output = 3 }

-- What a plain object inherits: a price that is looked up under such a name is no price.
abbrev pub inherited_names : List Text
inherited_names =
    lit "constructor"
    ∷ lit "__defineGetter__"
    ∷ lit "__defineSetter__"
    ∷ lit "hasOwnProperty"
    ∷ lit "__lookupGetter__"
    ∷ lit "__lookupSetter__"
    ∷ lit "isPrototypeOf"
    ∷ lit "propertyIsEnumerable"
    ∷ lit "toString"
    ∷ lit "valueOf"
    ∷ lit "__proto__"
    ∷ lit "toLocaleString"
    ∷ []

-- `modelPricesUsdPerMillion[model] ?? fallbackPriceUsdPerMillion`
unfoldable pub price_of : (model : Text) → Option ModelPrice
price_of model =
    if model == lit "gpt-5.6-sol"
    then some (record { input = 50; output = 300 })
    else if model == lit "gpt-5.6-terra"
    then some (record { input = 25; output = 150 })
    else if model == lit "gpt-5.6-luna"
    then some (record { input = 10; output = 60 })
    else if includes inherited_names model
    then none
    else some fallback_price

abbrev pub cost_at : Option ModelPrice → (input_tokens output_tokens : ℕ) → Option ℕ
cost_at none input_tokens output_tokens = none
cost_at (some price) input_tokens output_tokens =
    some (input_tokens * price.input + output_tokens * price.output)

unfoldable pub estimated_token_cost : (model : Text) (input_tokens output_tokens : ℕ) → Option ℕ
unfolding price_of
estimated_token_cost model input_tokens output_tokens =
    cost_at (price_of model) input_tokens output_tokens

unfoldable pub estimated_model_cost : ModelUsage → Option ℕ
unfolding estimated_token_cost
estimated_model_cost m =
    estimated_token_cost m.model m.tokens.prompt_tokens m.tokens.completion_tokens

abbrev pub sum : Option ℕ → Option ℕ → Option ℕ
sum none b = none
sum (some a) none = none
sum (some a) (some b) = some (a + b)

unfoldable pub estimated_usage_cost : List ModelUsage → Option ℕ
unfolding estimated_model_cost
estimated_usage_cost [] = some 0
estimated_usage_cost (m ∷ ms) = sum (estimated_model_cost m) (estimated_usage_cost ms)

-- `dailyServiceCodeLimits[project]?.amountUsd`
unfoldable pub daily_limit : (project : Text) → Option ℕ
daily_limit project =
    if project == lit "athenz"
    then some 2400000000
    else if project == lit "spire"
    then some 20000
    else none

-- `spend >= limit`, which is false of `NaN`
abbrev pub reached : Option ℕ → (limit : ℕ) → Bool
reached none limit = false
reached (some spend) limit = leb limit spend

abbrev pub reached_limit : Option ℕ → Option ℕ → Bool
reached_limit none spend = false
reached_limit (some limit) spend = reached spend limit

-- Whether a metered request of the project is refused (429).
unfoldable pub is_refused : (project : Text) → List ModelUsage → Bool
unfolding daily_limit estimated_usage_cost
is_refused project usage = reached_limit (daily_limit project) (estimated_usage_cost usage)

-- The usage of one model with an inherited name lifts the limit.
lifted :
    is_refused (lit "spire") (
      record {
        model = lit "gpt-5.6-sol";
        requests = 1;
        tokens = record { prompt_tokens = 1000; completion_tokens = 0; total_tokens = 1000 };
      }
      ∷ record {
        model = lit "constructor";
        requests = 1;
        tokens = record { prompt_tokens = 1; completion_tokens = 0; total_tokens = 1 };
      }
      ∷ [])
    ≡ false
unfolding is_refused text_beq
lifted = refl
