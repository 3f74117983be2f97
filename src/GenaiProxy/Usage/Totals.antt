-- ===== src/GenaiProxy/Usage/Totals.antt =====
-- The counts of a user and of the models that the user used (usage.ts).
use id_jag_the_hard_way.Base.{
  ℕ, ◌+◌, Option, none, some, List, [], ◌∷◌, ◌≡◌, refl, sym, ap, ◌∙◌, arith, ◌==◌, Bool-cases, inl,
  inr,
}
use id_jag_the_hard_way.Base.Text.{Text, text_eq}
use id_jag_the_hard_way.Base.Dict.{Dict, get, Entries, Entries-get, Entries-set}
use id_jag_the_hard_way.GenaiProxy.Usage.{
  TokenUsage, ModelUsage, UserUsage, UsageIdentity, Projects, more, new_model, grow, used,
  new_usage, or_new, record_usage, usage_key, model_name,
}

-- A count of a model: its requests, or one of its kinds of tokens.
pub data Measure : Type 0 where
  by_requests by_prompt by_completion by_total : Measure

abbrev pub tokens_by : Measure → (requests : ℕ) → TokenUsage → ℕ
tokens_by by_requests requests t = requests
tokens_by by_prompt requests t = t.prompt_tokens
tokens_by by_completion requests t = t.completion_tokens
tokens_by by_total requests t = t.total_tokens

abbrev pub model_count : Measure → ModelUsage → ℕ
model_count q m = tokens_by q m.requests m.tokens

abbrev pub user_count : Measure → UserUsage → ℕ
user_count q u = tokens_by q u.requests u.tokens

abbrev pub models_count : Measure → List ModelUsage → ℕ
models_count q [] = 0
models_count q (m ∷ ms) = model_count q m + models_count q ms

-- The user's own counts are the sums over the models.
abbrev pub IsBalanced : UserUsage → Type 0
IsBalanced u = (q : Measure) → user_count q u ≡ models_count q u.models

abbrev pub AreBalanced : Projects → Type 0
AreBalanced = Entries (λ project users. Entries (λ key u. IsBalanced u) users)

pub more_count :
    (q : Measure) (requests : ℕ) (usage : TokenUsage) (m : ModelUsage)
    → model_count q (more requests usage m) ≡ tokens_by q requests usage + model_count q m
more_count by_requests requests usage m = omega arith
more_count by_prompt requests usage m = omega arith
more_count by_completion requests usage m = omega arith
more_count by_total requests usage m = omega arith

pub new_count : (q : Measure) (name : Text) → model_count q (new_model name) ≡ 0
new_count by_requests name = refl
new_count by_prompt name = refl
new_count by_completion name = refl
new_count by_total name = refl

pub grow_count :
    (q : Measure) (name : Text) (requests : ℕ) (usage : TokenUsage) (ms : List ModelUsage)
    → models_count q (grow name requests usage ms) ≡ tokens_by q requests usage + models_count q ms
unfolding grow
grow_count q name requests usage [] =
    omega (arith, more_count q requests usage (new_model name), new_count q name)
grow_count q name requests usage (m ∷ ms) = elim (Bool-cases (m.model == name)) [
  | inl same ↦ rw same (omega (arith, more_count q requests usage m))
  | inr other ↦ rw other (omega (arith, grow_count q name requests usage ms))
]

used_count :
    (q : Measure) (last_usage model : Text) (usage : TokenUsage) (u : UserUsage)
    → user_count q (used last_usage model usage u) ≡ tokens_by q 1 usage + user_count q u
unfolding used
used_count by_requests last_usage model usage u = omega arith
used_count by_prompt last_usage model usage u = omega arith
used_count by_completion last_usage model usage u = omega arith
used_count by_total last_usage model usage u = omega arith

used-IsBalanced :
    (last_usage model : Text) (usage : TokenUsage) (u : UserUsage)
    → IsBalanced u
    → IsBalanced (used last_usage model usage u)
unfolding used
used-IsBalanced last_usage model usage u h q =
    used_count q last_usage model usage u
    ∙ (ap (λ n. tokens_by q 1 usage + n) (h q) ∙ sym (grow_count q model 1 usage u.models))

new_usage-IsBalanced :
    (date last_usage : Text) (identity : UsageIdentity)
    → IsBalanced (new_usage date last_usage identity)
unfolding new_usage
new_usage-IsBalanced date last_usage identity by_requests = refl
new_usage-IsBalanced date last_usage identity by_prompt = refl
new_usage-IsBalanced date last_usage identity by_completion = refl
new_usage-IsBalanced date last_usage identity by_total = refl

pub or_new-Entries :
    (d : Dict (Dict UserUsage)) (k : Text)
    → AreBalanced d
    → Entries (λ key u. IsBalanced u) (or_new (get d k) [])
or_new-Entries d k h = at_found (get d k) refl
  where
    at_found :
        (o : Option (Dict UserUsage)) → get d k ≡ o → Entries (λ key u. IsBalanced u) (or_new o [])
    at_found none e = tt
    at_found (some users) e =
        Entries-get (λ project us. Entries (λ key u. IsBalanced u) us) d k users h e

or_new-IsBalanced :
    (users : Dict UserUsage) (k : Text) (fresh : UserUsage)
    → Entries (λ key u. IsBalanced u) users
    → IsBalanced fresh
    → IsBalanced (or_new (get users k) fresh)
or_new-IsBalanced users k fresh h new = at_found (get users k) refl
  where
    at_found : (o : Option UserUsage) → get users k ≡ o → IsBalanced (or_new o fresh)
    at_found none e = new
    at_found (some u) e = Entries-get (λ key u. IsBalanced u) users k u h e

-- In a balanced store, each user's requests and tokens stay the sums over the user's models,
-- whatever is recorded.
pub record_usage-AreBalanced :
    (date last_usage : Text) (identity : UsageIdentity) (usage : TokenUsage) (projects : Projects)
    → AreBalanced projects
    → AreBalanced (record_usage date last_usage identity usage projects)
unfolding record_usage
record_usage-AreBalanced date last_usage identity usage projects h =
    let key = usage_key date identity.subject identity.client_id identity.scope in
    let users = or_new (get projects identity.project) [] in
    let fresh = new_usage date last_usage identity in
    let good = or_new-Entries projects identity.project h in
    let current : UserUsage = or_new (get users key) fresh in
    Entries-set (λ project us. Entries (λ key u. IsBalanced u) us) projects identity.project _ h
      (Entries-set (λ key u. IsBalanced u) users key _ good
        (used-IsBalanced last_usage (model_name identity.model) usage current
          (or_new-IsBalanced users key fresh good (new_usage-IsBalanced date last_usage identity))))
