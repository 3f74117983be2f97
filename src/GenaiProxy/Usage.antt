-- ===== src/GenaiProxy/Usage.antt =====
-- components/genai_proxy/src/usage.ts: what was used, by project, by day and user, and by model. A
-- moment comes as the day and the time stamp in Japan that `jstDate` and `jstTimestamp` make of it.
pub mod Totals
pub mod Daily
use id_jag_the_hard_way.Base.{
  ℕ, ◌+◌, Bool, true, false, not, ◌&&◌, Option, none, some, List, [], ◌∷◌, if◌then◌else◌, map, ◌==◌,
  is_empty,
}
use id_jag_the_hard_way.Base.Text.{Text, text_eq, lit, trim, join}
use id_jag_the_hard_way.Base.Dict.{Dict, get, set, values}
use id_jag_the_hard_way.Base.Options.{truthy}
use id_jag_the_hard_way.Base.Json.{Number, nat, Value, num}

pub record TokenUsage : Type 0 where
  pub prompt_tokens : ℕ
  pub completion_tokens : ℕ
  pub total_tokens : ℕ

pub record ModelUsage : Type 0 where
  pub model : Text
  pub requests : ℕ
  pub tokens : TokenUsage

pub record UserUsage : Type 0 where
  pub client_id : Text
  pub date : Text
  pub last_usage : Text
  pub models : List ModelUsage
  pub requests : ℕ
  pub scope : Text
  pub subject : Text
  pub tokens : TokenUsage

pub record UsageIdentity : Type 0 where
  pub client_id : Text
  pub model : Option Text
  pub project : Text
  pub scope : Text
  pub subject : Text

abbrev pub Projects : Type 0
Projects = Dict (Dict UserUsage)

abbrev pub default_model : Text
default_model = lit "gpt-5.6-luna"

abbrev pub no_tokens : TokenUsage
no_tokens = record { prompt_tokens = 0; completion_tokens = 0; total_tokens = 0 }

abbrev pub plus : TokenUsage → TokenUsage → TokenUsage
plus a b = record {
  prompt_tokens = a.prompt_tokens + b.prompt_tokens;
  completion_tokens = a.completion_tokens + b.completion_tokens;
  total_tokens = a.total_tokens + b.total_tokens;
}

-- `identity.model?.trim() || DEFAULT_MODEL`
abbrev trimmed : Option Text → Option Text
trimmed none = none
trimmed (some s) = truthy (some (trim s))

unfoldable pub model_name : Option Text → Text
model_name model = elim (trimmed model) [ none ↦ default_model | some name ↦ name ]

abbrev pub new_model : Text → ModelUsage
new_model name = record { model = name; requests = 0; tokens = no_tokens }

abbrev pub more : (requests : ℕ) → TokenUsage → ModelUsage → ModelUsage
more requests usage m = record m { requests = m.requests + requests; tokens = plus m.tokens usage }

-- The first entry of the model grows, or a new one is added at the end.
unfoldable pub grow : (name : Text) (requests : ℕ) → TokenUsage → List ModelUsage → List ModelUsage
grow name requests usage [] = more requests usage (new_model name) ∷ []
grow name requests usage (m ∷ ms) =
    let later = grow name requests usage ms in
    if m.model == name then more requests usage m ∷ ms else m ∷ later

abbrev pub separator : Text
separator = 0 ∷ []

unfoldable pub usage_key : (date subject client_id scope : Text) → Text
usage_key date subject client_id scope = join separator (date ∷ subject ∷ client_id ∷ scope ∷ [])

unfoldable pub new_usage : (date last_usage : Text) → UsageIdentity → UserUsage
new_usage date last_usage identity = record {
  client_id = identity.client_id;
  date = date;
  last_usage = last_usage;
  models = [];
  requests = 0;
  scope = identity.scope;
  subject = identity.subject;
  tokens = no_tokens;
}

unfoldable pub used : (last_usage model : Text) → TokenUsage → UserUsage → UserUsage
unfolding grow
used last_usage model usage current = record current {
  last_usage = last_usage;
  models = grow model 1 usage current.models;
  requests = current.requests + 1;
  tokens = plus current.tokens usage;
}

abbrev pub or_new {ℓ} : {A : Type ℓ} → Option A → A → A
or_new none a = a
or_new (some b) a = b

-- `record`, less the file that it writes; objects that are shared with the map are replaced in it.
unfoldable pub record_usage :
    (date last_usage : Text) → UsageIdentity → TokenUsage → Projects → Projects
unfolding usage_key new_usage used model_name
record_usage date last_usage identity usage projects =
    let users = or_new (get projects identity.project) [] in
    let key = usage_key date identity.subject identity.client_id identity.scope in
    let current = or_new (get users key) (new_usage date last_usage identity) in
    set projects identity.project
      (set users key (used last_usage (model_name identity.model) usage current))

-- The models of one user, added to the totals of the day.
unfoldable pub add_models : List ModelUsage → Dict ModelUsage → Dict ModelUsage
add_models [] totals = totals
add_models (m ∷ ms) totals = add_models ms (
    set totals m.model (more m.requests m.tokens (or_new (get totals m.model) (new_model m.model))))

unfoldable pub add_users : (date : Text) → List UserUsage → Dict ModelUsage → Dict ModelUsage
unfolding add_models
add_users date [] totals = totals
add_users date (u ∷ us) totals =
    let others = add_users date us totals in
    let both = add_users date us (add_models u.models totals) in
    if u.date == date then both else others

-- `currentDailyModels`, less the sorting by name
unfoldable pub current_daily_models : (date project : Text) → Projects → List ModelUsage
unfolding add_users
current_daily_models date project projects =
    values (add_users date (values (or_new (get projects project) [])) [])

-- `Number.isInteger(v) && v >= 0`
unfoldable pub non_negative_integer : Option Value → Option ℕ
non_negative_integer (some (num (nat n))) = some n
non_negative_integer _ = none

abbrev pub or_zero : Option ℕ → ℕ
or_zero o = or_new o 0

abbrev pub counted : Option ℕ → Option ℕ → Option ℕ → Option TokenUsage
counted none none none = none
counted prompt completion total = some (record {
  prompt_tokens = or_zero prompt;
  completion_tokens = or_zero completion;
  total_tokens = or_new total (or_zero prompt + or_zero completion);
})

unfoldable pub normalized_usage : (prompt completion total : Option Value) → Option TokenUsage
unfolding non_negative_integer
normalized_usage prompt completion total =
    counted (non_negative_integer prompt) (non_negative_integer completion)
      (non_negative_integer total)
