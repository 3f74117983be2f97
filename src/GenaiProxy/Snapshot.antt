-- ===== src/GenaiProxy/Snapshot.antt =====
-- components/genai_proxy/src/usage.ts: reading a stored snapshot, with its migrations. `none` is an
-- exception; the source wraps them all in one error. Days and time stamps are read by JavaScript's
-- `Date`, as parameters.
pub mod Parsed
use id_jag_the_hard_way.Base.{
  ℕ, ◌+◌, Bool, true, false, not, ◌&&◌, Option, none, some, List, [], ◌∷◌, ◌++◌, if◌then◌else◌, map,
  ◌==◌, nat_eq, is_empty, length, leb, includes,
}
use id_jag_the_hard_way.Base.Text.{Text, text_eq, lit, unique, starts_with}
use id_jag_the_hard_way.Base.Dict.{Dict, set}
use id_jag_the_hard_way.Base.Options.{◌>>=◌, ◌>>◌, guard, is_text}
use id_jag_the_hard_way.Base.Json.{
  Value, Number, nat, null, num, str, arr, obj, Items, nil, cons, Fields, property,
}
use id_jag_the_hard_way.GenaiProxy.Usage.{
  TokenUsage, ModelUsage, UserUsage, Projects, default_model, non_negative_integer, usage_key,
}

-- `modified_day` and `modified_stamp` are `jstDate` and `jstTimestamp` of the file's time.
-- `is_day` holds of a day that `Date` prints as it read it; `stamp_day` is the day in Japan of a time
-- stamp, with `none` where `Date` does not read it.
pub record Dates : Type 0 where
  pub modified_day : Text
  pub modified_stamp : Text
  pub is_day : Text → Bool
  pub stamp_day : Text → Option Text

unfoldable pub required_string : Option Value → Option Text
required_string (some (str (c ∷ s))) = some (c ∷ s)
required_string _ = none

-- `requiredNonNegativeInteger` of a property
abbrev pub count_at : Fields → Text → Option ℕ
count_at fs name = non_negative_integer (property fs name)

-- `new Set(xs).size === xs.length`
unfoldable pub is_distinct : List Text → Bool
is_distinct xs = length (unique xs) == length xs

unfoldable pub parse_tokens : Fields → Option TokenUsage
parse_tokens fs = do
  prompt ← count_at fs (lit "promptTokens")
  completion ← count_at fs (lit "completionTokens")
  total ← count_at fs (lit "totalTokens")
  some (record { prompt_tokens = prompt; completion_tokens = completion; total_tokens = total })

unfoldable pub parse_model : Value → Option ModelUsage
unfolding parse_tokens required_string
parse_model (obj fs) = do
  model ← required_string (property fs (lit "model"))
  requests ← count_at fs (lit "requests")
  tokens ← parse_tokens fs
  some (record { model = model; requests = requests; tokens = tokens })
parse_model _ = none

unfoldable pub parse_models : Items → Option (List ModelUsage)
unfolding parse_model
parse_models nil = some []
parse_models (cons v vs) = do model ← parse_model v; models ← parse_models vs; some (model ∷ models)

abbrev pub model_names : List ModelUsage → List Text
model_names = map (λ m. m.model)

unfoldable pub parse_model_usage_list : Option Value → Option (List ModelUsage)
unfolding parse_models is_distinct
parse_model_usage_list (some (arr vs)) = do
  models ← parse_models vs
  guard (is_distinct (model_names models))
  some models
parse_model_usage_list _ = none

-- `/^\d{4}-\d{2}-\d{2}T\d{2}:\d{2}:\d{2}\.\d{3}\+09:00$/`, with `d` for a digit
unfoldable pub fits : (pattern : Text) → Text → Bool
fits [] [] = true
fits (p ∷ ps) (c ∷ s) = (if p == b'd' then leb b'0' c && leb c b'9' else p == c) && fits ps s
fits _ _ = false

abbrev pub stamp_pattern : Text
stamp_pattern = lit "dddd-dd-ddTdd:dd:dd.ddd+09:00"

-- `a ?? b`, of values
abbrev pub or_value : Option Value → Option Value → Option Value
or_value none b = b
or_value (some null) b = b
or_value (some v) b = some v

module _ (t : Dates) where
  unfoldable pub required_usage_date : Option Value → Option Text
  required_usage_date value = do date ← required_string value; guard (t.is_day date); some date

  unfoldable pub required_jst_timestamp : Option Value → (date : Text) → Option Text
  unfolding fits
  required_jst_timestamp value date = do
    stamp ← required_string value
    guard (fits stamp_pattern stamp)
    guard (is_text (t.stamp_day stamp) date)
    some stamp

  unfoldable pub migrated_last_usage : (date : Text) → Text
  migrated_last_usage date =
      if starts_with t.modified_stamp (date ++ lit "T")
      then t.modified_stamp
      else date ++ lit "T00:00:00.000+09:00"

  -- What an entry without a date is read as: the day of the file, in the first version only.
  abbrev pub legacy_date : (version : ℕ) → Option Value
  legacy_date version = if version == 1 then some (str t.modified_day) else none

  abbrev pub last_usage_of : (version : ℕ) → Fields → (date : Text) → Option Text
  last_usage_of version fs date =
      if leb 3 version
      then required_jst_timestamp (property fs (lit "lastUsage")) date
      else some (migrated_last_usage date)

  -- Before version 4 all usage was that of the default model.
  abbrev pub models_of :
      (version : ℕ) → Fields → (requests : ℕ) → TokenUsage → Option (List ModelUsage)
  models_of version fs requests tokens =
      if version == 4
      then parse_model_usage_list (property fs (lit "models"))
      else some (record { model = default_model; requests = requests; tokens = tokens } ∷ [])

  unfoldable pub parse_user_usage : (version : ℕ) → Value → Option UserUsage
  unfolding required_usage_date required_jst_timestamp migrated_last_usage parse_tokens
  parse_user_usage version (obj fs) = do
    date ← required_usage_date (or_value (property fs (lit "date")) (legacy_date version))
    requests ← count_at fs (lit "requests")
    tokens ← parse_tokens fs
    last_usage ← last_usage_of version fs date
    models ← models_of version fs requests tokens
    subject ← required_string (property fs (lit "subject"))
    client_id ← required_string (property fs (lit "clientId"))
    scope ← required_string (property fs (lit "scope"))
    some (record {
      client_id = client_id;
      date = date;
      last_usage = last_usage;
      models = models;
      requests = requests;
      scope = scope;
      subject = subject;
      tokens = tokens;
    })
  parse_user_usage version _ = none

  unfoldable pub parse_users : (version : ℕ) → Items → Option (List UserUsage)
  unfolding parse_user_usage
  parse_users version nil = some []
  parse_users version (cons v vs) = do
    user ← parse_user_usage version v
    users ← parse_users version vs
    some (user ∷ users)

  abbrev pub users_of : (version : ℕ) → Option Value → Option (List UserUsage)
  users_of version (some (arr vs)) = parse_users version vs
  users_of version _ = none

  unfoldable pub parse_project : (version : ℕ) → Value → Option (Text × List UserUsage)
  unfolding parse_users
  parse_project version (obj fs) = do
    project ← required_string (property fs (lit "project"))
    users ← users_of version (property fs (lit "users"))
    some (project, users)
  parse_project version _ = none

  unfoldable pub parse_projects : (version : ℕ) → Items → Option (List (Text × List UserUsage))
  unfolding parse_project
  parse_projects version nil = some []
  parse_projects version (cons v vs) = do
    project ← parse_project version v
    projects ← parse_projects version vs
    some (project ∷ projects)

  abbrev pub version_of : Option Value → Option ℕ
  version_of (some (num (nat n))) = if leb 1 n && leb n 4 then some n else none
  version_of _ = none

  abbrev pub projects_of : (version : ℕ) → Option Value → Option (List (Text × List UserUsage))
  projects_of version (some (arr vs)) = parse_projects version vs
  projects_of version _ = none

  unfoldable pub parse_snapshot : Value → Option (List (Text × List UserUsage))
  unfolding parse_projects
  parse_snapshot (obj fs) = do
    version ← version_of (property fs (lit "version"))
    projects ← projects_of version (property fs (lit "projects"))
    guard (is_distinct (map (λ p. p.0) projects))
    some projects
  parse_snapshot _ = none

-- `load`, once the snapshot is parsed
unfoldable pub load_users : List UserUsage → Dict UserUsage → Dict UserUsage
load_users [] users = users
load_users (u ∷ us) users =
    load_users us (set users (usage_key u.date u.subject u.client_id u.scope) u)

unfoldable pub load_projects : List (Text × List UserUsage) → Projects → Projects
unfolding load_users
load_projects [] projects = projects
load_projects ((project, users) ∷ rest) projects =
    load_projects rest (set projects project (load_users users []))
